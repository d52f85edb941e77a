-- ===== src/Mbe/AwmClient.antt =====
-- src/masterBitgoExpress/clients/advancedWalletManagerClient.ts: the client of a wallet manager, its
-- construction and its calls for the keys and signatures of multisig wallets. Its other calls are in
-- Mpc.
pub mod Backup
pub mod Mpc
pub mod Methods
pub mod Calls
use advanced_wallets.Base.{
  given, ℕ, String, Bool, true, false, not, ◌&&◌, ◌||◌, Option, none, some, str_eq, ◌<>◌,
  if◌then◌else◌,
}
use advanced_wallets.Js.{Value, undefined, str, obj, Fields, end, ◌⨾◌, prop, is_num, text}
use advanced_wallets.Exec.{
  Exn, ErrorClass, Result, ok, err, Agent, Exec, http, Request, pure, throw, lift, perform,
  plain_error, exn_prop, ◌>>=◌,
}
use advanced_wallets.Shared.Types.{MasterExpressConfig, is_mtls}

abbrev or_empty : Option String → String
or_empty none = ""
or_empty (some s) = s

abbrev pub or_false : Option Bool → Bool
or_false none = false
or_false (some b) = b

pub record AwmClient : Type 0 where
  pub base_url : String
  pub awm_server_ca_cert : Option String
  pub awm_client_tls_key : Option String
  pub awm_client_tls_cert : Option String
  pub awm_server_cert_allow_self_signed : Bool
  pub coin : Option String
  pub mtls : Bool

-- The fields that the constructor sets.
abbrev pub client_of : MasterExpressConfig → Option String → AwmClient
client_of cfg coin = record {
  base_url = cfg.advanced_wallet_manager_url;
  awm_server_ca_cert = cfg.awm_server_ca_cert;
  awm_client_tls_key = cfg.awm_client_tls_key;
  awm_client_tls_cert = cfg.awm_client_tls_cert;
  awm_server_cert_allow_self_signed = or_false cfg.awm_server_cert_allow_self_signed;
  coin = coin;
  mtls = is_mtls cfg.tls_mode;
}

-- the constructor
unfoldable pub new_awm_client : MasterExpressConfig → Option String → Result AwmClient
new_awm_client cfg coin =
    if str_eq cfg.advanced_wallet_manager_url ""
    then err (plain_error "advancedWalletManagerUrl and awmServerCaCert are required")
    else if is_mtls cfg.tls_mode
        && (not (given cfg.awm_client_tls_key)
            || not (given cfg.awm_client_tls_cert)
            || not (given cfg.awm_server_ca_cert))
    then err (
        plain_error
          "awmClientTlsKey, awmClientTlsCert and awmServerCaCert are required for mTLS communication")
    else ok (client_of cfg coin)

unfoldable pub create_https_agent : AwmClient → Result Agent
create_https_agent client =
    if not (given client.awm_client_tls_key) || not (given client.awm_client_tls_cert)
    then err (plain_error "TLS key and certificate are required for HTTPS agent")
    else ok (record {
      ca = client.awm_server_ca_cert;
      cert = client.awm_client_tls_cert;
      key = client.awm_client_tls_key;
      reject_unauthorized = not client.awm_server_cert_allow_self_signed;
    })

unfoldable pub agent_of : AwmClient → Result (Option Agent)
unfolding create_https_agent
agent_of client =
    if client.mtls
    then elim (create_https_agent client) [ ok agent ↦ ok (some agent) | err e ↦ err e ]
    else ok none

unfoldable pub create_awm_client : MasterExpressConfig → Option String → Option AwmClient
create_awm_client cfg coin = elim (new_awm_client cfg coin) [
  | ok client ↦ some client
  | err e ↦ none
]

-- The configuration of the backup's client.
unfoldable pub backup_config : MasterExpressConfig → MasterExpressConfig
backup_config cfg = record cfg {
  advanced_wallet_manager_url = or_empty cfg.advanced_wallet_manager_backup_url;
  awm_server_ca_cert = cfg.awm_backup_server_ca_cert;
  awm_client_tls_key = cfg.awm_backup_client_tls_key;
  awm_client_tls_cert = cfg.awm_backup_client_tls_cert;
}

backup_failure : MasterExpressConfig → Exn → Exn
backup_failure cfg e = plain_error (
    "Failed to create backup advanced wallet manager client: "
    <> text (exn_prop e "message")
    <> ". Backup AWM URL is configured ("
    <> or_empty cfg.advanced_wallet_manager_backup_url
    <> ") but the client could not be initialized. Please verify your backup AWM TLS/mTLS configuration.")

unfoldable pub create_awm_backup_client :
    MasterExpressConfig → Option String → Result (Option AwmClient)
unfolding backup_config backup_failure
create_awm_backup_client cfg coin =
    if not (given cfg.advanced_wallet_manager_backup_url)
    then ok none
    else if is_mtls cfg.tls_mode && not (given cfg.awm_backup_server_ca_cert)
    then err (
        plain_error
          "awmBackupServerCaCert is required for mTLS communication with the backup AWM. Set AWM_BACKUP_SERVER_CA_CERT_PATH to the backup AWM server CA certificate.")
    else if is_mtls cfg.tls_mode
        && (not (given cfg.awm_backup_client_tls_key) || not (given cfg.awm_backup_client_tls_cert))
    then err (
        plain_error
          "awmBackupClientTlsKey and awmBackupClientTlsCert are required for mTLS communication with the backup AWM. Set AWM_BACKUP_CLIENT_TLS_KEY_PATH and AWM_BACKUP_CLIENT_TLS_CERT_PATH to the backup AWM client credentials.")
    else elim (new_awm_client (backup_config cfg) coin) [
      | ok client ↦ ok (some client)
      | err e ↦ err (backup_failure cfg e)
    ]

-- What `decodeExpecting(200)` throws for a response of another status.
abbrev decode_error : Value → Exn
decode_error response = record {
  class = ErrorClass.decode;
  own = ("name", str "DecodeError") ⨾ ("decodedResponse", response) ⨾ end;
}

abbrev pub request_of : AwmClient → String → String → Value → Option Agent → Request
request_of client method path body agent = record {
  method = method;
  url = client.base_url <> path;
  query = undefined;
  body = body;
  headers = end;
  timeout = 0;
  agent = agent;
}

-- `decodeExpecting(200)`
unfoldable pub decode_expecting_200 : Value → Exec Value
decode_expecting_200 response =
    if is_num (prop response "status") 200
    then pure (prop response "body")
    else throw (decode_error response)

-- One request of the typed client, with its agent.
unfoldable pub send_expecting_200 : AwmClient → String → String → Value → Exec Value
unfolding decode_expecting_200
send_expecting_200 client method path body = do
  agent ← lift (agent_of client)
  response ← perform (http (request_of client method path body agent))
  decode_expecting_200 response

-- `POST /api/{coin}{path}`
unfoldable pub post_expecting_200 : AwmClient → String → String → Fields → Exec Value
unfolding send_expecting_200
post_expecting_200 client coin path body =
    send_expecting_200 client "post" ("/api/" <> coin <> path) (obj body)

-- `if (!this.coin) throw …`
unfoldable pub with_coin : Option String → String → (String → Exec Value) → Exec Value
with_coin none doing next = throw (plain_error ("Coin must be specified " <> doing))
with_coin (some coin) doing next =
    if str_eq coin "" then throw (plain_error ("Coin must be specified " <> doing)) else next coin

unfoldable pub create_independent_keychain : AwmClient → Value → Value → Exec Value
unfolding with_coin
create_independent_keychain client source seed =
    with_coin client.coin "to create an independent keychain" λ coin.
      post_expecting_200 client coin "/key/independent" (("source", source) ⨾ ("seed", seed) ⨾ end)

-- The parameters are `{ source, pub, txPrebuild, walletPubs }`.
unfoldable pub sign_multisig : AwmClient → Value → Exec Value
unfolding with_coin
sign_multisig client params = with_coin client.coin "to sign a multisig" λ coin.
    post_expecting_200 client coin "/multisig/sign" (
      ("source", prop params "source")
      ⨾ ("pub", prop params "pub")
      ⨾ ("txPrebuild", prop params "txPrebuild")
      ⨾ ("walletPubs", prop params "walletPubs")
      ⨾ end)
