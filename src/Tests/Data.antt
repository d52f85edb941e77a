-- ===== src/Tests/Data.antt =====
-- The concrete services, coins, configurations and requests of the tests.
use advanced_wallets.Base.{true, false, none, some, [], ◌<>◌, str_eq, if◌then◌else◌}
use advanced_wallets.Js.{Value, num, str, obj, end, ◌⨾◌, entries}
use advanced_wallets.Exec.{Call, http, sdk, Result, ok, err, World, Coin, btc, plain_error}
use advanced_wallets.Shared.Types.{
  AdvancedWalletManagerConfig, disabled, SigningMode, external, advanced_wallet_manager,
}
use advanced_wallets.Shared.HttpClient.{HttpClient}

abbrev pub bitcoin : Coin
bitcoin = record {
  name = "btc";
  shown = "btc";
  full_name = "Bitcoin";
  family = btc;
  features = [];
  family_text = "btc";
  mpc_algorithm = none;
  is_evm = false;
  supports_tss = false;
}

abbrev pub answer : Value → Value
answer body = obj (("status", num 200) ⨾ ("body", body) ⨾ end)

-- A key provider that holds every key and signs everything, and an SDK that returns its arguments.
abbrev pub services : Call → Result Value
services (http r) =
    if str_eq r.url "http://kms/sign"
    then ok (answer (obj (("signature", str "signed") ⨾ end)))
    else if str_eq r.url "http://kms/key/xpub"
    then ok (
        answer (
          obj (
            ("pub", str "xpub")
            ⨾ ("prv", str "xprv")
            ⨾ ("source", str "user")
            ⨾ ("type", str "independent")
            ⨾ end)))
    else if str_eq r.url "http://kms/key"
    then ok (
        answer (
          obj (
            ("pub", str "xpub")
            ⨾ ("coin", str "btc")
            ⨾ ("source", str "user")
            ⨾ ("type", str "independent")
            ⨾ end)))
    else err (plain_error "unreachable")
services (sdk object method args) =
    if str_eq method "keychains.create"
    then ok (obj (("pub", str "xpub") ⨾ ("prv", str "xprv") ⨾ end))
    else ok args

abbrev pub world : World
world = record {
  reply = λ t c. services c;
  coin = λ name. ok bitcoin;
  with_protocol = λ url protocol. ok (protocol <> "//" <> url);
  zod_message = λ schema v. "invalid " <> schema;
  ecdsa = "ecdsa";
  method_not_implemented_error = plain_error;
  pick = λ v keys. entries v;
}

-- The same, but nothing answers.
abbrev pub silent_world : World
silent_world = record world { reply = λ t c. err (plain_error "down") }

abbrev pub config : SigningMode → AdvancedWalletManagerConfig
config mode = record {
  base = record {
    app_mode = advanced_wallet_manager;
    port = 3080;
    bind = "localhost";
    ipc = none;
    timeout = 1000;
    keep_alive_timeout = none;
    headers_timeout = none;
    http_logger_file = "log";
    recovery_mode = some true;
  };
  key_provider_url = "kms";
  key_provider_server_ca_cert_path = none;
  key_provider_server_ca_cert = none;
  key_provider_client_tls_key_path = none;
  key_provider_client_tls_cert_path = none;
  key_provider_client_tls_key = none;
  key_provider_client_tls_cert = none;
  key_provider_server_cert_allow_self_signed = none;
  backup_kms_url = some "backup";
  backup_kms_server_ca_cert_path = none;
  backup_kms_server_ca_cert = none;
  backup_kms_client_tls_key_path = none;
  backup_kms_client_tls_cert_path = none;
  backup_kms_client_tls_key = none;
  backup_kms_client_tls_cert = none;
  backup_kms_server_cert_allow_self_signed = some true;
  server_tls_key_path = none;
  server_tls_cert_path = none;
  server_tls_key = none;
  server_tls_cert = none;
  tls_mode = disabled;
  mtls_allowed_client_fingerprints = none;
  client_cert_allow_self_signed = none;
  signing_mode = mode;
}

abbrev pub without_recovery : AdvancedWalletManagerConfig
without_recovery = record (config external) {
  base = record ((config external).base) { recovery_mode = none };
}

-- The client of the key provider for these configurations.
abbrev pub kms : HttpClient
kms = record { class_name = "KeyProviderClient"; url = "http://kms"; timeout = 1000; agent = none }
