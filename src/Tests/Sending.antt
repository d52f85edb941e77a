-- ===== src/Tests/Sending.antt =====
-- Tests of the handlers of the master application that send transactions.
use advanced_wallets.Base.{◌≡◌, refl, true, false, none, some, List, [], str_eq, if◌then◌else◌}
use advanced_wallets.Js.{
  undefined, Items, Value, bool, num, str, arr, nil, cons, obj, end, ◌⨾◌, truthy,
}
use advanced_wallets.Exec.{Exec, Call, http, sdk, Result, ok, err, World, perform, run}
use advanced_wallets.Exec.Only.{All}
use advanced_wallets.Shared.Types.{MasterExpressConfig, mtls, master_express}
use advanced_wallets.Shared.Response.{encoded, response_handler, sent_status}
use advanced_wallets.Mbe.AwmClient.{AwmClient}
use advanced_wallets.Mbe.Submit.Posting.{OnlySubmitsJob}
use advanced_wallets.Mbe.SendMany.{MasterRequest, handle_send_many, send_many_multisig}
use advanced_wallets.Mbe.SendMany.Async.{async_send_many_calls}
use advanced_wallets.Mbe.SendMany.Verification.{
  verified, BuildsOrVerifies, unverified_send_many_calls,
}
use advanced_wallets.Mbe.Unspents.{handle_accelerate, handle_consolidate_unspents}
use advanced_wallets.Mbe.Unspents.Async.{async_unspents_calls}
use advanced_wallets.Mbe.Consolidate.{send_consolidations, consolidation_error}
use advanced_wallets.Mbe.Consolidate.Outcome.{
  outcomes, values, errors, Settles, summary, consolidate_builds_all, partial_consolidation_status,
}
use advanced_wallets.Mbe.Generate.{onchain_key_gen_callback, handle_generate_wallet}
use advanced_wallets.Mbe.Generate.Keys.{
  keygen_job_call, AsksOwnManager, async_generate_wallet_calls, onchain_key_calls,
}
use advanced_wallets.Tests.Data.{bitcoin, world}
use advanced_wallets.Tests.Master.{bridge}

abbrev pub master_config : MasterExpressConfig
master_config = record {
  base = record {
    app_mode = master_express;
    port = 3081;
    bind = "localhost";
    ipc = none;
    timeout = 1000;
    keep_alive_timeout = none;
    headers_timeout = none;
    http_logger_file = "log";
    recovery_mode = none;
  };
  env = "test";
  custom_root_uri = none;
  disable_env_check = none;
  auth_version = none;
  advanced_wallet_manager_url = "https://awm";
  advanced_wallet_manager_backup_url = some "https://backup";
  awm_server_ca_cert_path = none;
  awm_server_ca_cert = some "ca";
  awm_client_tls_key_path = none;
  awm_client_tls_cert_path = none;
  awm_client_tls_key = some "key";
  awm_client_tls_cert = some "cert";
  awm_server_cert_allow_self_signed = none;
  awm_backup_server_ca_cert_path = none;
  awm_backup_server_ca_cert = some "backup ca";
  awm_backup_client_tls_key_path = none;
  awm_backup_client_tls_cert_path = none;
  awm_backup_client_tls_key = some "backup key";
  awm_backup_client_tls_cert = some "backup cert";
  custom_bitcoin_network = none;
  server_tls_key_path = none;
  server_tls_cert_path = none;
  server_tls_key = none;
  server_tls_cert = none;
  tls_mode = mtls;
  mtls_allowed_client_fingerprints = none;
  client_cert_allow_self_signed = none;
  async_mode_config = record {
    enabled = true;
    awm_async_url = "http://bridge";
    poll_interval_in_ms = 5000;
    job_ttl_in_seconds = 3600;
    job_ttl_mpc_in_seconds = 3600;
  };
  bitgo_access_token = none;
}

abbrev user_client : AwmClient
user_client = record {
  base_url = "https://awm";
  awm_server_ca_cert = some "ca";
  awm_client_tls_key = some "key";
  awm_client_tls_cert = some "cert";
  awm_server_cert_allow_self_signed = false;
  coin = some "btc";
  mtls = true;
}

abbrev backup_client : AwmClient
backup_client = record {
  base_url = "https://backup";
  awm_server_ca_cert = some "backup ca";
  awm_client_tls_key = some "backup key";
  awm_client_tls_cert = some "backup cert";
  awm_server_cert_allow_self_signed = false;
  coin = some "btc";
  mtls = true;
}

abbrev master_request : MasterRequest
master_request = record {
  config = master_config;
  awm_user_client = user_client;
  awm_backup_client = backup_client;
  bridge_client = some bridge;
  coin = "btc";
  wallet_id = "w1";
  decoded = obj (("source", str "user") ⨾ ("pubkey", str "xpub") ⨾ end);
}

abbrev wallet : Value
wallet = obj (
    ("id", str "w1")
    ⨾ ("type", str "advanced")
    ⨾ ("multisigType", str "onchain")
    ⨾ ("keyIds", arr (cons (str "k0") (cons (str "k1") (cons (str "k2") nil))))
    ⨾ end)

-- BitGo knows the wallet and its keychains, but refuses to verify transactions.
abbrev platform : Call → Result Value
platform (http r) = ok (obj (("body", obj (("jobId", str "job1") ⨾ end)) ⨾ end))
platform (sdk object method args) =
    if str_eq method "wallets.get"
    then ok wallet
    else if str_eq method "keychains.get"
    then ok (obj (("pub", str "xpub") ⨾ end))
    else if str_eq method "verifyTransaction"
    then ok (bool false)
    else ok (obj (("txHex", str "00") ⨾ end))

abbrev bitgo : World
bitgo = record world { reply = λ t c. platform c }

async_send_many_calls_example :
    All (OnlySubmitsJob bridge "btc") (run bitgo (handle_send_many bitgo master_request) []).1
async_send_many_calls_example = async_send_many_calls bitgo master_request bridge refl refl

not_verified :
    (u : List Call) (args : Value)
    → verified (bitgo.reply u (sdk "btc" "verifyTransaction" args)) ≡ false
unfolding truthy
not_verified u args = refl

unverified_send_many_calls_example :
    All BuildsOrVerifies
      (run bitgo
        (send_many_multisig bitgo master_request bitcoin wallet (obj (("pub", str "xpub") ⨾ end)))
        []).1
unverified_send_many_calls_example =
    unverified_send_many_calls bitgo master_request bitcoin wallet (obj (("pub", str "xpub") ⨾ end))
      not_verified

async_generate_wallet_calls_example :
    All
      (λ c. c ≡ keygen_job_call bridge master_request)
      (run bitgo (handle_generate_wallet bitgo master_request) []).1
async_generate_wallet_calls_example =
    async_generate_wallet_calls bitgo master_request bridge refl refl

onchain_key_calls_example :
    All
      (AsksOwnManager user_client backup_client "backup")
      (run bitgo (onchain_key_gen_callback user_client backup_client "backup") []).1
onchain_key_calls_example = onchain_key_calls bitgo user_client backup_client "backup"

async_unspents_calls_example :
    All (OnlySubmitsJob bridge "btc") (run bitgo (handle_accelerate bitgo master_request) []).1
    × All
        (OnlySubmitsJob bridge "btc")
        (run bitgo (handle_consolidate_unspents bitgo master_request) []).1
async_unspents_calls_example = async_unspents_calls bitgo master_request bridge refl refl

abbrev send_build : Value → Exec Value
send_build b = perform (sdk "btc" "wallet.sendAccountConsolidation" b)

abbrev two_builds : Items
two_builds = cons (str "a") (cons (str "b") nil)

consolidate_builds_all_example :
    let rs = (outcomes bitgo send_build two_builds []).0 in
    Settles (values rs) (errors rs) (run bitgo (send_consolidations send_build two_builds) []).0
    × ((run bitgo (send_consolidations send_build two_builds) []).1
        ≡ (outcomes bitgo send_build two_builds []).1)
consolidate_builds_all_example = consolidate_builds_all bitgo send_build two_builds []

partial_consolidation_status_example :
    (sent_status (
        response_handler master_express false
          (err (consolidation_error (cons (str "tx") nil) (cons (str "failed") nil))))
      ≡ num 500)
    × (response_handler master_express false
          (err (consolidation_error (cons (str "tx") nil) (cons (str "failed") nil)))
        ≡ encoded (num 500) (
            obj (
              ("error", str "Internal Server Error")
              ⨾ ("name", str "Error")
              ⨾ ("details", str (summary (cons (str "tx") nil) (cons (str "failed") nil)))
              ⨾ ("stack", undefined)
              ⨾ end)))
partial_consolidation_status_example =
    partial_consolidation_status master_express false (cons (str "tx") nil)
      (cons (str "failed") nil)
