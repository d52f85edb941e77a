-- ===== src/Tests/Recovery.antt =====
-- The theorem on the recoveries with two wallet managers, at concrete inputs.
use advanced_wallets.Base.{true, false, none, some, [], refl, String}
use advanced_wallets.Js.{Value, str, obj, end, ◌⨾◌, arr, nil, cons, get, truthy}
use advanced_wallets.Exec.{http, sdk, ok, World, eth, steady, run}
use advanced_wallets.Exec.History.{Each}
use advanced_wallets.Mbe.AwmClient.{AwmClient}
use advanced_wallets.Mbe.Recovery.{handle_recovery_wallet}
use advanced_wallets.Mbe.Recovery.Consolidations.{handle_recovery_consolidations}
use advanced_wallets.Mbe.Recovery.Request.{RecoveryRequest}
use advanced_wallets.Mbe.Recovery.Split.{split_recovery_calls}
use advanced_wallets.Mbe.Recovery.HalfSigned.{SplitCall}
use advanced_wallets.Tests.Data.{world, bitcoin, answer}
use advanced_wallets.Tests.Sending.{master_config}

abbrev manager_at : String → AwmClient
manager_at url = record {
  base_url = url;
  awm_server_ca_cert = none;
  awm_client_tls_key = none;
  awm_client_tls_cert = none;
  awm_server_cert_allow_self_signed = false;
  coin = some "hteth";
  mtls = false;
}

abbrev eth_world : World
eth_world =
    steady
      (record world { coin = λ name. ok (record bitcoin { family = eth; family_text = "eth" }) })
      λ c. elim c [
        | http r ↦ ok (answer (obj (("txHex", str "signed") ⨾ end)))
        | sdk object method args ↦
            ok (obj (("transactions", arr (cons (str "unsigned") nil)) ⨾ end))
      ]

abbrev wallet_keys : Value
wallet_keys = obj (
    ("userPub", str "user")
    ⨾ ("backupPub", str "backup")
    ⨾ ("bitgoPub", str "bitgo")
    ⨾ ("walletContractAddress", str "0x1")
    ⨾ end)

abbrev recovery : Value → RecoveryRequest
recovery decoded = record {
  config = record master_config { base = record master_config.base { recovery_mode = some true } };
  awm_user_client = manager_at "https://awm";
  awm_backup_client = manager_at "https://backup";
  has_separate_backup_awm = true;
  bridge_client = none;
  env = "test";
  decoded = decoded;
}

abbrev wallet_recovery : RecoveryRequest
wallet_recovery =
    recovery (obj (("coin", str "hteth") ⨾ ("multiSigRecoveryParams", wallet_keys) ⨾ end))

abbrev consolidation_recovery : RecoveryRequest
consolidation_recovery = recovery (
    obj (
      ("coin", str "hteth")
      ⨾ ("userPub", str "user")
      ⨾ ("backupPub", str "backup")
      ⨾ ("bitgoPub", str "bitgo")
      ⨾ end))

split_recovery_calls_example :
    Each
      (SplitCall eth_world (manager_at "https://awm") (manager_at "https://backup"))
      (run eth_world (handle_recovery_wallet eth_world wallet_recovery) []).1
    × Each
        (SplitCall eth_world (manager_at "https://awm") (manager_at "https://backup"))
        (run eth_world (handle_recovery_consolidations eth_world consolidation_recovery) []).1
unfolding get truthy
split_recovery_calls_example =
    split_recovery_calls eth_world wallet_recovery consolidation_recovery refl refl refl refl
