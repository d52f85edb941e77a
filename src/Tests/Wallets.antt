-- ===== src/Tests/Wallets.antt =====
-- Tests of the wallet manager.
use advanced_wallets.Base.{◌≡◌, refl, true, false, none, some, []}
use advanced_wallets.Js.{Value, undefined, str, obj, end, ◌⨾◌, prop, get, truthy}
use advanced_wallets.Exec.{ok, steady, run, dot}
use advanced_wallets.Exec.Only.{All}
use advanced_wallets.Shared.Types.{external, local, backup}
use advanced_wallets.Shared.HttpClient.{post_call}
use advanced_wallets.Shared.CoinUtils.{is_utxo_coin}
use advanced_wallets.Shared.CoinFactory.{get_coin}
use advanced_wallets.Awm.KeyProvider.{sign, new_key_provider, flagged, get_key_response_schema}
use advanced_wallets.Awm.KeyProvider.Calls.{get_key_call}
use advanced_wallets.Awm.Utils.{is_external_signing_enabled_for_coin, build_backup_kms_config}
use advanced_wallets.Awm.Utils.BackupKms.{backup_allow_self_signed}
use advanced_wallets.Awm.MultisigSign.{SignRequest, sign_multisig_transaction}
use advanced_wallets.Awm.MultisigSign.External.{SignsExternally, external_signing_calls}
use advanced_wallets.Awm.MultisigSign.Local.{LocalRun, local_signing_calls}
use advanced_wallets.Awm.IndependentKey.{KeyRequest, post_independent_key}
use advanced_wallets.Awm.IndependentKey.External.{generate_call, external_key_calls}
use advanced_wallets.Awm.Recovery.{recover_with_key_provider, recovery_multisig_transaction}
use advanced_wallets.Awm.Recovery.Request.{RecoveryRequest, user_key, backup_key}
use advanced_wallets.Awm.Recovery.External.{recover_transaction_externally, sign_step}
use advanced_wallets.Awm.Recovery.Separation.{UsesKey, recovery_key_separation}
use advanced_wallets.Awm.Recovery.Split.{split_recovery_agrees}
use advanced_wallets.Awm.Recovery.Split.Parts.{backup_part, both_parts}
use advanced_wallets.Tests.Data.{bitcoin, services, answer, world, silent_world, config, kms}

made_external : new_key_provider world (config external) ≡ ok kms
unfolding new_key_provider
made_external = refl

pub made_local : new_key_provider world (config local) ≡ ok kms
unfolding new_key_provider
made_local = refl

pub bitcoin_found : get_coin world "btc" ≡ ok bitcoin
unfolding get_coin
bitcoin_found = refl

bitcoin_external : is_external_signing_enabled_for_coin (config external) bitcoin ≡ true
unfolding is_external_signing_enabled_for_coin is_utxo_coin
bitcoin_external = refl

pub bitcoin_local : is_external_signing_enabled_for_coin (config local) bitcoin ≡ false
unfolding is_external_signing_enabled_for_coin
bitcoin_local = refl

abbrev sign_request : SignRequest
sign_request = record {
  coin = "btc";
  source = "user";
  pub_key = "xpub";
  tx_prebuild = obj (("txHex", str "00") ⨾ end);
  wallet_pubs = undefined;
}

external_signing_calls_example :
    All
      (SignsExternally kms sign_request)
      (run world (sign_multisig_transaction world (config external) sign_request) []).1
external_signing_calls_example =
    external_signing_calls world (config external) sign_request kms bitcoin made_external
      bitcoin_found bitcoin_external

abbrev key_answer : Value
key_answer = answer (
    obj (
      ("pub", str "xpub")
      ⨾ ("prv", str "xprv")
      ⨾ ("source", str "user")
      ⨾ ("type", str "independent")
      ⨾ end))

key_answer_valid : get_key_response_schema (prop key_answer "body") ≡ true
unfolding get_key_response_schema get
key_answer_valid = refl

local_signing_calls_example :
    LocalRun world sign_request bitcoin
      (get_key_call kms "xpub" "user")
      (run world (sign_multisig_transaction world (config local) sign_request) [])
local_signing_calls_example =
    local_signing_calls world (config local) sign_request made_local bitcoin_found bitcoin_local

made_silent : new_key_provider silent_world (config local) ≡ ok kms
unfolding new_key_provider
made_silent = refl

silent_found : get_coin silent_world "btc" ≡ ok bitcoin
unfolding get_coin
silent_found = refl

abbrev pub key_request : KeyRequest
key_request = record { coin = "btc"; source = "user"; seed = undefined }

external_key_calls_example :
    All
      (λ c. c ≡ generate_call kms key_request)
      (run world (post_independent_key world (config external) key_request) []).1
external_key_calls_example =
    external_key_calls world (config external) key_request kms bitcoin made_external bitcoin_found
      bitcoin_external refl

abbrev recovery_request : RecoveryRequest
recovery_request = record {
  coin = "btc";
  user_pub = "xpub";
  backup_pub = "xpub2";
  bitgo_pub = none;
  unsigned_sweep_prebuild_tx = obj (("txHex", str "00") ⨾ end);
  wallet_contract_address = str "";
  key_to_sign = some backup_key;
  half_signed_transaction = obj (("txHex", str "half") ⨾ end);
  env = "test";
}

recovery_key_separation_example :
    All
      (UsesKey backup)
      (run world (recovery_multisig_transaction world (config external) recovery_request) []).1
recovery_key_separation_example =
    recovery_key_separation world (config external) recovery_request backup_key refl

abbrev half : Value
half = obj (("txHex", str "signed") ⨾ end)

user_half :
    (run
      (steady world services)
      (recovery_multisig_transaction world
        (config external)
        (record recovery_request { key_to_sign = some user_key }))
      []).0
    ≡ ok half
unfolding recovery_multisig_transaction run get_coin is_external_signing_enabled_for_coin
    is_utxo_coin recover_with_key_provider new_key_provider dot recover_transaction_externally
    sign_step sign post_call get truthy
user_half = refl

split_recovery_agrees_example :
    (run
      (steady world services)
      (recovery_multisig_transaction world (config external) (backup_part recovery_request half))
      []).0
    ≡ (run
        (steady world services)
        (recovery_multisig_transaction world (config external) (both_parts recovery_request))
        []).0
unfolding is_external_signing_enabled_for_coin is_utxo_coin
split_recovery_agrees_example =
    split_recovery_agrees world services (config external) recovery_request bitcoin half
      bitcoin_found tt user_half

backup_allow_self_signed_example :
    flagged (build_backup_kms_config (config local)).key_provider_server_cert_allow_self_signed
    ≡ false
backup_allow_self_signed_example = backup_allow_self_signed (config local) refl
