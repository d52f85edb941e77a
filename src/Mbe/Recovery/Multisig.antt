-- ===== src/Mbe/Recovery/Multisig.antt =====
-- src/masterBitgoExpress/handlers/recoveryWallet.ts: the recovery of multisig wallets, by one wallet
-- manager or by two.
use advanced_wallets.Base.{
  String, true, not, ◌||◌, Option, none, some, [], ◌∷◌, ◌<>◌, if◌then◌else◌,
}
use advanced_wallets.Js.{
  Value, undefined, bool, str, obj, Fields, end, ◌⨾◌, arr, nil, spread, prop, truthy, text, or_else,
  coalesce,
}
use advanced_wallets.Js.Json.{json}
use advanced_wallets.Exec.{
  World, Exec, Coin, sdk, pure, throw, throw_if, perform, plain_error, ◌>>=◌, ◌>>◌,
}
use advanced_wallets.Shared.Types.{user}
use advanced_wallets.Shared.CoinUtils.{
  is_utxo_coin, is_eth_like_coin, is_formatted_offline_vault_tx_info,
}
use advanced_wallets.Shared.RecoveryUtils.{
  get_replay_protection_options, default_gas_price, default_gas_limit, default_eip1559,
}
use advanced_wallets.Mbe.AwmClient.Mpc.{recovery_multisig_user_half_sign, recovery_multisig}
use advanced_wallets.Mbe.Submit.{submit_multisig_recovery_job}
use advanced_wallets.Mbe.SendMany.{pending_job}
use advanced_wallets.Mbe.Recovery.Request.{RecoveryRequest, async_enabled}

-- The user's manager signs its half, and the backup's manager the rest.
unfoldable pub recover_with_two_managers : RecoveryRequest → Fields → Exec Value
recover_with_two_managers req body = do
  half_signed ← recovery_multisig_user_half_sign req.awm_user_client body
  recovery_multisig req.awm_backup_client
      (spread body (("keyToSign", str "backup") ⨾ ("halfSignedTransaction", half_signed) ⨾ end))

-- `if (asyncResult) return asyncResult`
abbrev pub submitted_or_recovered : RecoveryRequest → Fields → Option String → Exec Value
submitted_or_recovered req body (some job_id) = pure (pending_job job_id)
submitted_or_recovered req body none = recovery_multisig req.awm_user_client body

abbrev common_recovery_params : Value → Value → Value → Value → Value → Fields
common_recovery_params user_key backup_key contract destination api_key =
    ("userKey", user_key)
    ⨾ ("backupKey", backup_key)
    ⨾ ("walletContractAddress", contract)
    ⨾ ("recoveryDestination", destination)
    ⨾ ("apiKey", api_key)
    ⨾ end

abbrev eth_like_options : String → Value → Fields
eth_like_options env api_key =
    ("gasPrice", default_gas_price)
    ⨾ ("gasLimit", default_gas_limit)
    ⨾ ("eip1559", default_eip1559)
    ⨾ ("replayProtectionOptions", get_replay_protection_options env undefined)
    ⨾ ("apiKey", api_key)
    ⨾ ("isUnsignedSweep", bool true)
    ⨾ end

abbrev utxo_params : RecoveryRequest → Value → Value → Value → Value → Value
utxo_params req user_pub backup_pub bitgo_pub api_key =
    let options = prop (prop req.decoded "coinSpecificParams") "utxoRecoveryOptions" in
    obj (
      ("userKey", user_pub)
      ⨾ ("backupKey", backup_pub)
      ⨾ ("bitgoKey", bitgo_pub)
      ⨾ ("ignoreAddressTypes", coalesce (prop options "ignoreAddressTypes") (arr nil))
      ⨾ ("scan", prop options "scan")
      ⨾ ("feeRate", prop options "feeRate")
      ⨾ ("recoveryDestination", prop req.decoded "recoveryDestinationAddress")
      ⨾ ("apiKey", api_key)
      ⨾ end)

abbrev check_pub : Coin → Value → String → Exec (Unit {0})
check_pub coin key message = do
  valid ← perform (sdk coin.name "isValidPub" key)
  throw_if (not (truthy valid)) (plain_error message)

module _ (w : World) (req : RecoveryRequest) where
  unfoldable pub recover_multisig_or_submit_job : Fields → Exec Value
  recover_multisig_or_submit_job body =
      if req.has_separate_backup_awm then recover_with_two_managers req body else (do
        job ←
            submit_multisig_recovery_job w (async_enabled req) req.bridge_client
              (text (prop req.decoded "coin")) (obj body) (user ∷ [])
        submitted_or_recovered req body job)

  unfoldable pub handle_eth_like_recovery : Coin → Value → Value → Value → Value → Exec Value
  handle_eth_like_recovery coin user_pub backup_pub contract api_key = do
    unsigned ← perform (
        sdk coin.name "recover" (
          obj (
            spread
              (common_recovery_params user_pub backup_pub contract
                (prop req.decoded "recoveryDestinationAddress") api_key)
              (eth_like_options req.env api_key))))
    recover_multisig_or_submit_job (
        ("userPub", user_pub)
        ⨾ ("backupPub", backup_pub)
        ⨾ ("unsignedSweepPrebuildTx", unsigned)
        ⨾ ("walletContractAddress", contract)
        ⨾ end)

  unfoldable pub handle_utxo_like_recovery : Coin → Value → Value → Value → Value → Exec Value
  handle_utxo_like_recovery coin user_pub backup_pub bitgo_pub api_key = do
    recover_tx ←
        perform (sdk coin.name "recover" (utxo_params req user_pub backup_pub bitgo_pub api_key))
    throw_if (not (is_formatted_offline_vault_tx_info recover_tx))
        (w.method_not_implemented_error ("Unknown transaction " <> json recover_tx <> " created"))
    recover_multisig_or_submit_job (
        ("userPub", user_pub)
        ⨾ ("backupPub", backup_pub)
        ⨾ ("bitgoPub", bitgo_pub)
        ⨾ ("unsignedSweepPrebuildTx", recover_tx)
        ⨾ ("walletContractAddress", str "")
        ⨾ end)

  unfoldable pub recover_standard : Coin → Exec Value
  recover_standard coin = do
    let params = prop req.decoded "multiSigRecoveryParams"
    throw_if (not (truthy params))
        (plain_error "MultiSig recovery parameters are required for standard recovery")
    let user_pub = prop params "userPub"
    let backup_pub = prop params "backupPub"
    let bitgo_pub = prop params "bitgoPub"
    let contract = prop params "walletContractAddress"
    let api_key = or_else (prop req.decoded "apiKey") (str "")
    throw_if (not (truthy user_pub) || not (truthy backup_pub))
        (plain_error "Missing required fields for standard recovery")
    check_pub coin user_pub "Invalid user public key format"
    check_pub coin backup_pub "Invalid backup public key format"
    if is_eth_like_coin coin
        then (throw_if (not (truthy contract)) (plain_error "Missing walletContract address")
            >> handle_eth_like_recovery coin user_pub backup_pub contract api_key)
        else (do
          throw_if (not (truthy bitgo_pub))
              (plain_error "BitGo public key is required for recovery")
          if is_utxo_coin coin
              then handle_utxo_like_recovery coin user_pub backup_pub bitgo_pub api_key
              else throw (
                  w.method_not_implemented_error (
                    "Recovery wallet is not supported for this coin: "
                    <> text (prop req.decoded "coin"))))
