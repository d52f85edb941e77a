-- ===== src/Awm/Recovery.antt =====
-- src/advancedWalletManager/handlers/multisigRecovery.ts: recovery of a multisig wallet, by one
-- manager that signs with both keys, or by two that sign with one key each (`keyToSign`).
pub mod Request
pub mod Evm
pub mod Utxo
pub mod External
pub mod Separation
pub mod Failures
pub mod Split
use advanced_wallets.Base.{
  String, Bool, true, false, not, ◌&&◌, ◌||◌, Option, none, some, ◌<>◌, if◌then◌else◌,
}
use advanced_wallets.Js.{Value, undefined, str, optional, truthy, prop, is_string}
use advanced_wallets.Exec.{
  Exn, World, Exec, Coin, Call, pure, throw, lift, throw_if, plain_error, dot, ◌>>=◌, ◌>>◌,
}
use advanced_wallets.Shared.Types.{AdvancedWalletManagerConfig}
use advanced_wallets.Shared.Errors.{bad_request_error}
use advanced_wallets.Shared.CoinUtils.{is_utxo_coin}
use advanced_wallets.Shared.CoinFactory.{get_coin}
use advanced_wallets.Awm.KeyProvider.{new_key_provider}
use advanced_wallets.Awm.Utils.{
  check_recovery_mode, retrieve_key_provider_prv_key, is_external_signing_enabled_for_coin,
}
use Request.{RecoveryRequest, signs_backup_only, signs_user_only}
use Evm.{recover_eth_like_multisig_transaction}
use Utxo.{recover_utxo_multisig_transaction}
use External.{recover_transaction_externally}

missing_key : String → String → Exn
missing_key owner pub_key =
    plain_error ("Error during recovery: missing " <> owner <> " prv key for pub=" <> pub_key)

-- The test under external signing for a backup signature of an EVM coin.
unfoldable pub check_external_backup : RecoveryRequest → Coin → Exec (Unit {0})
check_external_backup req coin =
    throw_if
      (signs_backup_only req.key_to_sign
        && coin.is_evm
        && (not (truthy req.half_signed_transaction)
            || not (is_string (prop req.half_signed_transaction "txHex"))))
      (bad_request_error
        "External backup signing for EVM coins requires halfSignedTransaction.txHex (a flat half-signed tx)")

module _ (w : World) where
  unfoldable pub recover_with_key_provider :
      AdvancedWalletManagerConfig → RecoveryRequest → Coin → Exec Value
  unfolding check_external_backup
  recover_with_key_provider cfg req coin = do
    check_external_backup req coin
    key_provider ← lift (new_key_provider w cfg)
    unsigned_tx_hex ← dot req.unsigned_sweep_prebuild_tx "txHex"
    recover_transaction_externally w key_provider req.user_pub req.backup_pub unsigned_tx_hex
        req.key_to_sign (prop req.half_signed_transaction "txHex")

  -- The keys for this signing step; `undefined` for a key that it does not use.
  unfoldable pub fetch_user_key : AdvancedWalletManagerConfig → RecoveryRequest → Exec Value
  fetch_user_key cfg req =
      if signs_backup_only req.key_to_sign
      then pure undefined
      else retrieve_key_provider_prv_key w req.user_pub "user" cfg

  unfoldable pub fetch_backup_key : AdvancedWalletManagerConfig → RecoveryRequest → Exec Value
  fetch_backup_key cfg req =
      if signs_user_only req.key_to_sign
      then pure undefined
      else retrieve_key_provider_prv_key w req.backup_pub "backup" cfg

  unfoldable pub recover_with_keys : RecoveryRequest → Coin → Value → Value → Exec Value
  unfolding missing_key
  recover_with_keys req coin user_prv backup_prv = do
    throw_if (not (signs_backup_only req.key_to_sign) && not (truthy user_prv))
        (missing_key "user" req.user_pub)
    throw_if (not (signs_user_only req.key_to_sign) && not (truthy backup_prv))
        (missing_key "backup" req.backup_pub)
    if coin.is_evm
        then recover_eth_like_multisig_transaction w req coin user_prv backup_prv
        else if is_utxo_coin coin
        then recover_utxo_multisig_transaction w req coin user_prv backup_prv
        else throw
            (w.method_not_implemented_error ("Unsupported coin type for recovery: " <> coin.shown))

  unfoldable pub recovery_multisig_transaction :
      AdvancedWalletManagerConfig → RecoveryRequest → Exec Value
  unfolding check_recovery_mode
  recovery_multisig_transaction cfg req = do
    check_recovery_mode cfg
    throw_if (signs_backup_only req.key_to_sign && not (truthy req.half_signed_transaction))
        (bad_request_error "halfSignedTransaction is required when keyToSign is \"backup\"")
    coin ← lift (get_coin w req.coin)
    if is_external_signing_enabled_for_coin cfg coin
        then recover_with_key_provider cfg req coin
        else (do
          user_prv ← fetch_user_key cfg req
          backup_prv ← fetch_backup_key cfg req
          recover_with_keys req coin user_prv backup_prv)
