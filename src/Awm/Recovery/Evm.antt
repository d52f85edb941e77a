-- ===== src/Awm/Recovery/Evm.antt =====
-- Recovery of an EVM wallet: the user's half, then the backup's.
use advanced_wallets.Base.{String, Bool, true, false, not, ◌<>◌, if◌then◌else◌}
use advanced_wallets.Js.{
  Value, bool, num, arr, nil, cons, obj, end, ◌⨾◌, truthy, prop, entries, spread, coalesce,
}
use advanced_wallets.Exec.{
  World, Exec, Coin, sdk, pure, perform, throw_if, plain_error, dot, ◌>>=◌, ◌>>◌,
}
use advanced_wallets.Shared.Errors.{bad_request_error}
use advanced_wallets.Shared.CoinUtils.{is_eth_like_coin}
use advanced_wallets.Shared.RecoveryUtils.{
  get_replay_protection_options, add_eth_like_recovery_extras, default_gas_price, default_gas_limit,
  default_eip1559,
}
use advanced_wallets.Awm.Recovery.Request.{
  RecoveryRequest, signs_backup_only, signs_user_only, is_signed_eth_like_recovery_tx,
}

-- `[walletKeys?.user?.xpub, walletKeys?.backup?.xpub, walletKeys?.bitgo?.xpub]`
abbrev wallet_pubs : Value → Value
wallet_pubs wallet_keys = arr (
    cons (prop (prop wallet_keys "user") "xpub") (
      cons (prop (prop wallet_keys "backup") "xpub")
        (cons (prop (prop wallet_keys "bitgo") "xpub") nil)))

-- `!recipients || recipients.length === 0`
abbrev no_recipients : Value → Bool
no_recipients (arr nil) = true
no_recipients v = not (truthy v)

unfoldable pub user_half_args : RecoveryRequest → Value → Value → Value
user_half_args req wallet_keys prv =
    let tx = req.unsigned_sweep_prebuild_tx in
    let options = get_replay_protection_options req.env (prop tx "replayProtectionOptions") in
    obj (
      ("isLastSignature", bool false)
      ⨾ ("prv", prv)
      ⨾ ("pubs", wallet_pubs wallet_keys)
      ⨾ ("keyList", wallet_keys)
      ⨾ ("recipients", coalesce (prop tx "recipients") (arr nil))
      ⨾ ("expireTime", prop tx "expireTime")
      ⨾ ("signingKeyNonce", prop tx "signingKeyNonce")
      ⨾ ("gasPrice", default_gas_price)
      ⨾ ("gasLimit", default_gas_limit)
      ⨾ ("eip1559", default_eip1559)
      ⨾ ("replayProtectionOptions", options)
      ⨾ (
        "txPrebuild",
        obj (
            spread (entries tx) (
              ("gasPrice", default_gas_price)
              ⨾ ("gasLimit", default_gas_limit)
              ⨾ ("eip1559", default_eip1559)
              ⨾ ("replayProtectionOptions", options)
              ⨾ end)),
      )
      ⨾ ("walletContractAddress", req.wallet_contract_address)
      ⨾ end)

unfoldable pub backup_half_args : RecoveryRequest → Value → Value → Value → Value
backup_half_args req wallet_keys prv half_signed_tx =
    let half_signed = prop half_signed_tx "halfSigned" in
    obj (
      ("isLastSignature", bool true)
      ⨾ ("prv", prv)
      ⨾ ("pubs", wallet_pubs wallet_keys)
      ⨾ ("keyList", wallet_keys)
      ⨾ ("recipients", coalesce (prop half_signed_tx "recipients") (arr nil))
      ⨾ ("expireTime", prop half_signed "expireTime")
      ⨾ ("signingKeyNonce", prop half_signed "backupKeyNonce")
      ⨾ ("gasPrice", default_gas_price)
      ⨾ ("gasLimit", default_gas_limit)
      ⨾ (
        "txPrebuild",
        obj (
            spread (entries half_signed_tx) (
              ("txHex", prop half_signed "txHex")
              ⨾ ("halfSigned", half_signed)
              ⨾ ("recipients", coalesce (prop half_signed "recipients") (arr nil))
              ⨾ ("gasPrice", default_gas_price)
              ⨾ ("gasLimit", default_gas_limit)
              ⨾ ("eip1559", default_eip1559)
              ⨾ (
                "replayProtectionOptions",
                get_replay_protection_options req.env
                    (prop half_signed_tx "replayProtectionOptions"),
              )
              ⨾ end)),
      )
      ⨾ ("walletContractAddress", req.wallet_contract_address)
      ⨾ ("backupKeyNonce", coalesce (prop half_signed "backupKeyNonce") (num 0))
      ⨾ end)

unfoldable pub sign_eth_like_user_half : RecoveryRequest → Coin → Value → Value → Exec Value
sign_eth_like_user_half req coin wallet_keys prv = do
  half_signed_tx_base ←
      perform (sdk coin.name "signTransaction" (user_half_args req wallet_keys prv))
  let tx = req.unsigned_sweep_prebuild_tx
  pure (
      obj (
        add_eth_like_recovery_extras req.env (entries half_signed_tx_base) tx false
          (prop tx "replayProtectionOptions")))

unfoldable pub sign_eth_like_backup_half :
    RecoveryRequest → Coin → Value → Value → Value → Exec Value
sign_eth_like_backup_half req coin wallet_keys prv half_signed_tx =
    perform (sdk coin.name "signTransaction" (backup_half_args req wallet_keys prv half_signed_tx))

unfoldable pub check_if_no_recipients : RecoveryRequest → Exec (Unit {0})
check_if_no_recipients req =
    throw_if (no_recipients (prop req.unsigned_sweep_prebuild_tx "recipients"))
      (plain_error ("Recovery tx for coin " <> req.coin <> " must have at least one recipient."))

abbrev not_half_signed : String
not_half_signed =
    "halfSignedTransaction must be an EVM half-signed recovery tx when keyToSign is \"backup\""

module _ (w : World) where
  unfoldable pub recover_eth_like_multisig_transaction :
      RecoveryRequest → Coin → Value → Value → Exec Value
  unfolding sign_eth_like_user_half sign_eth_like_backup_half check_if_no_recipients
  recover_eth_like_multisig_transaction req coin user_prv backup_prv = do
    throw_if (not (is_eth_like_coin coin))
        (w.method_not_implemented_error ("Unsupported EVM coin family for recovery: " <> req.coin))
    wallet_keys ← dot req.unsigned_sweep_prebuild_tx "xpubxWithDerivationPath"
    if signs_backup_only req.key_to_sign
        then (do
          throw_if (not (is_signed_eth_like_recovery_tx req.half_signed_transaction))
              (bad_request_error not_half_signed)
          sign_eth_like_backup_half req coin wallet_keys backup_prv req.half_signed_transaction)
        else (do
          check_if_no_recipients req
          half_signed_tx ← sign_eth_like_user_half req coin wallet_keys user_prv
          if signs_user_only req.key_to_sign
              then pure half_signed_tx
              else sign_eth_like_backup_half req coin wallet_keys backup_prv half_signed_tx)
