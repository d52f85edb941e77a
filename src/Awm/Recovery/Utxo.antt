-- ===== src/Awm/Recovery/Utxo.antt =====
-- Recovery of a UTXO wallet: the user's half, then the backup's.
use advanced_wallets.Base.{
  String, true, false, not, ◌&&◌, Option, none, some, str_eq, if◌then◌else◌,
}
use advanced_wallets.Js.{Value, bool, str, arr, nil, cons, obj, end, ◌⨾◌, truthy, prop}
use advanced_wallets.Exec.{
  World, Exec, Coin, sdk, pure, perform, throw_if, plain_error, dot, ◌>>=◌, ◌>>◌,
}
use advanced_wallets.Shared.Errors.{bad_request_error}
use advanced_wallets.Shared.CoinUtils.{is_formatted_offline_vault_tx_info}
use advanced_wallets.Awm.Recovery.Request.{
  RecoveryRequest, signs_backup_only, signs_user_only, is_half_signed_utxo_transaction,
}

-- `[userPub, backupPub, bitgoPub]`
abbrev wallet_pubs : RecoveryRequest → String → Value
wallet_pubs req bitgo_pub =
    arr (cons (str req.user_pub) (cons (str req.backup_pub) (cons (str bitgo_pub) nil)))

unfoldable pub pub_or_empty : Option String → String
pub_or_empty none = ""
pub_or_empty (some s) = s

unfoldable pub half_tx_args : Value → Value → Value → Value
half_tx_args tx pubs prv = obj (
    ("isLastSignature", bool false)
    ⨾ ("txPrebuild", obj (("txHex", prop tx "txHex") ⨾ ("txInfo", prop tx "txInfo") ⨾ end))
    ⨾ ("allowNonSegwitSigningWithoutPrevTx", bool true)
    ⨾ ("pubs", pubs)
    ⨾ ("prv", prv)
    ⨾ end)

unfoldable pub full_tx_args : Value → Value → Value → Value → Value
full_tx_args tx_hex tx_info pubs prv = obj (
    ("isLastSignature", bool true)
    ⨾ ("txPrebuild", obj (("txHex", tx_hex) ⨾ ("txInfo", tx_info) ⨾ end))
    ⨾ ("pubs", pubs)
    ⨾ ("prv", prv)
    ⨾ end)

unfoldable pub sign_utxo_half_tx : RecoveryRequest → Coin → Value → Value → Exec Value
sign_utxo_half_tx req coin pubs user_prv =
    perform
      (sdk coin.name "signTransaction" (half_tx_args req.unsigned_sweep_prebuild_tx pubs user_prv))

unfoldable pub sign_utxo_full_tx : Coin → Value → Value → Value → Value → Exec Value
sign_utxo_full_tx coin pubs backup_prv tx_hex tx_info =
    perform (sdk coin.name "signTransaction" (full_tx_args tx_hex tx_info pubs backup_prv))

abbrev not_half_signed : String
not_half_signed =
    "halfSignedTransaction must be a UTXO half-signed tx { txHex } when keyToSign is \"backup\""

module _ (w : World) where
  unfoldable pub recover_utxo_multisig_transaction :
      RecoveryRequest → Coin → Value → Value → Exec Value
  unfolding sign_utxo_half_tx sign_utxo_full_tx
  recover_utxo_multisig_transaction req coin user_prv backup_prv =
      let tx = req.unsigned_sweep_prebuild_tx in
      let bitgo_pub = pub_or_empty req.bitgo_pub in
      let pubs = wallet_pubs req bitgo_pub in
      do
        throw_if
            (not (signs_backup_only req.key_to_sign) && not (is_formatted_offline_vault_tx_info tx))
            (w.method_not_implemented_error "Unknown recovery transaction format")
        throw_if (str_eq bitgo_pub "") (plain_error "Unable to recover without bitgo public key")
        if signs_backup_only req.key_to_sign
            then (do
              throw_if (not (is_half_signed_utxo_transaction req.half_signed_transaction))
                  (bad_request_error not_half_signed)
              tx_info ← dot tx "txInfo"
              throw_if (not (truthy tx_info)) (
                  bad_request_error
                    "unsignedSweepPrebuildTx.txInfo is required for backup-only UTXO recovery")
              sign_utxo_full_tx coin pubs backup_prv (prop req.half_signed_transaction "txHex")
                  tx_info)
            else (do
              half_signed ← sign_utxo_half_tx req coin pubs user_prv
              if signs_user_only req.key_to_sign then pure half_signed else (do
                tx_hex ← dot half_signed "txHex"
                sign_utxo_full_tx coin pubs backup_prv tx_hex (prop tx "txInfo")))
