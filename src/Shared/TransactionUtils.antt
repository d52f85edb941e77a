-- ===== src/Shared/TransactionUtils.antt =====
-- src/shared/transactionUtils.ts: the formats of an unsigned MPC transaction.
use advanced_wallets.Base.{String, Bool, true, false, ◌&&◌, ◌<>◌, if◌then◌else◌}
use advanced_wallets.Js.{
  Value, str, Fields, end, ◌⨾◌, entries, has, prop, truthy, is_string, or_else, arr, cons,
  undefined,
}
use advanced_wallets.Js.Json.{json}
use advanced_wallets.Exec.{Result, ok, err, plain_error}

-- `v[0]`, for an array
abbrev pub first_of : Value → Value
first_of (arr (cons v vs)) = v
first_of _ = undefined

abbrev pub is_filled : Value → Bool
is_filled (arr (cons v vs)) = true
is_filled _ = false

unfoldable pub is_mpc_tx : Value → Bool
is_mpc_tx tx = truthy tx && has (entries tx) "signableHex" && is_string (prop tx "signableHex")

unfoldable pub is_mpc_txs : Value → Bool
unfolding is_mpc_tx
is_mpc_txs tx =
    truthy tx
    && has (entries tx) "transactions"
    && is_filled (prop tx "transactions")
    && is_mpc_tx (first_of (prop tx "transactions"))

unfoldable pub is_mpc_unsigned_tx : Value → Bool
unfolding is_mpc_tx
is_mpc_unsigned_tx tx = has (entries tx) "unsignedTx" && is_mpc_tx (prop tx "unsignedTx")

unfoldable pub is_recovery_tx_request : Value → Bool
unfolding is_mpc_unsigned_tx
is_recovery_tx_request tx =
    has (entries tx) "walletCoin"
    && has (entries tx) "transactions"
    && is_filled (prop tx "transactions")
    && truthy (first_of (prop tx "transactions"))
    && is_mpc_unsigned_tx (first_of (prop tx "transactions"))

unfoldable pub is_mpc_sweep_txs : Value → Bool
unfolding is_recovery_tx_request
is_mpc_sweep_txs tx =
    has (entries tx) "txRequests"
    && is_filled (prop tx "txRequests")
    && truthy (first_of (prop tx "txRequests"))
    && is_recovery_tx_request (first_of (prop tx "txRequests"))

-- `{ signableHex: v[hex] || '', derivationPath: v.derivationPath || '' }`
abbrev info : Value → String → Fields
info v hex =
    ("signableHex", or_else (prop v hex) (str ""))
    ⨾ ("derivationPath", or_else (prop v "derivationPath") (str ""))
    ⨾ end

unfoldable pub extract_transaction_request_info : Value → Result Fields
extract_transaction_request_info tx =
    if is_mpc_txs tx
    then ok (info (first_of (prop tx "transactions")) "signableHex")
    else if is_mpc_tx tx
    then ok (info tx "signableHex")
    else if is_mpc_sweep_txs tx
    then ok (
        info (prop (first_of (prop (first_of (prop tx "txRequests")) "transactions")) "unsignedTx")
          "serializedTx")
    else if is_recovery_tx_request tx
    then ok (info (prop (first_of (prop tx "transactions")) "unsignedTx") "serializedTx")
    else err (plain_error ("Unrecognized transaction " <> json tx))
