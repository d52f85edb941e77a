-- ===== src/Mbe/Unspents.antt =====
-- src/masterBitgoExpress/handlers/handleAccelerate.ts and handleConsolidateUnspents.ts
pub mod Async
use advanced_wallets.Base.{
  ℕ, zero, suc, String, Bool, true, false, not, ◌&&◌, Option, none, some, ◌==◌, ◌<>◌, if◌then◌else◌,
}
use advanced_wallets.Js.{
  Value, str, arr, Items, nil, cons, obj, Fields, end, ◌⨾◌, prop, set, entries, spread, is_text,
  truthy, decimal,
}
use advanced_wallets.Exec.{
  Exn, Result, ok, err, World, Coin, Exec, sdk, pure, throw, lift, perform, throw_if, plain_error,
  ◌>>=◌, ◌>>◌,
}
use advanced_wallets.Shared.Errors.{bad_request_error}
use advanced_wallets.Shared.CoinUtils.{is_utxo_coin}
use advanced_wallets.Mbe.Submit.{
  WpSubmitKind, accelerate, consolidate_unspents, SignJobContext, build_multisig_sign_body,
  submit_multisig_sign_job,
}
use advanced_wallets.Mbe.Wallets.{
  WalletKeychain, source_of, is_tss, get_wallet_and_signing_keychain, get_wallet_pubs,
  signing_closure,
}
use advanced_wallets.Mbe.SendMany.{
  MasterRequest, async_enabled, pending_job, verify_args, failed_validation,
}

-- The test of the transaction in both handlers.
unfoldable pub require_verified : Coin → Fields → Value → Value → Exec (Unit {0})
require_verified coin params tx_prebuilt wallet = do
  verified ← perform (sdk coin.name "verifyTransaction" (verify_args params tx_prebuilt wallet))
  throw_if (not (truthy verified)) (bad_request_error failed_validation)

-- `orThrow(…)`
unfoldable pub or_throw : String → Option String → Exec Value
or_throw message none = throw (plain_error message)
or_throw message (some job_id) = pure (pending_job job_id)

-- The end of both async handlers: the sign job of a verified transaction.
unfoldable pub submit_verified :
    World
    → MasterRequest
    → WpSubmitKind
    → String
    → WalletKeychain
    → Value
    → Fields
    → Value
    → Exec Value
submit_verified w req kind failure found pubs params tx_prebuilt = do
  require_verified found.base_coin params tx_prebuilt found.wallet
  sign_body ← lift (
      build_multisig_sign_body (source_of (prop req.decoded "source"))
        (prop found.signing_keychain "pub") tx_prebuilt pubs)
  job ←
      submit_multisig_sign_job w (async_enabled req) req.bridge_client req.coin
        (source_of (prop req.decoded "source")) sign_body
        (record { wallet_id = req.wallet_id; wp_submit_kind = kind; wp_submit_params = obj params })
  or_throw failure job

unfoldable pub acceleration_params : MasterRequest → Coin → Fields
acceleration_params req coin =
    spread (set (entries req.decoded) "recipients" (arr nil))
      (if is_utxo_coin coin then ("txFormat", str "psbt-lite") ⨾ end else end)

unfoldable pub handle_accelerate_async :
    World → MasterRequest → WalletKeychain → Value → Fields → Exec Value
handle_accelerate_async w req found pubs params = do
  tx_prebuilt ← perform (sdk found.base_coin.name "wallet.prebuildTransaction" (obj params))
  submit_verified w req accelerate "async accelerate job submission failed" found pubs params
      tx_prebuilt

unfoldable pub handle_accelerate : World → MasterRequest → Exec Value
handle_accelerate w req = do
  found ← get_wallet_and_signing_keychain w req.coin req.wallet_id req.decoded
  throw_if (is_tss found.wallet && async_enabled req)
      (bad_request_error "Async mode is not yet supported for TSS accelerate")
  pubs ← get_wallet_pubs found.base_coin found.wallet
  let params = acceleration_params req found.base_coin
  if async_enabled req
      then handle_accelerate_async w req found pubs params
      else perform (
          sdk found.base_coin.name "wallet.accelerateTransaction" (
            obj (
              spread params (
                (
                  "customSigningFunction",
                  signing_closure (prop req.decoded "source") (prop found.signing_keychain "pub")
                      pubs,
                )
                ⨾ end))))

abbrev pub count : Items → ℕ
count nil = 0
count (cons v vs) = suc (count vs)

unfoldable pub normalize_single_consolidate_response : Value → Result Value
normalize_single_consolidate_response (arr nil) = err (
    bad_request_error
      "Unable to build a consolidation transaction. No eligible unspents for this wallet")
normalize_single_consolidate_response (arr (cons v nil)) = ok v
normalize_single_consolidate_response (arr vs) = err (
    bad_request_error
      ("Expected single consolidation result, but received " <> decimal (count vs) <> " results"))
normalize_single_consolidate_response response = ok response

unfoldable pub handle_consolidate_unspents_async :
    World → MasterRequest → WalletKeychain → Value → Fields → Exec Value
handle_consolidate_unspents_async w req found pubs params = do
  response ← perform (
      sdk found.base_coin.name "wallet.consolidateUnspents"
        (arr (cons (obj params) (cons (str "BUILD_ONLY") nil))))
  tx_prebuilt ← lift (normalize_single_consolidate_response response)
  submit_verified w req consolidate_unspents "async consolidateUnspents job submission failed" found
      pubs params tx_prebuilt

unfoldable pub handle_consolidate_unspents : World → MasterRequest → Exec Value
handle_consolidate_unspents w req = do
  found ← get_wallet_and_signing_keychain w req.coin req.wallet_id req.decoded
  pubs ← get_wallet_pubs found.base_coin found.wallet
  let params = set (entries req.decoded) "txFormat" (str "psbt-lite")
  throw_if (truthy (prop req.decoded "bulk") && async_enabled req)
      (bad_request_error "Async mode does not support bulk consolidateUnspents")
  if async_enabled req then handle_consolidate_unspents_async w req found pubs params else (do
    response ← perform (
        sdk found.base_coin.name "wallet.consolidateUnspents" (
          obj (
            spread params (
              (
                "customSigningFunction",
                signing_closure (prop req.decoded "source") (prop found.signing_keychain "pub")
                    pubs,
              )
              ⨾ end))))
    lift (normalize_single_consolidate_response response))
