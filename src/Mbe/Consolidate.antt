-- ===== src/Mbe/Consolidate.antt =====
-- src/masterBitgoExpress/handlers/handleConsolidate.ts: the loop over the unsigned builds and what it
-- comes to. How a build is sent is an argument of the loop; the way of multisig wallets is below.
pub mod Outcome
pub mod Handler
use advanced_wallets.Base.{ℕ, zero, suc, String, Bool, ltb, Option, ◌<>◌, if◌then◌else◌}
use advanced_wallets.Js.{
  Value, num, str, arr, Items, nil, cons, obj, Fields, end, ◌⨾◌, prop, spread, entries, coalesce,
  decimal,
}
use advanced_wallets.Exec.{
  Exn, ErrorClass, Result, ok, err, World, Coin, Exec, sdk, done, ask, pure, throw, perform, ◌>>=◌,
}
use advanced_wallets.Mbe.Unspents.{count}
use advanced_wallets.Mbe.Wallets.{signing_closure}
use advanced_wallets.Mbe.SendMany.{MasterRequest}

-- `try { … } catch (e) { … }` around one build: the error is kept.
abbrev pub attempt : Exec Value → Exec (Result Value)
attempt (done r) = pure r
attempt (ask c k) = ask c (λ r. attempt (k r))

-- `successfulTxs.push(result)` or `failedTxs.push(e)`
abbrev sorted : Result Value → Items × Items → Items × Items
sorted (ok v) (s, f) = (cons v s, f)
sorted (err e) (s, f) = (s, cons (obj e.own) f)

unfoldable pub consolidate_builds : (Value → Exec Value) → Items → Exec (Items × Items)
consolidate_builds send nil = pure (nil, nil)
consolidate_builds send (cons build builds) = do
  r ← attempt (send build)
  rest ← consolidate_builds send builds
  pure (sorted r rest)

unfoldable pub consolidation_error : Items → Items → Exn
consolidation_error successful failed =
    let some_succeeded = ltb 0 (count successful) in
    record {
      class = ErrorClass.error;
      own =
          ("name", str "Error")
          ⨾ (
            "message",
            str (
                if some_succeeded
                then "Consolidations failed: "
                  <> decimal (count failed)
                  <> " and succeeded: "
                  <> decimal (count successful)
                else "All consolidations failed"),
          )
          ⨾ ("status", num (if some_succeeded then 202 else 500))
          ⨾ ("result", obj (("success", arr successful) ⨾ ("failure", arr failed) ⨾ end))
          ⨾ end;
    }

unfoldable pub finish_consolidation : Items × Items → Exec Value
finish_consolidation (successful, failed) =
    if ltb 0 (count failed)
    then throw (consolidation_error successful failed)
    else pure (obj (("success", arr successful) ⨾ ("failure", arr failed) ⨾ end))

-- The rest of the handler after `buildAccountConsolidations`.
unfoldable pub send_consolidations : (Value → Exec Value) → Items → Exec Value
send_consolidations send builds = do
  outcome ← consolidate_builds send builds
  finish_consolidation outcome

-- One build of a multisig wallet.
unfoldable pub send_account_consolidation :
    MasterRequest → Coin → Value → Value → Value → Exec Value
send_account_consolidation req coin keychain pubs build = perform (
    sdk coin.name "wallet.sendAccountConsolidation" (
      obj (
        spread (entries req.decoded) (
          (
            "prebuildTx",
            obj (
                spread (entries build) (
                  (
                    "buildParams",
                    obj (("recipients", coalesce (prop build "recipients") (arr nil)) ⨾ end),
                  )
                  ⨾ end)),
          )
          ⨾ (
            "customSigningFunction",
            signing_closure (prop req.decoded "source") (prop keychain "pub") pubs,
          )
          ⨾ end))))
