-- ===== src/Mbe/Consolidate/Outcome.antt =====
-- What a consolidation comes to.
use advanced_wallets.Base.{
  suc, ap, ◌≡◌, ◌∙◌, refl, Bool, true, false, List, [], ◌∷◌, arith, String, ltb, ◌<>◌,
  if◌then◌else◌,
}
use advanced_wallets.Js.{
  Value, undefined, obj, arr, num, str, end, ◌⨾◌, Items, nil, cons, get, has, truthy, decimal,
}
use advanced_wallets.Exec.{Call, Result, ok, err, World, Exec, done, ask, pure, run, ◌>>=◌}
use advanced_wallets.Exec.Laws.{run-bind, continue}
use advanced_wallets.Shared.Types.{AppMode}
use advanced_wallets.Shared.Response.{response_handler, default_body, encoded, sent_status}
use advanced_wallets.Mbe.Unspents.{count}
use advanced_wallets.Mbe.Consolidate.{
  attempt, sorted, consolidate_builds, consolidation_error, finish_consolidation,
  send_consolidations,
}

-- Each build sent in turn, alone: how it ended, and the calls so far.
abbrev pub outcomes :
    World → (Value → Exec Value) → Items → List Call → List (Result Value) × List Call
outcomes w send nil t = ([], t)
outcomes w send (cons b bs) t =
    let (r, u) = run w (send b) t in let (rs, v) = outcomes w send bs u in (r ∷ rs, v)

abbrev pub values : List (Result Value) → Items
values [] = nil
values (ok v ∷ rs) = cons v (values rs)
values (err e ∷ rs) = values rs

abbrev pub errors : List (Result Value) → Items
errors [] = nil
errors (ok v ∷ rs) = errors rs
errors (err e ∷ rs) = cons (obj e.own) (errors rs)

abbrev both_lists : Items → Items → Value
both_lists successful failed = obj (("success", arr successful) ⨾ ("failure", arr failed) ⨾ end)

-- Without a failure the lists are returned; else an error is thrown that has them as its `result`.
abbrev pub Settles : Items → Items → Result Value → Type 0
Settles successful nil outcome = outcome ≡ ok (both_lists successful nil)
Settles successful (cons f fs) (ok v) = ⊥
Settles successful (cons f fs) (err e) = get e.own "result" ≡ both_lists successful (cons f fs)

-- The end of the loop, by the outcome of the first build and those of the others.
abbrev with_first :
    Result Value → List (Result Value) × List Call → Result (Items × Items) × List Call
with_first r (rs, v) = (ok (values (r ∷ rs), errors (r ∷ rs)), v)

abbrev loop_end : List (Result Value) × List Call → Result (Items × Items) × List Call
loop_end (rs, v) = (ok (values rs, errors rs), v)

attempt_runs :
    (w : World) (m : Exec Value) (next : Result Value → Exec (Items × Items)) (t : List Call)
    → run w (attempt m >>= next) t ≡ run w (next (run w m t).0) (run w m t).1
unfolding run
attempt_runs w (done r) next t = refl
attempt_runs w (ask c k) next t = attempt_runs w (k (w.reply t c)) next _

end_by_first :
    (w : World) (r : Result Value) (o : List (Result Value) × List Call)
    → continue w (λ rest. pure (sorted r rest)) (loop_end o) ≡ with_first r o
unfolding run
end_by_first w (ok v) (rs, u) = refl
end_by_first w (err e) (rs, u) = refl

builds_run :
    (w : World) (send : Value → Exec Value) (builds : Items) (t : List Call)
    → run w (consolidate_builds send builds) t ≡ loop_end (outcomes w send builds t)
unfolding consolidate_builds run
builds_run w send nil t = refl
builds_run w send (cons b bs) t =
    let r = (run w (send b) t).0 in
    let u = (run w (send b) t).1 in
    attempt_runs w (send b) _ t
    ∙ run-bind w (consolidate_builds send bs) (λ rest. pure (sorted r rest)) u
    ∙ ap (continue w (λ rest. pure (sorted r rest))) (builds_run w send bs u)
    ∙ end_by_first w r (outcomes w send bs u)

finish-Settles :
    (w : World) (successful failed : Items) (t : List Call)
    → Settles successful failed (run w (finish_consolidation (successful, failed)) t).0
      × ((run w (finish_consolidation (successful, failed)) t).1 ≡ t)
unfolding finish_consolidation consolidation_error run get
finish-Settles w successful nil t = (refl, refl)
finish-Settles w successful (cons f fs) t =
    let some_failed : ltb 0 (suc (count fs)) ≡ true = ground arith in rw some_failed (refl, refl)

-- A consolidation of unsigned builds sends each of them once, in order, however the ones before
-- fared: its calls are those of the builds one after the other. What the sent ones returned is
-- listed under `success`, and what the others threw under `failure`, each in their order; if none
-- failed the two lists are returned, and otherwise an error with them as its `result` is thrown.
pub consolidate_builds_all :
    (w : World) (send : Value → Exec Value) (builds : Items) (t : List Call)
    → let rs = (outcomes w send builds t).0 in
      Settles (values rs) (errors rs) (run w (send_consolidations send builds) t).0
      × ((run w (send_consolidations send builds) t).1 ≡ (outcomes w send builds t).1)
unfolding send_consolidations
consolidate_builds_all w send builds t =
    rw
      (
        run-bind w (consolidate_builds send builds) finish_consolidation t,
        builds_run w send builds t,
      )
      (finish-Settles w _ _ _)

-- What the client is told of a consolidation that failed: how many transactions were sent.
abbrev pub summary : Items → Items → String
summary successful failed =
    if ltb 0 (count successful)
    then "Consolidations failed: "
      <> decimal (count failed)
      <> " and succeeded: "
      <> decimal (count successful)
    else "All consolidations failed"

-- A consolidation of which a part failed is answered 500 in both applications, although the error
-- carries the status 202 and the transactions that were sent. In production the whole body of the
-- response is the error's name and its message, which has the two counts: the status and the
-- transactions do not reach the client.
pub partial_consolidation_status :
    (mode : AppMode) (development : Bool) (successful failed : Items)
    → (sent_status (response_handler mode development (err (consolidation_error successful failed)))
        ≡ num 500)
      × (response_handler mode false (err (consolidation_error successful failed))
          ≡ encoded (num 500) (
              obj (
                ("error", str "Internal Server Error")
                ⨾ ("name", str "Error")
                ⨾ ("details", str (summary successful failed))
                ⨾ ("stack", undefined)
                ⨾ end)))
unfolding response_handler default_body consolidation_error get has truthy
partial_consolidation_status mode development successful failed = (ground arith, ground arith)
