-- ===== src/Exec/Silent.antt =====
-- The calls of a kind that a handler makes, where its first part makes none of that kind.
use advanced_wallets.Base.{◌≡◌, Bool, false, List, [], ◌∷◌, if◌then◌else◌}
use advanced_wallets.Js.{Value}
use advanced_wallets.Exec.{Exn, Call, Result, ok, err, Exec, done, ask, catch, ◌>>=◌}
use advanced_wallets.Exec.Only.{Only}
use advanced_wallets.Exec.Pool.{calls}

unfoldable pub select : (Call → Bool) → List Call → List Call
select test [] = []
select test (c ∷ t) = let rest = select test t in if test c then c ∷ rest else rest

-- Until it throws, returns or goes on as `T` says, the handler makes no call that passes the test.
pub data Silent {ℓ} (test : Call → Bool) {A : Type ℓ} (T : Exec A → Type 0) : Exec A → Type ℓ where
  settled : (r : Result A) → Silent test T (done r)
  asks :
      (c : Call) (k : Result Value → Exec A)
      → test c ≡ false
      → ((r : Result Value) → Silent test T (k r))
      → Silent test T (ask c k)
  goes_on : (m : Exec A) → T m → Silent test T m

module _ {ℓ κ} {A : Type ℓ} {B : Type κ} {test : Call → Bool} {T : Exec B → Type 0} where
  pub Silent-bind :
      (m : Exec A) (f : A → Exec B)
      → Only (λ c. test c ≡ false) m
      → ((a : A) → Silent test T (f a))
      → Silent test T (m >>= f)
  Silent-bind (done (ok a)) f (Only.returns _) h = h a
  Silent-bind (done (err e)) f (Only.returns _) h = settled (err e)
  Silent-bind (ask c k) f (Only.asks _ _ p o) h = asks c _ p (λ r. Silent-bind (k r) f (o r) h)

module _ {ℓ} {A : Type ℓ} (test : Call → Bool) (T : Exec A → Type 0) (Q : List Call → Type 0)
    (none_made : Q []) (h : Exn → Exec A)
    (after : (m : Exec A) (answers : List (Result Value))
      → T m
      → Q (select test (calls (catch m h) answers)))
    (rescued : (e : Exn) (answers : List (Result Value))
      → Q (select test (calls (h e) answers))) where
  -- What holds of the calls that come after the silent part holds of all.
  pub select-Silent :
      (m : Exec A) (answers : List (Result Value))
      → Silent test T m
      → Q (select test (calls (catch m h) answers))
  unfolding select calls
  select-Silent (done (ok a)) [] (settled _) = none_made
  select-Silent (done (ok a)) (_ ∷ _) (settled _) = none_made
  select-Silent (done (err e)) answers (settled _) = rescued e answers
  select-Silent (ask c k) [] (asks _ _ p o) = none_made
  select-Silent (ask c k) (a ∷ answers) (asks _ _ p o) = rw p (select-Silent (k a) answers (o a))
  select-Silent m answers (goes_on _ t) = after m answers t
