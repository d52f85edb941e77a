-- ===== src/Exec/Steady.antt =====
-- Handlers in a world whose answers do not depend on the calls before them.
use advanced_wallets.Base.{◌≡◌, refl, List}
use advanced_wallets.Js.{Value}
use advanced_wallets.Exec.{Call, Result, ok, err, World, steady, Exec, done, ask, ◌>>=◌, run}

module _ {ℓ} {A : Type ℓ} (answers : Call → Result Value) where
  -- What a handler comes to.
  unfoldable pub outcome : Exec A → Result A
  outcome (done r) = r
  outcome (ask c k) = outcome (k (answers c))

  pub run-steady :
      (w : World) (m : Exec A) (t : List Call) → (run (steady w answers) m t).0 ≡ outcome m
  unfolding run outcome
  run-steady w (done r) t = refl
  run-steady w (ask c k) t = run-steady w (k (answers c)) _

module _ {ℓ κ} {A : Type ℓ} {B : Type κ} (answers : Call → Result Value) where
  abbrev pub next_step : (A → Exec B) → Result A → Result B
  next_step f (ok a) = outcome answers (f a)
  next_step f (err e) = err e

  pub outcome-bind :
      (m : Exec A) (f : A → Exec B) → outcome answers (m >>= f) ≡ next_step f (outcome answers m)
  unfolding outcome
  outcome-bind (done (ok a)) f = refl
  outcome-bind (done (err e)) f = refl
  outcome-bind (ask c k) f = outcome-bind (k (answers c)) f

-- A step whose continuation came to a value came to a value itself.
pub next_step-ok {ℓ κ} :
    {A : Type ℓ} {B : Type κ} (answers : Call → Result Value) (f : A → Exec B) (r : Result A)
    {b : B}
    → next_step answers f r ≡ ok b
    → (a : A) × (r ≡ ok a) × (outcome answers (f a) ≡ ok b)
next_step-ok answers f (ok a) h = (a, refl, h)
next_step-ok answers f (err e) h = cc

pub next_step_ext {ℓ κ} :
    {A : Type ℓ} {B : Type κ} (answers : Call → Result Value) (f g : A → Exec B) (r : Result A)
    → ((a : A) → outcome answers (f a) ≡ outcome answers (g a))
    → next_step answers f r ≡ next_step answers g r
next_step_ext answers f g (ok a) h = h a
next_step_ext answers f g (err e) h = refl
