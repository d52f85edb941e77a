-- ===== src/Exec/Yields.antt =====
-- What holds of the value that a handler returns, whatever the answers to its calls are.
use advanced_wallets.Base.{◌≡◌, refl, ap, Bool, true, false, List, if◌then◌else◌}
use advanced_wallets.Exec.{
  Exn, Call, Result, ok, err, World, Exec, done, ask, catch, throw_if, ◌>>=◌, ◌>>◌, run,
}
use advanced_wallets.Exec.Only.{Only, returns}

abbrev value_or {ℓ} : {A : Type ℓ} → A → Result A → A
value_or b (ok a) = a
value_or b (err e) = b

pub data Yields {ℓ} {A : Type ℓ} (P : A → Type 0) : Exec A → Type ℓ where
  gives : (a : A) → P a → Yields P (done (ok a))
  fails : (e : Exn) → Yields P (done (err e))
  asks : (c : Call) (k : Result _ → Exec A) → ((r : Result _) → Yields P (k r)) → Yields P (ask c k)

module _ {ℓ κ} {A : Type ℓ} {B : Type κ} {P : B → Type 0} where
  pub Yields-bind : (m : Exec A) (f : A → Exec B) → ((a : A) → Yields P (f a)) → Yields P (m >>= f)
  Yields-bind (done (ok a)) f h = h a
  Yields-bind (done (err e)) f h = fails e
  Yields-bind (ask c k) f h = asks c _ (λ r. Yields-bind (k r) f h)

module _ {ℓ} {A : Type ℓ} {P : A → Type 0} where
  pub Yields-catch :
      (m : Exec A) (h : Exn → Exec A)
      → Yields P m
      → ((e : Exn) → Yields P (h e))
      → Yields P (catch m h)
  Yields-catch (done (ok a)) h (gives _ p) o = gives a p
  Yields-catch (done (err e)) h (fails _) o = o e
  Yields-catch (ask c k) h (asks _ _ p) o = asks c _ (λ r. Yields-catch (k r) h (p r) o)

  pub Yields-run :
      (w : World) (m : Exec A) (t : List Call) (a : A) → Yields P m → (run w m t).0 ≡ ok a → P a
  unfolding run
  Yields-run w (done (ok b)) t a (gives _ p) h = let e : b ≡ a = ap (value_or b) h in rw e at p
  Yields-run w (done (err e)) t a (fails _) h = absurd cc
  Yields-run w (ask c k) t a (asks _ _ y) h = Yields-run w (k _) _ a (y _) h

module _ {ℓ} {A : Type ℓ} {P : A → Type 0} where
  pub Yields-throw : (e : Exn) → Yields P (done (err e))
  Yields-throw e = fails e

module _ {ℓ κ} {A : Type ℓ} {B : Type κ} {Q : A → Type 0} {P : B → Type 0} where
  pub Yields-then :
      (m : Exec A) (f : A → Exec B)
      → Yields Q m
      → ((a : A) → Q a → Yields P (f a))
      → Yields P (m >>= f)
  Yields-then (done (ok a)) f (gives _ q) h = h a q
  Yields-then (done (err e)) f (fails _) h = fails e
  Yields-then (ask c k) f (asks _ _ y) h = asks c _ λ r. Yields-then (k r) f (y r) h

module _ {ℓ} {A : Type ℓ} {Q P : A → Type 0} where
  pub Yields-map : (m : Exec A) → Yields Q m → ((a : A) → Q a → P a) → Yields P m
  Yields-map (done (ok a)) (gives _ q) h = gives a (h a q)
  Yields-map (done (err e)) (fails _) h = fails e
  Yields-map (ask c k) (asks _ _ y) h = asks c k λ r. Yields-map (k r) (y r) h

pub Yields-last :
    {P : Unit {0} → Type 0} (test : Bool) (e : Exn) → P tt → Yields P (throw_if test e)
Yields-last true e p = fails e
Yields-last false e p = gives tt p

module _ {ℓ} {A : Type ℓ} {P : A → Type 0} where
  -- Past a guard, its test is known to be false.
  pub Yields-throw_if :
      (test : Bool) (e : Exn) (m : Exec A)
      → (test ≡ false → Yields P m)
      → Yields P (throw_if test e >> m)
  Yields-throw_if true e m h = fails e
  Yields-throw_if false e m h = h refl

module _ {ℓ} {A : Type ℓ} {P : A → Type 0} where
  pub Yields-if :
      (b : Bool) (m n : Exec A) → Yields P m → Yields P n → Yields P (if b then m else n)
  Yields-if true m n hm hn = hm
  Yields-if false m n hm hn = hn

pub ruleset yields_rules = (Yields-bind, Yields-catch, Yields-throw)

module _ {ℓ κ} {A : Type ℓ} {B : Type κ} {P : Call → Type 0} {Q : A → Type 0} where
  -- What the first part yields is known where the second part starts.
  pub Only-bind-Yields :
      (m : Exec A) (f : A → Exec B)
      → Only P m
      → Yields Q m
      → ((a : A) → Q a → Only P (f a))
      → Only P (m >>= f)
  Only-bind-Yields (done (ok a)) f (returns _) (gives _ q) h = h a q
  Only-bind-Yields (done (err e)) f (returns _) (fails _) h = returns _
  Only-bind-Yields (ask c k) f (Only.asks _ _ p o) (asks _ _ y) h =
      Only.asks c _ p (λ r. Only-bind-Yields (k r) f (o r) (y r) h)
