-- ===== src/Exec/Only.antt =====
-- Which calls a handler may make, whatever the answers to them are.
use advanced_wallets.Base.{String, ◌≡◌, refl, Bool, true, false, List, [], ◌∷◌, if◌then◌else◌}
use advanced_wallets.Js.{Value, undefined, null}
use advanced_wallets.Exec.{
  Exn, Call, Result, ok, err, World, Exec, done, ask, catch, perform, throw_if, dot, ◌>>=◌, ◌>>◌,
  run,
}

-- Every call that the handler can make satisfies `P`.
pub data Only {ℓ} (P : Call → Type 0) {A : Type ℓ} : Exec A → Type ℓ where
  returns : (r : Result A) → Only P (done r)
  asks :
      (c : Call) (k : Result Value → Exec A)
      → P c
      → ((r : Result Value) → Only P (k r))
      → Only P (ask c k)

abbrev pub All : (Call → Type 0) → List Call → Type 0
All P [] = Unit
All P (c ∷ t) = P c × All P t

-- What holds of every call that can be made holds of every call that was made.
pub All-run {ℓ} :
    {A : Type ℓ} {P : Call → Type 0} (w : World) (m : Exec A) (t : List Call)
    → Only P m
    → All P t
    → All P (run w m t).1
unfolding run
All-run w (done r) t (returns _) h = h
All-run w (ask c k) t (asks _ _ p o) h =
    All-run w (k (w.reply t c)) (c ∷ t) (o (w.reply t c)) (p, h)

module _ {ℓ κ} {A : Type ℓ} {B : Type κ} {P : Call → Type 0} where
  pub Only-bind :
      (m : Exec A) (f : A → Exec B) → Only P m → ((a : A) → Only P (f a)) → Only P (m >>= f)
  Only-bind (done (ok a)) f (returns _) h = h a
  Only-bind (done (err e)) f (returns _) h = returns (err e)
  Only-bind (ask c k) f (asks _ _ p o) h = asks c _ p (λ r. Only-bind (k r) f (o r) h)

module _ {ℓ} {A : Type ℓ} {P : Call → Type 0} where
  pub Only-catch :
      (m : Exec A) (h : Exn → Exec A) → Only P m → ((e : Exn) → Only P (h e)) → Only P (catch m h)
  Only-catch (done (ok a)) h (returns _) o = returns (ok a)
  Only-catch (done (err e)) h (returns _) o = o e
  Only-catch (ask c k) h (asks _ _ p o) q = asks c _ p (λ r. Only-catch (k r) h (o r) q)

  pub Only-if :
      (b : Bool) (m n : Exec A)
      → (b ≡ true → Only P m)
      → (b ≡ false → Only P n)
      → Only P (if b then m else n)
  Only-if true m n hm hn = hm refl
  Only-if false m n hm hn = hn refl

module _ {ℓ} {A : Type ℓ} {P : Call → Type 0} where
  -- Past a guard, its test is known to be false.
  pub Only-guarded :
      (test : Bool) (e : Exn) (m : Exec A)
      → (test ≡ false → Only P m)
      → Only P (throw_if test e >> m)
  Only-guarded true e m h = returns _
  Only-guarded false e m h = h refl

module _ {P : Call → Type 0} where
  pub Only-perform : (c : Call) → P c → Only P (perform c)
  Only-perform c p = asks c done p returns

  pub Only-throw_if : (b : Bool) (e : Exn) → Only P (throw_if b e)
  Only-throw_if true e = returns _
  Only-throw_if false e = returns _

  pub Only-dot : (v : Value) (k : String) → Only P (dot v k)
  unfolding dot
  Only-dot undefined k = returns _
  Only-dot null k = returns _
  Only-dot _ k = returns _

pub ruleset only_rules =
    (returns, Only-bind, Only-catch, Only-if, Only-perform, Only-throw_if, Only-dot)
