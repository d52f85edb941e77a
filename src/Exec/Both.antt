-- ===== src/Exec/Both.antt =====
-- `Promise.all` of two handlers of one call each: both calls are made before either is answered.
use advanced_wallets.Base.{◌≡◌, refl, List, ◌∷◌}
use advanced_wallets.Js.{Value}
use advanced_wallets.Exec.{Exn, Call, Result, ok, err, World, Exec, done, ask, pure, throw, ◌>>=◌}
use advanced_wallets.Exec.History.{Along, ends, fails, calls}
use advanced_wallets.Exec.Only.{Only, returns}

module _ {ℓ κ} {A : Type ℓ} {B : Type κ} where
  abbrev then_with : B → A → Exec (A × B)
  then_with b a = pure (a, b)

  abbrev with_first : A → B → Exec (A × B)
  with_first a b = pure (a, b)

  -- The first error in order, where both fail. Where one fails before its call, the call of the
  -- other is made all the same.
  unfoldable pub both : Exec A → Exec B → Exec (A × B)
  both (done (ok a)) n = n >>= with_first a
  both (done (err e)) (done s) = throw e
  both (done (err e)) (ask d j) = ask d λ s. throw e
  both (ask c k) (done (ok b)) = ask c λ r. k r >>= then_with b
  both (ask c k) (done (err e)) = ask c λ r. throw e
  both (ask c k) (ask d j) = ask c λ r. ask d λ s. both (k r) (j s)

module _ {ℓ κ} {A : Type ℓ} {B : Type κ} {P : Call → Type 0} where
  then_pair : (m : Exec A) (b : B) → Only P m → Only P (m >>= then_with b)
  then_pair (done (ok a)) b (returns _) = returns _
  then_pair (done (err e)) b (returns _) = returns _
  then_pair (ask c k) b (Only.asks _ _ p o) = Only.asks c _ p λ r. then_pair (k r) b (o r)

  pair_then : (a : A) (n : Exec B) → Only P n → Only P (n >>= with_first a)
  pair_then a (done (ok b)) (returns _) = returns _
  pair_then a (done (err e)) (returns _) = returns _
  pair_then a (ask c k) (Only.asks _ _ p o) = Only.asks c _ p λ r. pair_then a (k r) (o r)

  pub Only-both : (m : Exec A) (n : Exec B) → Only P m → Only P n → Only P (both m n)
  unfolding both
  Only-both (done (ok a)) n (returns _) o = pair_then a n o
  Only-both (done (err e)) (done s) (returns _) (returns _) = returns _
  Only-both (done (err e)) (ask d j) (returns _) (Only.asks _ _ p o) =
      Only.asks d _ p λ s. returns _
  Only-both (ask c k) (done (ok b)) (Only.asks _ _ p o) (returns _) =
      Only.asks c _ p λ r. then_pair (k r) b (o r)
  Only-both (ask c k) (done (err e)) (Only.asks _ _ p o) (returns _) =
      Only.asks c _ p λ r. returns _
  Only-both (ask c k) (ask d j) (Only.asks _ _ p o) (Only.asks _ _ q u) =
      Only.asks c _ p λ r. Only.asks d _ q λ s. Only-both (k r) (j s) (o r) (u s)

-- The handler throws at once, or it makes one call, of which `P` holds.
pub data OneCall (P : Call → Type 0) {A : Type 0} : Exec A → Type 0 where
  refuses : (e : Exn) → OneCall P (done (err e))
  once :
      (c : Call) (k : Result Value → Exec A)
      → P c
      → ((r : Result Value) → (s : Result A) × (k r ≡ done s))
      → OneCall P (ask c k)

-- Since `t` two calls were made, of which `P` and `Q` hold.
abbrev pub Two : (Call → Type 0) → (Call → Type 0) → List Call → List Call → Type 0
Two P Q t u = (c : Call) × (d : Call) × P c × Q d × (u ≡ d ∷ c ∷ t)

abbrev pub AnyCall : List Call → Call → Type 0
AnyCall t c = Unit

module _ {A : Type 0} {B : Type 0} (w : World) {P Q : Call → Type 0} (t : List Call) where
  answered :
      (r : Result A) (s : Result B) (u : List Call)
      → Two P Q t u
      → Along w AnyCall (λ v p. Two P Q t v) (both (done r) (done s)) u
  unfolding both
  answered (ok a) (ok b) u h = ends (a, b) u h
  answered (ok a) (err e) u h = fails e u
  answered (err e) s u h = fails e u

  -- Where both return, both have made their call.
  pub Along-both :
      (m : Exec A) (n : Exec B)
      → OneCall P m
      → OneCall Q n
      → Along w AnyCall (λ v p. Two P Q t v) (both m n) t
  unfolding both
  Along-both (done (ok a)) n absent q = elim absent [ ]
  Along-both (done (err e)) (done (ok b)) p absent = elim absent [ ]
  Along-both (ask c k) (done (ok b)) p absent = elim absent [ ]
  Along-both (done (err e)) (done (err f)) (refuses _) (refuses _) = fails e t
  Along-both (done (err e)) (ask d j) (refuses _) (once _ _ q l) = calls d _ t tt (fails e _)
  Along-both (ask c k) (done (err e)) (once _ _ p l) (refuses _) = calls c _ t tt (fails e _)
  Along-both (ask c k) (ask d j) (once _ _ p l) (once _ _ q o) =
      let r = w.reply t c in
      let s = w.reply (c ∷ t) d in
      calls c _ t tt (
        calls d _ (c ∷ t) tt
          (rw ((l r).1, (o s).1) (answered (l r).0 (o s).0 (d ∷ c ∷ t) (c, d, p, q, refl))))
