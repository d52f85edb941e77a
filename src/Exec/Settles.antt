-- ===== src/Exec/Settles.antt =====
-- How many answers a handler waits for at most.
use advanced_wallets.Base.{ℕ, zero, suc, ◌+◌, ◌≤◌, ◌≡◌, refl, List, [], ◌∷◌, arith, length}
use advanced_wallets.Js.{Value}
use advanced_wallets.Exec.{Exn, Call, Result, ok, err, Exec, done, ask, catch, ◌>>=◌}
use advanced_wallets.Exec.Pool.{feed}

-- On every path the handler makes at most `n` calls.
pub data Within {ℓ} {A : Type ℓ} : ℕ → Exec A → Type ℓ where
  returns : (n : ℕ) (r : Result A) → Within n (done r)
  asks :
      (n : ℕ) (c : Call) (k : Result Value → Exec A)
      → ((r : Result Value) → Within n (k r))
      → Within (suc n) (ask c k)

module _ {ℓ} {A : Type ℓ} where
  pub Within-more : (n m : ℕ) (h : Exec A) → n ≤ m → Within n h → Within m h
  Within-more n m (done r) le (returns _ _) = returns m r
  Within-more zero m (ask c k) le w = elim w [ ]
  Within-more (suc n) (suc m) (ask c k) le (asks _ _ _ w) =
      asks m c k (λ r. Within-more n m (k r) (omega arith) (w r))
  Within-more (suc n) zero (ask c k) le w = absurd (omega arith)

  -- After `n` answers it has settled.
  pub feed-done :
      (n : ℕ) (h : Exec A) (answers : List (Result Value))
      → Within n h
      → n ≤ length answers
      → (r : Result A) × (feed h answers ≡ done r)
  unfolding feed
  feed-done n (done r) [] (returns _ _) le = (r, refl)
  feed-done n (done r) (a ∷ answers) (returns _ _) le = (r, refl)
  feed-done zero (ask c k) answers w le = elim w [ ]
  feed-done (suc n) (ask c k) [] w le = absurd (omega arith)
  feed-done (suc n) (ask c k) (a ∷ answers) (asks _ _ _ w) le =
      feed-done n (k a) answers (w a) (omega arith)

module _ {ℓ κ} {A : Type ℓ} {B : Type κ} where
  pub Within-bind :
      (n m : ℕ) (h : Exec A) (f : A → Exec B)
      → Within n h
      → ((a : A) → Within m (f a))
      → Within (n + m) (h >>= f)
  Within-bind n m (done (ok a)) f (returns _ _) w = Within-more m (n + m) (f a) (omega arith) (w a)
  Within-bind n m (done (err e)) f (returns _ _) w = returns _ _
  Within-bind zero m (ask c k) f v w = elim v [ ]
  Within-bind (suc n) m (ask c k) f (asks _ _ _ v) w =
      let e : suc n + m ≡ suc (n + m) = omega arith in
      rw e (asks (n + m) c _ (λ r. Within-bind n m (k r) f (v r) w))

module _ {ℓ} {A : Type ℓ} where
  pub Within-catch :
      (n m : ℕ) (h : Exec A) (f : Exn → Exec A)
      → Within n h
      → ((e : Exn) → Within m (f e))
      → Within (n + m) (catch h f)
  Within-catch n m (done (ok a)) f (returns _ _) w = returns _ _
  Within-catch n m (done (err e)) f (returns _ _) w =
      Within-more m (n + m) (f e) (omega arith) (w e)
  Within-catch zero m (ask c k) f v w = elim v [ ]
  Within-catch (suc n) m (ask c k) f (asks _ _ _ v) w =
      let e : suc n + m ≡ suc (n + m) = omega arith in
      rw e (asks (n + m) c _ (λ r. Within-catch n m (k r) f (v r) w))
