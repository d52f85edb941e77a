-- ===== src/Exec/History.antt =====
-- Which calls a handler makes in a world, by the calls before each and the answers to them.
use advanced_wallets.Base.{ap, ◌≡◌, refl, Bool, true, false, List, [], ◌∷◌, if◌then◌else◌}
use mathlib.Core.Path.{subst}
use advanced_wallets.Js.{Value}
use advanced_wallets.Exec.{
  Exn, Call, Result, ok, err, World, Exec, done, ask, perform, throw_if, ◌>>=◌, run, ◌>>◌,
}
use advanced_wallets.Exec.Only.{Only, returns, asks}

-- `Q` holds of every call, and of the calls that were made before it (the newest first).
abbrev pub Each : (List Call → Call → Type 0) → List Call → Type 0
Each Q [] = Unit
Each Q (c ∷ t) = Q t c × Each Q t

-- A call was made of which, and of the calls before which, `P` holds.
pub data Earlier (P : List Call → Call → Type 0) : List Call → Type 0 where
  newest : (c : Call) (t : List Call) → P t c → Earlier P (c ∷ t)
  older : (c : Call) (t : List Call) → Earlier P t → Earlier P (c ∷ t)

-- From the calls `t` on, every call of the handler satisfies `Q`, and what it returns `R`.
pub data Along {ℓ} (w : World) (Q : List Call → Call → Type 0) {A : Type ℓ}
    (R : List Call → A → Type 0) : Exec A → List Call → Type ℓ where
  ends : (a : A) (t : List Call) → R t a → Along w Q R (done (ok a)) t
  fails : (e : Exn) (t : List Call) → Along w Q R (done (err e)) t
  calls :
      (c : Call) (k : Result Value → Exec A) (t : List Call)
      → Q t c
      → Along w Q R (k (w.reply t c)) (c ∷ t)
      → Along w Q R (ask c k) t

abbrev value_or {ℓ} : {A : Type ℓ} → A → Result A → A
value_or b (ok a) = a
value_or b (err e) = b

abbrev pub Any {ℓ} : {A : Type ℓ} → List Call → A → Type 0
Any t a = Unit

module _ (w : World) {Q : List Call → Call → Type 0} where
  pub Along-run {ℓ} :
      {A : Type ℓ} {R : List Call → A → Type 0} (m : Exec A) (t : List Call)
      → Along w Q R m t
      → Each Q t
      → Each Q (run w m t).1
  unfolding run
  Along-run (done (ok a)) t (ends _ _ p) h = h
  Along-run (done (err e)) t (fails _ _) h = h
  Along-run (ask c k) t (calls _ _ _ q o) h = Along-run (k (w.reply t c)) (c ∷ t) o (q, h)

  pub Along-bind {ℓ κ} :
      {A : Type ℓ} {B : Type κ} {R : List Call → A → Type 0} {S : List Call → B → Type 0}
      (m : Exec A) (f : A → Exec B) (t : List Call)
      → Along w Q R m t
      → ((a : A) (u : List Call) → R u a → Along w Q S (f a) u)
      → Along w Q S (m >>= f) t
  Along-bind (done (ok a)) f t (ends _ _ r) h = h a t r
  Along-bind (done (err e)) f t (fails _ _) h = fails e t
  Along-bind (ask c k) f t (calls _ _ _ q o) h = calls c _ t q (Along-bind (k _) f _ o h)

  -- A handler of which every call satisfies `Q`, whatever was called before.
  pub Along-Only {ℓ} :
      {A : Type ℓ} (m : Exec A) (t : List Call)
      → Only (λ c. (u : List Call) → Q u c) m
      → Along w Q Any m t
  Along-Only (done (ok a)) t (returns _) = ends a t tt
  Along-Only (done (err e)) t (returns _) = fails e t
  Along-Only (ask c k) t (asks _ _ p o) = calls c k t (p t) (Along-Only (k _) _ (o _))

  -- What was called earlier stays so.
  pub Along-after {ℓ} :
      {A : Type ℓ} {D : List Call → Call → Type 0} {P : Call → Type 0} (m : Exec A) (t : List Call)
      → Earlier D t
      → ((u : List Call) (c : Call) → Earlier D u → P c → Q u c)
      → Only P m
      → Along w Q Any m t
  Along-after (done (ok a)) t d f (returns _) = ends a t tt
  Along-after (done (err e)) t d f (returns _) = fails e t
  Along-after (ask c k) t d f (asks _ _ p o) =
      calls c k t (f t c d p) (Along-after (k _) _ (older c t d) f (o _))

  -- What holds of everything that can be returned holds of what was returned.
  pub Along-end {ℓ} :
      {A : Type ℓ} {R : List Call → A → Type 0} (m : Exec A) (t : List Call) (a : A)
      → Along w Q R m t
      → (run w m t).0 ≡ ok a
      → R (run w m t).1 a
  unfolding run
  Along-end {R = R} (done (ok b)) t a (ends _ _ p) h = subst (R t) (ap (value_or b) h) p
  Along-end (done (err e)) t a (fails _ _) h = absurd cc
  Along-end (ask c k) t a (calls _ _ _ q o) h = Along-end (k _) _ a o h

  pub Along-guard {ℓ} :
      {A : Type ℓ} {R : List Call → A → Type 0} (test : Bool) (e : Exn) (m : Exec A) (t : List Call)
      → Along w Q R m t
      → Along w Q R (throw_if test e >> m) t
  Along-guard true e m t h = fails e t
  Along-guard false e m t h = h

-- From any calls on, every call of the handler satisfies `Q`.
pub data Always {ℓ} (w : World) (Q : List Call → Call → Type 0) {A : Type ℓ} : Exec A → Type ℓ where
  always : (m : Exec A) → ((t : List Call) → Along w Q Any m t) → Always w Q m

module _ {w : World} {Q : List Call → Call → Type 0} where
  pub Always-run {ℓ} : {A : Type ℓ} (m : Exec A) → Always w Q m → Each Q (run w m []).1
  Always-run m (always _ h) = Along-run w m [] (h []) tt

  pub Always-Only {ℓ} :
      {A : Type ℓ} (m : Exec A) → Only (λ c. (u : List Call) → Q u c) m → Always w Q m
  Always-Only m o = always m λ t. Along-Only w m t o

  along {ℓ} : {A : Type ℓ} {m : Exec A} → Always w Q m → (t : List Call) → Along w Q Any m t
  along (always _ h) = h

  pub Always-bind {ℓ κ} :
      {A : Type ℓ} {B : Type κ} (m : Exec A) (f : A → Exec B)
      → Always w Q m
      → ((a : A) → Always w Q (f a))
      → Always w Q (m >>= f)
  Always-bind m f h o = always _ λ t. Along-bind w m f t (along h t) λ a u _. along (o a) u

  pub Always-returns {ℓ} : {A : Type ℓ} (r : Result A) → Always w Q (done r)
  Always-returns r = Always-Only (done r) (returns r)

  pub Always-if {ℓ} :
      {A : Type ℓ} (b : Bool) (m n : Exec A)
      → (b ≡ true → Always w Q m)
      → (b ≡ false → Always w Q n)
      → Always w Q (if b then m else n)
  Always-if true m n hm hn = hm refl
  Always-if false m n hm hn = hn refl

  pub Always-perform : (c : Call) → ((t : List Call) → Q t c) → Always w Q (perform c)
  Always-perform c p = Always-Only _ (asks c done p returns)

  pub Always-throw_if : (b : Bool) (e : Exn) → Always w Q (throw_if b e)
  Always-throw_if true e = Always-returns _
  Always-throw_if false e = Always-returns _

pub ruleset always_rules = (Always-returns, Always-bind, Always-if, Always-perform, Always-throw_if)
