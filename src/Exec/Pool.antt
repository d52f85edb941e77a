-- ===== src/Exec/Pool.antt =====
-- Handlers that run side by side, as `Promise.allSettled` runs them: between two calls of one, any
-- number of answers may reach the others.
use mathlib.Core.Option
use advanced_wallets.Base.{
  ℕ, zero, suc, ◌≡◌, refl, ap, ◌∙◌, sym, inl, inr, Bool-cases, Option, none, some, List, [], ◌∷◌,
  ◌==◌, arith, if◌then◌else◌, get_elem?,
}
use advanced_wallets.Js.{Value}
use advanced_wallets.Exec.{Call, Result, Exec, done, ask}

module _ {ℓ} {A : Type ℓ} where
  -- What is left of a handler after answers to its calls; none is read after it has settled.
  unfoldable pub feed : Exec A → List (Result Value) → Exec A
  feed m [] = m
  feed (done r) (a ∷ later) = done r
  feed (ask c k) (a ∷ later) = feed (k a) later

  -- The calls that were answered so, oldest first.
  unfoldable pub calls : Exec A → List (Result Value) → List Call
  calls m [] = []
  calls (done r) (a ∷ later) = []
  calls (ask c k) (a ∷ later) = c ∷ calls (k a) later

  -- The handler `i` of those that run gets the answer `a`.
  unfoldable pub advance : List (Exec A) → ℕ → Result Value → List (Exec A)
  unfolding feed
  advance [] i a = []
  advance (p ∷ ps) zero a = feed p (a ∷ []) ∷ ps
  advance (p ∷ ps) (suc i) a = p ∷ advance ps i a

  -- A schedule says which handler gets its next answer, and which.
  unfoldable pub interleave : List (Exec A) → List (ℕ × Result Value) → List (Exec A)
  unfolding advance
  interleave ps [] = ps
  interleave ps ((i, a) ∷ schedule) = interleave (advance ps i a) schedule

-- The answers of a schedule that reach the handler `i`.
unfoldable pub answers_to : ℕ → List (ℕ × Result Value) → List (Result Value)
answers_to i [] = []
answers_to i ((j, a) ∷ schedule) =
    let others = answers_to i schedule in if i == j then a ∷ others else others

module _ {ℓ} {A : Type ℓ} where
  feed-cons :
      (m : Exec A) (a : Result Value) (later : List (Result Value))
      → feed m (a ∷ later) ≡ feed (feed m (a ∷ [])) later
  unfolding feed
  feed-cons (done r) a [] = refl
  feed-cons (done r) a (b ∷ later) = refl
  feed-cons (ask c k) a later = refl

  get_elem?-advance :
      (ps : List (Exec A)) (i j : ℕ) (a : Result Value)
      → get_elem? (advance ps j a) i
        ≡ (if i == j then Option.map (λ p. feed p (a ∷ [])) (get_elem? ps i) else get_elem? ps i)
  unfolding advance
  get_elem?-advance [] i j a = ground arith
  get_elem?-advance (p ∷ ps) zero zero a = refl
  get_elem?-advance (p ∷ ps) (suc i) zero a = ground arith
  get_elem?-advance (p ∷ ps) zero (suc j) a = ground arith
  get_elem?-advance (p ∷ ps) (suc i) (suc j) a = ground (arith, get_elem?-advance ps i j a)

  map-feed_nil : (o : Option (Exec A)) → o ≡ Option.map (λ p. feed p []) o
  unfolding feed
  map-feed_nil none = refl
  map-feed_nil (some p) = refl

  map-feed :
      (o : Option (Exec A)) (a : Result Value) (later : List (Result Value))
      → Option.map (λ p. feed p later) (Option.map (λ p. feed p (a ∷ [])) o)
        ≡ Option.map (λ p. feed p (a ∷ later)) o
  map-feed none a later = refl
  map-feed (some p) a later = ap some (sym (feed-cons p a later))

  -- However the answers are interleaved, each handler is where the answers to its own calls take it
  -- alone: no handler sees how the others fare.
  pub interleave-feed :
      (ps : List (Exec A)) (schedule : List (ℕ × Result Value)) (i : ℕ)
      → get_elem? (interleave ps schedule) i
        ≡ Option.map (λ p. feed p (answers_to i schedule)) (get_elem? ps i)
  unfolding interleave answers_to
  interleave-feed ps [] i = map-feed_nil (get_elem? ps i)
  interleave-feed ps ((j, a) ∷ schedule) i =
      let tail = interleave-feed (advance ps j a) schedule i in
      let moved = get_elem?-advance ps i j a in
      elim (Bool-cases (i == j)) [
        | inl same ↦ tail ∙ rw (moved, same) (map-feed (get_elem? ps i) a (answers_to i schedule))
        | inr other ↦ tail ∙ rw (moved, other) refl
      ]
