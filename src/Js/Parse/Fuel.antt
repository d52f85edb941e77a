-- ===== src/Js/Parse/Fuel.antt =====
-- The fuel of `parse_json` is enough.
use Prim.Native.Char.{code}
use advanced_wallets.Base.{
  ℕ, zero, suc, ap, Bool, true, false, ◌==◌, ◌+◌, ◌*◌, ◌≤◌, ◌≡◌, refl, String, Option, none, some,
  arith, Bool-cases, inl, inr, leb,
}
use advanced_wallets.Js.{Value, arr, nil, cons, obj, end, field, Fields}
use advanced_wallets.Js.Parse.{
  scalar, skip_spaces, expect, key_of, text_size, by_first, or_closed, and_more, then_parts,
  field_from, value_on, array_on, items_on, object_on, fields_on, whole, parse_json,
}
use advanced_wallets.Js.Parse.Sizes.{
  left_size, rest_size, Reads, skip_size, expect_size, key_size, value_size,
}

-- Two readers do the same on every text that is shorter than `n`.
abbrev SameBelow {ℓ} : {A : Type ℓ} → ℕ → (String → A) → (String → A) → Type ℓ
SameBelow n g h = (t : String) → suc (text_size t) ≤ n → g t ≡ h t

choice_agree :
    (p q : Bool) (x x' y y' z : Option (Value × String))
    → x ≡ x'
    → y ≡ y'
    → (elim p as (λ _. Option (Value × String)) [
      | true ↦ x
      | false ↦ elim q as (λ _. Option (Value × String)) [ true ↦ y | false ↦ z ]
    ])
      ≡ (elim p as (λ _. Option (Value × String)) [
        | true ↦ x'
        | false ↦ elim q as (λ _. Option (Value × String)) [ true ↦ y' | false ↦ z ]
      ])
choice_agree true q x x' y y' z e f = e
choice_agree false true x x' y y' z e f = f
choice_agree false false x x' y y' z e f = refl

by_first_agree :
    (g h g' h' : String → Option (Value × String)) (s : String)
    → SameBelow (text_size s) g h
    → SameBelow (text_size s) g' h'
    → by_first g g' s ≡ by_first h h' s
unfolding by_first text_size
by_first_agree g h g' h' String.[] a b = refl
by_first_agree g h g' h' (String.◌∷◌ c rest) a b =
    choice_agree (code c == b'[') (code c == b'{') (g rest) (h rest) (g' rest) (h' rest)
      (scalar c rest) (a rest (ground arith)) (b rest (ground arith))

module _ {ℓ} {A : Type ℓ} where
  or_closed_agree :
      (empty : A) (f : A → Value) (g h : String → Option (A × String)) (s : String)
      (q : Option String)
      → g s ≡ h s
      → or_closed empty f g s q ≡ or_closed empty f h s q
  unfolding or_closed
  or_closed_agree empty f g h s none e = rw e refl
  or_closed_agree empty f g h s (some rest) e = refl

  and_more_agree :
      (empty : A) (f : A → A) (close : ℕ) (g h : String → Option (A × String)) (rest : String)
      (q : Option String) (n : ℕ)
      → rest_size q ≤ n
      → SameBelow n g h
      → and_more empty f close g rest q ≡ and_more empty f close h rest q
  unfolding and_more
  and_more_agree empty f close g h rest none n p a = refl
  and_more_agree empty f close g h rest (some more) n p a = rw (a more p) refl

  then_parts_agree :
      (empty : A) (f : Value → A → A) (close : ℕ) (g h : String → Option (A × String))
      (r : Option (Value × String)) (n : ℕ)
      → left_size r ≤ suc n
      → SameBelow n g h
      → then_parts empty f close g r ≡ then_parts empty f close h r
  unfolding then_parts
  then_parts_agree empty f close g h none n p a = refl
  then_parts_agree empty f close g h (some (v, rest)) n p a =
      and_more_agree empty (f v) close g h rest (expect b',' rest) n
        (ground (arith, expect_size b',' rest)) a

field_from_agree :
    (v v' : String → Option (Value × String)) (g h : String → Option (Fields × String))
    (r : Option (String × String)) (n : ℕ)
    → left_size r ≤ n
    → Reads v'
    → SameBelow n v v'
    → SameBelow n g h
    → field_from v g r ≡ field_from v' h r
unfolding field_from
field_from_agree v v' g h none n p reads a b = refl
field_from_agree v v' g h (some (k, body)) n p reads a b =
    rw (a body p)
      (then_parts_agree end (field k) b'}' g h (v' body) n (ground (arith, reads body)) b)

-- Each function with its bound: fuel from there on makes no difference.
mutual
  unfolding value_on array_on items_on object_on fields_on

  value_stable :
      (fuel : ℕ) (s : String) → 3 * text_size s + 1 ≤ fuel → value_on (suc fuel) s ≡ value_on fuel s
  value_stable zero s p = absurd ground arith
  value_stable (suc fuel) s p =
      by_first_agree (array_on (suc fuel)) (array_on fuel) (object_on (suc fuel)) (object_on fuel)
        (skip_spaces s) (λ t q. array_stable fuel t (ground (arith, skip_size s)))
        (λ t q. object_stable fuel t (ground (arith, skip_size s)))

  array_stable :
      (fuel : ℕ) (s : String) → 3 * text_size s + 3 ≤ fuel → array_on (suc fuel) s ≡ array_on fuel s
  array_stable zero s p = absurd ground arith
  array_stable (suc fuel) s p =
      or_closed_agree nil arr (items_on (suc fuel)) (items_on fuel) s (expect b']' s)
        (items_stable fuel s (ground arith))

  items_stable :
      (fuel : ℕ) (s : String) → 3 * text_size s + 2 ≤ fuel → items_on (suc fuel) s ≡ items_on fuel s
  items_stable zero s p = absurd ground arith
  items_stable (suc fuel) s p = rw (value_stable fuel s (ground arith)) (
      then_parts_agree nil cons b']' (items_on (suc fuel)) (items_on fuel) (value_on fuel s)
        (text_size s) (value_size fuel s) λ t q. items_stable fuel t (ground arith))

  object_stable :
      (fuel : ℕ) (s : String)
      → 3 * text_size s + 3 ≤ fuel
      → object_on (suc fuel) s ≡ object_on fuel s
  object_stable zero s p = absurd ground arith
  object_stable (suc fuel) s p =
      or_closed_agree end obj (fields_on (suc fuel)) (fields_on fuel) s (expect b'}' s)
        (fields_stable fuel s (ground arith))

  fields_stable :
      (fuel : ℕ) (s : String)
      → 3 * text_size s + 2 ≤ fuel
      → fields_on (suc fuel) s ≡ fields_on fuel s
  fields_stable zero s p = absurd ground arith
  fields_stable (suc fuel) s p =
      field_from_agree (value_on (suc fuel)) (value_on fuel) (fields_on (suc fuel)) (fields_on fuel)
        (key_of s) (text_size s) (key_size s) (value_size fuel)
        (λ t q. value_stable fuel t (ground arith)) (λ t q. fields_stable fuel t (ground arith))

-- On any fuel of three for each character and three more, or beyond, the parser gives the same.
parse_json-fuel :
    (fuel : ℕ) (s : String) → 3 * text_size s + 3 ≤ fuel → whole (value_on fuel s) ≡ parse_json s
unfolding parse_json
parse_json-fuel zero s p = absurd ground arith
parse_json-fuel (suc fuel) s p = elim (Bool-cases (leb (3 * text_size s + 3) fuel)) [
  | inl enough ↦ rw (value_stable fuel s (ground arith)) (parse_json-fuel fuel s (ground arith))
  | inr exact ↦
      let e : suc fuel ≡ 3 * text_size s + 3 = ground arith in ap (λ n. whole (value_on n s)) e
]
