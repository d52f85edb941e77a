-- ===== src/Js/Parse/Sizes.antt =====
-- How much of a text the parts of the parser leave.
use Prim.Native.Char.{Char, code}
use Prim.Native.Nat.{◌-◌}
use advanced_wallets.Base.{
  ℕ, zero, suc, ◌+◌, ◌*◌, ◌≤◌, String, true, false, Option, none, some, arith,
}
use advanced_wallets.Js.{arr, nil, cons, obj, end, field, Value, bool, null, Fields}
use advanced_wallets.Js.Parse.{
  skip_spaces, digits, quoted, expect, word, scalar, key_of, with_key, after_key, after_quote,
  by_first, put_value, or_closed, put_part, last_part, and_more, then_parts, field_from, text_size,
  first_is, unescape, put, text_value, value_on, array_on, items_on, object_on, fields_on,
}

-- One more than what is left of the text, or 0.
abbrev pub left_size {ℓ} : {A : Type ℓ} → Option (A × String) → ℕ
left_size none = 0
left_size (some (a, s)) = suc (text_size s)

abbrev pub rest_size : Option String → ℕ
rest_size none = 0
rest_size (some s) = suc (text_size s)

pub skip_size : (s : String) → text_size (skip_spaces s) ≤ text_size s
unfolding skip_spaces text_size
skip_size String.[] = ground arith
skip_size (String.◌∷◌ c s) = ground (arith, skip_size s)

digits_size : (n : ℕ) (s : String) → text_size (digits n s).1 ≤ text_size s
unfolding digits text_size
digits_size n String.[] = ground arith
digits_size n (String.◌∷◌ c s) = ground (arith, digits_size (n * 10 + (code c - 48)) s)

first_size : (n : ℕ) (s : String) → rest_size (first_is n s) ≤ text_size s
unfolding first_is text_size
first_size n String.[] = ground arith
first_size n (String.◌∷◌ c s) = ground arith

pub expect_size : (n : ℕ) (s : String) → rest_size (expect n s) ≤ text_size s
unfolding expect
expect_size n s = ground (arith, first_size n (skip_spaces s), skip_size s)

word_size : (w s : String) (v : Value) → left_size (word w s v) ≤ suc (text_size s)
unfolding word text_size
word_size String.[] s v = ground arith
word_size (String.◌∷◌ a w) String.[] v = ground arith
word_size (String.◌∷◌ a w) (String.◌∷◌ c s) v = ground (arith, word_size w s v)

put_size : (o : Option Char) (r : Option (String × String)) → left_size (put o r) ≤ left_size r
put_size none r = ground arith
put_size (some c) none = ground arith
put_size (some c) (some (s, rest)) = ground arith

quoted_size : (s : String) → left_size (quoted s) ≤ text_size s
unfolding quoted text_size
quoted_size String.[] = ground arith
quoted_size (String.◌∷◌ c String.[]) = ground arith
quoted_size (String.◌∷◌ c (String.◌∷◌ d s)) = ground (
  arith,
  put_size (unescape d) (quoted s),
  put_size (some c) (quoted (String.◌∷◌ d s)),
  quoted_size s,
  quoted_size (String.◌∷◌ d s),
)

text_value_size : (r : Option (String × String)) → left_size (text_value r) ≤ left_size r
text_value_size none = ground arith
text_value_size (some (s, rest)) = ground arith

scalar_size : (c : Char) (s : String) → left_size (scalar c s) ≤ suc (text_size s)
unfolding scalar
scalar_size c s = ground (
  arith,
  text_value_size (quoted s),
  quoted_size s,
  digits_size (code c - 48) s,
  word_size "rue" s (bool true),
  word_size "alse" s (bool false),
  word_size "ull" s null,
)

with_key_size : (k : String) (q : Option String) → left_size (with_key k q) ≤ rest_size q
unfolding with_key
with_key_size k none = ground arith
with_key_size k (some body) = ground arith

after_key_size : (r : Option (String × String)) → left_size (after_key r) ≤ left_size r
unfolding after_key
after_key_size none = ground arith
after_key_size (some (k, left)) =
    ground (arith, with_key_size k (expect b':' left), expect_size b':' left)

after_quote_size : (q : Option String) → left_size (after_quote q) ≤ rest_size q
unfolding after_quote
after_quote_size none = ground arith
after_quote_size (some rest) = ground (arith, after_key_size (quoted rest), quoted_size rest)

pub key_size : (s : String) → left_size (key_of s) ≤ text_size s
unfolding key_of
key_size s = ground (arith, after_quote_size (expect 34 s), expect_size 34 s)

-- A reader that leaves no more than it was given.
abbrev pub Reads {ℓ} : {A : Type ℓ} → (String → Option (A × String)) → Type 0
Reads read = (s : String) → left_size (read s) ≤ suc (text_size s)

by_first_size :
    (array object : String → Option (Value × String))
    → Reads array
    → Reads object
    → Reads (by_first array object)
unfolding by_first text_size
by_first_size array object a o String.[] = ground arith
by_first_size array object a o (String.◌∷◌ c rest) =
    ground (arith, a rest, o rest, scalar_size c rest)

module _ {ℓ} {A : Type ℓ} where
  put_value_size :
      (f : A → Value) (r : Option (A × String)) → left_size (put_value f r) ≤ left_size r
  put_value_size f none = ground arith
  put_value_size f (some (a, rest)) = ground arith

  or_closed_size :
      (empty : A) (f : A → Value) (parts : String → Option (A × String)) (s : String)
      (q : Option String)
      → Reads parts
      → rest_size q ≤ text_size s
      → left_size (or_closed empty f parts s q) ≤ suc (text_size s)
  unfolding or_closed
  or_closed_size empty f parts s none p h = ground (arith, put_value_size f (parts s), p s)
  or_closed_size empty f parts s (some rest) p h = ground arith

  put_part_size : (f : A → A) (r : Option (A × String)) → left_size (put_part f r) ≤ left_size r
  put_part_size f none = ground arith
  put_part_size f (some (a, rest)) = ground arith

  last_part_size : (a : A) (q : Option String) → left_size (last_part a q) ≤ rest_size q
  last_part_size a none = ground arith
  last_part_size a (some rest) = ground arith

  and_more_size :
      (empty : A) (f : A → A) (close : ℕ) (next : String → Option (A × String)) (rest : String)
      (q : Option String)
      → Reads next
      → rest_size q ≤ text_size rest
      → left_size (and_more empty f close next rest q) ≤ suc (text_size rest)
  unfolding and_more
  and_more_size empty f close next rest none n h =
      ground (arith, last_part_size (f empty) (expect close rest), expect_size close rest)
  and_more_size empty f close next rest (some more) n h =
      ground (arith, put_part_size f (next more), n more)

  then_parts_size :
      (empty : A) (f : Value → A → A) (close : ℕ) (next : String → Option (A × String))
      (r : Option (Value × String))
      → Reads next
      → left_size (then_parts empty f close next r) ≤ left_size r
  unfolding then_parts
  then_parts_size empty f close next none n = ground arith
  then_parts_size empty f close next (some (v, rest)) n =
      and_more_size empty (f v) close next rest (expect b',' rest) n (expect_size b',' rest)

field_from_size :
    (value : String → Option (Value × String)) (next : String → Option (Fields × String))
    (r : Option (String × String))
    → Reads value
    → Reads next
    → left_size (field_from value next r) ≤ left_size r
unfolding field_from
field_from_size value next none v n = ground arith
field_from_size value next (some (k, body)) v n =
    ground (arith, then_parts_size end (field k) b'}' next (value body) n, v body)

mutual
  unfolding value_on array_on items_on object_on fields_on

  pub value_size : (fuel : ℕ) → Reads (value_on fuel)
  value_size zero s = ground arith
  value_size (suc fuel) s = ground (
    arith,
    by_first_size (array_on fuel) (object_on fuel) (array_size fuel) (object_size fuel)
        (skip_spaces s),
    skip_size s,
  )

  array_size : (fuel : ℕ) → Reads (array_on fuel)
  array_size zero s = ground arith
  array_size (suc fuel) s =
      or_closed_size nil arr (items_on fuel) s (expect b']' s) (items_size fuel)
        (expect_size b']' s)

  items_size : (fuel : ℕ) → Reads (items_on fuel)
  items_size zero s = ground arith
  items_size (suc fuel) s = ground (
    arith,
    then_parts_size nil cons b']' (items_on fuel) (value_on fuel s) (items_size fuel),
    value_size fuel s,
  )

  object_size : (fuel : ℕ) → Reads (object_on fuel)
  object_size zero s = ground arith
  object_size (suc fuel) s =
      or_closed_size end obj (fields_on fuel) s (expect b'}' s) (fields_size fuel)
        (expect_size b'}' s)

  fields_size : (fuel : ℕ) → Reads (fields_on fuel)
  fields_size zero s = ground arith
  fields_size (suc fuel) s = ground (
    arith,
    field_from_size (value_on fuel) (fields_on fuel) (key_of s) (value_size fuel)
        (fields_size fuel),
    key_size s,
  )
