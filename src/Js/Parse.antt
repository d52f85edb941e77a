-- ===== src/Js/Parse.antt =====
-- `JSON.parse`. Numbers are non-negative integers; the escape by number in a text is not read.
pub mod Sizes
pub mod Fuel
use Prim.Native.Char.{Char, code}
use Prim.Native.Nat.{◌-◌}
use advanced_wallets.Base.{
  ℕ, zero, suc, ◌+◌, ◌*◌, ◌≡◌, refl, String, Bool, true, false, ◌&&◌, ◌||◌, Option, none, some,
  ◌==◌, leb, if◌then◌else◌,
}
use advanced_wallets.Js.{
  Value, null, bool, num, str, obj, Fields, end, field, arr, Items, nil, cons,
}

abbrev is_space : Char → Bool
is_space c = code c == 32 || code c == 9 || code c == 10 || code c == 13

unfoldable skip_spaces : String → String
skip_spaces String.[] = ""
skip_spaces (String.◌∷◌ c s) =
    let rest = skip_spaces s in if is_space c then rest else String.◌∷◌ c s

abbrev is_digit : Char → Bool
is_digit c = leb 48 (code c) && leb (code c) 57

unfoldable digits : ℕ → String → ℕ × String
digits acc String.[] = (acc, "")
digits acc (String.◌∷◌ c s) =
    let rest = digits (acc * 10 + (code c - 48)) s in
    if is_digit c then rest else (acc, String.◌∷◌ c s)

-- `parseInt(text, 10)` of a text without a sign or a space before it; `NaN`, which JSON writes as
-- `null`, is `null`.
unfoldable pub parse_int : String → Value
unfolding digits
parse_int String.[] = null
parse_int (String.◌∷◌ c s) = if is_digit c then num (digits 0 (String.◌∷◌ c s)).0 else null

unescape : Char → Option Char
unescape c =
    if code c == 34 || code c == 92 || code c == 47
    then some c
    else if code c == b'b'
    then some "\u{8}"
    else if code c == b'f'
    then some "\u{c}"
    else if code c == b'n'
    then some "\n"
    else if code c == b'r'
    then some "\r"
    else if code c == b't'
    then some "\t"
    else none

abbrev put : Option Char → Option (String × String) → Option (String × String)
put none r = none
put (some c) none = none
put (some c) (some (s, rest)) = some (String.◌∷◌ c s, rest)

-- What follows the opening quote: the text, and what follows the closing quote.
unfoldable quoted : String → Option (String × String)
unfolding unescape
quoted String.[] = none
quoted (String.◌∷◌ c String.[]) = if code c == 34 then some ("", "") else none
quoted (String.◌∷◌ c (String.◌∷◌ d s)) = elim (code c == 34) [
  | true ↦ some ("", String.◌∷◌ d s)
  | false ↦ elim (code c == 92) [
    | true ↦ put (unescape d) (quoted s)
    | false ↦ put (some c) (quoted (String.◌∷◌ d s))
  ]
]

unfoldable first_is : ℕ → String → Option String
first_is n String.[] = none
first_is n (String.◌∷◌ c rest) = if code c == n then some rest else none

-- What follows a given character, spaces left out.
unfoldable expect : ℕ → String → Option String
unfolding skip_spaces first_is
expect n s = first_is n (skip_spaces s)

unfoldable word : String → String → Value → Option (Value × String)
word String.[] s v = some (v, s)
word (String.◌∷◌ a w) String.[] v = none
word (String.◌∷◌ a w) (String.◌∷◌ c s) v =
    let rest = word w s v in if code a == code c then rest else none

abbrev text_value : Option (String × String) → Option (Value × String)
text_value none = none
text_value (some (t, rest)) = some (str t, rest)

unfoldable scalar : Char → String → Option (Value × String)
unfolding digits word quoted
scalar c s =
    if code c == 34
    then text_value (quoted s)
    else if is_digit c
    then (let (n, rest) = digits (code c - 48) s in some (num n, rest))
    else if code c == b't'
    then word "rue" s (bool true)
    else if code c == b'f'
    then word "alse" s (bool false)
    else if code c == b'n'
    then word "ull" s null
    else none

unfoldable with_key : String → Option String → Option (String × String)
with_key k none = none
with_key k (some body) = some (k, body)

unfoldable after_key : Option (String × String) → Option (String × String)
unfolding with_key expect
after_key none = none
after_key (some (k, left)) = with_key k (expect b':' left)

unfoldable after_quote : Option String → Option (String × String)
unfolding after_key quoted
after_quote none = none
after_quote (some rest) = after_key (quoted rest)

-- `"key":`
unfoldable key_of : String → Option (String × String)
unfolding expect after_quote
key_of s = after_quote (expect 34 s)

-- A value by its first character: what follows it is read as an array, an object or the rest of a
-- scalar.
unfoldable by_first :
    (String → Option (Value × String))
    → (String → Option (Value × String))
    → String
    → Option (Value × String)
unfolding scalar
by_first array object String.[] = none
by_first array object (String.◌∷◌ c rest) = elim (code c == b'[') [
  | true ↦ array rest
  | false ↦ elim (code c == b'{') [ true ↦ object rest | false ↦ scalar c rest ]
]

abbrev put_value {ℓ} : {A : Type ℓ} → (A → Value) → Option (A × String) → Option (Value × String)
put_value f none = none
put_value f (some (a, rest)) = some (f a, rest)

-- The parts of an array or an object, unless it is closed at once.
unfoldable or_closed {ℓ} :
    {A : Type ℓ}
    → A
    → (A → Value)
    → (String → Option (A × String))
    → String
    → Option String
    → Option (Value × String)
or_closed empty f parts s (some rest) = some (f empty, rest)
or_closed empty f parts s none = put_value f (parts s)

abbrev put_part {ℓ} : {A : Type ℓ} → (A → A) → Option (A × String) → Option (A × String)
put_part f none = none
put_part f (some (a, rest)) = some (f a, rest)

abbrev last_part {ℓ} : {A : Type ℓ} → A → Option String → Option (A × String)
last_part a none = none
last_part a (some rest) = some (a, rest)

-- A part, and what a comma says comes behind it.
unfoldable and_more {ℓ} :
    {A : Type ℓ}
    → A
    → (A → A)
    → ℕ
    → (String → Option (A × String))
    → String
    → Option String
    → Option (A × String)
unfolding expect
and_more empty f close next rest (some more) = put_part f (next more)
and_more empty f close next rest none = last_part (f empty) (expect close rest)

unfoldable then_parts {ℓ} :
    {A : Type ℓ}
    → A
    → (Value → A → A)
    → ℕ
    → (String → Option (A × String))
    → Option (Value × String)
    → Option (A × String)
unfolding and_more expect
then_parts empty f close next none = none
then_parts empty f close next (some (v, rest)) =
    and_more empty (f v) close next rest (expect b',' rest)

unfoldable field_from :
    (String → Option (Value × String))
    → (String → Option (Fields × String))
    → Option (String × String)
    → Option (Fields × String)
unfolding then_parts
field_from value next none = none
field_from value next (some (k, body)) = then_parts end (field k) b'}' next (value body)

-- The parts of arrays and objects, on fuel: each call goes on behind a character that it has read.
unfoldable mutual
  unfolding by_first or_closed then_parts field_from expect skip_spaces key_of

  value_on : ℕ → String → Option (Value × String)
  value_on zero s = none
  value_on (suc fuel) s = by_first (array_on fuel) (object_on fuel) (skip_spaces s)

  array_on : ℕ → String → Option (Value × String)
  array_on zero s = none
  array_on (suc fuel) s = or_closed nil arr (items_on fuel) s (expect b']' s)

  items_on : ℕ → String → Option (Items × String)
  items_on zero s = none
  items_on (suc fuel) s = then_parts nil cons b']' (items_on fuel) (value_on fuel s)

  object_on : ℕ → String → Option (Value × String)
  object_on zero s = none
  object_on (suc fuel) s = or_closed end obj (fields_on fuel) s (expect b'}' s)

  fields_on : ℕ → String → Option (Fields × String)
  fields_on zero s = none
  fields_on (suc fuel) s = field_from (value_on fuel) (fields_on fuel) (key_of s)

abbrev whole : Option (Value × String) → Option Value
whole none = none
whole (some (v, rest)) = elim (skip_spaces rest) [ String.[] ↦ some v | String.◌∷◌ c s ↦ none ]

unfoldable text_size : String → ℕ
text_size String.[] = 0
text_size (String.◌∷◌ c s) = suc (text_size s)

-- `none` where `JSON.parse` throws. Every three calls read a character at least.
unfoldable pub parse_json : String → Option Value
unfolding value_on text_size skip_spaces
parse_json s = whole (value_on (3 * text_size s + 3) s)

parsed :
    parse_json "{\"a\":12, \"c\":[\"x\\\"\", null, {}]}"
    ≡ some (
        obj (
          field "a"
            (num 12)
            (field "c" (arr (cons (str "x\"") (cons null (cons (obj end) nil)))) end)))
unfolding parse_json
parsed = refl
