-- ===== src/Js/Texts.antt =====
-- Texts: their case, and the parts that the code looks for. Letters are those of ASCII.
use Prim.Native.Char.{Char, code}
use advanced_wallets.Base.{
  ℕ, zero, suc, String, ◌≡◌, refl, sym, ap, ◌∙◌, Bool, true, false, ◌&&◌, ◌||◌, Option, none, some,
  List, [], ◌∷◌, ◌==◌, leb, Bool-cases, inl, inr, arith, str_eq, eq_iff, if◌then◌else◌,
}

abbrev small : String
small = "abcdefghijklmnopqrstuvwxyz"

abbrev capital : String
capital = "ABCDEFGHIJKLMNOPQRSTUVWXYZ"

-- The character that stands in the second text where `c` stands in the first.
swap_letter : String → String → Char → Char
swap_letter (String.◌∷◌ a xs) (String.◌∷◌ b ys) c =
    let rest = swap_letter xs ys c in if code a == code c then b else rest
swap_letter _ _ c = c

map_text : (Char → Char) → String → String
map_text f String.[] = String.[]
map_text f (String.◌∷◌ c s) = String.◌∷◌ (f c) (map_text f s)

-- `text.toUpperCase()`
unfoldable pub to_upper_case : String → String
unfolding map_text swap_letter
to_upper_case s = map_text (swap_letter small capital) s

-- `text.toLowerCase()`
unfoldable pub to_lower_case : String → String
unfolding map_text swap_letter
to_lower_case s = map_text (swap_letter capital small) s

abbrev is_colon : Char → Bool
is_colon c = code c == b':'

abbrev is_slash : Char → Bool
is_slash c = code c == b'/'

-- `text.replace(/:/g, '')`
unfoldable pub without_colons : String → String
without_colons String.[] = String.[]
without_colons (String.◌∷◌ c s) =
    if is_colon c then without_colons s else String.◌∷◌ c (without_colons s)

-- `text.includes(':')`
unfoldable pub has_colon : String → Bool
has_colon String.[] = false
has_colon (String.◌∷◌ c s) = is_colon c || has_colon s

-- `\w`
abbrev is_word : Char → Bool
is_word c =
    (leb b'a' (code c) && leb (code c) b'z')
    || (leb b'A' (code c) && leb (code c) b'Z')
    || (leb b'0' (code c) && leb (code c) b'9')
    || code c == b'_'

-- What follows `//` at the start.
after_slashes : String → Option String
after_slashes (String.◌∷◌ c (String.◌∷◌ d s)) = if is_slash c && is_slash d then some s else none
after_slashes _ = none

after_word : String → Option String
unfolding after_slashes
after_word String.[] = none
after_word (String.◌∷◌ c s) =
    let rest = after_word s in
    if is_word c then rest else if is_colon c then after_slashes s else none

after_name : String → Option String
unfolding after_word
after_name String.[] = none
after_name (String.◌∷◌ c s) = if is_word c then after_word s else none

abbrev first_of : Option String → Option String → Option String
first_of none q = q
first_of (some s) q = some s

-- What follows the match of `/(^\w+:|^)\/\//`, if there is one.
unfoldable pub after_scheme : String → Option String
unfolding after_slashes after_name
after_scheme s = first_of (after_name s) (after_slashes s)

split_at : ℕ → String → List String
split_at mark String.[] = "" ∷ []
split_at mark (String.◌∷◌ c s) = elim (split_at mark s) [
  | [] ↦ []
  | piece ∷ rest ↦ if code c == mark then "" ∷ piece ∷ rest else String.◌∷◌ c piece ∷ rest
]

-- `text.split(',')`
unfoldable pub split_commas : String → List String
unfolding split_at
split_commas s = split_at b',' s

-- `text.split(' ')`
unfoldable pub split_spaces : String → List String
unfolding split_at
split_spaces s = split_at b' ' s

-- `text.split(':')`
unfoldable pub split_colons : String → List String
unfolding split_at
split_colons s = split_at b':' s

-- `text.slice(0, n)`
unfoldable pub first_chars : ℕ → String → String
first_chars zero s = ""
first_chars (suc n) String.[] = ""
first_chars (suc n) (String.◌∷◌ c s) = String.◌∷◌ c (first_chars n s)

-- `text.slice(n)`
unfoldable pub chars_from : ℕ → String → String
chars_from zero s = s
chars_from (suc n) String.[] = ""
chars_from (suc n) (String.◌∷◌ c s) = chars_from n s

swap-is_colon :
    (xs ys : String) (c : Char)
    → has_colon ys ≡ false
    → is_colon c ≡ false
    → is_colon (swap_letter xs ys c) ≡ false
unfolding swap_letter has_colon
swap-is_colon String.[] ys c h k = k
swap-is_colon (String.◌∷◌ a xs) String.[] c h k = k
swap-is_colon (String.◌∷◌ a xs) (String.◌∷◌ b ys) c h k = ground (arith, swap-is_colon xs ys c)

upper_clean : (s : String) → has_colon s ≡ false → has_colon (to_upper_case s) ≡ false
unfolding to_upper_case map_text has_colon
upper_clean String.[] h = refl
upper_clean (String.◌∷◌ c s) h = ground (arith, swap-is_colon small capital c, upper_clean s)

without_clean : (s : String) → has_colon (without_colons s) ≡ false
unfolding without_colons has_colon
without_clean String.[] = refl
without_clean (String.◌∷◌ c s) = ground (arith, without_clean s)

-- A text with a colon is no fingerprint as the code compares it.
pub normalised-ne :
    (entry s : String)
    → has_colon entry ≡ true
    → str_eq (to_upper_case (without_colons s)) entry ≡ false
normalised-ne entry s h = elim (Bool-cases (str_eq (to_upper_case (without_colons s)) entry)) [
  | inl same ↦
      let e : to_upper_case (without_colons s) ≡ entry = (eq_iff _ entry).0 same in
      let clean : has_colon (to_upper_case (without_colons s)) ≡ false =
        upper_clean _ (without_clean s) in
      let clash : true ≡ false = sym h ∙ ap has_colon (sym e) ∙ clean in cc
  | inr other ↦ other
]

shouted : to_upper_case "ab:9z" ≡ "AB:9Z"
unfolding to_upper_case
shouted = refl

schemes : after_scheme "https://a/b" ≡ some "a/b"
unfolding after_scheme
schemes = refl

pieces : split_commas "a,bc," ≡ "a" ∷ "bc" ∷ "" ∷ []
unfolding split_commas
pieces = refl
