-- ===== src/Js/Json.antt =====
-- `JSON.stringify`.
use Prim.Native.Char.{Char, code}
use advanced_wallets.Base.{
  ℕ, ◌/◌, ◌%◌, ◌≡◌, refl, String, Bool, true, false, ◌==◌, ltb, ◌<>◌, if◌then◌else◌,
}
use advanced_wallets.Js.{
  Value, undefined, null, bool, num, str, obj, Fields, end, field, arr, Items, nil, cons, decimal,
}

abbrev hex_digit : ℕ → String
hex_digit d =
    if ltb d 10
    then decimal d
    else if d == 10
    then "a"
    else if d == 11
    then "b"
    else if d == 12
    then "c"
    else if d == 13
    then "d"
    else if d == 14
    then "e"
    else "f"

escaped : Char → String
escaped c =
    if code c == 34
    then "\\\""
    else if code c == 92
    then "\\\\"
    else if code c == 8
    then "\\b"
    else if code c == 9
    then "\\t"
    else if code c == 10
    then "\\n"
    else if code c == 12
    then "\\f"
    else if code c == 13
    then "\\r"
    else if ltb (code c) 32
    then "\\u00" <> hex_digit (code c / 16) <> hex_digit (code c % 16)
    else String.◌∷◌ c ""

escaped_text : String → String
unfolding escaped
escaped_text String.[] = ""
escaped_text (String.◌∷◌ c s) = escaped c <> escaped_text s

quoted : String → String
unfolding escaped_text
quoted s = "\"" <> escaped_text s <> "\""

abbrev is_undefined : Value → Bool
is_undefined undefined = true
is_undefined _ = false

-- An entry that is `undefined` is left out of an object, and is `null` in an array.
unfoldable mutual
  unfolding quoted

  pub json : Value → String
  json undefined = "undefined"
  json null = "null"
  json (bool b) = if b then "true" else "false"
  json (num n) = decimal n
  json (str s) = quoted s
  json (arr xs) = "[" <> json_items xs true <> "]"
  json (obj fs) = "{" <> json_fields fs true <> "}"

  json_items : Items → Bool → String
  json_items nil first = ""
  json_items (cons x xs) first =
      (if first then "" else ",")
      <> (if is_undefined x then "null" else json x)
      <> json_items xs false

  json_fields : Fields → Bool → String
  json_fields end first = ""
  json_fields (field k v fs) first =
      (if is_undefined v then "" else (if first then "" else ",") <> quoted k <> ":" <> json v)
      <> json_fields fs (if is_undefined v then first else false)

printed :
    json
      (obj (field "a" (num 12) (field "b" undefined (field "c" (arr (cons (str "x\"") nil)) end))))
    ≡ "{\"a\":12,\"c\":[\"x\\\"\"]}"
unfolding json decimal
printed = refl
