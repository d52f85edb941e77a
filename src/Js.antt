-- ===== src/Js.antt =====
-- The values of JavaScript that the handlers pass on: JSON, with `undefined`. Numbers are the
-- non-negative integers.
pub mod Laws
pub mod Texts
pub mod Json
pub mod Parse
use advanced_wallets.Base.{
  ℕ, zero, suc, ◌/◌, ◌%◌, String, Bool, true, false, not, Option, none, some, str_eq, ltb, ◌==◌,
  ◌<>◌, if◌then◌else◌,
}

mutual
  pub data Value : Type 0 where
    undefined null : Value
    bool : Bool → Value
    num : ℕ → Value
    str : String → Value
    obj : Fields → Value
    arr : Items → Value

  pub data Fields : Type 0 where
    end : Fields
    field : String → Value → Fields → Fields

  pub data Items : Type 0 where
    nil : Items
    cons : Value → Items → Items

-- An entry of an object literal: `("a", v) ⨾ end` is `{ a: v }`.
infixr 40 ◌⨾◌
abbrev pub ◌⨾◌ : String × Value → Fields → Fields
(k, v) ⨾ fs = field k v fs

-- `fs[k]`
unfoldable pub get : Fields → String → Value
get end k = undefined
get (field j v fs) k = if str_eq j k then v else get fs k

-- `k in fs`
unfoldable pub has : Fields → String → Bool
has end k = false
has (field j v fs) k = if str_eq j k then true else has fs k

-- `{ ...fs, [k]: v }`
unfoldable pub set : Fields → String → Value → Fields
set end k v = field k v end
set (field j w fs) k v = if str_eq j k then field j v fs else field j w (set fs k v)

-- `{ ...fs, ...gs }`
unfoldable pub spread : Fields → Fields → Fields
spread fs end = fs
spread fs (field k v gs) = spread (set fs k v) gs

-- `{ ...v }`: a value that is no object has no entries.
abbrev pub entries : Value → Fields
entries (obj fs) = fs
entries _ = end

-- `v?.k`
abbrev pub prop : Value → String → Value
prop v k = get (entries v) k

-- `Boolean(v)`
unfoldable pub truthy : Value → Bool
truthy undefined = false
truthy null = false
truthy (bool b) = b
truthy (num n) = not (n == 0)
truthy (str s) = not (str_eq s "")
truthy (arr xs) = true
truthy (obj fs) = true

-- `v || w`
abbrev pub or_else : Value → Value → Value
or_else v w = if truthy v then v else w

-- `v == null`
abbrev pub is_nil : Value → Bool
is_nil undefined = true
is_nil null = true
is_nil _ = false

-- `v ?? w`
abbrev pub coalesce : Value → Value → Value
coalesce v w = if is_nil v then w else v

-- An optional text as a value.
abbrev pub optional : Option String → Value
optional none = undefined
optional (some s) = str s

-- `typeof v === 'string'`
abbrev pub is_string : Value → Bool
is_string (str s) = true
is_string _ = false

abbrev pub is_number : Value → Bool
is_number (num n) = true
is_number _ = false

abbrev pub is_array : Value → Bool
is_array (arr xs) = true
is_array _ = false

-- an object that is no array
abbrev pub is_record : Value → Bool
is_record (obj fs) = true
is_record _ = false

-- `v === text`
abbrev pub is_text : Value → String → Bool
is_text (str s) t = str_eq s t
is_text _ t = false

abbrev pub is_num : Value → ℕ → Bool
is_num (num n) m = n == m
is_num _ m = false

-- `a === b`, for values that are no objects
abbrev pub strict_eq : Value → Value → Bool
strict_eq undefined undefined = true
strict_eq null null = true
strict_eq (bool true) (bool b) = b
strict_eq (bool false) (bool b) = not b
strict_eq (num n) (num m) = n == m
strict_eq (str s) (str t) = str_eq s t
strict_eq _ _ = false

-- a text field that the type of the source calls a string
abbrev pub text : Value → String
text (str s) = s
text _ = ""

abbrev digit : ℕ → String
digit d =
    if d == 0
    then "0"
    else if d == 1
    then "1"
    else if d == 2
    then "2"
    else if d == 3
    then "3"
    else if d == 4
    then "4"
    else if d == 5
    then "5"
    else if d == 6
    then "6"
    else if d == 7
    then "7"
    else if d == 8
    then "8"
    else "9"

decimal_from : ℕ → ℕ → String → String
decimal_from zero n acc = acc
decimal_from (suc fuel) n acc =
    let longer = decimal_from fuel (n / 10) (digit (n % 10) <> acc) in
    if ltb n 10 then digit n <> acc else longer

-- A number has fewer digits than `n + 1`, which is the fuel.
unfoldable pub decimal : ℕ → String
unfolding decimal_from
decimal n = decimal_from (suc n) n ""

-- `String(v)`
unfoldable mutual
  pub to_string : Value → String
  to_string undefined = "undefined"
  to_string null = "null"
  to_string (bool b) = if b then "true" else "false"
  to_string (num n) = decimal n
  to_string (str s) = s
  to_string (arr xs) = join xs
  to_string (obj fs) = "[object Object]"

  -- An array is joined by commas, where `null` and `undefined` are empty.
  pub join : Items → String
  join nil = ""
  join (cons x nil) = to_string x
  join (cons x xs) = to_string x <> "," <> join xs
