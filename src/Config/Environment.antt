-- ===== src/Config/Environment.antt =====
-- The environment of the process: its variables, and the files that hold certificates.
use advanced_wallets.Base.{
  given, ℕ, String, Bool, true, false, ◌||◌, ◌≡◌, refl, ap, Option, none, some, str_eq, ◌<>◌, ◌==◌,
  if◌then◌else◌,
}
use advanced_wallets.Js.{text}
use advanced_wallets.Js.Texts.{to_lower_case}
use advanced_wallets.Exec.{Exn, Result, ok, err, plain_error, exn_prop}
use advanced_wallets.Shared.Types.{TlsMode, disabled, mtls, SigningMode, local, external}

infixl 5 ◌>>=◌ ◌>>◌
abbrev pub ◌>>=◌ {ℓ κ} : {A : Type ℓ} {B : Type κ} → Result A → (A → Result B) → Result B
ok a >>= f = f a
err e >>= f = err e

abbrev pub ◌>>◌ {ℓ} : {B : Type ℓ} → Result (Unit {0}) → Result B → Result B
m >> n = m >>= λ _. n

abbrev value_or {ℓ} : {A : Type ℓ} → A → Result A → A
value_or b (ok a) = a
value_or b (err e) = b

-- What holds of the value of a result, if it has one.
pub data Holds {ℓ} {A : Type ℓ} (P : A → Type 0) : Result A → Type ℓ where
  holds : (a : A) → P a → Holds P (ok a)
  fails : (e : Exn) → Holds P (err e)

module _ {ℓ κ} {A : Type ℓ} {B : Type κ} {P : A → Type 0} {Q : B → Type 0} where
  pub Holds-bind :
      (m : Result A) (f : A → Result B)
      → Holds P m
      → ((a : A) → P a → Holds Q (f a))
      → Holds Q (m >>= f)
  Holds-bind (ok a) f (holds _ p) h = h a p
  Holds-bind (err e) f (fails _) h = fails e

module _ {ℓ κ} {A : Type ℓ} {B : Type κ} {Q : B → Type 0} where
  -- Where nothing is needed of the first value.
  pub Holds-any : (m : Result A) (f : A → Result B) → ((a : A) → Holds Q (f a)) → Holds Q (m >>= f)
  Holds-any (ok a) f h = h a
  Holds-any (err e) f h = fails e

module _ {ℓ} {A : Type ℓ} {P : A → Type 0} where
  pub Holds-if :
      (test : Bool) (m n : Result A)
      → (test ≡ true → Holds P m)
      → (test ≡ false → Holds P n)
      → Holds P (if test then m else n)
  Holds-if true m n p q = p refl
  Holds-if false m n p q = q refl

  pub Holds-map : {Q : A → Type 0} (m : Result A) → Holds P m → ((a : A) → P a → Q a) → Holds Q m
  Holds-map (ok a) (holds _ p) f = holds a (f a p)
  Holds-map (err e) (fails _) f = fails e

  pub Holds-ok : (m : Result A) (a : A) → Holds P m → m ≡ ok a → P a
  Holds-ok (ok b) a (holds _ p) h = let e : b ≡ a = ap (value_or b) h in rw e at p
  Holds-ok (err e) a (fails _) h = absurd cc

-- `Number(text)`: the numbers below zero come with the text that JavaScript shows for them.
-- Fractions are not modelled.
pub data JsNumber : Type 0 where
  nan : JsNumber
  natural : ℕ → JsNumber
  negative : String → JsNumber

-- `process.env`, `Number` on a text, and `fs.readFileSync(path, 'utf-8')`, which may throw.
pub record Env : Type 0 where
  pub variable : String → Option String
  pub number : String → JsNumber
  pub read_file : String → Result String

abbrev unless_empty : Option String → Option String
unless_empty none = none
unless_empty (some s) = if str_eq s "" then none else some s

unfoldable pub read_env_var : Env → String → Option String
read_env_var env name = unless_empty (env.variable name)

-- `a || b`, for texts that are not empty where they are set
abbrev pub first_set : Option String → Option String → Option String
first_set none b = b
first_set (some a) b = some a

-- `a || text` and `a ?? text`, likewise
abbrev pub or_text : Option String → String → String
or_text none t = t
or_text (some a) t = a

-- `a === 'true'`
abbrev pub is_true : Option String → Bool
is_true none = false
is_true (some a) = str_eq a "true"

abbrev number_of : Env → Option String → JsNumber
number_of env none = nan
number_of env (some s) = env.number s

-- `Number(readEnvVar(name))`, where `NaN` is no entry of the configuration. A negative number, which
-- is no port and no time, is left out as well.
unfoldable pub env_number : Env → String → Option ℕ
env_number env name = elim (number_of env (read_env_var env name)) [
  | natural n ↦ some n
  | other ↦ none
]

abbrev pub or_number : Option ℕ → ℕ → ℕ
or_number none n = n
or_number (some m) n = m

-- `parsePositiveInt`
unfoldable pub parse_positive_int : Env → String → ℕ → Result ℕ
parse_positive_int env name default = elim (number_of env (read_env_var env name)) [
  | nan ↦ ok default
  | natural n ↦ ok (if n == 0 then default else n)
  | negative shown ↦ err (plain_error (name <> " must be a positive number, got " <> shown))
]

unfoldable pub read_cert_file : Env → String → String → Result String
read_cert_file env path label = elim (env.read_file path) [
  | ok content ↦ ok content
  | err e ↦ err (
      plain_error
        ("Failed to read " <> label <> " from " <> path <> ": " <> text (exn_prop e "message")))
]

cert_at : Env → Option String → String → Result (Option String)
cert_at env none label = ok none
cert_at env (some path) label =
    if str_eq path ""
    then ok none
    else read_cert_file env path label >>= λ content. ok (some content)

-- A value that is set is kept; else the file is read, if there is a path.
unfoldable pub load_cert : Env → Option String → Option String → String → Result (Option String)
unfolding cert_at
load_cert env value path label = if given value then ok value else cert_at env path label

parse_tls_mode : Option String → Result TlsMode
parse_tls_mode none = ok mtls
parse_tls_mode (some s) =
    if str_eq (to_lower_case s) "disabled"
    then ok disabled
    else if str_eq (to_lower_case s) "mtls"
    then ok mtls
    else err (
        plain_error
          ("Invalid TLS_MODE: " <> to_lower_case s <> ". Must be either \"disabled\" or \"mtls\""))

unfoldable pub determine_tls_mode : Env → Result TlsMode
unfolding parse_tls_mode
determine_tls_mode env = parse_tls_mode (read_env_var env "TLS_MODE")

-- The two names on the prototype of an object in lower case are found in `SIGNING_MODE_MAP` as well.
-- What they name is no member of the enumeration, and is taken for local by every test.
parse_signing_mode : Option String → Result SigningMode
parse_signing_mode none = ok local
parse_signing_mode (some s) =
    let raw = to_lower_case s in
    if str_eq raw "local" || str_eq raw "constructor" || str_eq raw "__proto__"
    then ok local
    else if str_eq raw "external"
    then ok external
    else err (plain_error ("Invalid SIGNING_MODE: " <> raw <> ". Must be one of: local, external"))

unfoldable pub determine_signing_mode : Env → Result SigningMode
unfolding parse_signing_mode
determine_signing_mode env = parse_signing_mode (read_env_var env "SIGNING_MODE")
