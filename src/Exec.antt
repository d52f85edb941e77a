-- ===== src/Exec.antt =====
-- Handlers: they call what is outside of the repository, and they may throw.
pub mod Laws
pub mod Only
pub mod Steady
pub mod Pool
pub mod Settles
pub mod Silent
pub mod Yields
pub mod Both
pub mod History
use advanced_wallets.Base.{ℕ, String, Bool, Option, none, some, List, ◌∷◌, if◌then◌else◌}
use advanced_wallets.Js.{Value, Fields, undefined, num, str, end, ◌⨾◌, is_nil, to_string, prop, get}

-- What `instanceof` and the constructors tell apart. `plain` is an object that is no `Error`;
-- `response_error` is what the HTTP client library throws.
pub data ErrorClass : Type 0 where
  plain error type_error : ErrorClass
  validation not_found bad_request unauthorized forbidden conflict not_implemented : ErrorClass
  method_not_implemented api_response decode response_error : ErrorClass

-- A thrown value: its class, and its properties, `name` and `message` among them.
pub record Exn : Type 0 where
  pub class : ErrorClass
  pub own : Fields

pub data Result {ℓ} (A : Type ℓ) : Type ℓ where
  ok : A → Result A
  err : Exn → Result A

-- `https.Agent`, by its options
pub record Agent : Type 0 where
  pub ca : Option String
  pub cert : Option String
  pub key : Option String
  pub reject_unauthorized : Bool

pub record Request : Type 0 where
  pub method : String
  pub url : String
  pub query : Value
  pub body : Value
  pub headers : Fields
  pub timeout : ℕ
  pub agent : Option Agent

-- A call of what is not part of the repository: an HTTP request, or the method of an object of the
-- BitGo SDK (the coin or the object, the method, its arguments).
pub data Call : Type 0 where
  http : Request → Call
  sdk : String → String → Value → Call

-- The members of `CoinFamily` (`polkadot` is DOT) and `CoinFeature` that the code names; the rest is
-- `other`.
pub data CoinFamily : Type 0 where
  eth ethw rbtc etc avaxc polygon arbeth opeth bsc baseeth coredao oas flr sgb wemix xdc :
      CoinFamily
  btc ltc bch zec dash btg eos stx xtz near polkadot sui ada sol trx other_family : CoinFamily

pub data CoinFeature : Type 0 where
  cosmos_like_coins other_feature : CoinFeature

-- A coin of the SDK, by the answers of its methods that have no effect.
pub record Coin : Type 0 where
  pub name : String
  -- `String(coin)` and `coin.getFullName()`
  pub shown : String
  pub full_name : String
  -- `coin.getFamily()`, and its text
  pub family : CoinFamily
  pub family_text : String
  pub features : List CoinFeature
  pub mpc_algorithm : Option String
  pub is_evm : Bool
  pub supports_tss : Bool

-- What the handlers run in: the answer to each call, which may depend on all earlier ones, and the
-- libraries that the code relies on.
pub record World : Type 0 where
  pub reply : List Call → Call → Result Value
  -- `sdk.coin(name)`, with its module registered
  pub coin : String → Result Coin
  -- `new URL(url)` with `protocol` set, as a text
  pub with_protocol : String → String → Result String
  -- the message of the `ZodError` for a value that a schema refuses
  pub zod_message : String → Value → String
  -- `MPCType.ECDSA` and `new MethodNotImplementedError(message)` of the SDK
  pub ecdsa : String
  pub method_not_implemented_error : String → Exn
  -- `_.pick(object, keys)` of lodash
  pub pick : Value → Value → Fields

-- A world whose answer to a call does not depend on the calls before it.
abbrev pub steady : World → (Call → Result Value) → World
steady w answers = record w { reply = λ _ c. answers c }

-- A handler, as what it does next: it has returned or thrown, or it awaits the answer to a call.
pub data Exec {ℓ} (A : Type ℓ) : Type ℓ where
  done : Result A → Exec A
  ask : Call → (Result Value → Exec A) → Exec A

module _ {ℓ} {A : Type ℓ} where
  abbrev pub pure : A → Exec A
  pure a = done (ok a)

  abbrev pub throw : Exn → Exec A
  throw e = done (err e)

  abbrev pub lift : Result A → Exec A
  lift r = done r

  -- `try { m } catch (e) { h(e) }`
  abbrev pub catch : Exec A → (Exn → Exec A) → Exec A
  catch (done (ok a)) h = done (ok a)
  catch (done (err e)) h = h e
  catch (ask c k) h = ask c (λ r. catch (k r) h)

module _ {ℓ κ} {A : Type ℓ} {B : Type κ} where
  infixl 5 ◌>>=◌ ◌>>◌
  abbrev pub ◌>>=◌ : Exec A → (A → Exec B) → Exec B
  done (ok a) >>= f = f a
  done (err e) >>= f = done (err e)
  ask c k >>= f = ask c (λ r. k r >>= f)

  abbrev pub ◌>>◌ : Exec A → Exec B → Exec B
  m >> n = m >>= λ _. n

-- `await` of a call
abbrev pub perform : Call → Exec Value
perform c = ask c done

-- A handler that runs alone: its outcome, and the calls made so far, newest first.
module _ {ℓ} {A : Type ℓ} (w : World) where
  unfoldable pub run : Exec A → List Call → Result A × List Call
  run (done r) t = (r, t)
  run (ask c k) t = run (k (w.reply t c)) (c ∷ t)

-- `if (test) throw e`
abbrev pub throw_if : Bool → Exn → Exec (Unit {0})
throw_if b e = if b then throw e else pure tt

-- `new Error(message)` and its subclasses
abbrev pub make : ErrorClass → String → String → Exn
make class name message = record {
  class = class;
  own = ("name", str name) ⨾ ("message", str message) ⨾ end;
}

abbrev pub plain_error : String → Exn
plain_error = make error "Error"

-- `e.k`
abbrev pub exn_prop : Exn → String → Value
exn_prop e k = get e.own k

-- The message of `new Error(v)`.
abbrev pub message_text : Value → String
message_text undefined = ""
message_text v = to_string v

-- `v.k`, which throws where `v` is `undefined` or `null`
unfoldable pub dot : Value → String → Exec Value
dot v k =
    if is_nil v
    then throw (make type_error "TypeError" "Cannot read properties of undefined")
    else pure (prop v k)
