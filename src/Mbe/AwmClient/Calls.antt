-- ===== src/Mbe/AwmClient/Calls.antt =====
-- The calls that the client of the wallet manager makes.
use advanced_wallets.Base.{
  String, ◌≡◌, refl, Bool, true, false, Bool-cases, inl, inr, Option, some, none, ◌<>◌, str_eq,
  if◌then◌else◌,
}
use advanced_wallets.Js.{Value, Fields, undefined, null, bool, num, arr, str, obj, prop}
use advanced_wallets.Exec.{
  Exn, Call, http, Result, ok, err, Agent, Exec, done, pure, throw, perform, dot, lift, ◌>>=◌,
}
use advanced_wallets.Exec.Both.{OneCall, refuses, once}
use advanced_wallets.Exec.Only.{Only, returns, Only-bind, Only-if, only_rules}
use advanced_wallets.Mbe.AwmClient.{
  AwmClient, agent_of, request_of, send_expecting_200, post_expecting_200, with_coin,
  decode_expecting_200,
}

module _ {P : Call → Type 0} (client : AwmClient) where
  Only-decode : (response : Value) → Only P (decode_expecting_200 response)
  unfolding decode_expecting_200
  Only-decode response = search only_rules

  pub Only-send :
      (method path : String) (body : Value)
      → ((agent : _) → P (http (request_of client method path body agent)))
      → Only P (send_expecting_200 client method path body)
  unfolding send_expecting_200
  Only-send method path body p =
      Only-bind (lift (agent_of client)) _ (returns _) λ agent. search (only_rules, Only-decode)

  pub Only-post :
      (coin path : String) (body : Fields)
      → ((agent : _)
          → P (http (request_of client "post" ("/api/" <> coin <> path) (obj body) agent)))
      → Only P (post_expecting_200 client coin path body)
  unfolding post_expecting_200
  Only-post coin path body p = Only-send "post" _ (obj body) p

  pub Only-with_coin :
      (coin : Option String) (doing : String) (next : String → Exec Value)
      → ((c : String) → Only P (next c))
      → Only P (with_coin coin doing next)
  unfolding with_coin
  Only-with_coin none doing next h = returns _
  Only-with_coin (some coin) doing next h =
      Only-if (str_eq coin "") _ _ (λ _. returns _) λ _. h coin

module _ {ℓ} {A : Type ℓ} {P : Call → Type 0} where
  pub Only-read :
      (v : Value) (key : String) (f : Value → Exec A)
      → Only P (f (prop v key))
      → Only P (dot v key >>= f)
  unfolding dot
  Only-read undefined key f o = returns _
  Only-read null key f o = returns _
  Only-read (bool b) key f o = o
  Only-read (num n) key f o = o
  Only-read (str s) key f o = o
  Only-read (arr vs) key f o = o
  Only-read (obj fs) key f o = o

decoded :
    (accepted : Bool) (body : Value) (e : Exn)
    → (s : Result Value) × ((if accepted then pure body else throw e) ≡ done s)
decoded true body e = (ok body, refl)
decoded false body e = (err e, refl)

replied : (r : Result Value) → (s : Result Value) × ((lift r >>= decode_expecting_200) ≡ done s)
unfolding decode_expecting_200
replied (err e) = (err e, refl)
replied (ok response) = decoded _ _ _

module _ {P : Call → Type 0} (client : AwmClient) where
  sent :
      (path : String) (body : Value) (agent : Result (Option Agent))
      → ((a : Option Agent) → P (http (request_of client "post" path body a)))
      → OneCall P (
          lift agent >>= λ a.
          perform (http (request_of client "post" path body a)) >>= decode_expecting_200)
  sent path body (err e) p = refuses e
  sent path body (ok agent) p = once _ _ (p agent) replied

  pub post-OneCall :
      (coin : Option String) (doing path : String) (body : Fields)
      → ((c : String) (agent : Option Agent)
          → P (http (request_of client "post" ("/api/" <> c <> path) (obj body) agent)))
      → OneCall P (with_coin coin doing λ c. post_expecting_200 client c path body)
  unfolding with_coin post_expecting_200 send_expecting_200
  post-OneCall none doing path body p = refuses _
  post-OneCall (some coin) doing path body p = elim (Bool-cases (str_eq coin "")) [
    | inl empty ↦ rw empty (refuses _)
    | inr set ↦ rw set (sent _ (obj body) (agent_of client) (p coin))
  ]
