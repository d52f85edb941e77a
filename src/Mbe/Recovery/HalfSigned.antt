-- ===== src/Mbe/Recovery/HalfSigned.antt =====
-- A recovery that two wallet managers sign, each with its key: what they are asked.
use advanced_wallets.Base.{
  String, ◌≡◌, true, Option, some, none, List, ◌∷◌, Bool-cases, inl, inr, str_eq, refl, ◌<>◌,
}
use advanced_wallets.Js.{Value, Fields, str, obj, end, ◌⨾◌, set, spread, prop, is_num}
use advanced_wallets.Exec.{
  Call, Result, ok, err, http, sdk, World, Exec, Agent, lift, perform, ◌>>=◌,
}
use advanced_wallets.Exec.Only.{only_rules}
use advanced_wallets.Exec.History.{
  Along, ends, fails, calls, Any, Along-bind, Along-Only, Always, always,
}
use advanced_wallets.Mbe.AwmClient.{
  AwmClient, agent_of, request_of, with_coin, decode_expecting_200, send_expecting_200,
  post_expecting_200,
}
use advanced_wallets.Mbe.AwmClient.Mpc.{recovery_multisig_user_half_sign, recovery_multisig}
use advanced_wallets.Mbe.Recovery.Request.{RecoveryRequest}
use advanced_wallets.Mbe.Recovery.Multisig.{recover_with_two_managers}

-- The request to a manager to sign the recovery with its key or keys.
abbrev pub recovery_request : AwmClient → String → Fields → Option Agent → Call
recovery_request client coin body agent =
    http (request_of client "post" ("/api/" <> coin <> "/multisig/recovery") (obj body) agent)

-- What the user's manager is asked.
abbrev pub user_request : AwmClient → String → Fields → Option Agent → Call
user_request client coin body agent =
    recovery_request client coin (set body "keyToSign" (str "user")) agent

-- A call, by the calls before it: of the SDK, or a request to the user's manager to sign with the
-- user's key; or, directly after a request to the user's manager to sign a body that it has answered
-- with status 200, a request to the backup's manager to sign the same body with the backup's key,
-- with the body of that answer as what is signed by half.
pub data SplitCall (w : World) (user_client backup_client : AwmClient)
    : List Call → Call → Type 0 where
  by_sdk :
      (object method : String) (args : Value) (t : List Call)
      → SplitCall w user_client backup_client t (sdk object method args)
  user_signs :
      (coin : String) (body : Fields) (agent : Option Agent) (t : List Call)
      → SplitCall w user_client backup_client t (user_request user_client coin body agent)
  backup_signs :
      (user_coin coin : String) (body : Fields) (user_agent agent : Option Agent) (answer : Value)
      (before t : List Call)
      → t ≡ user_request user_client user_coin body user_agent ∷ before
      → w.reply before (user_request user_client user_coin body user_agent) ≡ ok answer
      → is_num (prop answer "status") 200 ≡ true
      → SplitCall w user_client backup_client t (
          recovery_request backup_client coin
            (spread body
              (("keyToSign", str "backup") ⨾ ("halfSignedTransaction", prop answer "body") ⨾ end))
            agent)

module _ (w : World) (req : RecoveryRequest) where
  abbrev pub Step : List Call → Call → Type 0
  Step = SplitCall w req.awm_user_client req.awm_backup_client

  abbrev pub Split {ℓ} : {A : Type ℓ} → Exec A → Type ℓ
  Split m = Always w Step m

  -- The user's manager has just answered the request for a body.
  record HalfSigned (body : Fields) (t : List Call) (half_signed : Value) : Type 0 where
    pub coin : String
    pub agent : Option Agent
    pub answer : Value
    pub before : List Call
    pub just : t ≡ user_request req.awm_user_client coin body agent ∷ before
    pub answered : w.reply before (user_request req.awm_user_client coin body agent) ≡ ok answer
    pub accepted : is_num (prop answer "status") 200 ≡ true
    pub half : half_signed ≡ prop answer "body"

  decoded :
      (body : Fields) (coin : String) (agent : Option Agent) (t : List Call) (r : Result Value)
      → w.reply t (user_request req.awm_user_client coin body agent) ≡ r
      → Along w Step
          (HalfSigned body)
          (lift r >>= decode_expecting_200)
          (user_request req.awm_user_client coin body agent ∷ t)
  unfolding decode_expecting_200
  decoded body coin agent t (err e) replied = fails e _
  decoded body coin agent t (ok answer) replied =
      elim (Bool-cases (is_num (prop answer "status") 200)) [
        | inl accepted ↦ rw accepted (
            ends _ _ (record {
              coin = coin;
              agent = agent;
              answer = answer;
              before = t;
              just = refl;
              answered = replied;
              accepted = accepted;
              half = refl;
            }))
        | inr refused ↦ rw refused (fails _ _)
      ]

  sent :
      (body : Fields) (coin : String) (t : List Call) (agent : Result (Option Agent))
      → Along w Step
          (HalfSigned body)
          (lift agent >>= λ a.
            perform (user_request req.awm_user_client coin body a) >>= decode_expecting_200)
          t
  sent body coin t (err e) = fails e t
  sent body coin t (ok agent) =
      calls _ _ t (user_signs coin body agent t) (decoded body coin agent t _ refl)

  user_half :
      (body : Fields) (coin : Option String) (doing : String) (t : List Call)
      → Along w Step
          (HalfSigned body)
          (with_coin coin doing λ name.
            post_expecting_200 req.awm_user_client name "/multisig/recovery"
              (set body "keyToSign" (str "user")))
          t
  unfolding with_coin post_expecting_200 send_expecting_200
  user_half body none doing t = fails _ t
  user_half body (some coin) doing t = elim (Bool-cases (str_eq coin "")) [
    | inl empty ↦ rw empty (fails _ t)
    | inr set ↦ rw set (sent body coin t (agent_of req.awm_user_client))
  ]

  answered_backup :
      (r : Result Value) (t : List Call) → Along w Step Any (lift r >>= decode_expecting_200) t
  unfolding decode_expecting_200
  answered_backup r t = Along-Only w _ t (search only_rules)

  backup_sent :
      (body : Fields) (coin : String) (t : List Call) (agent : Result (Option Agent))
      → ((a : Option Agent) → Step t (recovery_request req.awm_backup_client coin body a))
      → Along w Step Any
          (lift agent >>= λ a.
            perform (recovery_request req.awm_backup_client coin body a) >>= decode_expecting_200)
          t
  backup_sent body coin t (err e) step = fails e t
  backup_sent body coin t (ok agent) step = calls _ _ t (step agent) (answered_backup _ _)

  backup_asked :
      (body : Fields) (coin : Option String) (doing : String) (t : List Call)
      → ((c : String) (a : Option Agent) → Step t (recovery_request req.awm_backup_client c body a))
      → Along w Step Any
          (with_coin coin doing
            λ name. post_expecting_200 req.awm_backup_client name "/multisig/recovery" body)
          t
  unfolding with_coin post_expecting_200 send_expecting_200
  backup_asked body none doing t step = fails _ t
  backup_asked body (some coin) doing t step = elim (Bool-cases (str_eq coin "")) [
    | inl empty ↦ rw empty (fails _ t)
    | inr set ↦ rw set (backup_sent body coin t (agent_of req.awm_backup_client) (step coin))
  ]

  backup_half :
      (body : Fields) (half_signed : Value) (t : List Call)
      → HalfSigned body t half_signed
      → Along w Step Any
          (recovery_multisig req.awm_backup_client (
            spread body
              (("keyToSign", str "backup") ⨾ ("halfSignedTransaction", half_signed) ⨾ end)))
          t
  unfolding recovery_multisig
  backup_half body half_signed t h = rw h.half (
      backup_asked _ req.awm_backup_client.coin _ t λ coin a.
        backup_signs h.coin coin body h.agent a h.answer h.before t h.just h.answered h.accepted)

  pub two_managers-Only : (body : Fields) → Split (recover_with_two_managers req body)
  unfolding recover_with_two_managers recovery_multisig_user_half_sign
  two_managers-Only body = always _ λ t.
      Along-bind w _ _ t (user_half body req.awm_user_client.coin _ t)
        λ half_signed u h. backup_half body half_signed u h
