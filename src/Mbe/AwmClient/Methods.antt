-- ===== src/Mbe/AwmClient/Methods.antt =====
-- What every method of the client sends.
use advanced_wallets.Base.{
  String, ◌≡◌, refl, Option, none, some, List, [], ◌∷◌, str_eq, arith, ◌<>◌, if◌then◌else◌, Bool,
  true, false, not, given, ◌||◌, Bool-cases, inl, inr,
}
use mathlib.Core.Path.{subst}
use advanced_wallets.Js.{Value, Fields}
use advanced_wallets.Exec.{
  Exn, Call, http, sdk, Result, ok, err, World, Exec, done, run, lift, perform, Agent, throw_if,
  ◌>>=◌, ◌>>◌,
}
use advanced_wallets.Mbe.AwmClient.{
  AwmClient, agent_of, create_https_agent, request_of, decode_expecting_200, send_expecting_200,
  post_expecting_200, with_coin, create_independent_keychain, sign_multisig,
}
use advanced_wallets.Mbe.AwmClient.Mpc.{
  recovery_mpc, ping, get_version, recovery_multisig_user_half_sign, recovery_multisig,
  init_mpc_key_generation, finalize_mpc_key_generation, sign_mpc_commitment, sign_mpc_r_share,
  sign_mpc_g_share, init_ecdsa_mpc_v2_key_gen, round_ecdsa_mpc_v2_key_gen,
  finalize_ecdsa_mpc_v2_key_gen, sign_mpc_v2_round1, sign_mpc_v2_round2, sign_mpc_v2_round3,
  recover_ecdsa_mpc_v2_wallet,
}

-- The handler throws at once, or it is one request of the typed client.
pub data Sends (client : AwmClient) : Exec Value → Type 0 where
  refuses : (e : Exn) → Sends client (done (err e))
  sends :
      (method path : String) (body : Value)
      → Sends client (send_expecting_200 client method path body)

-- The methods of the class, with their arguments.
pub data Method : Type 0 where
  independent_keychain : Value → Value → Method
  multisig : Value → Method
  mpc_recovery : Value → Method
  health version : Method
  user_half_recovery : Fields → Method
  multisig_recovery : Fields → Method
  mpc_key_initialize : String → Value → Value → Method
  mpc_key_finalize : Value → Method
  commitment r_share g_share : Fields → Method
  mpc_v2_initialize : String → Method
  mpc_v2_round mpc_v2_finalize : Fields → Method
  round1 round2 round3 : String → Value → Fields → Method
  mpc_v2_recovery : Value → Value → Method

abbrev pub invoke : AwmClient → Method → Exec Value
invoke client (independent_keychain source seed) = create_independent_keychain client source seed
invoke client (multisig params) = sign_multisig client params
invoke client (mpc_recovery params) = recovery_mpc client params
invoke client health = ping client
invoke client version = get_version client
invoke client (user_half_recovery params) = recovery_multisig_user_half_sign client params
invoke client (multisig_recovery params) = recovery_multisig client params
invoke client (mpc_key_initialize source key user_key) =
    init_mpc_key_generation client source key user_key
invoke client (mpc_key_finalize params) = finalize_mpc_key_generation client params
invoke client (commitment params) = sign_mpc_commitment client params
invoke client (r_share params) = sign_mpc_r_share client params
invoke client (g_share params) = sign_mpc_g_share client params
invoke client (mpc_v2_initialize source) = init_ecdsa_mpc_v2_key_gen client source
invoke client (mpc_v2_round params) = round_ecdsa_mpc_v2_key_gen client params
invoke client (mpc_v2_finalize params) = finalize_ecdsa_mpc_v2_key_gen client params
invoke client (round1 source key params) = sign_mpc_v2_round1 client source key params
invoke client (round2 source key params) = sign_mpc_v2_round2 client source key params
invoke client (round3 source key params) = sign_mpc_v2_round3 client source key params
invoke client (mpc_v2_recovery hex key) = recover_ecdsa_mpc_v2_wallet client hex key

post-Sends :
    (client : AwmClient) (coin path : String) (body : Fields)
    → Sends client (post_expecting_200 client coin path body)
unfolding post_expecting_200
post-Sends client coin path body = sends _ _ _

Sends-if :
    (client : AwmClient) (test : Bool) (e : Exn) (m : Exec Value)
    → Sends client m
    → Sends client (if test then done (err e) else m)
Sends-if client true e m h = refuses e
Sends-if client false e m h = h

with_coin-Sends :
    (client : AwmClient) (coin : Option String) (doing : String) (next : String → Exec Value)
    → ((name : String) → Sends client (next name))
    → Sends client (with_coin coin doing next)
unfolding with_coin
with_coin-Sends client none doing next h = refuses _
with_coin-Sends client (some coin) doing next h =
    Sends-if client (str_eq coin "") _ (next coin) (h coin)

module _ {ℓ} {A : Type ℓ} where
  lift-Sends :
      (client : AwmClient) (r : Result A) (f : A → Exec Value)
      → ((a : A) → Sends client (f a))
      → Sends client (lift r >>= f)
  lift-Sends client (ok a) f h = h a
  lift-Sends client (err e) f h = refuses e

throw_if-Sends :
    (client : AwmClient) (test : Bool) (e : Exn) (m : Exec Value)
    → Sends client m
    → Sends client (throw_if test e >> m)
throw_if-Sends client true e m h = refuses e
throw_if-Sends client false e m h = h

ruleset sends_rules = (sends, post-Sends, with_coin-Sends, lift-Sends, throw_if-Sends)

invoke-Sends : (client : AwmClient) (m : Method) → Sends client (invoke client m)
unfolding recovery_mpc ping get_version recovery_multisig_user_half_sign recovery_multisig
    init_mpc_key_generation finalize_mpc_key_generation sign_mpc_commitment sign_mpc_r_share
    sign_mpc_g_share init_ecdsa_mpc_v2_key_gen round_ecdsa_mpc_v2_key_gen
    finalize_ecdsa_mpc_v2_key_gen sign_mpc_v2_round1 sign_mpc_v2_round2 sign_mpc_v2_round3
    recover_ecdsa_mpc_v2_wallet create_independent_keychain sign_multisig
invoke-Sends client (independent_keychain source seed) = search sends_rules
invoke-Sends client (mpc_recovery params) = search sends_rules
invoke-Sends client (mpc_key_finalize params) = search sends_rules
invoke-Sends client m = search sends_rules

-- The agent of a request: none without mTLS; under mTLS, one with the key and the certificate of the
-- client, which are set, that trusts the client's certificate authority and refuses a server that it
-- does not vouch for, unless the client allows self-signed certificates.
abbrev pub Credentials : AwmClient → Option Agent → Type 0
Credentials client none = client.mtls ≡ false
Credentials client (some agent) =
    (client.mtls ≡ true)
    × (given agent.key ≡ true)
    × (given agent.cert ≡ true)
    × (agent.key ≡ client.awm_client_tls_key)
    × (agent.cert ≡ client.awm_client_tls_cert)
    × (agent.ca ≡ client.awm_server_ca_cert)
    × (agent.reject_unauthorized ≡ not client.awm_server_cert_allow_self_signed)

-- The agent has the credentials, where one can be made.
abbrev Credited : AwmClient → Result (Option Agent) → Type 0
Credited client (ok agent) = Credentials client agent
Credited client (err e) = Unit

agent_of-Credited : (client : AwmClient) → Credited client (agent_of client)
unfolding agent_of create_https_agent
agent_of-Credited client = elim (Bool-cases client.mtls) [
  | inr plain ↦ rw plain refl
  | inl mtls ↦
      elim (Bool-cases
        (not (given client.awm_client_tls_key) || not (given client.awm_client_tls_cert))) [
          | inl missing ↦ rw (mtls, missing) tt
          | inr set ↦ rw (mtls, set) (refl, ground arith, ground arith, refl, refl, refl, refl)
        ]
]

-- A call to the client's manager: to its URL, and under mTLS over an agent with the credentials of
-- the client.
abbrev pub SentBy : AwmClient → Call → Type 0
SentBy client (http r) =
    (path : String) × (r.url ≡ client.base_url <> path) × Credentials client r.agent
SentBy client (sdk object method args) = ⊥

-- No call, or one of which `P` holds.
abbrev pub AtMostOne : (Call → Type 0) → List Call → Type 0
AtMostOne P [] = Unit
AtMostOne P (c ∷ []) = P c
AtMostOne P (c ∷ d ∷ t) = ⊥

decode_calls :
    (w : World) (response : Value) (t : List Call) → (run w (decode_expecting_200 response) t).1 ≡ t
unfolding decode_expecting_200 run
decode_calls w response t = ground arith

-- What one request calls, by the agent that it gets.
attempt :
    (w : World) (client : AwmClient) (method path : String) (body : Value)
    (agent : Result (Option Agent))
    → agent_of client ≡ agent
    → AtMostOne
        (SentBy client)
        (run w
          (lift agent >>= λ a.
            perform (http (request_of client method path body a)) >>= decode_expecting_200)
          []).1
unfolding run
attempt w client method path body (err e) h = tt
attempt w client method path body (ok agent) h = answered (w.reply [] _)
  where
    held : Credentials client agent
    held = subst (Credited client) h (agent_of-Credited client)

    answered :
        (r : Result Value)
        → AtMostOne
            (SentBy client)
            (run w
              (lift r >>= decode_expecting_200)
              (http (request_of client method path body agent) ∷ [])).1
    answered (err e) = (path, refl, held)
    answered (ok response) = rw (decode_calls w response _) (path, refl, held)

Sends-run :
    (w : World) (client : AwmClient) (m : Exec Value)
    → Sends client m
    → AtMostOne (SentBy client) (run w m []).1
unfolding run send_expecting_200
Sends-run w client m (refuses e) = tt
Sends-run w client m (sends method path body) =
    attempt w client method path body (agent_of client) refl

-- Every method of the client sends at most one request, whatever its arguments and the answer: to
-- the URL of the client's manager and, under mTLS, over an agent with the client's own key,
-- certificate and certificate authority, which does not accept just any server unless the client is
-- told to. Where the key or the certificate is missing under mTLS, nothing is sent.
pub client_calls_authenticated :
    (w : World) (client : AwmClient) (m : Method)
    → AtMostOne (SentBy client) (run w (invoke client m) []).1
client_calls_authenticated w client m = Sends-run w client (invoke client m) (invoke-Sends client m)
