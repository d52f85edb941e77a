-- ===== src/Mbe/Generate/Keys.antt =====
-- Where the keys of a new wallet are made.
use advanced_wallets.Base.{
  String, ◌≡◌, refl, Bool, true, false, Bool-cases, inl, inr, Option, none, some, [], ◌∷◌, str_eq,
  ◌<>◌, if◌then◌else◌, ◌||◌, ◌⊎◌, eq_iff,
}
use advanced_wallets.Js.{undefined, str, Fields, end, ◌⨾◌, prop, get, set, spread, truthy, is_text}
use advanced_wallets.Exec.{Call, http, sdk, World, Exec, done, ask, lift, pure, run, ◌>>=◌}
use advanced_wallets.Exec.Only.{Only, returns, asks, All, All-run, Only-bind, Only-if, only_rules}
use advanced_wallets.Exec.Yields.{Yields, gives, Yields-bind, Only-bind-Yields}
use advanced_wallets.Shared.Types.{user, backup}
use advanced_wallets.Shared.HttpClient.{HttpClient, request, post_call}
use advanced_wallets.Awm.KeyProvider.Calls.{Only-call}
use advanced_wallets.Mbe.AwmClient.{
  AwmClient, with_coin, agent_of, post_expecting_200, create_independent_keychain,
}
use advanced_wallets.Mbe.Bridge.{
  SubmitParams, multisig_keygen, operation_text, submit_headers, submit,
}
use advanced_wallets.Mbe.Submit.{submit_job_via_bridge_client}
use advanced_wallets.Mbe.Submit.Posting.{slash}
use advanced_wallets.Mbe.SendMany.{MasterRequest, async_enabled}
use advanced_wallets.Mbe.Generate.{
  onchain_key_gen_callback, handle_generate_evm_key_ring_wallet, pending_or_now, submit_keygen_job,
  handle_generate_wallet,
}

-- The job for the keys of the user and the backup, with the request as its body.
abbrev pub keygen_job_call : HttpClient → MasterRequest → Call
keygen_job_call bridge req = http (record {
  method = "post";
  url = bridge.url <> ("/api/" <> (req.coin <> "/key/independent"));
  query = undefined;
  body = req.decoded;
  headers = ("X-OSO-Source", str "user,backup") ⨾ ("X-OSO-Operation", str "multisig_keygen") ⨾ end;
  timeout = bridge.timeout;
  agent = bridge.agent;
})

module _ (w : World) (req : MasterRequest) (bridge : HttpClient) where
  abbrev Posts : {A : Type 0} → Exec A → Type 0
  Posts m = Only (λ c. c ≡ keygen_job_call bridge req) m

  post_job-Only :
      (url : String) (headers : Fields)
      → url ≡ bridge.url <> ("/api/" <> (req.coin <> "/key/independent"))
      → headers
        ≡ (("X-OSO-Source", str "user,backup") ⨾ ("X-OSO-Operation", str "multisig_keygen") ⨾ end)
      → Posts (post_call bridge url req.decoded headers)
  unfolding post_call request
  post_job-Only url headers e f = rw (e, f) (Only-call bridge _ refl)

  abbrev keygen_params : SubmitParams
  keygen_params = record {
    path = "/api/" <> req.coin <> "/key/independent";
    body = req.decoded;
    sources = user ∷ backup ∷ [];
    operation_type = multisig_keygen;
    idempotency_key = none;
  }

  keygen_headers :
      submit_headers keygen_params
      ≡ (("X-OSO-Source", str "user,backup") ⨾ ("X-OSO-Operation", str "multisig_keygen") ⨾ end)
  unfolding submit_headers operation_text spread set
  keygen_headers = refl

  submit-Only : Posts (submit w bridge keygen_params)
  unfolding submit
  submit-Only =
      rw (slash (req.coin <> "/key/independent"))
        (Only-bind _ _ (post_job-Only _ _ refl keygen_headers) λ r. search only_rules depth 9)

  abbrev IsJob : Option String → Type 0
  IsJob job = (id : String) × (job ≡ some id)

  abbrev submitted : Exec (Option String)
  submitted = submit w bridge keygen_params >>= λ id. pure (some id)

  submitted-IsJob : Yields IsJob submitted
  submitted-IsJob = Yields-bind _ _ λ id. gives _ (id, refl)

  pending-Only : (job : Option String) → IsJob job → Posts (pending_or_now w req job)
  unfolding pending_or_now
  pending-Only job (id, e) = rw e (returns _)

  bridge_step-Only :
      (async : Bool) (client : Option HttpClient)
      → async ≡ true
      → client ≡ some bridge
      → Posts (submit_job_via_bridge_client w async client keygen_params >>= pending_or_now w req)
  unfolding submit_job_via_bridge_client
  bridge_step-Only async client e f =
      rw (e, f)
        (Only-bind-Yields submitted (pending_or_now w req)
          (Only-bind _ _ submit-Only λ id. returns _) submitted-IsJob pending-Only)

  generate-Only :
      async_enabled req ≡ true
      → req.bridge_client ≡ some bridge
      → Posts (handle_generate_wallet w req)
  unfolding handle_generate_wallet handle_generate_evm_key_ring_wallet submit_keygen_job
  generate-Only async connected =
      elim (Bool-cases (truthy (prop req.decoded "evmKeyRingReferenceWalletId"))) [
        | inl evm ↦ rw (evm, async) (returns _)
        | inr plain ↦ elim (Bool-cases (is_text (prop req.decoded "multisigType") "tss")) [
          | inl tss ↦ rw (plain, tss, async) (returns _)
          | inr onchain ↦
              rw (plain, onchain)
                (bridge_step-Only (async_enabled req) req.bridge_client async connected)
        ]
      ]

-- In async mode, whatever the services answer, generating a wallet of any kind makes no key and no
-- wallet itself: each call is the one POST of a key generation job for the user's and the backup's
-- key to the bridge, with the request as its body.
pub async_generate_wallet_calls :
    (w : World) (req : MasterRequest) (bridge : HttpClient)
    → async_enabled req ≡ true
    → req.bridge_client ≡ some bridge
    → All (λ c. c ≡ keygen_job_call bridge req) (run w (handle_generate_wallet w req) []).1
async_generate_wallet_calls w req bridge async connected =
    All-run w (handle_generate_wallet w req) [] (generate-Only w req bridge async connected) tt

-- `POST /api/{coin}/key/independent` of a wallet manager, for the key of a source.
abbrev pub AsksForKey : AwmClient → String → Call → Type 0
AsksForKey client source (http r) =
    (coin : String) × (r.url ≡ client.base_url <> "/api/" <> coin <> "/key/independent")
    × (prop r.body "source" ≡ str source)
AsksForKey client source (sdk object method args) = ⊥

post-Only :
    (client : AwmClient) (coin source : String)
    → Only (AsksForKey client source) (
        post_expecting_200 client coin "/key/independent"
          (("source", str source) ⨾ ("seed", undefined) ⨾ end))
unfolding post_expecting_200 get
post-Only client coin source = Only-bind (lift (agent_of client)) _ (returns _) λ agent.
    asks _ _ (coin, refl, refl)
      λ r. Only-bind (lift r) _ (returns r) λ response. search only_rules depth 9

with_coin-Only :
    (client : AwmClient) (source : String) (coin : Option String)
    → Only (AsksForKey client source) (
        with_coin coin "to create an independent keychain" λ name.
          post_expecting_200 client name "/key/independent"
            (("source", str source) ⨾ ("seed", undefined) ⨾ end))
unfolding with_coin
with_coin-Only client source none = returns _
with_coin-Only client source (some coin) = search (only_rules, post-Only)

keychain-Only :
    (client : AwmClient) (source : String)
    → Only (AsksForKey client source) (create_independent_keychain client (str source) undefined)
unfolding create_independent_keychain
keychain-Only client source = with_coin-Only client source client.coin

-- The call asks the user's manager for the user's key where that is wanted, or the backup's manager
-- for the backup's key where that is wanted.
abbrev pub AsksOwnManager : AwmClient → AwmClient → String → Call → Type 0
AsksOwnManager user_client backup_client source c =
    ((source ≡ "user") × AsksForKey user_client "user" c)
    ⊎ ((source ≡ "backup") × AsksForKey backup_client "backup" c)

Only-map :
    {P Q : Call → Type 0} {A : Type 0} (m : Exec A) → ((c : Call) → P c → Q c) → Only P m → Only Q m
Only-map (done r) f (returns _) = returns r
Only-map (ask c k) f (asks _ _ p o) = asks c _ (f c p) λ r. Only-map (k r) f (o r)

second_of : {a b : Bool} → a ≡ false → a || b ≡ true → b ≡ true
second_of {a = false} off either = either
second_of {a = true} off either = absurd cc

module _ (user_client backup_client : AwmClient) where
  user-Only :
      (source : String)
      → source ≡ "user"
      → Only
          (AsksOwnManager user_client backup_client source)
          (create_independent_keychain user_client (str source) undefined)
  user-Only source e = Only-map _ (λ c p. inl (e, rw e at p)) (keychain-Only user_client source)

  backup-Only :
      (source : String)
      → source ≡ "backup"
      → Only
          (AsksOwnManager user_client backup_client source)
          (create_independent_keychain backup_client (str source) undefined)
  backup-Only source e = Only-map _ (λ c p. inr (e, rw e at p)) (keychain-Only backup_client source)

  chosen-Only :
      (source : String)
      → str_eq source "user" || str_eq source "backup" ≡ true
      → Only (AsksOwnManager user_client backup_client source) (
          create_independent_keychain
            (if str_eq source "user" then user_client else backup_client)
            (str source)
            undefined)
  chosen-Only source known = elim (Bool-cases (str_eq source "user")) [
    | inl own ↦ rw own (user-Only source ((eq_iff source "user").0 own))
    | inr other ↦ rw other (backup-Only source ((eq_iff source "backup").0 (second_of other known)))
  ]

  callback-Only :
      (source : String)
      → Only
          (AsksOwnManager user_client backup_client source)
          (onchain_key_gen_callback user_client backup_client source)
  unfolding onchain_key_gen_callback
  callback-Only source =
      Only-if (str_eq source "user" || str_eq source "backup") _ _
        (λ known. Only-bind _ _ (chosen-Only source known) λ keychain. returns _)
        λ unknown. returns _

-- The keys of a multisig wallet are made where they belong: for the user's key only the user's
-- manager is called, for the backup's only the backup's, each with its own source; for any other
-- source nothing is called.
pub onchain_key_calls :
    (w : World) (user_client backup_client : AwmClient) (source : String)
    → All
        (AsksOwnManager user_client backup_client source)
        (run w (onchain_key_gen_callback user_client backup_client source) []).1
onchain_key_calls w user_client backup_client source =
    All-run w _ [] (callback-Only user_client backup_client source) tt
