-- ===== src/Mbe/Submit/Posting.antt =====
-- What the handlers of the master application call in async mode.
use package.text.Mathlib.TextLemmas.{append_assoc}
use package.text.Mathlib.TextPositions.{starts_with-append}
use advanced_wallets.Base.{
  String, ◌≡◌, refl, Bool, true, false, not, ◌&&◌, ◌||◌, Option, some, [], ◌∷◌, includes, str_eq,
  ◌<>◌, starts_with,
}
use advanced_wallets.Js.{Value, is_text, arr, nil, cons, Fields}
use advanced_wallets.Exec.{Call, http, sdk, World, Coin, Exec}
use advanced_wallets.Exec.Only.{Only, asks, only_rules}
use advanced_wallets.Shared.Types.{KeySource}
use advanced_wallets.Shared.HttpClient.{HttpClient, request, post_call}
use advanced_wallets.Awm.KeyProvider.Calls.{Only-call}
use advanced_wallets.Exec.Yields.{Yields, gives, Yields-bind}
use advanced_wallets.Mbe.Bridge.{submit}
use advanced_wallets.Mbe.Submit.{
  SignJobContext, submit_multisig_sign_job, submit_job_via_bridge_client,
}
use advanced_wallets.Mbe.Wallets.{get_wallet_pubs}

-- The arguments are parameters and the option `BUILD_ONLY`.
abbrev build_only : Value → Bool
build_only (arr (cons params (cons option nil))) = is_text option "BUILD_ONLY"
build_only _ = false

-- The methods of the SDK that sign or send a transaction, `consolidateUnspents` without the option
-- `BUILD_ONLY` among them.
abbrev pub is_sending : String → Value → Bool
is_sending method args =
    includes ("wallet.submitTransaction" ∷ "wallet.sendMany" ∷ "wallet.accelerateTransaction" ∷ [])
      method
    || (str_eq method "wallet.consolidateUnspents" && not (build_only args))

-- A call in async mode: the job is posted to the bridge, or the SDK does something else than sign or
-- send. A request to a wallet manager is neither.
abbrev pub OnlySubmitsJob : HttpClient → String → Call → Type 0
OnlySubmitsJob bridge coin (http r) =
    (r.method ≡ "post") × (r.url ≡ bridge.url <> ("/api/" <> coin <> "/multisig/sign"))
OnlySubmitsJob bridge coin (sdk object method args) = is_sending method args ≡ false

pub slash : (s : String) → starts_with ("/api/" <> s) "/" ≡ true
slash s =
    let e : ("/" <> "api/") <> s ≡ "/" <> ("api/" <> s) = append_assoc "/" "api/" s in
    rw e (starts_with-append "/" ("api/" <> s))

module _ (w : World) (bridge : HttpClient) (coin : String) where
  abbrev pub Safe : {A : Type 0} → Exec A → Type 0
  Safe m = Only (OnlySubmitsJob bridge coin) m

  abbrev job_url : String
  job_url = bridge.url <> ("/api/" <> coin <> "/multisig/sign")

  post-Only :
      (url : String) (body : Value) (headers : Fields)
      → url ≡ job_url
      → Safe (post_call bridge url body headers)
  unfolding post_call request
  post-Only url body headers e = Only-call bridge _ (refl, e)

  pub submit_job-Only :
      (source : KeySource) (body : Fields) (context : SignJobContext)
      → Safe (submit_multisig_sign_job w true (some bridge) coin source body context)
  unfolding submit_multisig_sign_job submit_job_via_bridge_client submit
  submit_job-Only source body context =
      rw (slash (coin <> "/multisig/sign")) (search (only_rules, post-Only) depth 12)

  pub submit_job-Yields :
      (source : KeySource) (body : Fields) (context : SignJobContext)
      → Yields
          (λ (o : Option String). (id : String) × (o ≡ some id))
          (submit_multisig_sign_job w true (some bridge) coin source body context)
  unfolding submit_multisig_sign_job submit_job_via_bridge_client
  submit_job-Yields source body context = Yields-bind _ _ λ id. gives _ (id, refl)

  pub pubs-Only : (c : Coin) (wallet : Value) → Safe (get_wallet_pubs c wallet)
  unfolding get_wallet_pubs
  pubs-Only c wallet =
      asks _ _ refl λ u. asks _ _ refl λ b. asks _ _ refl λ g. search only_rules depth 9
