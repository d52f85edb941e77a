-- ===== src/Mbe/Submit/RoundTrip.antt =====
-- What the handlers put into a sign job is what the worker reads out of it.
use advanced_wallets.Base.{String, Bool, ◌≡◌, refl, some, true, false, List, [], ◌∷◌, ◌<>◌}
use advanced_wallets.Js.{Value, str, obj, Fields, spread, truthy}
use advanced_wallets.Js.Laws.{get-set}
use advanced_wallets.Exec.{
  Exn, Request, Call, http, sdk, World, Result, ok, err, run, throw, throw_if, catch, lift, pure,
  ◌>>=◌, ◌>>◌,
}
use advanced_wallets.Shared.Types.{KeySource}
use advanced_wallets.Shared.HttpClient.{HttpClient, request, call, post_call, error_handler}
use advanced_wallets.Mbe.Bridge.{submit}
use advanced_wallets.Mbe.Submit.Posting.{slash}
use advanced_wallets.Mbe.Submit.{
  WpSubmitKind, send_many, accelerate, consolidate_unspents, SignJobContext, parse_kind, kind_text,
  context_fields, parse_multisig_sign_job_context, submit_multisig_sign_job,
  submit_job_via_bridge_client,
}

parse_kind-kind_text : (kind : WpSubmitKind) → parse_kind (str (kind_text kind)) ≡ some kind
unfolding parse_kind kind_text
parse_kind-kind_text send_many = refl
parse_kind-kind_text accelerate = refl
parse_kind-kind_text consolidate_unspents = refl

read_back :
    (wallet_id : String) (kind : WpSubmitKind) (params sign_body : Fields)
    → let context : SignJobContext = record {
      wallet_id = wallet_id;
      wp_submit_kind = kind;
      wp_submit_params = obj params;
    } in
      parse_multisig_sign_job_context (obj (spread sign_body (context_fields context))) ≡ ok context
unfolding parse_multisig_sign_job_context context_fields spread truthy
read_back wallet_id kind params sign_body = simp (get-set, parse_kind-kind_text kind)

-- The POST of a sign job to the bridge, with a body in which the worker reads the context.
abbrev pub PostsContext : HttpClient → String → SignJobContext → Call → Type 0
PostsContext bridge coin context (http r) =
    (r.method ≡ "post")
    × (r.url ≡ bridge.url <> ("/api/" <> coin <> "/multisig/sign"))
    × (parse_multisig_sign_job_context r.body ≡ ok context)
PostsContext bridge coin context (sdk object method args) = ⊥

-- Exactly one call was made, and `P` holds of it.
abbrev pub Once : (Call → Type 0) → List Call → Type 0
Once P [] = ⊥
Once P (c ∷ []) = P c
Once P (c ∷ d ∷ t) = ⊥

module _ (w : World) (bridge : HttpClient) (coin : String) (context : SignJobContext) where
  -- What follows the answer calls nothing.
  ended :
      (refused : Bool) (e : Exn) (id : String) (t : List Call)
      → (run w (throw_if refused e >> pure id >>= λ (s : String). pure (some s)) t).1 ≡ t
  unfolding run
  ended true e id t = refl
  ended false e id t = refl

  post-Once :
      (r : Request) (refused : Value → Bool) (e : Value → Exn) (id : Value → String)
      → PostsContext bridge coin context (http r)
      → Once
          (PostsContext bridge coin context)
          (run w
            (call bridge r >>= (λ v. throw_if (refused v) (e v) >> pure (id v)) >>= λ (s : String).
              pure (some s))
            []).1
  unfolding call run
  post-Once r refused e id posts = answered (w.reply [] (http r))
    where
      answered :
          (reply : Result Value)
          → Once
              (PostsContext bridge coin context)
              (run w
                (catch (lift reply) (λ x. throw (error_handler bridge.class_name x))
                  >>= (λ v. throw_if (refused v) (e v) >> pure (id v))
                  >>= λ (s : String). pure (some s))
                (http r ∷ [])).1
      answered (ok v) = rw (ended (refused v) (e v) (id v) (http r ∷ [])) posts
      answered (err x) = posts

  job-Once :
      (source : KeySource) (sign_body : Fields)
      → parse_multisig_sign_job_context (obj (spread sign_body (context_fields context)))
        ≡ ok context
      → Once
          (PostsContext bridge coin context)
          (run w (submit_multisig_sign_job w true (some bridge) coin source sign_body context) []).1
  unfolding submit_multisig_sign_job submit_job_via_bridge_client submit post_call request
  job-Once source sign_body reads =
      rw (slash (coin <> "/multisig/sign")) (post-Once _ _ _ _ (refl, refl, reads))

-- Whatever the signing request of a sign job holds, and whatever the bridge answers: submitting the
-- job is exactly one call, its POST to the bridge, and the worker reads the wallet, the kind and the
-- parameters back from that request's body as the handler gave them.
pub sign_job_context_round_trip :
    (w : World) (bridge : HttpClient) (coin wallet_id : String) (kind : WpSubmitKind)
    (params sign_body : Fields) (source : KeySource)
    → let context : SignJobContext = record {
      wallet_id = wallet_id;
      wp_submit_kind = kind;
      wp_submit_params = obj params;
    } in
      Once
        (PostsContext bridge coin context)
        (run w (submit_multisig_sign_job w true (some bridge) coin source sign_body context) []).1
sign_job_context_round_trip w bridge coin wallet_id kind params sign_body source =
    job-Once w bridge coin _ source sign_body (read_back wallet_id kind params sign_body)
