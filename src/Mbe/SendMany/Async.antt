-- ===== src/Mbe/SendMany/Async.antt =====
-- sendMany in async mode: nothing is signed and nothing is submitted to the wallet platform.
use advanced_wallets.Base.{
  String, ◌≡◌, refl, Bool, true, Bool-cases, inl, inr, ◌&&◌, Option, some, [], if◌then◌else◌,
}
use advanced_wallets.Js.{Value, Fields, prop}
use advanced_wallets.Exec.{World, Coin, lift, throw_if, run, ◌>>=◌}
use advanced_wallets.Exec.Only.{Only, returns, asks, All, All-run, Only-bind, only_rules}
use advanced_wallets.Shared.Types.{KeySource}
use advanced_wallets.Shared.Errors.{bad_request_error}
use advanced_wallets.Shared.HttpClient.{HttpClient}
use advanced_wallets.Exec.Yields.{Only-bind-Yields}
use advanced_wallets.Mbe.Submit.{SignJobContext, build_multisig_sign_body, submit_multisig_sign_job}
use advanced_wallets.Mbe.Submit.Posting.{
  OnlySubmitsJob, Safe, submit_job-Only, submit_job-Yields, pubs-Only,
}
use advanced_wallets.Mbe.Wallets.{is_tss}
use advanced_wallets.Mbe.SendMany.{
  MasterRequest, async_enabled, verify_prebuild, sign_or_submit_job, send_many_multisig,
  send_many_tss, check_multisig_keychain, check_tss_keychain, handle_send_many,
}

module _ (w : World) (bridge : HttpClient) (coin : String) where
  verify-Only :
      (c : Coin) (params : Fields) (tx wallet : Value)
      → Safe w bridge coin (verify_prebuild c params tx wallet)
  unfolding verify_prebuild
  verify-Only c params tx wallet = search only_rules depth 9

  returns_job-Only :
      (req : MasterRequest) (c : Coin) (wallet : Value) (params body : Fields) (job : Option String)
      → (id : String) × (job ≡ some id)
      → Safe w bridge coin (sign_or_submit_job w req c wallet params body job)
  unfolding sign_or_submit_job
  returns_job-Only req c wallet params body job (id, e) = rw e (returns _)

  submit_step-Only :
      (req : MasterRequest) (c : Coin) (wallet : Value) (params body : Fields) (source : KeySource)
      (context : SignJobContext) (async : Bool) (client : Option HttpClient) (name : String)
      → async ≡ true
      → client ≡ some bridge
      → name ≡ coin
      → Safe w bridge coin (
          submit_multisig_sign_job w async client name source body context >>= λ job.
          sign_or_submit_job w req c wallet params body job)
  submit_step-Only req c wallet params body source context async client name e f g =
      rw (e, f, g)
        (Only-bind-Yields _ _ (submit_job-Only w bridge coin source body context)
          (submit_job-Yields w bridge coin source body context)
          (returns_job-Only req c wallet params body))

  multisig-Only :
      (req : MasterRequest) (c : Coin) (wallet keychain : Value)
      → req.coin ≡ coin
      → async_enabled req ≡ true
      → req.bridge_client ≡ some bridge
      → Safe w bridge coin (send_many_multisig w req c wallet keychain)
  unfolding send_many_multisig
  multisig-Only req c wallet keychain named async connected = asks _ _ refl λ r.
      Only-bind (lift r) _ (returns r) λ tx. Only-bind _ _ (verify-Only c _ tx wallet) λ _.
        Only-bind _ _ (pubs-Only w bridge coin c wallet) λ pubs.
          Only-bind (lift (build_multisig_sign_body _ (prop keychain "pub") tx pubs)) _ (returns _)
            λ body.
              submit_step-Only req c wallet _ body _ _ (async_enabled req) req.bridge_client
                req.coin async connected named

  -- Past the test, TSS wallets are out.
  by_kind-Only :
      (req : MasterRequest) (c : Coin) (wallet keychain : Value)
      → req.coin ≡ coin
      → async_enabled req ≡ true
      → req.bridge_client ≡ some bridge
      → Safe w bridge coin (
          throw_if
            (is_tss wallet && async_enabled req)
            (bad_request_error "Async mode is not yet supported for TSS sendMany")
          >>= λ _.
              ((if is_tss wallet
                  then check_tss_keychain req.decoded keychain
                  else check_multisig_keychain req.decoded keychain)
                >>= λ _.
                    (if is_tss wallet
                      then send_many_tss w req c keychain
                      else send_many_multisig w req c wallet keychain)))
  unfolding check_multisig_keychain
  by_kind-Only req c wallet keychain named async connected = elim (Bool-cases (is_tss wallet)) [
    | inl tss ↦ rw (tss, async) (returns _)
    | inr multisig ↦ rw multisig (
        Only-bind _ _ (search only_rules depth 9)
          λ _. multisig-Only req c wallet keychain named async connected)
  ]

handle-Only :
    (w : World) (req : MasterRequest) (bridge : HttpClient)
    → async_enabled req ≡ true
    → req.bridge_client ≡ some bridge
    → Only (OnlySubmitsJob bridge req.coin) (handle_send_many w req)
unfolding handle_send_many
handle-Only w req bridge async connected =
    let rest = λ (c : Coin) (wallet keychain : Value).
      by_kind-Only w bridge req.coin req c wallet keychain refl async connected in
    search (only_rules, rest) depth 14

-- In async mode, whatever the services answer, sending from a wallet of any kind makes no request
-- to a wallet manager and neither signs nor sends anything: each call is the one POST of the sign
-- job to the bridge, or a method of the SDK that does neither.
pub async_send_many_calls :
    (w : World) (req : MasterRequest) (bridge : HttpClient)
    → async_enabled req ≡ true
    → req.bridge_client ≡ some bridge
    → All (OnlySubmitsJob bridge req.coin) (run w (handle_send_many w req) []).1
async_send_many_calls w req bridge async connected =
    All-run w (handle_send_many w req) [] (handle-Only w req bridge async connected) tt
