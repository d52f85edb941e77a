-- ===== src/Mbe/Unspents/Async.antt =====
-- Acceleration and consolidation of unspents in async mode.
use advanced_wallets.Base.{String, ◌≡◌, refl, Bool, true, false, Option, none, some, []}
use advanced_wallets.Js.{Value, Fields}
use advanced_wallets.Exec.{World, Exec, run, ◌>>=◌}
use advanced_wallets.Exec.Only.{returns, All, All-run, Only-bind, only_rules}
use advanced_wallets.Shared.Types.{KeySource}
use advanced_wallets.Shared.HttpClient.{HttpClient}
use advanced_wallets.Mbe.Submit.{WpSubmitKind, SignJobContext, submit_multisig_sign_job}
use advanced_wallets.Mbe.Submit.Posting.{OnlySubmitsJob, Safe, submit_job-Only, pubs-Only}
use advanced_wallets.Mbe.Wallets.{WalletKeychain, get_wallet_and_signing_keychain, check_keychain}
use advanced_wallets.Mbe.SendMany.{MasterRequest, async_enabled}
use advanced_wallets.Mbe.Unspents.{
  require_verified, or_throw, submit_verified, handle_accelerate_async, handle_accelerate,
  handle_consolidate_unspents_async, handle_consolidate_unspents,
}

module _ (w : World) (bridge : HttpClient) (coin : String) where
  found-Only :
      (name wallet_id : String) (params : Value)
      → Safe w bridge coin (get_wallet_and_signing_keychain w name wallet_id params)
  unfolding get_wallet_and_signing_keychain check_keychain
  found-Only name wallet_id params = search only_rules depth 14

  or_throw-Only :
      (message : String) (job : Option String) → Safe w bridge coin (or_throw message job)
  unfolding or_throw
  or_throw-Only message none = returns _
  or_throw-Only message (some id) = returns _

  post_step-Only :
      (source : KeySource) (body : Fields) (context : SignJobContext) (async : Bool)
      (client : Option HttpClient) (name message : String)
      → async ≡ true
      → client ≡ some bridge
      → name ≡ coin
      → Safe w bridge coin
          (submit_multisig_sign_job w async client name source body context >>= or_throw message)
  post_step-Only source body context async client name message e f g =
      rw (e, f, g)
        (Only-bind _ _ (submit_job-Only w bridge coin source body context) (or_throw-Only message))

module _ (w : World) (req : MasterRequest) (bridge : HttpClient) (async : async_enabled req ≡ true)
    (connected : req.bridge_client ≡ some bridge) where
  verified-Only :
      (kind : WpSubmitKind) (message : String) (found : WalletKeychain) (pubs : Value)
      (params : Fields) (tx : Value)
      → Safe w bridge req.coin (submit_verified w req kind message found pubs params tx)
  unfolding submit_verified require_verified
  verified-Only kind message found pubs params tx =
      let rest = λ (source : KeySource) (body : Fields) (context : SignJobContext).
        post_step-Only w bridge req.coin source body context (async_enabled req) req.bridge_client
          req.coin message async connected refl in
      search (only_rules, rest) depth 14

  -- The branch without async mode is not taken.
  not_sync : {A : Type 0} (m : Exec A) → async_enabled req ≡ false → Safe w bridge req.coin m
  not_sync m off = absurd cc

  ruleset async_rules = (only_rules, found-Only, pubs-Only, verified-Only, not_sync)

  accelerate-Only : Safe w bridge req.coin (handle_accelerate w req)
  unfolding handle_accelerate handle_accelerate_async
  accelerate-Only = search async_rules depth 14

  consolidate-Only : Safe w bridge req.coin (handle_consolidate_unspents w req)
  unfolding handle_consolidate_unspents handle_consolidate_unspents_async
  consolidate-Only = search async_rules depth 14

-- In async mode, accelerating a transaction and consolidating unspents make no request to a wallet
-- manager and neither sign nor send anything, whatever the services answer: each call is the POST of
-- the sign job to the bridge, or a method of the SDK that does neither; `consolidateUnspents` is
-- called with `BUILD_ONLY`.
pub async_unspents_calls :
    (w : World) (req : MasterRequest) (bridge : HttpClient)
    → async_enabled req ≡ true
    → req.bridge_client ≡ some bridge
    → All (OnlySubmitsJob bridge req.coin) (run w (handle_accelerate w req) []).1
      × All (OnlySubmitsJob bridge req.coin) (run w (handle_consolidate_unspents w req) []).1
async_unspents_calls w req bridge async connected = (
  All-run w (handle_accelerate w req) [] (accelerate-Only w req bridge async connected) tt,
  All-run w (handle_consolidate_unspents w req) [] (consolidate-Only w req bridge async connected)
      tt,
)
