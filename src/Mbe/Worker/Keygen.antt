-- ===== src/Mbe/Worker/Keygen.antt =====
-- A key that a wallet manager makes with the SDK, as the worker receives it through the bridge.
use advanced_wallets.Base.{List, ◌≡◌, refl, ap, ◌∙◌, false, [], ◌∷◌, arith}
use advanced_wallets.Js.{Value, num, str, obj, end, ◌⨾◌, get, truthy}
use advanced_wallets.Exec.{Exn, exn_prop, catch, Call, ok, err, World, Coin, plain_error, run}
use advanced_wallets.Awm.IndependentKey.Local.{NoId, local_key-NoId}
use advanced_wallets.Shared.Types.{AdvancedWalletManagerConfig}
use advanced_wallets.Shared.HttpClient.{HttpClient, patch_call, call, request}
use advanced_wallets.Shared.CoinFactory.{get_coin}
use advanced_wallets.Awm.KeyProvider.{new_key_provider}
use advanced_wallets.Awm.Utils.{is_external_signing_enabled_for_coin}
use advanced_wallets.Awm.IndependentKey.{KeyRequest, post_independent_key}
use advanced_wallets.Mbe.Bridge.{
  BridgeJob, multisig_keygen, awm_response_schema, failing, update_job,
}
use advanced_wallets.Mbe.Worker.{
  independent_keychain_response_schema, parse_awm_response_body, parse_keychain,
  handle_key_generation_operation, handler_of, try_handler, report_failure, process_job,
}
use advanced_wallets.Mbe.Worker.Reports.{report}

-- The envelope in which the bridge stores the manager's answer.
abbrev pub answered : Value → Value
answered key = obj (("status", num 200) ⨾ ("body", key) ⨾ end)

refused : (key : Value) → NoId key → independent_keychain_response_schema key ≡ false
unfolding independent_keychain_response_schema
refused key (shape, no_id) = rw (shape, no_id) refl

module _ (w : World) (bridge : HttpClient) (job : BridgeJob) (key : Value) where
  keychain_refused :
      NoId key
      → job.awm_response ≡ answered key
      → parse_keychain w bridge job.awm_response "awmResponse"
        ≡ err (plain_error (w.zod_message "IndependentKeychainResponse" key))
  unfolding parse_keychain parse_awm_response_body awm_response_schema get truthy
  keychain_refused no_id e = rw (e, no_id.0, refused key no_id) refl

  failure_calls :
      (e : Exn) (t : List Call)
      → (run w (report_failure w bridge job e) t).1
        ≡ report bridge job (failing (exn_prop e "message")) ∷ t
  unfolding report_failure update_job patch_call call request run report
  failure_calls e t = ground arith

  refused_calls :
      (e : Exn) (t : List Call)
      → parse_keychain w bridge job.awm_response "awmResponse" ≡ err e
      → (run w
          (catch (handle_key_generation_operation w bridge job) (report_failure w bridge job))
          t).1
        ≡ report bridge job (failing (exn_prop e "message")) ∷ t
  unfolding handle_key_generation_operation
  refused_calls e t h = rw h (failure_calls e t)

-- A key that the user's manager makes with the SDK (no external signing for the coin) cannot be
-- used by a key generation job: once the bridge has stored the manager's answer under
-- `awmResponse`, with status 200, the worker makes no wallet, and the one call that it makes is the
-- report of a failure.
pub local_key_fails_job :
    (awm : World) (cfg : AdvancedWalletManagerConfig) (req : KeyRequest) (client : HttpClient)
    (coin : Coin) (t : List Call) (key : Value) (mbe : World) (bridge : HttpClient)
    (job : BridgeJob)
    → new_key_provider awm cfg ≡ ok client
    → get_coin awm req.coin ≡ ok coin
    → is_external_signing_enabled_for_coin cfg coin ≡ false
    → (run awm (post_independent_key awm cfg req) t).0 ≡ ok key
    → job.operation_type ≡ multisig_keygen
    → job.awm_response ≡ answered key
    → (run mbe (process_job mbe bridge job) []).1
      ≡ report bridge job (failing (str (mbe.zod_message "IndependentKeychainResponse" key))) ∷ []
unfolding process_job handler_of try_handler get
local_key_fails_job awm cfg req client coin t key mbe bridge job made found local h keygen stored =
    let no_id = local_key-NoId awm cfg req client coin t key made found local h in
    ap (λ op. (run mbe (try_handler mbe bridge (handler_of mbe bridge op) job) []).1) keygen
    ∙ refused_calls mbe bridge job key _ [] (keychain_refused mbe bridge job key no_id stored)
