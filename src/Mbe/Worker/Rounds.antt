-- ===== src/Mbe/Worker/Rounds.antt =====
-- A round of the worker: how far each of its jobs comes, and that all of them settle.
use mathlib.Core.Option
use advanced_wallets.Base.{
  String, ℕ, zero, suc, ◌+◌, ◌≤◌, ◌≡◌, refl, ap, ◌∙◌, some, List, [], ◌∷◌, map, length, get_elem?,
  arith,
}
use advanced_wallets.Js.{Value}
use advanced_wallets.Exec.{Call, Result, ok, err, World, Coin, Exec, done, perform, catch, ◌>>=◌}
use advanced_wallets.Exec.Pool.{feed, interleave, interleave-feed, answers_to}
use advanced_wallets.Exec.Settles.{Within, feed-done, Within-bind, Within-catch, Within-more}
use advanced_wallets.Shared.HttpClient.{HttpClient, call, patch_call}
use advanced_wallets.Mbe.Bridge.{
  BridgeJob, OperationType, multisig_sign, multisig_keygen, multisig_recovery, mpc_sign, mpc_keygen,
  JobUpdate, update_job,
}
use advanced_wallets.Mbe.Submit.{
  WpSubmitKind, send_many, accelerate, consolidate_unspents, wp_submit,
}
use advanced_wallets.Mbe.Worker.{
  handle_key_generation_operation, handle_multisig_sign_operation,
  handle_multisig_recovery_operation, handler_of, report_failure, try_handler, process_job, started,
}

get_elem?-map :
    {A : Type 0} {B : Type 0} (f : A → B) (xs : List A) (i : ℕ) {x : A}
    → get_elem? xs i ≡ some x
    → get_elem? (map f xs) i ≡ some (f x)
get_elem?-map f [] i h = ap (Option.map f) h
get_elem?-map f (x ∷ xs) zero h = ap (Option.map f) h
get_elem?-map f (x ∷ xs) (suc i) h = get_elem?-map f xs i h

-- However the answers to the jobs of a round are interleaved, each job has come exactly as far as
-- the answers to its own calls take it by itself.
job_isolation :
    (w : World) (bridge : HttpClient) (jobs : List BridgeJob) (schedule : List (ℕ × Result Value))
    (i : ℕ) (job : BridgeJob)
    → get_elem? jobs i ≡ some job
    → get_elem? (interleave (started w bridge jobs) schedule) i
      ≡ some (feed (process_job w bridge job) (answers_to i schedule))
unfolding started
job_isolation w bridge jobs schedule i job found =
    rw
      (
        interleave-feed (map (process_job w bridge) jobs) schedule i,
        get_elem?-map (process_job w bridge) jobs i found,
      )
      refl

Within-perform : (n : ℕ) (c : Call) → Within (suc n) (perform c)
Within-perform n c = Within.asks n c done λ r. Within.returns n r

module _ {B : Type 0} where
  Within-lift :
      {A : Type 0} (n : ℕ) (r : Result A) (f : A → Exec B)
      → ((a : A) → Within n (f a))
      → Within n (done r >>= f)
  Within-lift n (ok a) f h = h a
  Within-lift n (err e) f h = Within.returns n _

  Within-call :
      (n : ℕ) (c : Call) (f : Value → Exec B)
      → ((v : Value) → Within n (f v))
      → Within (suc n) (perform c >>= f)
  Within-call n c f h = Within.asks n c _ λ r. Within-lift n r f h

module _ (w : World) (bridge : HttpClient) where
  update_job-Within :
      (job_id : String) (version : ℕ) (update : JobUpdate)
      → Within 1 (update_job w bridge job_id version update)
  unfolding update_job patch_call call
  update_job-Within job_id version update =
      Within-bind 1 0 _ _ (Within-catch 1 0 _ _ (Within-perform 0 _) λ e. Within.returns 0 _)
        λ _. Within.returns 0 _

  wp_submit-Within :
      (kind : WpSubmitKind) (coin : Coin) (wallet signed_tx params : Value)
      → Within 2 (wp_submit w kind coin wallet signed_tx params)
  unfolding wp_submit
  wp_submit-Within send_many coin wallet signed_tx params =
      Within-call 1 _ _ λ _. Within-perform 0 _
  wp_submit-Within accelerate coin wallet signed_tx params =
      Within-call 1 _ _ λ _. Within-perform 0 _
  wp_submit-Within consolidate_unspents coin wallet signed_tx params = Within-perform 1 _

  Within-submit :
      {B : Type 0} (kind : WpSubmitKind) (coin : Coin) (wallet signed_tx params : Value)
      (f : Value → Exec B)
      → ((v : Value) → Within 1 (f v))
      → Within 3 (wp_submit w kind coin wallet signed_tx params >>= f)
  Within-submit kind coin wallet signed_tx params f h =
      Within-bind 2 1 _ f (wp_submit-Within kind coin wallet signed_tx params) h

  ruleset within_rules = (Within-lift, Within-call, Within-submit, update_job-Within)

  keygen-Within : (job : BridgeJob) → Within 2 (handle_key_generation_operation w bridge job)
  unfolding handle_key_generation_operation
  keygen-Within job = search within_rules depth 12

  sign-Within : (job : BridgeJob) → Within 4 (handle_multisig_sign_operation w bridge job)
  unfolding handle_multisig_sign_operation
  sign-Within job = search within_rules depth 12

  recovery-Within : (job : BridgeJob) → Within 1 (handle_multisig_recovery_operation w bridge job)
  unfolding handle_multisig_recovery_operation
  recovery-Within job = search within_rules depth 12

  tried-Within :
      (n : ℕ) (m : Exec (Unit {0})) (job : BridgeJob)
      → n ≤ 4
      → Within n m
      → Within 5 (catch m (report_failure w bridge job))
  unfolding report_failure
  tried-Within n m job le h =
      Within-more (n + 1) 5 _ (omega arith)
        (Within-catch n 1 m _ h λ e. update_job-Within job.job_id job.version _)

  by_operation :
      (operation : OperationType) (job : BridgeJob)
      → Within 5 (try_handler w bridge (handler_of w bridge operation) job)
  unfolding try_handler handler_of
  by_operation multisig_keygen job = tried-Within 2 _ job (omega arith) (keygen-Within job)
  by_operation multisig_sign job = tried-Within 4 _ job (omega arith) (sign-Within job)
  by_operation multisig_recovery job = tried-Within 1 _ job (omega arith) (recovery-Within job)
  by_operation mpc_sign job = Within.returns 5 _
  by_operation mpc_keygen job = Within.returns 5 _

  process_job-Within : (job : BridgeJob) → Within 5 (process_job w bridge job)
  unfolding process_job
  process_job-Within job = by_operation job.operation_type job

-- Each job of a round has settled once five of its own calls have been answered, whatever the
-- answers are and however few answers the other jobs have had.
pub job_settles :
    (w : World) (bridge : HttpClient) (jobs : List BridgeJob) (schedule : List (ℕ × Result Value))
    (i : ℕ) (job : BridgeJob)
    → get_elem? jobs i ≡ some job
    → 5 ≤ length (answers_to i schedule)
    → (r : Result (Unit {0})) × (get_elem? (interleave (started w bridge jobs) schedule) i
        ≡ some (done r))
job_settles w bridge jobs schedule i job found enough =
    let (r, settled) =
      feed-done 5 (process_job w bridge job) (answers_to i schedule)
        (process_job-Within w bridge job) enough in
    (r, job_isolation w bridge jobs schedule i job found ∙ ap some settled)
