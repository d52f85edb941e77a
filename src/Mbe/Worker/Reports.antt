-- ===== src/Mbe/Worker/Reports.antt =====
-- What the worker reports of a job to the bridge.
use advanced_wallets.Base.{◌≡◌, refl, Bool, false, List, [], ◌∷◌, str_eq, ◌<>◌}
use advanced_wallets.Js.{Value, Fields, obj, end}
use advanced_wallets.Exec.{Exn, Call, http, sdk, Result, ok, err, World, Exec, Coin, pure, catch}
use advanced_wallets.Exec.Only.{Only, Only-bind, asks, returns, only_rules}
use advanced_wallets.Exec.Pool.{calls}
use advanced_wallets.Exec.Silent.{select, Silent, goes_on, Silent-bind, select-Silent}
use advanced_wallets.Shared.HttpClient.{HttpClient, request, call, patch_call}
use advanced_wallets.Mbe.Bridge.{
  BridgeJob, OperationType, multisig_sign, multisig_keygen, multisig_recovery, mpc_sign, mpc_keygen,
  JobUpdate, completed, failing, update_body, update_job,
}
use advanced_wallets.Mbe.Submit.{
  WpSubmitKind, send_many, accelerate, consolidate_unspents, submit_transaction, wp_submit,
}
use advanced_wallets.Mbe.Worker.{
  handle_key_generation_operation, handle_multisig_sign_operation,
  handle_multisig_recovery_operation, handler_of, report_failure, try_handler, process_job,
}

-- `PATCH`: the only way in which the worker changes a job.
abbrev pub is_patch : Call → Bool
is_patch (http r) = str_eq r.method "patch"
is_patch (sdk object method args) = false

-- `PATCH /job/{jobId}` with the job's version.
unfoldable pub report : HttpClient → BridgeJob → JobUpdate → Call
unfolding request
report bridge job update = http (
    request bridge "patch" (bridge.url <> "/job/" <> job.job_id) (obj end)
      (update_body job.version update) end)

-- The reports of a job, in order: none, one, or a completion and then a failure.
pub data Reports (bridge : HttpClient) (job : BridgeJob) : List Call → Type 0 where
  silent : Reports bridge job []
  failed_only : (m : Value) → Reports bridge job (report bridge job (failing m) ∷ [])
  completed_only : (v : Value) → Reports bridge job (report bridge job (completed v) ∷ [])
  completed_then_failed :
      (v m : Value)
      → Reports bridge job (report bridge job (completed v) ∷ report bridge job (failing m) ∷ [])

-- The handler goes on by reporting the job's completion.
abbrev Completes : HttpClient → BridgeJob → World → Exec (Unit {0}) → Type 0
Completes bridge job w m =
    (v : Value) × (m ≡ update_job w bridge job.job_id job.version (completed v))

abbrev Quiet : {A : Type 0} → Exec A → Type 0
Quiet m = Only (λ c. is_patch c ≡ false) m

submit-Quiet : (coin : Coin) (params : Fields) → Quiet (submit_transaction coin params)
submit-Quiet coin params = asks _ _ refl returns

wp_submit-Quiet :
    (w : World) (kind : WpSubmitKind) (coin : Coin) (wallet signed_tx params : Value)
    → Quiet (wp_submit w kind coin wallet signed_tx params)
unfolding wp_submit
wp_submit-Quiet w send_many coin wallet signed_tx params =
    Only-bind _ _ (asks _ _ refl returns) λ extra. submit-Quiet coin _
wp_submit-Quiet w accelerate coin wallet signed_tx params =
    Only-bind _ _ (asks _ _ refl returns) λ keys. submit-Quiet coin _
wp_submit-Quiet w consolidate_unspents coin wallet signed_tx params = submit-Quiet coin _

module _ (w : World) (bridge : HttpClient) (job : BridgeJob) where
  abbrev Reported : Exec (Unit {0}) → Type 0
  Reported m = Silent is_patch (Completes bridge job w) m

  completes : (v : Value) → Reported (update_job w bridge job.job_id job.version (completed v))
  completes v = goes_on _ (v, refl)

  ruleset report_rules = (Silent-bind, only_rules, wp_submit-Quiet, completes)

  keygen-Reported : Reported (handle_key_generation_operation w bridge job)
  unfolding handle_key_generation_operation
  keygen-Reported = search report_rules depth 12

  sign-Reported : Reported (handle_multisig_sign_operation w bridge job)
  unfolding handle_multisig_sign_operation
  sign-Reported = search report_rules depth 14

  recovery-Reported : Reported (handle_multisig_recovery_operation w bridge job)
  unfolding handle_multisig_recovery_operation
  recovery-Reported = search report_rules depth 9

  abbrev reports_of : Exec (Unit {0}) → List (Result Value) → List Call
  reports_of m answers = select is_patch (calls m answers)

  failure_reported :
      (e : Exn) (answers : List (Result Value))
      → Reports bridge job (reports_of (report_failure w bridge job e) answers)
  unfolding report_failure update_job patch_call call request select calls report
  failure_reported e [] = silent
  failure_reported e (ok v ∷ []) = failed_only _
  failure_reported e (ok v ∷ _ ∷ _) = failed_only _
  failure_reported e (err x ∷ []) = failed_only _
  failure_reported e (err x ∷ _ ∷ _) = failed_only _

  completion_reported :
      (v : Value) (answers : List (Result Value))
      → Reports bridge job (
          reports_of
            (catch
              (update_job w bridge job.job_id job.version (completed v))
              (report_failure w bridge job))
            answers)
  unfolding report_failure update_job patch_call call request select calls report
  completion_reported v [] = silent
  completion_reported v (ok a ∷ []) = completed_only v
  completion_reported v (ok a ∷ _ ∷ _) = completed_only v
  completion_reported v (err x ∷ []) = completed_only v
  completion_reported v (err x ∷ ok a ∷ []) = completed_then_failed v _
  completion_reported v (err x ∷ ok a ∷ _ ∷ _) = completed_then_failed v _
  completion_reported v (err x ∷ err a ∷ []) = completed_then_failed v _
  completion_reported v (err x ∷ err a ∷ _ ∷ _) = completed_then_failed v _

  handler-Reports :
      (m : Exec (Unit {0})) (answers : List (Result Value))
      → Reported m
      → Reports bridge job (reports_of (catch m (report_failure w bridge job)) answers)
  handler-Reports =
      select-Silent is_patch (Completes bridge job w) (Reports bridge job) silent _
        (λ m answers (v, e). rw e (completion_reported v answers)) failure_reported

  skipped : (answers : List (Result Value)) → Reports bridge job (reports_of (pure tt) answers)
  unfolding select calls report
  skipped [] = silent
  skipped (_ ∷ _) = silent

  by_operation :
      (operation : OperationType) (answers : List (Result Value))
      → Reports bridge job
          (reports_of (try_handler w bridge (handler_of w bridge operation) job) answers)
  unfolding try_handler handler_of
  by_operation multisig_keygen answers = handler-Reports _ answers keygen-Reported
  by_operation multisig_sign answers = handler-Reports _ answers sign-Reported
  by_operation multisig_recovery answers = handler-Reports _ answers recovery-Reported
  by_operation mpc_sign answers = skipped answers
  by_operation mpc_keygen answers = skipped answers

-- However far a job has come, and whatever the services answered, the bridge has been sent no
-- report of it, one failure, one completion, or a completion and then a failure, each as `PATCH` of
-- this job with the version that the worker read. This is about one run of the job: within it the
-- job is not reported complete twice, but a job that is still listed is run again.
pub process_job-Reports :
    (w : World) (bridge : HttpClient) (job : BridgeJob) (answers : List (Result Value))
    → Reports bridge job (select is_patch (calls (process_job w bridge job) answers))
unfolding process_job
process_job-Reports w bridge job answers = by_operation w bridge job job.operation_type answers
