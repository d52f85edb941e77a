-- ===== src/Mbe/Poll.antt =====
-- src/masterBitgoExpress/handlers/handleGetJob.ts: a client asks for the state of a job.
pub mod Outcome
use advanced_wallets.Base.{
  String, Bool, true, false, not, ◌&&◌, ◌||◌, Option, none, some, if◌then◌else◌,
}
use advanced_wallets.Js.{Value, str, obj, Fields, end, ◌⨾◌, truthy, is_nil, spread}
use advanced_wallets.Exec.{Exn, World, Exec, pure, throw, ◌>>=◌}
use advanced_wallets.Shared.Errors.{bad_request_error}
use advanced_wallets.Shared.HttpClient.{HttpClient}
use advanced_wallets.Mbe.Bridge.{
  BridgeJob, JobStatus, awaiting_oso, awaiting_bitgo, complete, failed, expired, get_job,
}

-- `BRIDGE_TO_MBE_STATUS`
unfoldable pub poll_status : JobStatus → String
poll_status awaiting_oso = "awaiting_client"
poll_status awaiting_bitgo = "awaiting_bitgo"
poll_status complete = "complete"
poll_status failed = "failed"
poll_status expired = "failed"

abbrev is_complete : JobStatus → Bool
is_complete complete = true
is_complete _ = false

abbrev is_failed : JobStatus → Bool
is_failed failed = true
is_failed _ = false

abbrev is_expired : JobStatus → Bool
is_expired expired = true
is_expired _ = false

-- `...(test && { key: value })`
abbrev entry_if : Bool → String → Value → Fields
entry_if test key value = if test then (key, value) ⨾ end else end

unfoldable pub to_poll_response : BridgeJob → Fields
unfolding poll_status
to_poll_response job =
    let base = ("jobId", str job.job_id) ⨾ ("status", str (poll_status job.status)) ⨾ end in
    let with_result =
      spread base (entry_if (is_complete job.status && truthy job.result) "result" job.result) in
    let with_error =
      spread with_result (entry_if (is_failed job.status && truthy job.error) "error" job.error) in
    let with_expiry =
      spread with_error (entry_if (is_expired job.status) "error" (str "Job expired")) in
    let with_round =
      spread with_expiry (entry_if (not (is_nil job.current_round)) "round" job.current_round) in
    spread with_round (entry_if (not (is_nil job.total_rounds)) "totalRounds" job.total_rounds)

unfoldable pub handle_get_job : World → Bool → Option HttpClient → String → Exec Value
handle_get_job w true (some bridge) job_id = do
  job ← get_job w bridge job_id
  pure (obj (to_poll_response job))
handle_get_job w _ _ job_id = throw (bad_request_error "Job polling requires async mode")
