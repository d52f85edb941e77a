-- ===== src/Mbe/Bridge.antt =====
-- src/masterBitgoExpress/clients/bridgeClient.ts and bridgeClient.types.ts: the jobs of the bridge.
pub mod Jobs
use Prim.Native.String as Str
use advanced_wallets.Base.{
  ℕ, String, Bool, true, false, not, ◌&&◌, ◌||◌, Option, none, some, List, [], ◌∷◌, str_eq,
  starts_with, ◌<>◌, if◌then◌else◌,
}
use advanced_wallets.Js.{
  Value, undefined, num, str, arr, obj, Items, nil, cons, Fields, end, ◌⨾◌, prop, is_string,
  is_number, is_record, text, spread,
}
use advanced_wallets.Exec.{
  Exn, Result, ok, err, World, Exec, pure, throw, throw_if, plain_error, ◌>>=◌, ◌>>◌,
}
use advanced_wallets.Shared.Types.{KeySource, source_text}
use advanced_wallets.Shared.HttpClient.{
  HttpClient, new_http_client, get_call, post_call, patch_call,
}

pub data OperationType : Type 0 where
  multisig_sign multisig_keygen multisig_recovery mpc_sign mpc_keygen : OperationType

pub data JobStatus : Type 0 where
  awaiting_oso awaiting_bitgo complete failed expired : JobStatus

unfoldable pub operation_text : OperationType → String
operation_text multisig_sign = "multisig_sign"
operation_text multisig_keygen = "multisig_keygen"
operation_text multisig_recovery = "multisig_recovery"
operation_text mpc_sign = "mpc_sign"
operation_text mpc_keygen = "mpc_keygen"

unfoldable pub status_text : JobStatus → String
status_text awaiting_oso = "awaiting_oso"
status_text awaiting_bitgo = "awaiting_bitgo"
status_text complete = "complete"
status_text failed = "failed"
status_text expired = "expired"

-- `OperationTypeSchema` and `JobStatusSchema`
unfoldable pub parse_operation : String → Option OperationType
parse_operation s =
    if str_eq s "multisig_sign"
    then some multisig_sign
    else if str_eq s "multisig_keygen"
    then some multisig_keygen
    else if str_eq s "multisig_recovery"
    then some multisig_recovery
    else if str_eq s "mpc_sign"
    then some mpc_sign
    else if str_eq s "mpc_keygen"
    then some mpc_keygen
    else none

unfoldable pub parse_status : String → Option JobStatus
parse_status s =
    if str_eq s "awaiting_oso"
    then some awaiting_oso
    else if str_eq s "awaiting_bitgo"
    then some awaiting_bitgo
    else if str_eq s "complete"
    then some complete
    else if str_eq s "failed"
    then some failed
    else if str_eq s "expired"
    then some expired
    else none

-- `z.….optional()`
abbrev pub optionally : (Value → Bool) → Value → Bool
optionally test undefined = true
optionally test v = test v

unfoldable pub awm_response_schema : Value → Bool
awm_response_schema v =
    is_record v
    && is_number (prop v "status")
    && is_record (prop v "body")
    && optionally is_string (prop v "error")

all_texts : Fields → Bool
all_texts end = true
all_texts (Fields.field k v fs) = is_string v && all_texts fs

abbrev is_text_record : Value → Bool
is_text_record (obj fs) = all_texts fs
is_text_record _ = false

awm_request_schema : Value → Bool
unfolding all_texts
awm_request_schema v =
    is_record v
    && is_string (prop v "endpoint")
    && is_string (prop v "method")
    && is_record (prop v "body")
    && optionally is_text_record (prop v "headers")

-- A job of the bridge. What is optional is `undefined` where it is absent.
pub record BridgeJob : Type 0 where
  pub job_id : String
  pub status : JobStatus
  pub coin : String
  pub operation_type : OperationType
  pub request : Value
  pub awm_response : Value
  pub awm_backup_response : Value
  pub result : Value
  pub error : Value
  pub current_round : Value
  pub total_rounds : Value
  pub version : ℕ

-- The rest of `BridgeJobResponseSchema`, whose text and enumeration fields are parsed below.
job_shape : Value → Bool
unfolding awm_request_schema awm_response_schema
job_shape v =
    is_record v
    && is_string (prop v "jobId")
    && is_string (prop v "coin")
    && awm_request_schema (prop v "request")
    && optionally awm_response_schema (prop v "awmResponse")
    && optionally awm_response_schema (prop v "awmBackupResponse")
    && optionally is_record (prop v "result")
    && optionally is_string (prop v "error")
    && optionally is_number (prop v "currentRound")
    && optionally is_number (prop v "totalRounds")
    && optionally is_record (prop v "sessionState")
    && is_number (prop v "version")
    && is_number (prop v "createdAt")
    && is_number (prop v "updatedAt")
    && is_number (prop v "ttl")

abbrev pub number_of : Value → ℕ
number_of (num n) = n
number_of _ = 0

-- `BridgeJobResponseSchema.parse`. The schemas drop what they do not name, which no code reads.
unfoldable pub parse_job : Value → Option BridgeJob
unfolding job_shape parse_status parse_operation
parse_job v = elim (parse_status (text (prop v "status"))) [
  | none ↦ none
  | some status ↦ elim (parse_operation (text (prop v "operationType"))) [
    | none ↦ none
    | some operation ↦
        if job_shape v
        then some (record {
          job_id = text (prop v "jobId");
          status = status;
          coin = text (prop v "coin");
          operation_type = operation;
          request = prop v "request";
          awm_response = prop v "awmResponse";
          awm_backup_response = prop v "awmBackupResponse";
          result = prop v "result";
          error = prop v "error";
          current_round = prop v "currentRound";
          total_rounds = prop v "totalRounds";
          version = number_of (prop v "version");
        })
        else none
  ]
]

pub record SubmitParams : Type 0 where
  pub path : String
  pub body : Value
  pub sources : List KeySource
  pub operation_type : OperationType
  pub idempotency_key : Option String

-- What `updateJob` reports: `status` is "complete" or "failed".
pub data JobUpdate : Type 0 where
  completed : Value → JobUpdate
  failing : Value → JobUpdate

-- `new OsoBridgeClient(url, timeout)`
unfoldable pub new_bridge_client : String → ℕ → Result HttpClient
unfolding new_http_client
new_bridge_client url timeout =
    if str_eq url ""
    then err (plain_error "OsoBridgeClient: awmAsyncUrl is required")
    else ok (new_http_client "OsoBridgeClient" url timeout none)

abbrev join_sources : List KeySource → String
join_sources [] = ""
join_sources (s ∷ []) = source_text s
join_sources (s ∷ rest) = source_text s <> "," <> join_sources rest

abbrev idempotency_header : Option String → Fields
idempotency_header none = end
idempotency_header (some key) = if str_eq key "" then end else ("X-Idempotency-Key", str key) ⨾ end

unfoldable pub submit_headers : SubmitParams → Fields
unfolding operation_text
submit_headers params =
    spread
      (("X-OSO-Source", str (join_sources params.sources))
        ⨾ ("X-OSO-Operation", str (operation_text params.operation_type))
        ⨾ end)
      (idempotency_header params.idempotency_key)

-- The body of the `PATCH`: `updateJob`'s parameters without `jobId`.
unfoldable pub update_body : ℕ → JobUpdate → Value
update_body version (completed result) =
    obj (("version", num version) ⨾ ("status", str "complete") ⨾ ("result", result) ⨾ end)
update_body version (failing message) =
    obj (("version", num version) ⨾ ("status", str "failed") ⨾ ("error", message) ⨾ end)

module _ (w : World) (bridge : HttpClient) where
  unexpected_response : String → Value → Exn
  unexpected_response ctx data_value =
      let message = w.zod_message ctx data_value in
      plain_error (
        "bridge returned unexpected response for "
        <> ctx
        <> (if str_eq message "" then "" else ": " <> message))

  unfoldable pub submit : SubmitParams → Exec String
  unfolding submit_headers unexpected_response
  submit params =
      let path = if starts_with params.path "/" then params.path else "/" <> params.path in
      do
        response ← post_call bridge (bridge.url <> path) params.body (submit_headers params)
        let body = prop response "body"
        throw_if (not (is_record body && is_string (prop body "jobId")))
            (unexpected_response "submit" body)
        pure (text (prop body "jobId"))

  or_unexpected : String → Value → Option BridgeJob → Exec BridgeJob
  unfolding unexpected_response
  or_unexpected ctx v none = throw (unexpected_response ctx v)
  or_unexpected ctx v (some job) = pure job

  unfoldable pub get_job : String → Exec BridgeJob
  unfolding or_unexpected
  get_job job_id = do
    response ← get_call bridge (bridge.url <> "/job/" <> job_id) (obj end)
    or_unexpected ("getJob " <> job_id) (prop response "body") (parse_job (prop response "body"))

  unfoldable pub update_job : String → ℕ → JobUpdate → Exec (Unit {0})
  unfolding update_body
  update_job job_id version update = do
    patch_call bridge (bridge.url <> "/job/" <> job_id) (update_body version update)
    pure tt

  parse_jobs : Items → Exec (List BridgeJob)
  unfolding or_unexpected
  parse_jobs nil = pure []
  parse_jobs (cons v vs) = do
    job ← or_unexpected "listJobs job shape" v (parse_job v)
    jobs ← parse_jobs vs
    pure (job ∷ jobs)

  jobs_of : Value → Exec (List BridgeJob)
  unfolding parse_jobs
  jobs_of (arr vs) = parse_jobs vs
  jobs_of _ =
      throw (plain_error "bridge returned unexpected envelope for listJobs: missing jobs array")

  -- With `{ status }` as parameters.
  unfoldable pub list_jobs : JobStatus → Exec (List BridgeJob)
  unfolding jobs_of status_text
  list_jobs status = do
    response ←
        get_call bridge (bridge.url <> "/jobs") (obj (("status", str (status_text status)) ⨾ end))
    jobs_of (prop (prop response "body") "jobs")
