-- ===== src/Mbe/Bridge/Jobs.antt =====
-- The texts of the bridge's enumerations, and lists of jobs.
use advanced_wallets.Base.{
  String, ◌≡◌, refl, ◌↔◌, Option, none, some, List, ◌<>◌, [], ◌∷◌, eq_iff, arith,
}
use advanced_wallets.Js.{Value, undefined, str, obj, end, ◌⨾◌, Items, nil, cons, arr, prop}
use advanced_wallets.Exec.{Exn, Result, ok, err, World, Exec, Call, http, done, pure, run, ◌>>=◌}
use advanced_wallets.Shared.HttpClient.{HttpClient, request, call, get_call}
use advanced_wallets.Mbe.Bridge.{
  BridgeJob, OperationType, multisig_sign, multisig_keygen, multisig_recovery, mpc_sign, mpc_keygen,
  JobStatus, awaiting_oso, awaiting_bitgo, complete, failed, expired, parse_status, status_text,
  parse_operation, operation_text, parse_job, parse_jobs, or_unexpected, jobs_of, list_jobs,
}

-- A text is read as a status of a job if and only if it is the text of that status.
pub parse_status-status_text :
    (s : JobStatus) (t : String) → (parse_status t ≡ some s) ↔ (t ≡ status_text s)
unfolding parse_status status_text
parse_status-status_text awaiting_oso t =
    (λ h. ground (arith, eq_iff t "awaiting_oso"), λ h. rw h refl)
parse_status-status_text awaiting_bitgo t =
    (λ h. ground (arith, eq_iff t "awaiting_bitgo"), λ h. rw h refl)
parse_status-status_text complete t = (λ h. ground (arith, eq_iff t "complete"), λ h. rw h refl)
parse_status-status_text failed t = (λ h. ground (arith, eq_iff t "failed"), λ h. rw h refl)
parse_status-status_text expired t = (λ h. ground (arith, eq_iff t "expired"), λ h. rw h refl)

-- A text is read as a kind of operation if and only if it is the text of that kind.
pub parse_operation-operation_text :
    (o : OperationType) (t : String) → (parse_operation t ≡ some o) ↔ (t ≡ operation_text o)
unfolding parse_operation operation_text
parse_operation-operation_text multisig_sign t =
    (λ h. ground (arith, eq_iff t "multisig_sign"), λ h. rw h refl)
parse_operation-operation_text multisig_keygen t =
    (λ h. ground (arith, eq_iff t "multisig_keygen"), λ h. rw h refl)
parse_operation-operation_text multisig_recovery t =
    (λ h. ground (arith, eq_iff t "multisig_recovery"), λ h. rw h refl)
parse_operation-operation_text mpc_sign t =
    (λ h. ground (arith, eq_iff t "mpc_sign"), λ h. rw h refl)
parse_operation-operation_text mpc_keygen t =
    (λ h. ground (arith, eq_iff t "mpc_keygen"), λ h. rw h refl)

abbrev and_others : Option BridgeJob → Option (List BridgeJob) → Option (List BridgeJob)
and_others (some job) (some jobs) = some (job ∷ jobs)
and_others _ _ = none

-- The jobs that the items of a list are read as, where each item is one.
unfoldable pub all_jobs : Items → Option (List BridgeJob)
all_jobs nil = some []
all_jobs (cons v vs) = and_others (parse_job v) (all_jobs vs)

-- How a list of jobs that may hold what is no job is read.
abbrev pub Reads : Option (List BridgeJob) → Result (List BridgeJob) → Type 0
Reads none r = (e : Exn) × (r ≡ err e)
Reads (some jobs) r = r ≡ ok jobs

module _ (w : World) (bridge : HttpClient) where
  abbrev ReadsAs : Option (List BridgeJob) → Exec (List BridgeJob) → Type 0
  ReadsAs found m = (r : Result (List BridgeJob)) × (m ≡ done r) × Reads found r

  read_first :
      (v : Value) (first : Option BridgeJob) (found : Option (List BridgeJob))
      (m : Exec (List BridgeJob))
      → ReadsAs found m
      → ReadsAs (and_others first found) (
          or_unexpected w bridge "listJobs job shape" v first >>= λ job.
          m >>= λ jobs. pure (job ∷ jobs))
  unfolding or_unexpected
  read_first v none none m h = (_, refl, (_, refl))
  read_first v none (some jobs) m h = (_, refl, (_, refl))
  read_first v (some job) none m (r, settled, (e, thrown)) =
      rw (settled, thrown) (err e, refl, (e, refl))
  read_first v (some job) (some jobs) m (r, settled, read) = rw (settled, read) (_, refl, refl)

  parse_jobs-all_jobs : (vs : Items) → ReadsAs (all_jobs vs) (parse_jobs w bridge vs)
  unfolding parse_jobs all_jobs
  parse_jobs-all_jobs nil = (ok [], refl, refl)
  parse_jobs-all_jobs (cons v vs) =
      read_first v (parse_job v) (all_jobs vs) (parse_jobs w bridge vs) (parse_jobs-all_jobs vs)

-- `GET /jobs?status=…`
unfoldable pub list_call : HttpClient → JobStatus → Call
unfolding request status_text
list_call bridge status = http (
    request bridge "get" (bridge.url <> "/jobs") (obj (("status", str (status_text status)) ⨾ end))
      undefined end)

-- When the bridge answers with a list, `listJobs` returns its jobs in order if every item is a job,
-- and otherwise throws: one malformed item keeps the worker from all the others.
pub list_jobs_all_or_none :
    (w : World) (bridge : HttpClient) (status : JobStatus) (t : List Call) (response : Value)
    (items : Items)
    → w.reply t (list_call bridge status) ≡ ok response
    → prop (prop response "body") "jobs" ≡ arr items
    → Reads (all_jobs items) (run w (list_jobs w bridge status) t).0
unfolding list_jobs jobs_of get_call call request run list_call
list_jobs_all_or_none w bridge status t response items answered listed =
    let (r, settled, reads) = parse_jobs-all_jobs w bridge items in
    rw (answered, listed, settled) reads
