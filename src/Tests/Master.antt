-- ===== src/Tests/Master.antt =====
-- Tests of the master application: jobs, the worker and polling.
use advanced_wallets.Base.{ℕ, ◌≡◌, refl, true, false, none, some, List, [], ◌∷◌, get_elem?, arith}
use advanced_wallets.Js.{Value, undefined, str, nil, cons, arr, obj, end, ◌⨾◌, get, has, truthy}
use advanced_wallets.Exec.{Result, ok, err, World, done, plain_error, run}
use advanced_wallets.Exec.Pool.{calls, interleave, answers_to}
use advanced_wallets.Exec.Silent.{select}
use advanced_wallets.Shared.Types.{user, local}
use advanced_wallets.Shared.HttpClient.{HttpClient, post_call}
use advanced_wallets.Shared.CoinFactory.{get_coin}
use advanced_wallets.Awm.KeyProvider.{new_key_provider, post_key}
use advanced_wallets.Awm.Utils.{is_external_signing_enabled_for_coin}
use advanced_wallets.Awm.IndependentKey.{post_independent_key}
use advanced_wallets.Mbe.Bridge.{
  BridgeJob, multisig_keygen, multisig_sign, awaiting_bitgo, expired, failing, list_jobs,
}
use advanced_wallets.Mbe.Bridge.Jobs.{Reads, all_jobs, list_jobs_all_or_none}
use advanced_wallets.Mbe.Submit.{submit_multisig_sign_job, accelerate}
use advanced_wallets.Mbe.Submit.RoundTrip.{Once, PostsContext, sign_job_context_round_trip}
use advanced_wallets.Mbe.Poll.{to_poll_response}
use advanced_wallets.Mbe.Poll.Outcome.{poll_outcome}
use advanced_wallets.Mbe.Worker.{process_job, started}
use advanced_wallets.Mbe.Worker.Reports.{Reports, report, is_patch, process_job-Reports}
use advanced_wallets.Mbe.Worker.Rounds.{job_settles}
use advanced_wallets.Mbe.Worker.Ticks.{
  started_worker, on_interval, starts, interval, rounds_of, one_round,
}
use advanced_wallets.Mbe.Worker.Keygen.{answered, local_key_fails_job}
use advanced_wallets.Tests.Data.{bitcoin, answer, world, config, kms}
use advanced_wallets.Tests.Wallets.{made_local, bitcoin_found, bitcoin_local, key_request}

abbrev pub bridge : HttpClient
bridge = record {
  class_name = "OsoBridgeClient";
  url = "http://bridge";
  timeout = 1000;
  agent = none;
}

abbrev new_key : Value
new_key = obj (
    ("pub", str "xpub")
    ⨾ ("coin", str "btc")
    ⨾ ("source", str "user")
    ⨾ ("type", str "independent")
    ⨾ end)

abbrev keygen_job : BridgeJob
keygen_job = record {
  job_id = "job1";
  status = awaiting_bitgo;
  coin = "btc";
  operation_type = multisig_keygen;
  request = obj (("body", obj end) ⨾ end);
  awm_response = answered new_key;
  awm_backup_response = undefined;
  result = undefined;
  error = undefined;
  current_round = undefined;
  total_rounds = undefined;
  version = 3;
}

abbrev sign_job : BridgeJob
sign_job = record keygen_job {
  job_id = "job2";
  operation_type = multisig_sign;
  awm_response = answered (obj (("txHex", str "00") ⨾ end));
  request = obj (
      (
        "body",
        obj (
            ("walletId", str "w")
            ⨾ ("wpSubmitKind", str "sendMany")
            ⨾ ("wpSubmitParams", obj end)
            ⨾ end),
      )
      ⨾ end);
}

abbrev jobs : List BridgeJob
jobs = keygen_job ∷ sign_job ∷ []

abbrev yes : Result Value
yes = ok (obj end)

-- The second job gets five answers, between which the first gets one.
abbrev schedule : List (ℕ × Result Value)
schedule = (1, yes) ∷ (1, yes) ∷ (0, yes) ∷ (1, yes) ∷ (1, err (plain_error "down")) ∷ (1, yes) ∷ []

process_job-Reports_example : Reports bridge sign_job (
    select is_patch (
      calls
        (process_job world bridge sign_job)
        (yes ∷ yes ∷ yes ∷ err (plain_error "down") ∷ yes ∷ [])))
process_job-Reports_example = process_job-Reports world bridge sign_job _

job_settles_example :
    (r : Result (Unit {0})) × (get_elem? (interleave (started world bridge jobs) schedule) 1
      ≡ some (done r))
unfolding answers_to
job_settles_example = job_settles world bridge jobs schedule 1 sign_job refl (omega arith)

one_round_example :
    (on_interval (on_interval started_worker)).rounds
    ≡ rounds_of (on_interval (on_interval started_worker)).is_worker_running
one_round_example = one_round _ (interval _ (interval _ starts))

made_key : (run world (post_independent_key world (config local) key_request) []).0 ≡ ok new_key
unfolding post_independent_key run new_key_provider get_coin is_external_signing_enabled_for_coin
    truthy get post_key post_call
made_key = refl

local_key_fails_job_example :
    (run world (process_job world bridge keygen_job) []).1
    ≡ report bridge keygen_job (failing (str "invalid IndependentKeychainResponse")) ∷ []
local_key_fails_job_example =
    local_key_fails_job world (config local) key_request kms bitcoin [] new_key world bridge
      keygen_job made_local bitcoin_found bitcoin_local made_key refl refl

sign_job_context_round_trip_example :
    Once
      (PostsContext bridge "btc"
        (record { wallet_id = "w"; wp_submit_kind = accelerate; wp_submit_params = obj end }))
      (run world
        (submit_multisig_sign_job world true
          (some bridge)
          "btc"
          user
          (("walletId", str "other") ⨾ end)
          (record { wallet_id = "w"; wp_submit_kind = accelerate; wp_submit_params = obj end }))
        []).1
sign_job_context_round_trip_example =
    sign_job_context_round_trip world bridge "btc" "w" accelerate end
      (("walletId", str "other") ⨾ end) user

abbrev list_answer : Value
list_answer = answer (obj (("jobs", arr (cons (str "no job") nil)) ⨾ end))

abbrev bridge_world : World
bridge_world = record world { reply = λ t c. ok list_answer }

list_jobs_all_or_none_example :
    Reads
      (all_jobs (cons (str "no job") nil))
      (run bridge_world (list_jobs bridge_world bridge awaiting_bitgo) []).0
unfolding get
list_jobs_all_or_none_example =
    list_jobs_all_or_none bridge_world bridge awaiting_bitgo [] list_answer
      (cons (str "no job") nil) refl refl

poll_outcome_example :
    let response = to_poll_response (record keygen_job { status = expired }) in
    ((has response "result" ≡ true)
      → (get response "status" ≡ str "complete") × (has response "error" ≡ false))
    × ((has response "error" ≡ true)
        → (get response "status" ≡ str "failed") × (has response "result" ≡ false))
poll_outcome_example = poll_outcome (record keygen_job { status = expired })
