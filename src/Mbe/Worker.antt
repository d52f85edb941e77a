-- ===== src/Mbe/Worker.antt =====
-- src/masterBitgoExpress/workers/asyncJobWorker.ts: the jobs that the wallet managers have answered
-- are completed.
pub mod Reports
pub mod Rounds
pub mod Ticks
pub mod Keygen
use advanced_wallets.Base.{
  ℕ, String, Bool, true, false, not, ◌&&◌, ◌||◌, Option, none, some, List, [], ◌∷◌, map, leb, ◌<>◌,
  if◌then◌else◌,
}
use advanced_wallets.Js.{
  Value, undefined, str, obj, Fields, end, ◌⨾◌, prop, is_string, is_record, is_text, truthy,
  to_string, spread, entries, coalesce, text,
}
use advanced_wallets.Exec.{
  Exn, Result, ok, err, World, Coin, Exec, sdk, pure, throw, lift, catch, perform, plain_error,
  exn_prop, ◌>>=◌, ◌>>◌,
}
use advanced_wallets.Shared.CoinFactory.{get_coin}
use advanced_wallets.Shared.HttpClient.{HttpClient}
use advanced_wallets.Mbe.Bridge.{
  BridgeJob, OperationType, multisig_sign, multisig_keygen, multisig_recovery, mpc_sign, mpc_keygen,
  awaiting_bitgo, completed, failing, awm_response_schema, number_of, optionally, update_job,
  list_jobs,
}
use advanced_wallets.Mbe.Submit.{
  parse_signed_multisig_transaction, parse_multisig_sign_job_context, wp_submit,
}

-- `r.error ?? message`
abbrev error_text : Value → String → String
error_text error message = text (coalesce error (str message))

parse_present : Value → String → Result Value
parse_present response field_name =
    if not (awm_response_schema response)
    then err (
        plain_error
          ("job " <> field_name <> " is not a valid AwmResponse (expected { status, body })"))
    else if leb 400 (number_of (prop response "status")) || truthy (prop response "error")
    then err (
        plain_error (
          error_text (prop response "error")
            ("AWM " <> field_name <> " returned status " <> to_string (prop response "status"))))
    else ok (prop response "body")

unfoldable pub parse_awm_response_body : Value → String → Result Value
unfolding parse_present
parse_awm_response_body undefined field_name = err (plain_error ("job missing " <> field_name))
parse_awm_response_body response field_name = parse_present response field_name

unfoldable pub independent_keychain_response_schema : Value → Bool
independent_keychain_response_schema v =
    is_record v
    && is_string (prop v "id")
    && is_string (prop v "pub")
    && optionally is_string (prop v "encryptedPrv")
    && is_text (prop v "type") "independent"
    && (is_text (prop v "source") "user"
        || is_text (prop v "source") "backup"
        || is_text (prop v "source") "bitgo")
    && is_string (prop v "coin")

-- The callback that hands the SDK the keychains of a job, by the key's source.
unfoldable pub pre_generated_keychain : Value → Value → String → Result Value
pre_generated_keychain user backup source =
    let keychain = λ (k : Value).
      ok (
        obj (("source", str source) ⨾ ("pub", prop k "pub") ⨾ ("type", str "independent") ⨾ end)) in
    if is_text (str source) "user"
    then keychain user
    else if is_text (str source) "backup"
    then keychain backup
    else err (plain_error (source <> " keychain not available for onchain key generation"))

module _ (w : World) (bridge : HttpClient) where
  unfoldable pub parse_keychain : Value → String → Result Value
  parse_keychain response field_name = elim (parse_awm_response_body response field_name) [
    | err e ↦ err e
    | ok body ↦
        if independent_keychain_response_schema body
        then ok body
        else err (plain_error (w.zod_message "IndependentKeychainResponse" body))
  ]

  unfoldable pub parse_signed_tx : Value → Result Value
  parse_signed_tx response = elim (parse_awm_response_body response "awmResponse") [
    | err e ↦ err e
    | ok body ↦ parse_signed_multisig_transaction w body
  ]

  -- The callback of the SDK call stands for the two keychains that it gives out.
  unfoldable pub generate_wallet_args : BridgeJob → Value → Value → Value
  generate_wallet_args job user backup = obj (
      spread (entries (prop job.request "body")) (
        ("type", str "advanced")
        ⨾ ("multisigType", str "onchain")
        ⨾ ("createKeychainCallback", obj (("user", user) ⨾ ("backup", backup) ⨾ end))
        ⨾ end))

  unfoldable pub handle_key_generation_operation : BridgeJob → Exec (Unit {0})
  handle_key_generation_operation job = do
    user ← lift (parse_keychain job.awm_response "awmResponse")
    backup ← lift (parse_keychain job.awm_backup_response "awmBackupResponse")
    coin ← lift (get_coin w job.coin)
    result ← perform (sdk coin.name "wallets.generateWallet" (generate_wallet_args job user backup))
    update_job w bridge job.job_id job.version
        (completed (obj (("walletId", prop (prop result "wallet") "id") ⨾ end)))

  unfoldable pub handle_multisig_sign_operation : BridgeJob → Exec (Unit {0})
  handle_multisig_sign_operation job = do
    signed_tx ← lift (parse_signed_tx job.awm_response)
    context ← lift (parse_multisig_sign_job_context (prop job.request "body"))
    coin ← lift (get_coin w job.coin)
    wallet ← perform (sdk coin.name "wallets.get" (obj (("id", str context.wallet_id) ⨾ end)))
    result ← wp_submit w context.wp_submit_kind coin wallet signed_tx context.wp_submit_params
    update_job w bridge job.job_id job.version (completed result)

  unfoldable pub handle_multisig_recovery_operation : BridgeJob → Exec (Unit {0})
  handle_multisig_recovery_operation job = do
    signed_tx ← lift (parse_signed_tx job.awm_response)
    update_job w bridge job.job_id job.version (completed signed_tx)

  -- `ASYNC_OPERATIONS_TO_HANDLERS[job.operationType]`
  unfoldable pub handler_of : OperationType → Option (BridgeJob → Exec (Unit {0}))
  handler_of multisig_keygen = some handle_key_generation_operation
  handler_of multisig_sign = some handle_multisig_sign_operation
  handler_of multisig_recovery = some handle_multisig_recovery_operation
  handler_of mpc_sign = none
  handler_of mpc_keygen = none

  unfoldable pub report_failure : BridgeJob → Exn → Exec (Unit {0})
  report_failure job e = update_job w bridge job.job_id job.version (failing (exn_prop e "message"))

  -- `if (!handler) return`, and the `try` around the handler
  unfoldable pub try_handler : Option (BridgeJob → Exec (Unit {0})) → BridgeJob → Exec (Unit {0})
  try_handler none job = pure tt
  try_handler (some handler) job = catch (handler job) (report_failure job)

  unfoldable pub process_job : BridgeJob → Exec (Unit {0})
  unfolding handler_of try_handler
  process_job job = try_handler (handler_of job.operation_type) job

  -- The jobs of one round of `processPendingJobs`, each of which then runs by itself.
  unfoldable pub pending_jobs : Exec (List BridgeJob)
  pending_jobs = list_jobs w bridge awaiting_bitgo

  -- `jobs.map((job) => processJob(job, bridge, bitgo))`
  unfoldable pub started : List BridgeJob → List (Exec (Unit {0}))
  started jobs = map process_job jobs
