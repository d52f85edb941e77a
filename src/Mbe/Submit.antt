-- ===== src/Mbe/Submit.antt =====
-- src/masterBitgoExpress/handlers/utils: multisigSignUtils.ts, multisigSubmitUtils.ts,
-- multisigRecoveryUtils.ts and asyncUtils.ts.
pub mod RoundTrip
pub mod Posting
use advanced_wallets.Base.{
  String, Bool, true, false, not, ◌&&◌, ◌||◌, Option, none, some, List, [], ◌∷◌, str_eq, ◌<>◌,
  if◌then◌else◌,
}
use advanced_wallets.Js.{
  Value, undefined, str, arr, nil, cons, obj, Fields, end, ◌⨾◌, prop, is_string, is_record, is_text,
  truthy, text, to_string, spread, entries,
}
use advanced_wallets.Exec.{
  Exn, Result, ok, err, World, Coin, Exec, sdk, pure, throw, lift, perform, throw_if, plain_error,
  ◌>>=◌, ◌>>◌,
}
use advanced_wallets.Shared.Types.{KeySource, user, backup, source_text}
use advanced_wallets.Shared.Errors.{bad_request_error}
use advanced_wallets.Shared.HttpClient.{HttpClient}
use advanced_wallets.Mbe.Bridge.{
  SubmitParams, OperationType, multisig_sign, multisig_recovery, submit, optionally,
}

-- An object, and no `null`: an array is one.
abbrev pub is_object : Value → Bool
is_object (obj fs) = true
is_object (arr xs) = true
is_object _ = false

unfoldable pub signed_multisig_transaction_schema : Value → Bool
signed_multisig_transaction_schema body =
    is_record body
    && optionally is_string (prop body "txHex")
    && optionally is_record (prop body "halfSigned")
    && (is_string (prop body "txHex") || is_object (prop body "halfSigned"))

unfoldable pub parse_signed_multisig_transaction : World → Value → Result Value
parse_signed_multisig_transaction w body =
    if signed_multisig_transaction_schema body
    then ok body
    else err (plain_error (w.zod_message "SignedMultisigTransaction" body))

pub data WpSubmitKind : Type 0 where
  send_many accelerate consolidate_unspents : WpSubmitKind

-- `isWpSubmitKind`
unfoldable pub parse_kind : Value → Option WpSubmitKind
parse_kind v =
    if is_text v "sendMany"
    then some send_many
    else if is_text v "accelerate"
    then some accelerate
    else if is_text v "consolidateUnspents"
    then some consolidate_unspents
    else none

pub record SignJobContext : Type 0 where
  pub wallet_id : String
  pub wp_submit_kind : WpSubmitKind
  pub wp_submit_params : Value

unfoldable pub kind_text : WpSubmitKind → String
kind_text send_many = "sendMany"
kind_text accelerate = "accelerate"
kind_text consolidate_unspents = "consolidateUnspents"

-- A `MultisigSignJobContext`, as an object.
unfoldable pub context_fields : SignJobContext → Fields
unfolding kind_text
context_fields context =
    ("walletId", str context.wallet_id)
    ⨾ ("wpSubmitKind", str (kind_text context.wp_submit_kind))
    ⨾ ("wpSubmitParams", context.wp_submit_params)
    ⨾ end

unfoldable pub parse_multisig_sign_job_context : Value → Result SignJobContext
unfolding parse_kind
parse_multisig_sign_job_context body =
    if not (truthy body) || not (is_string (prop body "walletId"))
    then err (plain_error "job request.body missing walletId")
    else elim (parse_kind (prop body "wpSubmitKind")) [
      | none ↦ err (
          plain_error (
            "job request.body missing or unsupported wpSubmitKind: "
            <> to_string (prop body "wpSubmitKind")))
      | some kind ↦
          if is_object (prop body "wpSubmitParams")
          then ok (record {
            wallet_id = text (prop body "walletId");
            wp_submit_kind = kind;
            wp_submit_params = prop body "wpSubmitParams";
          })
          else err (plain_error "job request.body missing wpSubmitParams")
    ]

-- `buildMultisigSignBody`; the source is the user's or the backup's.
unfoldable pub build_multisig_sign_body : KeySource → Value → Value → Value → Result Fields
build_multisig_sign_body source signing_pub tx_prebuilt wallet_pubs =
    if truthy signing_pub
    then ok (
        spread
          (("source", str (source_text source))
            ⨾ ("pub", signing_pub)
            ⨾ ("txPrebuild", tx_prebuilt)
            ⨾ end)
          (if truthy wallet_pubs then ("walletPubs", wallet_pubs) ⨾ end else end))
    else err (bad_request_error ("Signing keychain pub not found for " <> source_text source))

-- What `submitJobViaBridgeClient` reads of the request: whether async mode is enabled, and the
-- bridge's client. `none` is `null`: the caller goes on without the bridge.
unfoldable pub submit_job_via_bridge_client :
    World → Bool → Option HttpClient → SubmitParams → Exec (Option String)
submit_job_via_bridge_client w false bridge params = pure none
submit_job_via_bridge_client w true none params =
    throw (plain_error "bridgeClient is required when async mode is enabled")
submit_job_via_bridge_client w true (some bridge) params = do
  job_id ← submit w bridge params
  pure (some job_id)

unfoldable pub submit_multisig_sign_job :
    World
    → Bool
    → Option HttpClient
    → String
    → KeySource
    → Fields
    → SignJobContext
    → Exec (Option String)
unfolding context_fields
submit_multisig_sign_job w async bridge coin source sign_body context =
    submit_job_via_bridge_client w async bridge (record {
      path = "/api/" <> coin <> "/multisig/sign";
      body = obj (spread sign_body (context_fields context));
      sources = source ∷ [];
      operation_type = multisig_sign;
      idempotency_key = none;
    })

unfoldable pub submit_multisig_recovery_job :
    World → Bool → Option HttpClient → String → Value → List KeySource → Exec (Option String)
submit_multisig_recovery_job w async bridge coin body sources =
    submit_job_via_bridge_client w async bridge (record {
      path = "/api/" <> coin <> "/multisig/recovery";
      body = body;
      sources = sources;
      operation_type = multisig_recovery;
      idempotency_key = none;
    })

abbrev pub submit_transaction : Coin → Fields → Exec Value
submit_transaction coin params = perform (sdk coin.name "wallet.submitTransaction" (obj params))

-- `['comment', 'otp', 'bulk']`
abbrev pub consolidate_keys : Value
consolidate_keys = arr (cons (str "comment") (cons (str "otp") (cons (str "bulk") nil)))

-- `WP_SUBMIT_HANDLERS`: the transaction is submitted to the wallet platform.
unfoldable pub wp_submit : World → WpSubmitKind → Coin → Value → Value → Value → Exec Value
wp_submit w send_many coin wallet signed_tx params = do
  extra ← perform (
      sdk coin.name "getExtraPrebuildParams"
        (obj (spread (entries params) (("wallet", wallet) ⨾ end))))
  submit_transaction coin (spread (entries signed_tx) (entries extra))
wp_submit w accelerate coin wallet signed_tx params = do
  keys ← perform (sdk coin.name "wallet.prebuildWhitelistedParams" wallet)
  submit_transaction coin (spread (entries signed_tx) (w.pick params keys))
wp_submit w consolidate_unspents coin wallet signed_tx params = submit_transaction coin (
    spread (spread (entries signed_tx) (w.pick params consolidate_keys))
      (("type", str "consolidate") ⨾ end))
