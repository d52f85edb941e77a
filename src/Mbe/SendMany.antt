-- ===== src/Mbe/SendMany.antt =====
-- src/masterBitgoExpress/handlers/handleSendMany.ts
pub mod Async
pub mod Verification
use advanced_wallets.Base.{
  ℕ, String, Bool, true, false, not, ◌&&◌, ◌||◌, Option, none, some, str_eq, ◌<>◌, if◌then◌else◌,
}
use advanced_wallets.Js.{
  strict_eq, Value, undefined, str, bool, obj, Fields, end, ◌⨾◌, prop, set, get, entries, spread,
  is_text, truthy, text, to_string, optional,
}
use advanced_wallets.Exec.{
  Exn, Result, ok, err, World, Coin, Exec, sdk, pure, throw, lift, catch, perform, throw_if,
  exn_prop, ◌>>=◌, ◌>>◌,
}
use advanced_wallets.Shared.Types.{MasterExpressConfig}
use advanced_wallets.Shared.Errors.{bad_request_error, not_found_error}
use advanced_wallets.Shared.HttpClient.{HttpClient}
use advanced_wallets.Shared.CoinFactory.{get_coin}
use advanced_wallets.Shared.CoinUtils.{is_utxo_coin}
use advanced_wallets.Mbe.AwmClient.{AwmClient, sign_multisig}
use advanced_wallets.Mbe.Submit.{
  send_many, SignJobContext, build_multisig_sign_body, submit_multisig_sign_job, wp_submit,
}
use advanced_wallets.Mbe.Wallets.{
  item, source_of, key_id_index, get_keychain, get_wallet, is_tss, get_wallet_pubs,
}

-- A request to the master application: the configuration, the clients that the middleware attached,
-- the path parameters and the decoded body.
pub record MasterRequest : Type 0 where
  pub config : MasterExpressConfig
  pub awm_user_client : AwmClient
  pub awm_backup_client : AwmClient
  pub bridge_client : Option HttpClient
  pub coin : String
  pub wallet_id : String
  pub decoded : Value

-- `req.config.asyncModeConfig.enabled`
abbrev pub async_enabled : MasterRequest → Bool
async_enabled req = req.config.async_mode_config.enabled

-- `AsyncJobResponse`
abbrev pub pending_job : String → Value
pending_job job_id = obj (("jobId", str job_id) ⨾ ("status", str "pending") ⨾ end)

abbrev pub failed_validation : String
failed_validation = "Transaction prebuild failed local validation"

is_algorithm : Option String → String → Bool
is_algorithm none name = false
is_algorithm (some algorithm) name = str_eq algorithm name

-- A signing callback that is passed to the SDK, as what it closes over.
abbrev mpc_closure : Value → Value → Value
mpc_closure source common_keychain =
    obj (("source", source) ⨾ ("commonKeychain", common_keychain) ⨾ end)

unfoldable pub create_mpc_send_params : World → MasterRequest → Fields → Value → Exec Fields
unfolding is_algorithm
create_mpc_send_params w req params keychain = do
  coin ← lift (get_coin w req.coin)
  let common_keychain = prop keychain "commonKeychain"
  let signer = mpc_closure (prop keychain "source") common_keychain
  throw_if (not (truthy common_keychain))
      (bad_request_error "Common keychain is required for MPC signing")
  if is_algorithm coin.mpc_algorithm "ecdsa"
      then pure (
          spread params (
            ("customMPCv2SigningRound1GenerationFunction", signer)
            ⨾ ("customMPCv2SigningRound2GenerationFunction", signer)
            ⨾ ("customMPCv2SigningRound3GenerationFunction", signer)
            ⨾ end))
      else if is_algorithm coin.mpc_algorithm "eddsa"
      then pure (
          spread params (
            ("customCommitmentGeneratingFunction", signer)
            ⨾ ("customRShareGeneratingFunction", signer)
            ⨾ ("customGShareGeneratingFunction", signer)
            ⨾ end))
      else throw (
          bad_request_error
            ("Unsupported MPC algorithm: " <> to_string (optional coin.mpc_algorithm)))

-- `wallet.type() === 'advanced' || (wallet.type() === 'cold' && wallet.subType() === 'onPrem')`
abbrev is_advanced : Value → Bool
is_advanced wallet =
    is_text (prop wallet "type") "advanced"
    || (is_text (prop wallet "type") "cold" && is_text (prop wallet "subType") "onPrem")

check_tss_keychain : Value → Value → Exec (Unit {0})
check_tss_keychain params keychain = do
  throw_if (not (truthy (prop params "commonKeychain"))) (
      bad_request_error
        ("commonKeychain must be provided for TSS " <> text (prop params "source") <> " signing"))
  throw_if (not (strict_eq (prop keychain "commonKeychain") (prop params "commonKeychain"))) (
      bad_request_error (
        "Common keychain provided does not match the keychain on wallet for "
        <> text (prop params "source")))

check_multisig_keychain : Value → Value → Exec (Unit {0})
check_multisig_keychain params keychain = do
  throw_if (not (truthy (prop params "pubkey"))) (
      bad_request_error
        ("pubkey must be provided for multisig " <> text (prop params "source") <> " signing"))
  throw_if (not (strict_eq (prop keychain "pub") (prop params "pubkey"))) (
      bad_request_error
        ("Pub provided does not match the keychain on wallet for " <> text (prop params "source")))

-- `if (!params.type) params.type = 'transfer'`
abbrev with_type : Fields → Fields
with_type params = if truthy (get params "type") then params else set params "type" (str "transfer")

unfoldable pub send_many_tss : World → MasterRequest → Coin → Value → Exec Value
unfolding create_mpc_send_params
send_many_tss w req coin keychain = do
  throw_if (is_text (prop keychain "source") "backup")
      (bad_request_error "Backup MPC signing not supported for sendMany")
  params ← create_mpc_send_params w req (with_type (entries req.decoded)) keychain
  perform (sdk coin.name "wallet.sendMany" (obj params))

abbrev memo_of : Value → Value
memo_of memo = if truthy memo then obj (("type", str "text") ⨾ ("value", memo) ⨾ end) else undefined

unfoldable pub prebuild_params : MasterRequest → Coin → Fields
prebuild_params req coin =
    spread (set (entries req.decoded) "memo" (memo_of (prop req.decoded "memo")))
      (if is_utxo_coin coin then ("txFormat", str "psbt-lite") ⨾ end else end)

-- The arguments of `verifyTransaction`.
abbrev pub verify_args : Fields → Value → Value → Value
verify_args params tx_prebuilt wallet = obj (
    ("txParams", obj params)
    ⨾ ("txPrebuild", tx_prebuilt)
    ⨾ ("wallet", wallet)
    ⨾ ("verification", obj end)
    ⨾ ("walletType", prop wallet "multisigType")
    ⨾ end)

unfoldable pub verify_prebuild : Coin → Fields → Value → Value → Exec (Unit {0})
verify_prebuild coin params tx_prebuilt wallet =
    catch
      (do
        verified ←
            perform (sdk coin.name "verifyTransaction" (verify_args params tx_prebuilt wallet))
        throw_if (not (truthy verified)) (bad_request_error failed_validation))
      λ e. throw (bad_request_error (failed_validation <> ": " <> to_string (exn_prop e "message")))

-- A job that was submitted, or the transaction signed by the wallet manager and submitted.
unfoldable pub sign_or_submit_job :
    World → MasterRequest → Coin → Value → Fields → Fields → Option String → Exec Value
sign_or_submit_job w req coin wallet params sign_body (some job_id) = pure (pending_job job_id)
sign_or_submit_job w req coin wallet params sign_body none = do
  signed_tx ← sign_multisig req.awm_user_client (obj sign_body)
  wp_submit w send_many coin wallet signed_tx (obj params)

unfoldable pub send_many_multisig : World → MasterRequest → Coin → Value → Value → Exec Value
unfolding prebuild_params verify_prebuild sign_or_submit_job
send_many_multisig w req coin wallet keychain =
    let params = prebuild_params req coin in
    do
      tx_prebuilt ← perform (sdk coin.name "wallet.prebuildTransaction" (obj params))
      verify_prebuild coin params tx_prebuilt wallet
      pubs ← get_wallet_pubs coin wallet
      sign_body ← lift (
          build_multisig_sign_body (source_of (prop req.decoded "source")) (prop keychain "pub")
            tx_prebuilt pubs)
      job ←
          submit_multisig_sign_job w (async_enabled req) req.bridge_client req.coin
            (source_of (prop req.decoded "source")) sign_body
            (record {
              wallet_id = req.wallet_id;
              wp_submit_kind = send_many;
              wp_submit_params = obj params;
            })
      sign_or_submit_job w req coin wallet params sign_body job

unfoldable pub handle_send_many : World → MasterRequest → Exec Value
unfolding check_tss_keychain check_multisig_keychain send_many_tss send_many_multisig
handle_send_many w req = do
  coin ← lift (get_coin w req.coin)
  wallet ← get_wallet coin req.wallet_id
  throw_if (not (truthy wallet)) (not_found_error ("Wallet " <> req.wallet_id <> " not found"))
  throw_if (not (is_advanced wallet)) (not_found_error "Wallet is not an advanced wallet")
  let params = req.decoded
  keychain ← get_keychain coin (item (prop wallet "keyIds") (key_id_index (prop params "source")))
  throw_if (not (truthy keychain))
      (not_found_error ("Signing keychain for " <> text (prop params "source") <> " not found"))
  throw_if (is_tss wallet && async_enabled req)
      (bad_request_error "Async mode is not yet supported for TSS sendMany")
  if is_tss wallet
      then check_tss_keychain params keychain
      else check_multisig_keychain params keychain
  if is_tss wallet
      then send_many_tss w req coin keychain
      else send_many_multisig w req coin wallet keychain
