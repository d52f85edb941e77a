-- ===== src/Mbe/Recovery/Consolidations.antt =====
-- src/masterBitgoExpress/handlers/handleRecoveryConsolidations.ts
use advanced_wallets.Base.{
  ℕ, suc, String, Bool, true, not, ◌&&◌, ◌||◌, [], ◌∷◌, ◌<>◌, if◌then◌else◌,
}
use advanced_wallets.Js.{
  Value, undefined, num, str, obj, Fields, end, ◌⨾◌, arr, Items, nil, cons, entries, spread, prop,
  truthy, text, is_text, to_string,
}
use advanced_wallets.Exec.{
  World, Exec, Coin, sol, trx, sdk, pure, throw, throw_if, lift, perform, plain_error, ◌>>=◌, ◌>>◌,
}
use advanced_wallets.Shared.Types.{user}
use advanced_wallets.Shared.Errors.{bad_request_error}
use advanced_wallets.Shared.CoinUtils.{is_family}
use advanced_wallets.Shared.CoinFactory.{get_coin}
use advanced_wallets.Mbe.AwmClient.Mpc.{recovery_multisig, recovery_mpc}
use advanced_wallets.Mbe.Submit.{submit_multisig_recovery_job}
use advanced_wallets.Mbe.Unspents.{or_throw}
use advanced_wallets.Mbe.Recovery.Request.{
  RecoveryRequest, async_enabled, master_check_recovery_mode,
}
use advanced_wallets.Mbe.Recovery.Multisig.{recover_with_two_managers}

abbrev register : String → Exec Value
register name = perform (sdk (name <> " module") "register" undefined)

unfoldable pub recovery_consolidate_wallets : Coin → Value → Exec Value
recovery_consolidate_wallets coin params =
    let recover = perform (sdk coin.name "recoverConsolidations" params) in
    if is_family coin sol
    then (register "sol" >> recover)
    else if is_family coin trx
    then (register "trx" >> recover)
    else (register "ada" >> (register "sui" >> (register "dot" >> (register "tao" >> recover))))

-- The keys of a recovery. For an MPC wallet all are the common keychain.
pub record RecoveryKeys : Type 0 where
  pub user_pub : Value
  pub backup_pub : Value
  pub bitgo_pub : Value

unfoldable pub recovery_keys : Value → Bool → Exec RecoveryKeys
recovery_keys decoded is_mpc = do
  let common_keychain = prop decoded "commonKeychain"
  throw_if (is_mpc && not (truthy common_keychain))
      (plain_error "Missing required key: commonKeychain")
  let user_pub = if is_mpc then common_keychain else prop decoded "userPub"
  let backup_pub = if is_mpc then common_keychain else prop decoded "backupPub"
  let bitgo_pub = if is_mpc then common_keychain else prop decoded "bitgoPub"
  throw_if (not (truthy user_pub) || not (truthy backup_pub) || not (truthy bitgo_pub))
      (plain_error "Missing required keys: userPub, backupPub, bitgoPub")
  pure (record { user_pub = user_pub; backup_pub = backup_pub; bitgo_pub = bitgo_pub })

abbrev consolidation_params : Value → Bool → RecoveryKeys → Value
consolidation_params decoded is_mpc keys = obj (
    spread (entries decoded) (
      ("userKey", if is_mpc then str "" else keys.user_pub)
      ⨾ ("backupKey", if is_mpc then str "" else keys.backup_pub)
      ⨾ ("bitgoKey", keys.bitgo_pub)
      ⨾ end))

abbrev items_of : Value → Items
items_of (arr xs) = xs
items_of _ = nil

-- `result.transactions`, or else `result.txRequests`
unfoldable pub unsigned_txs : Value → Exec Items
unsigned_txs result =
    if truthy (prop result "transactions")
    then pure (items_of (prop result "transactions"))
    else if truthy (prop result "txRequests")
    then pure (items_of (prop result "txRequests"))
    else throw (plain_error "recoverConsolidations did not return expected transactions")

abbrev count : Items → ℕ
count nil = 0
count (cons v vs) = suc (count vs)

abbrev pub recovery_body : RecoveryKeys → Value → Fields
recovery_body keys tx =
    ("userPub", keys.user_pub)
    ⨾ ("backupPub", keys.backup_pub)
    ⨾ ("unsignedSweepPrebuildTx", tx)
    ⨾ ("walletContractAddress", str "")
    ⨾ end

-- `apiKey = ''`: a default, which `undefined` gives way to.
abbrev api_key_of : Value → Value
api_key_of undefined = str ""
api_key_of v = v

abbrev mpc_body : RecoveryRequest → RecoveryKeys → Value → Value
mpc_body req keys tx = obj (
    ("userPub", keys.user_pub)
    ⨾ ("backupPub", keys.backup_pub)
    ⨾ ("apiKey", api_key_of (prop req.decoded "apiKey"))
    ⨾ ("unsignedSweepPrebuildTx", tx)
    ⨾ ("coinSpecificParams", obj end)
    ⨾ ("walletContractAddress", str "")
    ⨾ end)

unfoldable pub sign_consolidation : RecoveryRequest → Bool → RecoveryKeys → Value → Exec Value
sign_consolidation req is_mpc keys tx =
    if is_mpc
    then recovery_mpc req.awm_user_client (mpc_body req keys tx)
    else if req.has_separate_backup_awm
    then recover_with_two_managers req (recovery_body keys tx)
    else recovery_multisig req.awm_user_client (recovery_body keys tx)

-- The transactions are signed one after the other.
unfoldable pub sign_consolidations : RecoveryRequest → Bool → RecoveryKeys → Items → Exec Items
sign_consolidations req is_mpc keys nil = pure nil
sign_consolidations req is_mpc keys (cons tx txs) =
    let rest = sign_consolidations req is_mpc keys txs in
    do signed ← sign_consolidation req is_mpc keys tx; others ← rest; pure (cons signed others)

module _ (w : World) (req : RecoveryRequest) where
  -- In async mode one transaction can be submitted as a job.
  unfoldable pub submit_consolidation : RecoveryKeys → Items → Exec Value
  submit_consolidation keys (cons tx nil) = do
    job ←
        submit_multisig_recovery_job w true req.bridge_client (text (prop req.decoded "coin"))
          (obj (recovery_body keys tx)) (user ∷ [])
    or_throw "async recovery consolidation job submission failed" job
  submit_consolidation keys txs = throw (
      bad_request_error (
        "Async mode supports a single consolidation recovery only, but built "
        <> to_string (num (count txs))))

  unfoldable pub handle_recovery_consolidations : Exec Value
  handle_recovery_consolidations = do
    master_check_recovery_mode req.config
    let is_mpc = is_text (prop req.decoded "multisigType") "tss"
    throw_if (is_mpc && async_enabled req)
        (bad_request_error "Async mode is not yet supported for TSS/MPC recovery consolidations")
    keys ← recovery_keys req.decoded is_mpc
    coin ← lift (get_coin w (text (prop req.decoded "coin")))
    result ← recovery_consolidate_wallets coin (consolidation_params req.decoded is_mpc keys)
    txs ← unsigned_txs result
    if async_enabled req && not req.has_separate_backup_awm
        then submit_consolidation keys txs
        else (do
          signed ← sign_consolidations req is_mpc keys txs
          pure (obj (("signedTxs", arr signed) ⨾ end)))
