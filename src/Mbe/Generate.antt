-- ===== src/Mbe/Generate.antt =====
-- src/masterBitgoExpress/handlers/handleGenerateWallet.ts, and the callback of walletGenerationCallbacks.ts
-- that makes the keys of a multisig wallet. The callbacks of MPC wallets are passed to the SDK as
-- the clients that they close over.
pub mod Keys
use advanced_wallets.Base.{
  String, Bool, true, false, not, ◌&&◌, ◌||◌, Option, none, some, List, [], ◌∷◌, str_eq, ◌<>◌,
  if◌then◌else◌,
}
use advanced_wallets.Js.{
  Value, undefined, str, obj, Fields, end, ◌⨾◌, prop, entries, set, spread, is_text, truthy, text,
}
use advanced_wallets.Exec.{
  Exn, Result, ok, err, World, Coin, Exec, sdk, pure, throw, lift, perform, throw_if, plain_error,
  ◌>>=◌, ◌>>◌,
}
use advanced_wallets.Shared.Types.{user, backup}
use advanced_wallets.Shared.Errors.{bad_request_error}
use advanced_wallets.Shared.CoinFactory.{get_coin}
use advanced_wallets.Mbe.AwmClient.{AwmClient, create_independent_keychain}
use advanced_wallets.Mbe.Bridge.{multisig_keygen}
use advanced_wallets.Mbe.Submit.{submit_job_via_bridge_client}
use advanced_wallets.Mbe.SendMany.{MasterRequest, async_enabled, pending_job}

-- `createOnchainKeyGenCallback`: the function that the SDK calls for each key.
unfoldable pub onchain_key_gen_callback : AwmClient → AwmClient → String → Exec Value
onchain_key_gen_callback user_client backup_client source =
    if str_eq source "user" || str_eq source "backup"
    then (do
      keychain ←
          create_independent_keychain (if str_eq source "user" then user_client else backup_client)
            (str source) undefined
      pure (
          obj (
            ("pub", prop keychain "pub")
            ⨾ ("type", str "independent")
            ⨾ ("source", str source)
            ⨾ end)))
    else throw (plain_error ("Unexpected key source for onchain key generation: " <> source))

client_closure : AwmClient → AwmClient → Value
client_closure user_client backup_client =
    obj (("user", str user_client.base_url) ⨾ ("backup", str backup_client.base_url) ⨾ end)

-- `none` stands for an onchain multisig wallet.
unfoldable pub key_gen_callbacks : MasterRequest → Option String → Result Fields
unfolding client_closure
key_gen_callbacks req none =
    ok (("createKeychainCallback", client_closure req.awm_user_client req.awm_backup_client) ⨾ end)
key_gen_callbacks req (some algorithm) =
    if str_eq algorithm "ecdsa"
    then ok
        (("ecdsaMPCv2Callbacks", client_closure req.awm_user_client req.awm_backup_client) ⨾ end)
    else if str_eq algorithm "eddsa"
    then ok (("eddsaCallbacks", client_closure req.awm_user_client req.awm_backup_client) ⨾ end)
    else err (
        bad_request_error
          ("Unsupported MPC algorithm: " <> algorithm <> ". Supported algorithms: ecdsa, eddsa"))

-- `{ ...result, wallet: result.wallet.toJSON() }`: a wallet is its JSON.
abbrev with_wallet : Value → Value
with_wallet result = obj (set (entries result) "wallet" (prop result "wallet"))

unfoldable pub handle_generate_evm_key_ring_wallet : World → MasterRequest → Exec Value
handle_generate_evm_key_ring_wallet w req = do
  throw_if (async_enabled req)
      (bad_request_error "Async mode is not yet supported for EVM keyring wallet generation")
  coin ← lift (get_coin w (text (prop req.decoded "coin")))
  throw_if (not coin.is_evm) (
      bad_request_error (
        "EVM keyring wallet generation is not supported for coin "
        <> text (prop req.decoded "coin")))
  result ← perform (sdk coin.name "wallets.generateWallet" req.decoded)
  pure (with_wallet result)

-- `isTss ? baseCoin.getMPCAlgorithm() : undefined`
abbrev algorithm_of : Bool → Coin → Option String
algorithm_of tss coin = if tss then coin.mpc_algorithm else none

-- The handler after the job submission: the wallet is generated right away.
unfoldable pub generate_now : World → MasterRequest → Bool → Exec Value
generate_now w req tss = do
  coin ← lift (get_coin w (text (prop req.decoded "coin")))
  throw_if (tss && not coin.supports_tss) (
      bad_request_error
        ("MPC wallet generation is not supported for coin " <> text (prop req.decoded "coin")))
  callbacks ← lift (key_gen_callbacks req (algorithm_of tss coin))
  result ← perform (
      sdk coin.name "wallets.generateWalletWithExternalSigner" (
        obj (
          spread
            (spread (entries req.decoded) (
              ("type", str "advanced")
              ⨾ ("multisigType", str (if tss then "tss" else "onchain"))
              ⨾ end))
            callbacks)))
  pure (with_wallet result)

unfoldable pub pending_or_now : World → MasterRequest → Option String → Exec Value
pending_or_now w req (some job_id) = pure (pending_job job_id)
pending_or_now w req none = generate_now w req false

unfoldable pub submit_keygen_job : World → MasterRequest → Exec (Option String)
submit_keygen_job w req =
    submit_job_via_bridge_client w (async_enabled req) req.bridge_client (record {
      path = "/api/" <> req.coin <> "/key/independent";
      body = req.decoded;
      sources = user ∷ backup ∷ [];
      operation_type = multisig_keygen;
      idempotency_key = none;
    })

unfoldable pub handle_generate_wallet : World → MasterRequest → Exec Value
handle_generate_wallet w req =
    if truthy (prop req.decoded "evmKeyRingReferenceWalletId")
    then handle_generate_evm_key_ring_wallet w req
    else if is_text (prop req.decoded "multisigType") "tss"
    then (do
      throw_if (async_enabled req)
          (bad_request_error "Async mode is not yet supported for TSS wallet generation")
      generate_now w req true)
    else submit_keygen_job w req >>= pending_or_now w req
