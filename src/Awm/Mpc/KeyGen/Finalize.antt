-- ===== src/Awm/Mpc/KeyGen/Finalize.antt =====
-- src/advancedWalletManager/handlers/ecdsaMPCV2WalletGenerationFinalize.ts
use advanced_wallets.Base.{String, not, ◌||◌}
use advanced_wallets.Js.{Value, undefined, str, obj, end, ◌⨾◌, prop, truthy, is_nil, strict_eq}
use advanced_wallets.Exec.{
  World, Exec, sdk, error, make, pure, throw_if, lift, perform, plain_error, ◌>>=◌, ◌>>◌,
}
use advanced_wallets.Shared.Types.{AdvancedWalletManagerConfig}
use advanced_wallets.Shared.HttpClient.{HttpClient}
use advanced_wallets.Awm.KeyProvider.{new_key_provider, post_key}
use advanced_wallets.Awm.Mpc.{decrypt_state, plaintext_key}
use advanced_wallets.Awm.Mpc.KeyGen.Messages.{object_conversion, dkg_args, incoming_args}

-- A request for the last step: `req.decoded`.
pub record FinalizeRequest : Type 0 where
  pub source : String
  pub coin : String
  pub encrypted_data : Value
  pub encrypted_data_key : Value
  pub broadcast_messages : Value
  pub bitgo_common_keychain : Value

unfoldable pub check_finalize_state : Value → Exec (Unit {0})
check_finalize_state state = do
  throw_if
      (not (truthy (prop state "bitgoGpgPub")) || not (truthy (prop state "counterPartyGpgPub")))
      (plain_error "BitGo GPG public key or counterparty GPG public key is missing in state")
  throw_if (not (truthy (prop state "sessionData")))
      (plain_error "Session data is missing for finalization")
  throw_if (is_nil (prop (prop state "sessionData") "dkgSessionBytes")) object_conversion

-- What is stored in the key provider.
abbrev pub key_share_params : FinalizeRequest → Value → Value → Value
key_share_params req common_keychain prv = obj (
    ("coin", str req.coin)
    ⨾ ("source", str req.source)
    ⨾ ("pub", common_keychain)
    ⨾ ("prv", prv)
    ⨾ ("type", str "tss")
    ⨾ end)

module _ (w : World) where
  unfoldable pub store_key_share : HttpClient → FinalizeRequest → Value → Exec Value
  store_key_share key_provider req session = do
    material ← perform (sdk "Dkg" "getKeyShare" session)
    common_keychain ← perform (sdk "DklsTypes" "getCommonKeychain" material)
    throw_if (not (strict_eq req.bitgo_common_keychain common_keychain))
        (make error "AssertionError" "Source and Bitgo Common keychains do not match")
    prv ←
        perform (sdk "Buffer" "toString" (obj (("buffer", material) ⨾ ("as", str "base64") ⨾ end)))
    post_key w key_provider (key_share_params req common_keychain prv)
    pure (obj (("source", str req.source) ⨾ ("commonKeychain", common_keychain) ⨾ end))

  unfoldable pub ecdsa_mpc_v2_finalize : AdvancedWalletManagerConfig → FinalizeRequest → Exec Value
  ecdsa_mpc_v2_finalize cfg req = do
    key_provider ← lift (new_key_provider w cfg)
    password ← plaintext_key w key_provider req.encrypted_data_key
    state ← decrypt_state req.encrypted_data password
    check_finalize_state state
    session ←
        perform (sdk "DklsDkg" "restoreSession" (dkg_args req.source (prop state "sessionData")))
    incoming ← perform (
        sdk "DklsComms" "decryptAndVerifyIncomingMessages"
          (incoming_args undefined req.broadcast_messages state))
    messages ← perform (sdk "DklsTypes" "deserializeMessages" incoming)
    perform (
        sdk "Dkg" "handleIncomingMessages"
          (obj (("session", session) ⨾ ("messages", messages) ⨾ end)))
    store_key_share key_provider req session
