-- ===== src/Awm/Mpc/KeyGen/Stored.antt =====
-- What the last step of a key generation stores.
use advanced_wallets.Base.{◌≡◌, refl, ◌⊎◌, inl, inr, true, false, not, []}
use advanced_wallets.Js.{Value, undefined, str, obj, end, ◌⨾◌, get, prop, strict_eq}
use advanced_wallets.Exec.{Call, http, sdk, World, run, lift}
use advanced_wallets.Exec.Only.{Only, returns, All, All-run, Only-bind, Only-guarded, only_rules}
use advanced_wallets.Shared.Types.{AdvancedWalletManagerConfig}
use advanced_wallets.Shared.HttpClient.{HttpClient}
use advanced_wallets.Awm.KeyProvider.{new_key_provider}
use advanced_wallets.Awm.KeyProvider.Calls.{post_to, Only-post_key}
use advanced_wallets.Awm.Mpc.Calls.{passed, Only-plaintext_key, Only-decrypt_state}
use advanced_wallets.Awm.Mpc.KeyGen.Finalize.{
  FinalizeRequest, ecdsa_mpc_v2_finalize, store_key_share, check_finalize_state, key_share_params,
}

-- A request that carries no private key, or one that stores the key of the request's source under
-- BitGo's common keychain.
abbrev pub StoresAgreed : FinalizeRequest → Call → Type 0
StoresAgreed req (http r) =
    (prop r.body "prv" ≡ undefined)
    ⊎ ((strict_eq req.bitgo_common_keychain (prop r.body "pub") ≡ true)
        × (prop r.body "source" ≡ str req.source)
        × (prop r.body "coin" ≡ str req.coin))
StoresAgreed req (sdk object method args) = Unit

module _ (w : World) (req : FinalizeRequest) (client : HttpClient) where
  agreed :
      (common_keychain prv : Value)
      → not (strict_eq req.bitgo_common_keychain common_keychain) ≡ false
      → StoresAgreed req (post_to client "/key" (key_share_params req common_keychain prv))
  unfolding post_to get
  agreed common_keychain prv same = inr (passed _ same, refl, refl)

  store-Only : (session : Value) → Only (StoresAgreed req) (store_key_share w client req session)
  unfolding store_key_share
  store-Only session = search (only_rules, Only-guarded, Only-post_key, agreed) depth 14

  no_prv :
      (encrypted_key : Value)
      → StoresAgreed req
          (post_to client "/decryptDataKey" (obj (("encryptedKey", encrypted_key) ⨾ end)))
  unfolding post_to get
  no_prv encrypted_key = inl refl

  Only-check_finalize_state : (state : Value) → Only (StoresAgreed req) (check_finalize_state state)
  unfolding check_finalize_state
  Only-check_finalize_state state = search only_rules depth 9

finalize-Only :
    (w : World) (cfg : AdvancedWalletManagerConfig) (req : FinalizeRequest)
    → Only (StoresAgreed req) (ecdsa_mpc_v2_finalize w cfg req)
unfolding ecdsa_mpc_v2_finalize
finalize-Only w cfg req = Only-bind (lift (new_key_provider w cfg)) _ (returns _) λ client.
    search
      (
        only_rules,
        store-Only w req client,
        no_prv w req client,
        Only-plaintext_key,
        Only-decrypt_state,
        Only-check_finalize_state w req client,
      )
      depth 20

-- The last step of a key generation never stores a key share under another keychain than BitGo's:
-- whatever the library and the services answer, every request to the key provider that carries a
-- private key is for the source and the coin of the request, and its public key is the common
-- keychain that BitGo has sent.
pub mpc_v2_finalize_stores :
    (w : World) (cfg : AdvancedWalletManagerConfig) (req : FinalizeRequest)
    → All (StoresAgreed req) (run w (ecdsa_mpc_v2_finalize w cfg req) []).1
mpc_v2_finalize_stores w cfg req =
    All-run w (ecdsa_mpc_v2_finalize w cfg req) [] (finalize-Only w cfg req) tt
