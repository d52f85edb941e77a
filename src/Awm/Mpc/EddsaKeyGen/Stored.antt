-- ===== src/Awm/Mpc/EddsaKeyGen/Stored.antt =====
-- What the last step of an EdDSA key generation stores.
use advanced_wallets.Base.{
  String, ◌≡◌, refl, ◌⊎◌, inl, inr, true, false, not, Option, none, some, [],
}
use advanced_wallets.Js.{Value, undefined, str, obj, end, ◌⨾◌, get, prop, strict_eq}
use advanced_wallets.Exec.{Call, http, sdk, World, run, lift}
use advanced_wallets.Exec.Only.{Only, returns, All, All-run, Only-bind, Only-guarded, only_rules}
use advanced_wallets.Shared.Types.{AdvancedWalletManagerConfig}
use advanced_wallets.Shared.HttpClient.{HttpClient}
use advanced_wallets.Shared.CoinFactory.{get_coin}
use advanced_wallets.Awm.KeyProvider.{new_key_provider}
use advanced_wallets.Awm.KeyProvider.Calls.{post_to, Only-post_key}
use advanced_wallets.Awm.Mpc.Calls.{passed, Only-plaintext_key, Only-decrypt_state}
use advanced_wallets.Awm.Mpc.EddsaKeyGen.Shares.{gpg_encrypt, gpg_decrypt}
use advanced_wallets.Awm.Mpc.EddsaKeyGen.Finalize.{
  EddsaFinalizeRequest, found_share, find_key_share, eddsa_key_combine, for_counter_party,
  stored_params, combine_and_store, eddsa_finalize,
}

-- A request that carries no private key, or one that stores the key of the request's source under
-- BitGo's common keychain.
abbrev pub StoresCombined : EddsaFinalizeRequest → Call → Type 0
StoresCombined req (http r) =
    (prop r.body "prv" ≡ undefined)
    ⊎ ((strict_eq (prop r.body "pub") (prop req.bitgo_key_chain "commonKeychain") ≡ true)
        × (prop r.body "source" ≡ str req.source)
        × (prop r.body "coin" ≡ str req.coin)
        × (prop r.body "type" ≡ str "tss"))
StoresCombined req (sdk object method args) = Unit

module _ {P : Call → Type 0}
    (sdk_calls : (object method : String) (args : Value) → P (sdk object method args)) where
  Only-gpg_encrypt : (plaintext key : Value) → Only P (gpg_encrypt plaintext key)
  unfolding gpg_encrypt
  Only-gpg_encrypt plaintext key = search (only_rules, sdk_calls) depth 12

  Only-gpg_decrypt : (encrypted key : Value) → Only P (gpg_decrypt encrypted key)
  unfolding gpg_decrypt
  Only-gpg_decrypt encrypted key = search (only_rules, sdk_calls) depth 12

  Only-combine : (a b c : Value) → Only P (eddsa_key_combine a b c)
  unfolding eddsa_key_combine
  Only-combine a b c = search (only_rules, sdk_calls) depth 12

  Only-for_counter_party :
      (req : EddsaFinalizeRequest) (share : Value) → Only P (for_counter_party req share)
  unfolding for_counter_party
  Only-for_counter_party req share = search (only_rules, Only-gpg_encrypt) depth 12

  Only-found : (req : EddsaFinalizeRequest) (o : Option Value) → Only P (found_share req o)
  Only-found req none = returns _
  Only-found req (some share) = returns _

  Only-find_key_share : (req : EddsaFinalizeRequest) → Only P (find_key_share req)
  unfolding find_key_share
  Only-find_key_share req = search (only_rules, Only-found) depth 8

module _ (w : World) (req : EddsaFinalizeRequest) where
  any_sdk : (object method : String) (args : Value) → StoresCombined req (sdk object method args)
  any_sdk object method args = tt

  agreed :
      (client : HttpClient) (common_keychain : String) (material : Value)
      → not (strict_eq (str common_keychain) (prop req.bitgo_key_chain "commonKeychain")) ≡ false
      → StoresCombined req (post_to client "/key" (stored_params req common_keychain material))
  unfolding post_to get
  agreed client common_keychain material same = inr (passed _ same, refl, refl, refl)

  store-Only :
      (client : HttpClient) (state bitgo_share counter_party_share : Value)
      → Only
          (StoresCombined req)
          (combine_and_store w client req state bitgo_share counter_party_share)
  unfolding combine_and_store
  store-Only client state bitgo_share counter_party_share =
      search
        (
          only_rules,
          Only-guarded,
          Only-combine {P = StoresCombined req} any_sdk,
          Only-for_counter_party {P = StoresCombined req} any_sdk,
          Only-post_key,
          agreed,
        )
        depth 16

  no_prv :
      (client : HttpClient) (encrypted_key : Value)
      → StoresCombined req
          (post_to client "/decryptDataKey" (obj (("encryptedKey", encrypted_key) ⨾ end)))
  unfolding post_to get
  no_prv client encrypted_key = inl refl

  finalize-Only :
      (cfg : AdvancedWalletManagerConfig) → Only (StoresCombined req) (eddsa_finalize w cfg req)
  unfolding eddsa_finalize
  finalize-Only cfg = Only-bind (lift (new_key_provider w cfg)) _ (returns _) λ client.
      Only-bind (lift (get_coin w req.coin)) _ (returns _) λ coin.
        search
          (
            only_rules,
            any_sdk,
            Only-plaintext_key,
            Only-decrypt_state,
            Only-find_key_share {P = StoresCombined req} any_sdk,
            Only-gpg_decrypt {P = StoresCombined req} any_sdk,
            store-Only,
            no_prv,
          )
          depth 24

-- The last step of an EdDSA key generation never stores a key under another keychain than
-- BitGo's: whatever the library and the services answer, every request to the key provider that
-- carries a private key is for the source and the coin of the request, of the type tss, and its
-- public key is the common keychain that BitGo has sent.
pub eddsa_finalize_stores :
    (w : World) (cfg : AdvancedWalletManagerConfig) (req : EddsaFinalizeRequest)
    → All (StoresCombined req) (run w (eddsa_finalize w cfg req) []).1
eddsa_finalize_stores w cfg req =
    All-run w (eddsa_finalize w cfg req) [] (finalize-Only w req cfg) tt
