-- ===== src/Awm/Mpc/Calls.antt =====
-- The calls of what the handlers for MPC wallets share.
use advanced_wallets.Base.{String, ◌≡◌, refl, Bool, true, false, not, inl, inr, Option-cases}
use advanced_wallets.Js.{Value, str, obj, end, ◌⨾◌}
use advanced_wallets.Js.Parse.{parse_json}
use advanced_wallets.Exec.{Call, sdk, World, lift, ◌>>=◌}
use advanced_wallets.Exec.Only.{Only, returns, Only-bind, Only-catch, only_rules}
use advanced_wallets.Shared.HttpClient.{HttpClient}
use advanced_wallets.Shared.Types.{AdvancedWalletManagerConfig}
use advanced_wallets.Awm.KeyProvider.{new_key_provider}
use advanced_wallets.Awm.KeyProvider.Calls.{
  get_key_call, post_to, Only-get_key, Only-generate_data_key, Only-decrypt_data_key,
}
use advanced_wallets.Awm.Utils.{
  retrieve_key_provider_prv_key, handlers_generate_data_key, handlers_decrypt_data_key,
}
use advanced_wallets.Awm.Mpc.{decrypt_state, plaintext_key, parsed}

-- Past a guard on a negated test, the test holds.
pub passed : (b : Bool) → not b ≡ false → b ≡ true
passed true h = refl
passed false h = absurd cc

module _ {P : Call → Type 0} where
  pub Only-parsed : (s : String) → Only P (parsed s)
  unfolding parsed
  Only-parsed s = elim (Option-cases (parse_json s)) [
    | inl e ↦ rw (e, parsed) (returns _)
    | inr (v, e) ↦ rw (e, parsed) (returns _)
  ]

  pub Only-plaintext_key :
      (w : World) (client : HttpClient) (encrypted_key : Value)
      → P (post_to client "/decryptDataKey" (obj (("encryptedKey", encrypted_key) ⨾ end)))
      → Only P (plaintext_key w client encrypted_key)
  unfolding plaintext_key
  Only-plaintext_key w client encrypted_key p = search (only_rules, Only-decrypt_data_key)

  pub Only-decrypt_state :
      (encrypted_data password : Value)
      → P (sdk "bitgo" "decrypt" (obj (("input", encrypted_data) ⨾ ("password", password) ⨾ end)))
      → Only P (decrypt_state encrypted_data password)
  unfolding decrypt_state
  Only-decrypt_state encrypted_data password p = search (only_rules, Only-parsed)

module _ {P : Call → Type 0} (w : World) (cfg : AdvancedWalletManagerConfig) where
  pub Only-handlers_generate_data_key :
      (key_type : String)
      → ((client : HttpClient)
          → P (post_to client "/generateDataKey" (obj (("keyType", str key_type) ⨾ end))))
      → Only P (handlers_generate_data_key w key_type cfg)
  unfolding handlers_generate_data_key
  Only-handlers_generate_data_key key_type p =
      Only-catch (lift (new_key_provider w cfg) >>= _) _
        (Only-bind (lift (new_key_provider w cfg)) _ (returns _)
          λ client. Only-generate_data_key w client _ (p client))
        λ e. returns _

  pub Only-handlers_decrypt_data_key :
      (encrypted_data_key : String)
      → ((client : HttpClient)
          → P (
              post_to client "/decryptDataKey"
                (obj (("encryptedKey", str encrypted_data_key) ⨾ end))))
      → Only P (handlers_decrypt_data_key w encrypted_data_key cfg)
  unfolding handlers_decrypt_data_key
  Only-handlers_decrypt_data_key encrypted_data_key p =
      Only-catch (lift (new_key_provider w cfg) >>= _) _
        (Only-bind (lift (new_key_provider w cfg)) _ (returns _)
          λ client. Only-bind _ _ (Only-decrypt_data_key w client _ (p client)) λ a. returns _)
        λ e. returns _

  pub Only-retrieve_key_provider_prv_key :
      (pub_key source : String)
      → ((client : HttpClient) → P (get_key_call client pub_key source))
      → Only P (retrieve_key_provider_prv_key w pub_key source cfg)
  unfolding retrieve_key_provider_prv_key
  Only-retrieve_key_provider_prv_key pub_key source p =
      Only-bind (lift (new_key_provider w _)) _ (returns _) λ client.
        Only-bind _ _
          (Only-catch _ _ (Only-get_key w client pub_key source (p client)) λ e. returns _)
          λ a. returns _
