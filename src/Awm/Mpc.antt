-- ===== src/Awm/Mpc.antt =====
-- src/advancedWalletManager/handlers: the handlers for MPC wallets, and what they share.
pub mod Calls
pub mod EddsaKeyGen
pub mod KeyGen
pub mod Recovery
pub mod Sign
use advanced_wallets.Base.{ℕ, String, Option, none, some, str_eq, if◌then◌else◌}
use advanced_wallets.Js.{
  Value, num, str, obj, end, ◌⨾◌, prop, text, Items, nil, cons, arr, Fields, field,
}
use advanced_wallets.Js.Json.{json}
use advanced_wallets.Js.Parse.{parse_json}
use advanced_wallets.Exec.{World, Exec, sdk, error, make, pure, throw, perform, ◌>>=◌}
use advanced_wallets.Shared.HttpClient.{HttpClient}
use advanced_wallets.Awm.KeyProvider.{generate_data_key, decrypt_data_key}

-- `MPCv2PartiesEnum` of the SDK: user 0, backup 1, BitGo 2.
abbrev pub party_of : String → ℕ
party_of source = if str_eq source "user" then 0 else 1

abbrev pub counter_party_of : String → ℕ
counter_party_of source = if str_eq source "user" then 1 else 0

-- `JSON.parse(text)`
unfoldable pub parsed : String → Exec Value
parsed s = elim (parse_json s) [
  | none ↦ throw (make error "SyntaxError" "Unexpected token in JSON")
  | some v ↦ pure v
]

-- `bitgo.encrypt({ input: JSON.stringify(state), password })`
abbrev pub encrypt_state : Value → Value → Exec Value
encrypt_state state password =
    perform
      (sdk "bitgo" "encrypt" (obj (("input", str (json state)) ⨾ ("password", password) ⨾ end)))

-- `JSON.parse(await bitgo.decrypt({ input, password }))`
unfoldable pub decrypt_state : Value → Value → Exec Value
unfolding parsed
decrypt_state encrypted_data password = do
  input ←
      perform
        (sdk "bitgo" "decrypt" (obj (("input", encrypted_data) ⨾ ("password", password) ⨾ end)))
  parsed (text input)

abbrev values_of : Fields → Items
values_of end = nil
values_of (field k v fs) = cons v (values_of fs)

-- `Object.values(v || {})`
abbrev pub object_values : Value → Value
object_values (obj fs) = arr (values_of fs)
object_values _ = arr nil

module _ (w : World) (key_provider : HttpClient) where
  abbrev pub new_data_key : Exec Value
  new_data_key = generate_data_key w key_provider (obj (("keyType", str "AES-256") ⨾ end))

  -- `(await keyProvider.decryptDataKey({ encryptedKey })).plaintextKey`
  unfoldable pub plaintext_key : Value → Exec Value
  plaintext_key encrypted_key = do
    decrypted ← decrypt_data_key w key_provider (obj (("encryptedKey", encrypted_key) ⨾ end))
    pure (prop decrypted "plaintextKey")
