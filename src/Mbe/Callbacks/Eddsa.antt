-- ===== src/Mbe/Callbacks/Eddsa.antt =====
-- `createEddsaKeyGenCallbacks`.
use advanced_wallets.Base.{String, true, false, not, ◌||◌, str_eq, if◌then◌else◌}
use advanced_wallets.Js.{
  Value, undefined, bool, str, obj, end, ◌⨾◌, entries, prop, truthy, is_text, spread,
}
use advanced_wallets.Exec.{Exec, pure, dot, ◌>>=◌, ◌>>◌}
use advanced_wallets.Mbe.AwmClient.{AwmClient}
use advanced_wallets.Mbe.AwmClient.Mpc.{init_mpc_key_generation, finalize_mpc_key_generation}
use advanced_wallets.Mbe.Callbacks.{assert, to_mpc_state}

-- `{ ...bitgoKeychain, commonKeychain, source: 'bitgo', type: 'tss', …, keyShares }`
abbrev bitgo_keychain_of : Value → Value
bitgo_keychain_of keychain = obj (
    spread (entries keychain) (
      ("commonKeychain", prop keychain "commonKeychain")
      ⨾ ("source", str "bitgo")
      ⨾ ("type", str "tss")
      ⨾ ("verifiedVssProof", bool true)
      ⨾ ("isBitGo", bool true)
      ⨾ ("isTrust", bool false)
      ⨾ ("keyShares", prop keychain "keyShares")
      ⨾ end))

-- `{ ...counterPartyKeyShare, from, to: source }`
abbrev counter_party_share : Value → String → Value
counter_party_share share source = obj (
    spread (entries share) (
      ("from", str (if str_eq source "user" then "backup" else "user")) ⨾ ("to", str source) ⨾ end))

module _ (user_client backup_client : AwmClient) where
  unfoldable pub eddsa_initialize_callback : Value → Exec Value
  eddsa_initialize_callback bitgo_public_gpg_key = do
    user_init ← init_mpc_key_generation user_client "user" bitgo_public_gpg_key undefined
    user_key ← dot (prop user_init "bitgoPayload") "gpgKey"
    backup_init ← init_mpc_key_generation backup_client "backup" bitgo_public_gpg_key user_key
    assert (is_text (prop (prop user_init "bitgoPayload") "from") "user")
        "User payload is not from user"
    backup_from ← dot (prop backup_init "bitgoPayload") "from"
    assert (is_text backup_from "backup") "Backup payload is not from backup"
    assert (truthy (prop backup_init "counterPartyKeyShare"))
        "Backup key share for the user is missing from the initialization response"
    pure (
        obj (
          ("userGpgPublicKey", user_key)
          ⨾ ("backupGpgPublicKey", prop (prop backup_init "bitgoPayload") "gpgKey")
          ⨾ ("userToBitgoKeyShare", prop user_init "bitgoPayload")
          ⨾ ("backupToBitgoKeyShare", prop backup_init "bitgoPayload")
          ⨾ ("backupToUserCounterPartyKeyShare", prop backup_init "counterPartyKeyShare")
          ⨾ ("userState", to_mpc_state user_init)
          ⨾ ("backupState", to_mpc_state backup_init)
          ⨾ end))

  -- The parameters are the object that the SDK passes; its source is given as a text.
  unfoldable pub eddsa_finalize_callback : String → Value → Exec Value
  eddsa_finalize_callback source params = do
    let keychain = prop params "bitgoKeychain"
    assert (truthy (prop keychain "commonKeychain")) "Missing commonKeychain in BitGo keychain"
    assert (truthy (prop keychain "keyShares")) "Missing keyShares in BitGo keychain"
    response ←
        finalize_mpc_key_generation (if str_eq source "user" then user_client else backup_client) (
          obj (
            ("source", str source)
            ⨾ ("coin", prop params "coin")
            ⨾ ("encryptedData", prop (prop params "state") "encryptedData")
            ⨾ ("encryptedDataKey", prop (prop params "state") "encryptedDataKey")
            ⨾ ("bitGoKeychain", bitgo_keychain_of keychain)
            ⨾ ("counterPartyGPGKey", prop params "counterPartyGPGKey")
            ⨾ (
              "counterPartyKeyShare",
              counter_party_share (prop params "counterPartyKeyShare") source,
            )
            ⨾ end))
    assert (not (str_eq source "user") || truthy (prop response "counterpartyKeyShare"))
        "Key share for backup missing from user finalize response"
    pure (
        obj (
          ("commonKeychain", prop response "commonKeychain")
          ⨾ ("counterpartyKeyShare", prop response "counterpartyKeyShare")
          ⨾ end))
