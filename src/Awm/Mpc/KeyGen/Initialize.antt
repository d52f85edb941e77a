-- ===== src/Awm/Mpc/KeyGen/Initialize.antt =====
-- src/advancedWalletManager/handlers/ecdsaMPCV2WalletGenerationInitialize.ts
use advanced_wallets.Base.{String}
use advanced_wallets.Js.{Value, num, str, obj, end, ◌⨾◌, prop}
use advanced_wallets.Exec.{World, Exec, sdk, pure, lift, perform, ◌>>=◌}
use advanced_wallets.Shared.Types.{AdvancedWalletManagerConfig}
use advanced_wallets.Awm.KeyProvider.{new_key_provider}
use advanced_wallets.Awm.Mpc.{party_of, encrypt_state, new_data_key}

abbrev initial_state : String → Value → Value
initial_state source private_key = obj (
    ("round", num 1)
    ⨾ ("sourceGpgPrv", obj (("gpgKey", private_key) ⨾ ("partyId", num (party_of source)) ⨾ end))
    ⨾ end)

module _ (w : World) where
  unfoldable pub ecdsa_mpc_v2_initialize : AdvancedWalletManagerConfig → String → Exec Value
  ecdsa_mpc_v2_initialize cfg source = do
    key_provider ← lift (new_key_provider w cfg)
    gpg_key ← perform (sdk "sdk-core" "generateGPGKeyPair" (str "secp256k1"))
    data_key ← new_data_key w key_provider
    encrypted ←
        encrypt_state (initial_state source (prop gpg_key "privateKey"))
          (prop data_key "plaintextKey")
    pure (
        obj (
          ("gpgPub", prop gpg_key "publicKey")
          ⨾ ("encryptedDataKey", prop data_key "encryptedKey")
          ⨾ ("encryptedData", encrypted)
          ⨾ end))
