-- ===== src/Awm/Mpc/EddsaKeyGen/Shares.antt =====
-- src/advancedWalletManager/handlers/utils/utils.ts: OpenPGP; and the numbers of the parties.
use advanced_wallets.Base.{ℕ, String, false, str_eq, if◌then◌else◌}
use advanced_wallets.Js.{Value, bool, str, obj, end, ◌⨾◌, arr, nil, cons, prop}
use advanced_wallets.Exec.{Exec, sdk, pure, perform, ◌>>=◌}

unfoldable pub gpg_encrypt : Value → Value → Exec Value
gpg_encrypt plaintext key = do
  message ← perform (sdk "openpgp" "createMessage" (obj (("text", plaintext) ⨾ end)))
  public_key ← perform (sdk "openpgp" "readKey" (obj (("armoredKey", key) ⨾ end)))
  perform (
      sdk "openpgp" "encrypt" (
        obj (
          ("message", message)
          ⨾ ("encryptionKeys", public_key)
          ⨾ ("format", str "armored")
          ⨾ (
            "config",
            obj (
                ("rejectCurves", arr nil)
                ⨾ ("showVersion", bool false)
                ⨾ ("showComment", bool false)
                ⨾ end),
          )
          ⨾ end)))

unfoldable pub gpg_decrypt : Value → Value → Exec Value
gpg_decrypt encrypted key = do
  message ← perform (sdk "openpgp" "readMessage" (obj (("armoredMessage", encrypted) ⨾ end)))
  private_key ← perform (sdk "openpgp" "readPrivateKey" (obj (("armoredKey", key) ⨾ end)))
  decrypted ← perform (
      sdk "openpgp" "decrypt" (
        obj (
          ("message", message)
          ⨾ ("decryptionKeys", arr (cons private_key nil))
          ⨾ ("format", str "utf8")
          ⨾ end)))
  pure (prop decrypted "data")

-- 1 is the user, 2 the backup, 3 BitGo.
abbrev pub index_of : String → ℕ
index_of source = if str_eq source "user" then 1 else 2

abbrev pub counter_party_index : String → ℕ
counter_party_index source = if str_eq source "user" then 2 else 1
