-- ===== src/Awm/Mpc/EddsaKeyGen/Initialize.antt =====
-- src/advancedWalletManager/handlers/eddsaMPCWalletGenerationInitialize.ts
use advanced_wallets.Base.{String, Bool, true, not, ◌&&◌, str_eq, if◌then◌else◌}
use advanced_wallets.Js.{
  Value, undefined, num, str, obj, end, ◌⨾◌, arr, nil, cons, prop, truthy, text,
}
use advanced_wallets.Js.Texts.{first_chars}
use advanced_wallets.Exec.{World, Exec, sdk, pure, throw_if, lift, perform, ◌>>=◌, ◌>>◌}
use advanced_wallets.Shared.Types.{AdvancedWalletManagerConfig}
use advanced_wallets.Shared.Errors.{bad_request_error}
use advanced_wallets.Awm.KeyProvider.{new_key_provider}
use advanced_wallets.Awm.Mpc.{encrypt_state, new_data_key}
use advanced_wallets.Awm.Mpc.EddsaKeyGen.Shares.{gpg_encrypt, index_of}

abbrev from_hex : Value → Exec Value
from_hex v = perform (sdk "Buffer" "from" (arr (cons v (cons (str "hex") nil))))

-- `Buffer.concat([Buffer.from(a, 'hex'), Buffer.from(b, 'hex')]).toString('hex')`
unfoldable pub hex_concat : Value → Value → Exec Value
hex_concat a b = do
  first ← from_hex a
  second ← from_hex b
  joined ← perform (sdk "Buffer" "concat" (arr (cons first (cons second nil))))
  perform (sdk "Buffer" "toString" (obj (("buffer", joined) ⨾ ("as", str "hex") ⨾ end)))

abbrev pub counter_party : String → String
counter_party source = if str_eq source "user" then "backup" else "user"

-- `keyShare.yShares[counterPartyIndex]`
abbrev counter_party_y_share : String → Value → Value
counter_party_y_share source key_share =
    prop (prop key_share "yShares") (if str_eq source "user" then "2" else "1")

-- `req.decoded`; the counter party's key may be `undefined`.
pub record InitializeRequest : Type 0 where
  pub source : String
  pub bitgo_gpg_pub : Value
  pub counter_party_gpg_pub : Value

abbrev private_share_of : Value → Exec Value
private_share_of y_share = hex_concat (prop y_share "u") (prop y_share "chaincode")

-- A key share for another party, its private share encrypted where `encrypts` says so.
unfoldable pub key_share_for : String → String → Bool → Value → Value → Value → Value → Exec Value
key_share_for source to encrypts gpg_pub y_share public_share gpg_key = do
  private_share ← private_share_of y_share
  sent ← if encrypts then gpg_encrypt private_share gpg_pub else pure private_share
  proof ← perform (
      sdk "sdk-core" "createShareProof" (
        arr (
          cons (prop gpg_key "privateKey")
            (cons (str (first_chars 64 (text private_share))) (cons (str "eddsa") nil)))))
  pure (
      obj (
        ("from", str source)
        ⨾ ("to", str to)
        ⨾ ("publicShare", public_share)
        ⨾ ("privateShare", sent)
        ⨾ ("privateShareProof", proof)
        ⨾ ("vssProof", prop y_share "v")
        ⨾ ("gpgKey", prop gpg_key "publicKey")
        ⨾ end))

abbrev unless_given : Value → Value → Value
unless_given gpg_pub share = if truthy gpg_pub then undefined else share

abbrev if_given : Value → Value → Value
if_given gpg_pub share = if truthy gpg_pub then share else undefined

abbrev pub initialize_payload : InitializeRequest → Value → Value → Value → Value
initialize_payload req gpg_key private_share counter_party_share = obj (
    ("sourceGpgPub", prop gpg_key "publicKey")
    ⨾ ("sourceGpgPrv", prop gpg_key "privateKey")
    ⨾ ("sourcePrivateShare", private_share)
    ⨾ ("counterPartyKeyShare", unless_given req.counter_party_gpg_pub counter_party_share)
    ⨾ end)

module _ (w : World) (cfg : AdvancedWalletManagerConfig) where
  unfoldable pub eddsa_initialize : InitializeRequest → Exec Value
  eddsa_initialize req = do
    throw_if (str_eq req.source "backup" && not (truthy req.counter_party_gpg_pub))
        (bad_request_error "gpgKey is required on backup key share generation")
    key_provider ← lift (new_key_provider w cfg)
    mpc ← perform (sdk "Eddsa" "initialize" undefined)
    key_share ← perform (
        sdk "Eddsa" "keyShare"
          (arr (cons mpc (cons (num (index_of req.source)) (cons (num 2) (cons (num 3) nil))))))
    gpg_key ← perform (sdk "sdk-core" "generateGPGKeyPair" (str "secp256k1"))
    public_share ←
        hex_concat (prop (prop key_share "uShare") "y") (prop (prop key_share "uShare") "chaincode")
    bitgo_key_share ←
        key_share_for req.source "bitgo" true req.bitgo_gpg_pub
          (prop (prop key_share "yShares") "3") public_share gpg_key
    counter_party_key_share ←
        key_share_for req.source (counter_party req.source) (truthy req.counter_party_gpg_pub)
          req.counter_party_gpg_pub (counter_party_y_share req.source key_share) public_share
          gpg_key
    data_key ← new_data_key w key_provider
    encrypted ←
        encrypt_state
          (initialize_payload req gpg_key (prop key_share "uShare") counter_party_key_share)
          (prop data_key "plaintextKey")
    pure (
        obj (
          ("encryptedDataKey", prop data_key "encryptedKey")
          ⨾ ("encryptedData", encrypted)
          ⨾ ("bitgoPayload", bitgo_key_share)
          ⨾ ("counterPartyKeyShare", if_given req.counter_party_gpg_pub counter_party_key_share)
          ⨾ end))
