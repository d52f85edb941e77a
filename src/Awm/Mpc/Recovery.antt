-- ===== src/Awm/Mpc/Recovery.antt =====
-- src/advancedWalletManager/handlers: ecdsaMPCV2Recovery.ts and eddsaMPCRecovery.ts.
pub mod Modes
use advanced_wallets.Base.{
  ℕ, zero, suc, ◌≡◌, refl, String, Bool, true, false, not, ◌||◌, ◌<>◌, List, [], ◌∷◌, if◌then◌else◌,
}
use advanced_wallets.Js.{
  Value, undefined, null, bool, num, str, obj, end, ◌⨾◌, arr, nil, cons, prop, truthy, text,
}
use advanced_wallets.Js.Json.{json}
use advanced_wallets.Js.Parse.{parse_int}
use advanced_wallets.Js.Texts.{split_colons, first_chars}
use advanced_wallets.Exec.{
  World, Exec, Coin, near, polkadot, sui, ada, sol, sdk, pure, throw, throw_if, lift, catch,
  perform, plain_error, exn_prop, ◌>>=◌, ◌>>◌,
}
use advanced_wallets.Shared.Types.{AdvancedWalletManagerConfig}
use advanced_wallets.Shared.Errors.{bad_request_error, not_implemented_error}
use advanced_wallets.Shared.CoinUtils.{
  is_family, is_ecdsa_coin, is_eth_like_coin, is_cosmos_like_coin,
}
use advanced_wallets.Shared.CoinFactory.{get_coin}
use advanced_wallets.Awm.Utils.{
  build_backup_kms_config, retrieve_key_provider_prv_key, check_recovery_mode,
}
use advanced_wallets.Awm.Mpc.{parsed}

-- `Buffer.from(value, encoding)`
abbrev pub buffer_from : Value → String → Exec Value
buffer_from v encoding = perform (sdk "Buffer" "from" (arr (cons v (cons (str encoding) nil))))

-- `try { ... } catch (error) { throw new BadRequestError(...) }`
abbrev or_hash_failure : String → Exec Value → Exec Value
or_hash_failure kind m = catch m λ e. throw (
    bad_request_error (
      "Failed to construct "
      <> kind
      <> " transaction from message hex: "
      <> text (exn_prop e "message")))

abbrev eth_hash : Value → Exec Value
eth_hash tx_buffer = do
  tx ← perform (sdk "TransactionFactory" "fromSerializedData" tx_buffer)
  perform (
      sdk "TypedTransaction" "getMessageToSign"
        (obj (("transaction", tx) ⨾ ("hashMessage", bool true) ⨾ end)))

abbrev cosmos_hash : Coin → Value → Exec Value
cosmos_hash coin tx_buffer = do
  hash ← perform (sdk coin.name "getHashFunction" undefined)
  updated ← perform (sdk "Hash" "update" (obj (("hash", hash) ⨾ ("data", tx_buffer) ⨾ end)))
  perform (sdk "Hash" "digest" updated)

unfoldable pub get_message_hash : Coin → String → Exec Value
get_message_hash coin tx_hex = do
  tx_buffer ← buffer_from (str tx_hex) "hex"
  if is_eth_like_coin coin
      then or_hash_failure "eth" (eth_hash tx_buffer)
      else if is_cosmos_like_coin coin
      then or_hash_failure "cosmos" (cosmos_hash coin tx_buffer)
      else throw (
          not_implemented_error (
            "Advanced Wallet Manager does not support Mpc V2 recovery for coin family: "
            <> coin.family_text))

-- `parts[n]`
part : ℕ → List String → Value
part n [] = undefined
part zero (s ∷ parts) = str s
part (suc n) (s ∷ parts) = part n parts

abbrev recid_of : List String → Value
recid_of [] = null
recid_of (s ∷ parts) = parse_int s

-- The parts of a signature `recid:r:s:y`.
unfoldable pub signature_of : String → Value
unfolding part
signature_of signature =
    let parts = split_colons signature in
    obj (
      ("recid", recid_of parts)
      ⨾ ("r", part 1 parts)
      ⨾ ("s", part 2 parts)
      ⨾ ("y", part 3 parts)
      ⨾ end)

-- `new DklsDsg.Dsg(keyShare, party, 'm/0', hash)`
abbrev new_dsg : Value → ℕ → Value → Exec Value
new_dsg key_share party hash = perform (
    sdk "DklsDsg" "new Dsg"
      (arr (cons key_share (cons (num party) (cons (str "m/0") (cons hash nil))))))

-- The signature of both key shares, checked against the public key.
unfoldable pub sign_hash : Value → Value → Value → String → Exec Value
sign_hash user_prv backup_prv tx_hash pub_key = do
  user_buffer ← buffer_from user_prv "base64"
  backup_buffer ← buffer_from backup_prv "base64"
  user_dsg ← new_dsg user_buffer 0 tx_hash
  backup_dsg ← new_dsg backup_buffer 1 tx_hash
  signature ← perform (
      sdk "DklsUtils" "executeTillRound" (arr (cons (num 5) (cons user_dsg (cons backup_dsg nil)))))
  perform (
      sdk "DklsUtils" "verifyAndConvertDklsSignature" (
        arr (
          cons tx_hash (
            cons signature
              (cons (str pub_key) (cons (str "m/0") (cons undefined (cons (bool false) nil))))))))

module _ (w : World) (cfg : AdvancedWalletManagerConfig) where
  -- The arguments are the coin of the path, the transaction and the public key.
  unfoldable pub ecdsa_mpc_v2_recovery : String → String → String → Exec Value
  ecdsa_mpc_v2_recovery coin_name tx_hex pub_key = do
    coin ← lift (get_coin w coin_name)
    throw_if (not (is_ecdsa_coin coin)) (
        bad_request_error
          (coin.family_text <> " is not ECDSA. Use other recovery endpoints instead."))
    user_prv ← retrieve_key_provider_prv_key w pub_key "user" cfg
    backup_prv ← retrieve_key_provider_prv_key w pub_key "backup" (build_backup_kms_config cfg)
    tx_hash ← get_message_hash coin tx_hex
    signature ← sign_hash user_prv backup_prv tx_hash pub_key
    pure (
        obj (
          ("txHex", str tx_hex)
          ⨾ ("stringifiedSignature", str (json (signature_of (text signature))))
          ⨾ end))

-- `params.request`
pub record EddsaRecoveryRequest : Type 0 where
  pub common_keychain : String
  pub signable_hex : String
  pub derivation_path : String

abbrev is_supported : Coin → Bool
is_supported coin =
    is_family coin near
    || is_family coin polkadot
    || is_family coin sui
    || is_family coin ada
    || is_family coin sol

-- The transaction builder, and the public key of the account.
unfoldable pub setup_transaction_builder : Coin → String → String → Exec (Value × Value)
setup_transaction_builder coin signable_hex account_id = do
  throw_if (not (is_supported coin)) (plain_error ("Unsupported coin family: " <> coin.family_text))
  perform (sdk (coin.family_text <> " module") "register" undefined)
  static_coin ← perform (sdk "coins" "get" (str coin.family_text))
  key_pair ←
      perform
        (sdk (coin.family_text <> " module") "new KeyPair" (obj (("pub", str account_id) ⨾ end)))
  factory ←
      perform (sdk (coin.family_text <> " module") "new TransactionBuilderFactory" static_coin)
  if is_family coin sol
      then (do
        builder ← perform (
            sdk "TransactionBuilderFactory" "from"
              (obj (("factory", factory) ⨾ ("transaction", str signable_hex) ⨾ end)))
        address ← perform (sdk "KeyPair" "getAddress" key_pair)
        pure (builder, address))
      else (do
        buffer ← buffer_from (str signable_hex) "hex"
        encoded ←
            perform
              (sdk "Buffer" "toString" (obj (("buffer", buffer) ⨾ ("as", str "base64") ⨾ end)))
        builder ← perform (
            sdk "TransactionBuilderFactory" "from"
              (obj (("factory", factory) ⨾ ("transaction", encoded) ⨾ end)))
        keys ← perform (sdk "KeyPair" "getKeys" key_pair)
        pure (builder, prop keys "pub"))

-- The signature is added to the transaction, which is built once more.
unfoldable pub sign_and_build : Value → Value → Value → Value → String → Exec Value
sign_and_build builder public_key user backup derivation_path = do
  unsigned ← perform (sdk "TransactionBuilder" "build" builder)
  signature ← perform (
      sdk "EDDSAMethods" "getTSSSignature"
        (arr (cons user (cons backup (cons (str derivation_path) (cons unsigned nil))))))
  perform (
      sdk "TransactionBuilder" "addSignature" (
        obj (
          ("builder", builder)
          ⨾ ("publicKey", obj (("pub", public_key) ⨾ end))
          ⨾ ("signature", signature)
          ⨾ end)))
  signed ← perform (sdk "TransactionBuilder" "build" builder)
  serialized ← perform (sdk "Transaction" "toBroadcastFormat" signed)
  pure (obj (("txHex", serialized) ⨾ end))

module _ (w : World) (cfg : AdvancedWalletManagerConfig) where
  unfoldable pub sign_eddsa_recovery_transaction : EddsaRecoveryRequest → Coin → Exec Value
  sign_eddsa_recovery_transaction request coin = do
    check_recovery_mode cfg
    hd_tree ← perform (sdk "Ed25519Bip32HdTree" "initialize" undefined)
    mpc ← perform (sdk "Eddsa" "initialize" hd_tree)
    derived ← perform (
        sdk "Eddsa" "deriveUnhardened" (
          obj (
            ("mpc", mpc)
            ⨾ ("commonKeychain", str request.common_keychain)
            ⨾ ("path", str request.derivation_path)
            ⨾ end)))
    built ← setup_transaction_builder coin request.signable_hex (first_chars 64 (text derived))
    user_prv ← retrieve_key_provider_prv_key w request.common_keychain "user" cfg
    backup_prv ← retrieve_key_provider_prv_key w request.common_keychain "backup" cfg
    throw_if (not (truthy user_prv) || not (truthy backup_prv))
        (plain_error "Missing required private keys for recovery")
    user ← parsed (text user_prv)
    backup ← parsed (text backup_prv)
    sign_and_build built.0 built.1 user backup request.derivation_path

parts_example :
    signature_of "1:ab:cd:ef"
    ≡ obj (("recid", num 1) ⨾ ("r", str "ab") ⨾ ("s", str "cd") ⨾ ("y", str "ef") ⨾ end)
unfolding signature_of part split_colons parse_int
parts_example = refl
