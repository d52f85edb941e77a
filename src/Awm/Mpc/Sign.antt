-- ===== src/Awm/Mpc/Sign.antt =====
-- src/advancedWalletManager/handlers/ecdsaEddsaSignTransaction.ts: the signing rounds of MPC wallets.
pub mod Inputs
use advanced_wallets.Base.{String, Bool, not, Option, none, some, str_eq, ◌<>◌, if◌then◌else◌}
use advanced_wallets.Js.{Value, str, obj, Fields, end, ◌⨾◌, entries, spread, prop, truthy, text}
use advanced_wallets.Js.Texts.{to_lower_case}
use advanced_wallets.Exec.{
  World, Exec, Coin, sdk, pure, throw, throw_if, lift, perform, plain_error, ◌>>=◌, ◌>>◌,
}
use advanced_wallets.Shared.Types.{AdvancedWalletManagerConfig}
use advanced_wallets.Shared.CoinFactory.{get_coin}
use advanced_wallets.Awm.Utils.{
  retrieve_key_provider_prv_key, handlers_generate_data_key, handlers_decrypt_data_key,
}

-- `req.decoded`; a value that is left out is `undefined`.
pub record MpcSignRequest : Type 0 where
  pub source : String
  pub pub_key : String
  pub coin : String
  pub share_type : String
  pub tx_request : Value
  pub encrypted_data_key : Value
  pub bitgo_to_user_r_share : Value
  pub user_to_bitgo_r_share : Value
  pub encrypted_user_to_bitgo_r_share : Value
  pub bitgo_to_user_commitment : Value
  pub bitgo_public_gpg_key : Value
  pub encrypted_user_gpg_prv_key : Value
  pub encrypted_round1_session : Value
  pub encrypted_round2_session : Value

-- `new EddsaUtils(bitgo, coin)` and `new EcdsaMPCv2Utils(bitgo, coin)`
abbrev pub eddsa_utils : Coin → String
eddsa_utils coin = "EddsaUtils " <> coin.name

abbrev pub ecdsa_mpc_v2_utils : Coin → String
ecdsa_mpc_v2_utils coin = "EcdsaMPCv2Utils " <> coin.name

-- `if (!value) throw new Error(message)`
abbrev pub required : Value → String → Exec (Unit {0})
required v message = throw_if (not (truthy v)) (plain_error message)

abbrev pub with_data_key : Value → Value → Value
with_data_key share data_key =
    obj (spread (entries share) (("encryptedDataKey", prop data_key "encryptedKey") ⨾ end))

module _ (req : MpcSignRequest) (prv : Value) where
  -- What a share is made of: the transaction, the key and the pass phrase, and what the round adds.
  abbrev pub share_args : Value → Fields → Value
  share_args passphrase more =
      obj (("txRequest", req.tx_request) ⨾ ("prv", prv) ⨾ ("walletPassphrase", passphrase) ⨾ more)

  abbrev pub commitment_args : Value → Value
  commitment_args passphrase =
      share_args passphrase (("bitgoGpgPubKey", req.bitgo_public_gpg_key) ⨾ end)

  -- The private key has no part in an R share.
  abbrev pub r_share_args : Value → Value
  r_share_args passphrase = obj (
      ("txRequest", req.tx_request)
      ⨾ ("walletPassphrase", passphrase)
      ⨾ ("encryptedUserToBitgoRShare", req.encrypted_user_to_bitgo_r_share)
      ⨾ end)

  abbrev pub g_share_args : Value
  g_share_args = obj (
      ("txRequest", req.tx_request)
      ⨾ ("prv", prv)
      ⨾ ("bitgoToUserRShare", req.bitgo_to_user_r_share)
      ⨾ ("userToBitgoRShare", req.user_to_bitgo_r_share)
      ⨾ ("bitgoToUserCommitment", req.bitgo_to_user_commitment)
      ⨾ end)

  abbrev pub offline_round_args : String → Value → Value → Value
  offline_round_args key session passphrase = share_args passphrase (
      ("bitgoPublicGpgKey", req.bitgo_public_gpg_key)
      ⨾ ("encryptedUserGpgPrvKey", req.encrypted_user_gpg_prv_key)
      ⨾ (key, session)
      ⨾ end)

module _ (w : World) (cfg : AdvancedWalletManagerConfig) (coin : Coin) (req : MpcSignRequest)
    (prv : Value) where
  unfoldable pub commitment_share : Exec Value
  commitment_share = do
    required req.bitgo_public_gpg_key
        "bitgoPublicGpgKey is required for commitment share generation"
    data_key ← handlers_generate_data_key w "AES-256" cfg
    share ← perform (
        sdk (eddsa_utils coin) "createCommitmentShareFromTxRequest"
          (commitment_args req prv (prop data_key "plaintextKey")))
    pure (with_data_key share data_key)

  unfoldable pub r_share : Exec Value
  r_share = do
    required req.encrypted_user_to_bitgo_r_share
        "encryptedUserToBitgoRShare is required for R share generation"
    required req.encrypted_data_key
        "encryptedDataKey from commitment share generation round is required for R share generation"
    passphrase ← handlers_decrypt_data_key w (text req.encrypted_data_key) cfg
    perform (sdk (eddsa_utils coin) "createRShareFromTxRequest" (r_share_args req prv passphrase))

  unfoldable pub g_share : Exec Value
  g_share = do
    required req.bitgo_to_user_r_share "bitgoToUserRShare is required for G share generation"
    required req.user_to_bitgo_r_share "userToBitgoRShare is required for G share generation"
    required req.bitgo_to_user_commitment "bitgoToUserCommitment is required for G share generation"
    share ← perform (sdk (eddsa_utils coin) "createGShareFromTxRequest" (g_share_args req prv))
    pure (obj (("gShare", share) ⨾ end))

  unfoldable pub mpc_v2_round1 : Exec Value
  mpc_v2_round1 = do
    data_key ← handlers_generate_data_key w "AES-256" cfg
    share ← perform (
        sdk (ecdsa_mpc_v2_utils coin) "createOfflineRound1Share"
          (share_args req prv (prop data_key "plaintextKey") end))
    pure (with_data_key share data_key)

  unfoldable pub mpc_v2_round2 : Exec Value
  mpc_v2_round2 = do
    required req.encrypted_data_key "encryptedDataKey from Round 1 is required for MPCv2 Round 2"
    required req.bitgo_public_gpg_key "bitgoPublicGpgKey is required for MPCv2 Round 2"
    required req.encrypted_user_gpg_prv_key "encryptedUserGpgPrvKey is required for MPCv2 Round 2"
    required req.encrypted_round1_session "encryptedRound1Session is required for MPCv2 Round 2"
    passphrase ← handlers_decrypt_data_key w (text req.encrypted_data_key) cfg
    perform (
        sdk (ecdsa_mpc_v2_utils coin) "createOfflineRound2Share" (
          offline_round_args req prv "encryptedRound1Session" req.encrypted_round1_session
            passphrase))

  unfoldable pub mpc_v2_round3 : Exec Value
  mpc_v2_round3 = do
    required req.encrypted_data_key "encryptedDataKey from Round 1 is required for MPCv2 Round 3"
    required req.bitgo_public_gpg_key "bitgoGpgPubKey is required for MPCv2 Round 3"
    required req.encrypted_user_gpg_prv_key "encryptedUserGpgPrvKey is required for MPCv2 Round 3"
    required req.encrypted_round2_session "encryptedRound2Session is required for MPCv2 Round 3"
    passphrase ← handlers_decrypt_data_key w (text req.encrypted_data_key) cfg
    perform (
        sdk (ecdsa_mpc_v2_utils coin) "createOfflineRound3Share" (
          offline_round_args req prv "encryptedRound2Session" req.encrypted_round2_session
            passphrase))

  unfoldable pub handle_eddsa_signing : Exec Value
  handle_eddsa_signing =
      let share_type = to_lower_case req.share_type in
      if str_eq share_type "commitment"
      then commitment_share
      else if str_eq share_type "r"
      then r_share
      else if str_eq share_type "g"
      then g_share
      else throw (
          plain_error (
            "Share type " <> req.share_type
            <> " not supported for EDDSA, only commitment, G and R share generation is supported."))

  unfoldable pub handle_ecdsa_mpc_v2_signing : Exec Value
  handle_ecdsa_mpc_v2_signing =
      let share_type = to_lower_case req.share_type in
      if str_eq share_type "mpcv2round1"
      then mpc_v2_round1
      else if str_eq share_type "mpcv2round2"
      then mpc_v2_round2
      else if str_eq share_type "mpcv2round3"
      then mpc_v2_round3
      else throw (
          plain_error (
            "Share type " <> req.share_type
            <> " not supported for MPCv2, only MPCv2Round1, MPCv2Round2 and MPCv2Round3 is supported."))

-- `coinInstance.getMPCAlgorithm?.() || MPCType.ECDSA`
abbrev signing_algorithm : Option String → String
signing_algorithm none = "ecdsa"
signing_algorithm (some s) = if str_eq s "" then "ecdsa" else s

module _ (w : World) (cfg : AdvancedWalletManagerConfig) (req : MpcSignRequest) where
  unfoldable pub sign_by_algorithm : Coin → Value → Exec Value
  sign_by_algorithm coin prv =
      let algorithm = signing_algorithm coin.mpc_algorithm in
      if str_eq algorithm "eddsa"
      then handle_eddsa_signing w cfg coin req prv
      else if str_eq algorithm "ecdsa"
      then handle_ecdsa_mpc_v2_signing w cfg coin req prv
      else throw (plain_error ("MPC Algorithm " <> algorithm <> " is not supported."))

  unfoldable pub sign_mpc_transaction : Exec Value
  sign_mpc_transaction = do
    coin ← lift (get_coin w req.coin)
    prv ← retrieve_key_provider_prv_key w req.pub_key req.source cfg
    required prv (
        "Error while MPC signing, missing prv key for pub=" <> req.pub_key <> ", source="
        <> req.source)
    sign_by_algorithm coin prv
