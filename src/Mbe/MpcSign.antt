-- ===== src/Mbe/MpcSign.antt =====
-- src/masterBitgoExpress/handlers: ecdsa.ts, eddsa.ts, transactionRequests.ts and
-- handleSignAndSendTxRequest.ts. The functions that the SDK calls back keep the answers of earlier
-- rounds in variables: each takes them and returns them.
pub mod Rounds
use advanced_wallets.Base.{String, Bool, not, ◌&&◌, ◌||◌, Option, ◌<>◌, if◌then◌else◌}
use advanced_wallets.Js.{
  Value, undefined, str, obj, end, ◌⨾◌, entries, spread, prop, truthy, text, is_text, strict_eq,
  or_else, coalesce, arr, nil, optional, to_string,
}
use advanced_wallets.Exec.{
  World, Exec, Coin, sdk, pure, throw, throw_if, lift, perform, plain_error, dot, ◌>>=◌, ◌>>◌,
}
use advanced_wallets.Shared.CoinUtils.{is_eddsa_coin, is_ecdsa_coin}
use advanced_wallets.Shared.CoinFactory.{get_coin}
use advanced_wallets.Mbe.AwmClient.{AwmClient}
use advanced_wallets.Mbe.AwmClient.Mpc.{
  sign_mpc_commitment, sign_mpc_r_share, sign_mpc_g_share, sign_mpc_v2_round1, sign_mpc_v2_round2,
  sign_mpc_v2_round3,
}
use advanced_wallets.Mbe.Wallets.{item, key_id_index, get_keychain, get_wallet}

-- The variables of `createEcdsaMPCv2CustomSigners`.
pub record RoundResponses : Type 0 where
  pub round1 : Value
  pub round2 : Value

abbrev pub no_responses : RoundResponses
no_responses = record { round1 = undefined; round2 = undefined }

module _ (client : AwmClient) (source : String) (common_keychain : Value) where
  unfoldable pub custom_mpc_v2_round1 : RoundResponses → Value → Exec (RoundResponses × Value)
  custom_mpc_v2_round1 s params = do
    response ← sign_mpc_v2_round1 client source common_keychain (entries params)
    pure (record s { round1 = response }, response)

  unfoldable pub custom_mpc_v2_round2 : RoundResponses → Value → Exec (RoundResponses × Value)
  custom_mpc_v2_round2 s params = do
    throw_if (not (truthy s.round1)) (plain_error "Round 1 must be completed before Round 2")
    response ← sign_mpc_v2_round2 client source common_keychain (
        spread (entries params) (
          ("encryptedDataKey", prop s.round1 "encryptedDataKey")
          ⨾ ("encryptedRound1Session", prop s.round1 "encryptedRound1Session")
          ⨾ ("encryptedUserGpgPrvKey", prop s.round1 "encryptedUserGpgPrvKey")
          ⨾ ("bitgoPublicGpgKey", prop params "bitgoPublicGpgKey")
          ⨾ end))
    pure (record s { round2 = response }, response)

  unfoldable pub custom_mpc_v2_round3 : RoundResponses → Value → Exec Value
  custom_mpc_v2_round3 s params = do
    throw_if (not (truthy s.round2)) (plain_error "Round 2 must be completed before Round 3")
    data_key ← dot s.round1 "encryptedDataKey"
    sign_mpc_v2_round3 client source common_keychain (
        spread (entries params) (
          ("encryptedDataKey", data_key)
          ⨾ ("encryptedRound2Session", prop s.round2 "encryptedRound2Session")
          ⨾ ("encryptedUserGpgPrvKey", prop s.round1 "encryptedUserGpgPrvKey")
          ⨾ ("bitgoPublicGpgKey", prop params "bitgoPublicGpgKey")
          ⨾ end))

  -- The variable of `createEddsaCustomSigningFunctions` is the answer to the commitment.
  unfoldable pub custom_commitment_generator : Value → Exec Value
  custom_commitment_generator params = do
    throw_if (not (truthy (prop params "bitgoGpgPubKey")))
        (plain_error "bitgoGpgPubKey is required for commitment share generation")
    sign_mpc_commitment client (
        ("txRequest", prop params "txRequest")
        ⨾ ("bitgoPublicGpgKey", prop params "bitgoGpgPubKey")
        ⨾ ("source", str source)
        ⨾ ("pub", common_keychain)
        ⨾ end)

  unfoldable pub custom_r_share_generator : Value → Value → Exec Value
  custom_r_share_generator commitment params = do
    throw_if (not (truthy commitment))
        (plain_error "Commitment must be completed before R-share generation")
    response ← sign_mpc_r_share client (
        ("txRequest", prop params "txRequest")
        ⨾ ("encryptedUserToBitgoRShare", prop params "encryptedUserToBitgoRShare")
        ⨾ ("encryptedDataKey", prop commitment "encryptedDataKey")
        ⨾ ("source", str source)
        ⨾ ("pub", common_keychain)
        ⨾ end)
    share ← dot response "rShare"
    pure (obj (("rShare", share) ⨾ end))

  unfoldable pub custom_g_share_generator : Value → Value → Exec Value
  custom_g_share_generator commitment params = do
    throw_if (not (truthy commitment))
        (plain_error "Commitment must be completed before G-share generation")
    response ← sign_mpc_g_share client (
        ("txRequest", prop params "txRequest")
        ⨾ ("bitgoToUserRShare", prop params "bitgoToUserRShare")
        ⨾ ("userToBitgoRShare", prop params "userToBitgoRShare")
        ⨾ ("bitgoToUserCommitment", prop params "bitgoToUserCommitment")
        ⨾ ("source", str source)
        ⨾ ("pub", common_keychain)
        ⨾ end)
    dot response "gShare"

-- What the functions for the SDK close over.
abbrev signer_closure : String → Value → Value
signer_closure source common_keychain =
    obj (("source", str source) ⨾ ("commonKeychain", common_keychain) ⨾ end)

-- The SDK signs with the functions and sends the transaction.
unfoldable pub sign_and_send_ecdsa_mpc_v2 : Coin → Value → Value → String → Value → Exec Value
sign_and_send_ecdsa_mpc_v2 coin wallet tx_request source common_keychain = perform (
    sdk ("EcdsaMPCv2Utils " <> coin.name) "signEcdsaMPCv2TssUsingExternalSigner" (
      obj (
        ("wallet", wallet)
        ⨾ ("txRequest", tx_request)
        ⨾ ("signers", signer_closure source common_keychain)
        ⨾ ("requestType", str "tx")
        ⨾ end)))

unfoldable pub handle_eddsa_signing : Coin → Value → Value → Value → Exec Value
handle_eddsa_signing coin wallet tx_request common_keychain = perform (
    sdk ("EddsaUtils " <> coin.name) "signEddsaTssUsingExternalSigner" (
      obj (
        ("wallet", wallet)
        ⨾ ("txRequest", tx_request)
        ⨾ ("signers", signer_closure "user" common_keychain)
        ⨾ end)))

-- `(txRequest.transactions ?? [])[0]?.signedTx`
abbrev first_signed : Value → Value
first_signed tx_request =
    prop (item (coalesce (prop tx_request "transactions") (arr nil)) 0) "signedTx"

-- What is answered for a signed transaction: its pending approval, or the transaction.
unfoldable pub signed_response : Coin → Value → Exec Value
signed_response coin signed = do
  request_id ← dot signed "txRequestId"
  throw_if (not (truthy request_id)) (plain_error "txRequestId missing from signed transaction")
  throw_if (not (is_text (prop signed "apiVersion") "full"))
      (plain_error "Only TxRequest API version full is supported.")
  if is_text (prop signed "state") "pendingApproval"
      then (do
        approval ← perform (
            sdk ("PendingApprovals " <> coin.name) "get"
              (obj (("id", prop signed "pendingApprovalId") ⨾ end)))
        shown ← perform (sdk "PendingApproval" "toJSON" approval)
        pure (obj (("pendingApproval", shown) ⨾ ("txRequest", signed) ⨾ end)))
      else pure (
          obj (
            ("txRequest", signed)
            ⨾ ("txid", prop (first_signed signed) "id")
            ⨾ ("tx", prop (first_signed signed) "tx")
            ⨾ end))

unfoldable pub sign_and_send_tx_requests : Coin → Value → Value → Value → Exec Value
sign_and_send_tx_requests coin wallet tx_request keychain = do
  let common_keychain = prop keychain "commonKeychain"
  throw_if (not (truthy common_keychain)) (
      plain_error (
        "Common keychain not found for keychain "
        <> text (or_else (prop keychain "pub") (str "unknown"))))
  signed ←
      if is_eddsa_coin coin
      then handle_eddsa_signing coin wallet tx_request common_keychain
      else if is_ecdsa_coin coin
      then sign_and_send_ecdsa_mpc_v2 coin wallet tx_request (text (prop keychain "source"))
          common_keychain
      else throw
          (plain_error ("Unsupported MPC algorithm: " <> to_string (optional coin.mpc_algorithm)))
  signed_response coin signed

-- The parameters of the path, and `req.decoded`.
pub record SignAndSendRequest : Type 0 where
  pub coin : String
  pub wallet_id : String
  pub tx_request_id : String
  pub params : Value

abbrev is_advanced : Value → Bool
is_advanced wallet =
    is_text (prop wallet "type") "advanced"
    || (is_text (prop wallet "type") "cold" && is_text (prop wallet "subType") "onPrem")

unfoldable pub handle_sign_and_send_tx_request : World → SignAndSendRequest → Exec Value
handle_sign_and_send_tx_request w req = do
  coin ← lift (get_coin w req.coin)
  wallet ← get_wallet coin req.wallet_id
  throw_if (not (truthy wallet)) (plain_error ("Wallet " <> req.wallet_id <> " not found"))
  throw_if (not (is_advanced wallet)) (plain_error "Wallet is not an advanced wallet")
  let source = prop req.params "source"
  keychain ← get_keychain coin (item (prop wallet "keyIds") (key_id_index source))
  throw_if (not (truthy keychain))
      (plain_error ("Signing keychain for " <> text source <> " not found"))
  throw_if
      (truthy (prop req.params "commonKeychain")
        && not (strict_eq (prop keychain "commonKeychain") (prop req.params "commonKeychain")))
      (plain_error
        ("Common keychain provided does not match the keychain on wallet for " <> text source))
  tx_request ← perform (
      sdk "sdk-core" "getTxRequest"
        (obj (("walletId", prop wallet "id") ⨾ ("txRequestId", str req.tx_request_id) ⨾ end)))
  throw_if (not (truthy tx_request))
      (plain_error ("TxRequest " <> req.tx_request_id <> " not found"))
  sign_and_send_tx_requests coin wallet tx_request keychain
