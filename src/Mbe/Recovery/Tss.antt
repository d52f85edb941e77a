-- ===== src/Mbe/Recovery/Tss.antt =====
-- src/masterBitgoExpress/handlers/recoveryWallet.ts: the recovery of MPC wallets.
use advanced_wallets.Base.{true, not, ◌<>◌, if◌then◌else◌}
use advanced_wallets.Js.{
  Value, undefined, bool, str, obj, Fields, end, ◌⨾◌, spread, prop, truthy, text,
}
use advanced_wallets.Exec.{Exec, Coin, sol, pure, throw, throw_if, plain_error, dot, ◌>>=◌, ◌>>◌}
use advanced_wallets.Shared.Errors.{bad_request_error, not_implemented_error, validation_error}
use advanced_wallets.Shared.CoinUtils.{
  is_family, is_eth_like_coin, is_cosmos_like_coin, is_eddsa_coin, is_ecdsa_coin,
}
use advanced_wallets.Shared.RecoveryUtils.{
  get_replay_protection_options, default_gas_limit, default_eip1559,
}
use advanced_wallets.Mbe.AwmClient.Mpc.{recovery_mpc}
use advanced_wallets.Mbe.Callbacks.{assert}
use advanced_wallets.Mbe.Recovery.Ecdsa.{EcdsaRecoveryParams, recover_ecdsa_mpc_v2_wallets}
use advanced_wallets.Mbe.Recovery.Eddsa.{recover_eddsa_wallets}
use advanced_wallets.Mbe.Recovery.Request.{RecoveryRequest, async_enabled}

abbrev sol_options : Value → Fields → Fields
sol_options params options = spread options (
    ("recoveryDestinationAtaAddress", prop params "recoveryDestinationAtaAddress")
    ⨾ ("closeAtaAddress", prop params "closeAtaAddress")
    ⨾ ("tokenContractAddress", prop params "tokenContractAddress")
    ⨾ ("programId", prop params "programId")
    ⨾ end)

abbrev with_durable_nonce : Value → Fields → Fields
with_durable_nonce nonce options =
    if truthy nonce
    then spread options (
        (
          "durableNonce",
          obj (("publicKey", prop nonce "publicKey") ⨾ ("secretKey", prop nonce "secretKey") ⨾ end),
        )
        ⨾ end)
    else options

-- The options of Solana are those of the request; reading them throws where there are none.
unfoldable pub eddsa_options : Coin → Value → Fields → Exec Value
eddsa_options coin params options =
    if is_family coin sol
    then (do
      dot params "recoveryDestinationAtaAddress"
      pure (obj (with_durable_nonce (prop params "durableNonce") (sol_options params options))))
    else pure (obj options)

unfoldable pub handle_eddsa_recovery : RecoveryRequest → Coin → Value → Value → Exec Value
handle_eddsa_recovery req coin common_keychain solana_options = do
  options ← eddsa_options coin solana_options (
      ("bitgoKey", common_keychain)
      ⨾ ("recoveryDestination", prop req.decoded "recoveryDestinationAddress")
      ⨾ ("apiKey", str "")
      ⨾ end)
  unsigned ← recover_eddsa_wallets coin options
  recovery_mpc req.awm_user_client (
      obj (
        ("userPub", common_keychain)
        ⨾ ("backupPub", common_keychain)
        ⨾ ("apiKey", str "")
        ⨾ ("unsignedSweepPrebuildTx", unsigned)
        ⨾ ("coinSpecificParams", solana_options)
        ⨾ ("walletContractAddress", str "")
        ⨾ end))

abbrev eth_like_mpc_params : RecoveryRequest → Value → Value → Value
eth_like_mpc_params req common_keychain specific = obj (
    ("userKey", common_keychain)
    ⨾ ("backupKey", common_keychain)
    ⨾ ("recoveryDestination", prop req.decoded "recoveryDestinationAddress")
    ⨾ ("walletPassphrase", str "")
    ⨾ ("isTss", bool true)
    ⨾ ("walletContractAddress", prop specific "walletContractAddress")
    ⨾ ("eip1559", default_eip1559)
    ⨾ ("replayProtectionOptions", get_replay_protection_options req.env undefined)
    ⨾ ("gasLimit", default_gas_limit)
    ⨾ ("bitgoDestinationAddress", prop specific "bitgoDestinationAddress")
    ⨾ ("apiKey", prop specific "apiKey")
    ⨾ end)

abbrev cosmos_like_mpc_params : RecoveryRequest → Value → Value
cosmos_like_mpc_params req specific = obj (
    ("recoveryDestination", prop req.decoded "recoveryDestinationAddress")
    ⨾ ("rootAddress", prop specific "rootAddress")
    ⨾ end)

unfoldable pub ecdsa_recovery_params : RecoveryRequest → Coin → Value → Exec EcdsaRecoveryParams
ecdsa_recovery_params req coin common_keychain =
    let specific = prop req.decoded "coinSpecificParams" in
    if is_eth_like_coin coin
    then pure (record {
      common_keychain = common_keychain;
      eth_like_params =
          eth_like_mpc_params req common_keychain
            (prop specific "ecdsaEthLikeRecoverySpecificParams");
      cosmos_like_params = undefined;
    })
    else if is_cosmos_like_coin coin
    then pure (record {
      common_keychain = common_keychain;
      eth_like_params = undefined;
      cosmos_like_params =
          cosmos_like_mpc_params req (prop specific "ecdsaCosmosLikeRecoverySpecificParams");
    })
    else throw (
        not_implemented_error
          ("TSS recovery is not supported for coin: " <> text (prop req.decoded "coin") <> "."))

unfoldable pub recover_tss : RecoveryRequest → Coin → Exec Value
recover_tss req coin = do
  throw_if (async_enabled req)
      (bad_request_error "Async mode is not yet supported for TSS/MPC recovery")
  let params = prop req.decoded "tssRecoveryParams"
  assert (truthy params) "TSS recovery parameters are required"
  let common_keychain = prop params "commonKeychain"
  throw_if (not (truthy common_keychain))
      (plain_error "Common keychain is required for TSS recovery")
  if is_eddsa_coin coin
      then handle_eddsa_recovery req coin common_keychain
          (prop (prop req.decoded "coinSpecificParams") "solanaRecoveryOptions")
      else if is_ecdsa_coin coin
      then (do
        ecdsa_params ← ecdsa_recovery_params req coin common_keychain
        recover_ecdsa_mpc_v2_wallets coin req.awm_user_client ecdsa_params)
      else (let name = text (prop req.decoded "coin") in
          throw (
            validation_error (
              "TSS recovery is not supported for coin " <> name <> ". " <> name
              <> " is neither eddsa nor ecdsa.")))
