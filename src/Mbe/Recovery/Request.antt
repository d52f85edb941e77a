-- ===== src/Mbe/Recovery/Request.antt =====
-- src/masterBitgoExpress/handlers/recoveryWallet.ts: the request and its validation.
use advanced_wallets.Base.{String, Bool, not, ◌&&◌, Option, ◌<>◌, if◌then◌else◌}
use advanced_wallets.Js.{Value, prop, truthy}
use advanced_wallets.Exec.{Exec, Coin, sol, pure, throw, throw_if, ◌>>◌}
use advanced_wallets.Shared.Types.{MasterExpressConfig}
use advanced_wallets.Shared.Errors.{not_implemented_error, validation_error}
use advanced_wallets.Shared.HttpClient.{HttpClient}
use advanced_wallets.Shared.CoinUtils.{
  is_family, is_utxo_coin, is_eth_like_coin, is_cosmos_like_coin, is_eddsa_coin, is_ecdsa_coin,
}
use advanced_wallets.Awm.KeyProvider.{flagged}
use advanced_wallets.Awm.Utils.{recovery_disabled}
use advanced_wallets.Mbe.AwmClient.{AwmClient}

-- The request with its clients, `req.decoded`, and `bitgo.env`. The two clients are one object where
-- no wallet manager for the backup is configured.
pub record RecoveryRequest : Type 0 where
  pub config : MasterExpressConfig
  pub awm_user_client : AwmClient
  pub awm_backup_client : AwmClient
  pub has_separate_backup_awm : Bool
  pub bridge_client : Option HttpClient
  pub env : String
  pub decoded : Value

abbrev pub async_enabled : RecoveryRequest → Bool
async_enabled req = req.config.async_mode_config.enabled

-- `checkRecoveryMode` of the master application
unfoldable pub master_check_recovery_mode : MasterExpressConfig → Exec (Unit {0})
master_check_recovery_mode config = throw_if (not (flagged config.recovery_mode)) recovery_disabled

abbrev lacks : Value → String → Bool
lacks params key = not (truthy (prop params key))

unfoldable pub validate_mpc_params : Coin → Value → Exec (Unit {0})
validate_mpc_params coin params =
    if is_eth_like_coin coin
    then throw_if (lacks params "ecdsaEthLikeRecoverySpecificParams") (
        validation_error
          "ECDSA ETH-like recovery specific parameters are required for MPC recovery")
    else if is_cosmos_like_coin coin
    then throw_if (lacks params "ecdsaCosmosLikeRecoverySpecificParams") (
        validation_error
          "ECDSA Cosmos-like recovery specific parameters are required for MPC recovery")
    else throw (
        not_implemented_error
          ("MPC V2 recovery is not supported for coin family: " <> coin.family_text))

unfoldable pub validate_recovery_params : Coin → Value → Bool → Exec (Unit {0})
validate_recovery_params coin params is_mpc_recovery =
    if not (truthy params)
    then pure tt
    else if is_utxo_coin coin
    then throw_if (not is_mpc_recovery && lacks params "utxoRecoveryOptions")
        (validation_error "UTXO recovery options are required for UTXO coin recovery")
    else if is_eddsa_coin coin && is_family coin sol
    then throw_if (lacks params "solanaRecoveryOptions")
        (validation_error "Solana recovery options are required for EdDSA coin recovery")
    else (do
      if is_ecdsa_coin coin && is_mpc_recovery then validate_mpc_params coin params else pure tt
      throw_if (not is_mpc_recovery && is_eth_like_coin coin && lacks params "evmRecoveryOptions")
          (validation_error "EVM recovery options are required for ETH-like coin recovery"))
