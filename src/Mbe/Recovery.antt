-- ===== src/Mbe/Recovery.antt =====
-- src/masterBitgoExpress/handlers/recoveryWallet.ts
pub mod Request
pub mod Ecdsa
pub mod Eddsa
pub mod Tss
pub mod Multisig
pub mod Consolidations
pub mod HalfSigned
pub mod Split
use advanced_wallets.Base.{
  String, Bool, true, false, not, ◌&&◌, ◌||◌, Option, none, some, List, [], ◌∷◌, ◌<>◌,
  if◌then◌else◌,
}
use advanced_wallets.Js.{
  Value, undefined, bool, str, obj, Fields, end, ◌⨾◌, arr, nil, entries, spread, prop, truthy, text,
  or_else, coalesce,
}
use advanced_wallets.Js.Json.{json}
use advanced_wallets.Exec.{
  World, Exec, Coin, sol, sdk, pure, throw, throw_if, lift, perform, plain_error, dot, ◌>>=◌, ◌>>◌,
}
use advanced_wallets.Shared.Types.{MasterExpressConfig, KeySource, user}
use advanced_wallets.Shared.Errors.{bad_request_error, not_implemented_error, validation_error}
use advanced_wallets.Shared.HttpClient.{HttpClient}
use advanced_wallets.Shared.CoinUtils.{
  is_family, is_utxo_coin, is_eth_like_coin, is_cosmos_like_coin, is_eddsa_coin, is_ecdsa_coin,
  is_formatted_offline_vault_tx_info,
}
use advanced_wallets.Shared.CoinFactory.{get_coin}
use advanced_wallets.Shared.RecoveryUtils.{
  get_replay_protection_options, default_gas_price, default_gas_limit, default_eip1559,
}
use advanced_wallets.Awm.KeyProvider.{flagged}
use advanced_wallets.Awm.Utils.{recovery_disabled}
use advanced_wallets.Mbe.AwmClient.{AwmClient}
use advanced_wallets.Mbe.AwmClient.Mpc.{
  recovery_multisig_user_half_sign, recovery_multisig, recovery_mpc,
}
use advanced_wallets.Mbe.Submit.{submit_multisig_recovery_job}
use advanced_wallets.Mbe.SendMany.{pending_job}
use advanced_wallets.Mbe.Callbacks.{assert}
use advanced_wallets.Mbe.Recovery.Ecdsa.{EcdsaRecoveryParams, recover_ecdsa_mpc_v2_wallets}
use advanced_wallets.Mbe.Recovery.Eddsa.{recover_eddsa_wallets}
use advanced_wallets.Mbe.Recovery.Request.{
  RecoveryRequest, master_check_recovery_mode, validate_recovery_params,
}
use advanced_wallets.Mbe.Recovery.Tss.{recover_tss}
use advanced_wallets.Mbe.Recovery.Multisig.{recover_standard}

module _ (w : World) (req : RecoveryRequest) where
  unfoldable pub handle_recovery_wallet : Exec Value
  handle_recovery_wallet = do
    master_check_recovery_mode req.config
    coin ← lift (get_coin w (text (prop req.decoded "coin")))
    let is_tss = truthy (prop req.decoded "isTssRecovery")
    validate_recovery_params coin (prop req.decoded "coinSpecificParams") is_tss
    if is_tss then recover_tss req coin else recover_standard w req coin
