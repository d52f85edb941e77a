-- ===== src/Config.antt =====
-- src/initConfig.ts: the configuration of an application, from its environment.
pub mod Environment
pub mod Protocol
pub mod Awm
pub mod Master
pub mod Accepted
use advanced_wallets.Base.{
  String, Bool, true, false, Option, none, some, str_eq, ◌<>◌, if◌then◌else◌,
}
use advanced_wallets.Exec.{Result, ok, err, plain_error}
use advanced_wallets.Shared.Types.{
  AppMode, advanced_wallet_manager, master_express, AdvancedWalletManagerConfig,
  MasterExpressConfig,
}
use advanced_wallets.Config.Environment.{Env, read_env_var, first_set, ◌>>=◌, ◌>>◌}
use advanced_wallets.Config.Awm.{configure_advanced_wallet_manager_mode}
use advanced_wallets.Config.Master.{configure_master_express_mode}

abbrev mode_missing : String
mode_missing =
    "APP_MODE environment variable is required. Set APP_MODE to either \"advanced-wallet-manager\" or \"master-express\""

parse_app_mode : Option String → Result AppMode
parse_app_mode none = err (plain_error mode_missing)
parse_app_mode (some mode) =
    if str_eq mode "master-express"
    then ok master_express
    else if str_eq mode "advanced-wallet-manager"
    then ok advanced_wallet_manager
    else err (
        plain_error (
          "Invalid APP_MODE: " <> mode
          <> ". Must be either \"advanced-wallet-manager\" or \"master-express\""))

unfoldable pub determine_app_mode : Env → Result AppMode
unfolding parse_app_mode
determine_app_mode env =
    parse_app_mode (first_set (read_env_var env "APP_MODE") (read_env_var env "BITGO_APP_MODE"))

-- `Config`, told apart by its `appMode`.
pub data AppConfig : Type 0 where
  manager : AdvancedWalletManagerConfig → AppConfig
  master : MasterExpressConfig → AppConfig

configure : Env → AppMode → Result AppConfig
configure env advanced_wallet_manager =
    configure_advanced_wallet_manager_mode env >>= λ cfg. ok (manager cfg)
configure env master_express = configure_master_express_mode env >>= λ cfg. ok (master cfg)

unfoldable pub init_config : Env → Result AppConfig
unfolding configure
init_config env = determine_app_mode env >>= configure env
