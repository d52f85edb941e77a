-- ===== src/Mbe/Middleware/Clients.antt =====
-- The clients that the middleware attaches under an accepted configuration.
use advanced_wallets.Base.{given, String, ◌≡◌, ap, ◌∙◌, Option, none, some, if◌then◌else◌}
use mathlib.Core.Option as Option
use advanced_wallets.Exec.{ok}
use advanced_wallets.Shared.Types.{MasterExpressConfig}
use advanced_wallets.Config.Environment.{Env, Holds-ok, read_env_var, or_text}
use advanced_wallets.Config.Master.{configure_master_express_mode, url_with_protocol}
use advanced_wallets.Config.Accepted.{Accepted, configure-Accepted}
use advanced_wallets.Mbe.AwmClient.{
  AwmClient, new_awm_client, create_awm_client, backup_config, client_of,
}
use advanced_wallets.Mbe.Middleware.{no_awm_client, attach_clients}

-- The client for the backup's keys, where there is a second manager.
abbrev pub backup_of : MasterExpressConfig → Option String → Option AwmClient
backup_of cfg coin =
    if given cfg.advanced_wallet_manager_backup_url
    then some (client_of (backup_config cfg) coin)
    else none

-- In async mode a configuration without a wallet manager's URL is accepted, but the middleware then
-- refuses every request with status 500, before a handler can submit a job to the bridge.
pub async_config_refused :
    (env : Env) (cfg : MasterExpressConfig) (coin : Option String)
    → configure_master_express_mode env ≡ ok cfg
    → read_env_var env "ADVANCED_WALLET_MANAGER_URL" ≡ none
    → attach_clients cfg coin ≡ ok no_awm_client
unfolding attach_clients create_awm_client new_awm_client
async_config_refused env cfg coin configured unset =
    let a : Accepted env cfg = Holds-ok _ cfg (configure-Accepted env) configured in
    let empty : cfg.advanced_wallet_manager_url ≡ "" =
      a.url ∙ ap (λ url. url_with_protocol (or_text url "") cfg.tls_mode) unset in
    rw (a.for_master, empty)
