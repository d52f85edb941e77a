-- ===== src/Mbe/Middleware.antt =====
-- src/masterBitgoExpress/middleware/middleware.ts: the clients that the handlers find in the
-- request.
pub mod Clients
use advanced_wallets.Base.{String, Bool, not, Option, none, some, if◌then◌else◌}
use advanced_wallets.Js.{Value, str, obj, end, ◌⨾◌}
use advanced_wallets.Exec.{Exn, Result, ok, err, exn_prop}
use advanced_wallets.Shared.Types.{MasterExpressConfig, is_master_express}
use advanced_wallets.Shared.HttpClient.{HttpClient}
use advanced_wallets.Mbe.AwmClient.{AwmClient, create_awm_client, create_awm_backup_client}
use advanced_wallets.Mbe.Bridge.{new_bridge_client}

-- `res.status(500).json({ error, details })`, or `next()` with the clients attached: those for the
-- user's and the backup's keys, and the bridge's in async mode.
pub data Attached : Type 0 where
  refused : Value → Value → Attached
  attached : AwmClient → AwmClient → Option HttpClient → Attached

abbrev pub no_awm_client : Attached
no_awm_client =
    refused (str "Please configure advanced wallet manager configs.")
      (str "Advanced Wallet Manager features will be disabled")

-- `awmBackupClient ?? awmClient`
abbrev pub or_primary : Option AwmClient → AwmClient → AwmClient
or_primary none client = client
or_primary (some backup_client) client = backup_client

attach_bridge : MasterExpressConfig → AwmClient → AwmClient → Result Attached
attach_bridge cfg client backup_client =
    if cfg.async_mode_config.enabled
    then elim (new_bridge_client cfg.async_mode_config.awm_async_url cfg.timeout) [
      | ok bridge ↦ ok (attached client backup_client (some bridge))
      | err e ↦ err e
    ]
    else ok (attached client backup_client none)

attach_backup : MasterExpressConfig → Option String → AwmClient → Result Attached
unfolding attach_bridge
attach_backup cfg coin client = elim (create_awm_backup_client cfg coin) [
  | ok backup_client ↦ attach_bridge cfg client (or_primary backup_client client)
  | err e ↦ ok (
      refused (str "Failed to initialize backup advanced wallet manager client.")
        (exn_prop e "message"))
]

-- `validateMasterExpressConfig`, for `req.config` and `req.params.coin`
unfoldable pub attach_clients : MasterExpressConfig → Option String → Result Attached
unfolding attach_backup
attach_clients cfg coin =
    if not (is_master_express cfg.app_mode)
    then ok (
        refused (str "Invalid configuration")
          (str "Expected req.config to be of type MasterExpressConfig"))
    else elim (create_awm_client cfg coin) [
      | none ↦ ok no_awm_client
      | some client ↦ attach_backup cfg coin client
    ]
