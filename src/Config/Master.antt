-- ===== src/Config/Master.antt =====
-- The configuration of the master application.
use advanced_wallets.Base.{
  given, String, Bool, true, false, not, ◌&&◌, Option, none, some, str_eq, if◌then◌else◌,
}
use advanced_wallets.Exec.{Result, ok, err, plain_error}
use advanced_wallets.Shared.Types.{
  MasterExpressConfig, AsyncModeConfig, master_express, TlsMode, is_mtls,
}
use advanced_wallets.Shared.AppUtils.{validate_tls_certificates, validate_master_express_config}
use advanced_wallets.Config.Environment.{
  Env, read_env_var, or_text, is_true, env_number, or_number, parse_positive_int, load_cert,
  determine_tls_mode, ◌>>=◌, ◌>>◌,
}
use advanced_wallets.Config.Protocol.{determine_protocol}
use advanced_wallets.Config.Awm.{base_config, fingerprints, require_pair}

-- `if (test) throw new Error(message)`
unfoldable pub refuse : Bool → String → Result (Unit {0})
refuse test message = if test then err (plain_error message) else ok tt

unfoldable pub read_async_mode_config : Env → Bool → Result AsyncModeConfig
read_async_mode_config env is_async_mode = do
  let url = or_text (read_env_var env "AWM_ASYNC_URL") ""
  refuse (is_async_mode && str_eq url "") "AWM_ASYNC_URL is required when ASYNC_MODE is true"
  refuse (is_async_mode && not (given (read_env_var env "BITGO_ACCESS_TOKEN")))
      "BITGO_ACCESS_TOKEN is required when ASYNC_MODE is true"
  poll_interval ← parse_positive_int env "MBE_POLL_INTERVAL_MS" 30000
  job_ttl ← parse_positive_int env "MBE_JOB_TTL_S" 3600
  job_ttl_mpc ← parse_positive_int env "MBE_JOB_TTL_MPC_S" 7200
  ok (record {
    enabled = is_async_mode;
    awm_async_url = url;
    poll_interval_in_ms = poll_interval;
    job_ttl_in_seconds = job_ttl;
    job_ttl_mpc_in_seconds = job_ttl_mpc;
  })

-- `mergeMasterExpressConfigs(env)`, for an environment with the TLS mode and the async mode given.
unfoldable pub merge_master_express_configs : Env → TlsMode → AsyncModeConfig → MasterExpressConfig
merge_master_express_configs env tls async = record {
  base = base_config env master_express "MASTER_EXPRESS_PORT" 3081;
  env = or_text (read_env_var env "BITGO_ENV") "test";
  custom_root_uri = read_env_var env "BITGO_CUSTOM_ROOT_URI";
  disable_env_check = some (is_true (read_env_var env "BITGO_DISABLE_ENV_CHECK"));
  auth_version = some (or_number (env_number env "BITGO_AUTH_VERSION") 2);
  advanced_wallet_manager_url = or_text (read_env_var env "ADVANCED_WALLET_MANAGER_URL") "";
  advanced_wallet_manager_backup_url = read_env_var env "ADVANCED_WALLET_MANAGER_BACKUP_URL";
  awm_server_ca_cert_path = some (or_text (read_env_var env "AWM_SERVER_CA_CERT_PATH") "");
  awm_server_ca_cert = none;
  awm_client_tls_key_path = read_env_var env "AWM_CLIENT_TLS_KEY_PATH";
  awm_client_tls_cert_path = read_env_var env "AWM_CLIENT_TLS_CERT_PATH";
  awm_client_tls_key = read_env_var env "AWM_CLIENT_TLS_KEY";
  awm_client_tls_cert = read_env_var env "AWM_CLIENT_TLS_CERT";
  awm_server_cert_allow_self_signed =
      some (is_true (read_env_var env "AWM_SERVER_CERT_ALLOW_SELF_SIGNED"));
  awm_backup_server_ca_cert_path = read_env_var env "AWM_BACKUP_SERVER_CA_CERT_PATH";
  awm_backup_server_ca_cert = none;
  awm_backup_client_tls_key_path = read_env_var env "AWM_BACKUP_CLIENT_TLS_KEY_PATH";
  awm_backup_client_tls_cert_path = read_env_var env "AWM_BACKUP_CLIENT_TLS_CERT_PATH";
  awm_backup_client_tls_key = read_env_var env "AWM_BACKUP_CLIENT_TLS_KEY";
  awm_backup_client_tls_cert = read_env_var env "AWM_BACKUP_CLIENT_TLS_CERT";
  custom_bitcoin_network = read_env_var env "BITGO_CUSTOM_BITCOIN_NETWORK";
  server_tls_key_path = read_env_var env "SERVER_TLS_KEY_PATH";
  server_tls_cert_path = read_env_var env "SERVER_TLS_CERT_PATH";
  server_tls_key = read_env_var env "SERVER_TLS_KEY";
  server_tls_cert = read_env_var env "SERVER_TLS_CERT";
  tls_mode = tls;
  mtls_allowed_client_fingerprints = fingerprints env;
  client_cert_allow_self_signed = some (is_true (read_env_var env "CLIENT_CERT_ALLOW_SELF_SIGNED"));
  async_mode_config = async;
  bitgo_access_token = read_env_var env "BITGO_ACCESS_TOKEN";
}

-- `mergeMasterExpressConfigs(masterExpressEnvConfig())`
unfoldable pub master_express_env_config : Env → Result MasterExpressConfig
master_express_env_config env = do
  let is_async_mode = is_true (read_env_var env "ASYNC_MODE")
  let url = read_env_var env "ADVANCED_WALLET_MANAGER_URL"
  let backup_url = read_env_var env "ADVANCED_WALLET_MANAGER_BACKUP_URL"
  tls ← determine_tls_mode env
  refuse (not is_async_mode && not (given url))
      "ADVANCED_WALLET_MANAGER_URL environment variable is required and cannot be empty"
  refuse (is_mtls tls && not (given (read_env_var env "AWM_SERVER_CA_CERT_PATH")))
      "AWM_SERVER_CA_CERT_PATH environment variable is required for MTLS mode."
  refuse
      (given backup_url
        && is_mtls tls
        && not (given (read_env_var env "AWM_BACKUP_SERVER_CA_CERT_PATH")))
      "AWM_BACKUP_SERVER_CA_CERT_PATH environment variable is required for MTLS mode when provisioning a backup AWM URL."
  async ← read_async_mode_config env is_async_mode
  ok (merge_master_express_configs env tls async)

abbrev pub with_protocol : Option String → TlsMode → Bool → Option String
with_protocol none tls is_bitgo = none
with_protocol (some url) tls is_bitgo =
    if str_eq url "" then some url else some (determine_protocol url tls is_bitgo)

abbrev pub url_with_protocol : String → TlsMode → String
url_with_protocol url tls = if str_eq url "" then url else determine_protocol url tls false

-- The URLs get the protocol of the TLS mode.
unfoldable pub update_urls : MasterExpressConfig → MasterExpressConfig
update_urls cfg = record cfg {
  custom_root_uri = with_protocol cfg.custom_root_uri cfg.tls_mode true;
  advanced_wallet_manager_url = url_with_protocol cfg.advanced_wallet_manager_url cfg.tls_mode;
  advanced_wallet_manager_backup_url =
      with_protocol cfg.advanced_wallet_manager_backup_url cfg.tls_mode false;
}

unfoldable pub load_server_certs : Env → MasterExpressConfig → Result MasterExpressConfig
load_server_certs env cfg = do
  key ← load_cert env cfg.server_tls_key cfg.server_tls_key_path "TLS private key"
  cert ← load_cert env cfg.server_tls_cert cfg.server_tls_cert_path "TLS certificate"
  validate_tls_certificates key cert
  ok (record cfg { server_tls_key = key; server_tls_cert = cert })

unfoldable pub load_awm_certs : Env → MasterExpressConfig → Result MasterExpressConfig
load_awm_certs env cfg = do
  ca ← load_cert env cfg.awm_server_ca_cert cfg.awm_server_ca_cert_path "AWM server CA certificate"
  key ← load_cert env cfg.awm_client_tls_key cfg.awm_client_tls_key_path "AWM client key"
  cert ← load_cert env cfg.awm_client_tls_cert cfg.awm_client_tls_cert_path "AWM client certificate"
  ok (record cfg { awm_server_ca_cert = ca; awm_client_tls_key = key; awm_client_tls_cert = cert })

unfoldable pub load_awm_backup_certs : Env → MasterExpressConfig → Result MasterExpressConfig
load_awm_backup_certs env cfg = do
  ca ←
      load_cert env cfg.awm_backup_server_ca_cert cfg.awm_backup_server_ca_cert_path
        "AWM backup server CA certificate"
  key ←
      load_cert env cfg.awm_backup_client_tls_key cfg.awm_backup_client_tls_key_path
        "AWM backup client key"
  cert ←
      load_cert env cfg.awm_backup_client_tls_cert cfg.awm_backup_client_tls_cert_path
        "AWM backup client certificate"
  ok (record cfg {
    awm_backup_server_ca_cert = ca;
    awm_backup_client_tls_key = key;
    awm_backup_client_tls_cert = cert;
  })

-- The client certificates for the wallet managers, under mTLS.
unfoldable pub require_client_certs : MasterExpressConfig → Result (Unit {0})
require_client_certs cfg = do
  require_pair cfg.awm_client_tls_key cfg.awm_client_tls_cert
      "AWM_CLIENT_TLS_KEY_PATH and AWM_CLIENT_TLS_CERT_PATH (or AWM_CLIENT_TLS_KEY and AWM_CLIENT_TLS_CERT) are required for outbound mTLS connections to Advanced Wallet Manager. Client certificates cannot reuse server certificates for security reasons."
  refuse (given cfg.advanced_wallet_manager_backup_url && not (given cfg.awm_backup_server_ca_cert))
      "AWM_BACKUP_SERVER_CA_CERT_PATH is required for mTLS communication with the backup Advanced Wallet Manager."
  if given cfg.advanced_wallet_manager_backup_url
      then require_pair cfg.awm_backup_client_tls_key cfg.awm_backup_client_tls_cert
          "AWM_BACKUP_CLIENT_TLS_KEY_PATH and AWM_BACKUP_CLIENT_TLS_CERT_PATH (or AWM_BACKUP_CLIENT_TLS_KEY and AWM_BACKUP_CLIENT_TLS_CERT) are required for mTLS communication with the backup Advanced Wallet Manager."
      else ok tt

-- The last checks, on the configuration that is returned.
unfoldable pub validated : MasterExpressConfig → Result MasterExpressConfig
unfolding require_client_certs
validated cfg = do
  if is_mtls cfg.tls_mode then require_client_certs cfg else ok tt
  validate_master_express_config cfg
  ok cfg

-- The certificates, read from the files that are named.
unfoldable pub load_certs : Env → MasterExpressConfig → Result MasterExpressConfig
load_certs env cfg = do
  served ← if is_mtls cfg.tls_mode then load_server_certs env cfg else ok cfg
  loaded ← load_awm_certs env served
  if given loaded.advanced_wallet_manager_backup_url
      then load_awm_backup_certs env loaded
      else ok loaded

unfoldable pub configure_master_express_mode : Env → Result MasterExpressConfig
unfolding load_certs
configure_master_express_mode env = do
  cfg ← master_express_env_config env
  loaded ← load_certs env (update_urls cfg)
  validated loaded
