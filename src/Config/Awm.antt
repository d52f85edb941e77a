-- ===== src/Config/Awm.antt =====
-- The configuration of the wallet manager.
use advanced_wallets.Base.{
  given, ℕ, String, not, ◌||◌, ◌*◌, Option, none, some, List, str_eq, if◌then◌else◌,
}
use advanced_wallets.Js.Texts.{split_commas}
use advanced_wallets.Exec.{Result, ok, err, plain_error}
use advanced_wallets.Shared.Types.{
  AdvancedWalletManagerConfig, BaseConfig, advanced_wallet_manager, AppMode, TlsMode, is_mtls,
  SigningMode,
}
use advanced_wallets.Shared.AppUtils.{validate_tls_certificates}
use advanced_wallets.Config.Environment.{
  Env, read_env_var, or_text, is_true, env_number, or_number, load_cert, read_cert_file,
  determine_tls_mode, determine_signing_mode, ◌>>=◌, ◌>>◌,
}

abbrev pub fingerprints : Env → Option (List String)
fingerprints env = elim (read_env_var env "MTLS_ALLOWED_CLIENT_FINGERPRINTS") [
  | none ↦ none
  | some list ↦ some (split_commas list)
]

-- The entries that both applications have; the default is kept where the variable is not set.
abbrev pub base_config : Env → AppMode → String → ℕ → BaseConfig
base_config env mode port_variable default_port = record {
  app_mode = mode;
  port = or_number (env_number env port_variable) default_port;
  bind = or_text (read_env_var env "BIND") "localhost";
  ipc = read_env_var env "IPC";
  timeout = or_number (env_number env "TIMEOUT") (305 * 1000);
  keep_alive_timeout = env_number env "KEEP_ALIVE_TIMEOUT";
  headers_timeout = env_number env "HEADERS_TIMEOUT";
  http_logger_file = or_text (read_env_var env "HTTP_LOGFILE") "logs/http-access.log";
  recovery_mode = some (is_true (read_env_var env "RECOVERY_MODE"));
}

-- `mergeAkmConfigs(env)`, for an environment with the URL and the two modes given.
unfoldable pub merge_akm_configs :
    Env → String → TlsMode → SigningMode → AdvancedWalletManagerConfig
merge_akm_configs env url tls signing = record {
  base = base_config env advanced_wallet_manager "ADVANCED_WALLET_MANAGER_PORT" 3080;
  key_provider_url = url;
  key_provider_server_ca_cert_path = read_env_var env "KEY_PROVIDER_SERVER_CA_CERT_PATH";
  key_provider_server_ca_cert = none;
  key_provider_client_tls_key_path = read_env_var env "KEY_PROVIDER_CLIENT_TLS_KEY_PATH";
  key_provider_client_tls_cert_path = read_env_var env "KEY_PROVIDER_CLIENT_TLS_CERT_PATH";
  key_provider_client_tls_key = read_env_var env "KEY_PROVIDER_CLIENT_TLS_KEY";
  key_provider_client_tls_cert = read_env_var env "KEY_PROVIDER_CLIENT_TLS_CERT";
  key_provider_server_cert_allow_self_signed =
      some (is_true (read_env_var env "KEY_PROVIDER_SERVER_CERT_ALLOW_SELF_SIGNED"));
  backup_kms_url = read_env_var env "BACKUP_KMS_URL";
  backup_kms_server_ca_cert_path = read_env_var env "BACKUP_KMS_SERVER_CA_CERT_PATH";
  backup_kms_server_ca_cert = read_env_var env "BACKUP_KMS_SERVER_CA_CERT";
  backup_kms_client_tls_key_path = read_env_var env "BACKUP_KMS_CLIENT_TLS_KEY_PATH";
  backup_kms_client_tls_cert_path = read_env_var env "BACKUP_KMS_CLIENT_TLS_CERT_PATH";
  backup_kms_client_tls_key = read_env_var env "BACKUP_KMS_CLIENT_TLS_KEY";
  backup_kms_client_tls_cert = read_env_var env "BACKUP_KMS_CLIENT_TLS_CERT";
  backup_kms_server_cert_allow_self_signed =
      some (is_true (read_env_var env "BACKUP_KMS_SERVER_CERT_ALLOW_SELF_SIGNED"));
  server_tls_key_path = read_env_var env "SERVER_TLS_KEY_PATH";
  server_tls_cert_path = read_env_var env "SERVER_TLS_CERT_PATH";
  server_tls_key = read_env_var env "SERVER_TLS_KEY";
  server_tls_cert = read_env_var env "SERVER_TLS_CERT";
  tls_mode = tls;
  mtls_allowed_client_fingerprints = fingerprints env;
  client_cert_allow_self_signed = some (is_true (read_env_var env "CLIENT_CERT_ALLOW_SELF_SIGNED"));
  signing_mode = signing;
}

abbrev url_required : String
url_required = "KEY_PROVIDER_URL environment variable is required and cannot be empty"

env_config_for : Env → Option String → Result AdvancedWalletManagerConfig
env_config_for env none = err (plain_error url_required)
env_config_for env (some url) = do
  tls ← determine_tls_mode env
  signing ← determine_signing_mode env
  ok (merge_akm_configs env url tls signing)

-- `mergeAkmConfigs(advancedWalletManagerEnvConfig())`
unfoldable pub advanced_wallet_manager_env_config : Env → Result AdvancedWalletManagerConfig
unfolding env_config_for
advanced_wallet_manager_env_config env = env_config_for env (read_env_var env "KEY_PROVIDER_URL")

abbrev client_certs_required : String
client_certs_required =
    "KEY_PROVIDER_CLIENT_TLS_KEY_PATH and KEY_PROVIDER_CLIENT_TLS_CERT_PATH (or KEY_PROVIDER_CLIENT_TLS_KEY and KEY_PROVIDER_CLIENT_TLS_CERT) are required for outbound mTLS connections to key provider. Client certificates cannot reuse server certificates for security reasons."

abbrev backup_certs_required : String
backup_certs_required =
    "BACKUP_KMS_CLIENT_TLS_KEY_PATH and BACKUP_KMS_CLIENT_TLS_CERT_PATH (or BACKUP_KMS_CLIENT_TLS_KEY and BACKUP_KMS_CLIENT_TLS_CERT) are required for outbound mTLS connections to backup KMS when BACKUP_KMS_URL is configured."

-- `if (!key || !cert) throw new Error(message)`
abbrev pub require_pair : Option String → Option String → String → Result (Unit {0})
require_pair key cert message =
    if not (given key) || not (given cert) then err (plain_error message) else ok tt

ca_path : Option String → Result String
ca_path none =
    err (plain_error "KEY_PROVIDER_SERVER_CA_CERT_PATH is required when TLS mode is MTLS")
ca_path (some path) =
    if str_eq path ""
    then err (plain_error "KEY_PROVIDER_SERVER_CA_CERT_PATH is required when TLS mode is MTLS")
    else ok path

-- The certificates of the server, and those for the key provider; under mTLS only.
unfoldable pub load_key_provider_certs :
    Env → AdvancedWalletManagerConfig → Result AdvancedWalletManagerConfig
unfolding ca_path
load_key_provider_certs env cfg = do
  path ← ca_path cfg.key_provider_server_ca_cert_path
  server_key ← load_cert env cfg.server_tls_key cfg.server_tls_key_path "TLS private key"
  server_cert ← load_cert env cfg.server_tls_cert cfg.server_tls_cert_path "TLS certificate"
  ca ← read_cert_file env path "Key provider server CA certificate"
  key ←
      load_cert env cfg.key_provider_client_tls_key cfg.key_provider_client_tls_key_path
        "Key provider client key"
  cert ←
      load_cert env cfg.key_provider_client_tls_cert cfg.key_provider_client_tls_cert_path
        "Key provider client certificate"
  require_pair key cert client_certs_required
  validate_tls_certificates server_key server_cert
  ok (record cfg {
    server_tls_key = server_key;
    server_tls_cert = server_cert;
    key_provider_server_ca_cert = some ca;
    key_provider_client_tls_key = key;
    key_provider_client_tls_cert = cert;
  })

unfoldable pub load_backup_kms_certs :
    Env → AdvancedWalletManagerConfig → Result AdvancedWalletManagerConfig
load_backup_kms_certs env cfg = do
  ca ←
      load_cert env cfg.backup_kms_server_ca_cert cfg.backup_kms_server_ca_cert_path
        "Backup KMS server CA certificate"
  key ←
      load_cert env cfg.backup_kms_client_tls_key cfg.backup_kms_client_tls_key_path
        "Backup KMS client key"
  cert ←
      load_cert env cfg.backup_kms_client_tls_cert cfg.backup_kms_client_tls_cert_path
        "Backup KMS client certificate"
  if is_mtls cfg.tls_mode then require_pair key cert backup_certs_required else ok tt
  ok (record cfg {
    backup_kms_server_ca_cert = ca;
    backup_kms_client_tls_key = key;
    backup_kms_client_tls_cert = cert;
  })

unfoldable pub configure_advanced_wallet_manager_mode : Env → Result AdvancedWalletManagerConfig
configure_advanced_wallet_manager_mode env = do
  cfg ← advanced_wallet_manager_env_config env
  loaded ← if is_mtls cfg.tls_mode then load_key_provider_certs env cfg else ok cfg
  if given loaded.backup_kms_url then load_backup_kms_certs env loaded else ok loaded
