-- ===== src/Shared/Types.antt =====
-- src/shared/types/index.ts: the configuration of both applications.
use advanced_wallets.Base.{ℕ, String, Bool, true, false, Option, List}

pub data TlsMode : Type 0 where
  disabled mtls : TlsMode

pub data SigningMode : Type 0 where
  local external : SigningMode

pub data KeySource : Type 0 where
  user backup bitgo : KeySource

-- The text of the enumeration's member.
abbrev pub source_text : KeySource → String
source_text user = "user"
source_text backup = "backup"
source_text bitgo = "bitgo"

pub data AppMode : Type 0 where
  advanced_wallet_manager master_express : AppMode

abbrev pub is_mtls : TlsMode → Bool
is_mtls mtls = true
is_mtls disabled = false

abbrev pub is_external : SigningMode → Bool
is_external external = true
is_external local = false

abbrev pub is_master_express : AppMode → Bool
is_master_express master_express = true
is_master_express advanced_wallet_manager = false

pub record BaseConfig : Type 0 where
  pub app_mode : AppMode
  pub port : ℕ
  pub bind : String
  pub ipc : Option String
  pub timeout : ℕ
  pub keep_alive_timeout : Option ℕ
  pub headers_timeout : Option ℕ
  pub http_logger_file : String
  pub recovery_mode : Option Bool

pub record AdvancedWalletManagerConfig : Type 0 where
  pub base : BaseConfig
  pub open base use *
  pub key_provider_url : String
  pub key_provider_server_ca_cert_path : Option String
  pub key_provider_server_ca_cert : Option String
  pub key_provider_client_tls_key_path : Option String
  pub key_provider_client_tls_cert_path : Option String
  pub key_provider_client_tls_key : Option String
  pub key_provider_client_tls_cert : Option String
  pub key_provider_server_cert_allow_self_signed : Option Bool
  pub backup_kms_url : Option String
  pub backup_kms_server_ca_cert_path : Option String
  pub backup_kms_server_ca_cert : Option String
  pub backup_kms_client_tls_key_path : Option String
  pub backup_kms_client_tls_cert_path : Option String
  pub backup_kms_client_tls_key : Option String
  pub backup_kms_client_tls_cert : Option String
  pub backup_kms_server_cert_allow_self_signed : Option Bool
  pub server_tls_key_path : Option String
  pub server_tls_cert_path : Option String
  pub server_tls_key : Option String
  pub server_tls_cert : Option String
  pub tls_mode : TlsMode
  pub mtls_allowed_client_fingerprints : Option (List String)
  pub client_cert_allow_self_signed : Option Bool
  pub signing_mode : SigningMode

pub record AsyncModeConfig : Type 0 where
  pub enabled : Bool
  pub awm_async_url : String
  pub poll_interval_in_ms : ℕ
  pub job_ttl_in_seconds : ℕ
  pub job_ttl_mpc_in_seconds : ℕ

pub record MasterExpressConfig : Type 0 where
  pub base : BaseConfig
  pub open base use *
  pub env : String
  pub custom_root_uri : Option String
  pub disable_env_check : Option Bool
  pub auth_version : Option ℕ
  pub advanced_wallet_manager_url : String
  pub advanced_wallet_manager_backup_url : Option String
  pub awm_server_ca_cert_path : Option String
  pub awm_server_ca_cert : Option String
  pub awm_client_tls_key_path : Option String
  pub awm_client_tls_cert_path : Option String
  pub awm_client_tls_key : Option String
  pub awm_client_tls_cert : Option String
  pub awm_server_cert_allow_self_signed : Option Bool
  pub awm_backup_server_ca_cert_path : Option String
  pub awm_backup_server_ca_cert : Option String
  pub awm_backup_client_tls_key_path : Option String
  pub awm_backup_client_tls_cert_path : Option String
  pub awm_backup_client_tls_key : Option String
  pub awm_backup_client_tls_cert : Option String
  pub custom_bitcoin_network : Option String
  pub server_tls_key_path : Option String
  pub server_tls_cert_path : Option String
  pub server_tls_key : Option String
  pub server_tls_cert : Option String
  pub tls_mode : TlsMode
  pub mtls_allowed_client_fingerprints : Option (List String)
  pub client_cert_allow_self_signed : Option Bool
  pub async_mode_config : AsyncModeConfig
  pub bitgo_access_token : Option String
