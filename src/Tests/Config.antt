-- ===== src/Tests/Config.antt =====
-- The theorems on certificates, configurations and the middleware, at concrete inputs.
use mathlib.Core.Option as Option
use advanced_wallets.Base.{
  ◌≡◌, refl, ◌↔◌, ◌≢◌, String, Bool, true, false, Option, none, some, List, [], ◌∷◌, str_eq,
  if◌then◌else◌,
}
use advanced_wallets.Js.{Value, str, obj, end, ◌⨾◌, truthy, get}
use advanced_wallets.Js.Texts.{to_lower_case, to_upper_case, without_colons, has_colon}
use advanced_wallets.Exec.{ok, err, pure, plain_error}
use advanced_wallets.Shared.Types.{disabled, mtls, MasterExpressConfig, AsyncModeConfig}
use advanced_wallets.Shared.AppUtils.{
  MtlsConfig, passed, create_mtls_middleware, validate_master_express_config,
}
use advanced_wallets.Shared.AppUtils.Mtls.{Admitted, mtls_admits, colon_fingerprints_refused}
use advanced_wallets.Config.Environment.{
  Env, nan, read_env_var, determine_tls_mode, parse_positive_int, load_cert,
}
use advanced_wallets.Config.Protocol.{determine_protocol}
use advanced_wallets.Config.Master.{
  configure_master_express_mode, merge_master_express_configs, update_urls,
  master_express_env_config, read_async_mode_config, refuse, load_awm_certs, validated,
}
use advanced_wallets.Mbe.AwmClient.{AwmClient}
use advanced_wallets.Mbe.Middleware.{no_awm_client, attach_clients}
use advanced_wallets.Mbe.Middleware.Clients.{async_config_refused}

abbrev certificate : Value
certificate = obj (
    ("subject", obj (("CN", str "master") ⨾ end))
    ⨾ ("issuer", obj (("CN", str "ca") ⨾ end))
    ⨾ ("fingerprint256", str "ab:cd")
    ⨾ end)

abbrev listing : String → MtlsConfig
listing fingerprint = record {
  tls_mode = mtls;
  client_cert_allow_self_signed = none;
  mtls_allowed_client_fingerprints = some (fingerprint ∷ []);
}

mtls_admits_example :
    (create_mtls_middleware (listing "ABCD") certificate ≡ pure (passed certificate))
    ↔ Admitted (listing "ABCD") certificate
mtls_admits_example = mtls_admits (listing "ABCD") certificate refl

listed_certificate : create_mtls_middleware (listing "ABCD") certificate ≡ pure (passed certificate)
unfolding create_mtls_middleware truthy get to_upper_case without_colons
listed_certificate = refl

colon_fingerprints_refused_example :
    create_mtls_middleware (listing "AB:CD") certificate ≢ pure (passed certificate)
unfolding has_colon
colon_fingerprints_refused_example =
    colon_fingerprints_refused (listing "AB:CD") certificate refl (refl, tt)

-- An environment without TLS, in which the texts in the list are set.
abbrev look_up : List (String × String) → String → Option String
look_up [] name = none
look_up ((k, v) ∷ rest) name = if str_eq k name then some v else look_up rest name

abbrev environment : List (String × String) → Env
environment set = record {
  variable = look_up (("TLS_MODE", "Disabled") ∷ set);
  number = λ s. nan;
  read_file = λ path. err (plain_error "no such file");
}

abbrev sync_env : Env
sync_env = environment (
    ("ADVANCED_WALLET_MANAGER_URL", "awm:3080")
    ∷ ("ADVANCED_WALLET_MANAGER_BACKUP_URL", "https://backup:3080")
    ∷ [])

abbrev async_env : Env
async_env = environment (
    ("ASYNC_MODE", "true")
    ∷ ("AWM_ASYNC_URL", "http://bridge")
    ∷ ("BITGO_ACCESS_TOKEN", "token")
    ∷ [])

abbrev defaults : Bool → String → AsyncModeConfig
defaults enabled url = record {
  enabled = enabled;
  awm_async_url = url;
  poll_interval_in_ms = 30000;
  job_ttl_in_seconds = 3600;
  job_ttl_mpc_in_seconds = 7200;
}

abbrev sync_config : MasterExpressConfig
sync_config = update_urls (merge_master_express_configs sync_env disabled (defaults false ""))

abbrev async_config : MasterExpressConfig
async_config =
    update_urls (merge_master_express_configs async_env disabled (defaults true "http://bridge"))

async_accepted : configure_master_express_mode async_env ≡ ok async_config
unfolding configure_master_express_mode master_express_env_config read_async_mode_config refuse
    load_awm_certs validated update_urls merge_master_express_configs determine_tls_mode
    parse_positive_int load_cert read_env_var to_lower_case determine_protocol
    validate_master_express_config
async_accepted = refl

async_config_refused_example : attach_clients async_config (some "btc") ≡ ok no_awm_client
unfolding read_env_var
async_config_refused_example =
    async_config_refused async_env async_config (some "btc") async_accepted refl
