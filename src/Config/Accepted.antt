-- ===== src/Config/Accepted.antt =====
-- What an accepted configuration of the master application is good for.
use advanced_wallets.Base.{
  given, String, ◌≡◌, refl, sym, ap, ◌∙◌, Bool, true, false, not, ◌&&◌, arith, if◌then◌else◌,
}
use advanced_wallets.Exec.{Result, ok, err}
use advanced_wallets.Shared.Types.{
  MasterExpressConfig, is_mtls, is_master_express, AsyncModeConfig, TlsMode,
}
use advanced_wallets.Config.Environment.{
  Env, Holds, Holds-bind, Holds-any, Holds-if, Holds-map, holds, fails, ◌>>=◌, is_true,
  read_env_var, determine_tls_mode, or_text,
}
use advanced_wallets.Config.Master.{
  load_server_certs, load_awm_certs, load_awm_backup_certs, load_certs, update_urls, validated,
  require_client_certs, merge_master_express_configs, master_express_env_config,
  configure_master_express_mode, url_with_protocol, with_protocol, read_async_mode_config, refuse,
}
use advanced_wallets.Shared.AppUtils.{validate_master_express_config}

-- What the loading of certificates leaves alone.
pub record Kept (old new : MasterExpressConfig) : Type 0 where
  pub same_base : new.base ≡ old.base
  pub same_url : new.advanced_wallet_manager_url ≡ old.advanced_wallet_manager_url
  pub same_backup_url :
      new.advanced_wallet_manager_backup_url ≡ old.advanced_wallet_manager_backup_url
  pub same_async : new.async_mode_config ≡ old.async_mode_config
  pub same_tls : new.tls_mode ≡ old.tls_mode

Kept-refl : (cfg : MasterExpressConfig) → Kept cfg cfg
Kept-refl cfg = record {
  same_base = refl;
  same_url = refl;
  same_backup_url = refl;
  same_async = refl;
  same_tls = refl;
}

Kept-trans : (a b c : MasterExpressConfig) → Kept a b → Kept b c → Kept a c
Kept-trans a b c p q = record {
  same_base = q.same_base ∙ p.same_base;
  same_url = q.same_url ∙ p.same_url;
  same_backup_url = q.same_backup_url ∙ p.same_backup_url;
  same_async = q.same_async ∙ p.same_async;
  same_tls = q.same_tls ∙ p.same_tls;
}

abbrev is_async : Env → Bool
is_async env = is_true (read_env_var env "ASYNC_MODE")

-- Neither the async mode nor a wallet manager is configured.
abbrev without_manager : Env → Bool
without_manager env =
    not (is_async env) && not (given (read_env_var env "ADVANCED_WALLET_MANAGER_URL"))

refuse-Holds : (test : Bool) (message : String) → Holds (λ _. test ≡ false) (refuse test message)
unfolding refuse
refuse-Holds true message = fails _
refuse-Holds false message = holds tt refl

module _ (env : Env) where
  server-Kept : (cfg : MasterExpressConfig) → Holds (Kept cfg) (load_server_certs env cfg)
  unfolding load_server_certs
  server-Kept cfg = search (Holds-any, holds)

  awm-Kept : (cfg : MasterExpressConfig) → Holds (Kept cfg) (load_awm_certs env cfg)
  unfolding load_awm_certs
  awm-Kept cfg = search (Holds-any, holds)

  backup-Kept : (cfg : MasterExpressConfig) → Holds (Kept cfg) (load_awm_backup_certs env cfg)
  unfolding load_awm_backup_certs
  backup-Kept cfg = search (Holds-any, holds)

  load_certs-Kept : (cfg : MasterExpressConfig) → Holds (Kept cfg) (load_certs env cfg)
  unfolding load_certs
  load_certs-Kept cfg =
      Holds-bind {P = Kept cfg} (if is_mtls cfg.tls_mode then load_server_certs env cfg else ok cfg)
        _ (Holds-if _ _ _ (λ _. server-Kept cfg) (λ _. holds cfg (Kept-refl cfg)))
        λ served s.
          Holds-bind {P = Kept cfg} (load_awm_certs env served) _
            (Holds-map _ (awm-Kept served) (λ c. Kept-trans cfg served c s))
            λ loaded l.
              Holds-if (given loaded.advanced_wallet_manager_backup_url) _ _
                (λ _. Holds-map _ (backup-Kept loaded) (λ c. Kept-trans cfg loaded c l))
                λ _. holds loaded l

  -- What the first stage has read.
  record Read (cfg : MasterExpressConfig) : Type 0 where
    pub for_master : is_master_express cfg.app_mode ≡ true
    pub url_read :
        cfg.advanced_wallet_manager_url
        ≡ or_text (read_env_var env "ADVANCED_WALLET_MANAGER_URL") ""
    pub backup_url_read :
        cfg.advanced_wallet_manager_backup_url
        ≡ read_env_var env "ADVANCED_WALLET_MANAGER_BACKUP_URL"
    pub url_needed :
        cfg.async_mode_config.enabled ≡ false
        → given (read_env_var env "ADVANCED_WALLET_MANAGER_URL") ≡ true

  async_read :
      (is_async_mode : Bool)
      → Holds (λ a. a.enabled ≡ is_async_mode) (read_async_mode_config env is_async_mode)
  unfolding read_async_mode_config
  async_read is_async_mode = search (Holds-any, holds) depth 14

  merged-Read :
      (tls : TlsMode) (async : AsyncModeConfig)
      → async.enabled ≡ is_async env
      → without_manager env ≡ false
      → Read (merge_master_express_configs env tls async)
  unfolding merge_master_express_configs
  merged-Read tls async e manager = record {
    for_master = refl;
    url_read = refl;
    backup_url_read = refl;
    url_needed = λ off. ground arith;
  }

  async-Read :
      (tls : TlsMode)
      → without_manager env ≡ false
      → Holds Read (
          read_async_mode_config env (is_async env) >>= λ async.
          ok (merge_master_express_configs env tls async))
  async-Read tls manager =
      Holds-bind (read_async_mode_config env (is_async env)) _ (async_read (is_async env))
        λ async e. holds _ (merged-Read tls async e manager)

  env-Read : Holds Read (master_express_env_config env)
  unfolding master_express_env_config
  env-Read = Holds-any (determine_tls_mode env) _ λ tls.
      Holds-bind (refuse (without_manager env) _) _ (refuse-Holds (without_manager env) _)
        λ done manager. search (Holds-any, async-Read tls manager)

-- What the last checks have tested.
pub record Checked (cfg : MasterExpressConfig) : Type 0 where
  pub keys :
      is_mtls cfg.tls_mode ≡ true
      → (given cfg.awm_client_tls_key ≡ true) × (given cfg.awm_client_tls_cert ≡ true)
  pub backup_keys :
      is_mtls cfg.tls_mode ≡ true
      → given cfg.advanced_wallet_manager_backup_url ≡ true
      → (given cfg.awm_backup_server_ca_cert ≡ true)
        × (given cfg.awm_backup_client_tls_key ≡ true)
        × (given cfg.awm_backup_client_tls_cert ≡ true)

require_client_certs-Checked :
    (cfg : MasterExpressConfig)
    → (is_mtls cfg.tls_mode ≡ true → require_client_certs cfg ≡ ok tt)
    → Checked cfg
unfolding require_client_certs refuse
require_client_certs-Checked cfg passes = record {
  keys = λ on. let h : require_client_certs cfg ≡ ok tt = passes on in (ground arith, ground arith);
  backup_keys = λ on connected.
      let h : require_client_certs cfg ≡ ok tt = passes on in
      (ground arith, ground arith, ground arith);
}

guarded :
    (test : Bool) (m : Result (Unit {0}))
    → Holds (λ _. test ≡ true → m ≡ ok tt) (if test then m else ok tt)
guarded true (ok tt) = holds tt λ _. refl
guarded true (err e) = fails e
guarded false m = holds tt λ h. absurd cc

validated-Checked :
    (cfg : MasterExpressConfig) → Holds (λ new. (new ≡ cfg) × Checked cfg) (validated cfg)
unfolding validated
validated-Checked cfg =
    Holds-bind (if is_mtls cfg.tls_mode then require_client_certs cfg else ok tt) _
      (guarded (is_mtls cfg.tls_mode) (require_client_certs cfg))
      λ done passes.
        Holds-any (validate_master_express_config cfg) _
          λ valid. holds cfg (refl, require_client_certs-Checked cfg passes)

-- What is known of a configuration that was accepted.
pub record Accepted (env : Env) (cfg : MasterExpressConfig) : Type 0 where
  pub for_master : is_master_express cfg.app_mode ≡ true
  pub url :
      cfg.advanced_wallet_manager_url
      ≡ url_with_protocol (or_text (read_env_var env "ADVANCED_WALLET_MANAGER_URL") "") cfg.tls_mode
  pub backup_url :
      cfg.advanced_wallet_manager_backup_url
      ≡ with_protocol (read_env_var env "ADVANCED_WALLET_MANAGER_BACKUP_URL") cfg.tls_mode false
  pub url_needed :
      cfg.async_mode_config.enabled ≡ false
      → given (read_env_var env "ADVANCED_WALLET_MANAGER_URL") ≡ true
  pub checked : Checked cfg

accepted :
    (env : Env) (first loaded new : MasterExpressConfig)
    → Read env first
    → Kept (update_urls first) loaded
    → (new ≡ loaded) × Checked loaded
    → Accepted env new
unfolding update_urls
accepted env first loaded new r k (e, c) = rw e (record {
  for_master = rw k.same_base r.for_master;
  url = ground (arith, k.same_url, k.same_tls, r.url_read);
  backup_url = ground (arith, k.same_backup_url, k.same_tls, r.backup_url_read);
  url_needed = λ off. r.url_needed (sym (ap (λ a. a.enabled) k.same_async) ∙ off);
  checked = c;
})

pub configure-Accepted : (env : Env) → Holds (Accepted env) (configure_master_express_mode env)
unfolding configure_master_express_mode
configure-Accepted env = Holds-bind (master_express_env_config env) _ (env-Read env) λ first r.
    Holds-bind (load_certs env (update_urls first)) _ (load_certs-Kept env (update_urls first))
      λ loaded k.
        Holds-map (validated loaded) (validated-Checked loaded)
          λ new c. accepted env first loaded new r k c
