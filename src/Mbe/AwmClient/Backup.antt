-- ===== src/Mbe/AwmClient/Backup.antt =====
-- The credentials of the client for the backup's wallet manager.
use advanced_wallets.Base.{String, ◌≡◌, true, not, Option, some, arith}
use advanced_wallets.Exec.{ok}
use advanced_wallets.Shared.Types.{MasterExpressConfig, is_mtls}
use advanced_wallets.Mbe.AwmClient.{
  AwmClient, new_awm_client, create_https_agent, agent_of, or_false, backup_config,
  create_awm_backup_client,
}

-- Under mTLS, a client that is made for the backup's wallet manager sends every request to the
-- backup's URL and over an agent with the backup's own certificate authority, certificate and key:
-- none of the primary manager's credentials is used, and making the agent never fails.
pub backup_client_credentials :
    (cfg : MasterExpressConfig) (coin : Option String) (client : AwmClient)
    → is_mtls cfg.tls_mode ≡ true
    → create_awm_backup_client cfg coin ≡ ok (some client)
    → (some client.base_url ≡ cfg.advanced_wallet_manager_backup_url)
      × (agent_of client
          ≡ ok (
              some (record {
                ca = cfg.awm_backup_server_ca_cert;
                cert = cfg.awm_backup_client_tls_cert;
                key = cfg.awm_backup_client_tls_key;
                reject_unauthorized = not (or_false cfg.awm_server_cert_allow_self_signed);
              })))
unfolding create_awm_backup_client new_awm_client agent_of create_https_agent backup_config
backup_client_credentials cfg coin client mtls made = (ground arith, ground arith)
