-- ===== src/Awm/Utils/BackupKms.antt =====
-- The configuration for the backup key's provider.
use advanced_wallets.Base.{given, ◌≡◌, true, ◌&&◌, arith}
use advanced_wallets.Shared.Types.{AdvancedWalletManagerConfig}
use advanced_wallets.Awm.KeyProvider.{flagged}
use advanced_wallets.Awm.Utils.{build_backup_kms_config}

-- With a backup KMS configured, its client accepts a self-signed certificate only if both the
-- backup's flag and the primary's are set: the backup's flag alone, set to true, is not taken over.
pub backup_allow_self_signed :
    (cfg : AdvancedWalletManagerConfig)
    → given cfg.backup_kms_url ≡ true
    → flagged (build_backup_kms_config cfg).key_provider_server_cert_allow_self_signed ≡ (
        flagged cfg.backup_kms_server_cert_allow_self_signed
        && flagged cfg.key_provider_server_cert_allow_self_signed)
unfolding build_backup_kms_config
backup_allow_self_signed cfg configured = ground arith
