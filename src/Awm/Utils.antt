-- ===== src/Awm/Utils.antt =====
-- src/advancedWalletManager/handlers/utils/utils.ts: what the handlers share.
pub mod Failures
pub mod BackupKms
use advanced_wallets.Base.{
  given, String, Bool, ◌&&◌, ◌||◌, Option, none, some, str_eq, if◌then◌else◌,
}
use advanced_wallets.Js.{Value, num, str, obj, end, ◌⨾◌, prop, or_else}
use advanced_wallets.Exec.{
  Exn, plain, World, Exec, Coin, pure, throw, lift, catch, plain_error, exn_prop, ◌>>=◌,
}
use advanced_wallets.Shared.Types.{AdvancedWalletManagerConfig, is_external}
use advanced_wallets.Shared.CoinUtils.{is_utxo_coin, is_eth_like_coin}
use advanced_wallets.Awm.KeyProvider.{
  flagged, new_key_provider, get_key, generate_data_key, decrypt_data_key,
}

-- `...(value !== undefined && { key: value })`
abbrev or_keep : Option String → Option String → Option String
or_keep none kept = kept
or_keep (some s) kept = some s

-- `...(flag !== true && { key: flag })`
abbrev unless_true : Option Bool → Option Bool → Option Bool
unless_true flag kept = if flagged flag then kept else flag

abbrev url_text : Option String → String
url_text none = ""
url_text (some s) = s

unfoldable pub build_backup_kms_config : AdvancedWalletManagerConfig → AdvancedWalletManagerConfig
build_backup_kms_config cfg =
    if given cfg.backup_kms_url
    then record cfg {
      key_provider_url = url_text cfg.backup_kms_url;
      key_provider_server_ca_cert =
          or_keep cfg.backup_kms_server_ca_cert cfg.key_provider_server_ca_cert;
      key_provider_client_tls_key =
          or_keep cfg.backup_kms_client_tls_key cfg.key_provider_client_tls_key;
      key_provider_client_tls_cert =
          or_keep cfg.backup_kms_client_tls_cert cfg.key_provider_client_tls_cert;
      key_provider_server_cert_allow_self_signed =
          unless_true cfg.backup_kms_server_cert_allow_self_signed
            cfg.key_provider_server_cert_allow_self_signed;
    }
    else cfg

-- `throw { status: error.status || 500, message: error.message || message }`
unfoldable pub status_and_message : String → Exn → Exn
status_and_message message error = record {
  class = plain;
  own =
      ("status", or_else (exn_prop error "status") (num 500))
      ⨾ ("message", or_else (exn_prop error "message") (str message))
      ⨾ end;
}

module _ (w : World) where
  unfoldable pub retrieve_key_provider_prv_key :
      String → String → AdvancedWalletManagerConfig → Exec Value
  unfolding status_and_message
  retrieve_key_provider_prv_key pub_key source cfg =
      let effective_cfg = if str_eq source "backup" then build_backup_kms_config cfg else cfg in
      do
        key_provider ← lift (new_key_provider w effective_cfg)
        res ←
            catch (get_key w key_provider pub_key source)
              λ e. throw (status_and_message "Failed to retrieve key from key provider" e)
        pure (prop res "prv")

  unfoldable pub handlers_generate_data_key : String → AdvancedWalletManagerConfig → Exec Value
  unfolding status_and_message
  handlers_generate_data_key key_type cfg =
      catch
        (do
          key_provider ← lift (new_key_provider w cfg)
          generate_data_key w key_provider (obj (("keyType", str key_type) ⨾ end)))
        λ e. throw (status_and_message "Failed to generate data key from key provider" e)

  unfoldable pub handlers_decrypt_data_key : String → AdvancedWalletManagerConfig → Exec Value
  unfolding status_and_message
  handlers_decrypt_data_key encrypted_data_key cfg =
      catch
        (do
          key_provider ← lift (new_key_provider w cfg)
          decrypted ←
              decrypt_data_key w key_provider (obj (("encryptedKey", str encrypted_data_key) ⨾ end))
          pure (prop decrypted "plaintextKey"))
        λ e. throw (status_and_message "Failed to decrypt data key from key provider" e)

abbrev pub is_external_signing_mode_enabled : AdvancedWalletManagerConfig → Bool
is_external_signing_mode_enabled cfg = is_external cfg.signing_mode

unfoldable pub is_external_signing_enabled_for_coin : AdvancedWalletManagerConfig → Coin → Bool
is_external_signing_enabled_for_coin cfg coin =
    is_external_signing_mode_enabled cfg && (is_utxo_coin coin || is_eth_like_coin coin)

abbrev pub is_non_bitgo_key_source : String → Bool
is_non_bitgo_key_source source = str_eq source "user" || str_eq source "backup"

abbrev pub recovery_disabled : Exn
recovery_disabled =
    plain_error
      "Recovery operations are not enabled. The server must be in recovery mode to perform this action."

unfoldable pub check_recovery_mode : AdvancedWalletManagerConfig → Exec (Unit {0})
check_recovery_mode cfg = if flagged cfg.recovery_mode then pure tt else throw recovery_disabled
