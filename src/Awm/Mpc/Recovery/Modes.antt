-- ===== src/Awm/Mpc/Recovery/Modes.antt =====
-- When the recoveries of MPC wallets run, and which keys they fetch.
use advanced_wallets.Base.{
  String, str_eq, given, if◌then◌else◌, ◌≡◌, refl, Bool, true, false, Option, [],
}
use advanced_wallets.Js.{Value}
use advanced_wallets.Exec.{Call, sdk, Coin, World, err, run, lift}
use advanced_wallets.Exec.Only.{Only, returns, All, All-run, Only-bind, Only-guarded, only_rules}
use advanced_wallets.Shared.Types.{AdvancedWalletManagerConfig}
use advanced_wallets.Shared.HttpClient.{HttpClient}
use advanced_wallets.Shared.CoinFactory.{get_coin}
use advanced_wallets.Awm.KeyProvider.{flagged, new_key_provider}
use advanced_wallets.Awm.KeyProvider.Calls.{get_key_call}
use advanced_wallets.Awm.Utils.{
  build_backup_kms_config, retrieve_key_provider_prv_key, check_recovery_mode, recovery_disabled,
}
use advanced_wallets.Awm.Mpc.Calls.{Only-retrieve_key_provider_prv_key, Only-parsed}
use advanced_wallets.Awm.Mpc.Recovery.{
  EddsaRecoveryRequest, get_message_hash, sign_hash, setup_transaction_builder, sign_and_build,
  ecdsa_mpc_v2_recovery, sign_eddsa_recovery_transaction,
}

-- A call of the SDK, or a fetch of the user's or the backup's key of this public key.
pub data FetchesBoth (pub_key : String) : Call → Type 0 where
  of_user : (client : HttpClient) → FetchesBoth pub_key (get_key_call client pub_key "user")
  of_backup : (client : HttpClient) → FetchesBoth pub_key (get_key_call client pub_key "backup")
  by_sdk : (object method : String) (args : Value) → FetchesBoth pub_key (sdk object method args)

module _ (pub_key : String) where
  ruleset fetch_rules = (
    only_rules, Only-guarded, Only-retrieve_key_provider_prv_key, Only-parsed, of_user, of_backup,
    by_sdk,
  )

  Only-get_message_hash :
      (coin : Coin) (tx_hex : String) → Only (FetchesBoth pub_key) (get_message_hash coin tx_hex)
  unfolding get_message_hash
  Only-get_message_hash coin tx_hex = search fetch_rules depth 20

  Only-sign_hash :
      (user backup hash : Value) (key : String)
      → Only (FetchesBoth pub_key) (sign_hash user backup hash key)
  unfolding sign_hash
  Only-sign_hash user backup hash key = search fetch_rules depth 20

  Only-setup :
      (coin : Coin) (hex account : String)
      → Only (FetchesBoth pub_key) (setup_transaction_builder coin hex account)
  unfolding setup_transaction_builder
  Only-setup coin hex account = search fetch_rules depth 24

  Only-sign_and_build :
      (builder key user backup : Value) (path : String)
      → Only (FetchesBoth pub_key) (sign_and_build builder key user backup path)
  unfolding sign_and_build
  Only-sign_and_build builder key user backup path = search fetch_rules depth 20

ecdsa-Only :
    (w : World) (cfg : AdvancedWalletManagerConfig) (coin_name tx_hex pub_key : String)
    → Only (FetchesBoth pub_key) (ecdsa_mpc_v2_recovery w cfg coin_name tx_hex pub_key)
unfolding ecdsa_mpc_v2_recovery
ecdsa-Only w cfg coin_name tx_hex pub_key =
    Only-bind (lift (get_coin w coin_name)) _ (returns _)
      λ coin. search (fetch_rules, Only-get_message_hash, Only-sign_hash) depth 20

Only-check_recovery_mode :
    {P : Call → Type 0} (cfg : AdvancedWalletManagerConfig) → Only P (check_recovery_mode cfg)
unfolding check_recovery_mode
Only-check_recovery_mode cfg = search only_rules

eddsa-Only :
    (w : World) (cfg : AdvancedWalletManagerConfig) (req : EddsaRecoveryRequest) (coin : Coin)
    → Only (FetchesBoth req.common_keychain) (sign_eddsa_recovery_transaction w cfg req coin)
unfolding sign_eddsa_recovery_transaction
eddsa-Only w cfg req coin =
    search (fetch_rules, Only-check_recovery_mode, Only-setup, Only-sign_and_build) depth 30

-- The recovery handlers of MPC wallets, of both kinds, send no other request than for the user's
-- and the backup's key of the wallet's public key, whatever is answered.
pub mpc_recovery_fetches :
    (w : World) (cfg : AdvancedWalletManagerConfig) (coin_name tx_hex pub_key : String)
    (req : EddsaRecoveryRequest) (coin : Coin)
    → All (FetchesBoth pub_key) (run w (ecdsa_mpc_v2_recovery w cfg coin_name tx_hex pub_key) []).1
      × All
          (FetchesBoth req.common_keychain)
          (run w (sign_eddsa_recovery_transaction w cfg req coin) []).1
mpc_recovery_fetches w cfg coin_name tx_hex pub_key req coin = (
  All-run w _ [] (ecdsa-Only w cfg coin_name tx_hex pub_key) tt,
  All-run w _ [] (eddsa-Only w cfg req coin) tt,
)

-- The same configuration with `recoveryMode` as given.
unfoldable pub in_mode : Option Bool → AdvancedWalletManagerConfig → AdvancedWalletManagerConfig
in_mode mode cfg = record cfg { base = record cfg.base { recovery_mode = mode } }

module _ (mode : Option Bool) where
  if-in_mode :
      (b : Bool) (c d : AdvancedWalletManagerConfig)
      → (if b then in_mode mode c else in_mode mode d) ≡ in_mode mode (if b then c else d)
  if-in_mode true c d = refl
  if-in_mode false c d = refl

  backup-in_mode :
      (cfg : AdvancedWalletManagerConfig)
      → build_backup_kms_config (in_mode mode cfg) ≡ in_mode mode (build_backup_kms_config cfg)
  unfolding build_backup_kms_config in_mode
  backup-in_mode cfg = if-in_mode (given cfg.backup_kms_url) _ cfg

  provider-in_mode :
      (w : World) (cfg : AdvancedWalletManagerConfig)
      → new_key_provider w (in_mode mode cfg) ≡ new_key_provider w cfg
  unfolding new_key_provider in_mode
  provider-in_mode w cfg = refl

  retrieve-in_mode :
      (w : World) (pub_key source : String) (cfg : AdvancedWalletManagerConfig)
      → retrieve_key_provider_prv_key w pub_key source (in_mode mode cfg)
        ≡ retrieve_key_provider_prv_key w pub_key source cfg
  unfolding retrieve_key_provider_prv_key
  retrieve-in_mode w pub_key source cfg =
      rw
        (
          backup-in_mode cfg,
          if-in_mode (str_eq source "backup") (build_backup_kms_config cfg) cfg,
          provider-in_mode w (if str_eq source "backup" then build_backup_kms_config cfg else cfg),
        )
        refl

-- `RECOVERY_MODE` stops one of the two recoveries of MPC wallets: without it an EdDSA recovery
-- is refused before any call is made, but an ECDSA recovery does the same whatever the mode is.
pub recovery_mode_guard :
    (w : World) (cfg : AdvancedWalletManagerConfig) (mode : Option Bool)
    (coin_name tx_hex pub_key : String) (req : EddsaRecoveryRequest) (coin : Coin)
    → flagged cfg.recovery_mode ≡ false
    → (run w (sign_eddsa_recovery_transaction w cfg req coin) [] ≡ (err recovery_disabled, []))
      × (ecdsa_mpc_v2_recovery w (in_mode mode cfg) coin_name tx_hex pub_key
          ≡ ecdsa_mpc_v2_recovery w cfg coin_name tx_hex pub_key)
unfolding run sign_eddsa_recovery_transaction check_recovery_mode ecdsa_mpc_v2_recovery
recovery_mode_guard w cfg mode coin_name tx_hex pub_key req coin off = (
  rw off refl,
  rw
      (
        backup-in_mode mode cfg,
        retrieve-in_mode mode w pub_key "user" cfg,
        retrieve-in_mode mode w pub_key "backup" (build_backup_kms_config cfg),
      )
      refl,
)
