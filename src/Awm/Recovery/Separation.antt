-- ===== src/Awm/Recovery/Separation.antt =====
-- A recovery that signs with one key asks the key provider for nothing that concerns the other.
use advanced_wallets.Base.{String, ◌≡◌, refl, ◌⊎◌, inl, inr, some, []}
use advanced_wallets.Js.{Value, str, prop, get}
use advanced_wallets.Exec.{Call, http, sdk, World, Coin, run}
use advanced_wallets.Exec.Only.{
  Only, returns, All, All-run, Only-bind, Only-catch, Only-throw_if, only_rules,
}
use advanced_wallets.Shared.Types.{
  AdvancedWalletManagerConfig, KeySource, user, backup, source_text,
}
use advanced_wallets.Shared.HttpClient.{HttpClient, request}
use advanced_wallets.Awm.KeyProvider.{get_key, sign}
use advanced_wallets.Awm.KeyProvider.Calls.{Only-sign, Only-get_key, post_to, get_key_call}
use advanced_wallets.Awm.Utils.{retrieve_key_provider_prv_key}
use advanced_wallets.Awm.Recovery.{
  recover_with_key_provider, fetch_user_key, fetch_backup_key, recover_with_keys,
  recovery_multisig_transaction,
}
use advanced_wallets.Awm.Recovery.Request.{RecoveryRequest, KeyToSign, user_key, backup_key}
use advanced_wallets.Awm.Recovery.External.{sign_step, recover_transaction_externally}
use advanced_wallets.Awm.Recovery.Evm.{
  sign_eth_like_user_half, sign_eth_like_backup_half, check_if_no_recipients,
  recover_eth_like_multisig_transaction,
}
use advanced_wallets.Awm.Recovery.Utxo.{
  sign_utxo_half_tx, sign_utxo_full_tx, recover_utxo_multisig_transaction,
}

-- The key that a request to the key provider is about: `source` in its query or in its body.
abbrev pub UsesKey : KeySource → Call → Type 0
UsesKey owner (http r) =
    (prop r.query "source" ≡ str (source_text owner))
    ⊎ (prop r.body "source" ≡ str (source_text owner))
UsesKey owner (sdk object method args) = Unit

module _ (w : World) (owner : KeySource) where
  sign-Only :
      (client : HttpClient) (params : Value)
      → prop params "source" ≡ str (source_text owner)
      → Only (UsesKey owner) (sign w client params)
  unfolding request post_to
  sign-Only client params same = Only-sign w client params (inr same)

  sign_step-Only :
      (client : HttpClient) (pub_key : String) (payload : Value)
      → Only (UsesKey owner) (sign_step w client pub_key owner payload)
  unfolding sign_step get
  sign_step-Only client pub_key payload =
      Only-bind _ _ (Only-catch _ _ (sign-Only client _ refl) λ e. returns _) λ res. returns _

  get_key-Only :
      (client : HttpClient) (pub_key : String)
      → Only (UsesKey owner) (get_key w client pub_key (source_text owner))
  unfolding request get get_key_call
  get_key-Only client pub_key = Only-get_key w client pub_key (source_text owner) (inl refl)

  retrieve-Only :
      (pub_key : String) (cfg : AdvancedWalletManagerConfig)
      → Only (UsesKey owner) (retrieve_key_provider_prv_key w pub_key (source_text owner) cfg)
  unfolding retrieve_key_provider_prv_key
  retrieve-Only pub_key cfg = search (only_rules, get_key-Only) depth 9

module _ (w : World) (cfg : AdvancedWalletManagerConfig) (req : RecoveryRequest) (coin : Coin)
    (owner : KeySource) where
  evm-Only :
      (user_prv backup_prv : Value)
      → Only (UsesKey owner) (recover_eth_like_multisig_transaction w req coin user_prv backup_prv)
  unfolding recover_eth_like_multisig_transaction sign_eth_like_user_half sign_eth_like_backup_half
      check_if_no_recipients
  evm-Only user_prv backup_prv = search only_rules depth 12

  utxo-Only :
      (user_prv backup_prv : Value)
      → Only (UsesKey owner) (recover_utxo_multisig_transaction w req coin user_prv backup_prv)
  unfolding recover_utxo_multisig_transaction sign_utxo_half_tx sign_utxo_full_tx
  utxo-Only user_prv backup_prv = search only_rules depth 12

  with_keys-Only :
      (user_prv backup_prv : Value)
      → Only (UsesKey owner) (recover_with_keys w req coin user_prv backup_prv)
  unfolding recover_with_keys
  with_keys-Only user_prv backup_prv = search (only_rules, evm-Only, utxo-Only) depth 9

module _ (w : World) (cfg : AdvancedWalletManagerConfig) (req : RecoveryRequest) where
  externally_user :
      (client : HttpClient) (tx_hex half : Value)
      → Only (UsesKey user) (
          recover_transaction_externally w client req.user_pub req.backup_pub tx_hex
            (some user_key)
            half)
  unfolding recover_transaction_externally
  externally_user client tx_hex half =
      Only-bind _ _ (sign_step-Only w user client req.user_pub tx_hex) λ signature. returns _

  externally_backup :
      (client : HttpClient) (tx_hex half : Value)
      → Only (UsesKey backup) (
          recover_transaction_externally w client req.user_pub req.backup_pub tx_hex
            (some backup_key)
            half)
  unfolding recover_transaction_externally
  externally_backup client tx_hex half =
      Only-bind _ _ (Only-throw_if _ _) λ _.
        Only-bind _ _ (sign_step-Only w backup client req.backup_pub half) λ signature. returns _

  user-Only :
      req.key_to_sign ≡ some user_key
      → Only (UsesKey user) (recovery_multisig_transaction w cfg req)
  unfolding recovery_multisig_transaction recover_with_key_provider fetch_user_key fetch_backup_key
  user-Only e =
      rw e (search (only_rules, externally_user, retrieve-Only w user, with_keys-Only) depth 14)

  backup-Only :
      req.key_to_sign ≡ some backup_key
      → Only (UsesKey backup) (recovery_multisig_transaction w cfg req)
  unfolding recovery_multisig_transaction recover_with_key_provider fetch_user_key fetch_backup_key
  backup-Only e =
      rw e (search (only_rules, externally_backup, retrieve-Only w backup, with_keys-Only) depth 14)

abbrev pub owner_of : KeyToSign → KeySource
owner_of user_key = user
owner_of backup_key = backup

-- A recovery with `keyToSign` asks the key provider only about the key that it names, by the
-- `source` of the request, whether that key is fetched or signs in the key provider, and whatever
-- the services answer.
pub recovery_key_separation :
    (w : World) (cfg : AdvancedWalletManagerConfig) (req : RecoveryRequest) (key : KeyToSign)
    → req.key_to_sign ≡ some key
    → All (UsesKey (owner_of key)) (run w (recovery_multisig_transaction w cfg req) []).1
recovery_key_separation w cfg req user_key e = All-run w _ [] (user-Only w cfg req e) tt
recovery_key_separation w cfg req backup_key e = All-run w _ [] (backup-Only w cfg req e) tt
