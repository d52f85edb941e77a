-- ===== src/Awm/Recovery/Split/Utxo.antt =====
-- Two managers against one, for a UTXO wallet.
use advanced_wallets.Base.{◌≡◌, true, arith}
use advanced_wallets.Js.{Value, undefined, has, truthy, prop}
use advanced_wallets.Exec.{Call, Result, ok, World, Coin, dot}
use advanced_wallets.Exec.Steady.{outcome}
use advanced_wallets.Shared.CoinUtils.{is_formatted_offline_vault_tx_info}
use advanced_wallets.Awm.Recovery.Request.{RecoveryRequest, is_half_signed_utxo_transaction}
use advanced_wallets.Awm.Recovery.Utxo.{recover_utxo_multisig_transaction}
use advanced_wallets.Awm.Recovery.Split.Parts.{user_part, backup_part, both_parts}

module _ (w : World) (answers : Call → Result Value) (req : RecoveryRequest) (coin : Coin)
    (user_prv backup_prv half : Value) where
  pub utxo_split :
      outcome answers (recover_utxo_multisig_transaction w (user_part req) coin user_prv undefined)
        ≡ ok half
      → is_half_signed_utxo_transaction half ≡ true
      → truthy (prop req.unsigned_sweep_prebuild_tx "txInfo") ≡ true
      → outcome answers
          (recover_utxo_multisig_transaction w (backup_part req half) coin undefined backup_prv)
        ≡ outcome answers
            (recover_utxo_multisig_transaction w (both_parts req) coin user_prv backup_prv)
  unfolding recover_utxo_multisig_transaction outcome dot has is_formatted_offline_vault_tx_info
      is_half_signed_utxo_transaction
  utxo_split h flat info = ground arith
