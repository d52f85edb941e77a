-- ===== src/Awm/Recovery/Split/Evm.antt =====
-- Two managers against one, for an EVM wallet.
use advanced_wallets.Base.{◌≡◌, true, arith}
use advanced_wallets.Js.{Value, undefined}
use advanced_wallets.Exec.{Call, Result, ok, World, Coin, dot}
use advanced_wallets.Exec.Steady.{outcome}
use advanced_wallets.Awm.Recovery.Request.{RecoveryRequest, is_signed_eth_like_recovery_tx}
use advanced_wallets.Awm.Recovery.Evm.{
  user_half_args, backup_half_args, recover_eth_like_multisig_transaction,
}
use advanced_wallets.Awm.Recovery.Split.Parts.{user_part, backup_part, both_parts}

module _ (w : World) (answers : Call → Result Value) (req : RecoveryRequest) (coin : Coin)
    (user_prv backup_prv half : Value) where
  pub evm_split :
      outcome answers
          (recover_eth_like_multisig_transaction w (user_part req) coin user_prv undefined)
        ≡ ok half
      → is_signed_eth_like_recovery_tx half ≡ true
      → outcome answers
          (recover_eth_like_multisig_transaction w (backup_part req half) coin undefined backup_prv)
        ≡ outcome answers
            (recover_eth_like_multisig_transaction w (both_parts req) coin user_prv backup_prv)
  unfolding recover_eth_like_multisig_transaction outcome dot user_half_args backup_half_args
  evm_split h nested = ground arith
