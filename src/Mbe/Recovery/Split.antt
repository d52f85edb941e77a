-- ===== src/Mbe/Recovery/Split.antt =====
-- The recovery of a multisig wallet whose backup key has a wallet manager of its own.
use advanced_wallets.Base.{◌≡◌, Bool, true, false, not, ◌&&◌, arith, [], if◌then◌else◌}
use advanced_wallets.Js.{Value, arr, Fields, obj, end, ◌⨾◌, prop, truthy, is_text, Items, nil, cons}
use advanced_wallets.Exec.{World, Coin, run, lift, pure, ◌>>=◌}
use advanced_wallets.Exec.History.{
  Each, Always-run, Always-returns, Always-bind, Always-if, Always-throw_if, always_rules,
}
use advanced_wallets.Shared.Types.{MasterExpressConfig}
use advanced_wallets.Shared.CoinFactory.{get_coin}
use advanced_wallets.Mbe.Recovery.HalfSigned.{SplitCall, by_sdk, Split, two_managers-Only}
use advanced_wallets.Mbe.Recovery.Request.{
  RecoveryRequest, master_check_recovery_mode, validate_mpc_params, validate_recovery_params,
}
use advanced_wallets.Mbe.Recovery.Multisig.{
  recover_multisig_or_submit_job, handle_eth_like_recovery, handle_utxo_like_recovery,
  recover_standard,
}
use advanced_wallets.Mbe.Recovery.Consolidations.{
  RecoveryKeys, recovery_consolidate_wallets, recovery_keys, unsigned_txs, sign_consolidation,
  sign_consolidations, submit_consolidation, handle_recovery_consolidations,
}
use advanced_wallets.Mbe.Recovery.{handle_recovery_wallet}

module _ (w : World) (req : RecoveryRequest) (separate : req.has_separate_backup_awm ≡ true) where
  multisig-Only : (body : Fields) → Split w req (recover_multisig_or_submit_job w req body)
  unfolding recover_multisig_or_submit_job
  multisig-Only body =
      Always-if req.has_separate_backup_awm _ _ (λ _. two_managers-Only w req body) λ off. absurd cc

  standard-Only : (coin : Coin) → Split w req (recover_standard w req coin)
  unfolding recover_standard handle_eth_like_recovery handle_utxo_like_recovery
  standard-Only coin = search (always_rules, by_sdk, multisig-Only) depth 24

  Only-validate :
      (coin : Coin) (params : Value) (mpc : Bool)
      → Split w req (validate_recovery_params coin params mpc)
  unfolding validate_recovery_params validate_mpc_params
  Only-validate coin params mpc = search always_rules depth 12

  recovery-Only :
      truthy (prop req.decoded "isTssRecovery") ≡ false → Split w req (handle_recovery_wallet w req)
  unfolding handle_recovery_wallet master_check_recovery_mode
  recovery-Only multisig = Always-bind _ _ (Always-throw_if _ _) λ _.
      Always-bind (lift (get_coin w _)) _ (Always-returns _)
        λ coin. Always-bind _ _ (Only-validate coin _ _) λ _. rw multisig (standard-Only coin)

  one-Only :
      (mpc : Bool) (keys : RecoveryKeys) (tx : Value)
      → mpc ≡ false
      → Split w req (sign_consolidation req mpc keys tx)
  unfolding sign_consolidation
  one-Only mpc keys tx multisig =
      Always-if mpc _ _ (λ on. absurd cc)
        λ _.
          Always-if req.has_separate_backup_awm _ _ (λ _. two_managers-Only w req _)
            λ off. absurd cc

  each-Only :
      (mpc : Bool) (keys : RecoveryKeys) (txs : Items)
      → mpc ≡ false
      → Split w req (sign_consolidations req mpc keys txs)
  unfolding sign_consolidations
  each-Only mpc keys nil multisig = Always-returns _
  each-Only mpc keys (cons tx txs) multisig =
      Always-bind _ _ (one-Only mpc keys tx multisig)
        λ signed. Always-bind _ _ (each-Only mpc keys txs multisig) λ others. Always-returns _

  Only-recovery_keys : (decoded : Value) (mpc : Bool) → Split w req (recovery_keys decoded mpc)
  unfolding recovery_keys
  Only-recovery_keys decoded mpc = search always_rules depth 8

  Only-consolidate :
      (coin : Coin) (params : Value) → Split w req (recovery_consolidate_wallets coin params)
  unfolding recovery_consolidate_wallets
  Only-consolidate coin params = search (always_rules, by_sdk) depth 16

  Only-unsigned_txs : (result : Value) → Split w req (unsigned_txs result)
  unfolding unsigned_txs
  Only-unsigned_txs result = search always_rules depth 8

  signed-Only :
      (async : Bool) (mpc : Bool) (keys : RecoveryKeys) (txs : Items)
      → mpc ≡ false
      → Split w req (
          if async && not req.has_separate_backup_awm
          then submit_consolidation w req keys txs
          else sign_consolidations req mpc keys txs >>= λ signed.
              pure (obj (("signedTxs", arr signed) ⨾ end)))
  signed-Only async mpc keys txs multisig =
      Always-if (async && not req.has_separate_backup_awm) (submit_consolidation w req keys txs) _
        (λ on. absurd ground arith)
        λ _.
          Always-bind (sign_consolidations req mpc keys txs) _ (each-Only mpc keys txs multisig)
            λ signed. Always-returns _

  Only-recovery_mode :
      (config : MasterExpressConfig) → Split w req (master_check_recovery_mode config)
  unfolding master_check_recovery_mode
  Only-recovery_mode config = search always_rules

  consolidations-Only :
      is_text (prop req.decoded "multisigType") "tss" ≡ false
      → Split w req (handle_recovery_consolidations w req)
  unfolding handle_recovery_consolidations
  consolidations-Only multisig =
      Always-bind (master_check_recovery_mode req.config) _ (Only-recovery_mode _) λ _.
        search
          (
            Always-returns, Always-bind, Always-throw_if, Only-recovery_keys, Only-consolidate,
            Only-unsigned_txs, signed-Only,
          )
          depth 20

-- In the recovery of a multisig wallet whose backup key has a wallet manager of its own, and in the
-- recovery of its receive addresses, in async mode too and whatever is answered, no request is sent
-- but those that ask the user's manager to sign with the user's key, and those that ask the backup's
-- manager to sign with the backup's key. A request to the backup's manager is for the body for which
-- the user's manager was asked directly before it, and what it names as signed by half is the body of
-- the user's manager's answer, which had status 200: neither manager is asked to sign with both keys,
-- and the bridge gets no job.
pub split_recovery_calls :
    (w : World) (req consolidation : RecoveryRequest)
    → req.has_separate_backup_awm ≡ true
    → truthy (prop req.decoded "isTssRecovery") ≡ false
    → consolidation.has_separate_backup_awm ≡ true
    → is_text (prop consolidation.decoded "multisigType") "tss" ≡ false
    → Each
        (SplitCall w req.awm_user_client req.awm_backup_client)
        (run w (handle_recovery_wallet w req) []).1
      × Each
          (SplitCall w consolidation.awm_user_client consolidation.awm_backup_client)
          (run w (handle_recovery_consolidations w consolidation) []).1
split_recovery_calls w req consolidation separate multisig separate' multisig' = (
  Always-run _ (recovery-Only w req separate multisig),
  Always-run _ (consolidations-Only w consolidation separate' multisig'),
)
