-- ===== src/Awm/Recovery/Split.antt =====
-- Two managers that sign a recovery in turn come to what one manager comes to.
pub mod Parts
pub mod External
pub mod Utxo
pub mod Evm
use advanced_wallets.Base.{
  String, ◌≡◌, refl, sym, ap, ◌∙◌, Bool, Bool-cases, inl, inr, true, false, Option, none, some,
  List, [], arith, if◌then◌else◌,
}
use advanced_wallets.Js.{Value, undefined, get, truthy, prop, is_string}
use advanced_wallets.Exec.{
  Exn, Call, Result, ok, err, World, steady, Coin, Exec, done, dot, ◌>>=◌, run,
}
use advanced_wallets.Exec.Steady.{
  outcome, outcome-bind, run-steady, next_step, next_step-ok, next_step_ext,
}
use advanced_wallets.Shared.Types.{AdvancedWalletManagerConfig, user}
use advanced_wallets.Shared.HttpClient.{HttpClient}
use advanced_wallets.Shared.CoinFactory.{get_coin}
use advanced_wallets.Awm.KeyProvider.{flagged, new_key_provider}
use advanced_wallets.Awm.Utils.{retrieve_key_provider_prv_key, is_external_signing_enabled_for_coin}
use advanced_wallets.Awm.Recovery.{
  fetch_user_key, fetch_backup_key, recover_with_keys, recover_with_key_provider,
  check_external_backup, recovery_multisig_transaction,
}
use advanced_wallets.Awm.Recovery.Request.{
  RecoveryRequest, KeyToSign, user_key, backup_key, is_half_signed_utxo_transaction,
  is_signed_eth_like_recovery_tx,
}
use advanced_wallets.Awm.Recovery.External.{recover_transaction_externally}
use Parts.{user_part, backup_part, both_parts}
use Utxo.{utxo_split}
use Evm.{evm_split}
use External.{external_half, external_split, sign_step_result}

-- What the backup's manager tests on the half that it is given, by signing mode and kind of coin.
-- Halves that the key provider signed pass by themselves.
abbrev pub CarriesOver : Bool → Bool → RecoveryRequest → Value → Type 0
CarriesOver true evm req half = Unit
CarriesOver false true req half = is_signed_eth_like_recovery_tx half ≡ true
CarriesOver false false req half =
    (is_half_signed_utxo_transaction half ≡ true)
    × (truthy (prop req.unsigned_sweep_prebuild_tx "txInfo") ≡ true)

not_ok : {e : Exn} {v : Value} → err e ≡ ok v → ⊥
not_ok h = cc

carries-truthy :
    (evm : Bool) (req : RecoveryRequest) (half : Value)
    → CarriesOver false evm req half
    → truthy half ≡ true
unfolding truthy is_half_signed_utxo_transaction is_signed_eth_like_recovery_tx
carries-truthy true req half h = ground arith
carries-truthy false req half h = ground arith

module _ (w : World) (answers : Call → Result Value) (cfg : AdvancedWalletManagerConfig)
    (req : RecoveryRequest) (coin : Coin) (half : Value) where
  with_keys_split :
      (user_prv backup_prv : Value)
      → CarriesOver false coin.is_evm req half
      → outcome answers (recover_with_keys w (user_part req) coin user_prv undefined) ≡ ok half
      → outcome answers (recover_with_keys w (backup_part req half) coin undefined backup_prv)
        ≡ outcome answers (recover_with_keys w (both_parts req) coin user_prv backup_prv)
  unfolding recover_with_keys outcome
  with_keys_split user_prv backup_prv carries h = ground (
    arith,
    evm_split w answers req coin user_prv backup_prv half,
    utxo_split w answers req coin user_prv backup_prv half,
  )

  abbrev retrieve_user : Exec Value
  retrieve_user = retrieve_key_provider_prv_key w req.user_pub "user" cfg

  abbrev retrieve_backup : Exec Value
  retrieve_backup = retrieve_key_provider_prv_key w req.backup_pub "backup" cfg

  abbrev local_recovery : RecoveryRequest → Exec Value
  local_recovery r = do
    user_prv ← fetch_user_key w cfg r
    backup_prv ← fetch_backup_key w cfg r
    recover_with_keys w r coin user_prv backup_prv

  local_split :
      CarriesOver false coin.is_evm req half
      → outcome answers (local_recovery (user_part req)) ≡ ok half
      → outcome answers (local_recovery (backup_part req half))
        ≡ outcome answers (local_recovery (both_parts req))
  unfolding fetch_user_key fetch_backup_key
  local_split carries h =
      let user_rest = λ (up : Value). recover_with_keys w (user_part req) coin up undefined in
      let (up, fetched, made) =
        next_step-ok answers user_rest _ (sym (outcome-bind answers retrieve_user user_rest) ∙ h) in
      let backup_rest =
        λ (bp : Value). recover_with_keys w (backup_part req half) coin undefined bp in
      let both_rest = λ (up' bp : Value). recover_with_keys w (both_parts req) coin up' bp in
      outcome-bind answers retrieve_backup backup_rest
      ∙ next_step_ext answers backup_rest (both_rest up) _
          (λ bp. with_keys_split up bp carries made)
      ∙ sym (outcome-bind answers retrieve_backup (both_rest up))
      ∙ sym (ap (next_step answers (λ up'. retrieve_backup >>= both_rest up')) fetched)
      ∙ sym (outcome-bind answers retrieve_user (λ up'. retrieve_backup >>= both_rest up'))

  -- The part of the external path behind `new KeyProviderClient`.
  abbrev external_rest : Option KeyToSign → Value → HttpClient → Exec Value
  external_rest key half_hex client = do
    tx_hex ← dot req.unsigned_sweep_prebuild_tx "txHex"
    recover_transaction_externally w client req.user_pub req.backup_pub tx_hex key half_hex

  client_split :
      (client : HttpClient) (before before' : Value)
      → outcome answers (external_rest (some user_key) before client) ≡ ok half
      → (truthy half ≡ true)
        × (is_string (prop half "txHex") ≡ true)
        × (outcome answers (external_rest (some backup_key) (prop half "txHex") client)
            ≡ outcome answers (external_rest none before' client))
  unfolding get truthy
  client_split client before before' h =
      let tx = dot req.unsigned_sweep_prebuild_tx "txHex" in
      let step = λ (key : Option KeyToSign) (half_hex tx_hex : Value).
        recover_transaction_externally w client req.user_pub req.backup_pub tx_hex key half_hex in
      let (tx_hex, read, made) =
        next_step-ok answers (step (some user_key) before) _
          (sym (outcome-bind answers tx _) ∙ h) in
      let (signature, signed, shape) =
        external_half w answers client req.user_pub req.backup_pub tx_hex before half made in
      let (texted, filled) =
        sign_step_result w answers client req.user_pub user tx_hex signature signed in
      (
        rw shape refl,
        rw shape texted,
        outcome-bind answers tx (step (some backup_key) (prop half "txHex"))
            ∙ ap (next_step answers (step (some backup_key) (prop half "txHex"))) read
            ∙ external_split w answers client req.user_pub req.backup_pub tx_hex before before' half
                made
            ∙ sym (ap (next_step answers (step none before')) read)
            ∙ sym (outcome-bind answers tx (step none before')),
      )

  connected_split :
      (made : Result HttpClient)
      → outcome answers
          (done made >>= external_rest (some user_key) (prop req.half_signed_transaction "txHex"))
        ≡ ok half
      → (truthy half ≡ true)
        × (outcome answers (
              check_external_backup (backup_part req half) coin >>= λ _.
              done made >>= external_rest (some backup_key) (prop half "txHex"))
            ≡ outcome answers
                (done made >>= external_rest none (prop req.half_signed_transaction "txHex")))
  unfolding check_external_backup outcome
  connected_split (err e) h = cc
  connected_split (ok client) h =
      let (filled, texted, same) =
        client_split client _ (prop req.half_signed_transaction "txHex") h in
      elim (Bool-cases coin.is_evm) [
        | inl evm ↦ (filled, rw (evm, filled, texted) same)
        | inr other ↦ (filled, rw other same)
      ]

  with_key_provider_split :
      outcome answers (recover_with_key_provider w cfg (user_part req) coin) ≡ ok half
      → (truthy half ≡ true)
        × (outcome answers (recover_with_key_provider w cfg (backup_part req half) coin)
            ≡ outcome answers (recover_with_key_provider w cfg (both_parts req) coin))
  unfolding recover_with_key_provider check_external_backup
  with_key_provider_split h = connected_split (new_key_provider w cfg) h

  recovery_split :
      get_coin w req.coin ≡ ok coin
      → CarriesOver (is_external_signing_enabled_for_coin cfg coin) coin.is_evm req half
      → outcome answers (recovery_multisig_transaction w cfg (user_part req)) ≡ ok half
      → outcome answers (recovery_multisig_transaction w cfg (backup_part req half))
        ≡ outcome answers (recovery_multisig_transaction w cfg (both_parts req))
  unfolding recovery_multisig_transaction outcome
  recovery_split found carries h = elim (Bool-cases (flagged cfg.recovery_mode)) [
    | inr off ↦ absurd (not_ok (rw off at h))
    | inl on ↦ elim (Bool-cases (is_external_signing_enabled_for_coin cfg coin)) [
      | inl ext ↦
          let (filled, same) = with_key_provider_split (rw (on, found, ext) at h) in
          rw (on, found, ext, filled) same
      | inr local ↦
          let carried : CarriesOver false coin.is_evm req half = rw local at carries in
          rw (on, found, local, carries-truthy coin.is_evm req half carried)
            (local_split carried (rw (on, found, local) at h))
    ]
  ]

-- With the same answers to the same calls, whenever the user's manager returns a half (`keyToSign`
-- "user"), the backup's manager, given that half, comes to the result or the error that one manager
-- with both keys comes to. Where keys are fetched the half has to be one that the backup's manager
-- accepts: `{ halfSigned: { txHex } }` for an EVM coin, `{ txHex }` with `txInfo` in the request
-- otherwise; where the key provider signs nothing more is needed.
pub split_recovery_agrees :
    (w : World) (answers : Call → Result Value) (cfg : AdvancedWalletManagerConfig)
    (req : RecoveryRequest) (coin : Coin) (half : Value)
    → get_coin w req.coin ≡ ok coin
    → CarriesOver (is_external_signing_enabled_for_coin cfg coin) coin.is_evm req half
    → (run (steady w answers) (recovery_multisig_transaction w cfg (user_part req)) []).0 ≡ ok half
    → (run (steady w answers) (recovery_multisig_transaction w cfg (backup_part req half)) []).0
      ≡ (run (steady w answers) (recovery_multisig_transaction w cfg (both_parts req)) []).0
split_recovery_agrees w answers cfg req coin half found carries h =
    run-steady answers w (recovery_multisig_transaction w cfg (backup_part req half)) []
    ∙ recovery_split w answers cfg req coin half found carries
        (sym (run-steady answers w (recovery_multisig_transaction w cfg (user_part req)) []) ∙ h)
    ∙ sym (run-steady answers w (recovery_multisig_transaction w cfg (both_parts req)) [])
