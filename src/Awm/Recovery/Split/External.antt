-- ===== src/Awm/Recovery/Split/External.antt =====
-- Two managers against one, where the key provider signs.
use advanced_wallets.Base.{String, ◌≡◌, sym, ap, ◌∙◌, true, none, some, arith}
use advanced_wallets.Js.{Value, get, truthy, prop, is_string}
use advanced_wallets.Exec.{Call, Result, ok, World, pure, ◌>>=◌}
use advanced_wallets.Exec.Steady.{outcome, outcome-bind, next_step, next_step-ok}
use advanced_wallets.Shared.Types.{KeySource, user, backup}
use advanced_wallets.Shared.HttpClient.{HttpClient, call, post_call}
use advanced_wallets.Awm.KeyProvider.{sign, sign_response_schema}
use advanced_wallets.Awm.Recovery.Request.{user_key, backup_key}
use advanced_wallets.Awm.Recovery.External.{
  sign_step, recover_transaction_externally, tx_hex_result,
}

module _ (w : World) (answers : Call → Result Value) (client : HttpClient) where
  -- A signature that the key provider gave is a text, and not empty.
  pub sign_step_result :
      (pub_key : String) (source : KeySource) (payload signature : Value)
      → outcome answers (sign_step w client pub_key source payload) ≡ ok signature
      → (is_string signature ≡ true) × (truthy signature ≡ true)
  unfolding sign_step sign call post_call sign_response_schema outcome
  sign_step_result pub_key source payload signature h = ground arith

  module _ (user_pub backup_pub : String) (tx_hex : Value) where
    -- The half that the user's manager returns is `{ txHex }`, with a text that is not empty.
    pub external_half :
        (before half : Value)
        → outcome answers (
            recover_transaction_externally w client user_pub backup_pub tx_hex
              (some user_key)
              before)
          ≡ ok half
        → (signature : Value) × (outcome answers (sign_step w client user_pub user tx_hex)
            ≡ ok signature)
          × (half ≡ tx_hex_result signature)
    unfolding recover_transaction_externally outcome
    external_half before half h =
        let (signature, signed, shape) =
          next_step-ok answers (λ s. pure (tx_hex_result s)) _
            (sym (outcome-bind answers (sign_step w client user_pub user tx_hex) _) ∙ h) in
        (signature, signed, ground arith)

    -- What the backup's manager makes of that half is what one manager makes of both keys.
    pub external_split :
        (before before' half : Value)
        → outcome answers (
            recover_transaction_externally w client user_pub backup_pub tx_hex
              (some user_key)
              before)
          ≡ ok half
        → outcome answers (
            recover_transaction_externally w client user_pub backup_pub tx_hex
              (some backup_key)
              (prop half "txHex"))
          ≡ outcome answers
              (recover_transaction_externally w client user_pub backup_pub tx_hex none before')
    unfolding recover_transaction_externally get
    external_split before before' half h =
        let (signature, signed, shape) = external_half before half h in
        let (_, filled) = sign_step_result user_pub user tx_hex signature signed in
        let then_backup = λ (s : Value).
          sign_step w client backup_pub backup s >>= λ full. pure (tx_hex_result full) in
        rw shape (
          rw filled (
            sym (
              outcome-bind answers (sign_step w client user_pub user tx_hex) then_backup
              ∙ ap (next_step answers then_backup) signed)))
