-- ===== src/Awm/Recovery/External.antt =====
-- Recovery where the key provider signs.
use advanced_wallets.Base.{String, not, ◌&&◌, Option, ◌<>◌, if◌then◌else◌}
use advanced_wallets.Js.{Value, num, str, obj, end, ◌⨾◌, truthy, prop, is_number, text}
use advanced_wallets.Exec.{Exn, World, Exec, pure, throw, catch, throw_if, exn_prop, ◌>>=◌, ◌>>◌}
use advanced_wallets.Shared.Types.{KeySource, user, backup, source_text}
use advanced_wallets.Shared.Errors.{bitgo_api_response_error, bad_request_error, is_error}
use advanced_wallets.Shared.HttpClient.{HttpClient}
use advanced_wallets.Awm.KeyProvider.{sign}
use advanced_wallets.Awm.Recovery.Request.{KeyToSign, signs_backup_only, signs_user_only}

-- Wraps a failure of the key provider.
unfoldable pub signing_error : KeySource → Exn → Exn
unfolding bitgo_api_response_error
signing_error key_source error =
    let own_status = exn_prop error "status" in
    let status = if is_number own_status then own_status else num 500 in
    let own_message = exn_prop error "message" in
    let message =
      if is_error error.class && truthy own_message
      then text own_message
      else "Failed to sign recovery transaction for source=" <> source_text key_source in
    bitgo_api_response_error message status
      (obj (("keySource", str (source_text key_source)) ⨾ end))

-- `{ txHex: signature }`
abbrev pub tx_hex_result : Value → Value
tx_hex_result signature = obj (("txHex", signature) ⨾ end)

module _ (w : World) where
  -- One call of `keyProvider.sign`, with its `catch`; the answer is the signature.
  unfoldable pub sign_step : HttpClient → String → KeySource → Value → Exec Value
  unfolding signing_error
  sign_step key_provider pub_key source payload = do
    res ←
        catch
          (sign w key_provider (
            obj (
              ("pub", str pub_key)
              ⨾ ("source", str (source_text source))
              ⨾ ("signablePayload", payload)
              ⨾ ("algorithm", str w.ecdsa)
              ⨾ end)))
          λ e. throw (signing_error source e)
    pure (prop res "signature")

  unfoldable pub recover_transaction_externally :
      HttpClient → String → String → Value → Option KeyToSign → Value → Exec Value
  recover_transaction_externally key_provider user_pub backup_pub unsigned_tx_hex key_to_sign
        half_signed_tx_hex =
      if signs_backup_only key_to_sign
      then (do
        throw_if (not (truthy half_signed_tx_hex))
            (bad_request_error "halfSignedTxHex is required for backup-only external signing")
        full ← sign_step key_provider backup_pub backup half_signed_tx_hex
        pure (tx_hex_result full))
      else (do
        half ← sign_step key_provider user_pub user unsigned_tx_hex
        if signs_user_only key_to_sign then pure (tx_hex_result half) else (do
          full ← sign_step key_provider backup_pub backup half
          pure (tx_hex_result full)))
