-- ===== src/Awm/Recovery/Request.antt =====
-- The request of multisigRecovery.ts, as `req.decoded` gives it, and the narrowing tests on it.
use advanced_wallets.Base.{String, Bool, true, false, Option, some, ◌&&◌}
use advanced_wallets.Js.{Value, prop, is_record, is_string}

pub data KeyToSign : Type 0 where
  user_key backup_key : KeyToSign

pub record RecoveryRequest : Type 0 where
  pub coin : String
  pub user_pub : String
  pub backup_pub : String
  pub bitgo_pub : Option String
  pub unsigned_sweep_prebuild_tx : Value
  pub wallet_contract_address : Value
  pub key_to_sign : Option KeyToSign
  pub half_signed_transaction : Value
  -- `bitgo.env` of the SDK object that the request carries
  pub env : String

-- `keyToSign === 'backup'`
abbrev pub signs_backup_only : Option KeyToSign → Bool
signs_backup_only (some backup_key) = true
signs_backup_only _ = false

-- `keyToSign === 'user'`
abbrev pub signs_user_only : Option KeyToSign → Bool
signs_user_only (some user_key) = true
signs_user_only _ = false

-- `RecoveryMultisigFlatTxHexCodec.is(value)`
unfoldable pub is_half_signed_utxo_transaction : Value → Bool
is_half_signed_utxo_transaction v = is_record v && is_string (prop v "txHex")

-- `RecoveryMultisigEthLikeHalfSignedCodec.is(value)`
unfoldable pub is_signed_eth_like_recovery_tx : Value → Bool
is_signed_eth_like_recovery_tx v =
    is_record v && is_record (prop v "halfSigned") && is_string (prop (prop v "halfSigned") "txHex")
