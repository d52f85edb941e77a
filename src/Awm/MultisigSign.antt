-- ===== src/Awm/MultisigSign.antt =====
-- src/advancedWalletManager/handlers/multisigSignTransaction.ts
pub mod External
pub mod Local
use advanced_wallets.Base.{String, Bool, not, ◌&&◌, ◌||◌, ◌<>◌, if◌then◌else◌}
use advanced_wallets.Js.{
  Value, str, arr, nil, cons, obj, Fields, end, ◌⨾◌, truthy, prop, is_nil, is_array, spread,
}
use advanced_wallets.Exec.{
  World, Exec, Coin, sdk, pure, throw, lift, catch, perform, throw_if, plain_error, dot, ◌>>=◌,
  ◌>>◌,
}
use advanced_wallets.Shared.Types.{AdvancedWalletManagerConfig}
use advanced_wallets.Shared.HttpClient.{HttpClient}
use advanced_wallets.Shared.CoinUtils.{is_eth_like_coin}
use advanced_wallets.Shared.CoinFactory.{get_coin}
use advanced_wallets.Awm.KeyProvider.{new_key_provider, get_key, sign}
use advanced_wallets.Awm.Utils.{
  status_and_message, is_external_signing_enabled_for_coin, is_non_bitgo_key_source,
}

-- The request: `req.params.coin` and `req.body`.
pub record SignRequest : Type 0 where
  pub coin : String
  pub source : String
  pub pub_key : String
  pub tx_prebuild : Value
  pub wallet_pubs : Value

-- `MPCType.ECDSA` of ecdsaEddsaSignTransaction.ts
abbrev pub mpc_ecdsa : String
mpc_ecdsa = "ecdsa"

-- `{ pub, source, signablePayload, algorithm: MPCType.ECDSA }`
abbrev pub sign_params : String → String → Value → Value
sign_params pub_key source payload = obj (
    ("pub", str pub_key)
    ⨾ ("source", str source)
    ⨾ ("signablePayload", payload)
    ⨾ ("algorithm", str mpc_ecdsa)
    ⨾ end)

-- `...(walletPubs && { pubs: walletPubs })`
abbrev pubs_entry : Value → Fields
pubs_entry wallet_pubs = if truthy wallet_pubs then ("pubs", wallet_pubs) ⨾ end else end

-- What the SDK is asked to sign with the key that was fetched.
unfoldable pub local_sign_args : SignRequest → Value → Value
local_sign_args req prv =
    obj (spread (("txPrebuild", req.tx_prebuild) ⨾ ("prv", prv) ⨾ end) (pubs_entry req.wallet_pubs))

is_eth_transaction_prebuild : Value → Exec Bool
is_eth_transaction_prebuild tx_prebuild = do
  recipients ← dot tx_prebuild "recipients"
  pure (is_array recipients && not (is_nil (prop tx_prebuild "nextContractSequenceId")))

module _ (w : World) where
  sign_eth_transaction_externally : HttpClient → String → String → Value → Coin → Exec Value
  sign_eth_transaction_externally key_provider pub_key source tx_prebuild coin = do
    recipients ← dot tx_prebuild "recipients"
    let sequence_id = prop tx_prebuild "nextContractSequenceId"
    throw_if (not (truthy recipients) || is_nil sequence_id) (
        plain_error
          "txPrebuild must include recipients and nextContractSequenceId for ETH transaction")
    expire_time ← perform (sdk coin.name "getDefaultExpireTime" (arr nil))
    operation_hash ← perform (
        sdk coin.name "getOperationSha3ForExecuteAndConfirm"
          (arr (cons recipients (cons expire_time (cons sequence_id nil)))))
    res ←
        catch (sign w key_provider (sign_params pub_key source operation_hash))
          λ e. throw (status_and_message "Failed to sign ETH transaction via key provider" e)
    pure (
        obj (
          (
            "halfSigned",
            obj (
                ("recipients", recipients)
                ⨾ ("expireTime", expire_time)
                ⨾ ("contractSequenceId", sequence_id)
                ⨾ ("operationHash", operation_hash)
                ⨾ ("signature", prop res "signature")
                ⨾ ("isBatch", prop tx_prebuild "isBatch")
                ⨾ end),
          )
          ⨾ end))

  sign_hex_externally : HttpClient → String → String → Value → Exec Value
  sign_hex_externally key_provider pub_key source tx_prebuild = do
    tx_hex ← dot tx_prebuild "txHex"
    throw_if (not (truthy tx_hex))
        (plain_error "txPrebuild must include txHex for non-ETH external signing")
    res ←
        catch (sign w key_provider (sign_params pub_key source tx_hex))
          λ e. throw (status_and_message "Failed to sign transaction via key provider" e)
    pure (obj (("txHex", prop res "signature") ⨾ end))

  unfoldable pub sign_transaction_externally :
      HttpClient → String → String → Value → Coin → Exec Value
  unfolding is_eth_transaction_prebuild sign_eth_transaction_externally sign_hex_externally
  sign_transaction_externally key_provider pub_key source tx_prebuild coin = do
    throw_if (not (is_non_bitgo_key_source source))
        (plain_error ("Invalid source: " <> source <> ". Must be 'user' or 'backup'."))
    if is_eth_like_coin coin
        then (do
          is_eth ← is_eth_transaction_prebuild tx_prebuild
          throw_if (not is_eth) (
              plain_error
                "ETH prebuild missing required fields: recipients, nextContractSequenceId")
          sign_eth_transaction_externally key_provider pub_key source tx_prebuild coin)
        else sign_hex_externally key_provider pub_key source tx_prebuild

  unfoldable pub sign_transaction_locally : HttpClient → SignRequest → Coin → Exec Value
  unfolding local_sign_args
  sign_transaction_locally key_provider req coin = do
    res ←
        catch (get_key w key_provider req.pub_key req.source)
          λ e. throw (status_and_message "Failed to retrieve key from key provider" e)
    perform (sdk coin.name "signTransaction" (local_sign_args req (prop res "prv")))

  unfoldable pub sign_multisig_transaction : AdvancedWalletManagerConfig → SignRequest → Exec Value
  sign_multisig_transaction cfg req = do
    key_provider ← lift (new_key_provider w cfg)
    coin ← lift (get_coin w req.coin)
    if is_external_signing_enabled_for_coin cfg coin
        then sign_transaction_externally key_provider req.pub_key req.source req.tx_prebuild coin
        else sign_transaction_locally key_provider req coin
