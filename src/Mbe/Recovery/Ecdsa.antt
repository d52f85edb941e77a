-- ===== src/Mbe/Recovery/Ecdsa.antt =====
-- src/masterBitgoExpress/handlers/recoveryEcdsa.ts. What a coin answers without an effect (its
-- denomination, its gas) is asked once; numbers of any size are the SDK's.
use advanced_wallets.Base.{not, ◌||◌, ◌<>◌, if◌then◌else◌}
use advanced_wallets.Js.{
  Value, undefined, null, num, str, obj, end, ◌⨾◌, arr, nil, cons, Items, prop, truthy, text,
  strict_eq, or_else,
}
use advanced_wallets.Js.Parse.{parse_int}
use advanced_wallets.Js.Texts.{first_chars}
use advanced_wallets.Exec.{
  Exec, Coin, sdk, pure, throw, throw_if, perform, plain_error, dot, ◌>>=◌, ◌>>◌,
}
use advanced_wallets.Shared.CoinUtils.{is_eth_like_coin, is_cosmos_like_coin}
use advanced_wallets.Shared.Errors.{validation_error}
use advanced_wallets.Shared.TransactionUtils.{is_mpc_sweep_txs}
use advanced_wallets.Awm.Mpc.{parsed}
use advanced_wallets.Mbe.AwmClient.{AwmClient}
use advanced_wallets.Mbe.AwmClient.Mpc.{recover_ecdsa_mpc_v2_wallet}
use advanced_wallets.Mbe.Wallets.{item}

-- `recoverEcdsaMpcV2Params`; parameters that are left out are `undefined`.
pub record EcdsaRecoveryParams : Type 0 where
  pub common_keychain : Value
  pub eth_like_params : Value
  pub cosmos_like_params : Value

-- The unsigned transaction, and the key that signs it.
unfoldable pub eth_like_unsigned : Coin → Value → Exec (Value × Value)
eth_like_unsigned coin params = do
  throw_if (not (truthy params))
      (plain_error "Eth like recovery params are required for Ecdsa MPCv2 recovery")
  response ← perform (sdk coin.name "recover" params)
  throw_if (not (is_mpc_sweep_txs response))
      (plain_error "Created eth-like recovery tx is not in MPC Sweep format")
  let request = item (prop response "txRequests") 0
  pure (prop (item (prop request "transactions") 0) "unsignedTx", prop params "userKey")

abbrev of_denomination : Value → Items → Value
of_denomination denom nil = undefined
of_denomination denom (cons balance balances) =
    let rest = of_denomination denom balances in
    if strict_eq (prop balance "denom") denom then balance else rest

abbrev items_of : Value → Items
items_of (arr xs) = xs
items_of _ = nil

abbrev amounts : Value → Value → Value
amounts denom amount = arr (cons (obj (("denom", denom) ⨾ ("amount", amount) ⨾ end)) nil)

abbrev big_number : Value → Exec Value
big_number v = perform (sdk "BigNumber" "new" v)

-- The balance of the sender, less the gas.
unfoldable pub recoverable_amount : Value → Value → Value → Value → Exec Value
recoverable_amount sender balances denom gas_amount = do
  let balance = of_denomination denom (items_of balances)
  throw_if (not (truthy balances) || not (truthy balance))
      (plain_error ("No balances found for address: " <> text sender))
  held ← big_number (or_else (prop balance "amount") (num 0))
  gas ← big_number gas_amount
  actual ← perform (sdk "BigNumber" "minus" (arr (cons held (cons gas nil))))
  none_left ← perform (sdk "BigNumber" "isLessThanOrEqualTo" (arr (cons actual (cons (num 0) nil))))
  throw_if (truthy none_left) (plain_error "Did not have enough funds to recover")
  perform (sdk "BigNumber" "toFixed" actual)

-- `MPC.deriveUnhardened(commonKeychain, 'm/0').slice(0, 66)`
unfoldable pub account_key : Value → Exec Value
account_key common_keychain = do
  derived ←
      perform (sdk "Ecdsa" "deriveUnhardened" (arr (cons common_keychain (cons (str "m/0") nil))))
  pure (str (first_chars 66 (text derived)))

abbrev transfer : Value → Value → Value → Value
transfer sender recipient amount =
    arr (
      cons (obj (("fromAddress", sender) ⨾ ("toAddress", recipient) ⨾ ("amount", amount) ⨾ end))
        nil)

-- `Number(v)` of a number, or of a text of digits
abbrev number_of : Value → Value
number_of (num n) = num n
number_of (str s) = parse_int s
number_of _ = null

unfoldable pub cosmos_like_unsigned : Coin → EcdsaRecoveryParams → Exec (Value × Value)
cosmos_like_unsigned coin params = do
  throw_if (not (truthy params.cosmos_like_params))
      (plain_error "Cosmos like recovery params are required for Ecdsa MPCv2 recovery")
  public_key ← account_key params.common_keychain
  sender ← perform (sdk coin.name "getAddressFromPublicKey" public_key)
  chain_id ← perform (sdk coin.name "getChainId" undefined)
  account ← perform (sdk coin.name "getAccountDetails" sender)
  balances ← perform (sdk coin.name "getAccountBalance" sender)
  denom ← perform (sdk coin.name "getDenomination" undefined)
  gas ← perform (sdk coin.name "getGasAmountDetails" undefined)
  amount ← recoverable_amount sender balances denom (prop gas "gasAmount")
  builder ← perform (sdk coin.name "getTransferBuilder" undefined)
  built ← perform (
      sdk "CosmosTransactionBuilder" "build" (
        obj (
          ("builder", builder)
          ⨾ (
            "messages",
            transfer sender (prop params.cosmos_like_params "recoveryDestination")
                (amounts denom amount),
          )
          ⨾ (
            "gasBudget",
            obj (
                ("amount", amounts denom (prop gas "gasAmount"))
                ⨾ ("gasLimit", prop gas "gasLimit")
                ⨾ end),
          )
          ⨾ ("sequence", number_of (item account 1))
          ⨾ ("accountNumber", number_of (item account 0))
          ⨾ ("chainId", chain_id)
          ⨾ ("publicKey", public_key)
          ⨾ end)))
  hex ← perform (
      sdk "Buffer" "toString"
        (obj (("buffer", prop built "signablePayload") ⨾ ("as", str "hex") ⨾ end)))
  pure (obj (("signableHex", hex) ⨾ end), params.common_keychain)

unfoldable pub unsigned_recovery : Coin → EcdsaRecoveryParams → Exec (Value × Value)
unsigned_recovery coin params =
    if is_eth_like_coin coin
    then eth_like_unsigned coin params.eth_like_params
    else if is_cosmos_like_coin coin
    then cosmos_like_unsigned coin params
    else throw (
        validation_error ("Unsupported coin family for Ecdsa MPCv2 recovery: " <> coin.family_text))

unfoldable pub check_signature : Value → Exec (Unit {0})
check_signature signature =
    throw_if
      (not (truthy signature)
        || strict_eq (prop signature "recid") undefined
        || not (truthy (prop signature "r"))
        || not (truthy (prop signature "s"))
        || not (truthy (prop signature "y")))
      (plain_error "Invalid signature returned from advanced wallet manager for Ecdsa recovery")

-- `Buffer.from(hex, 'hex')`
abbrev from_hex : Value → Exec Value
from_hex hex = perform (sdk "Buffer" "from" (arr (cons hex (cons (str "hex") nil))))

unfoldable pub eth_like_signed : Coin → Value → Value → Value → Exec Value
eth_like_signed coin params hex signature = do
  buffer ← from_hex hex
  unsigned ← perform (sdk "TransactionFactory" "fromSerializedData" buffer)
  let options = prop params "replayProtectionOptions"
  common ← perform (sdk "AbstractEthLikeNewCoins" "getCustomChainCommon" (prop options "chain"))
  perform (
      sdk "EthereumCommon" "setHardfork"
        (obj (("common", common) ⨾ ("hardfork", prop options "hardfork") ⨾ end)))
  signed ← perform (
      sdk coin.name "getSignedTxFromSignature"
        (arr (cons common (cons unsigned (cons signature nil)))))
  serialized ← perform (sdk "TypedTransaction" "serialize" signed)
  shown ← perform (sdk "Buffer" "toString" (obj (("buffer", serialized) ⨾ ("as", str "hex") ⨾ end)))
  pure (obj (("txHex", str ("0x" <> text shown)) ⨾ end))

unfoldable pub cosmos_like_signed : Coin → Value → Value → Value → Exec Value
cosmos_like_signed coin common_keychain hex signature = do
  message ← from_hex hex
  hash ← perform (sdk coin.name "getHashFunction" undefined)
  perform (sdk "Ecdsa" "verify" (arr (cons message (cons signature (cons hash nil)))))
  public_key ← account_key common_keychain
  key_pair ← perform (sdk coin.name "getKeyPair" public_key)
  builder ← perform (sdk coin.name "getBuilder.from" hex)
  keys ← perform (sdk "CosmosKeyPair" "getKeys" key_pair)
  signature_buffer ← from_hex (str (text (prop signature "r") <> text (prop signature "s")))
  perform (
      sdk "CosmosTransactionBuilder" "addSignature" (
        obj (
          ("builder", builder)
          ⨾ ("publicKey", obj (("pub", prop keys "pub") ⨾ end))
          ⨾ ("signature", signature_buffer)
          ⨾ end)))
  signed ← perform (sdk "CosmosTransactionBuilder" "build" builder)
  tx_hex ← perform (sdk "Transaction" "toBroadcastFormat" signed)
  pure (obj (("txHex", tx_hex) ⨾ end))

-- The transaction is built, signed by the wallet manager with both keys, and put together.
unfoldable pub recover_ecdsa_mpc_v2_wallets : Coin → AwmClient → EcdsaRecoveryParams → Exec Value
recover_ecdsa_mpc_v2_wallets coin client params = do
  unsigned ← unsigned_recovery coin params
  hex ← dot unsigned.0 "signableHex"
  throw_if (not (truthy hex))
      (plain_error "Failed to create unsigned transaction for Ecdsa MPCv2 recovery")
  response ← recover_ecdsa_mpc_v2_wallet client hex unsigned.1
  signature ← parsed (text (prop response "stringifiedSignature"))
  check_signature signature
  if is_eth_like_coin coin
      then eth_like_signed coin params.eth_like_params hex signature
      else if is_cosmos_like_coin coin
      then cosmos_like_signed coin params.common_keychain hex signature
      else throw (plain_error "This error should be unreachable.")
