-- ===== src/Shared/RecoveryUtils.antt =====
-- src/shared/recoveryUtils.ts: what is added to a signed recovery transaction of an EVM coin.
use advanced_wallets.Base.{String, Bool, true, false, str_eq, if◌then◌else◌}
use advanced_wallets.Js.{
  Value, bool, num, str, obj, Fields, end, ◌⨾◌, get, has, set, truthy, prop, entries, is_nil,
}

unfoldable pub get_replay_protection_options : String → Value → Value
get_replay_protection_options env options =
    if is_nil options
    then obj (
        ("chain", num (if str_eq env "prod" then 1 else 560048)) ⨾ ("hardfork", str "london") ⨾ end)
    else options

-- `if (test) { decoratedSignedTx[key] = value; }`
abbrev pub set_if : Bool → String → Value → Fields → Fields
set_if test key value tx = if test then set tx key value else tx

-- `if (transaction[key]) { decoratedSignedTx[key] = transaction[key]; }`
abbrev pub copy_if : Value → String → Fields → Fields
copy_if transaction key = set_if (truthy (prop transaction key)) key (prop transaction key)

fees_used : Value → Value
fees_used transaction =
    obj
      (("gasPrice", prop transaction "gasPrice") ⨾ ("gasLimit", prop transaction "gasLimit") ⨾ end)

-- The fields up to `amount`.
copy_extras : Value → Fields → Fields
unfolding fees_used
copy_extras transaction tx =
    let tx₁ = set_if (truthy (get tx "signatures")) "isFullSigned" (bool true) tx in
    let tx₂ = copy_if transaction "feeInfo" tx₁ in
    let tx₃ = copy_if transaction "coin" tx₂ in
    let tx₄ = copy_if transaction "gasPrice" tx₃ in
    let tx₅ = copy_if transaction "gasLimit" tx₄ in
    let tx₆ = copy_if transaction "eip1559" tx₅ in
    let tx₇ =
      set_if
        (if truthy (prop transaction "gasPrice")
          then truthy (prop transaction "gasLimit")
          else false)
        "feesUsed" (fees_used transaction) tx₆ in
    let tx₈ = copy_if transaction "isEvmBasedCrossChainRecovery" tx₇ in
    copy_if transaction "amount" tx₈

-- The block under `if (!isLastSignature)`.
half_signed_extras : String → Value → Value → Fields → Fields
half_signed_extras env transaction options tx =
    let tx₁ = set tx "isHalfSigned" (bool true) in
    let tx₂ = set tx₁ "backupKeyNonce" (
      if has (entries transaction) "backupKeyNonce"
      then prop transaction "backupKeyNonce"
      else prop transaction "nextContractSequenceId") in
    let tx₃ = set tx₂ "walletContractAddress" (prop transaction "walletContractAddress") in
    set tx₃ "replayProtectionOptions" (get_replay_protection_options env options)

unfoldable pub add_eth_like_recovery_extras : String → Fields → Value → Bool → Value → Fields
unfolding copy_extras half_signed_extras get_replay_protection_options
add_eth_like_recovery_extras env signed_tx transaction is_last_signature options =
    let decorated = copy_extras transaction signed_tx in
    if is_last_signature then decorated else half_signed_extras env transaction options decorated

-- `DEFAULT_MUSIG_ETH_GAS_PARAMS`
abbrev pub default_gas_price : Value
default_gas_price = num 20000000000

abbrev pub default_gas_limit : Value
default_gas_limit = num 200000

abbrev pub default_eip1559 : Value
default_eip1559 =
    obj (("maxFeePerGas", num 20000000000) ⨾ ("maxPriorityFeePerGas", num 10000000000) ⨾ end)
