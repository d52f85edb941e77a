-- ===== src/Mbe/Recovery/Eddsa.antt =====
-- src/masterBitgoExpress/handlers/recoveryEddsa.ts. The modules of coins are loaded by the SDK.
use advanced_wallets.Base.{String, ◌<>◌, if◌then◌else◌}
use advanced_wallets.Js.{Value, undefined, str, obj, end, ◌⨾◌, prop}
use advanced_wallets.Exec.{Exec, Coin, near, sol, sdk, perform, ◌>>◌}
use advanced_wallets.Shared.CoinUtils.{is_family}

abbrev register : String → Exec Value
register name = perform (sdk (name <> " module") "register" undefined)

abbrev recover : Coin → Value → Exec Value
recover coin params = perform (sdk coin.name "recover" params)

abbrev near_params : Value → Value
near_params params =
    let key = prop params "bitgoKey" in
    obj (
      ("userKey", key)
      ⨾ ("backupKey", key)
      ⨾ ("bitgoKey", key)
      ⨾ ("recoveryDestination", prop params "recoveryDestination")
      ⨾ ("walletPassphrase", str "")
      ⨾ end)

unfoldable pub recover_eddsa_wallets : Coin → Value → Exec Value
recover_eddsa_wallets coin params =
    if is_family coin sol
    then (register "sol" >> recover coin params)
    else if is_family coin near
    then (register "near" >> recover coin (near_params params))
    else (register "ada" >> (register "sui" >> (register "dot" >> recover coin params)))
