-- ===== src/Mbe/Consolidate/Handler.antt =====
-- src/masterBitgoExpress/handlers/handleConsolidate.ts: the handler, and the way of MPC wallets.
use advanced_wallets.Base.{Bool, not, ◌&&◌, if◌then◌else◌}
use advanced_wallets.Js.{
  Value, undefined, str, arr, Items, nil, obj, Fields, end, ◌⨾◌, entries, set, prop, truthy,
  is_array,
}
use advanced_wallets.Exec.{World, Coin, Exec, sdk, throw_if, perform, plain_error, ◌>>=◌, ◌>>◌}
use advanced_wallets.Mbe.Wallets.{is_tss, get_wallet_and_signing_keychain, get_wallet_pubs}
use advanced_wallets.Mbe.SendMany.{MasterRequest}
use advanced_wallets.Mbe.MpcSign.{sign_and_send_tx_requests}
use advanced_wallets.Mbe.Consolidate.{send_account_consolidation, send_consolidations}

-- One build of an MPC wallet.
unfoldable pub send_mpc_consolidation : Coin → Value → Value → Value → Exec Value
send_mpc_consolidation coin wallet keychain build = do
  let tx_request_id = prop build "txRequestId"
  throw_if (not (truthy tx_request_id)) (plain_error "Missing txRequestId in unsigned build")
  tx_request ← perform (
      sdk "sdk-core" "getTxRequest"
        (obj (("walletId", prop wallet "id") ⨾ ("txRequestId", tx_request_id) ⨾ end)))
  sign_and_send_tx_requests coin wallet tx_request keychain

abbrev consolidation_params : Value → Bool → Fields
consolidation_params params is_mpc =
    if is_mpc then set (entries params) "apiVersion" (str "full") else entries params

abbrev items_of : Value → Items
items_of (arr xs) = xs
items_of _ = nil

unfoldable pub send_build : MasterRequest → Coin → Value → Value → Value → Value → Exec Value
send_build req coin wallet keychain pubs build =
    if is_tss wallet
    then send_mpc_consolidation coin wallet keychain build
    else send_account_consolidation req coin keychain pubs build

unfoldable pub handle_consolidate : World → MasterRequest → Exec Value
handle_consolidate w req = do
  found ← get_wallet_and_signing_keychain w req.coin req.wallet_id req.decoded
  pubs ← get_wallet_pubs found.base_coin found.wallet
  allowed ← perform (sdk found.base_coin.name "allowsAccountConsolidations" undefined)
  throw_if (not (truthy allowed))
      (plain_error "Invalid coin selected - account consolidations not supported")
  let addresses = prop req.decoded "consolidateAddresses"
  throw_if (truthy addresses && not (is_array addresses))
      (plain_error "consolidateAddresses must be an array of addresses")
  builds ← perform (
      sdk found.base_coin.name "wallet.buildAccountConsolidations"
        (obj (consolidation_params req.decoded (is_tss found.wallet))))
  send_consolidations (send_build req found.base_coin found.wallet found.signing_keychain pubs)
      (items_of builds)
