-- ===== src/Awm/IndependentKey.antt =====
-- src/advancedWalletManager/handlers/postIndependentKey.ts
pub mod External
pub mod Local
use advanced_wallets.Base.{String, not, ◌&&◌, if◌then◌else◌}
use advanced_wallets.Js.{Value, str, arr, nil, obj, end, ◌⨾◌, truthy, prop}
use advanced_wallets.Exec.{
  World, Exec, Coin, sdk, throw, lift, catch, perform, throw_if, plain_error, ◌>>=◌, ◌>>◌,
}
use advanced_wallets.Shared.Types.{AdvancedWalletManagerConfig}
use advanced_wallets.Shared.HttpClient.{HttpClient}
use advanced_wallets.Shared.CoinFactory.{get_coin}
use advanced_wallets.Awm.KeyProvider.{new_key_provider, generate_key, post_key}
use advanced_wallets.Awm.Utils.{
  status_and_message, is_external_signing_enabled_for_coin, is_non_bitgo_key_source,
}

-- The request: `req.params.coin` and `req.decoded`; `seed` may be `undefined`.
pub record KeyRequest : Type 0 where
  pub coin : String
  pub source : String
  pub seed : Value

generate_key_via_key_provider : Exec Value → Exec Value
generate_key_via_key_provider key_generator =
    catch key_generator λ e. throw (status_and_message "Failed to generate key via key provider" e)

module _ (w : World) where
  generate_in_key_provider : HttpClient → KeyRequest → Exec Value
  unfolding generate_key_via_key_provider
  generate_in_key_provider key_provider req = generate_key_via_key_provider (
      generate_key w key_provider (
        obj (
          ("coin", str req.coin) ⨾ ("source", str req.source) ⨾ ("type", str "independent") ⨾ end)))

  create_and_post : HttpClient → KeyRequest → Coin → Exec Value
  unfolding generate_key_via_key_provider
  create_and_post key_provider req coin = do
    pair ← perform (sdk coin.name "keychains.create" (arr nil))
    throw_if (not (truthy (prop pair "pub"))) (plain_error "BitGo SDK failed to create public key")
    generate_key_via_key_provider (
        post_key w key_provider (
          obj (
            ("pub", prop pair "pub")
            ⨾ ("prv", prop pair "prv")
            ⨾ ("coin", str req.coin)
            ⨾ ("source", str req.source)
            ⨾ ("type", str "independent")
            ⨾ ("seed", req.seed)
            ⨾ end)))

  unfoldable pub post_independent_key : AdvancedWalletManagerConfig → KeyRequest → Exec Value
  unfolding generate_in_key_provider create_and_post
  post_independent_key cfg req = do
    key_provider ← lift (new_key_provider w cfg)
    coin ← lift (get_coin w req.coin)
    if is_external_signing_enabled_for_coin cfg coin && is_non_bitgo_key_source req.source
        then generate_in_key_provider key_provider req
        else create_and_post key_provider req coin
