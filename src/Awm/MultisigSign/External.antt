-- ===== src/Awm/MultisigSign/External.antt =====
-- External signing: the private key never leaves the key provider.
use advanced_wallets.Base.{◌≡◌, refl, true, false, [], str_eq, ◌<>◌}
use advanced_wallets.Js.{Value, str, prop, get}
use advanced_wallets.Exec.{Call, http, sdk, ok, World, Coin, run}
use advanced_wallets.Exec.Only.{Only, All, All-run, only_rules}
use advanced_wallets.Shared.Types.{AdvancedWalletManagerConfig}
use advanced_wallets.Shared.HttpClient.{HttpClient, request}
use advanced_wallets.Shared.CoinFactory.{get_coin}
use advanced_wallets.Awm.KeyProvider.{new_key_provider, sign}
use advanced_wallets.Awm.KeyProvider.Calls.{Only-sign, post_to}
use advanced_wallets.Awm.Utils.{is_external_signing_enabled_for_coin}
use advanced_wallets.Awm.MultisigSign.{
  SignRequest, sign_params, is_eth_transaction_prebuild, sign_eth_transaction_externally,
  sign_hex_externally, sign_transaction_externally, sign_multisig_transaction,
}

-- What may be called to sign a request externally: `POST …/sign` of the key provider, for the key
-- and the source of the request, and methods of the SDK other than `signTransaction`.
abbrev pub SignsExternally : HttpClient → SignRequest → Call → Type 0
SignsExternally client req (http r) =
    (r.method ≡ "post")
    × (r.url ≡ client.url <> "/sign")
    × (prop r.body "pub" ≡ str req.pub_key)
    × (prop r.body "source" ≡ str req.source)
SignsExternally client req (sdk object method args) = str_eq method "signTransaction" ≡ false

module _ (w : World) (client : HttpClient) (req : SignRequest) (coin : Coin) where
  sign_allowed :
      (payload : Value)
      → Only
          (SignsExternally client req)
          (sign w client (sign_params req.pub_key req.source payload))
  unfolding request get post_to
  sign_allowed payload = Only-sign w client _ (refl, refl, refl, refl)

  ruleset external_rules = (only_rules, sign_allowed)

  hex-Only :
      Only
        (SignsExternally client req)
        (sign_hex_externally w client req.pub_key req.source req.tx_prebuild)
  unfolding sign_hex_externally
  hex-Only = search external_rules depth 9

  is_eth-Only : Only (SignsExternally client req) (is_eth_transaction_prebuild req.tx_prebuild)
  unfolding is_eth_transaction_prebuild
  is_eth-Only = search external_rules depth 9

  eth-Only :
      Only
        (SignsExternally client req)
        (sign_eth_transaction_externally w client req.pub_key req.source req.tx_prebuild coin)
  unfolding sign_eth_transaction_externally
  eth-Only = search external_rules depth 12

  externally-Only :
      Only
        (SignsExternally client req)
        (sign_transaction_externally w client req.pub_key req.source req.tx_prebuild coin)
  unfolding sign_transaction_externally
  externally-Only = search (external_rules, hex-Only, is_eth-Only, eth-Only) depth 9

-- With external signing enabled for the coin, whatever the services answer, every call that signing
-- a request makes is `POST /sign` of the key provider for the key and source of the request, or a
-- method of the SDK other than `signTransaction`: no private key is fetched, and none is used.
pub external_signing_calls :
    (w : World) (cfg : AdvancedWalletManagerConfig) (req : SignRequest) (client : HttpClient)
    (coin : Coin)
    → new_key_provider w cfg ≡ ok client
    → get_coin w req.coin ≡ ok coin
    → is_external_signing_enabled_for_coin cfg coin ≡ true
    → All (SignsExternally client req) (run w (sign_multisig_transaction w cfg req) []).1
unfolding sign_multisig_transaction
external_signing_calls w cfg req client coin made found enabled =
    All-run w _ [] (rw (made, found, enabled) (externally-Only w client req coin)) tt
