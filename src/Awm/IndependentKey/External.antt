-- ===== src/Awm/IndependentKey/External.antt =====
-- External signing: a key of the user or the backup is made in the key provider.
use advanced_wallets.Base.{◌≡◌, true, []}
use advanced_wallets.Js.{str, obj, end, ◌⨾◌}
use advanced_wallets.Exec.{Call, ok, World, Coin, run}
use advanced_wallets.Exec.Only.{Only, All, All-run, only_rules}
use advanced_wallets.Shared.Types.{AdvancedWalletManagerConfig}
use advanced_wallets.Shared.HttpClient.{HttpClient}
use advanced_wallets.Shared.CoinFactory.{get_coin}
use advanced_wallets.Awm.KeyProvider.{new_key_provider}
use advanced_wallets.Awm.KeyProvider.Calls.{Only-generate_key, post_to}
use advanced_wallets.Awm.Utils.{is_external_signing_enabled_for_coin, is_non_bitgo_key_source}
use advanced_wallets.Awm.IndependentKey.{KeyRequest, generate_in_key_provider, post_independent_key}

-- `POST …/key/generate` for the request's coin and source: it carries no private key and no seed.
abbrev pub generate_call : HttpClient → KeyRequest → Call
generate_call client req =
    post_to client "/key/generate" (
      obj (("coin", str req.coin) ⨾ ("source", str req.source) ⨾ ("type", str "independent") ⨾ end))

generate-Only :
    (w : World) (client : HttpClient) (req : KeyRequest)
    → Only (λ c. c ≡ generate_call client req) (generate_in_key_provider w client req)
unfolding generate_in_key_provider
generate-Only w client req = search (only_rules, Only-generate_key) depth 9

-- With external signing for the coin, a key of the user or the backup is made by the key provider:
-- the SDK makes no key, no private key and no seed is sent, and every call is the one request to
-- `/key/generate`, whatever the key provider answers.
pub external_key_calls :
    (w : World) (cfg : AdvancedWalletManagerConfig) (req : KeyRequest) (client : HttpClient)
    (coin : Coin)
    → new_key_provider w cfg ≡ ok client
    → get_coin w req.coin ≡ ok coin
    → is_external_signing_enabled_for_coin cfg coin ≡ true
    → is_non_bitgo_key_source req.source ≡ true
    → All (λ c. c ≡ generate_call client req) (run w (post_independent_key w cfg req) []).1
unfolding post_independent_key
external_key_calls w cfg req client coin made found external own =
    rw (made, found, external, own) (All-run w _ [] (generate-Only w client req) tt)
