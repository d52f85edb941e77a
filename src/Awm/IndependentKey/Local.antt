-- ===== src/Awm/IndependentKey/Local.antt =====
-- The answer of the manager for a key that it makes with the SDK.
use advanced_wallets.Base.{◌≡◌, refl, true, false, List}
use advanced_wallets.Js.{Value, undefined, obj, end, ◌⨾◌, prop, get, is_record}
use advanced_wallets.Exec.{Call, ok, World, Coin, run, pure}
use advanced_wallets.Exec.Yields.{Yields, gives, Yields-run, yields_rules}
use advanced_wallets.Shared.Types.{AdvancedWalletManagerConfig}
use advanced_wallets.Shared.HttpClient.{HttpClient}
use advanced_wallets.Shared.CoinFactory.{get_coin}
use advanced_wallets.Awm.KeyProvider.{new_key_provider, post_key}
use advanced_wallets.Awm.Utils.{is_external_signing_enabled_for_coin}
use advanced_wallets.Awm.IndependentKey.{
  KeyRequest, generate_key_via_key_provider, create_and_post, post_independent_key,
}

-- An object without an `id`.
abbrev pub NoId : Value → Type 0
NoId v = (is_record v ≡ true) × (prop v "id" ≡ undefined)

posted :
    (p c s t : Value)
    → Yields NoId (pure (obj (("pub", p) ⨾ ("coin", c) ⨾ ("source", s) ⨾ ("type", t) ⨾ end)))
unfolding get
posted p c s t = gives _ (refl, refl)

post_key-NoId :
    (w : World) (client : HttpClient) (params : Value) → Yields NoId (post_key w client params)
unfolding post_key
post_key-NoId w client params = search (yields_rules, posted)

create_and_post-NoId :
    (w : World) (client : HttpClient) (req : KeyRequest) (coin : Coin)
    → Yields NoId (create_and_post w client req coin)
unfolding create_and_post generate_key_via_key_provider
create_and_post-NoId w client req coin = search (yields_rules, post_key-NoId) depth 9

pub local_key-NoId :
    (w : World) (cfg : AdvancedWalletManagerConfig) (req : KeyRequest) (client : HttpClient)
    (coin : Coin) (t : List Call) (key : Value)
    → new_key_provider w cfg ≡ ok client
    → get_coin w req.coin ≡ ok coin
    → is_external_signing_enabled_for_coin cfg coin ≡ false
    → (run w (post_independent_key w cfg req) t).0 ≡ ok key
    → NoId key
unfolding post_independent_key
local_key-NoId w cfg req client coin t key made found local h =
    Yields-run w (create_and_post w client req coin) t key (create_and_post-NoId w client req coin)
      (rw (made, found, local) at h)
