-- ===== src/Shared/CoinFactory.antt =====
-- src/shared/coinFactory.ts: the coins that the server refuses to load. The module of a family and
-- its registration with the SDK are the parameter `World.coin`.
use advanced_wallets.Base.{String, Bool, ◌<>◌, List, [], ◌∷◌, includes, if◌then◌else◌}
use advanced_wallets.Exec.{World, Coin, Result, err, plain_error}

abbrev blocklist : List String
blocklist =
    "tbtg" ∷ "erc721:bsctoken" ∷ "terc721:bsctoken" ∷ "erc1155:bsctoken" ∷ "terc1155:bsctoken"
    ∷ "erc721:witch" ∷ "erc721:token" ∷ "terc721:token" ∷ "erc1155:token" ∷ "terc1155:token"
    ∷ "nonstandard:token" ∷ "tnonstandard:token" ∷ "terc721:bitgoerc721" ∷ "terc1155:bitgoerc1155"
    ∷ "txrp:tst-rP9jPyP5kyvFRb6ZiRghAGw5u8SGAmU4bd" ∷ []

is_blocked : String → Bool
is_blocked coin_name = includes blocklist coin_name

unfoldable pub get_coin : World → String → Result Coin
unfolding is_blocked
get_coin w coin_name =
    if is_blocked coin_name
    then err (plain_error ("coin: " <> coin_name <> " is not allowed"))
    else w.coin coin_name
