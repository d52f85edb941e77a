-- ===== src/Shared/CoinUtils.antt =====
-- src/shared/coinUtils.ts: tests on a coin of the SDK. The handlers hold no `null` for a coin.
use mathlib.Core.Logic.{ite}
use advanced_wallets.Base.{
  String, Bool, true, false, ◌&&◌, ◌||◌, Option, none, some, List, [], ◌∷◌, str_eq,
}
use advanced_wallets.Js.{Value, entries, has}
use advanced_wallets.Exec.{
  Coin, CoinFamily, eth, ethw, rbtc, etc, avaxc, polygon, arbeth, opeth, bsc, baseeth, coredao, oas,
  flr, sgb, wemix, xdc, btc, ltc, bch, zec, dash, btg, eos, stx, xtz, CoinFeature,
  cosmos_like_coins,
}

CoinFamily-discrete : Discrete CoinFamily
CoinFamily-discrete = hlevel

unfoldable pub is_family : Coin → CoinFamily → Bool
unfolding CoinFamily-discrete
is_family coin family = ite (CoinFamily-discrete coin.family family) true false

unfoldable pub is_eth_like_coin : Coin → Bool
unfolding is_family
is_eth_like_coin coin =
    let is_eth_pure = is_family coin eth in
    let is_eth_like =
      is_family coin ethw
      || is_family coin rbtc
      || is_family coin etc
      || is_family coin avaxc
      || is_family coin polygon
      || is_family coin arbeth
      || is_family coin opeth
      || is_family coin bsc
      || is_family coin baseeth
      || is_family coin coredao
      || is_family coin oas
      || is_family coin flr
      || is_family coin sgb
      || is_family coin wemix
      || is_family coin xdc in
    is_eth_pure || is_eth_like

abbrev has_cosmos : List CoinFeature → Bool
has_cosmos [] = false
has_cosmos (cosmos_like_coins ∷ fs) = true
has_cosmos (_ ∷ fs) = has_cosmos fs

unfoldable pub is_cosmos_like_coin : Coin → Bool
is_cosmos_like_coin coin = has_cosmos coin.features

unfoldable pub is_utxo_coin : Coin → Bool
unfolding is_family
is_utxo_coin coin =
    let is_btc = is_family coin btc in
    let is_btc_like =
      is_family coin ltc
      || is_family coin bch
      || is_family coin zec
      || is_family coin dash
      || is_family coin btg in
    is_btc || is_btc_like

unfoldable pub is_eos_coin : Coin → Bool
is_eos_coin coin = is_family coin eos

unfoldable pub is_stx_coin : Coin → Bool
is_stx_coin coin = is_family coin stx

unfoldable pub is_xtz_coin : Coin → Bool
is_xtz_coin coin = is_family coin xtz

unfoldable pub is_formatted_offline_vault_tx_info : Value → Bool
is_formatted_offline_vault_tx_info tx =
    has (entries tx) "txInfo" && has (entries tx) "txHex" && has (entries tx) "feeInfo"

abbrev is_algorithm : Option String → String → Bool
is_algorithm none name = false
is_algorithm (some algorithm) name = str_eq algorithm name

unfoldable pub is_eddsa_coin : Coin → Bool
is_eddsa_coin coin = is_algorithm coin.mpc_algorithm "eddsa"

unfoldable pub is_ecdsa_coin : Coin → Bool
is_ecdsa_coin coin = is_algorithm coin.mpc_algorithm "ecdsa"
