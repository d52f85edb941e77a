-- ===== src/Mbe/Wallets.antt =====
-- src/masterBitgoExpress/handlers/utils/utils.ts: wallets of the SDK and their keychains. What the
-- methods of a wallet answer without an effect is read as a property of the wallet. Request tracers
-- are left out.
use advanced_wallets.Base.{ℕ, zero, suc, String, Bool, not, ◌&&◌, ◌<>◌, if◌then◌else◌}
use advanced_wallets.Js.{
  strict_eq, Value, undefined, str, arr, Items, nil, cons, obj, end, ◌⨾◌, prop, is_text, truthy,
  text,
}
use advanced_wallets.Exec.{
  Result, ok, err, World, Coin, Exec, sdk, ask, pure, lift, perform, throw_if, plain_error, ◌>>=◌,
  ◌>>◌,
}
use advanced_wallets.Shared.Types.{KeySource, user, backup}
use advanced_wallets.Shared.CoinFactory.{get_coin}
use advanced_wallets.Mbe.AwmClient.{AwmClient, sign_multisig}

abbrev nth : Items → ℕ → Value
nth nil i = undefined
nth (cons v vs) zero = v
nth (cons v vs) (suc i) = nth vs i

-- `v[i]`
abbrev pub item : Value → ℕ → Value
item (arr vs) i = nth vs i
item _ i = undefined

-- `params.source`, which the codec of the request limits to these two.
abbrev pub source_of : Value → KeySource
source_of v = if is_text v "user" then user else backup

-- `params.source === 'user' ? KeyIndices.USER : KeyIndices.BACKUP`
abbrev pub key_id_index : Value → ℕ
key_id_index v = if is_text v "user" then 0 else 1

abbrev pub get_keychain : Coin → Value → Exec Value
get_keychain coin id = perform (sdk coin.name "keychains.get" (obj (("id", id) ⨾ end)))

abbrev pub get_wallet : Coin → String → Exec Value
get_wallet coin wallet_id =
    perform (sdk coin.name "wallets.get" (obj (("id", str wallet_id) ⨾ end)))

-- `wallet.multisigType() === 'tss'`
abbrev pub is_tss : Value → Bool
is_tss wallet = is_text (prop wallet "multisigType") "tss"

pub record WalletKeychain : Type 0 where
  pub base_coin : Coin
  pub wallet : Value
  pub signing_keychain : Value

unfoldable pub check_keychain : Value → Value → Value → Exec (Unit {0})
check_keychain params wallet keychain =
    if is_tss wallet
    then throw_if
        (truthy (prop params "commonKeychain")
          && not (strict_eq (prop keychain "commonKeychain") (prop params "commonKeychain")))
        (plain_error (
          "Common keychain provided does not match the keychain on wallet for "
          <> text (prop params "source")))
    else throw_if
        (truthy (prop params "pubkey")
          && not (strict_eq (prop params "pubkey") (prop keychain "pub")))
        (plain_error (
          "Pub provided does not match the keychain on wallet for " <> text (prop params "source")))

unfoldable pub get_wallet_and_signing_keychain :
    World → String → String → Value → Exec WalletKeychain
get_wallet_and_signing_keychain w coin wallet_id params = do
  base_coin ← lift (get_coin w coin)
  wallet ← get_wallet base_coin wallet_id
  throw_if (not (truthy wallet)) (plain_error ("Wallet " <> wallet_id <> " not found"))
  keychain ←
      get_keychain base_coin (item (prop wallet "keyIds") (key_id_index (prop params "source")))
  throw_if (not (truthy keychain))
      (plain_error ("Signing keychain for " <> text (prop params "source") <> " not found"))
  check_keychain params wallet keychain
  pure (record { base_coin = base_coin; wallet = wallet; signing_keychain = keychain })

-- `Promise.all` of three: the first error in order, where several fail.
abbrev all_three : Result Value → Result Value → Result Value → Result (Value × Value × Value)
all_three (err e) r s = err e
all_three (ok u) (err e) s = err e
all_three (ok u) (ok v) (err e) = err e
all_three (ok u) (ok v) (ok x) = ok (u, v, x)

unfoldable pub wallet_pubs : Value → Value → Value → Value
wallet_pubs user_keychain backup_keychain bitgo_keychain =
    let user_pub = prop user_keychain "pub" in
    let backup_pub = prop backup_keychain "pub" in
    let bitgo_pub = prop bitgo_keychain "pub" in
    if truthy user_pub && truthy backup_pub && truthy bitgo_pub
    then arr (cons user_pub (cons backup_pub (cons bitgo_pub nil)))
    else undefined

-- The three requests are sent before any is answered.
unfoldable pub get_wallet_pubs : Coin → Value → Exec Value
get_wallet_pubs coin wallet =
    let key = λ (i : ℕ).
      sdk coin.name "keychains.get" (obj (("id", item (prop wallet "keyIds") i) ⨾ end)) in
    ask (key 0) λ u.
      ask (key 1)
        λ b. ask (key 2) λ g. lift (all_three u b g) >>= λ (x, y, z). pure (wallet_pubs x y z)

-- The function that the SDK calls to sign.
unfoldable pub custom_signing_function : AwmClient → Value → Value → Value → Value → Exec Value
custom_signing_function awm source signing_pub pubs sign_params = sign_multisig awm (
    obj (
      ("txPrebuild", prop sign_params "txPrebuild")
      ⨾ ("source", source)
      ⨾ ("pub", signing_pub)
      ⨾ ("walletPubs", pubs)
      ⨾ end))

-- It is passed to the SDK as what it closes over.
abbrev pub signing_closure : Value → Value → Value → Value
signing_closure source signing_pub pubs =
    obj (("source", source) ⨾ ("pub", signing_pub) ⨾ ("walletPubs", pubs) ⨾ end)
