-- ===== src/Awm/Mpc/EddsaKeyGen/Finalize.antt =====
-- src/advancedWalletManager/handlers/eddsaMPCWalletGenerationFinalize.ts
use advanced_wallets.Base.{ℕ, String, not, Option, none, some, ◌<>◌, str_eq, if◌then◌else◌}
use advanced_wallets.Js.{
  Value, undefined, num, str, obj, end, ◌⨾◌, arr, nil, cons, Items, entries, spread, prop, truthy,
  text, is_text, strict_eq,
}
use advanced_wallets.Js.Json.{json}
use advanced_wallets.Js.Texts.{first_chars, chars_from}
use advanced_wallets.Exec.{
  Exn, World, Exec, sdk, pure, throw, throw_if, lift, catch, perform, plain_error, dot, ◌>>=◌, ◌>>◌,
}
use advanced_wallets.Shared.Types.{AdvancedWalletManagerConfig}
use advanced_wallets.Shared.Errors.{is_error}
use advanced_wallets.Shared.HttpClient.{HttpClient}
use advanced_wallets.Shared.CoinFactory.{get_coin}
use advanced_wallets.Awm.KeyProvider.{new_key_provider, post_key}
use advanced_wallets.Awm.Mpc.{decrypt_state, plaintext_key}
use advanced_wallets.Awm.Mpc.EddsaKeyGen.Shares.{
  gpg_encrypt, gpg_decrypt, index_of, counter_party_index,
}

-- `req.decoded`, and `req.bitgo.env`
pub record EddsaFinalizeRequest : Type 0 where
  pub source : String
  pub coin : String
  pub encrypted_data_key : Value
  pub encrypted_data : Value
  pub counter_party_gpg_pub : Value
  pub bitgo_key_chain : Value
  pub counter_party_key_share : Value
  pub env : Value

abbrev share_to : String → Items → Option Value
share_to source nil = none
share_to source (cons share shares) =
    let rest = share_to source shares in
    if is_text (prop share "to") source then some share else rest

abbrev items_of : Value → Items
items_of (arr xs) = xs
items_of _ = nil

abbrev pub found_share : EddsaFinalizeRequest → Option Value → Exec Value
found_share req none =
    throw (plain_error ("BitGo key share for source " <> req.source <> " not found"))
found_share req (some share) = pure share

-- `bitgoKeyChain.keyShares.find(...)`
unfoldable pub find_key_share : EddsaFinalizeRequest → Exec Value
find_key_share req = do
  dot (prop req.bitgo_key_chain "keyShares") "find"
  found_share req (share_to req.source (items_of (prop req.bitgo_key_chain "keyShares")))

-- A share that another party has made for the source.
abbrev pub y_share_from : ℕ → String → Value → Value → Value
y_share_from sender source share private_share = obj (
    ("i", num (index_of source))
    ⨾ ("j", num sender)
    ⨾ ("y", str (first_chars 64 (text (prop share "publicShare"))))
    ⨾ ("v", prop share "vssProof")
    ⨾ ("u", str (first_chars 64 (text private_share)))
    ⨾ ("chaincode", str (chars_from 64 (text private_share)))
    ⨾ end)

abbrev signature_args : EddsaFinalizeRequest → Value → Value → Value
signature_args req state private_share =
    let source_pub = prop state "sourceGpgPub" in
    let is_user = str_eq req.source "user" in
    arr (
      cons (if is_user then source_pub else req.counter_party_gpg_pub) (
        cons (if is_user then req.counter_party_gpg_pub else source_pub) (
          cons req.bitgo_key_chain (
            cons private_share (
              cons (num (index_of req.source))
                (cons (obj (("env", req.env) ⨾ ("pubKeyType", str "onprem") ⨾ end)) nil))))))

abbrev signing_material : String → Value → Value → Value → Value
signing_material source private_share bitgo_share counter_party_share = obj (
    ("uShare", private_share)
    ⨾ ("bitgoYShare", bitgo_share)
    ⨾ ((if str_eq source "user" then "backupYShare" else "userYShare"), counter_party_share)
    ⨾ end)

unfoldable pub eddsa_key_combine : Value → Value → Value → Exec Value
eddsa_key_combine private_share bitgo_share counter_party_share = do
  eddsa ← perform (sdk "Eddsa" "initialize" undefined)
  perform (
      sdk "Eddsa" "keyCombine" (
        arr (
          cons eddsa (
            cons private_share
              (cons (arr (cons bitgo_share (cons counter_party_share nil))) nil)))))

-- The share for the counter party, if there was one to keep.
unfoldable pub for_counter_party : EddsaFinalizeRequest → Value → Exec Value
for_counter_party req share =
    if truthy share
    then (do
      private_share ←
          if truthy req.counter_party_gpg_pub
          then gpg_encrypt (prop share "privateShare") req.counter_party_gpg_pub
          else pure (prop share "privateShare")
      pure (obj (spread (entries share) (("privateShare", private_share) ⨾ end))))
    else pure share

-- `if (e instanceof Error) throw e`
abbrev known_error : Exn → Exn
known_error e =
    if is_error e.class then e else plain_error "Unknown failure: Failed to generate or store key"

abbrev pub common_keychain_of : Value → String
common_keychain_of combined =
    let p_share = prop combined "pShare" in
    text (prop p_share "y") <> text (prop p_share "chaincode")

abbrev pub stored_params : EddsaFinalizeRequest → String → Value → Value
stored_params req common_keychain material = obj (
    ("pub", str common_keychain)
    ⨾ ("prv", str (json material))
    ⨾ ("source", str req.source)
    ⨾ ("coin", str req.coin)
    ⨾ ("type", str "tss")
    ⨾ end)

module _ (w : World) where
  -- The key is combined, compared with BitGo's and stored.
  unfoldable pub combine_and_store :
      HttpClient → EddsaFinalizeRequest → Value → Value → Value → Exec Value
  combine_and_store key_provider req state bitgo_share counter_party_share = do
    combined ← eddsa_key_combine (prop state "sourcePrivateShare") bitgo_share counter_party_share
    throw_if
        (not (
          strict_eq (str (common_keychain_of combined))
            (prop req.bitgo_key_chain "commonKeychain")))
        (plain_error "Failed to create user keychain - commonKeychains do not match.")
    post_key w key_provider (
        stored_params req (common_keychain_of combined) (
          signing_material req.source (prop state "sourcePrivateShare") bitgo_share
            counter_party_share))
    kept ← for_counter_party req (prop state "counterPartyKeyShare")
    pure (
        obj (
          ("counterpartyKeyShare", kept)
          ⨾ ("source", str req.source)
          ⨾ ("commonKeychain", str (common_keychain_of combined))
          ⨾ end))

  unfoldable pub eddsa_finalize : AdvancedWalletManagerConfig → EddsaFinalizeRequest → Exec Value
  eddsa_finalize cfg req = do
    key_provider ← lift (new_key_provider w cfg)
    coin ← lift (get_coin w req.coin)
    password ← plaintext_key w key_provider req.encrypted_data_key
    state ← decrypt_state req.encrypted_data password
    bitgo_key_share ← find_key_share req
    bitgo_private ← gpg_decrypt (prop bitgo_key_share "privateShare") (prop state "sourceGpgPrv")
    perform (
        sdk ("EddsaUtils " <> coin.name) "verifyWalletSignatures"
          (signature_args req state bitgo_private))
    counter_party_share ← dot req.counter_party_key_share "privateShare"
    counter_party_private ← gpg_decrypt counter_party_share (prop state "sourceGpgPrv")
    catch
        (combine_and_store key_provider req state
          (y_share_from 3 req.source bitgo_key_share bitgo_private)
          (y_share_from (counter_party_index req.source) req.source req.counter_party_key_share
            counter_party_private))
        λ e. throw (known_error e)
