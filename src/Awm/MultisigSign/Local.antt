-- ===== src/Awm/MultisigSign/Local.antt =====
-- Local signing: the key is fetched, and the SDK signs with it.
use advanced_wallets.Base.{
  ◌≡◌, refl, Bool, true, false, List, [], ◌∷◌, Bool-cases, inl, inr, arith, if◌then◌else◌,
}
use advanced_wallets.Js.{Value, undefined, prop, truthy, spread, set, get}
use advanced_wallets.Exec.{Exn, Call, sdk, Result, ok, err, World, Coin, run}
use advanced_wallets.Shared.Types.{AdvancedWalletManagerConfig, AppMode}
use advanced_wallets.Shared.HttpClient.{HttpClient, request, call, get_call}
use advanced_wallets.Shared.CoinFactory.{get_coin}
use advanced_wallets.Shared.Response.{route}
use advanced_wallets.Awm.KeyProvider.{new_key_provider, get_key, get_key_response_schema}
use advanced_wallets.Awm.KeyProvider.Calls.{get_key_call}
use advanced_wallets.Awm.Utils.{is_external_signing_enabled_for_coin}
use advanced_wallets.Awm.Utils.Failures.{opaque_failure, status_and_message-opaque}
use advanced_wallets.Awm.MultisigSign.{
  SignRequest, local_sign_args, sign_transaction_locally, sign_multisig_transaction,
}

-- The key provider answered without a key.
abbrev NoKey : Result Value → Type 0
NoKey (ok response) = get_key_response_schema (prop response "body") ≡ false
NoKey (err e) = Unit

-- The arguments of `signTransaction` are the prebuilt transaction, a private key, and the public
-- keys of the wallet where there are any.
abbrev pub Signs : SignRequest → Value → Value → Type 0
Signs req prv args =
    (prop args "txPrebuild" ≡ req.tx_prebuild)
    × (prop args "prv" ≡ prv)
    × (prop args "pubs" ≡ (if truthy req.wallet_pubs then req.wallet_pubs else undefined))

-- How local signing ends: without a key nothing is signed, and with a key the SDK signs with it.
pub data LocalRun (w : World) (req : SignRequest) (coin : Coin) (fetch : Call)
    : Result Value × List Call → Type 0 where
  no_key : (e : Exn) → NoKey (w.reply [] fetch) → LocalRun w req coin fetch (err e, fetch ∷ [])
  signs :
      (response args : Value)
      → w.reply [] fetch ≡ ok response
      → get_key_response_schema (prop response "body") ≡ true
      → Signs req (prop (prop response "body") "prv") args
      → LocalRun w req coin fetch (
        w.reply (fetch ∷ []) (sdk coin.name "signTransaction" args),
        sdk coin.name "signTransaction" args ∷ fetch ∷ [],
      )

args-Signs : (req : SignRequest) (prv : Value) → Signs req prv (local_sign_args req prv)
unfolding local_sign_args spread set get
args-Signs req prv = (ground arith, ground arith, ground arith)

module _ (w : World) (cfg : AdvancedWalletManagerConfig) (req : SignRequest) {client : HttpClient}
    {coin : Coin} (made : new_key_provider w cfg ≡ ok client)
    (found : get_coin w req.coin ≡ ok coin)
    (local : is_external_signing_enabled_for_coin cfg coin ≡ false) where
  abbrev fetch : Call
  fetch = get_key_call client req.pub_key req.source

  by_answer :
      (r : Result Value)
      → w.reply [] fetch ≡ r
      → LocalRun w req coin fetch (run w (sign_multisig_transaction w cfg req) [])
  unfolding sign_multisig_transaction sign_transaction_locally get_key call get_call request run
      get_key_call
  by_answer (err e) failed = rw (made, found, local, failed) (no_key _ (rw failed tt))
  by_answer (ok response) fetched =
      elim (Bool-cases (get_key_response_schema (prop response "body"))) [
        | inl valid ↦
            rw (made, found, local, fetched, valid)
              (signs response _ fetched valid (args-Signs req _))
        | inr malformed ↦
            rw (made, found, local, fetched, malformed) (no_key _ (rw fetched malformed))
      ]

  -- Without external signing for the coin, whatever is answered: the key provider is asked for the
  -- key of the request's public key and source. If it fails or answers without a key, no other call
  -- is made and the handler throws. If it answers with a key, there is exactly one more call: the SDK
  -- signs the prebuilt transaction of the request with that private key, and with the public keys of
  -- the wallet where the request has them. The outcome is the SDK's.
  pub local_signing_calls :
      LocalRun w req coin
        (get_key_call client req.pub_key req.source)
        (run w (sign_multisig_transaction w cfg req) [])
  local_signing_calls = by_answer (w.reply [] fetch) refl

  -- If the key provider fails to answer, for any reason, nothing is signed, and the client of the
  -- application learns nothing of the failure.
  pub local_signing_failure :
      (mode : AppMode) (development : Bool) (e : Exn)
      → w.reply [] (get_key_call client req.pub_key req.source) ≡ err e
      → let (outcome, calls) = run w (sign_multisig_transaction w cfg req) [] in
        (calls ≡ get_key_call client req.pub_key req.source ∷ [])
        × (route mode development outcome ≡ opaque_failure)
  unfolding sign_multisig_transaction sign_transaction_locally get_key call get_call request run
      get_key_call
  local_signing_failure mode development e failed =
      rw (made, found, local, failed) (refl, status_and_message-opaque mode development _ _)
