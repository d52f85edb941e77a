-- ===== src/Mbe/Callbacks/Routing.antt =====
-- Which wallet manager the callbacks of an ECDSA key generation call, and for which key.
use advanced_wallets.Base.{
  String, ◌≡◌, refl, true, false, [], ◌∷◌, ◌⊎◌, inl, inr, includes, ℕ, ◌<>◌, ◌∙◌, str_eq,
}
use advanced_wallets.Js.{Value, Fields, str, end, ◌⨾◌, entries, prop, get, has, set, spread}
use advanced_wallets.Js.Laws.{get-spread, has-set}
use advanced_wallets.Exec.{Call, http, sdk, World, Exec, run}
use advanced_wallets.Exec.Only.{Only, All, All-run, only_rules}
use advanced_wallets.Exec.Both.{both, Only-both}
use advanced_wallets.Mbe.AwmClient.{AwmClient}
use advanced_wallets.Mbe.AwmClient.Calls.{Only-post, Only-with_coin}
use advanced_wallets.Mbe.AwmClient.Mpc.{
  init_ecdsa_mpc_v2_key_gen, round_ecdsa_mpc_v2_key_gen, finalize_ecdsa_mpc_v2_key_gen,
}
use advanced_wallets.Mbe.Callbacks.{KeyGenState, to_mpc_state}
use advanced_wallets.Mbe.Callbacks.Ecdsa.{
  round_params, first_round_params, finalize_params, check_p2p, check_addresses, both_rounds,
  initialize_callback, round2_callback, round3_callback, finalize_callback,
}
use advanced_wallets.Mbe.Callbacks.Order.{Callback, initialize, round2, round3, callback}

-- A step of the key generation is asked of a manager, for the key of a source.
abbrev pub AsksStep : AwmClient → String → Call → Type 0
AsksStep client source (http r) =
    (coin path : String) × (includes ("/mpcv2/initialize" ∷ "/mpcv2/round" ∷ "/mpcv2/finalize" ∷ [])
        path
      ≡ true)
    × (r.method ≡ "post")
    × (r.url ≡ client.base_url <> ("/api/" <> coin <> path))
    × (prop r.body "source" ≡ str source)
AsksStep client source (sdk object method args) = ⊥

-- The user's manager is asked for the user's key, or the backup's manager for the backup's.
abbrev pub Routed : AwmClient → AwmClient → Call → Type 0
Routed user_client backup_client c =
    AsksStep user_client "user" c ⊎ AsksStep backup_client "backup" c

-- The state that the SDK hands back has no entry `source` of its own.
abbrev pub Sourceless : Value → Type 0
Sourceless state = has (entries state) "source" ≡ false

-- The two entries that a request adds to the state do not take the source away.
pub source-kept :
    (source i j : String) (fs : Fields) (v u : Value)
    → has fs "source" ≡ false
    → str_eq i "source" ≡ false
    → str_eq j "source" ≡ false
    → get (spread (("source", str source) ⨾ end) (spread fs ((i, v) ⨾ (j, u) ⨾ end))) "source"
      ≡ str source
unfolding spread get
source-kept source i j fs v u plain first second =
    let lacks : has (set (set fs i v) j u) "source" ≡ false =
      rw (has-set (set fs i v) j "source" u, second, has-set fs i "source" v, first) plain in
    get-spread (("source", str source) ⨾ end) (set (set fs i v) j u) "source" lacks ∙ refl

module _ (user_client backup_client : AwmClient) where
  abbrev Routes {ℓ} : {A : Type ℓ} → Exec A → Type ℓ
  Routes m = Only (Routed user_client backup_client) m

  -- A pair of requests, one to each manager with its own source.
  both_rounds-Routed :
      (user_params backup_params : Fields)
      → get user_params "source" ≡ str "user"
      → get backup_params "source" ≡ str "backup"
      → Routes (both_rounds user_client backup_client user_params backup_params)
  unfolding both_rounds round_ecdsa_mpc_v2_key_gen
  both_rounds-Routed user_params backup_params u b =
      Only-both _ _
        (Only-with_coin user_client user_client.coin _ _ λ coin.
          Only-post user_client coin "/mpcv2/round" user_params
            λ agent. inl (coin, "/mpcv2/round", refl, refl, refl, u))
        (Only-with_coin backup_client backup_client.coin _ _ λ coin.
          Only-post backup_client coin "/mpcv2/round" backup_params
            λ agent. inr (coin, "/mpcv2/round", refl, refl, refl, b))

  user_init-Routed : Routes (init_ecdsa_mpc_v2_key_gen user_client "user")
  unfolding init_ecdsa_mpc_v2_key_gen get
  user_init-Routed = Only-with_coin user_client user_client.coin _ _ λ coin.
      Only-post user_client coin "/mpcv2/initialize" _
        λ agent. inl (coin, "/mpcv2/initialize", refl, refl, refl, refl)

  backup_init-Routed : Routes (init_ecdsa_mpc_v2_key_gen backup_client "backup")
  unfolding init_ecdsa_mpc_v2_key_gen get
  backup_init-Routed = Only-with_coin backup_client backup_client.coin _ _ λ coin.
      Only-post backup_client coin "/mpcv2/initialize" _
        λ agent. inr (coin, "/mpcv2/initialize", refl, refl, refl, refl)

  first_rounds-Routed :
      (user_init backup_init key user_gpg backup_gpg : Value)
      → Routes (
          both_rounds user_client backup_client
            (first_round_params "user" user_init key backup_gpg)
            (first_round_params "backup" backup_init key user_gpg))
  unfolding get
  first_rounds-Routed user_init backup_init key user_gpg backup_gpg =
      both_rounds-Routed _ _ refl refl

  rounds-Routed :
      (round : ℕ) (kind : String) (user_state backup_state a b c d : Value)
      → str_eq kind "source" ≡ false
      → Sourceless user_state
      → Sourceless backup_state
      → Routes (
          both_rounds user_client backup_client
            (round_params "user" user_state round kind a b)
            (round_params "backup" backup_state round kind c d))
  rounds-Routed round kind user_state backup_state a b c d other u v =
      both_rounds-Routed _ _ (source-kept "user" "round" kind (entries user_state) _ _ u refl other)
        (source-kept "backup" "round" kind (entries backup_state) _ _ v refl other)

  new_state-Sourceless : (response : Value) → Sourceless (to_mpc_state response)
  unfolding to_mpc_state has
  new_state-Sourceless response = refl

  finalize-Routed :
      (user_state backup_state a b c d keychain : Value)
      → Sourceless user_state
      → Sourceless backup_state
      → Routes (
          both
            (finalize_ecdsa_mpc_v2_key_gen user_client
              (finalize_params "user" user_state a b keychain))
            (finalize_ecdsa_mpc_v2_key_gen backup_client
              (finalize_params "backup" backup_state c d keychain)))
  unfolding finalize_ecdsa_mpc_v2_key_gen
  finalize-Routed user_state backup_state a b c d keychain u v =
      Only-both _ _
        (Only-with_coin user_client user_client.coin _ _ λ coin.
          Only-post user_client coin "/mpcv2/finalize" _ λ agent. inl (
            coin,
            "/mpcv2/finalize",
            refl,
            refl,
            refl,
            source-kept "user" "broadcastMessages" "bitgoCommonKeychain" (entries user_state) _ _ u
                refl refl,
          ))
        (Only-with_coin backup_client backup_client.coin _ _ λ coin.
          Only-post backup_client coin "/mpcv2/finalize" _ λ agent. inr (
            coin,
            "/mpcv2/finalize",
            refl,
            refl,
            refl,
            source-kept "backup" "broadcastMessages" "bitgoCommonKeychain" (entries backup_state) _
                _ v refl refl,
          ))

  check_p2p-Routed :
      (round : String) (user response : Value) → Routes (check_p2p round user response)
  unfolding check_p2p
  check_p2p-Routed round user response = search only_rules depth 12

  addresses-Routed : (round : String) (a b : Value) → Routes (check_addresses round a b)
  unfolding check_addresses
  addresses-Routed round a b = search only_rules depth 12

  module _ (s : KeyGenState) (params : Value) (user_plain : Sourceless (prop params "userState"))
      (backup_plain : Sourceless (prop params "backupState")) where
    -- A round on the states that the SDK hands back, and one on those of the round before.
    given-Routed :
        (round : ℕ) (kind : String) (a b c d : Value)
        → str_eq kind "source" ≡ false
        → Routes (
            both_rounds user_client backup_client
              (round_params "user" (prop params "userState") round kind a b)
              (round_params "backup" (prop params "backupState") round kind c d))
    given-Routed round kind a b c d other =
        rounds-Routed round kind (prop params "userState") (prop params "backupState") a b c d other
          user_plain backup_plain

    later-Routed :
        (round : ℕ) (user_response backup_response a b c d : Value)
        → Routes (
            both_rounds user_client backup_client
              (round_params "user" (to_mpc_state user_response) round "p2pMessages" a b)
              (round_params "backup" (to_mpc_state backup_response) round "p2pMessages" c d))
    later-Routed round user_response backup_response a b c d =
        rounds-Routed round "p2pMessages" (to_mpc_state user_response)
          (to_mpc_state backup_response) a b c d refl (new_state-Sourceless user_response)
          (new_state-Sourceless backup_response)

    last-Routed :
        (a b c d keychain : Value)
        → Routes (
            both
              (finalize_ecdsa_mpc_v2_key_gen user_client
                (finalize_params "user" (prop params "userState") a b keychain))
              (finalize_ecdsa_mpc_v2_key_gen backup_client
                (finalize_params "backup" (prop params "backupState") c d keychain)))
    last-Routed a b c d keychain =
        finalize-Routed (prop params "userState") (prop params "backupState") a b c d keychain
          user_plain backup_plain

    ruleset routes = (
      only_rules, user_init-Routed, backup_init-Routed, first_rounds-Routed, check_p2p-Routed,
      addresses-Routed,
    )

    callback-Routed : (c : Callback) → Routes (callback user_client backup_client c s params)
    unfolding initialize_callback round2_callback round3_callback
    callback-Routed initialize = search routes depth 24
    callback-Routed round2 =
        let now = λ (a b c d : Value). given-Routed 2 "broadcastMessages" a b c d refl in
        search (routes, now, later-Routed) depth 24
    callback-Routed round3 =
        let now = λ (a b c d : Value). given-Routed 4 "p2pMessages" a b c d refl in
        search (routes, now) depth 24

    final-Routed : Routes (finalize_callback user_client backup_client s params)
    unfolding finalize_callback
    final-Routed = search (routes, last-Routed) depth 24

-- In an ECDSA key generation, whatever state the closure is in and whatever is answered, every call
-- of a callback and of the finalization is the POST of a step of the protocol to the user's manager
-- for the user's key, or to the backup's manager for the backup's key. It is assumed that the states
-- that the SDK hands back to a callback have no entry `source`, which the spread would prefer.
pub keygen_calls_separated :
    (w : World) (user_client backup_client : AwmClient) (s : KeyGenState) (c : Callback)
    (params : Value)
    → Sourceless (prop params "userState")
    → Sourceless (prop params "backupState")
    → All
        (Routed user_client backup_client)
        (run w (callback user_client backup_client c s params) []).1
      × All
          (Routed user_client backup_client)
          (run w (finalize_callback user_client backup_client s params) []).1
keygen_calls_separated w user_client backup_client s c params u v = (
  All-run w _ [] (callback-Routed user_client backup_client s params u v c) tt,
  All-run w _ [] (final-Routed user_client backup_client s params u v) tt,
)
