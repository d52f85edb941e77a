-- ===== src/Mbe/MpcSign/Rounds.antt =====
-- What the wallet manager is sent in each round of an ECDSA signature.
use advanced_wallets.Base.{String, ◌≡◌, true, false, not, Option, [], ◌<>◌}
use advanced_wallets.Js.{Value, Fields, str, obj, end, ◌⨾◌, entries, spread, prop, truthy}
use advanced_wallets.Js.Laws.{get-set}
use advanced_wallets.Exec.{Call, http, sdk, World, Agent, run}
use advanced_wallets.Exec.Only.{Only, returns, All, All-run, Only-bind, Only-guarded}
use advanced_wallets.Awm.Mpc.Calls.{passed}
use advanced_wallets.Mbe.AwmClient.{AwmClient, request_of}
use advanced_wallets.Mbe.AwmClient.Calls.{Only-post, Only-with_coin, Only-read}
use advanced_wallets.Mbe.AwmClient.Mpc.{sign_mpc_v2_round2, sign_mpc_v2_round3}
use advanced_wallets.Mbe.MpcSign.{RoundResponses, custom_mpc_v2_round2, custom_mpc_v2_round3}

-- A request for the source and the key of the wallet that carries the data key, the private GPG key
-- and the session that the manager made in the rounds before.
abbrev pub Carries : String → Value → Value → String → Value → Call → Type 0
Carries source common_keychain round1 session round (http r) =
    (prop r.body "source" ≡ str source)
    × (prop r.body "pub" ≡ common_keychain)
    × (prop r.body "encryptedDataKey" ≡ prop round1 "encryptedDataKey")
    × (prop r.body "encryptedUserGpgPrvKey" ≡ prop round1 "encryptedUserGpgPrvKey")
    × (prop r.body session ≡ prop round session)
    × (truthy round ≡ true)
Carries source common_keychain round1 session round (sdk object method args) = Unit

-- What a round adds to the parameters that the SDK passes.
abbrev carried : Value → String → Value → Value → Fields
carried round1 session round gpg_key =
    ("encryptedDataKey", prop round1 "encryptedDataKey")
    ⨾ (session, prop round session)
    ⨾ ("encryptedUserGpgPrvKey", prop round1 "encryptedUserGpgPrvKey")
    ⨾ ("bitgoPublicGpgKey", gpg_key)
    ⨾ end

module _ (client : AwmClient) (source : String) (common_keychain : Value) (s : RoundResponses) where
  abbrev body_of : Value → Fields → Value
  body_of params more = obj (
      spread (spread (entries params) more)
        (("source", str source) ⨾ ("pub", common_keychain) ⨾ end))

  second_body :
      (params : Value) (url : String) (agent : Option Agent)
      → not (truthy s.round1) ≡ false
      → Carries source common_keychain s.round1 "encryptedRound1Session" s.round1 (
          http (
            request_of client "post" url
              (body_of params (
                carried s.round1 "encryptedRound1Session" s.round1
                  (prop params "bitgoPublicGpgKey")))
              agent))
  unfolding spread
  second_body params url agent started =
      (simp get-set, simp get-set, simp get-set, simp get-set, simp get-set, passed _ started)

  third_body :
      (params : Value) (url : String) (agent : Option Agent)
      → not (truthy s.round2) ≡ false
      → Carries source common_keychain s.round1 "encryptedRound2Session" s.round2 (
          http (
            request_of client "post" url
              (body_of params (
                carried s.round1 "encryptedRound2Session" s.round2
                  (prop params "bitgoPublicGpgKey")))
              agent))
  unfolding spread
  third_body params url agent started =
      (simp get-set, simp get-set, simp get-set, simp get-set, simp get-set, passed _ started)

  round2-Carries :
      (params : Value)
      → Only
          (Carries source common_keychain s.round1 "encryptedRound1Session" s.round1)
          (custom_mpc_v2_round2 client source common_keychain s params)
  unfolding custom_mpc_v2_round2 sign_mpc_v2_round2
  round2-Carries params = Only-guarded _ _ _ λ started.
      Only-bind _ _
        (Only-with_coin client client.coin _ _ λ coin.
          Only-post client coin _ (spread _ _)
            λ agent. second_body params ("/api/" <> coin <> "/mpc/sign/mpcv2round2") agent started)
        λ response. returns _

  round3-Carries :
      (params : Value)
      → Only
          (Carries source common_keychain s.round1 "encryptedRound2Session" s.round2)
          (custom_mpc_v2_round3 client source common_keychain s params)
  unfolding custom_mpc_v2_round3 sign_mpc_v2_round3
  round3-Carries params = Only-guarded _ _ _ λ started. Only-read s.round1 "encryptedDataKey" _ (
      Only-with_coin client client.coin _ _ λ coin.
        Only-post client coin _ (spread _ _)
          λ agent. third_body params ("/api/" <> coin <> "/mpc/sign/mpcv2round3") agent started)

-- In the second and the third round of an ECDSA signature, whatever parameters the SDK passes and
-- whatever is answered, the wallet manager is sent a request only if the round before has
-- been answered; it is for the source and the key of the wallet, and carries the data key and the
-- private GPG key that the manager made in round 1 and the session of the round before, and not
-- what the parameters hold in their place.
pub signing_rounds_carry :
    (w : World) (client : AwmClient) (source : String) (common_keychain : Value)
    (s : RoundResponses) (params : Value)
    → All
        (Carries source common_keychain s.round1 "encryptedRound1Session" s.round1)
        (run w (custom_mpc_v2_round2 client source common_keychain s params) []).1
      × All
          (Carries source common_keychain s.round1 "encryptedRound2Session" s.round2)
          (run w (custom_mpc_v2_round3 client source common_keychain s params) []).1
signing_rounds_carry w client source common_keychain s params = (
  All-run w _ [] (round2-Carries client source common_keychain s params) tt,
  All-run w _ [] (round3-Carries client source common_keychain s params) tt,
)
