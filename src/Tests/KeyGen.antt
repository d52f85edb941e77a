-- ===== src/Tests/KeyGen.antt =====
-- The theorems on the clients and the key generation of MPC wallets, at concrete inputs.
use advanced_wallets.Base.{ℕ, ◌+◌, ◌≤◌, ◌≡◌, refl, true, false, none, some, []}
use advanced_wallets.Js.{Value, undefined, num, str, obj, end, ◌⨾◌, prop, get, has, truthy}
use advanced_wallets.Exec.{Call, http, sdk, Result, ok, err, World, steady, Exn, run}
use advanced_wallets.Exec.Only.{All}
use advanced_wallets.Exec.Both.{both}
use advanced_wallets.Shared.Types.{local}
use advanced_wallets.Mbe.AwmClient.{AwmClient, agent_of, send_expecting_200, post_expecting_200}
use advanced_wallets.Mbe.AwmClient.Methods.{
  mpc_v2_initialize, invoke, SentBy, AtMostOne, client_calls_authenticated,
}
use advanced_wallets.Mbe.AwmClient.Mpc.{init_ecdsa_mpc_v2_key_gen, round_ecdsa_mpc_v2_key_gen}
use advanced_wallets.Mbe.Callbacks.{KeyGenState, fresh}
use advanced_wallets.Mbe.Callbacks.Ecdsa.{initialize_callback, finalize_callback}
use advanced_wallets.Mbe.Callbacks.Order.{
  initialize, round2, round3, callback, phase, next, Reach, start, after, keygen_refines_protocol,
}
use advanced_wallets.Mbe.Callbacks.Routing.{Routed, keygen_calls_separated}
use advanced_wallets.Exec.History.{Each}
use advanced_wallets.Awm.Mpc.KeyGen.Finalize.{FinalizeRequest, ecdsa_mpc_v2_finalize}
use advanced_wallets.Awm.Mpc.KeyGen.Round.{RoundRequest, ecdsa_mpc_v2_round}
use advanced_wallets.Awm.Mpc.KeyGen.Rounds.{mpc_v2_round_advances}
use advanced_wallets.Awm.Mpc.KeyGen.NextState.{EncryptsNext}
use advanced_wallets.Awm.Mpc.KeyGen.Stored.{StoresAgreed, mpc_v2_finalize_stores}
use advanced_wallets.Tests.Data.{world, config, answer}

abbrev manager : AwmClient
manager = record {
  base_url = "https://awm";
  awm_server_ca_cert = some "ca";
  awm_client_tls_key = some "key";
  awm_client_tls_cert = some "cert";
  awm_server_cert_allow_self_signed = false;
  coin = some "tbtc";
  mtls = true;
}

client_calls_authenticated_example :
    AtMostOne (SentBy manager) (run world (invoke manager (mpc_v2_initialize "user")) []).1
client_calls_authenticated_example =
    client_calls_authenticated world manager (mpc_v2_initialize "user")

-- A wallet manager that answers every request alike.
abbrev p2p_answers : Value
p2p_answers = obj (("bitgo", str "to bitgo") ⨾ ("counterParty", str "to the other") ⨾ end)

abbrev manager_body : Value
manager_body = obj (
    ("gpgPub", str "gpg")
    ⨾ ("encryptedData", str "data")
    ⨾ ("encryptedDataKey", str "data key")
    ⨾ ("broadcastMessage", str "to all")
    ⨾ ("p2pMessages", p2p_answers)
    ⨾ ("commonKeychain", str "xpub")
    ⨾ end)

abbrev managers : World
managers = steady world λ c. ok (answer manager_body)

abbrev from_bitgo : ℕ → Value
from_bitgo party = obj (("from", num 2) ⨾ ("to", num party) ⨾ end)

abbrev sdk_params : Value
sdk_params = obj (
    ("bitgoMsg1", from_bitgo 0)
    ⨾ ("bitgoToUserMsg2", from_bitgo 0)
    ⨾ ("bitgoToBackupMsg2", from_bitgo 1)
    ⨾ ("bitgoToUserMsg3", from_bitgo 0)
    ⨾ ("bitgoToBackupMsg3", from_bitgo 1)
    ⨾ ("bitgoMsg4", from_bitgo 0)
    ⨾ ("bitgoCommonKeychain", str "xpub")
    ⨾ end)

abbrev state1 : KeyGenState
state1 = record fresh {
  user_round1_broadcast = str "to all";
  backup_round1_broadcast = str "to all";
}

abbrev state2 : KeyGenState
state2 = record state1 {
  user_round3_bitgo_p2p = str "to bitgo";
  backup_round3_bitgo_p2p = str "to bitgo";
  user_round3_counter_party_p2p = str "to the other";
  backup_round3_counter_party_p2p = str "to the other";
}

abbrev state3 : KeyGenState
state3 = record state2 {
  user_round4_broadcast = str "to all";
  backup_round4_broadcast = str "to all";
}

abbrev result_of : Result (KeyGenState × Value) → Value
result_of (ok (s, v)) = v
result_of (err e) = undefined

abbrev key_result : Value
key_result = obj (("commonKeychain", str "xpub") ⨾ end)

reach1 : Reach manager manager state1
unfolding run initialize_callback both init_ecdsa_mpc_v2_key_gen round_ecdsa_mpc_v2_key_gen
    post_expecting_200 send_expecting_200 agent_of get truthy fresh
reach1 =
    after fresh state1 managers [] initialize (str "bitgo gpg")
      (result_of (run managers (callback manager manager initialize fresh (str "bitgo gpg")) []).0)
      start refl

abbrev with_states : Value
with_states = obj (
    ("bitgoMsg1", from_bitgo 0)
    ⨾ ("userState", obj (("encryptedData", str "data") ⨾ end))
    ⨾ ("backupState", obj (("encryptedData", str "data") ⨾ end))
    ⨾ ("bitgoMsg4", from_bitgo 0)
    ⨾ end)

keygen_calls_separated_example :
    All
      (Routed manager (record manager { base_url = "https://backup" }))
      (run managers
        (callback manager
          (record manager { base_url = "https://backup" })
          round2
          state1
          with_states)
        []).1
    × All
        (Routed manager (record manager { base_url = "https://backup" }))
        (run managers
          (finalize_callback manager
            (record manager { base_url = "https://backup" })
            state1
            with_states)
          []).1
unfolding get has
keygen_calls_separated_example =
    keygen_calls_separated managers manager (record manager { base_url = "https://backup" }) state1
      round2 with_states refl refl

keygen_refines_protocol_example :
    ((s' : KeyGenState) (result : Value)
      → (run managers (callback manager manager round3 state1 sdk_params) []).0 ≡ ok (s', result)
      → next round3 (phase state1) ≡ some (phase s'))
    × (next round3 (phase state1) ≡ none
        → (e : Exn) × (run managers (callback manager manager round3 state1 sdk_params) []
            ≡ (err e, [])))
keygen_refines_protocol_example =
    keygen_refines_protocol manager manager state1 managers [] round3 sdk_params reach1

-- A key provider and a library that answer every call.
abbrev everything : Value
everything = obj (
    ("plaintextKey", str "password")
    ⨾ ("pub", str "xpub")
    ⨾ ("coin", str "tbtc")
    ⨾ ("source", str "user")
    ⨾ ("type", str "tss")
    ⨾ end)

abbrev library : Call → Result Value
library (http r) = ok (answer everything)
library (sdk object method args) = ok (
    str
      "{\"round\":2,\"bitgoGpgPub\":{},\"counterPartyGpgPub\":{},\"sessionData\":{\"dkgSessionBytes\":{}}}")

abbrev round_request : RoundRequest
round_request = record {
  source = "user";
  encrypted_data = str "data";
  encrypted_data_key = str "data key";
  round = 2;
  broadcast_messages = p2p_answers;
  p2p_messages = undefined;
  bitgo_gpg_pub = undefined;
  counter_party_gpg_pub = undefined;
}

mpc_v2_round_advances_example :
    Each
      (EncryptsNext (steady world library) round_request)
      (run
        (steady world library)
        (ecdsa_mpc_v2_round (steady world library) (config local) round_request)
        []).1
    × ((reply : Value)
        → (run
            (steady world library)
            (ecdsa_mpc_v2_round (steady world library) (config local) round_request)
            []).0
          ≡ ok reply
        → (1 ≤ 2) × (2 ≤ 4) × (prop reply "round" ≡ num (2 + 1)))
mpc_v2_round_advances_example =
    mpc_v2_round_advances (steady world library) (config local) round_request

abbrev finalize_request : FinalizeRequest
finalize_request = record {
  source = "user";
  coin = "tbtc";
  encrypted_data = str "data";
  encrypted_data_key = str "data key";
  broadcast_messages = p2p_answers;
  bitgo_common_keychain = str "xpub";
}

mpc_v2_finalize_stores_example :
    All
      (StoresAgreed finalize_request)
      (run
        (steady world library)
        (ecdsa_mpc_v2_finalize (steady world library) (config local) finalize_request)
        []).1
mpc_v2_finalize_stores_example =
    mpc_v2_finalize_stores (steady world library) (config local) finalize_request
