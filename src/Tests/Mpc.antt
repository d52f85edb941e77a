-- ===== src/Tests/Mpc.antt =====
-- The theorems on the signing and the recovery of MPC wallets, at concrete inputs.
use advanced_wallets.Base.{◌≡◌, refl, true, false, none, some, [], str_eq, if◌then◌else◌}
use advanced_wallets.Js.{Value, undefined, str, obj, end, ◌⨾◌, arr, nil, cons}
use advanced_wallets.Exec.{eth, Call, http, sdk, Result, ok, err, World, Coin, steady, run}
use advanced_wallets.Exec.Only.{All}
use advanced_wallets.Shared.Types.{local}
use advanced_wallets.Awm.Utils.{recovery_disabled}
use advanced_wallets.Awm.Mpc.Sign.{MpcSignRequest}
use advanced_wallets.Awm.Mpc.EddsaKeyGen.Finalize.{EddsaFinalizeRequest, eddsa_finalize}
use advanced_wallets.Awm.Mpc.EddsaKeyGen.Stored.{StoresCombined, eddsa_finalize_stores}
use advanced_wallets.Awm.Mpc.Recovery.{
  EddsaRecoveryRequest, ecdsa_mpc_v2_recovery, sign_eddsa_recovery_transaction,
}
use advanced_wallets.Awm.Mpc.Recovery.Modes.{
  FetchesBoth, in_mode, mpc_recovery_fetches, recovery_mode_guard,
}
use advanced_wallets.Mbe.AwmClient.{AwmClient}
use advanced_wallets.Mbe.MpcSign.{RoundResponses, custom_mpc_v2_round2, custom_mpc_v2_round3}
use advanced_wallets.Mbe.MpcSign.Rounds.{Carries, signing_rounds_carry}
use advanced_wallets.Tests.Data.{world, bitcoin, config, answer}

abbrev everything : Value
everything = obj (
    ("plaintextKey", str "plain")
    ⨾ ("encryptedKey", str "data key")
    ⨾ ("pub", str "xpub")
    ⨾ ("prv", str "{}")
    ⨾ ("coin", str "tsol")
    ⨾ ("source", str "user")
    ⨾ ("type", str "tss")
    ⨾ end)

-- Services that answer all requests, and an SDK that returns its arguments.
abbrev all_answered : Call → Result Value
all_answered (http r) = ok (answer everything)
all_answered (sdk object method args) = ok args

abbrev ecdsa_coin : Coin
ecdsa_coin = record bitcoin { family = eth; family_text = "eth"; mpc_algorithm = some "ecdsa" }

abbrev services : World
services = steady (record world { coin = λ name. ok ecdsa_coin }) all_answered

abbrev round2_request : MpcSignRequest
round2_request = record {
  source = "user";
  pub_key = "xpub";
  coin = "hteth";
  share_type = "MPCv2Round2";
  tx_request = str "transaction";
  encrypted_data_key = str "data key";
  bitgo_to_user_r_share = undefined;
  user_to_bitgo_r_share = undefined;
  encrypted_user_to_bitgo_r_share = undefined;
  bitgo_to_user_commitment = undefined;
  bitgo_public_gpg_key = str "gpg";
  encrypted_user_gpg_prv_key = str "user gpg";
  encrypted_round1_session = str "session";
  encrypted_round2_session = undefined;
}

abbrev eddsa_request : EddsaRecoveryRequest
eddsa_request = record { common_keychain = "xpub"; signable_hex = "00ff"; derivation_path = "m/0" }

mpc_recovery_fetches_example :
    All
      (FetchesBoth "xpub")
      (run services (ecdsa_mpc_v2_recovery services (config local) "hteth" "00ff" "xpub") []).1
    × All
        (FetchesBoth "xpub")
        (run services
          (sign_eddsa_recovery_transaction services (config local) eddsa_request ecdsa_coin)
          []).1
mpc_recovery_fetches_example =
    mpc_recovery_fetches services (config local) "hteth" "00ff" "xpub" eddsa_request ecdsa_coin

recovery_mode_guard_example :
    (run services
        (sign_eddsa_recovery_transaction services
          (in_mode (some false) (config local))
          eddsa_request
          ecdsa_coin)
        []
      ≡ (err recovery_disabled, []))
    × (ecdsa_mpc_v2_recovery services
          (in_mode (some true) (in_mode (some false) (config local)))
          "hteth"
          "00ff"
          "xpub"
        ≡ ecdsa_mpc_v2_recovery services
            (in_mode (some false) (config local))
            "hteth"
            "00ff"
            "xpub")
unfolding in_mode
recovery_mode_guard_example =
    recovery_mode_guard services (in_mode (some false) (config local)) (some true) "hteth" "00ff"
      "xpub" eddsa_request ecdsa_coin refl

-- A key generation of which BitGo's part is for the user, in its last step.
abbrev combined_share : Value
combined_share = obj (
    ("to", str "user")
    ⨾ ("publicShare", str "public")
    ⨾ ("privateShare", str "private")
    ⨾ ("vssProof", str "proof")
    ⨾ end)

abbrev last_step : EddsaFinalizeRequest
last_step = record {
  source = "user";
  coin = "tsol";
  encrypted_data_key = str "data key";
  encrypted_data = str "data";
  counter_party_gpg_pub = str "gpg";
  bitgo_key_chain =
      obj
        (("keyShares", arr (cons combined_share nil)) ⨾ ("commonKeychain", str "xpubchain") ⨾ end);
  counter_party_key_share = combined_share;
  env = str "test";
}

abbrev key_library : Call → Result Value
key_library (http r) = ok (answer everything)
key_library (sdk object method args) =
    if str_eq method "keyCombine"
    then ok (obj (("pShare", obj (("y", str "xpub") ⨾ ("chaincode", str "chain") ⨾ end)) ⨾ end))
    else if str_eq object "bitgo"
    then ok (str "{\"sourceGpgPub\":\"gpg\",\"sourceGpgPrv\":\"gpg\",\"sourcePrivateShare\":{}}")
    else ok args

eddsa_finalize_stores_example :
    All
      (StoresCombined last_step)
      (run
        (steady services key_library)
        (eddsa_finalize (steady services key_library) (config local) last_step)
        []).1
eddsa_finalize_stores_example =
    eddsa_finalize_stores (steady services key_library) (config local) last_step

abbrev manager : AwmClient
manager = record {
  base_url = "https://awm";
  awm_server_ca_cert = none;
  awm_client_tls_key = none;
  awm_client_tls_cert = none;
  awm_server_cert_allow_self_signed = false;
  coin = some "hteth";
  mtls = false;
}

abbrev two_rounds : RoundResponses
two_rounds = record {
  round1 = obj (
      ("encryptedDataKey", str "data key")
      ⨾ ("encryptedRound1Session", str "session 1")
      ⨾ ("encryptedUserGpgPrvKey", str "user gpg")
      ⨾ end);
  round2 = obj (("encryptedRound2Session", str "session 2") ⨾ end);
}

abbrev sdk_params : Value
sdk_params = obj (("encryptedDataKey", str "another") ⨾ ("bitgoPublicGpgKey", str "gpg") ⨾ end)

signing_rounds_carry_example :
    All
      (Carries "user" (str "xpub") two_rounds.round1 "encryptedRound1Session" two_rounds.round1)
      (run services (custom_mpc_v2_round2 manager "user" (str "xpub") two_rounds sdk_params) []).1
    × All
        (Carries "user" (str "xpub") two_rounds.round1 "encryptedRound2Session" two_rounds.round2)
        (run services (custom_mpc_v2_round3 manager "user" (str "xpub") two_rounds sdk_params) []).1
signing_rounds_carry_example =
    signing_rounds_carry services manager "user" (str "xpub") two_rounds sdk_params
