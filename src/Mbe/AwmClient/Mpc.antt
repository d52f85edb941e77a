-- ===== src/Mbe/AwmClient/Mpc.antt =====
-- The calls of the client for recoveries and for MPC wallets, and its health checks. Parameters that
-- are one object in the source are one here; those that are objects of the SDK are values.
use advanced_wallets.Base.{String, not}
use advanced_wallets.Js.{
  Value, undefined, str, arr, nil, cons, obj, Fields, end, ◌⨾◌, entries, prop, spread, set,
  coalesce,
}
use advanced_wallets.Exec.{Exec, lift, throw_if, plain_error, ◌>>=◌, ◌>>◌}
use advanced_wallets.Shared.TransactionUtils.{is_filled, extract_transaction_request_info}
use advanced_wallets.Mbe.AwmClient.{AwmClient, with_coin, post_expecting_200, send_expecting_200}

unfoldable pub recovery_mpc : AwmClient → Value → Exec Value
unfolding with_coin
recovery_mpc client params = with_coin client.coin "to recover MPC" λ coin. do
  info ← lift (extract_transaction_request_info (prop params "unsignedSweepPrebuildTx"))
  let tx_request = obj (spread (("unsignedTx", str "") ⨾ end) info)
  post_expecting_200 client coin "/mpc/recovery" (
      ("commonKeychain", prop params "userPub")
      ⨾ ("unsignedSweepPrebuildTx", obj (("txRequests", arr (cons tx_request nil)) ⨾ end))
      ⨾ end)

unfoldable pub ping : AwmClient → Exec Value
ping client = send_expecting_200 client "post" "/ping" (obj end)

unfoldable pub get_version : AwmClient → Exec Value
get_version client = send_expecting_200 client "get" "/version" undefined

-- The parameters are the options of `recoveryMultisig`, without `keyToSign`.
unfoldable pub recovery_multisig_user_half_sign : AwmClient → Fields → Exec Value
unfolding with_coin
recovery_multisig_user_half_sign client params =
    with_coin client.coin "to recover a multisig" λ coin.
      post_expecting_200 client coin "/multisig/recovery" (set params "keyToSign" (str "user"))

unfoldable pub recovery_multisig : AwmClient → Fields → Exec Value
unfolding with_coin
recovery_multisig client params =
    with_coin client.coin "to recover a multisig"
      λ coin. post_expecting_200 client coin "/multisig/recovery" params

unfoldable pub init_mpc_key_generation : AwmClient → String → Value → Value → Exec Value
unfolding with_coin
init_mpc_key_generation client source bitgo_gpg_key user_gpg_key =
    with_coin client.coin "to initialize MPC key generation" λ coin.
      post_expecting_200 client coin "/mpc/key/initialize" (
        ("source", str source)
        ⨾ ("bitgoGpgPub", bitgo_gpg_key)
        ⨾ ("counterPartyGpgPub", user_gpg_key)
        ⨾ end)

-- `{ ...bitgoKeychain, source: 'bitgo', type: 'tss', commonKeychain: … ?? '', keyShares }`
unfoldable pub bitgo_key_chain : Value → Value
bitgo_key_chain keychain = obj (
    spread (entries keychain) (
      ("source", str "bitgo")
      ⨾ ("type", str "tss")
      ⨾ ("commonKeychain", coalesce (prop keychain "commonKeychain") (str ""))
      ⨾ ("keyShares", prop keychain "keyShares")
      ⨾ end))

unfoldable pub finalize_mpc_key_generation : AwmClient → Value → Exec Value
unfolding with_coin
finalize_mpc_key_generation client params =
    with_coin client.coin "to finalize MPC key generation" λ coin. do
      throw_if (not (is_filled (prop (prop params "bitGoKeychain") "keyShares")))
          (plain_error "BitGo keychain must have keyShares property")
      post_expecting_200 client coin "/mpc/key/finalize" (
          ("source", prop params "source")
          ⨾ ("encryptedDataKey", prop params "encryptedDataKey")
          ⨾ ("encryptedData", prop params "encryptedData")
          ⨾ ("bitgoKeyChain", bitgo_key_chain (prop params "bitGoKeychain"))
          ⨾ ("counterPartyGpgPub", prop params "counterPartyGPGKey")
          ⨾ ("counterPartyKeyShare", prop params "counterPartyKeyShare")
          ⨾ end)

unfoldable pub sign_mpc_commitment : AwmClient → Fields → Exec Value
unfolding with_coin
sign_mpc_commitment client params =
    with_coin client.coin "to sign an MPC commitment"
      λ coin. post_expecting_200 client coin "/mpc/sign/commitment" params

unfoldable pub sign_mpc_r_share : AwmClient → Fields → Exec Value
unfolding with_coin
sign_mpc_r_share client params =
    with_coin client.coin "to sign an MPC R-share"
      λ coin. post_expecting_200 client coin "/mpc/sign/r" params

unfoldable pub sign_mpc_g_share : AwmClient → Fields → Exec Value
unfolding with_coin
sign_mpc_g_share client params =
    with_coin client.coin "to sign an MPC G-share"
      λ coin. post_expecting_200 client coin "/mpc/sign/g" params

unfoldable pub init_ecdsa_mpc_v2_key_gen : AwmClient → String → Exec Value
unfolding with_coin
init_ecdsa_mpc_v2_key_gen client source =
    with_coin client.coin "to initialize MPCv2 key generation"
      λ coin. post_expecting_200 client coin "/mpcv2/initialize" (("source", str source) ⨾ end)

unfoldable pub round_ecdsa_mpc_v2_key_gen : AwmClient → Fields → Exec Value
unfolding with_coin
round_ecdsa_mpc_v2_key_gen client params =
    with_coin client.coin "for MPCv2 round"
      λ coin. post_expecting_200 client coin "/mpcv2/round" params

unfoldable pub finalize_ecdsa_mpc_v2_key_gen : AwmClient → Fields → Exec Value
unfolding with_coin
finalize_ecdsa_mpc_v2_key_gen client params =
    with_coin client.coin "to finalize MPCv2 key generation"
      λ coin. post_expecting_200 client coin "/mpcv2/finalize" params

-- `{ ...params, source, pub }`
abbrev signing_body : String → Value → Fields → Fields
signing_body source pub_key params = spread params (("source", str source) ⨾ ("pub", pub_key) ⨾ end)

unfoldable pub sign_mpc_v2_round1 : AwmClient → String → Value → Fields → Exec Value
unfolding with_coin
sign_mpc_v2_round1 client source pub_key params =
    with_coin client.coin "to sign an MPCv2 Round 1" λ coin.
      post_expecting_200 client coin "/mpc/sign/mpcv2round1" (signing_body source pub_key params)

unfoldable pub sign_mpc_v2_round2 : AwmClient → String → Value → Fields → Exec Value
unfolding with_coin
sign_mpc_v2_round2 client source pub_key params =
    with_coin client.coin "to sign an MPCv2 Round 2" λ coin.
      post_expecting_200 client coin "/mpc/sign/mpcv2round2" (signing_body source pub_key params)

unfoldable pub sign_mpc_v2_round3 : AwmClient → String → Value → Fields → Exec Value
unfolding with_coin
sign_mpc_v2_round3 client source pub_key params =
    with_coin client.coin "to sign an MPCv2 Round 3" λ coin.
      post_expecting_200 client coin "/mpc/sign/mpcv2round3" (signing_body source pub_key params)

unfoldable pub recover_ecdsa_mpc_v2_wallet : AwmClient → Value → Value → Exec Value
unfolding with_coin
recover_ecdsa_mpc_v2_wallet client tx_hex pub_key =
    with_coin client.coin "to finalize MPCv2 key generation" λ coin.
      post_expecting_200 client coin "/mpcv2/recovery" (("txHex", tx_hex) ⨾ ("pub", pub_key) ⨾ end)
