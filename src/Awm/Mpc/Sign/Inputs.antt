-- ===== src/Awm/Mpc/Sign/Inputs.antt =====
-- What each signing round of an MPC wallet is called with.
use advanced_wallets.Base.{◌≡◌, false, not}
use advanced_wallets.Js.{Value, str, obj, end, ◌⨾◌, truthy, text}
use advanced_wallets.Exec.{Call, sdk, Coin, World}
use advanced_wallets.Exec.Only.{Only, Only-guarded, only_rules}
use advanced_wallets.Shared.Types.{AdvancedWalletManagerConfig}
use advanced_wallets.Shared.HttpClient.{HttpClient}
use advanced_wallets.Awm.KeyProvider.Calls.{get_key_call, post_to}
use advanced_wallets.Awm.Mpc.Calls.{Only-handlers_generate_data_key, Only-handlers_decrypt_data_key}
use advanced_wallets.Awm.Mpc.Sign.{
  MpcSignRequest, eddsa_utils, ecdsa_mpc_v2_utils, share_args, commitment_args, r_share_args,
  g_share_args, offline_round_args,
}

abbrev pub Given : Value → Type 0
Given v = not (truthy v) ≡ false

-- The calls of a signing request: the private key of the request's source is fetched, a data key is
-- made, or the one of the request is decrypted, and one share is made, of a round whose inputs
-- are all given.
pub data ShareCall (req : MpcSignRequest) : Call → Type 0 where
  key_fetched : (client : HttpClient) → ShareCall req (get_key_call client req.pub_key req.source)
  data_key_made :
      (client : HttpClient)
      → ShareCall req (post_to client "/generateDataKey" (obj (("keyType", str "AES-256") ⨾ end)))
  data_key_decrypted :
      (client : HttpClient)
      → Given req.encrypted_data_key
      → ShareCall req (
          post_to client "/decryptDataKey"
            (obj (("encryptedKey", str (text req.encrypted_data_key)) ⨾ end)))
  commitment_made :
      (coin : Coin) (prv passphrase : Value)
      → Given prv
      → Given req.bitgo_public_gpg_key
      → ShareCall req (
          sdk
            (eddsa_utils coin)
            "createCommitmentShareFromTxRequest"
            (commitment_args req prv passphrase))
  r_share_made :
      (coin : Coin) (prv passphrase : Value)
      → Given req.encrypted_user_to_bitgo_r_share
      → Given req.encrypted_data_key
      → ShareCall req
          (sdk (eddsa_utils coin) "createRShareFromTxRequest" (r_share_args req prv passphrase))
  g_share_made :
      (coin : Coin) (prv : Value)
      → Given prv
      → Given req.bitgo_to_user_r_share
      → Given req.user_to_bitgo_r_share
      → Given req.bitgo_to_user_commitment
      → ShareCall req (sdk (eddsa_utils coin) "createGShareFromTxRequest" (g_share_args req prv))
  round1_made :
      (coin : Coin) (prv passphrase : Value)
      → Given prv
      → ShareCall req (
          sdk
            (ecdsa_mpc_v2_utils coin)
            "createOfflineRound1Share"
            (share_args req prv passphrase end))
  round2_made :
      (coin : Coin) (prv passphrase : Value)
      → Given prv
      → Given req.encrypted_data_key
      → Given req.bitgo_public_gpg_key
      → Given req.encrypted_user_gpg_prv_key
      → Given req.encrypted_round1_session
      → ShareCall req (
          sdk (ecdsa_mpc_v2_utils coin) "createOfflineRound2Share" (
            offline_round_args req prv "encryptedRound1Session" req.encrypted_round1_session
              passphrase))
  round3_made :
      (coin : Coin) (prv passphrase : Value)
      → Given prv
      → Given req.encrypted_data_key
      → Given req.bitgo_public_gpg_key
      → Given req.encrypted_user_gpg_prv_key
      → Given req.encrypted_round2_session
      → ShareCall req (
          sdk (ecdsa_mpc_v2_utils coin) "createOfflineRound3Share" (
            offline_round_args req prv "encryptedRound2Session" req.encrypted_round2_session
              passphrase))

module _ (w : World) (cfg : AdvancedWalletManagerConfig) (coin : Coin) (req : MpcSignRequest)
    (prv : Value) (given : Given prv) where
  ruleset share_rules = (
    only_rules, Only-guarded, Only-handlers_generate_data_key, Only-handlers_decrypt_data_key,
    key_fetched, data_key_made, data_key_decrypted, commitment_made, r_share_made, g_share_made,
    round1_made, round2_made, round3_made,
  )
