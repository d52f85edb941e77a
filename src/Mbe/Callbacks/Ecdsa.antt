-- ===== src/Mbe/Callbacks/Ecdsa.antt =====
-- `createEcdsaMPCv2KeyGenCallbacks`. A callback returns the state of the closure after it, and its
-- result; where it throws, the closure is as before.
use advanced_wallets.Base.{ℕ, String, Bool, not, ◌<>◌}
use advanced_wallets.Js.{
  Value, undefined, num, str, obj, Fields, end, ◌⨾◌, entries, prop, truthy, is_num, strict_eq,
  spread, arr, nil,
}
use advanced_wallets.Exec.{Exec, pure, ◌>>=◌, ◌>>◌}
use advanced_wallets.Exec.Both.{both}
use advanced_wallets.Mbe.AwmClient.{AwmClient}
use advanced_wallets.Mbe.AwmClient.Mpc.{
  init_ecdsa_mpc_v2_key_gen, round_ecdsa_mpc_v2_key_gen, finalize_ecdsa_mpc_v2_key_gen,
}
use advanced_wallets.Mbe.Callbacks.{
  KeyGenState, assert, to_mpc_state, format_broadcast_message, format_p2p_message, pair_of,
}

-- `message.from === from`, and `message.to === to`, of PARTY: user 0, backup 1, BitGo 2.
abbrev pub is_from : Value → ℕ → Bool
is_from message party = is_num (prop message "from") party

abbrev pub is_to : Value → ℕ → Bool
is_to message party = is_num (prop message "to") party

-- `{ source, ...state, round, [kind]: { bitgo, counterParty } }`
abbrev pub round_params : String → Value → ℕ → String → Value → Value → Fields
round_params source state round kind bitgo counter_party = spread (("source", str source) ⨾ end) (
    spread (entries state) (
      ("round", num round)
      ⨾ (kind, obj (("bitgo", bitgo) ⨾ ("counterParty", counter_party) ⨾ end))
      ⨾ end))

abbrev pub first_round_params : String → Value → Value → Value → Fields
first_round_params source init bitgo_gpg_key counter_party_gpg_pub =
    ("source", str source)
    ⨾ ("encryptedData", prop init "encryptedData")
    ⨾ ("encryptedDataKey", prop init "encryptedDataKey")
    ⨾ ("round", num 1)
    ⨾ ("bitgoGpgPub", bitgo_gpg_key)
    ⨾ ("counterPartyGpgPub", counter_party_gpg_pub)
    ⨾ end

abbrev pub finalize_params : String → Value → Value → Value → Value → Fields
finalize_params source state bitgo counter_party bitgo_common_keychain =
    spread (("source", str source) ⨾ end) (
      spread (entries state) (
        ("broadcastMessages", obj (("bitgo", bitgo) ⨾ ("counterParty", counter_party) ⨾ end))
        ⨾ ("bitgoCommonKeychain", bitgo_common_keychain)
        ⨾ end))

abbrev pub p2p : Value → String → Value
p2p response key = prop (prop response "p2pMessages") key

abbrev messages : Value → Value → Value
messages broadcast p2p_messages =
    obj (("broadcastMessages", broadcast) ⨾ ("p2pMessages", p2p_messages) ⨾ end)

-- The messages that the responses of a round to both managers must have.
unfoldable pub check_p2p : String → Value → Value → Exec (Unit {0})
check_p2p round user backup_response = do
  assert (truthy (p2p user "bitgo"))
      ("Missing BitGo p2p message in user round " <> round <> " response")
  assert (truthy (p2p backup_response "bitgo"))
      ("Missing BitGo p2p message in backup round " <> round <> " response")
  assert (truthy (p2p user "counterParty"))
      ("Missing counterParty p2p in user round " <> round <> " response")
  assert (truthy (p2p backup_response "counterParty"))
      ("Missing counterParty p2p in backup round " <> round <> " response")

-- The messages of BitGo for a round come from BitGo, and go to the user and to the backup.
unfoldable pub check_addresses : String → Value → Value → Exec (Unit {0})
check_addresses round to_user to_backup = do
  assert (is_from to_user 2) ("bitgoToUserMsg" <> round <> " is not from BitGo")
  assert (is_to to_user 0) ("bitgoToUserMsg" <> round <> " is not addressed to user")
  assert (is_from to_backup 2) ("bitgoToBackupMsg" <> round <> " is not from BitGo")
  assert (is_to to_backup 1) ("bitgoToBackupMsg" <> round <> " is not addressed to backup")

module _ (user_client backup_client : AwmClient) where
  -- A round of both wallet managers.
  unfoldable pub both_rounds : Fields → Fields → Exec (Value × Value)
  both_rounds user_params backup_params =
      both (round_ecdsa_mpc_v2_key_gen user_client user_params)
        (round_ecdsa_mpc_v2_key_gen backup_client backup_params)

  unfoldable pub initialize_callback : KeyGenState → Value → Exec (KeyGenState × Value)
  unfolding both_rounds
  initialize_callback state bitgo_public_gpg_key = do
    assert (not (truthy state.user_round1_broadcast)) "initializeCallback called more than once"
    user_init ← init_ecdsa_mpc_v2_key_gen user_client "user"
    backup_init ← init_ecdsa_mpc_v2_key_gen backup_client "backup"
    (user_round1, backup_round1) ←
        both_rounds
          (first_round_params "user" user_init bitgo_public_gpg_key (prop backup_init "gpgPub"))
          (first_round_params "backup" backup_init bitgo_public_gpg_key (prop user_init "gpgPub"))
    let user_broadcast = prop user_round1 "broadcastMessage"
    let backup_broadcast = prop backup_round1 "broadcastMessage"
    assert (truthy user_broadcast) "Missing broadcast message in user round 1 response"
    assert (truthy backup_broadcast) "Missing broadcast message in backup round 1 response"
    pure (
      record state {
        user_round1_broadcast = user_broadcast;
        backup_round1_broadcast = backup_broadcast;
      },
      obj (
          ("userGpgPublicKey", prop user_init "gpgPub")
          ⨾ ("backupGpgPublicKey", prop backup_init "gpgPub")
          ⨾ ("round1Messages", messages (pair_of user_broadcast backup_broadcast) (arr nil))
          ⨾ ("userState", to_mpc_state user_round1)
          ⨾ ("backupState", to_mpc_state backup_round1)
          ⨾ end),
    )

  -- The parameters are the object that the SDK passes.
  unfoldable pub round2_callback : KeyGenState → Value → Exec (KeyGenState × Value)
  unfolding both_rounds check_p2p check_addresses
  round2_callback state params = do
    let too_early : String = "round2Callback called before initializeCallback completed"
    assert (truthy state.user_round1_broadcast) too_early
    assert (truthy state.backup_round1_broadcast) too_early
    assert (is_from (prop params "bitgoMsg1") 2) "bitgoMsg1 is not from BitGo"
    let bitgo = format_broadcast_message (prop params "bitgoMsg1")
    (user_round2, backup_round2) ←
        both_rounds
          (round_params "user" (prop params "userState") 2 "broadcastMessages" bitgo
            state.backup_round1_broadcast)
          (round_params "backup" (prop params "backupState") 2 "broadcastMessages" bitgo
            state.user_round1_broadcast)
    check_p2p "2" user_round2 backup_round2
    check_addresses "2" (prop params "bitgoToUserMsg2") (prop params "bitgoToBackupMsg2")
    (user_round3, backup_round3) ←
        both_rounds
          (round_params "user" (to_mpc_state user_round2) 3 "p2pMessages"
            (format_p2p_message (prop params "bitgoToUserMsg2") undefined)
            (p2p backup_round2 "counterParty"))
          (round_params "backup" (to_mpc_state backup_round2) 3 "p2pMessages"
            (format_p2p_message (prop params "bitgoToBackupMsg2") undefined)
            (p2p user_round2 "counterParty"))
    check_p2p "3" user_round3 backup_round3
    pure (
      record state {
        user_round3_bitgo_p2p = p2p user_round3 "bitgo";
        backup_round3_bitgo_p2p = p2p backup_round3 "bitgo";
        user_round3_counter_party_p2p = p2p user_round3 "counterParty";
        backup_round3_counter_party_p2p = p2p backup_round3 "counterParty";
      },
      obj (
          (
            "round2Messages",
            messages (arr nil) (pair_of (p2p user_round2 "bitgo") (p2p backup_round2 "bitgo")),
          )
          ⨾ ("userState", to_mpc_state user_round3)
          ⨾ ("backupState", to_mpc_state backup_round3)
          ⨾ end),
    )

  unfoldable pub round3_callback : KeyGenState → Value → Exec (KeyGenState × Value)
  unfolding both_rounds check_addresses
  round3_callback state params = do
    let too_early : String = "round3Callback called before round2Callback completed"
    assert (truthy state.user_round3_counter_party_p2p) too_early
    assert (truthy state.backup_round3_counter_party_p2p) too_early
    assert (truthy state.user_round3_bitgo_p2p) too_early
    assert (truthy state.backup_round3_bitgo_p2p) too_early
    check_addresses "3" (prop params "bitgoToUserMsg3") (prop params "bitgoToBackupMsg3")
    let commitment = prop params "bitgoCommitment2"
    (user_round4, backup_round4) ←
        both_rounds
          (round_params "user" (prop params "userState") 4 "p2pMessages"
            (format_p2p_message (prop params "bitgoToUserMsg3") commitment)
            state.backup_round3_counter_party_p2p)
          (round_params "backup" (prop params "backupState") 4 "p2pMessages"
            (format_p2p_message (prop params "bitgoToBackupMsg3") commitment)
            state.user_round3_counter_party_p2p)
    let user_broadcast = prop user_round4 "broadcastMessage"
    let backup_broadcast = prop backup_round4 "broadcastMessage"
    assert (truthy user_broadcast) "Missing broadcast message in user round 4 response"
    assert (truthy backup_broadcast) "Missing broadcast message in backup round 4 response"
    pure (
      record state {
        user_round4_broadcast = user_broadcast;
        backup_round4_broadcast = backup_broadcast;
      },
      obj (
          (
            "round3Messages",
            messages (pair_of user_broadcast backup_broadcast)
                (pair_of state.user_round3_bitgo_p2p state.backup_round3_bitgo_p2p),
          )
          ⨾ ("userState", to_mpc_state user_round4)
          ⨾ ("backupState", to_mpc_state backup_round4)
          ⨾ end),
    )

  unfoldable pub finalize_callback : KeyGenState → Value → Exec Value
  finalize_callback state params = do
    let too_early : String = "finalizeCallback called before round3Callback completed"
    let bitgo_common_keychain = prop params "bitgoCommonKeychain"
    assert (truthy state.user_round4_broadcast) too_early
    assert (truthy state.backup_round4_broadcast) too_early
    assert (is_from (prop params "bitgoMsg4") 2) "bitgoMsg4 is not from BitGo"
    let bitgo = format_broadcast_message (prop params "bitgoMsg4")
    (user_finalize, backup_finalize) ←
        both
          (finalize_ecdsa_mpc_v2_key_gen user_client (
            finalize_params "user" (prop params "userState") bitgo state.backup_round4_broadcast
              bitgo_common_keychain))
          (finalize_ecdsa_mpc_v2_key_gen backup_client (
            finalize_params "backup" (prop params "backupState") bitgo state.user_round4_broadcast
              bitgo_common_keychain))
    let user_keychain = prop user_finalize "commonKeychain"
    let backup_keychain = prop backup_finalize "commonKeychain"
    assert (truthy user_keychain) "Missing common keychain in user finalize response"
    assert (truthy backup_keychain) "Missing common keychain in backup finalize response"
    assert (strict_eq user_keychain backup_keychain) "User and backup common keychains do not match"
    assert (strict_eq user_keychain bitgo_common_keychain)
        "User and BitGo common keychains do not match"
    pure (obj (("commonKeychain", user_keychain) ⨾ end))
