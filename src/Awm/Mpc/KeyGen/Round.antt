-- ===== src/Awm/Mpc/KeyGen/Round.antt =====
-- src/advancedWalletManager/handlers/ecdsaMPCV2WalletGenerationRound.ts
use advanced_wallets.Base.{
  ℕ, ◌+◌, String, Bool, true, false, not, ◌&&◌, ◌||◌, ltb, ◌==◌, ◌<>◌, if◌then◌else◌,
}
use advanced_wallets.Js.{
  Value, undefined, num, str, obj, end, ◌⨾◌, entries, set, spread, prop, truthy, text, is_nil,
  is_num, strict_eq, to_string, arr, Items, nil, cons,
}
use advanced_wallets.Exec.{
  World, Exec, sdk, pure, throw, throw_if, lift, catch, perform, plain_error, exn_prop, ◌>>=◌, ◌>>◌,
}
use advanced_wallets.Shared.Types.{AdvancedWalletManagerConfig}
use advanced_wallets.Shared.Errors.{bad_request_error, validation_error}
use advanced_wallets.Awm.KeyProvider.{new_key_provider}
use advanced_wallets.Awm.Mpc.{counter_party_of, encrypt_state, decrypt_state, plaintext_key}
use advanced_wallets.Awm.Mpc.KeyGen.Messages.{
  object_conversion, keys_of, private_keys_of, dkg_args, incoming_args,
}

-- A request for a round: `req.decoded`, and the two keys of `req.body`, which may be `undefined`.
pub record RoundRequest : Type 0 where
  pub source : String
  pub encrypted_data : Value
  pub encrypted_data_key : Value
  pub round : ℕ
  pub broadcast_messages : Value
  pub p2p_messages : Value
  pub bitgo_gpg_pub : Value
  pub counter_party_gpg_pub : Value

-- `messages && (!messages.bitgo || !messages.counterParty)`
abbrev lacks_message : Value → Bool
lacks_message messages =
    truthy messages
    && (not (truthy (prop messages "bitgo")) || not (truthy (prop messages "counterParty")))

unfoldable pub check_round_request : RoundRequest → Exec (Unit {0})
check_round_request req = do
  throw_if (ltb req.round 1 || ltb 4 req.round) (bad_request_error "Round must be between 1 and 4")
  throw_if (not (truthy req.broadcast_messages) && not (truthy req.p2p_messages) && ltb 1 req.round)
      (bad_request_error "At least one of broadcastMessages or p2pMessages must be provided")
  throw_if (lacks_message req.broadcast_messages)
      (bad_request_error "broadcastMessages did not contain all required messages")
  throw_if (lacks_message req.p2p_messages)
      (bad_request_error "p2pMessages did not contain all required messages")

-- The public key of a party: the first one that comes is kept, a later one must be the same.
unfoldable pub keep_gpg_pub : String → String → ℕ → Value → Value → Exec Value
keep_gpg_pub key name party input state =
    if not (truthy (prop state key))
    then pure
        (obj (set (entries state) key (obj (("gpgKey", input) ⨾ ("partyId", num party) ⨾ end))))
    else if truthy input && not (strict_eq (prop (prop state key) "gpgKey") input)
    then throw (
        validation_error (
          name
          <> " GPG public key mismatch: expected "
          <> to_string (prop (prop state key) "gpgKey")
          <> ", got "
          <> to_string input))
    else pure state

unfoldable pub check_session_data : ℕ → Value → Exec (Unit {0})
check_session_data round session_data = do
  throw_if (not (truthy session_data) && ltb 1 round)
      (validation_error "Session data is missing for round greater than 1")
  throw_if (truthy session_data && is_nil (prop session_data "dkgSessionBytes")) object_conversion

unfoldable pub outgoing_messages : RoundRequest → Value → Value → Exec Value
outgoing_messages req state session =
    if req.round == 1
    then (do
      message ← perform (sdk "Dkg" "initDkg" session)
      pure (obj (("broadcastMessages", arr (cons message nil)) ⨾ ("p2pMessages", arr nil) ⨾ end)))
    else (do
      incoming ← perform (
          sdk "DklsComms" "decryptAndVerifyIncomingMessages"
            (incoming_args req.p2p_messages req.broadcast_messages state))
      messages ← perform (sdk "DklsTypes" "deserializeMessages" incoming)
      catch
          (perform (
            sdk "Dkg" "handleIncomingMessages"
              (obj (("session", session) ⨾ ("messages", messages) ⨾ end))))
          λ e.
            throw
              (plain_error ("Failed to handle incoming messages: " <> text (exn_prop e "message"))))

-- The cast of a message's commitment throws where there is none.
abbrev lacks_commitment : Items → Bool
lacks_commitment nil = false
lacks_commitment (cons message rest) = is_nil (prop message "commitment") || lacks_commitment rest

abbrev items_of : Value → Items
items_of (arr xs) = xs
items_of _ = nil

abbrev first_or_undefined : Items → Value
first_or_undefined nil = undefined
first_or_undefined (cons v vs) = v

abbrev find_to : Bool → Items → Value
find_to bitgo nil = undefined
find_to bitgo (cons message rest) =
    let others = find_to bitgo rest in
    if is_num (prop message "to") 2
    then (if bitgo then message else others)
    else (if bitgo then others else message)

-- `signedMessages.p2pMessages.length > 0 ? { bitgo, counterParty } : undefined`
abbrev p2p_response : Items → Value
p2p_response nil = undefined
p2p_response messages =
    obj (("bitgo", find_to true messages) ⨾ ("counterParty", find_to false messages) ⨾ end)

-- `v + 1`. Where it is used, `v` is the number of the request's round.
unfoldable pub plus_one : Value → Value
plus_one (num n) = num (n + 1)
plus_one (str s) = str (s <> "1")
plus_one _ = undefined

-- The state that goes on to the next round.
unfoldable pub next_state : Value → Value → Value
unfolding plus_one
next_state state session_data = obj (
    spread (entries state)
      (("round", plus_one (prop state "round")) ⨾ ("sessionData", session_data) ⨾ end))

unfoldable pub new_session : RoundRequest → Value → Exec Value
new_session req session_data =
    if req.round == 1
    then perform (sdk "DklsDkg" "new Dkg" (dkg_args req.source undefined))
    else perform (sdk "DklsDkg" "restoreSession" (dkg_args req.source session_data))

-- The round itself, once the state is read and checked.
unfoldable pub run_round : RoundRequest → Value → Value → Exec Value
run_round req password state = do
  session ← new_session req (prop state "sessionData")
  outgoing ← outgoing_messages req state session
  throw_if (lacks_commitment (items_of (prop outgoing "p2pMessages"))) object_conversion
  serialized ← perform (sdk "DklsTypes" "serializeMessages" outgoing)
  signed ← perform (
      sdk "DklsComms" "encryptAndAuthOutgoingMessages" (
        obj (
          ("messages", serialized)
          ⨾ ("pubs", keys_of state)
          ⨾ ("prvs", private_keys_of state)
          ⨾ end)))
  session_data ← perform (sdk "Dkg" "getSessionData" session)
  encrypted ← encrypt_state (next_state state session_data) password
  pure (
      obj (
        ("round", plus_one (prop state "round"))
        ⨾ ("encryptedDataKey", req.encrypted_data_key)
        ⨾ ("encryptedData", encrypted)
        ⨾ ("p2pMessages", p2p_response (items_of (prop signed "p2pMessages")))
        ⨾ ("broadcastMessage", first_or_undefined (items_of (prop signed "broadcastMessages")))
        ⨾ end))

module _ (w : World) where
  unfoldable pub ecdsa_mpc_v2_round : AdvancedWalletManagerConfig → RoundRequest → Exec Value
  ecdsa_mpc_v2_round cfg req = do
    key_provider ← lift (new_key_provider w cfg)
    check_round_request req
    password ← plaintext_key w key_provider req.encrypted_data_key
    read ← decrypt_state req.encrypted_data password
    with_bitgo ← keep_gpg_pub "bitgoGpgPub" "BitGo" 2 req.bitgo_gpg_pub read
    state ←
        keep_gpg_pub "counterPartyGpgPub" "Counterparty" (counter_party_of req.source)
          req.counter_party_gpg_pub with_bitgo
    throw_if (not (is_num (prop state "round") req.round)) (
        validation_error (
          "Round mismatch: expected "
          <> to_string (prop state "round")
          <> ", got "
          <> to_string (num req.round)))
    check_session_data req.round (prop state "sessionData")
    run_round req password state
  -- The common keychain is computed, compared, and then the key share is stored under it.
