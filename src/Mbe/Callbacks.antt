-- ===== src/Mbe/Callbacks.antt =====
-- src/masterBitgoExpress/handlers/walletGenerationCallbacks.ts: the callbacks by which the SDK has
-- the keys of an MPC wallet generated. Ecdsa and Eddsa are those of the two algorithms.
pub mod Ecdsa
pub mod Eddsa
pub mod Order
pub mod Routing
pub mod Finalization
use advanced_wallets.Base.{String, Bool, not, if◌then◌else◌}
use advanced_wallets.Js.{Value, undefined, obj, Fields, end, ◌⨾◌, prop, truthy, arr, nil, cons}
use advanced_wallets.Exec.{Exn, error, Exec, make, throw_if}

abbrev pub assertion : String → Exn
assertion = make error "AssertionError"

-- `assert(test, message)`
abbrev pub assert : Bool → String → Exec (Unit {0})
assert test message = throw_if (not test) (assertion message)

unfoldable pub to_mpc_state : Value → Value
to_mpc_state response = obj (
    ("encryptedData", prop response "encryptedData")
    ⨾ ("encryptedDataKey", prop response "encryptedDataKey")
    ⨾ end)

unfoldable pub format_broadcast_message : Value → Value
format_broadcast_message message = obj (
    ("from", prop message "from")
    ⨾ (
      "payload",
      obj (("message", prop message "message") ⨾ ("signature", prop message "signature") ⨾ end),
    )
    ⨾ end)

unfoldable pub format_p2p_message : Value → Value → Value
format_p2p_message message commitment = obj (
    ("from", prop message "from")
    ⨾ ("to", prop message "to")
    ⨾ (
      "payload",
      obj (
          ("encryptedMessage", prop message "encryptedMessage")
          ⨾ ("signature", prop message "signature")
          ⨾ end),
    )
    ⨾ ("commitment", commitment)
    ⨾ end)

-- `[a, b]`
abbrev pub pair_of : Value → Value → Value
pair_of a b = arr (cons a (cons b nil))

-- The messages that the SDK never sees, as the closure of the callbacks holds them: `undefined`
-- until they are set.
pub record KeyGenState : Type 0 where
  pub user_round1_broadcast : Value
  pub backup_round1_broadcast : Value
  pub user_round3_bitgo_p2p : Value
  pub backup_round3_bitgo_p2p : Value
  pub user_round3_counter_party_p2p : Value
  pub backup_round3_counter_party_p2p : Value
  pub user_round4_broadcast : Value
  pub backup_round4_broadcast : Value

unfoldable pub fresh : KeyGenState
fresh = record {
  user_round1_broadcast = undefined;
  backup_round1_broadcast = undefined;
  user_round3_bitgo_p2p = undefined;
  backup_round3_bitgo_p2p = undefined;
  user_round3_counter_party_p2p = undefined;
  backup_round3_counter_party_p2p = undefined;
  user_round4_broadcast = undefined;
  backup_round4_broadcast = undefined;
}
