-- ===== src/Mbe/Callbacks/Order.antt =====
-- The order of the callbacks, as a refinement of a protocol of four phases.
use advanced_wallets.Base.{
  ℕ, String, ◌≡◌, refl, Bool, true, false, not, Option, none, some, List, ◌==◌, ltb, arith,
  if◌then◌else◌,
}
use advanced_wallets.Js.{obj, end, ◌⨾◌, get, Value, truthy, prop, strict_eq}
use advanced_wallets.Exec.{Exn, Call, ok, err, World, Exec, run, ◌>>◌}
use advanced_wallets.Exec.Yields.{Yields, gives, fails, Yields-bind, Yields-throw_if, Yields-run}
use advanced_wallets.Mbe.AwmClient.{AwmClient}
use advanced_wallets.Mbe.Callbacks.{KeyGenState, fresh, assert, assertion}
use advanced_wallets.Mbe.Callbacks.Ecdsa.{
  p2p, check_p2p, initialize_callback, round2_callback, round3_callback, finalize_callback,
}

pub data Callback : Type 0 where
  initialize round2 round3 : Callback

abbrev pub callback :
    AwmClient → AwmClient → Callback → KeyGenState → Value → Exec (KeyGenState × Value)
callback user_client backup_client initialize s params =
    initialize_callback user_client backup_client s params
callback user_client backup_client round2 s params =
    round2_callback user_client backup_client s params
callback user_client backup_client round3 s params =
    round3_callback user_client backup_client s params

-- How many of the callbacks are behind a state.
abbrev pub phase : KeyGenState → ℕ
phase s =
    if truthy s.user_round4_broadcast
    then 3
    else if truthy s.user_round3_bitgo_p2p
    then 2
    else if truthy s.user_round1_broadcast
    then 1
    else 0

-- The protocol: the phase after a callback, or `none` where the callback must not be called yet, or
-- not again.
abbrev pub next : Callback → ℕ → Option ℕ
next initialize p = if p == 0 then some 1 else none
next round2 p = if ltb p 1 then none else some (if ltb p 2 then 2 else p)
next round3 p = if ltb p 2 then none else some 3

-- The messages of a round are set together, and after those of the rounds before.
pub record InOrder (s : KeyGenState) : Type 0 where
  pub round1 : truthy s.backup_round1_broadcast ≡ truthy s.user_round1_broadcast
  pub round3_backup : truthy s.backup_round3_bitgo_p2p ≡ truthy s.user_round3_bitgo_p2p
  pub round3_to_backup : truthy s.user_round3_counter_party_p2p ≡ truthy s.user_round3_bitgo_p2p
  pub round3_to_user : truthy s.backup_round3_counter_party_p2p ≡ truthy s.user_round3_bitgo_p2p
  pub round4 : truthy s.backup_round4_broadcast ≡ truthy s.user_round4_broadcast
  pub round3_after : truthy s.user_round3_bitgo_p2p ≡ true → truthy s.user_round1_broadcast ≡ true
  pub round4_after : truthy s.user_round4_broadcast ≡ true → truthy s.user_round3_bitgo_p2p ≡ true

-- What a successful callback makes of a state that is in order.
abbrev Follows : Callback → KeyGenState → KeyGenState × Value → Type 0
Follows c s (s', result) = InOrder s' × (next c (phase s) ≡ some (phase s'))

-- The state after each callback.
abbrev after_initialize : KeyGenState → Value → Value → KeyGenState
after_initialize s user_broadcast backup_broadcast = record s {
  user_round1_broadcast = user_broadcast;
  backup_round1_broadcast = backup_broadcast;
}

abbrev after_round2 : KeyGenState → Value → Value → KeyGenState
after_round2 s user_round3 backup_round3 = record s {
  user_round3_bitgo_p2p = p2p user_round3 "bitgo";
  backup_round3_bitgo_p2p = p2p backup_round3 "bitgo";
  user_round3_counter_party_p2p = p2p user_round3 "counterParty";
  backup_round3_counter_party_p2p = p2p backup_round3 "counterParty";
}

abbrev after_round3 : KeyGenState → Value → Value → KeyGenState
after_round3 s user_broadcast backup_broadcast = record s {
  user_round4_broadcast = user_broadcast;
  backup_round4_broadcast = backup_broadcast;
}

-- What `check_p2p` lets through.
abbrev Filled : Value → Value → Type 0
Filled user backup_response =
    (truthy (p2p user "bitgo") ≡ true)
    × (truthy (p2p backup_response "bitgo") ≡ true)
    × (truthy (p2p user "counterParty") ≡ true)
    × (truthy (p2p backup_response "counterParty") ≡ true)

module _ {P : KeyGenState × Value → Type 0} (m : Exec (KeyGenState × Value)) where
  four_asserts :
      (a b c d : Bool) (i j k l : String)
      → ((a ≡ true) × (b ≡ true) × (c ≡ true) × (d ≡ true) → Yields P m)
      → Yields P ((assert a i >> (assert b j >> (assert c k >> assert d l))) >> m)
  four_asserts false b c d i j k l h = fails _
  four_asserts true false c d i j k l h = fails _
  four_asserts true true false d i j k l h = fails _
  four_asserts true true true false i j k l h = fails _
  four_asserts true true true true i j k l h = h (refl, refl, refl, refl)

  check_p2p-Filled :
      (round : String) (user backup_response : Value)
      → (Filled user backup_response → Yields P m)
      → Yields P (check_p2p round user backup_response >> m)
  unfolding check_p2p
  check_p2p-Filled round user backup_response h = four_asserts _ _ _ _ _ _ _ _ h

module _ (user_client backup_client : AwmClient) (s : KeyGenState) (h : InOrder s) where
  initialized :
      (user_broadcast backup_broadcast result : Value)
      → not (not (truthy s.user_round1_broadcast)) ≡ false
      → not (truthy user_broadcast) ≡ false
      → not (truthy backup_broadcast) ≡ false
      → Follows initialize s (after_initialize s user_broadcast backup_broadcast, result)
  initialized u b result free user_set backup_set = (ground arith, ground arith)

  initialize-Follows :
      (key : Value)
      → Yields (Follows initialize s) (initialize_callback user_client backup_client s key)
  unfolding initialize_callback
  initialize-Follows key = search (Yields-throw_if, Yields-bind, gives, initialized) depth 14

  second :
      (u b result : Value)
      → not (truthy s.user_round1_broadcast) ≡ false
      → Filled u b
      → Follows round2 s (after_round2 s u b, result)
  second u b result started filled = (ground arith, ground arith)

  round2-Follows :
      (params : Value)
      → Yields (Follows round2 s) (round2_callback user_client backup_client s params)
  unfolding round2_callback
  round2-Follows params =
      search (Yields-throw_if, check_p2p-Filled, Yields-bind, gives, second) depth 20

  third :
      (u b result : Value)
      → not (truthy s.user_round3_bitgo_p2p) ≡ false
      → not (truthy u) ≡ false
      → not (truthy b) ≡ false
      → Follows round3 s (after_round3 s u b, result)
  third u b result ready user_set backup_set = (ground arith, ground arith)

  round3-Follows :
      (params : Value)
      → Yields (Follows round3 s) (round3_callback user_client backup_client s params)
  unfolding round3_callback
  round3-Follows params = search (Yields-throw_if, Yields-bind, gives, third) depth 20

  callback-Follows :
      (c : Callback) (params : Value)
      → Yields (Follows c s) (callback user_client backup_client c s params)
  callback-Follows initialize params = initialize-Follows params
  callback-Follows round2 params = round2-Follows params
  callback-Follows round3 params = round3-Follows params

  -- A callback out of turn throws before it makes a call.
  out_of_turn :
      (w : World) (t : List Call) (c : Callback) (params : Value)
      → next c (phase s) ≡ none
      → (e : Exn) × (run w (callback user_client backup_client c s params) t ≡ (err e, t))
  unfolding initialize_callback round2_callback round3_callback run
  out_of_turn w t initialize params early =
      let set : truthy s.user_round1_broadcast ≡ true = ground arith in
      (assertion "initializeCallback called more than once", rw set)
  out_of_turn w t round2 params early =
      let unset : truthy s.user_round1_broadcast ≡ false = ground arith in
      (assertion "round2Callback called before initializeCallback completed", rw unset)
  out_of_turn w t round3 params early =
      let unset : truthy s.user_round3_counter_party_p2p ≡ false = ground arith in
      (assertion "round3Callback called before round2Callback completed", rw unset)

-- The states that the closure can be in: callbacks in any order, of any parameters, in any worlds.
pub data Reach (user_client backup_client : AwmClient) : KeyGenState → Type 0 where
  start : Reach user_client backup_client fresh
  after :
      (s s' : KeyGenState) (w : World) (t : List Call) (c : Callback) (params result : Value)
      → Reach user_client backup_client s
      → (run w (callback user_client backup_client c s params) t).0 ≡ ok (s', result)
      → Reach user_client backup_client s'

fresh-InOrder : InOrder fresh
unfolding fresh truthy
fresh-InOrder = ground arith

Reach-InOrder :
    (user_client backup_client : AwmClient) {s : KeyGenState}
    → Reach user_client backup_client s
    → InOrder s
Reach-InOrder user_client backup_client start = fresh-InOrder
Reach-InOrder user_client backup_client (after s s' w t c params result r e) =
    (Yields-run w _ t (s', result)
      (callback-Follows user_client backup_client s (Reach-InOrder user_client backup_client r) c
        params)
      e).0

-- From every state that the callbacks of an ECDSA key generation can bring about, with whatever
-- answers: a callback that succeeds makes the step that the protocol allows, and a callback that the
-- protocol does not allow (a second initialization, or a round before the round before it) throws
-- without a call to a wallet manager.
pub keygen_refines_protocol :
    (user_client backup_client : AwmClient) (s : KeyGenState) (w : World) (t : List Call)
    (c : Callback) (params : Value)
    → Reach user_client backup_client s
    → ((s' : KeyGenState) (result : Value)
        → (run w (callback user_client backup_client c s params) t).0 ≡ ok (s', result)
        → next c (phase s) ≡ some (phase s'))
      × (next c (phase s) ≡ none
          → (e : Exn) × (run w (callback user_client backup_client c s params) t ≡ (err e, t)))
keygen_refines_protocol user_client backup_client s w t c params r =
    let h : InOrder s = Reach-InOrder user_client backup_client r in
    (
      λ s' result e.
          (Yields-run w _ t (s', result) (callback-Follows user_client backup_client s h c params)
            e).1,
      out_of_turn user_client backup_client s h w t c params,
    )

-- All the messages of the closure are set.
abbrev pub Complete : KeyGenState → Type 0
Complete s =
    (truthy s.user_round1_broadcast ≡ true)
    × (truthy s.backup_round1_broadcast ≡ true)
    × (truthy s.user_round3_counter_party_p2p ≡ true)
    × (truthy s.backup_round3_counter_party_p2p ≡ true)
    × (truthy s.user_round4_broadcast ≡ true)
    × (truthy s.backup_round4_broadcast ≡ true)

-- The keychain of the result is BitGo's.
abbrev Agrees : KeyGenState → Value → Value → Type 0
Agrees s params result =
    (truthy s.user_round4_broadcast ≡ true)
    × (strict_eq (prop result "commonKeychain") (prop params "bitgoCommonKeychain") ≡ true)

agreed :
    (s : KeyGenState) (params user_keychain : Value)
    → not (truthy s.user_round4_broadcast) ≡ false
    → not (strict_eq user_keychain (prop params "bitgoCommonKeychain")) ≡ false
    → Agrees s params (obj (("commonKeychain", user_keychain) ⨾ end))
unfolding get
agreed s params user_keychain set same = (ground arith, ground arith)

finalize-Agrees :
    (user_client backup_client : AwmClient) (s : KeyGenState) (params : Value)
    → Yields (Agrees s params) (finalize_callback user_client backup_client s params)
unfolding finalize_callback
finalize-Agrees user_client backup_client s params =
    search (Yields-throw_if, Yields-bind, gives, agreed) depth 20

pub finalize-Complete :
    (user_client backup_client : AwmClient) (s : KeyGenState) (w : World) (t : List Call)
    (params result : Value)
    → Reach user_client backup_client s
    → (run w (finalize_callback user_client backup_client s params) t).0 ≡ ok result
    → Complete s
      × (strict_eq (prop result "commonKeychain") (prop params "bitgoCommonKeychain") ≡ true)
finalize-Complete user_client backup_client s w t params result r e =
    let h : InOrder s = Reach-InOrder user_client backup_client r in
    let a : Agrees s params result =
      Yields-run w _ t result (finalize-Agrees user_client backup_client s params) e in
    (ground arith, a.1)
