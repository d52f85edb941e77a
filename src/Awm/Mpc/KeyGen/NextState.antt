-- ===== src/Awm/Mpc/KeyGen/NextState.antt =====
-- What a round of a key generation encrypts for the next one.
use advanced_wallets.Base.{
  ℕ, ◌+◌, String, ◌≡◌, refl, ap, ◌∙◌, Bool, true, false, not, ◌||◌, List, ◌∷◌, ◌<>◌, str_eq, arith,
  some, inl, inr, Option-cases,
}
use advanced_wallets.Js.{
  Value, undefined, null, bool, arr, num, str, obj, end, ◌⨾◌, get, set, spread, entries, prop,
  is_num, text, to_string,
}
use advanced_wallets.Js.Laws.{get-set}
use advanced_wallets.Js.Parse.{parse_json}
use advanced_wallets.Exec.History.{Earlier, newest, Along, ends, fails, calls}
use advanced_wallets.Js.Json.{json}
use advanced_wallets.Exec.{
  Call, http, sdk, Result, ok, err, World, lift, pure, throw_if, ◌>>=◌, ◌>>◌,
}
use advanced_wallets.Exec.Only.{Only, Only-bind, Only-guarded, only_rules}
use advanced_wallets.Exec.Yields.{Yields, gives, Yields-if, Yields-throw, Only-bind-Yields}
use advanced_wallets.Shared.Errors.{validation_error}
use advanced_wallets.Awm.Mpc.{decrypt_state, parsed, counter_party_of}
use mathlib.Core.Path.{subst}
use advanced_wallets.Awm.Mpc.KeyGen.Round.{
  RoundRequest, check_round_request, keep_gpg_pub, check_session_data, run_round, next_state,
  plus_one, new_session, outgoing_messages,
}

-- A value that is a number is that number.
num_of : (v : Value) (n : ℕ) → is_num v n ≡ true → v ≡ num n
num_of (num m) n h = let e : m ≡ n = ground arith in ap num e
num_of undefined n h = absurd cc
num_of null n h = absurd cc
num_of (bool b) n h = absurd cc
num_of (str t) n h = absurd cc
num_of (obj fs) n h = absurd cc
num_of (arr xs) n h = absurd cc

pub equal_of : (b : Bool) → not b ≡ false → b ≡ true
equal_of true h = refl
equal_of false h = absurd cc

pub moved_on :
    (state : Value) (round : ℕ)
    → is_num (prop state "round") round ≡ true
    → plus_one (prop state "round") ≡ num (round + 1)
unfolding plus_one
moved_on state round same = rw (num_of (prop state "round") round same)

-- `encrypt` of the SDK
abbrev is_encrypt : Call → Bool
is_encrypt (http r) = false
is_encrypt (sdk object method args) = str_eq method "encrypt"

abbrev args_of : Call → Value
args_of (http r) = undefined
args_of (sdk object method args) = args

-- The state of a party was decrypted out of the request, by an answer that parses to it.
abbrev pub Decrypts : World → RoundRequest → Value → List Call → Call → Type 0
Decrypts w req read t c =
    (password : Value) × (answer : Value) × (c
      ≡ sdk "bitgo" "decrypt" (obj (("input", req.encrypted_data) ⨾ ("password", password) ⨾ end)))
    × (w.reply t c ≡ ok answer)
    × (parse_json (text answer) ≡ some read)

-- What a round may change in a state besides its number.
abbrev may_change : String → Bool
may_change key =
    str_eq "round" key
    || str_eq "sessionData" key
    || str_eq "bitgoGpgPub" key
    || str_eq "counterPartyGpgPub" key

-- The next state has the next number, and else what the state before it has.
abbrev pub Moved : ℕ → Value → Value → Type 0
Moved round read next =
    (prop next "round" ≡ num (round + 1))
    × ((key : String) → may_change key ≡ false → prop next key ≡ prop read key)

-- If something is encrypted, it is the text of the state that comes next.
abbrev pub EncryptsMoved : RoundRequest → Value → Call → Type 0
EncryptsMoved req read c =
    is_encrypt c ≡ true
    → (next : Value) × (is_num (prop read "round") req.round ≡ true)
      × Moved req.round read next
      × (prop (args_of c) "input" ≡ str (json next))

-- If something is encrypted, it is the text of the state that comes next after one that was
-- decrypted before.
abbrev pub EncryptsNext : World → RoundRequest → List Call → Call → Type 0
EncryptsNext w req t c =
    is_encrypt c ≡ true
    → (read : Value) × Earlier (Decrypts w req read) t × EncryptsMoved req read c

other : {A : Type 0} → false ≡ true → A
other h = absurd cc

-- The keys of the other parties may be added to a state.
abbrev SameState : Value → Value → Type 0
SameState read state =
    (key : String)
    → str_eq "bitgoGpgPub" key ≡ false
    → str_eq "counterPartyGpgPub" key ≡ false
    → prop state key ≡ prop read key

set-SameState :
    (kept : String) (state v : Value)
    → Yields
        (λ s. (key : String) → str_eq kept key ≡ false → prop s key ≡ prop state key)
        (pure (obj (set (entries state) kept v)))
set-SameState kept state v =
    gives _ λ key differs. rw (get-set (entries state) kept key v, differs) refl

keep_gpg_pub-SameState :
    (kept name : String) (party : ℕ) (input state : Value)
    → Yields
        (λ s. (key : String) → str_eq kept key ≡ false → prop s key ≡ prop state key)
        (keep_gpg_pub kept name party input state)
unfolding keep_gpg_pub
keep_gpg_pub-SameState kept name party input state =
    Yields-if _ _ _ (set-SameState kept state _)
      (Yields-if _ _ _ (Yields-throw _) (gives state λ key h. refl))

next_state-Moved :
    (round : ℕ) (read state session_data : Value)
    → SameState read state
    → is_num (prop state "round") round ≡ true
    → Moved round read (next_state state session_data)
unfolding next_state spread
next_state-Moved round read state session_data kept same = (
  rw
      (
        get-set (set (entries state) "round" _) "sessionData" "round" session_data,
        get-set (entries state) "round" "round" _,
      )
      (moved_on state round same),
  λ key differs.
      let a : str_eq "round" key ≡ false = ground arith in
      let b : str_eq "sessionData" key ≡ false = ground arith in
      rw
        (
          get-set (set (entries state) "round" _) "sessionData" key session_data,
          b,
          get-set (entries state) "round" key _,
          a,
        )
        (kept key (ground arith) (ground arith)),
)

module _ (req : RoundRequest) (password read state : Value) (kept : SameState read state)
    (same : is_num (prop state "round") req.round ≡ true) where
  same_read : is_num (prop read "round") req.round ≡ true
  same_read = subst (λ v. is_num v req.round ≡ true) (kept "round" refl refl) same

  encrypts_moved :
      (session_data : Value)
      → EncryptsMoved req read (
          sdk "bitgo" "encrypt" (
            obj (
              ("input", str (json (next_state state session_data)))
              ⨾ ("password", password)
              ⨾ end)))
  unfolding get
  encrypts_moved session_data h =
      (_, same_read, next_state-Moved req.round read state session_data kept same, refl)

  run_round-EncryptsMoved : Only (EncryptsMoved req read) (run_round req password state)
  unfolding run_round new_session outgoing_messages
  run_round-EncryptsMoved = search (only_rules, encrypts_moved, other) depth 14

module _ {P : Call → Type 0} where
  pub Only-check_round_request : (req : RoundRequest) → Only P (check_round_request req)
  unfolding check_round_request
  Only-check_round_request req = search only_rules depth 9

  Only-keep_gpg_pub :
      (key name : String) (party : ℕ) (input state : Value)
      → Only P (keep_gpg_pub key name party input state)
  unfolding keep_gpg_pub
  Only-keep_gpg_pub key name party input state = search only_rules depth 9

  Only-check_session_data : (round : ℕ) (data_ : Value) → Only P (check_session_data round data_)
  unfolding check_session_data
  Only-check_session_data round data_ = search only_rules depth 9

module _ (w : World) (req : RoundRequest) where
  -- What is left once the state is read.
  pub rest-Only :
      (password read : Value)
      → Only (EncryptsMoved req read) (
          keep_gpg_pub "bitgoGpgPub" "BitGo" 2 req.bitgo_gpg_pub read >>= λ with_bitgo.
          keep_gpg_pub "counterPartyGpgPub" "Counterparty"
            (counter_party_of req.source)
            req.counter_party_gpg_pub
            with_bitgo
          >>= λ state.
              throw_if (not (is_num (prop state "round") req.round)) (
                validation_error (
                  "Round mismatch: expected "
                  <> to_string (prop state "round")
                  <> ", got "
                  <> to_string (num req.round)))
              >> (check_session_data req.round (prop state "sessionData")
                  >> run_round req password state))
  rest-Only password read =
      Only-bind-Yields _ _ (Only-keep_gpg_pub _ _ _ _ _) (keep_gpg_pub-SameState _ _ _ _ _)
        λ with_bitgo k.
          Only-bind-Yields _ _ (Only-keep_gpg_pub _ _ _ _ _) (keep_gpg_pub-SameState _ _ _ _ _)
            λ state l. Only-guarded (not (is_num (prop state "round") req.round)) _ _ λ same.
              Only-bind (check_session_data req.round (prop state "sessionData")) _
                (Only-check_session_data _ _)
                λ b.
                  run_round-EncryptsMoved req password read state (λ key p q. l key q ∙ k key p)
                    (equal_of _ same)

  abbrev decrypt_call : Value → Call
  decrypt_call password =
      sdk "bitgo" "decrypt" (obj (("input", req.encrypted_data) ⨾ ("password", password) ⨾ end))

  answered :
      (password : Value) (t : List Call) (r : Result Value)
      → w.reply t (decrypt_call password) ≡ r
      → Along w
          (EncryptsNext w req)
          (λ u read. Earlier (Decrypts w req read) u)
          (lift r >>= λ input. parsed (text input))
          (decrypt_call password ∷ t)
  unfolding parsed
  answered password t (err e) replied = fails e _
  answered password t (ok answer) replied = elim (Option-cases (parse_json (text answer))) [
    | inl none_read ↦ rw (none_read, parsed) (fails _ _)
    | inr (read, e) ↦ rw (e, parsed) (ends read _ (newest _ t (password, answer, refl, replied, e)))
  ]

  pub read-Along :
      (password : Value) (t : List Call)
      → Along w
          (EncryptsNext w req)
          (λ u read. Earlier (Decrypts w req read) u)
          (decrypt_state req.encrypted_data password)
          t
  unfolding decrypt_state
  read-Along password t = calls _ _ t other (answered password t _ refl)
