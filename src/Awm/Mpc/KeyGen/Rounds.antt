-- ===== src/Awm/Mpc/KeyGen/Rounds.antt =====
-- What a round of a key generation answers and encrypts.
use advanced_wallets.Base.{ℕ, ◌+◌, ◌≤◌, String, ◌≡◌, true, false, not, ◌||◌, List, [], ltb, arith}
use advanced_wallets.Js.{Value, num, get, prop, is_num}
use advanced_wallets.Exec.History.{Each, Along, Any, Along-run, Along-bind, Along-Only, Along-after}
use advanced_wallets.Exec.{Call, ok, World, run, lift}
use advanced_wallets.Exec.Only.{returns}
use advanced_wallets.Exec.Yields.{
  Yields, gives, Yields-bind, Yields-then, Yields-last, Yields-map, Yields-throw_if, Yields-run,
}
use advanced_wallets.Shared.Types.{AdvancedWalletManagerConfig}
use advanced_wallets.Shared.HttpClient.{HttpClient}
use advanced_wallets.Awm.KeyProvider.{new_key_provider}
use advanced_wallets.Awm.KeyProvider.Calls.{post_to}
use advanced_wallets.Awm.Mpc.{decrypt_state, plaintext_key}
use advanced_wallets.Awm.Mpc.Calls.{Only-plaintext_key}
use advanced_wallets.Awm.Mpc.KeyGen.NextState.{
  equal_of, moved_on, EncryptsNext, Only-check_round_request, rest-Only, read-Along,
}
use advanced_wallets.Awm.Mpc.KeyGen.Round.{
  RoundRequest, check_round_request, run_round, ecdsa_mpc_v2_round,
}

-- What a successful round answers.
abbrev Advances : ℕ → Value → Type 0
Advances round answer = (1 ≤ round) × (round ≤ 4) × (prop answer "round" ≡ num (round + 1))

abbrev OneToFour : RoundRequest → Type 0
OneToFour req = (1 ≤ req.round) × (req.round ≤ 4)

in_range : (round : ℕ) → ltb round 1 || ltb 4 round ≡ false → (1 ≤ round) × (round ≤ 4)
in_range round h = (ground arith, ground arith)

checked-OneToFour : (req : RoundRequest) → Yields (λ _. OneToFour req) (check_round_request req)
unfolding check_round_request
checked-OneToFour req =
    Yields-throw_if (ltb req.round 1 || ltb 4 req.round) _ _
      λ within. search (Yields-throw_if, Yields-last, in_range req.round within) depth 9

run_round-answer :
    (req : RoundRequest) (password state : Value)
    → is_num (prop state "round") req.round ≡ true
    → Yields (λ v. prop v "round" ≡ num (req.round + 1)) (run_round req password state)
unfolding run_round get
run_round-answer req password state same =
    let e = moved_on state req.round same in
    search (Yields-throw_if, Yields-bind, gives, e) depth 14

module _ (req : RoundRequest) (within : OneToFour req) where
  answer-Advances :
      (password state : Value)
      → not (is_num (prop state "round") req.round) ≡ false
      → Yields (Advances req.round) (run_round req password state)
  answer-Advances password state same =
      Yields-map (run_round req password state)
        (run_round-answer req password state (equal_of _ same))
        λ v moved. (within.0, within.1, moved)

round-Advances :
    (w : World) (cfg : AdvancedWalletManagerConfig) (req : RoundRequest)
    → Yields (Advances req.round) (ecdsa_mpc_v2_round w cfg req)
unfolding ecdsa_mpc_v2_round
round-Advances w cfg req = Yields-bind (lift (new_key_provider w cfg)) _ λ key_provider.
    Yields-then (check_round_request req) _ (checked-OneToFour req)
      λ done within. search (Yields-throw_if, Yields-bind, answer-Advances req within) depth 14

http_encrypts :
    (w : World) (req : RoundRequest) (client : HttpClient) (path : String) (params : Value)
    (t : List Call)
    → EncryptsNext w req t (post_to client path params)
unfolding post_to
http_encrypts w req client path params t h = absurd cc

round-EncryptsNext :
    (w : World) (cfg : AdvancedWalletManagerConfig) (req : RoundRequest)
    → Along w (EncryptsNext w req) Any (ecdsa_mpc_v2_round w cfg req) []
unfolding ecdsa_mpc_v2_round
round-EncryptsNext w cfg req =
    Along-bind w (lift (new_key_provider w cfg)) _ [] (Along-Only w _ [] (returns _))
      λ key_provider t p.
        Along-bind w (check_round_request req) _ t (Along-Only w _ t (Only-check_round_request req))
          λ a u q.
            Along-bind w (plaintext_key w key_provider req.encrypted_data_key) _ u
              (Along-Only w _ u (Only-plaintext_key w key_provider _ (http_encrypts w req _ _ _)))
              λ password v r.
                Along-bind w (decrypt_state req.encrypted_data password) _ v
                  (read-Along w req password v)
                  λ read x d.
                    Along-after w _ x d (λ y c e p h. (read, e, p)) (rest-Only w req password read)

-- A round of a key generation that succeeds has a number from 1 to 4 and answers the next number.
-- And what a round encrypts, whether it succeeds or not, is the text of a state that comes next after
-- the one that was decrypted out of the request: that one had the number of the request, the one that
-- is encrypted has the next number, and apart from the number, the session and the public keys of
-- the other parties it is the same. No round is skipped, repeated or run on another state.
pub mpc_v2_round_advances :
    (w : World) (cfg : AdvancedWalletManagerConfig) (req : RoundRequest)
    → Each (EncryptsNext w req) (run w (ecdsa_mpc_v2_round w cfg req) []).1
      × ((answer : Value)
          → (run w (ecdsa_mpc_v2_round w cfg req) []).0 ≡ ok answer
          → (1 ≤ req.round) × (req.round ≤ 4) × (prop answer "round" ≡ num (req.round + 1)))
mpc_v2_round_advances w cfg req = (
  Along-run w (ecdsa_mpc_v2_round w cfg req) [] (round-EncryptsNext w cfg req) tt,
  λ answer e. Yields-run w _ [] answer (round-Advances w cfg req) e,
)
