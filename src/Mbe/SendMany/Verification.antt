-- ===== src/Mbe/SendMany/Verification.antt =====
-- sendMany of a multisig wallet: a transaction that the SDK does not verify is not signed.
use advanced_wallets.Base.{◌≡◌, refl, Bool, false, not, ◌⊎◌, inl, inr, List, [], ◌∷◌}
use advanced_wallets.Js.{Value, Fields, truthy}
use advanced_wallets.Exec.{
  Exn, Call, http, sdk, Result, ok, err, World, Coin, Exec, done, catch, throw, throw_if, run,
  ◌>>=◌,
}
use advanced_wallets.Exec.Only.{All}
use advanced_wallets.Mbe.SendMany.{
  MasterRequest, prebuild_params, verify_prebuild, verify_args, send_many_multisig,
}

-- `verifyTransaction` answered that the transaction is valid.
abbrev pub verified : Result Value → Bool
verified (ok v) = truthy v
verified (err e) = false

-- Neither a wallet manager, the bridge nor the wallet platform is called.
abbrev pub BuildsOrVerifies : Call → Type 0
BuildsOrVerifies (http r) = ⊥
BuildsOrVerifies (sdk object method args) =
    (method ≡ "wallet.prebuildTransaction") ⊎ (method ≡ "verifyTransaction")

stops :
    {A : Type 0} (w : World) (r : Result Value) (e : Exn) (h : Exn → Exn) (next : Unit {0} → Exec A)
    (t : List Call)
    → verified r ≡ false
    → (run w (catch (done r >>= λ v. throw_if (not (truthy v)) e) (λ x. throw (h x)) >>= next) t).1
      ≡ t
unfolding run
stops w (ok v) e h next t refused = rw refused refl
stops w (err x) e h next t refused = refl

verify_stops :
    {A : Type 0} (w : World) (coin : Coin) (params : Fields) (tx wallet : Value)
    (next : Unit {0} → Exec A) (t : List Call)
    → ((u : List Call) (args : Value)
        → verified (w.reply u (sdk coin.name "verifyTransaction" args)) ≡ false)
    → (run w (verify_prebuild coin params tx wallet >>= next) t).1
      ≡ sdk coin.name "verifyTransaction" (verify_args params tx wallet) ∷ t
unfolding verify_prebuild run
verify_stops w coin params tx wallet next t refused = stops w _ _ _ next _ (refused _ _)

goes_on :
    {A : Type 0} (w : World) (r : Result Value) (next : Value → Exec A) (t : List Call)
    → All BuildsOrVerifies t
    → ((v : Value) → All BuildsOrVerifies (run w (next v) t).1)
    → All BuildsOrVerifies (run w (done r >>= next) t).1
unfolding run
goes_on w (ok v) next t h k = k v
goes_on w (err e) next t h k = h

-- If the SDK refuses to verify, or fails to, whatever else the services answer, sending from a
-- multisig wallet calls nothing but `prebuildTransaction` and `verifyTransaction`: no wallet manager
-- is asked to sign, no job is submitted and nothing is sent, in async mode as well as without.
pub unverified_send_many_calls :
    (w : World) (req : MasterRequest) (coin : Coin) (wallet keychain : Value)
    → ((u : List Call) (args : Value)
        → verified (w.reply u (sdk coin.name "verifyTransaction" args)) ≡ false)
    → All BuildsOrVerifies (run w (send_many_multisig w req coin wallet keychain) []).1
unfolding send_many_multisig run
unverified_send_many_calls w req coin wallet keychain refused =
    goes_on w (w.reply [] _) _ _ (inl refl, tt)
      λ tx.
        rw (verify_stops w coin (prebuild_params req coin) tx wallet _ _ refused)
          (inr refl, (inl refl, tt))
