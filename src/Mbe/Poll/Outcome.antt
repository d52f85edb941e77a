-- ===== src/Mbe/Poll/Outcome.antt =====
-- What a client learns of the outcome of a job.
use advanced_wallets.Base.{String, ◌≡◌, refl, true, false, str_eq, eq_iff, arith, if◌then◌else◌}
use advanced_wallets.Js.{Value, str, Fields, end, field, get, has, set, spread}
use advanced_wallets.Mbe.Bridge.{BridgeJob}
use advanced_wallets.Mbe.Poll.{poll_status, to_poll_response}

has-set :
    (fs : Fields) (k j : String) (v : Value)
    → has (set fs k v) j ≡ (if str_eq k j then true else has fs j)
unfolding has set
has-set end k j v = refl
has-set (field i w fs) k j v = ground (arith, eq_iff k j, eq_iff i k, eq_iff i j, has-set fs k j v)

-- A response never holds both a result and an error. One with a result has the status "complete",
-- one with an error the status "failed".
pub poll_outcome :
    (job : BridgeJob)
    → let response = to_poll_response job in
      ((has response "result" ≡ true)
        → (get response "status" ≡ str "complete") × (has response "error" ≡ false))
      × ((has response "error" ≡ true)
          → (get response "status" ≡ str "failed") × (has response "result" ≡ false))
unfolding to_poll_response poll_status has get set spread
poll_outcome job = (ground arith, ground arith)
