-- ===== src/Mbe/Worker/Ticks.antt =====
-- asyncJobWorker.ts, startAsyncJobWorker: the timer of the worker, and its rounds.
use advanced_wallets.Base.{ℕ, suc, ◌-◌, ◌≤◌, ◌≡◌, refl, Bool, true, false, arith, if◌then◌else◌}

-- `isWorkerRunning`, and how many calls of `processPendingJobs` have started and not settled.
pub record WorkerState : Type 0 where
  pub is_worker_running : Bool
  pub rounds : ℕ

unfoldable pub started_worker : WorkerState
started_worker = record { is_worker_running = false; rounds = 0 }

-- The interval's callback, up to the `await`.
unfoldable pub on_interval : WorkerState → WorkerState
on_interval s =
    if s.is_worker_running then s else record { is_worker_running = true; rounds = suc s.rounds }

-- `finally`, which is where the callback goes on whether the round returned or threw.
unfoldable pub on_round_settled : WorkerState → WorkerState
on_round_settled s = record { is_worker_running = false; rounds = s.rounds - 1 }

-- The timer may fire at any time; a round may settle at any time after it has started.
pub data Reachable : WorkerState → Type 0 where
  starts : Reachable started_worker
  interval : (s : WorkerState) → Reachable s → Reachable (on_interval s)
  round_settled : (s : WorkerState) → 1 ≤ s.rounds → Reachable s → Reachable (on_round_settled s)

abbrev pub rounds_of : Bool → ℕ
rounds_of running = if running then 1 else 0

-- However the timer's intervals and the ends of rounds follow each other, one round is under way
-- where `isWorkerRunning` is set, and none where it is not: rounds never overlap, and the flag is
-- never left set by a round that is over.
pub one_round : (s : WorkerState) → Reachable s → s.rounds ≡ rounds_of s.is_worker_running
unfolding started_worker on_interval on_round_settled
one_round _ starts = refl
one_round _ (interval s r) = ground (arith, one_round s r)
one_round _ (round_settled s n r) = ground (arith, one_round s r)
