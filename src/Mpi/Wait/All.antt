-- ===== src/Mpi/Wait/All.antt =====
-- nnti/nnti_mpi.cpp: `NNTI_mpi_waitall`. The loop runs on fuel, a number of rounds.
use nnti.Base.{
  ℕ, zero, suc, ◌+◌, ◌-◌, Option, none, some, List, [], ◌∷◌, ltb, if◌then◌else◌, get_elem?,
}
use nnti.Types.{NntiResult, ok, eio, ecanceled, etimedout, is_ok}
use nnti.Mpi.State.{Status, MpiStatus}
use nnti.Mpi.Machine.{
  Delivery, Env, M, pure, fault, ◌>>=◌, ◌>>◌, assert_some, get_wr, get_nnti_wr, get_handle, ask,
}
use nnti.Mpi.Event.{process_event}
use nnti.Mpi.Atomics.{check_atomic_operation}
use nnti.Mpi.Wait.{deliver, check_target_buffer_progress, create_status, is_all_wr_complete}
use nnti.Mpi.Wait.Loop.{Timeout, has_timed_out, Outcome, cancelled, ended, running, recycle, wait}
use nnti.Mpi.Wait.Many.{link_all, owners, some_owners, entry_at}

-- The outcome of `MPI_Testall`: the call failed, not all requests completed, or all did, with an
-- event for each.
pub data AllResult : Type 0 where
  all_failed : AllResult
  all_pending : AllResult
  all_completed : List (MpiStatus × Delivery) → AllResult

-- What the receives have left in memory, by the owners of the requests.
unfoldable pub deliver_all : List (Option ℕ) → List ℕ → List (MpiStatus × Delivery) → M (Unit {0})
deliver_all wrs (k ∷ owner) ((event, delivery) ∷ events) =
    entry_at (get_elem? wrs k) >>= λ wp. deliver wp.1 delivery >> deliver_all wrs owner events
deliver_all wrs _ _ = pure tt

-- The loop that gives the i-th event to the i-th work request. A NULL in the list is followed, and so
-- is an event that is not there.
unfoldable pub process_all : Env → List (Option ℕ) → List (MpiStatus × Delivery) → M (Unit {0})
process_all env [] events = pure tt
process_all env (o ∷ wrs) [] = fault
process_all env (o ∷ wrs) ((event, delivery) ∷ events) =
    entry_at (some o) >>= λ wp. process_event env wp.1 event >>= λ _. process_all env wrs events

-- `if (is_all_wr_complete(wr_list)) break;`
unfoldable pub break_on_all : List (Option ℕ) → M Outcome → M Outcome
break_on_all wrs again = is_all_wr_complete wrs >>= λ c. if c then pure (ended ok) else again

unfoldable pub on_all_test :
    Env → ℕ → Timeout → List (Option ℕ) → List ℕ → M Outcome → AllResult → M Outcome
on_all_test env entry timeout wrs owner again all_failed = pure (ended eio)
on_all_test env entry timeout wrs owner again all_pending = ask env.time_ms >>= λ now.
    if has_timed_out timeout (now - entry) then pure (ended etimedout) else again
on_all_test env entry timeout wrs owner again (all_completed events) =
    deliver_all wrs owner events >> (process_all env wrs events >> break_on_all wrs again)

-- The test of the requests of all; `test_all` answers as the questions of `Env` do.
unfoldable pub test_of_all :
    Env → (ℕ → AllResult) → ℕ → Timeout → List (Option ℕ) → M Outcome → M Outcome
test_of_all env test_all entry timeout wrs again = do
  owner ← owners 0 wrs
  some_owners owner
  t ← ask test_all
  on_all_test env entry timeout wrs owner again t

-- One round, after the test of the abort signal.
unfoldable pub all_round :
    Env → (ℕ → AllResult) → ℕ → Timeout → List (Option ℕ) → M Outcome → M Outcome
all_round env test_all entry timeout wrs again = check_atomic_operation env >>= λ a.
    check_target_buffer_progress env >>= λ c.
    if ltb 0 (a + c)
    then break_on_all wrs (test_of_all env test_all entry timeout wrs again)
    else test_of_all env test_all entry timeout wrs again

unfoldable pub all_loop : Env → (ℕ → AllResult) → ℕ → ℕ → Timeout → List (Option ℕ) → M Outcome
all_loop env test_all zero entry timeout wrs = pure running
all_loop env test_all (suc rounds) entry timeout wrs =
    let again : M Outcome = all_loop env test_all rounds entry timeout wrs in
    ask env.exit_now >>= λ e.
    if e then pure cancelled else all_round env test_all entry timeout wrs again

-- The body of the last loop: the status of one work request, which is given back where the result is
-- NNTI_OK. The handle of the buffer is asserted for every operation.
unfoldable pub finish_one : Env → NntiResult → Option ℕ → Status → M Status
finish_one env rc o st = do
  (wr, p) ← entry_at (some o)
  user ← get_nnti_wr wr
  w ← get_wr p
  b ← assert_some w.reg_buf
  h ← get_handle b
  st' ← create_status user w rc st
  if is_ok rc then recycle w.last_op env p w st' else pure tt
  pure st'

-- The last loop, over the work requests and their statuses.
unfoldable pub finish_each : Env → NntiResult → List (Option ℕ) → List Status → M (List Status)
finish_each env rc [] sts = pure sts
finish_each env rc (o ∷ wrs) [] = fault
finish_each env rc (o ∷ wrs) (st ∷ sts) =
    finish_one env rc o st >>= λ st'. finish_each env rc wrs sts >>= λ rest. pure (st' ∷ rest)

unfoldable pub finish_all :
    Env → List (Option ℕ) → List Status → Outcome → M (Option (NntiResult × List Status))
finish_all env wrs sts cancelled = pure (some (ecanceled, sts))
finish_all env wrs sts running = pure none
finish_all env wrs sts (ended rc) = finish_each env rc wrs sts >>= λ sts'. pure (some (rc, sts'))

abbrev pub one_of : List Status → Option (NntiResult × Status) → Option (NntiResult × List Status)
one_of sts none = none
one_of sts (some (rc, st)) = some (rc, st ∷ sts)

-- The wait of a list of one, which returns before all else.
abbrev pub wait_only :
    Env → ℕ → Option ℕ → Timeout → List Status → M (Option (NntiResult × List Status))
wait_only env rounds (some wr) timeout (st ∷ sts) =
    wait env rounds wr timeout st >>= λ r. pure (one_of sts r)
wait_only env rounds _ timeout sts = fault

-- `NNTI_mpi_waitall`, with a status for each work request.
unfoldable pub waitall :
    Env
    → (ℕ → AllResult)
    → ℕ
    → List (Option ℕ)
    → Timeout
    → List Status
    → M (Option (NntiResult × List Status))
waitall env test_all rounds [] timeout sts = fault
waitall env test_all rounds (a ∷ []) timeout sts = wait_only env rounds a timeout sts
waitall env test_all rounds (a ∷ b ∷ wrs) timeout sts = do
  entry ← ask env.time_ms
  link_all (a ∷ b ∷ wrs)
  outcome ← break_on_all (a ∷ b ∷ wrs) (all_loop env test_all rounds entry timeout (a ∷ b ∷ wrs))
  finish_all env (a ∷ b ∷ wrs) sts outcome
