-- ===== src/Mpi/Wait/Loop.antt =====
-- nnti/nnti_mpi.cpp: `NNTI_mpi_wait`. The loop runs on fuel, a number of rounds.
use nnti.Base.{
  ℕ, zero, suc, ◌+◌, ◌-◌, Bool, false, ◌&&◌, Option, none, some, List, [], ◌∷◌, ◌==◌, ltb, leb,
  if◌then◌else◌, erase,
}
use nnti.Types.{NntiResult, ok, eio, ecanceled, etimedout, is_ok}
use nnti.Mpi.State.{
  put_target, get_target, new_request, fetch_add, compare_swap, MpiWorkRequest, bop_atomics, MpiOp,
  WorkRequest, Status,
}
use nnti.Mpi.Machine.{
  TestResult, failed, pending, inactive, completed, Env, M, pure, fault, ◌>>=◌, ◌>>◌, assert_some,
  get_wr, put_wr, free_wr, get_nnti_wr, put_nnti_wr, get_handle, put_handle, ask,
}
use nnti.Mpi.Event.{process_event, is_wr_complete}
use nnti.Mpi.Atomics.{check_atomic_operation}
use nnti.Mpi.Register.{repost_recv_work_request, repost_rdma_target_work_request}
use nnti.Mpi.Wait.{deliver, front, check_target_buffer_progress, create_status}

-- The `int timeout`: a negative one, or a number of milliseconds.
pub data Timeout : Type 0 where
  negative : Timeout
  ms : ℕ → Timeout

-- `(timeout > 0) && (elapsed_time >= timeout)`
abbrev pub has_timed_out : Timeout → ℕ → Bool
has_timed_out negative elapsed = false
has_timed_out (ms t) elapsed = ltb 0 t && leb t elapsed

-- How the loop ends: by the return on an abort signal, with a result, or not within its fuel.
pub data Outcome : Type 0 where
  cancelled : Outcome
  ended : NntiResult → Outcome
  running : Outcome

abbrev pub set_request_index : ℕ → ℕ → M (Unit {0})
set_request_index p i = get_wr p >>= λ w. put_wr p (record w { request_index = i })

-- The test at the end of a round.
abbrev pub end_or_again : ℕ → M Outcome → M Outcome
end_or_again p again = get_wr p >>= λ w. if is_wr_complete w then pure (ended ok) else again

-- What a round does with the outcome of `MPI_Testany`; `again` is the next round. A sleep leaves no
-- trace.
unfoldable pub on_wait_test : Env → ℕ → Timeout → ℕ → M Outcome → TestResult → M Outcome
on_wait_test env entry timeout p again failed = pure (ended eio)
on_wait_test env entry timeout p again pending =
    set_request_index p env.undefined
    >> (ask env.time_ms >>= λ now.
        if has_timed_out timeout (now - entry) then pure (ended etimedout) else again)
on_wait_test env entry timeout p again (inactive event) =
    set_request_index p env.undefined >> end_or_again p again
on_wait_test env entry timeout p again (completed i event delivery) =
    set_request_index p i
    >> (deliver p delivery >> (process_event env p event >>= λ _. end_or_again p again))

-- One round, after the test of the abort signal.
unfoldable pub round : Env → ℕ → Timeout → ℕ → M Outcome → M Outcome
round env entry timeout p again = check_atomic_operation env >>= λ a.
    check_target_buffer_progress env >>= λ c. get_wr p >>= λ w.
    if ltb 0 (a + c) && is_wr_complete w
    then pure (ended ok)
    else (ask env.test >>= on_wait_test env entry timeout p again)

unfoldable pub wait_loop : Env → ℕ → ℕ → Timeout → ℕ → M Outcome
wait_loop env zero entry timeout p = pure running
wait_loop env (suc rounds) entry timeout p =
    let again : M Outcome = wait_loop env rounds entry timeout p in
    ask env.exit_now >>= λ e. if e then pure cancelled else round env entry timeout p again

-- The work request that the user's one stands for: its own, or the first in the queue of its buffer.
unfoldable pub find_wr : ℕ → WorkRequest → M ℕ
find_wr wr user =
    if user.ops == bop_atomics
    then assert_some user.transport_private
    else (assert_some user.reg_buf >>= λ b. get_handle b >>= λ h. elim user.transport_private [
      | some p ↦ pure p
      | none ↦ front h.wr_queue >>= λ p.
          put_nnti_wr wr (record user { transport_private = some p }) >> pure p
    ])

abbrev pub drop_front : List ℕ → M (List ℕ)
drop_front [] = fault
drop_front (p ∷ ps) = pure ps

-- The default of the switch at the end: `status->offset/status->length` faults for a length of 0.
unfoldable pub release : ℕ → MpiWorkRequest → Status → M (Unit {0})
release p w st =
    if st.length == 0
    then fault
    else (assert_some w.reg_buf >>= λ b. get_handle b >>= λ h.
        put_handle b (record h { wr_queue = erase p h.wr_queue }) >> free_wr p)

-- The switch at the end of `NNTI_mpi_wait`.
unfoldable pub recycle : MpiOp → Env → ℕ → MpiWorkRequest → Status → M (Unit {0})
recycle new_request env p w st = assert_some w.reg_buf >>= λ b. get_handle b >>= λ h.
    drop_front h.wr_queue >>= λ rest.
    put_handle b (record h { wr_queue = rest }) >> (repost_recv_work_request env p >>= λ _. pure tt)
recycle put_target env p w st = repost_rdma_target_work_request env p >>= λ _. pure tt
recycle get_target env p w st = repost_rdma_target_work_request env p >>= λ _. pure tt
recycle fetch_add env p w st = free_wr p
recycle compare_swap env p w st = free_wr p
recycle _ env p w st = release p w st

-- The end of `NNTI_mpi_wait`: the result and the status; `none` where the fuel was not enough. An
-- abort signal leaves the status as it was.
unfoldable pub finish : Env → ℕ → ℕ → Status → Outcome → M (Option (NntiResult × Status))
finish env wr p st cancelled = pure (some (ecanceled, st))
finish env wr p st running = pure none
finish env wr p st (ended rc) = do
  user ← get_nnti_wr wr
  w ← get_wr p
  st' ← create_status user w rc st
  if is_ok rc then recycle w.last_op env p w st' else pure tt
  pure (some (rc, st'))

-- `NNTI_mpi_wait`
unfoldable pub wait : Env → ℕ → ℕ → Timeout → Status → M (Option (NntiResult × Status))
wait env rounds wr timeout st = do
  entry ← ask env.time_ms
  user ← get_nnti_wr wr
  p ← find_wr wr user
  w ← get_wr p
  outcome ← if is_wr_complete w then pure (ended ok) else wait_loop env rounds entry timeout p
  finish env wr p st outcome
