-- ===== src/Mpi/Wait/Any.antt =====
-- nnti/nnti_mpi.cpp: `NNTI_mpi_waitany`. The loop runs on fuel, a number of rounds.
use nnti.Base.{
  ℕ, zero, suc, ◌+◌, ◌-◌, Option, none, some, List, [], ◌∷◌, ltb, if◌then◌else◌, get_elem?,
}
use nnti.Types.{NntiResult, ok, eio, ecanceled, etimedout, is_ok}
use nnti.Mpi.State.{Status}
use nnti.Mpi.Machine.{
  TestResult, failed, pending, inactive, completed, Env, M, pure, fault, ◌>>=◌, ◌>>◌, assert_some,
  get_wr, get_nnti_wr, get_handle, ask,
}
use nnti.Mpi.Event.{process_event}
use nnti.Mpi.Atomics.{check_atomic_operation}
use nnti.Mpi.Wait.{deliver, check_target_buffer_progress, create_status, is_any_wr_complete}
use nnti.Mpi.Wait.Loop.{Timeout, has_timed_out, Outcome, cancelled, ended, running, recycle, wait}
use nnti.Mpi.Wait.Many.{link_all, owners, some_owners, entry_at}

-- `if (is_any_wr_complete(wr_list, wr_count, which)) break;`
unfoldable pub break_on_any : List (Option ℕ) → M (Outcome × ℕ) → M (Outcome × ℕ)
break_on_any wrs again =
    is_any_wr_complete 0 wrs >>= λ c. elim c [ some k ↦ pure (ended ok, k) | none ↦ again ]

-- What a round does with the outcome of `MPI_Testany` on the requests of all: how the loop ends and
-- what is in `*which`. `again` is the next round with what is in `*which`.
unfoldable pub on_any_test :
    Env
    → ℕ
    → Timeout
    → List (Option ℕ)
    → ℕ
    → List ℕ
    → (ℕ → M (Outcome × ℕ))
    → TestResult
    → M (Outcome × ℕ)
on_any_test env entry timeout wrs which owner again failed = pure (ended eio, which)
on_any_test env entry timeout wrs which owner again pending = ask env.time_ms >>= λ now.
    if has_timed_out timeout (now - entry) then pure (ended etimedout, which) else again which
on_any_test env entry timeout wrs which owner again (inactive event) =
    break_on_any wrs (again which)
on_any_test env entry timeout wrs which owner again (completed i event delivery) = do
  k ← assert_some (get_elem? owner i)
  (wr, p) ← entry_at (get_elem? wrs k)
  deliver p delivery
  _ ← process_event env p event
  break_on_any wrs (again k)

-- The test of the requests of all.
unfoldable pub test_any :
    Env → ℕ → Timeout → List (Option ℕ) → ℕ → (ℕ → M (Outcome × ℕ)) → M (Outcome × ℕ)
test_any env entry timeout wrs which again = do
  owner ← owners 0 wrs
  some_owners owner
  t ← ask env.test
  on_any_test env entry timeout wrs which owner again t

-- One round, after the test of the abort signal.
unfoldable pub any_round :
    Env → ℕ → Timeout → List (Option ℕ) → ℕ → (ℕ → M (Outcome × ℕ)) → M (Outcome × ℕ)
any_round env entry timeout wrs which again = check_atomic_operation env >>= λ a.
    check_target_buffer_progress env >>= λ c.
    if ltb 0 (a + c)
    then break_on_any wrs (test_any env entry timeout wrs which again)
    else test_any env entry timeout wrs which again

unfoldable pub any_loop : Env → ℕ → ℕ → Timeout → List (Option ℕ) → ℕ → M (Outcome × ℕ)
any_loop env zero entry timeout wrs which = pure (running, which)
any_loop env (suc rounds) entry timeout wrs which =
    let again : ℕ → M (Outcome × ℕ) = any_loop env rounds entry timeout wrs in
    ask env.exit_now >>= λ e.
    if e then pure (cancelled, which) else any_round env entry timeout wrs which again

-- The end of `NNTI_mpi_waitany`: the result, `*which` and the status; `none` where the fuel was not
-- enough. The handle of the buffer is asserted for every operation.
unfoldable pub finish_any :
    Env → List (Option ℕ) → Status → Outcome × ℕ → M (Option (NntiResult × (ℕ × Status)))
finish_any env wrs st (cancelled, which) = pure (some (ecanceled, (which, st)))
finish_any env wrs st (running, which) = pure none
finish_any env wrs st (ended rc, which) = do
  (wr, p) ← entry_at (get_elem? wrs which)
  user ← get_nnti_wr wr
  w ← get_wr p
  st' ← create_status user w rc st
  if is_ok rc
      then (assert_some w.reg_buf >>= λ b. get_handle b >>= λ h. recycle w.last_op env p w st')
      else pure tt
  pure (some (rc, (which, st')))

abbrev pub first_is : Option (NntiResult × Status) → Option (NntiResult × (ℕ × Status))
first_is none = none
first_is (some (rc, st)) = some (rc, (0, st))

-- The wait of a list of one, which returns before all else.
abbrev pub wait_first :
    Env → ℕ → Option ℕ → Timeout → Status → M (Option (NntiResult × (ℕ × Status)))
wait_first env rounds none timeout st = fault
wait_first env rounds (some wr) timeout st =
    wait env rounds wr timeout st >>= λ r. pure (first_is r)

-- `NNTI_mpi_waitany`; `which` is what was in `*which` before.
unfoldable pub waitany :
    Env → ℕ → List (Option ℕ) → Timeout → ℕ → Status → M (Option (NntiResult × (ℕ × Status)))
waitany env rounds [] timeout which st = fault
waitany env rounds (a ∷ []) timeout which st = wait_first env rounds a timeout st
waitany env rounds (a ∷ b ∷ wrs) timeout which st = do
  entry ← ask env.time_ms
  link_all (a ∷ b ∷ wrs)
  outcome ← break_on_any (a ∷ b ∷ wrs) (any_loop env rounds entry timeout (a ∷ b ∷ wrs) which)
  finish_any env (a ∷ b ∷ wrs) st outcome
