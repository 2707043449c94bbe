-- ===== src/Mpi/Wait/Named.antt =====
-- `NNTI_mpi_waitany` names the first work request of its list that is complete.
use nnti.Base.{
  ℕ, zero, suc, ◌+◌, ◌-◌, ◌≡◌, sym, subst, Option, none, some, List, get_elem?, ltb, arith,
}
use nnti.Types.{NntiResult, ok, eio, etimedout}
use nnti.Mpi.Machine.{
  Transport, TestResult, failed, pending, inactive, completed, Env, M, pure, assert_some, ask,
}
use nnti.Mpi.Event.{process_event}
use nnti.Mpi.Atomics.{check_atomic_operation}
use nnti.Mpi.Wait.{is_any_wr_complete, deliver, check_target_buffer_progress}
use nnti.Mpi.Wait.Loop.{Timeout, has_timed_out, Outcome, cancelled, ended, running}
use nnti.Mpi.Wait.Many.{owners, some_owners, entry_at}
use nnti.Mpi.Wait.Any.{break_on_any, on_any_test, test_any, any_round, any_loop}
use nnti.Mpi.Wait.Chosen.{Chosen, Found, is_any_wr_complete-Found}
use nnti.Mpi.Wait.After.{After, Always, >>=-After, >>=-Always, if-Always, pure-Always, after_some}

-- Where the loop ends with NNTI_OK, `*which` is the first that is complete.
abbrev Named : List (Option ℕ) → Outcome × ℕ → Transport → Type 0
Named wrs (ended NntiResult.ok, k) s = Chosen wrs s k
Named wrs _ s = Unit {0}

broken :
    (wrs : List (Option ℕ)) (again : M (Outcome × ℕ))
    → Always (Named wrs) again
    → (c : Option ℕ) (t : Transport) → Found 0 wrs c t
    → After
        (Named wrs)
        ((elim c as (λ x. M (Outcome × ℕ)) [ some k ↦ pure (ended ok, k) | none ↦ again ]) t)
broken wrs again h none t f = h.at_state t
broken wrs again h (some n) t (k, e, c) =
    let same : n ≡ k = omega arith in subst (Chosen wrs t) (sym same) c

break_on_any-Named :
    (wrs : List (Option ℕ)) (again : M (Outcome × ℕ))
    → Always (Named wrs) again
    → Always (Named wrs) (break_on_any wrs again)
unfolding break_on_any
break_on_any-Named wrs again h = record {
  at_state = λ s.
      >>=-After (Named wrs) (is_any_wr_complete 0 wrs)
        (λ c. elim c [ some k ↦ pure (ended ok, k) | none ↦ again ]) s
        (λ c t e.
          broken wrs again h c t
            (after_some (λ o s'. (s' ≡ s) × Found 0 wrs o s') (is_any_wr_complete 0 wrs s) c t
              (is_any_wr_complete-Found 0 wrs s) e).1);
}

on_any_test-Named :
    (env : Env) (entry : ℕ) (timeout : Timeout) (wrs : List (Option ℕ)) (which : ℕ) (owner : List ℕ)
    (again : ℕ → M (Outcome × ℕ))
    → ((k : ℕ) → Always (Named wrs) (again k))
    → (t : TestResult) → Always (Named wrs) (on_any_test env entry timeout wrs which owner again t)
unfolding on_any_test
on_any_test-Named env entry timeout wrs which owner again h failed =
    pure-Always (Named wrs) (ended eio, which) (λ s. tt)
on_any_test-Named env entry timeout wrs which owner again h pending =
    >>=-Always (Named wrs) (ask env.time_ms) _ (λ now.
      if-Always (Named wrs) (has_timed_out timeout (now - entry)) _ _
        (pure-Always (Named wrs) (ended etimedout, which) (λ s. tt)) (h which))
on_any_test-Named env entry timeout wrs which owner again h (inactive event) =
    break_on_any-Named wrs (again which) (h which)
on_any_test-Named env entry timeout wrs which owner again h (completed i event delivery) =
    >>=-Always (Named wrs) (assert_some (get_elem? owner i)) _ (λ k.
      >>=-Always (Named wrs) (entry_at (get_elem? wrs k)) _ (λ wp.
        >>=-Always (Named wrs) (deliver wp.1 delivery) _ (λ d.
          >>=-Always (Named wrs) (process_event env wp.1 event) _
            (λ r. break_on_any-Named wrs (again k) (h k)))))

test_any-Named :
    (env : Env) (entry : ℕ) (timeout : Timeout) (wrs : List (Option ℕ)) (which : ℕ)
    (again : ℕ → M (Outcome × ℕ))
    → ((k : ℕ) → Always (Named wrs) (again k))
    → Always (Named wrs) (test_any env entry timeout wrs which again)
unfolding test_any
test_any-Named env entry timeout wrs which again h =
    >>=-Always (Named wrs) (owners 0 wrs) _ (λ owner.
      >>=-Always (Named wrs) (some_owners owner) _ (λ u.
        >>=-Always (Named wrs) (ask env.test) _
          (λ t. on_any_test-Named env entry timeout wrs which owner again h t)))

any_round-Named :
    (env : Env) (entry : ℕ) (timeout : Timeout) (wrs : List (Option ℕ)) (which : ℕ)
    (again : ℕ → M (Outcome × ℕ))
    → ((k : ℕ) → Always (Named wrs) (again k))
    → Always (Named wrs) (any_round env entry timeout wrs which again)
unfolding any_round
any_round-Named env entry timeout wrs which again h =
    let test : Always (Named wrs) (test_any env entry timeout wrs which again) =
      test_any-Named env entry timeout wrs which again h in
    >>=-Always (Named wrs) (check_atomic_operation env) _ (λ a.
      >>=-Always (Named wrs) (check_target_buffer_progress env) _ (λ c.
        if-Always (Named wrs) (ltb 0 (a + c)) _ _
          (break_on_any-Named wrs (test_any env entry timeout wrs which again) test) test))

any_loop-Named :
    (env : Env) (rounds entry : ℕ) (timeout : Timeout) (wrs : List (Option ℕ)) (which : ℕ)
    → Always (Named wrs) (any_loop env rounds entry timeout wrs which)
unfolding any_loop
any_loop-Named env zero entry timeout wrs which = pure-Always (Named wrs) (running, which) (λ s. tt)
any_loop-Named env (suc rounds) entry timeout wrs which =
    >>=-Always (Named wrs) (ask env.exit_now) _ (λ e.
      if-Always (Named wrs) e _ _ (pure-Always (Named wrs) (cancelled, which) (λ s. tt)) (
        any_round-Named env entry timeout wrs which (any_loop env rounds entry timeout wrs)
          (any_loop-Named env rounds entry timeout wrs)))

-- Where `NNTI_mpi_waitany` leaves its loop with NNTI_OK, in any state and after any number of rounds,
-- `*which` is the index of a work request that is complete in the state that the loop leaves, and all
-- before it in the list are NULL or not complete.
pub any_loop-Chosen :
    (env : Env) (rounds entry : ℕ) (timeout : Timeout) (wrs : List (Option ℕ)) (which k : ℕ)
    (s s' : Transport)
    → any_loop env rounds entry timeout wrs which s ≡ some ((ended ok, k), s')
    → Chosen wrs s' k
any_loop-Chosen env rounds entry timeout wrs which k s s' e =
    after_some (Named wrs) (any_loop env rounds entry timeout wrs which s) (ended ok, k) s'
      ((any_loop-Named env rounds entry timeout wrs which).at_state s) e
