-- ===== src/Mpi/Wait/Finality.antt =====
-- `NNTI_mpi_waitall` waits until all work requests of its list are complete.
use nnti.Base.{
  ℕ, zero, suc, ◌+◌, ◌-◌, ◌≡◌, ◌∙◌, refl, sym, subst, Bool, true, false, Option, none, some, List,
  [], ◌∷◌, get_elem?, if◌then◌else◌, ltb, arith,
}
use nnti.Types.{NntiResult, ok, eio, etimedout}
use nnti.Mpi.Machine.{Transport, Env, M, pure, ask}
use nnti.Mpi.Atomics.{check_atomic_operation}
use nnti.Mpi.Wait.{is_user_wr_complete, is_all_wr_complete, check_target_buffer_progress}
use nnti.Mpi.Wait.Loop.{Timeout, has_timed_out, Outcome, cancelled, ended, running}
use nnti.Mpi.Wait.Many.{owners, some_owners}
use nnti.Mpi.Wait.All.{
  AllResult, all_failed, all_pending, all_completed, break_on_all, on_all_test, test_of_all,
  all_round, all_loop, deliver_all, process_all,
}
use nnti.Mpi.Wait.After.{
  After, Always, >>=-After, >>=-Always, if-Always, pure-Always, after_some, after_map,
  ReadOnly-same, ReadOnly-again, is_user_wr_complete-ReadOnly,
}

-- Every work request of the list that is not NULL is complete.
abbrev pub AllComplete : List (Option ℕ) → Transport → Type 0
AllComplete wrs s =
    (j wr : ℕ) → get_elem? wrs j ≡ some (some wr) → is_user_wr_complete wr s ≡ some (true, s)

AllComplete-null :
    (wrs : List (Option ℕ)) (s : Transport) → AllComplete wrs s → AllComplete (none ∷ wrs) s
AllComplete-null wrs s h zero wr e = absurd (ground arith)
AllComplete-null wrs s h (suc j) wr e = h j wr e

AllComplete-next :
    (v : ℕ) (wrs : List (Option ℕ)) (s : Transport)
    → is_user_wr_complete v s ≡ some (true, s)
    → AllComplete wrs s
    → AllComplete (some v ∷ wrs) s
AllComplete-next v wrs s c h zero wr e =
    let same : v ≡ wr = ground arith in subst (λ u. is_user_wr_complete u s ≡ some (true, s)) same c
AllComplete-next v wrs s c h (suc j) wr e = h j wr e

-- What the answer of `is_all_wr_complete` says.
abbrev Says : List (Option ℕ) → Bool → Transport → Type 0
Says wrs true s = AllComplete wrs s
Says wrs false s = Unit {0}

Says-null :
    (wrs : List (Option ℕ)) (c : Bool) (s : Transport) → Says wrs c s → Says (none ∷ wrs) c s
Says-null wrs true s h = AllComplete-null wrs s h
Says-null wrs false s h = tt

Says-next :
    (v : ℕ) (wrs : List (Option ℕ)) (c : Bool) (s : Transport)
    → is_user_wr_complete v s ≡ some (true, s)
    → Says wrs c s
    → Says (some v ∷ wrs) c s
Says-next v wrs true s e h = AllComplete-next v wrs s e h
Says-next v wrs false s e h = tt

Says-user :
    (v : ℕ) (wrs : List (Option ℕ)) (s : Transport)
    → ((t : Transport) → After (λ c s'. (s' ≡ t) × Says wrs c s') (is_all_wr_complete wrs t))
    → (c : Bool) (t : Transport) → is_user_wr_complete v s ≡ some (c, t)
    → After
        (λ c s'. (s' ≡ s) × Says (some v ∷ wrs) c s')
        ((if c then is_all_wr_complete wrs else pure false) t)
Says-user v wrs s rest true t e =
    let q : t ≡ s =
      ReadOnly-same (is_user_wr_complete v) s t true (is_user_wr_complete-ReadOnly v) e in
    let again : is_user_wr_complete v t ≡ some (true, t) =
      ReadOnly-again (is_user_wr_complete v) s t true (is_user_wr_complete-ReadOnly v) e in
    after_map (is_all_wr_complete wrs t)
      (λ c s' (r, h). (
        r ∙ q,
        Says-next v wrs c s' (subst (λ u. is_user_wr_complete v u ≡ some (true, u)) (sym r) again)
            h,
      ))
      (rest t)
Says-user v wrs s rest false t e =
    (ReadOnly-same (is_user_wr_complete v) s t false (is_user_wr_complete-ReadOnly v) e, tt)

is_all_wr_complete-Says :
    (wrs : List (Option ℕ)) (s : Transport)
    → After (λ c s'. (s' ≡ s) × Says wrs c s') (is_all_wr_complete wrs s)
unfolding is_all_wr_complete
is_all_wr_complete-Says [] s = (refl, λ j wr e. absurd (ground arith))
is_all_wr_complete-Says (none ∷ wrs) s =
    after_map (is_all_wr_complete wrs s) (λ c s' (q, h). (q, Says-null wrs c s' h))
      (is_all_wr_complete-Says wrs s)
is_all_wr_complete-Says (some v ∷ wrs) s =
    >>=-After (λ c s'. (s' ≡ s) × Says (some v ∷ wrs) c s') (is_user_wr_complete v)
      (λ c. if c then is_all_wr_complete wrs else pure false) s
      (Says-user v wrs s (is_all_wr_complete-Says wrs))

-- Where the loop ends with NNTI_OK, all are complete.
abbrev Final : List (Option ℕ) → Outcome → Transport → Type 0
Final wrs (ended NntiResult.ok) s = AllComplete wrs s
Final wrs _ s = Unit {0}

stopped :
    (wrs : List (Option ℕ)) (again : M Outcome)
    → Always (Final wrs) again
    → (c : Bool) (t : Transport) → Says wrs c t
    → After (Final wrs) ((if c then pure (ended ok) else again) t)
stopped wrs again h true t c = c
stopped wrs again h false t c = h.at_state t

break_on_all-Final :
    (wrs : List (Option ℕ)) (again : M Outcome)
    → Always (Final wrs) again
    → Always (Final wrs) (break_on_all wrs again)
unfolding break_on_all
break_on_all-Final wrs again h = record {
  at_state = λ s.
      >>=-After (Final wrs) (is_all_wr_complete wrs) (λ c. if c then pure (ended ok) else again) s
        (λ c t e.
          stopped wrs again h c t
            (after_some (λ c s'. (s' ≡ s) × Says wrs c s') (is_all_wr_complete wrs s) c t
              (is_all_wr_complete-Says wrs s) e).1);
}

on_all_test-Final :
    (env : Env) (entry : ℕ) (timeout : Timeout) (wrs : List (Option ℕ)) (owner : List ℕ)
    (again : M Outcome)
    → Always (Final wrs) again
    → (t : AllResult) → Always (Final wrs) (on_all_test env entry timeout wrs owner again t)
unfolding on_all_test
on_all_test-Final env entry timeout wrs owner again h all_failed =
    pure-Always (Final wrs) (ended eio) (λ s. tt)
on_all_test-Final env entry timeout wrs owner again h all_pending =
    >>=-Always (Final wrs) (ask env.time_ms) _ (λ now.
      if-Always (Final wrs) (has_timed_out timeout (now - entry)) _ _
        (pure-Always (Final wrs) (ended etimedout) (λ s. tt)) h)
on_all_test-Final env entry timeout wrs owner again h (all_completed events) =
    >>=-Always (Final wrs) (deliver_all wrs owner events) _ (λ d.
      >>=-Always (Final wrs) (process_all env wrs events) _ (λ r. break_on_all-Final wrs again h))

test_of_all-Final :
    (env : Env) (test_all : ℕ → AllResult) (entry : ℕ) (timeout : Timeout) (wrs : List (Option ℕ))
    (again : M Outcome)
    → Always (Final wrs) again
    → Always (Final wrs) (test_of_all env test_all entry timeout wrs again)
unfolding test_of_all
test_of_all-Final env test_all entry timeout wrs again h =
    >>=-Always (Final wrs) (owners 0 wrs) _ (λ owner.
      >>=-Always (Final wrs) (some_owners owner) _ (λ u.
        >>=-Always (Final wrs) (ask test_all) _
          (λ t. on_all_test-Final env entry timeout wrs owner again h t)))

all_round-Final :
    (env : Env) (test_all : ℕ → AllResult) (entry : ℕ) (timeout : Timeout) (wrs : List (Option ℕ))
    (again : M Outcome)
    → Always (Final wrs) again
    → Always (Final wrs) (all_round env test_all entry timeout wrs again)
unfolding all_round
all_round-Final env test_all entry timeout wrs again h =
    let test : Always (Final wrs) (test_of_all env test_all entry timeout wrs again) =
      test_of_all-Final env test_all entry timeout wrs again h in
    >>=-Always (Final wrs) (check_atomic_operation env) _ (λ a.
      >>=-Always (Final wrs) (check_target_buffer_progress env) _ (λ c.
        if-Always (Final wrs) (ltb 0 (a + c)) _ _
          (break_on_all-Final wrs (test_of_all env test_all entry timeout wrs again) test) test))

all_loop-Final :
    (env : Env) (test_all : ℕ → AllResult) (rounds entry : ℕ) (timeout : Timeout)
    (wrs : List (Option ℕ))
    → Always (Final wrs) (all_loop env test_all rounds entry timeout wrs)
unfolding all_loop
all_loop-Final env test_all zero entry timeout wrs = pure-Always (Final wrs) running (λ s. tt)
all_loop-Final env test_all (suc rounds) entry timeout wrs =
    >>=-Always (Final wrs) (ask env.exit_now) _ (λ e.
      if-Always (Final wrs) e _ _ (pure-Always (Final wrs) cancelled (λ s. tt)) (
        all_round-Final env test_all entry timeout wrs
          (all_loop env test_all rounds entry timeout wrs)
          (all_loop-Final env test_all rounds entry timeout wrs)))

-- Where `NNTI_mpi_waitall` leaves its loop with NNTI_OK, in any state and after any number of rounds,
-- every work request of its list that is not NULL is complete in the state that the loop leaves.
pub all_loop-AllComplete :
    (env : Env) (test_all : ℕ → AllResult) (rounds entry : ℕ) (timeout : Timeout)
    (wrs : List (Option ℕ)) (s s' : Transport)
    → all_loop env test_all rounds entry timeout wrs s ≡ some (ended ok, s')
    → AllComplete wrs s'
all_loop-AllComplete env test_all rounds entry timeout wrs s s' e =
    after_some (Final wrs) (all_loop env test_all rounds entry timeout wrs s) (ended ok) s'
      ((all_loop-Final env test_all rounds entry timeout wrs).at_state s) e
