-- ===== src/Mpi/Wait/Timeout.antt =====
-- The wait for a work request of which nothing happens: when it gives up.
use nnti.Base.{
  ℕ, zero, suc, ◌+◌, ◌-◌, ◌≤◌, ◌≡◌, ◌∙◌, refl, ap, Bool, true, false, ◌&&◌, some, [], ltb,
  if◌then◌else◌, arith, update, update_self, Bool-cases, inl, inr,
}
use nnti.Types.{ok, etimedout}
use nnti.Mpi.State.{MpiWorkRequest}
use nnti.Mpi.Machine.{
  pending, Env, Transport, M, pure, ◌>>=◌, get_wr, put_wr, get_wr_lem, ask, >>=-eq_of_some,
}
use nnti.Mpi.Event.{is_wr_complete}
use nnti.Mpi.Atomics.{check_atomic_operation, on_test}
use nnti.Mpi.Wait.{check_target_buffer_progress, check_targets}
use nnti.Mpi.Wait.Loop.{
  Timeout, ms, has_timed_out, Outcome, cancelled, ended, running, set_request_index, on_wait_test,
  round, wait_loop,
}

-- The work request at `p` is in memory and not complete, and there are no target buffers.
pub record Waiting (p : ℕ) (w : MpiWorkRequest) (s : Transport) : Type 0 where
  pub no_targets : s.target_buffers ≡ []
  pub at_p : s.wrs p ≡ some w
  pub incomplete : is_wr_complete w ≡ false

module _ (env : Env) (idle : (k : ℕ) → env.test k ≡ pending)
    (undisturbed : (k : ℕ) → env.exit_now k ≡ false) where
  abbrev indexed : MpiWorkRequest → MpiWorkRequest
  indexed w = record w { request_index = env.undefined }

  -- What a round leaves: four questions were asked, and the index of the request is undefined.
  abbrev after_round : ℕ → MpiWorkRequest → Transport → Transport
  after_round p w s = record s {
    asked = suc (suc (suc (suc s.asked)));
    wrs = update s.wrs p (some (indexed w));
  }

  idle_atomic :
      (s : Transport) → check_atomic_operation env s ≡ some (0, record s { asked = suc s.asked })
  unfolding check_atomic_operation on_test
  idle_atomic s = ap (λ r. on_test env r (record s { asked = suc s.asked })) (idle s.asked)

  idle_targets :
      (s : Transport) → s.target_buffers ≡ [] → check_target_buffer_progress env s ≡ some (0, s)
  unfolding check_target_buffer_progress check_targets
  idle_targets s e = ap (λ bs. check_targets env bs s) e

  idle_test :
      (entry : ℕ) (timeout : Timeout) (p : ℕ) (w : MpiWorkRequest) (again : M Outcome)
      (s : Transport)
      → s.wrs p ≡ some w
      → on_wait_test env entry timeout p again pending s
        ≡ (if has_timed_out timeout (env.time_ms s.asked - entry)
              then pure (ended etimedout)
              else again)
            (record s { asked = suc s.asked; wrs = update s.wrs p (some (indexed w)) })
  unfolding on_wait_test
  idle_test entry timeout p w again s e =
      >>=-eq_of_some (set_request_index p env.undefined)
        (λ _. ask env.time_ms >>= λ now.
          if has_timed_out timeout (now - entry) then pure (ended etimedout) else again)
        s (>>=-eq_of_some (get_wr p) (λ w. put_wr p (indexed w)) s (get_wr_lem p s w e))

  idle_round :
      (rounds entry : ℕ) (timeout : Timeout) (p : ℕ) (w : MpiWorkRequest) (s : Transport)
      → Waiting p w s
      → wait_loop env (suc rounds) entry timeout p s
        ≡ (if has_timed_out timeout (env.time_ms (suc (suc (suc s.asked))) - entry)
              then pure (ended etimedout)
              else wait_loop env rounds entry timeout p)
            (after_round p w s)
  unfolding wait_loop round
  idle_round rounds entry timeout p w s waiting =
      let again : M Outcome = wait_loop env rounds entry timeout p in
      let s₁ : Transport = record s { asked = suc s.asked } in
      let s₂ : Transport = record s { asked = suc (suc s.asked) } in
      let s₃ : Transport = record s { asked = suc (suc (suc s.asked)) } in
      let rest : ℕ → ℕ → M Outcome = λ a c. get_wr p >>= λ w.
      if ltb 0 (a + c) && is_wr_complete w
      then pure (ended ok)
      else (ask env.test >>= on_wait_test env entry timeout p again) in
      ap (λ (t : Bool). (if t then pure cancelled else round env entry timeout p again) s₁)
        (undisturbed s.asked)
      ∙ >>=-eq_of_some (check_atomic_operation env)
          (λ a. check_target_buffer_progress env >>= rest a) s₁ (idle_atomic s₁)
      ∙ >>=-eq_of_some (check_target_buffer_progress env) (rest 0) s₂
          (idle_targets s₂ waiting.no_targets)
      ∙ >>=-eq_of_some (get_wr p)
          (λ w.
            if ltb 0 (0 + 0) && is_wr_complete w
            then pure (ended ok)
            else (ask env.test >>= on_wait_test env entry timeout p again))
          s₂ (get_wr_lem p s₂ w waiting.at_p)
      ∙ ap (λ r. on_wait_test env entry timeout p again r s₃) (idle (suc (suc s.asked)))
      ∙ idle_test entry timeout p w again s₃ waiting.at_p

  still_Waiting :
      (p : ℕ) (w : MpiWorkRequest) (s : Transport)
      → Waiting p w s
      → Waiting p (indexed w) (after_round p w s)
  still_Waiting p w s waiting = record {
    no_targets = waiting.no_targets;
    at_p = update_self s.wrs p (some (indexed w));
    incomplete = waiting.incomplete;
  }

  -- A timeout of 0, like a negative one, never ends the wait: however many rounds the loop makes
  -- while nothing completes, it is still running.
  pub wait_loop-timeout_zero :
      (rounds entry : ℕ) (p : ℕ) (w : MpiWorkRequest) (s : Transport)
      → Waiting p w s
      → (s' : Transport) × (wait_loop env rounds entry (ms 0) p s ≡ some (running, s'))
  unfolding wait_loop
  wait_loop-timeout_zero zero entry p w s waiting = (s, refl)
  wait_loop-timeout_zero (suc rounds) entry p w s waiting =
      let (s', run) =
        wait_loop-timeout_zero rounds entry p (indexed w) (after_round p w s)
          (still_Waiting p w s waiting) in
      (s', idle_round rounds entry (ms 0) p w s waiting ∙ run)

  module _ (clock : (k : ℕ) → k ≤ env.time_ms k) (entry t : ℕ) (p : ℕ) where
    abbrev given_up : Transport → Bool
    given_up s = has_timed_out (ms (suc t)) (env.time_ms (suc (suc (suc s.asked))) - entry)

    -- A round of the loop, by whether it gives up.
    round_to :
        (rounds : ℕ) (w : MpiWorkRequest) (s : Transport) (x : Bool)
        → Waiting p w s
        → given_up s ≡ x
        → wait_loop env (suc rounds) entry (ms (suc t)) p s
          ≡ (if x then pure (ended etimedout) else wait_loop env rounds entry (ms (suc t)) p)
              (after_round p w s)
    round_to rounds w s x waiting e =
        idle_round rounds entry (ms (suc t)) p w s waiting
        ∙ ap
            (λ (x : Bool).
              (if x then pure (ended etimedout) else wait_loop env rounds entry (ms (suc t)) p)
                (after_round p w s))
            e

    -- A timeout of at least 1 ends the wait with NNTI_ETIMEDOUT while nothing completes, if the
    -- clock moves on with the questions asked of it; so many rounds are enough that the questions
    -- reach the time of the timeout.
    pub wait_loop-times_out :
        (rounds : ℕ) (w : MpiWorkRequest) (s : Transport)
        → Waiting p w s
        → entry + suc t ≤ s.asked + rounds
        → (s' : Transport) × (wait_loop env (suc rounds) entry (ms (suc t)) p s
            ≡ some (ended etimedout, s'))
    wait_loop-times_out zero w s waiting enough = (
      after_round p w s,
      round_to zero w s true waiting (ground (arith, clock (suc (suc (suc s.asked))))),
    )
    wait_loop-times_out (suc rounds) w s waiting enough = elim (Bool-cases (given_up s)) [
      | inl e ↦ (after_round p w s, round_to (suc rounds) w s true waiting e)
      | inr e ↦
          let (s', run) =
            wait_loop-times_out rounds (indexed w) (after_round p w s) (still_Waiting p w s waiting)
              (omega arith) in
          (s', round_to (suc rounds) w s false waiting e ∙ run)
    ]
