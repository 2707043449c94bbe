-- ===== src/Ib/Issue/Session.antt =====
-- Any calls of the InfiniBand transport (nnti/nnti_ib.cpp) that concern one buffer, and the keys.
use nnti.Base.{ℕ, ◌≡◌, refl, subst, Bool, ==_refl, Option, none, some, List, [], ◌∷◌}
use nnti.Ib.{IbWorkRequest}
use nnti.Ib.Segments.{Segment, Local, Stray, Sge}
use nnti.Ib.Issue.{
  IbConfig, IbState, Posted, ◌>>=◌, lookup_wr, insert_wr, after_issue, ib_put, ib_get,
}
use nnti.Ib.Issue.Message.{Dest, Atomics, ib_send, ib_atomic_fop, ib_atomic_cswap}
use nnti.Ib.Issue.Receive.{RecvBuf, post_recv_work_request, post_ack_recv_work_request}
use nnti.Ib.Issue.Cleanup.{
  wait_cleanup, whatever, ib_cancel, ib_create_work_request, ib_destroy_work_request,
}
use nnti.Ib.Issue.Waited.{settle}
use nnti.Ib.Issue.Fresh.{IsFresh, insert_wr-some}
use nnti.Ib.Issue.Lands.{
  Lands-bind, After, after_issue-Lands, put-Lands, get-Lands, send-Lands, fop-Lands, cswap-Lands,
}
use nnti.Ib.Issue.Lands.Ends.{
  whatever-Lands, post_recv-Lands, post_ack-Lands, cleanup-Lands, destroy-Lands, cancel-IsFresh,
  create-Lands, create_after-Lands,
}

-- A call, with what verbs answers to it; or an event, which changes a work request.
pub data IbCall : Type 0 where
  put : (Posted → Bool) → Local → ℕ → ℕ → List Segment → ℕ → IbCall
  get : (Posted → Bool) → List Segment → ℕ → ℕ → Local → ℕ → IbCall
  send : (Posted → Bool) → Local → ℕ → Option Dest → IbCall
  fop : (Posted → Bool) → Atomics → ℕ → ℕ → ℕ → IbCall
  cswap : (Posted → Bool) → Atomics → ℕ → ℕ → ℕ → ℕ → IbCall
  post : Bool → RecvBuf → Option ℕ → ℕ → IbCall
  post_ack : Bool → Sge → ℕ → IbCall
  event : ℕ → IbWorkRequest → IbCall
  cleanup : Bool → ℕ → ℕ → IbCall
  cancel : ℕ → IbCall
  create : ℕ → IbCall
  destroy : Bool → ℕ → ℕ → IbCall

module _ (stray : Stray) (cfg : IbConfig) where
  unfoldable pub run_call : IbCall → IbState → Option IbState
  run_call (put posts src so len dst at) s =
      after_issue (ib_put stray cfg posts src so len dst at s)
  run_call (get posts src so len dst at) s =
      after_issue (ib_get stray cfg posts src so len dst at s)
  run_call (send posts msg n dest) s = after_issue (ib_send stray cfg posts msg n dest s)
  run_call (fop posts a t r x) s = after_issue (ib_atomic_fop cfg posts a t r x s)
  run_call (cswap posts a t r x y) s = after_issue (ib_atomic_cswap cfg posts a t r x y s)
  run_call (post accepts b id off) s =
      whatever (post_recv_work_request cfg accepts stray b id off s)
  run_call (post_ack accepts sge ops) s =
      whatever (post_ack_recv_work_request cfg accepts sge ops s)
  run_call (event p w) s = some (settle p w s)
  run_call (cleanup accepts ops p) s = wait_cleanup cfg accepts ops p s
  run_call (cancel p) s = some (ib_cancel p s).1
  run_call (create ops) s = elim (ib_create_work_request ops s) [ none ↦ none | some x ↦ some x.1 ]
  run_call (destroy accepts ops p) s = ib_destroy_work_request cfg accepts ops p s

  unfoldable pub run_calls : List IbCall → IbState → Option IbState
  run_calls [] s = some s
  run_calls (c ∷ cs) s = run_call c s >>= run_calls cs

module _ (stray : Stray) (cfg : IbConfig) where
  run_call-Lands : (c : IbCall) (s : IbState) → IsFresh s → After (run_call stray cfg c s)
  unfolding run_call
  run_call-Lands (put posts src so len dst at) s h =
      after_issue-Lands _ (put-Lands stray cfg posts s h src so len dst at)
  run_call-Lands (get posts src so len dst at) s h =
      after_issue-Lands _ (get-Lands stray cfg posts s h src so len dst at)
  run_call-Lands (send posts msg n dest) s h =
      after_issue-Lands _ (send-Lands stray cfg posts s h msg n dest)
  run_call-Lands (fop posts a t r x) s h =
      after_issue-Lands _ (fop-Lands stray cfg posts s h a t r x)
  run_call-Lands (cswap posts a t r x y) s h =
      after_issue-Lands _ (cswap-Lands stray cfg posts s h a t r x y)
  run_call-Lands (post accepts b id off) s h =
      whatever-Lands _ (post_recv-Lands cfg accepts stray b id off s h)
  run_call-Lands (post_ack accepts sge ops) s h =
      whatever-Lands _ (post_ack-Lands cfg accepts sge ops s h)
  run_call-Lands (event p w) s h = h
  run_call-Lands (cleanup accepts ops p) s h = cleanup-Lands cfg accepts ops p s h
  run_call-Lands (cancel p) s h = cancel-IsFresh p s h
  run_call-Lands (create ops) s h = create_after-Lands _ (create-Lands ops s h)
  run_call-Lands (destroy accepts ops p) s h = destroy-Lands cfg accepts ops p s h

  run_calls-Lands : (cs : List IbCall) (s : IbState) → IsFresh s → After (run_calls stray cfg cs s)
  unfolding run_calls
  run_calls-Lands [] s h = h
  run_calls-Lands (c ∷ cs) s h =
      Lands-bind IsFresh IsFresh (run_call stray cfg c s) (run_calls stray cfg cs)
        (run_call-Lands c s h) (run_calls-Lands cs)

  -- After any session of calls and events from a state whose keys have been counted, the next key is
  -- not in the map yet: the `assert` before an insertion holds, and what it inserts is found.
  pub run_calls-insert :
      (cs : List IbCall) (s t : IbState) (p : ℕ)
      → IsFresh s
      → run_calls stray cfg cs s ≡ some t
      → (m : List (ℕ × ℕ)) × (insert_wr t.counter p t.wrmap ≡ some m)
        × (lookup_wr t.counter m ≡ some p)
  run_calls-insert cs s t p h e = (
    (t.counter, p) ∷ t.wrmap,
    insert_wr-some t.counter p t.wrmap (subst After e (run_calls-Lands cs s h)),
    rw (==_refl t.counter) refl,
  )
