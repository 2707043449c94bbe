-- ===== src/Ib/Issue/Lands/Ends.antt =====
-- The operations of nnti/nnti_ib.cpp that receive and clean up keep the keys of the map counted.
use nnti.Base.{
  ℕ, ◌+◌, ◌≡◌, refl, Bool, true, false, Bool-cases, inl, inr, Option, none, some, List, ◌∷◌, ◌==◌,
  if◌then◌else◌, erase, mem, arith,
}
use nnti.Mpi.State.{bop_recv_queue, bop_atomics}
use nnti.Ib.{Counts, is_wr_complete, set_state, wait_complete}
use nnti.Ib.Pool.{new_wr, wr_pool_rdma_pop}
use nnti.Ib.Segments.{Stray, Sge}
use nnti.Ib.Issue.{
  IbConfig, IbRequest, IbState, ◌>>=◌, insert_wr, erase_wr, popped, allocated, take_sendrecv, write,
}
use nnti.Ib.Issue.Receive.{
  RecvBuf, Receiving, receiving, refused, received, after_post, post_recv_work_request,
  post_ack_recv_work_request, repost_recv_work_request, repost_ack_recv_work_request, requeued,
  reposted,
}
use nnti.Ib.Issue.Cleanup.{
  wait_cleanup, give_back, whatever, ops_of, is_receiving, is_target, ib_cancel, in_progress,
  find_free, ib_create_work_request, ib_destroy_work_request,
}
use nnti.Ib.Issue.Fresh.{Below, IsFresh, Below-mono, Below-erase_wr, insert_wr-some}
use nnti.Ib.Issue.Lands.{
  Lands, Lands-bind, Lands-any, Lands-if, Lands-state, Taken, After, popped-Lands,
  take_sendrecv-Lands,
}

abbrev pub ReceivingFresh : Receiving → Type 0
ReceivingFresh (receiving t) = IsFresh t
ReceivingFresh (refused t) = IsFresh t

-- A key that is drawn from the counter goes into the map.
pub after_post-Lands :
    (p : ℕ) (r : IbRequest) (s : IbState) (o : Bool × Counts)
    → IsFresh s
    → r.key ≡ s.counter
    → Lands ReceivingFresh (after_post p r (record s { counter = s.counter + 1 }) o)
unfolding Below
after_post-Lands p r s (false, c) h e = Below-mono s.counter (s.counter + 1) s.wrmap (omega arith) h
after_post-Lands p r s (true, c) h e = rw e (
    rw (insert_wr-some s.counter p s.wrmap h)
      (omega arith, Below-mono s.counter (s.counter + 1) s.wrmap (omega arith) h))

pub whatever-Lands : (o : Option Receiving) → Lands ReceivingFresh o → After (whatever o)
whatever-Lands none h = h
whatever-Lands (some (receiving t)) h = h
whatever-Lands (some (refused t)) h = h

module _ (cfg : IbConfig) (accepts : Bool) where
  pub post_recv-Lands :
      (stray : Stray) (b : RecvBuf) (id : Option ℕ) (offset : ℕ) (s0 : IbState)
      → IsFresh s0
      → Lands ReceivingFresh (post_recv_work_request cfg accepts stray b id offset s0)
  unfolding post_recv_work_request
  post_recv-Lands stray b id offset s0 fresh =
      Lands-bind Taken ReceivingFresh _ _ taken (λ (p, s) h. after_post-Lands p _ s _ h refl)
    where
      taken :
          Lands Taken (
            if b.ops == bop_recv_queue
            then allocated s0 (new_wr s0.pools)
            else take_sendrecv cfg s0)
      taken = elim (Bool-cases (b.ops == bop_recv_queue)) [
        | inl e ↦ rw e fresh
        | inr e ↦ rw e (take_sendrecv-Lands cfg s0 fresh)
      ]

  pub post_ack-Lands :
      (sge : Sge) (ops : ℕ) (s0 : IbState)
      → IsFresh s0
      → Lands ReceivingFresh (post_ack_recv_work_request cfg accepts sge ops s0)
  unfolding post_ack_recv_work_request
  post_ack-Lands sge ops s0 fresh =
      Lands-bind Taken ReceivingFresh _ _ taken (λ (p, s) h. after_post-Lands p _ s _ h refl)
    where
      taken : Lands Taken (
          if cfg.use_wr_pool
          then popped s0 (wr_pool_rdma_pop s0.pools)
          else allocated s0 (new_wr s0.pools))
      taken = elim (Bool-cases cfg.use_wr_pool) [
        | inl e ↦ rw e (popped-Lands s0 (wr_pool_rdma_pop s0.pools) fresh)
        | inr e ↦ rw e fresh
      ]

  -- A key is replaced by one that is drawn from the counter.
  pub swapped-Lands :
      (p key : ℕ) (s : IbState) (f : List (ℕ × ℕ) → Option Receiving)
      → IsFresh s
      → ((m : List (ℕ × ℕ)) → Below (s.counter + 1) m → Lands ReceivingFresh (f m))
      → Lands ReceivingFresh (insert_wr s.counter p (erase_wr key s.wrmap) >>= f)
  unfolding Below
  swapped-Lands p key s f h k =
      let b = Below-erase_wr s.counter key s.wrmap h in
      rw (insert_wr-some s.counter p (erase_wr key s.wrmap) b) (
        k ((s.counter, p) ∷ erase_wr key s.wrmap) (
          omega arith,
          Below-mono s.counter (s.counter + 1) (erase_wr key s.wrmap) (omega arith) b,
        ))

  pub reposted-Lands :
      (s : IbState) (o : Bool × Counts) → IsFresh s → ReceivingFresh (reposted cfg accepts s o)
  reposted-Lands s (false, c) h = h
  reposted-Lands s (true, c) h = h

  pub repost-Lands :
      (ops p : ℕ) (s : IbState)
      → IsFresh s
      → Lands ReceivingFresh (repost_recv_work_request cfg accepts ops p s)
  unfolding repost_recv_work_request
  repost-Lands ops p s h =
      let old = s.reqs p in
      let r = record old {
        work = received ops s.counts old.work;
        key = s.counter;
        rq_wr_id = s.counter;
      } in
      swapped-Lands p old.key s _ h
        (λ m b. reposted-Lands (write p r (record s { wrmap = m; counter = s.counter + 1 })) _ b)

  pub requeued-Lands :
      (p : ℕ) (s : IbState) (o : Bool × Counts)
      → IsFresh s
      → Lands ReceivingFresh (requeued cfg accepts p s o)
  requeued-Lands p s (false, c) h = h
  requeued-Lands p s (true, c) h = swapped-Lands p (s.reqs p).key s _ h (λ m b. b)

  pub repost_ack-Lands :
      (ops p : ℕ) (s : IbState)
      → IsFresh s
      → Lands ReceivingFresh (repost_ack_recv_work_request cfg accepts ops p s)
  unfolding repost_ack_recv_work_request
  repost_ack-Lands ops p s h =
      let old = s.reqs p in
      requeued-Lands p (write p (record old { work = received ops s.counts old.work }) s) _ h

  pub give_back-IsFresh : (p : ℕ) (s : IbState) → IsFresh s → IsFresh (give_back cfg p s)
  unfolding give_back
  give_back-IsFresh p s h = elim (Bool-cases cfg.use_wr_pool) [ inl e ↦ rw e h | inr e ↦ rw e h ]

  -- A work request that is complete.
  pub done-Lands :
      (ops p wr_ops : ℕ) (r : IbRequest) (s : IbState)
      → IsFresh s
      → After (
          if wr_ops == bop_atomics
          then some (give_back cfg p (record s { wrmap = erase_wr r.key s.wrmap }))
          else if is_receiving r.work.last_op
          then some s
          else if is_target r.work.last_op
          then if cfg.use_rdma_target_ack
            then whatever (repost_ack_recv_work_request cfg accepts ops p s)
            else some s
          else some (
              give_back cfg p
                (record s { wr_queue = erase p s.wr_queue; wrmap = erase_wr r.key s.wrmap })))
  done-Lands ops p wr_ops r s h =
      let erased = Below-erase_wr s.counter r.key s.wrmap h in
      Lands-if IsFresh (wr_ops == bop_atomics) _ _
        (give_back-IsFresh p (record s { wrmap = erase_wr r.key s.wrmap }) erased)
        (Lands-if IsFresh (is_receiving r.work.last_op) _ _ h (
          Lands-if IsFresh (is_target r.work.last_op) _ _
            (Lands-if IsFresh cfg.use_rdma_target_ack _ _
              (whatever-Lands _ (repost_ack-Lands ops p s h)) h)
            (give_back-IsFresh p
              (record s { wr_queue = erase p s.wr_queue; wrmap = erase_wr r.key s.wrmap }) erased)))

  pub cleanup-Lands :
      (ops p : ℕ) (s : IbState) → IsFresh s → After (wait_cleanup cfg accepts ops p s)
  unfolding wait_cleanup
  cleanup-Lands ops p s h = elim (Bool-cases (is_wr_complete (s.reqs p).work)) [
    | inl e ↦
        let r = s.reqs p in
        rw e (
          Lands-any IsFresh (ops_of r) _ (λ wr_ops.
            done-Lands ops p wr_ops r
              (write p (record r { work = set_state wait_complete r.work }) s) h))
    | inr e ↦ rw e h
  ]

  pub destroy-Lands :
      (ops p : ℕ) (s : IbState) → IsFresh s → After (ib_destroy_work_request cfg accepts ops p s)
  unfolding ib_destroy_work_request
  destroy-Lands ops p s h =
      Lands-if IsFresh (is_receiving (s.reqs p).work.last_op) _ _
        (Lands-state IsFresh (s.reqs p).work.state _ _
          (Lands-bind IsFresh IsFresh (whatever (repost_recv_work_request cfg accepts ops p s)) _
            (whatever-Lands _ (repost-Lands ops p s h))
            (λ t g. Lands-if IsFresh (mem p (erase p t.wr_queue)) _ _ (omega arith) g))
          h)
        h

pub cancel-IsFresh : (p : ℕ) (s : IbState) → IsFresh s → IsFresh (ib_cancel p s).1
unfolding ib_cancel
cancel-IsFresh p s h = elim (Bool-cases (in_progress (s.reqs p).work.state)) [
  | inl e ↦ rw e h
  | inr e ↦ rw e h
]

pub create-Lands : (ops : ℕ) (s : IbState) → IsFresh s → Lands Taken (ib_create_work_request ops s)
unfolding ib_create_work_request
create-Lands ops s h = Lands-any Taken (find_free s.reqs s.wr_queue) _ (λ p. h)

pub create_after-Lands :
    (o : Option (ℕ × IbState)) → Lands Taken o → After (elim o [ none ↦ none | some x ↦ some x.1 ])
create_after-Lands none h = h
create_after-Lands (some x) h = h
