-- ===== src/Ib/Issue/Waited.antt =====
-- A PUT to a buffer of one segment and the wait for it leave nothing behind (nnti/nnti_ib.cpp).
use nnti.Base.{
  ℕ, ◌≡◌, ◌∙◌, refl, sym, ap, Bool, true, false, Bool-cases, inl, inr, none, some, List, [], ◌∷◌,
  ◌++◌, ◌==◌, length, count, erase, update_self, subst, arith, ==_refl,
}
use nnti.Types.{NntiResult}
use nnti.Mpi.State.{bop_local_read, bop_atomics}
use nnti.Ib.{IbOp, put_initiator, IbWorkRequest, NntiWr, is_wr_complete, set_state, wait_complete}
use nnti.Ib.Pool.{wr_pool_rdma_pop, wr_pool_sendrecv_pop, wr_pool_sendrecv_push}
use nnti.Ib.Segments.{Segment, Local, Stray}
use nnti.Ib.Segments.Gather.{put_one}
use nnti.Ib.Issue.{
  IbConfig, IbRequest, IbState, Posted, erase_wr, insert_wrs, take_sendrecv, take_rdma, write,
  start, started_work, begun, with_acks, post_all, enqueue, ib_put,
}
use nnti.Ib.Issue.Fresh.{IsFresh, insert_wr-some}
use nnti.Ib.Issue.Puts.{take_rdma-Keeps, Keeps-IsFresh}
use nnti.Ib.Issue.Cleanup.{wait_cleanup, give_back, is_receiving, is_target}

erase-append : (p : ℕ) (q : List ℕ) → count p q ≡ 0 → erase p (q ++ (p ∷ [])) ≡ q
erase-append p [] h = rw (==_refl p) refl
erase-append p (x ∷ q) h = elim (Bool-cases (x == p)) [
  | inl e ↦ absurd (ground arith)
  | inr e ↦ rw e (ap (◌∷◌ x) (erase-append p q (ground arith)))
]

-- The work request at `p` as its completion leaves it.
abbrev pub settle : ℕ → IbWorkRequest → IbState → IbState
settle p w s = write p (record (s.reqs p) { work = w }) s

-- A work request of a PUT that is complete.
pub record IsDone (w : IbWorkRequest) : Type 0 where
  pub user : NntiWr
  pub of_user : w.nnti_wr ≡ some user
  pub plain : (user.ops == bop_atomics) ≡ false
  pub op : w.last_op ≡ put_initiator
  pub complete : is_wr_complete w ≡ true

-- What the wait does with a PUT that is complete.
abbrev cleaned : IbConfig → ℕ → IbState → IbState
cleaned cfg p s =
    let r = s.reqs p in
    let t = write p (record r { work = set_state wait_complete r.work }) s in
    give_back cfg p (record t { wr_queue = erase p t.wr_queue; wrmap = erase_wr r.key t.wrmap })

wait_cleanup_put :
    (cfg : IbConfig) (accepts : Bool) (ops p : ℕ) (s : IbState)
    → IsDone (s.reqs p).work
    → wait_cleanup cfg accepts ops p s ≡ some (cleaned cfg p s)
unfolding wait_cleanup is_receiving is_target
wait_cleanup_put cfg accepts ops p s d = rw d.complete (rw d.of_user (rw d.plain (rw d.op refl)))

-- What is left of a work request that has been given back to the pool.
record GivenBack (p key : ℕ) (s u : IbState) : Type 0 where
  wrmap : u.wrmap ≡ erase_wr key s.wrmap
  wr_queue : u.wr_queue ≡ erase p s.wr_queue
  rdma : u.pools.rdma_wr_pool ≡ s.pools.rdma_wr_pool
  sendrecv : u.pools.sendrecv_wr_pool ≡ p ∷ s.pools.sendrecv_wr_pool

cleaned-GivenBack :
    (cfg : IbConfig) (p key : ℕ) (s : IbState)
    → cfg.use_wr_pool ≡ true
    → (s.reqs p).key ≡ key
    → GivenBack p key s (cleaned cfg p s)
unfolding give_back wr_pool_sendrecv_push
cleaned-GivenBack cfg p key s pooled e = record {
  wrmap = rw pooled (rw e refl);
  wr_queue = rw pooled refl;
  rdma = rw pooled refl;
  sendrecv = rw pooled refl;
}

-- A PUT to a buffer of one segment.
abbrev put_begun : Stray → IbConfig → ℕ → ℕ → ℕ → IbState → IbState
put_begun stray cfg src_offset len p s = enqueue p (
    begun put_initiator bop_local_read s.counts.data_cq 1 s.counter src_offset len p s
      ((s.counter, p) ∷ s.wrmap))

ib_put_one :
    (stray : Stray) (cfg : IbConfig) (posts : Posted → Bool) (src : Local) (dst : List Segment)
    (src_offset len dst_offset p : ℕ) (s0 s : IbState)
    → IsFresh s
    → take_rdma cfg s0 ≡ some (p, s)
    → (length dst == 1) ≡ true
    → (rc : NntiResult) × (ps : List Posted) × (ib_put stray cfg posts src src_offset len dst
          dst_offset s0
        ≡ some (rc, (ps, put_begun stray cfg src_offset len p s)))
unfolding ib_put start insert_wrs
ib_put_one stray cfg posts src dst src_offset len dst_offset p s0 s fresh took one =
    let w = put_one stray s.counter src src_offset len dst dst_offset in
    let ps = with_acks cfg.use_rdma_target_ack (w ∷ []) in
    (post_all posts ps, ps, rw took (rw one (rw (insert_wr-some s.counter p s.wrmap fresh) refl)))

-- What a PUT and the wait for it leave of the state `s` in which the work request `p` was taken.
record Over (p : ℕ) (s0 s u : IbState) : Type 0 where
  wrmap : u.wrmap ≡ s0.wrmap
  wr_queue : u.wr_queue ≡ s0.wr_queue
  rdma : u.pools.rdma_wr_pool ≡ s.pools.rdma_wr_pool
  sendrecv : u.pools.sendrecv_wr_pool ≡ p ∷ s.pools.sendrecv_wr_pool

IsDone-settle :
    (p : ℕ) (w : IbWorkRequest) (t : IbState) → IsDone w → IsDone ((settle p w t).reqs p).work
IsDone-settle p w t d =
    subst IsDone
      (sym (ap (λ (r : IbRequest). r.work) (update_self t.reqs p (record (t.reqs p) { work = w }))))
      d

settle-key :
    (p : ℕ) (w : IbWorkRequest) (t : IbState) → ((settle p w t).reqs p).key ≡ (t.reqs p).key
settle-key p w t =
    ap (λ (r : IbRequest). r.key) (update_self t.reqs p (record (t.reqs p) { work = w }))

begun-key :
    (op : IbOp) (ops cq n key offset len p : ℕ) (s : IbState) (m : List (ℕ × ℕ))
    → ((begun op ops cq n key offset len p s m).reqs p).key ≡ key
begun-key op ops cq n key offset len p s m =
    ap (λ (r : IbRequest). r.key)
      (update_self s.reqs p (record (s.reqs p) {
        work = started_work op ops cq n (s.reqs p).work.last_wc;
        key = key;
        offset = offset;
        length = len;
      }))

put-wait-Over :
    (stray : Stray) (cfg : IbConfig) (posts : Posted → Bool) (accepts : Bool) (ops : ℕ)
    (src : Local) (dst : List Segment) (src_offset len dst_offset p : ℕ) (s0 s : IbState)
    (w : IbWorkRequest)
    → IsFresh s0
    → take_rdma cfg s0 ≡ some (p, s)
    → (length dst == 1) ≡ true
    → cfg.use_wr_pool ≡ true
    → count p s0.wr_queue ≡ 0
    → IsDone w
    → (rc : NntiResult) × (ps : List Posted) × (t u : IbState) × (ib_put stray cfg posts src
          src_offset len dst dst_offset s0
        ≡ some (rc, (ps, t)))
      × (wait_cleanup cfg accepts ops p (settle p w t) ≡ some u)
      × Over p s0 s u
put-wait-Over stray cfg posts accepts ops src dst src_offset len dst_offset p s0 s w fresh0 took one
      pooled absent done =
    let keeps = take_rdma-Keeps cfg s0 s p took in
    let (rc, ps, run) =
      ib_put_one stray cfg posts src dst src_offset len dst_offset p s0 s
        (Keeps-IsFresh s0 s keeps fresh0) took one in
    let t = put_begun stray cfg src_offset len p s in
    let key : ((settle p w t).reqs p).key ≡ s.counter =
      settle-key p w t
      ∙ begun-key put_initiator bop_local_read s.counts.data_cq 1 s.counter src_offset len p s
          ((s.counter, p) ∷ s.wrmap) in
    let given = cleaned-GivenBack cfg p s.counter (settle p w t) pooled key in
    (
      rc,
      ps,
      t,
      cleaned cfg p (settle p w t),
      run,
      wait_cleanup_put cfg accepts ops p (settle p w t) (IsDone-settle p w t done),
      record {
        wrmap = given.wrmap ∙ rw (==_refl s.counter) keeps.wrmap;
        wr_queue =
            given.wr_queue ∙ erase-append p s.wr_queue (rw keeps.wr_queue absent) ∙ keeps.wr_queue;
        rdma = given.rdma;
        sendrecv = given.sendrecv;
      },
    )

-- Without acknowledgements: a PUT of any bytes to a buffer of one segment and the wait for it, once it
-- is complete, leave the map of work requests, the queue and both pools as they were, where keys in
-- the map have been counted and the work request at the pool's front is not in the queue.
pub put-wait-restores :
    (stray : Stray) (cfg : IbConfig) (posts : Posted → Bool) (accepts : Bool) (ops : ℕ)
    (src : Local) (dst : List Segment) (src_offset len dst_offset p : ℕ) (pool : List ℕ)
    (s0 : IbState) (w : IbWorkRequest)
    → IsFresh s0
    → s0.pools.sendrecv_wr_pool ≡ p ∷ pool
    → (length dst == 1) ≡ true
    → cfg.use_wr_pool ≡ true
    → cfg.use_rdma_target_ack ≡ false
    → count p s0.wr_queue ≡ 0
    → IsDone w
    → (rc : NntiResult) × (ps : List Posted) × (t u : IbState) × (ib_put stray cfg posts src
          src_offset len dst dst_offset s0
        ≡ some (rc, (ps, t)))
      × (wait_cleanup cfg accepts ops p (settle p w t) ≡ some u)
      × (u.wrmap ≡ s0.wrmap)
      × (u.wr_queue ≡ s0.wr_queue)
      × (u.pools.rdma_wr_pool ≡ s0.pools.rdma_wr_pool)
      × (u.pools.sendrecv_wr_pool ≡ s0.pools.sendrecv_wr_pool)
unfolding take_rdma take_sendrecv wr_pool_sendrecv_pop
put-wait-restores stray cfg posts accepts ops src dst src_offset len dst_offset p pool s0 w fresh
      front one pooled acks absent done =
    let s : IbState = record s0 { pools = record s0.pools { sendrecv_wr_pool = pool } } in
    let (rc, ps, t, u, run, wait, over) =
      put-wait-Over stray cfg posts accepts ops src dst src_offset len dst_offset p s0 s w fresh
        (rw pooled (rw acks (rw front refl))) one pooled absent done in
    (rc, ps, t, u, run, wait, over.wrmap, over.wr_queue, over.rdma, over.sendrecv ∙ sym front)

put_empty :
    (stray : Stray) (cfg : IbConfig) (posts : Posted → Bool) (src : Local) (dst : List Segment)
    (src_offset len dst_offset : ℕ) (s : IbState)
    → cfg.use_wr_pool ≡ true
    → cfg.use_rdma_target_ack ≡ true
    → s.pools.rdma_wr_pool ≡ []
    → ib_put stray cfg posts src src_offset len dst dst_offset s ≡ none
unfolding ib_put take_rdma wr_pool_rdma_pop
put_empty stray cfg posts src dst src_offset len dst_offset s pooled acks empty =
    rw pooled (rw acks (rw empty refl))

-- With acknowledgements and pools, it moves a work request from the pool it was taken from, that of
-- RDMA transfers, to the other pool: where it was the last one there, the next PUT fails an `assert`.
pub acked-drains :
    (stray : Stray) (cfg : IbConfig) (posts : Posted → Bool) (accepts : Bool) (ops : ℕ)
    (src : Local) (dst : List Segment) (src_offset len dst_offset p : ℕ) (s0 : IbState)
    (w : IbWorkRequest)
    → IsFresh s0
    → s0.pools.rdma_wr_pool ≡ p ∷ []
    → (length dst == 1) ≡ true
    → cfg.use_wr_pool ≡ true
    → cfg.use_rdma_target_ack ≡ true
    → count p s0.wr_queue ≡ 0
    → IsDone w
    → (rc : NntiResult) × (ps : List Posted) × (t u : IbState) × (ib_put stray cfg posts src
          src_offset len dst dst_offset s0
        ≡ some (rc, (ps, t)))
      × (wait_cleanup cfg accepts ops p (settle p w t) ≡ some u)
      × (u.pools.rdma_wr_pool ≡ [])
      × (u.pools.sendrecv_wr_pool ≡ p ∷ s0.pools.sendrecv_wr_pool)
      × (ib_put stray cfg posts src src_offset len dst dst_offset u ≡ none)
unfolding take_rdma wr_pool_rdma_pop
acked-drains stray cfg posts accepts ops src dst src_offset len dst_offset p s0 w fresh front one
      pooled acks absent done =
    let s : IbState = record s0 { pools = record s0.pools { rdma_wr_pool = [] } } in
    let (rc, ps, t, u, run, wait, over) =
      put-wait-Over stray cfg posts accepts ops src dst src_offset len dst_offset p s0 s w fresh
        (rw pooled (rw acks (rw front refl))) one pooled absent done in
    (
      rc,
      ps,
      t,
      u,
      run,
      wait,
      over.rdma,
      over.sendrecv,
      put_empty stray cfg posts src dst src_offset len dst_offset u pooled acks over.rdma,
    )
