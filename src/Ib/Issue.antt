-- ===== src/Ib/Issue.antt =====
-- nnti/nnti_ib.cpp: PUT and GET, with the work requests and `wrmap`, which takes a completion to its
-- work request; the children have messages, receiving, and what becomes of a work request that is
-- complete. The connection to the peer stands, and a counter of 64 bits does not come round. The result of `ibv_post_send_wrapper` is a parameter.
pub mod Message
pub mod Receive
pub mod Cleanup
pub mod Fresh
pub mod Puts
pub mod Waited
pub mod Lands
pub mod Session
use nnti.Base.{
  ℕ, zero, suc, ◌+◌, ◌*◌, ◌%◌, ◌^◌, Bool, true, false, not, ◌&&◌, Option, none, some, List, [], ◌∷◌,
  ◌++◌, ◌==◌, if◌then◌else◌, length, get_or, update, erase, mem,
}
use nnti.Types.{NntiResult, ok, eio}
use nnti.Mpi.State.{bop_local_read, bop_local_write, bop_atomics}
use nnti.Ib.{
  IbOp, put_initiator, get_initiator, send_request, send_buffer, fetch_add, compare_swap,
  new_request, receive, get_target, put_target, other, started, reset, IbWorkRequest, Counts, Wc,
}
use nnti.Ib.Pool.{
  PoolWr, Pools, wr_pool_rdma_pop, wr_pool_sendrecv_pop, wr_pool_sendrecv_push, new_wr,
}
use nnti.Ib.Segments.{
  Segment, Mr, Local, Stray, Sge, SendOpcode, SendWr, hash6432shift, put_many, get_many,
}
use nnti.Ib.Segments.Gather.{put_one, get_one}

-- `config`, and `srq_count` of `transport_global_data`.
pub record IbConfig : Type 0 where
  pub use_wr_pool : Bool
  pub use_rdma_target_ack : Bool
  pub srq_count : ℕ

-- What an `ib_work_request` keeps of the transfer beside its state.
pub record IbRequest : Type 0 where
  pub work : IbWorkRequest
  pub key : ℕ
  pub offset : ℕ
  pub length : ℕ
  pub rq_wr_id : ℕ
  pub rq_sges : List Sge

-- A descriptor of an atomic operation.
pub record AtomicWr : Type 0 where
  pub sge : Sge
  pub compares : Bool
  pub wr_id : ℕ
  pub rkey : ℕ
  pub remote_addr : ℕ
  pub compare_add : ℕ
  pub swap : ℕ

-- What is handed to `ibv_post_send_wrapper`: a message to a request queue, a transfer, an atomic
-- operation, or the acknowledgement of a target.
pub data Posted : Type 0 where
  message : ℕ → List Sge → Posted
  moves : SendWr → Posted
  atomic : AtomicWr → Posted
  ack : Posted

-- The pools, the counts of `transport_global_data`, `nnti_wrmap_counter`, `wrmap`, the `wr_queue` of the local buffer, and the work requests
-- at their addresses.
pub record IbState : Type 0 where
  pub pools : Pools
  pub counter : ℕ
  pub wrmap : List (ℕ × ℕ)
  pub wr_queue : List ℕ
  pub reqs : ℕ → IbRequest
  pub counts : Counts

abbrev pub lookup_wr : ℕ → List (ℕ × ℕ) → Option ℕ
lookup_wr k [] = none
lookup_wr k ((j, p) ∷ m) = if j == k then some p else lookup_wr k m

-- `wrmap.erase(it)`; a key stands there once.
abbrev pub erase_wr : ℕ → List (ℕ × ℕ) → List (ℕ × ℕ)
erase_wr k [] = []
erase_wr k ((j, p) ∷ m) = if j == k then m else (j, p) ∷ erase_wr k m

infixl 5 ◌>>=◌
abbrev pub ◌>>=◌ : {A B : Type 0} → Option A → (A → Option B) → Option B
none >>= f = none
some a >>= f = f a

-- An `assert` that a key is new, then the insertion.
unfoldable pub insert_wr : ℕ → ℕ → List (ℕ × ℕ) → Option (List (ℕ × ℕ))
insert_wr k p m = elim (lookup_wr k m) [ none ↦ some ((k, p) ∷ m) | some _ ↦ none ]

-- The insertions of `n` work requests under consecutive keys.
unfoldable pub insert_wrs : ℕ → ℕ → ℕ → List (ℕ × ℕ) → Option (List (ℕ × ℕ))
insert_wrs zero k p m = some m
insert_wrs (suc n) k p m = insert_wr k p m >>= insert_wrs n (suc k) p

-- A field of the pool's view of the work request changes with the work request.
abbrev pub write : ℕ → IbRequest → IbState → IbState
write p r s = record s {
  reqs = update s.reqs p r;
  pools = record s.pools {
    wrs = update s.pools.wrs p (record { last_op = r.work.last_op; state = r.work.state });
  };
}

-- A new work request for a PUT or GET: an `assert` fails where the pool is empty.
abbrev pub popped : IbState → Option ℕ × Pools → Option (ℕ × IbState)
popped s (none, pools) = none
popped s (some p, pools) = some (p, record s { pools = pools })

-- `calloc`
abbrev pub calloc_wr : IbRequest
calloc_wr = record {
  work = record {
    nnti_wr = none;
    state = reset;
    last_op = other 0;
    sq_wr_count = 0;
    sq_wr_completed_count = 0;
    cq = 0;
    last_wc = none;
  };
  key = 0;
  offset = 0;
  length = 0;
  rq_wr_id = 0;
  rq_sges = [];
}

abbrev pub allocated : IbState → ℕ × Pools → Option (ℕ × IbState)
allocated s (p, pools) = some (p, record s { pools = pools; reqs = update s.reqs p calloc_wr })

unfoldable pub take_sendrecv : IbConfig → IbState → Option (ℕ × IbState)
take_sendrecv cfg s =
    if cfg.use_wr_pool
    then popped s (wr_pool_sendrecv_pop s.pools)
    else allocated s (new_wr s.pools)

unfoldable pub take_rdma : IbConfig → IbState → Option (ℕ × IbState)
take_rdma cfg s =
    if cfg.use_wr_pool && cfg.use_rdma_target_ack
    then popped s (wr_pool_rdma_pop s.pools)
    else take_sendrecv cfg s

-- The work request of an operation that is started, of `n` descriptors.
abbrev pub started_work : IbOp → ℕ → ℕ → ℕ → Option Wc → IbWorkRequest
started_work op ops cq n last = record {
  nnti_wr = some (record { ops = ops; result = ok });
  state = started;
  last_op = op;
  sq_wr_count = n;
  sq_wr_completed_count = 0;
  cq = cq;
  last_wc = last;
}

-- What every operation sets in the work request at `p`, once its descriptors are in the map.
abbrev pub begun : IbOp → ℕ → ℕ → ℕ → ℕ → ℕ → ℕ → ℕ → IbState → List (ℕ × ℕ) → IbState
begun op ops cq n key offset len p s m =
    let old = s.reqs p in
    write p
      (record old {
        work = started_work op ops cq n old.work.last_wc;
        key = key;
        offset = offset;
        length = len;
      })
      (record s { wrmap = m; counter = s.counter + n })

-- The descriptors go into the map under the next keys.
unfoldable pub start : IbOp → ℕ → ℕ → ℕ → ℕ → ℕ → ℕ → ℕ → IbState → Option IbState
start op ops cq n key offset len p s =
    insert_wrs n s.counter p s.wrmap >>= λ m. some (begun op ops cq n key offset len p s m)

abbrev pub enqueue : ℕ → IbState → IbState
enqueue p s = record s { wr_queue = s.wr_queue ++ (p ∷ []) }

-- The descriptors, each followed by the acknowledgement where targets are acknowledged.
unfoldable pub with_acks : Bool → List SendWr → List Posted
with_acks a [] = []
with_acks a (w ∷ ws) = moves w ∷ (if a then ack ∷ with_acks a ws else with_acks a ws)

-- The loop that posts: an error is returned, the work request stays. An acknowledgement that is not
-- posted is not told.
unfoldable pub post_all : (Posted → Bool) → List Posted → NntiResult
post_all posts [] = ok
post_all posts (ack ∷ ps) = post_all posts ps
post_all posts (p ∷ ps) = if posts p then post_all posts ps else eio

abbrev pub Issued : Type 0
Issued = Option (NntiResult × (List Posted × IbState))

-- The state after an operation.
abbrev pub after_issue : Issued → Option IbState
after_issue none = none
after_issue (some (rc, (ps, t))) = some t

abbrev pub issued : (Posted → Bool) → List Posted → IbState → Issued
issued posts ps s = some (post_all posts ps, (ps, s))

module _ (stray : Stray) (cfg : IbConfig) (posts : Posted → Bool) where
  -- `NNTI_ib_put`
  unfoldable pub ib_put : Local → ℕ → ℕ → List Segment → ℕ → IbState → Issued
  ib_put src src_offset len dst dst_offset s0 = take_rdma cfg s0 >>= λ (p, s).
      let one = length dst == 1 in
      (if one
        then some (put_one stray s.counter src src_offset len dst dst_offset ∷ [])
        else put_many stray s.counter src src_offset len dst dst_offset)
      >>= λ ws.
          start put_initiator bop_local_read s.counts.data_cq (length ws)
            (if one then s.counter else (s.reqs p).key) src_offset len p s
          >>= λ t. issued posts (with_acks cfg.use_rdma_target_ack ws) (enqueue p t)

  -- `NNTI_ib_get`
  unfoldable pub ib_get : List Segment → ℕ → ℕ → Local → ℕ → IbState → Issued
  ib_get src src_offset len dst dst_offset s0 = take_rdma cfg s0 >>= λ (p, s).
      let one = length src == 1 in
      (if one
        then some (get_one stray s.counter src src_offset len dst dst_offset ∷ [])
        else get_many stray s.counter src src_offset len dst dst_offset)
      >>= λ ws.
          start get_initiator bop_local_write s.counts.data_cq (length ws)
            (if one then s.counter else (s.reqs p).key) dst_offset len p s
          >>= λ t. issued posts (with_acks cfg.use_rdma_target_ack ws) (enqueue p t)
