-- ===== src/Ib/Issue/Receive.antt =====
-- nnti/nnti_ib.cpp: the work requests that wait for data and for requests at the receiving side.
use nnti.Base.{
  ℕ, ◌+◌, ◌/◌, ◌%◌, ◌^◌, Bool, true, false, ◌&&◌, Option, none, some, List, [], ◌∷◌, ◌==◌, ltb,
  if◌then◌else◌, length, get_or,
}
use nnti.Mpi.State.{bop_recv_queue}
use nnti.Ib.{IbOp, new_request, receive, posted, IbWorkRequest, Counts}
use nnti.Ib.Segments.{Local, Stray, Sge}
use nnti.Ib.Pool.{new_wr, wr_pool_rdma_pop}
use nnti.Ib.Issue.{
  IbConfig, IbRequest, IbState, ◌>>=◌, take_sendrecv, popped, allocated, insert_wr, erase_wr, write,
  enqueue,
}
use nnti.Ib.Issue.Message.{message_loop}

-- `ops` and `payload_size` of a registered buffer, and its segments.
pub record RecvBuf : Type 0 where
  pub ops : ℕ
  pub payload_size : ℕ
  pub memory : Local

-- The result is that of `ibv_post_srq_recv_wrapper` where that fails, which leaves the function.
pub data Receiving : Type 0 where
  receiving refused : IbState → Receiving

-- The two tests at which a receive is handed to a shared receive queue.
abbrev post_data : Bool → ℕ → ℕ → Counts → Bool × Counts
post_data accepts srq_count cq c =
    if (cq == c.data_cq) && ltb c.data_srq_count (srq_count / 2)
    then (accepts, (if accepts then record c { data_srq_count = c.data_srq_count + 1 } else c))
    else (true, c)

abbrev post_req : Bool → ℕ → ℕ → Counts → Bool × Counts
post_req accepts srq_count cq c =
    if (cq == c.req_cq) && ltb c.req_srq_count (srq_count / 2)
    then (accepts, (if accepts then record c { req_srq_count = c.req_srq_count + 1 } else c))
    else (true, c)

unfoldable pub post_srq : Bool → ℕ → ℕ → Counts → Bool × Counts
post_srq accepts srq_count cq c =
    let (fine, c1) = post_data accepts srq_count cq c in
    if fine then post_req accepts srq_count cq c1 else (false, c1)

-- What the code sets by `ops` of the buffer.
abbrev pub recv_op : ℕ → IbOp
recv_op ops = if ops == bop_recv_queue then new_request else receive

abbrev pub recv_cq : ℕ → Counts → ℕ
recv_cq ops c = if ops == bop_recv_queue then c.req_cq else c.data_cq

-- The work request once it is posted.
abbrev pub received : ℕ → Counts → IbWorkRequest → IbWorkRequest
received ops c w = record w { state = posted; last_op = recv_op ops; cq = recv_cq ops c }

unfoldable pub recv_sges : Stray → RecvBuf → ℕ → List Sge
recv_sges stray b offset =
    let m = get_or stray.mr b.memory.mr_list 0 in
    if length b.memory.segments == 1
    then record { addr = m.addr + offset; length = b.payload_size % 2 ^ 32; lkey = m.lkey } ∷ []
    else message_loop stray b.memory.mr_list (length b.memory.segments) 0

-- A work request under a new key, at the end of the queue.
abbrev pub keyed : ℕ → IbRequest → IbState → Option Receiving
keyed p r s =
    insert_wr r.key p s.wrmap >>= λ m. some (receiving (enqueue p (record s { wrmap = m })))

abbrev pub after_post : ℕ → IbRequest → IbState → Bool × Counts → Option Receiving
after_post p r s (false, c) = some (refused (write p r (record s { counts = c })))
after_post p r s (true, c) = keyed p r (write p r (record s { counts = c }))

module _ (cfg : IbConfig) (accepts : Bool) where
  -- `post_recv_work_request`; `wr_id` is none where the caller gives -1.
  unfoldable pub post_recv_work_request :
      Stray → RecvBuf → Option ℕ → ℕ → IbState → Option Receiving
  post_recv_work_request stray b wr_id offset s0 =
      (if b.ops == bop_recv_queue then allocated s0 (new_wr s0.pools) else take_sendrecv cfg s0)
      >>= λ (p, s).
          let old = s.reqs p in
          let r : IbRequest = record {
            work = received b.ops s.counts old.work;
            key = s.counter;
            offset = offset;
            length = b.payload_size;
            rq_wr_id = (elim wr_id [ none ↦ s.counter | some i ↦ i ]);
            rq_sges = recv_sges stray b offset;
          } in
          after_post p r (record s { counter = s.counter + 1 })
            (post_srq accepts cfg.srq_count r.work.cq s.counts)

  -- `post_ack_recv_work_request`; `ack_sge` is the buffer of the acknowledgement.
  unfoldable pub post_ack_recv_work_request : Sge → ℕ → IbState → Option Receiving
  post_ack_recv_work_request ack_sge ops s0 =
      (if cfg.use_wr_pool
        then popped s0 (wr_pool_rdma_pop s0.pools)
        else allocated s0 (new_wr s0.pools))
      >>= λ (p, s).
          let old = s.reqs p in
          let r : IbRequest = record old {
            work = received ops s.counts old.work;
            key = s.counter;
            rq_wr_id = s.counter;
            rq_sges = ack_sge ∷ [];
          } in
          after_post p r (record s { counter = s.counter + 1 })
            (post_srq accepts cfg.srq_count r.work.cq s.counts)

  abbrev pub reposted : IbState → Bool × Counts → Receiving
  reposted s (false, c) = refused (record s { counts = c })
  reposted s (true, c) = receiving (record s { counts = c })

  -- `repost_recv_work_request`
  unfoldable pub repost_recv_work_request : ℕ → ℕ → IbState → Option Receiving
  repost_recv_work_request ops p s =
      let old = s.reqs p in
      let r = record old {
        work = received ops s.counts old.work;
        key = s.counter;
        rq_wr_id = s.counter;
      } in
      insert_wr s.counter p (erase_wr old.key s.wrmap) >>= λ m. some (
        reposted (write p r (record s { wrmap = m; counter = s.counter + 1 }))
          (post_srq accepts cfg.srq_count r.work.cq s.counts))

  abbrev pub requeued : ℕ → IbState → Bool × Counts → Option Receiving
  requeued p s (false, c) = some (refused (record s { counts = c }))
  requeued p s (true, c) =
      let old = s.reqs p in
      insert_wr s.counter p (erase_wr old.key s.wrmap) >>= λ m. some (
        receiving (
          write p (record old { key = s.counter })
            (enqueue p (record s { wrmap = m; counter = s.counter + 1; counts = c }))))

  -- `repost_ack_recv_work_request`
  unfoldable pub repost_ack_recv_work_request : ℕ → ℕ → IbState → Option Receiving
  repost_ack_recv_work_request ops p s =
      let old = s.reqs p in
      let r = record old { work = received ops s.counts old.work } in
      requeued p (write p r s) (post_srq accepts cfg.srq_count r.work.cq s.counts)
