-- ===== src/Ib/Issue/Cleanup.antt =====
-- nnti/nnti_ib.cpp: what a completion leads to: the work request it is decoded to, what `NNTI_ib_wait`
-- does with one that is complete, cancelling, and the work requests that users create and destroy.
use nnti.Base.{
  ℕ, Bool, true, false, Option, none, some, List, [], ◌∷◌, ◌==◌, if◌then◌else◌, update, erase, mem,
}
use nnti.Types.{NntiResult, ok, einval}
use nnti.Mpi.State.{bop_atomics}
use nnti.Ib.{
  IbOp, new_request, receive, get_target, put_target, other, WrState, started, posted, canceling,
  reset, wait_complete, WcOpcode, recv, send, IbWorkRequest, is_wr_complete, set_state,
}
use nnti.Ib.Pool.{wr_pool_sendrecv_push}
use nnti.Ib.Issue.{IbConfig, IbRequest, IbState, ◌>>=◌, lookup_wr, erase_wr, write, enqueue}
use nnti.Ib.Issue.Receive.{
  Receiving, receiving, refused, repost_recv_work_request, repost_ack_recv_work_request,
}

-- `decode_work_request`: by the key of the completion, or, where it has immediate data, the first work
-- request in the queue of the buffer of that hash. None where an `assert` fails.
unfoldable pub decode_work_request : (ℕ → Option (List ℕ)) → WcOpcode → ℕ → ℕ → IbState → Option ℕ
decode_work_request bufhash recv wr_id imm_data s = lookup_wr wr_id s.wrmap
decode_work_request bufhash send wr_id imm_data s = lookup_wr wr_id s.wrmap
decode_work_request bufhash opcode wr_id imm_data s =
    if imm_data == 0
    then lookup_wr wr_id s.wrmap
    else bufhash imm_data >>= λ queue. elim queue [ [] ↦ none | p ∷ ps ↦ some p ]

-- A work request that goes back to the pool, or is freed.
unfoldable pub give_back : IbConfig → ℕ → IbState → IbState
give_back cfg p s =
    let r = s.reqs p in
    if cfg.use_wr_pool
    then record s {
      pools = wr_pool_sendrecv_push p s.pools;
      reqs =
          update s.reqs p (record r { work = record r.work { last_op = other 0; state = reset } });
    }
    else s

-- The cases of `NNTI_ib_wait` on the operation of a work request that is complete.
unfoldable pub is_receiving : IbOp → Bool
is_receiving new_request = true
is_receiving receive = true
is_receiving _ = false

unfoldable pub is_target : IbOp → Bool
is_target get_target = true
is_target put_target = true
is_target _ = false

abbrev pub whatever : Option Receiving → Option IbState
whatever none = none
whatever (some (receiving t)) = some t
whatever (some (refused t)) = some t

abbrev pub ops_of : IbRequest → Option ℕ
ops_of r = elim r.work.nnti_wr [ none ↦ none | some w ↦ some w.ops ]

-- The end of `NNTI_ib_wait` on the work request at `p`; `ops` is that of the buffer, `accepts` says what
-- becomes of a receive that is posted again.
unfoldable pub wait_cleanup : IbConfig → Bool → ℕ → ℕ → IbState → Option IbState
wait_cleanup cfg accepts ops p s0 =
    let r = s0.reqs p in
    let s = write p (record r { work = set_state wait_complete r.work }) s0 in
    if is_wr_complete r.work
    then (ops_of r >>= λ wr_ops.
        if wr_ops == bop_atomics
        then some (give_back cfg p (record s { wrmap = erase_wr r.key s.wrmap }))
        else if is_receiving r.work.last_op
        then some s
        else if is_target r.work.last_op
        then if cfg.use_rdma_target_ack
          then whatever (repost_ack_recv_work_request cfg accepts ops p s)
          else some s
        else some (
            give_back cfg p
              (record s { wr_queue = erase p s.wr_queue; wrmap = erase_wr r.key s.wrmap })))
    else some s0

unfoldable pub in_progress : WrState → Bool
in_progress started = true
in_progress posted = true
in_progress _ = false

-- `NNTI_ib_cancel`
unfoldable pub ib_cancel : ℕ → IbState → NntiResult × IbState
ib_cancel p s =
    let r = s.reqs p in
    if in_progress r.work.state
    then (ok, write p (record r { work = set_state canceling r.work }) s)
    else (einval, s)

-- `NNTI_ib_cancelall`: the last result that is not `NNTI_OK`, if any.
unfoldable pub ib_cancelall : List ℕ → IbState → NntiResult × IbState
ib_cancelall [] s = (ok, s)
ib_cancelall (p ∷ ps) s =
    let (rc, s1) = ib_cancel p s in
    let (rest, s2) = ib_cancelall ps s1 in
    ((if in_progress (s.reqs p).work.state then rest else einval), s2)

-- The first work request of a queue that no user's work request has taken.
unfoldable pub find_free : (ℕ → IbRequest) → List ℕ → Option ℕ
find_free reqs [] = none
find_free reqs (p ∷ ps) =
    let rest = find_free reqs ps in elim (reqs p).work.nnti_wr [ none ↦ some p | some _ ↦ rest ]

-- `NNTI_ib_create_work_request`
unfoldable pub ib_create_work_request : ℕ → IbState → Option (ℕ × IbState)
ib_create_work_request ops s = find_free s.reqs s.wr_queue >>= λ p.
    let r = s.reqs p in
    let w : IbWorkRequest = record r.work { nnti_wr = some (record { ops = ops; result = ok }) } in
    some (p, write p (record r { work = w }) s)

abbrev pub to_back : ℕ → IbState → IbState
to_back p s = enqueue p (record s { wr_queue = erase p s.wr_queue })

abbrev pub unbind : ℕ → IbState → IbState
unbind p s = let r = s.reqs p in write p (record r { work = record r.work { nnti_wr = none } }) s

-- `NNTI_ib_destroy_work_request`, where the user's work request has one of the transport: it is posted
-- again, at the end of the queue, where it has been waited for.
unfoldable pub ib_destroy_work_request : IbConfig → Bool → ℕ → ℕ → IbState → Option IbState
ib_destroy_work_request cfg accepts ops p s =
    let r = s.reqs p in
    if is_receiving r.work.last_op
    then elim r.work.state [
      | wait_complete ↦ whatever (repost_recv_work_request cfg accepts ops p s) >>= λ t.
          if mem p (erase p t.wr_queue) then none else some (unbind p (to_back p t))
      | _ ↦ some (unbind p s)
    ]
    else some s
