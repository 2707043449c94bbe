-- ===== src/Mpi/Event.antt =====
-- nnti/nnti_mpi.cpp: `process_event`, which moves a work request on when MPI reports that one of its
-- requests completed, and the test whether a work request is complete.
pub mod Phases
pub mod Memory
pub mod Course
use nnti.Base.{
  ℕ, ◌+◌, ◌*◌, ◌%◌, ◌^◌, Bool, true, false, ◌&&◌, Option, none, some, ◌∷◌, get_elem?, set, ◌==◌,
  if◌then◌else◌,
}
use nnti.Types.{NntiResult, ok}
use nnti.Mpi.State.{
  MpiOp, put_initiator, get_initiator, put_target, get_target, send_request, send_buffer,
  new_request, fetch_add, compare_swap, OpState, buffer_init, send_complete, recv_complete,
  rdma_write_init, rdma_rts_complete, rdma_write_complete, rdma_read_init, rdma_rtr_complete,
  rdma_read_complete, rdma_cmd_index, send_index, get_recv_index, get_send_index, put_recv_index,
  put_send_index, atomics_send_index, atomics_recv_index, activate, deactivate, rank, MpiStatus,
  own, MpiWorkRequest, MemoryHandle, bop_atomics, Buffer, WorkRequest,
}
use nnti.Mpi.Machine.{
  wr_slot, bytes, result, bytes_region, MpiCall, issend, irecv, Env, Atomic, M, pure, fault, ◌>>=◌,
  ◌>>◌, assert_some, get_wr, put_wr, get_buffer, get_nnti_wr, put_nnti_wr, read, post,
}

-- The cases of `process_event` on `op_state`, one function for each `last_op`: what they write to
-- the work request.
abbrev send_event : OpState → MpiWorkRequest → MpiWorkRequest
send_event buffer_init w = record w {
  op_state = send_complete;
  active_requests = deactivate send_index w.active_requests;
}
send_event _ w = w

abbrev new_request_event : OpState → MpiWorkRequest → MpiWorkRequest
new_request_event buffer_init w = record w {
  op_state = recv_complete;
  dst_offset = w.request_index * w.length;
}
new_request_event _ w = w

abbrev put_initiator_event : OpState → MpiWorkRequest → MpiWorkRequest
put_initiator_event rdma_write_init w = record w {
  op_state = rdma_rts_complete;
  active_requests = deactivate rdma_cmd_index w.active_requests;
  request_ptr = own put_send_index;
  request_count = 1;
}
put_initiator_event rdma_rts_complete w = record w {
  op_state = rdma_write_complete;
  active_requests = deactivate put_send_index w.active_requests;
}
put_initiator_event _ w = w

abbrev put_target_event : OpState → MpiWorkRequest → MpiWorkRequest
put_target_event buffer_init w = record w {
  op_state = rdma_rts_complete;
  active_requests = activate put_recv_index (deactivate rdma_cmd_index w.active_requests);
  request_ptr = own put_recv_index;
  request_count = 1;
  dst_offset = w.cmd_msg.offset;
  length = w.cmd_msg.length;
}
put_target_event rdma_rts_complete w = record w {
  op_state = rdma_write_complete;
  active_requests = deactivate put_recv_index w.active_requests;
}
put_target_event _ w = w

abbrev get_initiator_event : OpState → MpiWorkRequest → MpiWorkRequest
get_initiator_event rdma_read_init w = record w {
  op_state = rdma_rtr_complete;
  active_requests = deactivate rdma_cmd_index w.active_requests;
  request_ptr = own get_recv_index;
  request_count = 1;
}
get_initiator_event rdma_rtr_complete w = record w {
  op_state = rdma_read_complete;
  active_requests = deactivate get_recv_index w.active_requests;
}
get_initiator_event _ w = w

abbrev get_target_event : OpState → MpiWorkRequest → MpiWorkRequest
get_target_event buffer_init w = record w {
  op_state = rdma_rtr_complete;
  active_requests = activate get_send_index (deactivate rdma_cmd_index w.active_requests);
  request_ptr = own get_send_index;
  request_count = 1;
  src_offset = w.cmd_msg.offset;
  length = w.cmd_msg.length;
}
get_target_event rdma_rtr_complete w = record w {
  op_state = rdma_read_complete;
  active_requests = deactivate get_send_index w.active_requests;
}
get_target_event _ w = w

-- The chain of tests on `last_op`; an unrecognised one is only logged.
abbrev pub data_event : MpiOp → MpiWorkRequest → MpiWorkRequest
data_event send_request w = send_event w.op_state w
data_event send_buffer w = send_event w.op_state w
data_event new_request w = new_request_event w.op_state w
data_event put_initiator w = put_initiator_event w.op_state w
data_event put_target w = put_target_event w.op_state w
data_event get_initiator w = get_initiator_event w.op_state w
data_event get_target w = get_target_event w.op_state w
data_event _ w = w

-- The transfer that a target starts when a command has arrived, for the work request at `p`: a
-- receive into its buffer for PUT, a send from it for GET. Tags and lengths are passed as
-- `int`.
abbrev pub follow_up :
    MpiOp → OpState → ℕ → MpiWorkRequest → Buffer → MemoryHandle → MpiStatus → Option MpiCall
follow_up put_target buffer_init p w b h event = some (
    irecv (rank event.source) (h.put_data_tag % 2 ^ 32)
      (bytes_region (b.payload + w.cmd_msg.offset) (w.cmd_msg.length % 2 ^ 32))
      (wr_slot p put_recv_index))
follow_up get_target buffer_init p w b h event = some (
    issend (rank event.source) w.cmd_msg.tag
      (bytes (b.payload + w.cmd_msg.offset) (w.cmd_msg.length % 2 ^ 32)) (wr_slot p get_send_index))
follow_up _ _ p w b h event = none

-- A call whose result the code does not look at.
abbrev pub post_any : Env → Option MpiCall → M (Unit {0})
post_any env none = pure tt
post_any env (some c) = do _ ← post env c; pure tt

-- A command message names the operation that the remote initiator performs.
abbrev pub learn_op : OpState → Bool → MpiWorkRequest → MpiWorkRequest
learn_op buffer_init true w = record w { last_op = w.cmd_msg.op }
learn_op _ _ w = w

-- The states of an atomic operation at its initiator.
abbrev pub atomic_event : OpState → MpiWorkRequest → MpiWorkRequest
atomic_event buffer_init w = record w {
  op_state = send_complete;
  active_requests = deactivate atomics_send_index w.active_requests;
  request_ptr = own atomics_recv_index;
  request_count = 1;
}
atomic_event send_complete w = record w {
  op_state = recv_complete;
  active_requests = deactivate atomics_recv_index w.active_requests;
}
atomic_event _ w = w

-- A read or write of an atomic variable under its lock.
abbrev pub get_atomic : ℕ → M Atomic
get_atomic i = do
  all ← read (λ s. s.atomics)
  a ← assert_some (get_elem? all i)
  if a.locked then fault else pure a

abbrev pub put_atomic : ℕ → Atomic → M (Unit {0})
put_atomic i a s = some (tt, record s { atomics = set s.atomics i a })

-- The part of `process_event` for work requests of atomic operations, at their `nnti_wr`.
unfoldable pub process_atomic : ℕ → ℕ → WorkRequest → MpiWorkRequest → M NntiResult
process_atomic p n nw w = do
  put_wr p (atomic_event w.op_state w)
  a ← get_atomic w.atomics_result_index
  r ← read (λ s. s.atomics_result_msg)
  put_atomic w.atomics_result_index (record a { value = r })
  put_nnti_wr n (record nw { result = ok })
  pure ok

-- A buffer and its handle, both asserted.
abbrev pub get_backing : Option ℕ → M (Buffer × MemoryHandle)
get_backing reg_buf = do
  r ← assert_some reg_buf
  b ← get_buffer r
  h ← assert_some b.transport_private
  pure (b, h)

-- The rest of `process_event`, for the work request at `p`.
unfoldable pub process_data :
    Env → ℕ → MpiStatus → MpiWorkRequest → Buffer × MemoryHandle → M NntiResult
process_data env p event w (b, h) = do
  let w' : MpiWorkRequest = learn_op w.op_state (event.tag == h.cmd_tag) w
  put_wr p (data_event w'.last_op w')
  post_any env (follow_up w'.last_op w'.op_state p w' b h event)
  pure ok

-- `mpi_wr->nnti_wr`, where it is not NULL
abbrev pub nnti_wr_of : Option ℕ → M (Option (ℕ × WorkRequest))
nnti_wr_of none = pure none
nnti_wr_of (some n) = do nw ← get_nnti_wr n; pure (some (n, nw))

abbrev pub process_either :
    Env → ℕ → MpiStatus → MpiWorkRequest → Option (ℕ × WorkRequest) → M NntiResult
process_either env p event w none = get_backing w.reg_buf >>= process_data env p event w
process_either env p event w (some (n, nw)) =
    if nw.ops == bop_atomics
    then process_atomic p n nw w
    else get_backing w.reg_buf >>= process_data env p event w

unfoldable pub process_wr : Env → ℕ → MpiStatus → MpiWorkRequest → M NntiResult
process_wr env p event w = do
  put_wr p w
  user ← nnti_wr_of w.nnti_wr
  process_either env p event w user

-- `process_event`
unfoldable pub process_event : Env → ℕ → MpiStatus → M NntiResult
process_event env p event =
    get_wr p >>= λ w. process_wr env p event (record w { last_event = event })

-- `is_wr_complete`
abbrev pub is_complete : MpiOp → OpState → Bool
is_complete put_initiator rdma_write_complete = true
is_complete get_initiator rdma_read_complete = true
is_complete put_target rdma_write_complete = true
is_complete get_target rdma_read_complete = true
is_complete send_request send_complete = true
is_complete send_buffer send_complete = true
is_complete new_request recv_complete = true
is_complete fetch_add recv_complete = true
is_complete compare_swap recv_complete = true
is_complete _ _ = false

abbrev pub is_wr_complete : MpiWorkRequest → Bool
is_wr_complete w = is_complete w.last_op w.op_state
