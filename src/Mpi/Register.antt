-- ===== src/Mpi/Register.antt =====
-- nnti/nnti_mpi.cpp: registration of buffers, and the requests that wait for what peers send.
pub mod Targets
pub mod Unregister
use nnti.Base.{
  ℕ, zero, suc, ◌+◌, ◌*◌, ◌%◌, ◌^◌, Bool, true, false, ◌||◌, Option, none, some, List, [], ◌∷◌,
  ◌++◌, ◌==◌, if◌then◌else◌, mem, erase,
}
use nnti.Types.{NntiResult, ok}
use nnti.Threads.{nthread_counter_increment}
use nnti.Mpi.Event.{post_any}
use nnti.Mpi.Initiate.{request_tag}
use nnti.Mpi.State.{
  new_request, other, buffer_init, rdma_cmd_index, recv_index, activate, rank, any_source, own,
  queue_list, MpiWorkRequest, calloc_wr, MemoryHandle, bop_remote_read, bop_remote_write,
  bop_recv_queue, has_op, null_transport, mpi_transport, Buffer,
}
use nnti.Mpi.Machine.{
  RequestQueue, enqueue, wr_slot, queue_slot, slot_at, bytes_region, command_region, MpiCall, irecv,
  Env, M, pure, fault, ◌>>=◌, ◌>>◌, assert_some, get_wr, put_wr, new_wr, get_buffer, put_buffer,
  read,
}

-- `nthread_counter_increment(&transport_global_data.mbits)`
abbrev pub next_tag : Env → M ℕ
next_tag env s = some (
  (nthread_counter_increment env.locks s.mbits).0,
  record s { mbits = (nthread_counter_increment env.locks s.mbits).1 },
)

-- `insert_target_buffer`
abbrev pub insert_target : ℕ → List ℕ → List ℕ
insert_target b targets = if mem b targets then targets else targets ++ (b ∷ [])

abbrev pub insert_target_buffer : ℕ → M NntiResult
insert_target_buffer b s = some (ok, record s { target_buffers = insert_target b s.target_buffers })

-- `del_target_buffer`
abbrev pub del_target_buffer : ℕ → M ℕ
del_target_buffer b s = some (b, record s { target_buffers = erase b s.target_buffers })

-- `(ops & NNTI_BOP_REMOTE_READ) || (ops & NNTI_BOP_REMOTE_WRITE)`
abbrev pub is_remote : ℕ → Bool
is_remote ops = has_op ops bop_remote_read || has_op ops bop_remote_write

-- A target's work request, set to wait for a command if peers may use its buffer. The old request
-- of the slot, the operation and the command stay as they are.
abbrev pub armed : Bool → MpiWorkRequest → MpiWorkRequest
armed true w = record w {
  op_state = buffer_init;
  request_ptr = own rdma_cmd_index;
  request_count = 1;
  active_requests = activate rdma_cmd_index w.active_requests;
}
armed false w = record w { op_state = buffer_init; request_count = 0 }

-- The receive of a command; what MPI returns is not looked at.
abbrev pub command_receive : Bool → ℕ → MemoryHandle → Option MpiCall
command_receive true p h =
    some (irecv any_source (h.cmd_tag % 2 ^ 32) (command_region p) (wr_slot p rdma_cmd_index))
command_receive false p h = none

-- `post_rdma_target_work_request`
unfoldable pub post_rdma_target_work_request : Env → ℕ → M NntiResult
post_rdma_target_work_request env b = do
  x ← get_buffer b
  h ← assert_some x.transport_private
  p ← new_wr (armed (is_remote x.ops) (record calloc_wr { reg_buf = some b }))
  post_any env (command_receive (is_remote x.ops) p h)
  enqueue b p
  pure ok

-- `repost_rdma_target_work_request`
unfoldable pub repost_rdma_target_work_request : Env → ℕ → M NntiResult
repost_rdma_target_work_request env p = do
  w ← get_wr p
  b ← assert_some w.reg_buf
  x ← get_buffer b
  h ← assert_some x.transport_private
  put_wr p (armed (is_remote x.ops) w)
  post_any env (command_receive (is_remote x.ops) p h)
  enqueue b p
  pure ok

-- The receives of `post_recv_queue_work_request`, from slot `i` on, `n` of them. The offset is a
-- `uint32_t`.
unfoldable pub post_receives : Env → ℕ → ℕ → ℕ → ℕ → ℕ → M (Unit {0})
post_receives env payload length tag i zero = pure tt
post_receives env payload length tag i (suc n) = do
  post_any env (
      some (
        irecv any_source (tag % 2 ^ 32)
          (bytes_region (payload + i * length % 2 ^ 32) (length % 2 ^ 32)) (queue_slot i)))
  post_receives env payload length tag (i + 1) n

-- `post_recv_queue_work_request`, with the request queue's own list of handles. The operation is set
-- inside the loop.
unfoldable pub post_recv_queue_work_request : Env → ℕ → ℕ → ℕ → ℕ → M NntiResult
post_recv_queue_work_request env b tag length count = do
  x ← get_buffer b
  _ ← assert_some x.transport_private
  p ← new_wr (record calloc_wr {
    reg_buf = some b;
    length = length;
    tag = tag % 2 ^ 32;
    request_ptr = queue_list;
    request_count = count % 2 ^ 32;
    last_op = (if count == 0 then other 0 else new_request);
  })
  post_receives env x.payload length tag 0 count
  enqueue b p
  pure ok

-- `repost_recv_work_request`
unfoldable pub repost_recv_work_request : Env → ℕ → M NntiResult
repost_recv_work_request env p = do
  w ← get_wr p
  b ← assert_some w.reg_buf
  x ← get_buffer b
  _ ← assert_some x.transport_private
  put_wr p
      (record w { op_state = buffer_init; active_requests = activate recv_index w.active_requests })
  post_any env (
      some (
        irecv any_source w.tag
          (bytes_region (x.payload + w.request_index * w.length) (w.length % 2 ^ 32))
          (slot_at p w.request_ptr w.request_index)))
  enqueue b p
  pure ok

-- The handle and the descriptor of a buffer with the tags of a command, GET data and PUT data.
abbrev pub registered : ℕ → ℕ → ℕ → ℕ → ℕ → ℕ → ℕ → Buffer
registered me payload element_size ops cmd_tag get_data_tag put_data_tag = record {
  transport_id = mpi_transport;
  buffer_owner = rank me;
  segment = some (record {
    size = element_size % 2 ^ 32;
    cmd_tag = cmd_tag;
    get_data_tag = get_data_tag;
    put_data_tag = put_data_tag;
  });
  ops = ops;
  payload_size = element_size;
  payload = payload;
  transport_private = some (record {
    cmd_tag = cmd_tag;
    get_data_tag = get_data_tag;
    put_data_tag = put_data_tag;
    wr_queue = [];
  });
}

-- `NNTI_mpi_register_memory` of `num_elements` elements at `payload`, into the structure at `b`.
-- The `memset` of a request queue's memory is left out.
unfoldable pub register_queue : Env → ℕ → ℕ → ℕ → ℕ → ℕ → M NntiResult
register_queue env payload element_size num_elements ops b = do
  me ← read (λ s. s.me)
  put_buffer b (registered me payload element_size ops 0 0 request_tag)
  let q : RequestQueue = record {
    reg_buf = some b;
    req_queue = payload;
    req_size = element_size % 2 ^ 32;
    req_count = num_elements % 2 ^ 32;
    last_request_index = 0;
  }
  (λ s. some (tt, record s { req_queue = q }))
  _ ← post_recv_queue_work_request env b request_tag q.req_size q.req_count
  pure ok

-- The rest for other buffers, once their tags are drawn.
unfoldable pub register_tagged : Env → ℕ → Buffer → M NntiResult
register_tagged env b x = do
  put_buffer b x
  if is_remote x.ops
      then (post_rdma_target_work_request env b >>= λ _. insert_target_buffer b >>= λ _. pure ok)
      else pure ok

unfoldable pub register_rdma : Env → ℕ → ℕ → ℕ → ℕ → M NntiResult
register_rdma env payload element_size ops b = do
  me ← read (λ s. s.me)
  cmd_tag ← next_tag env
  get_data_tag ← next_tag env
  put_data_tag ← next_tag env
  register_tagged env b (registered me payload element_size ops cmd_tag get_data_tag put_data_tag)

-- The assertions of a registration: its memory, its sizes and its operations are not 0.
abbrev pub has_zero : ℕ → ℕ → ℕ → ℕ → Bool
has_zero payload element_size num_elements ops =
    payload == 0 || (element_size == 0 || (num_elements == 0 || ops == 0))

unfoldable pub register_memory : Env → ℕ → ℕ → ℕ → ℕ → ℕ → M NntiResult
register_memory env payload element_size num_elements ops b =
    if has_zero payload element_size num_elements ops
    then fault
    else if ops == bop_recv_queue
    then register_queue env payload element_size num_elements ops b
    else register_rdma env payload element_size ops b

-- `NNTI_mpi_unregister_memory`: the handle and the segments are freed, the work requests in the
-- queue are forgotten.
unfoldable pub unregister_memory : ℕ → M NntiResult
unregister_memory b = do
  x ← get_buffer b
  _ ← assert_some x.transport_private
  _ ← del_target_buffer b
  put_buffer b (record {
    transport_id = null_transport;
    buffer_owner = any_source;
    segment = none;
    ops = 0;
    payload_size = 0;
    payload = 0;
    transport_private = none;
  })
  pure ok
