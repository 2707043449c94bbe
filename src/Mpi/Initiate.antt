-- ===== src/Mpi/Initiate.antt =====
-- nnti/nnti_mpi.cpp: the calls that start an operation at its initiator.
pub mod Operands
pub mod Rendezvous
pub mod Refused
use nnti.Base.{ℕ, ◌+◌, ◌%◌, ◌^◌, ◌&&◌, ◌||◌, Option, none, some, ◌∷◌, ◌++◌, ◌==◌, if◌then◌else◌}
use nnti.Types.{NntiResult, ok}
use nnti.Mpi.State.{
  put_initiator, get_initiator, put_target, get_target, send_request, rdma_write_init,
  rdma_read_init, rdma_cmd_index, send_index, get_recv_index, put_send_index, activate, Rank, own,
  MpiWorkRequest, calloc_wr, RdmaAddr, bop_local_read, bop_local_write, bop_recv_queue, TransportId,
  Buffer,
}
use nnti.Mpi.Machine.{
  enqueue, post_or_fail, wr_slot, bytes, command, bytes_region, issend, irecv, Env, M, pure, ◌>>=◌,
  ◌>>◌, assert_some, put_wr, new_wr, get_buffer, get_nnti_wr, put_nnti_wr,
}

-- What `NNTI_mpi_put` and `NNTI_mpi_get` read: the two buffers, with the handle of the local one
-- asserted, and the remote address of each as far as it is read.
abbrev pub get_segment : Buffer → M RdmaAddr
get_segment b = assert_some b.segment

-- `mpi_wr->request_ptr` and the flags of a request that has been started.
abbrev pub started : ℕ → ℕ → MpiWorkRequest → MpiWorkRequest
started first second w = record w {
  request_ptr = own first;
  request_count = 1;
  active_requests = activate second (activate first w.active_requests);
}

-- The end of a call that started: the user's work request `wr` is linked to the one at `p`, and `p`
-- joins the queue of the buffer `b`.
unfoldable pub link : ℕ → ℕ → MpiWorkRequest → ℕ → TransportId → ℕ → M NntiResult
link wr p w b transport_id ops = do
  put_wr p w
  user ← get_nnti_wr wr
  put_nnti_wr wr (record user {
    transport_id = transport_id;
    reg_buf = some b;
    ops = ops;
    transport_private = some p;
  })
  enqueue b p
  pure ok

-- The work request of a PUT, as `NNTI_mpi_put` fills it before its first send.
abbrev pub put_request : ℕ → Buffer → RdmaAddr → ℕ → ℕ → ℕ → ℕ → MpiWorkRequest
put_request src_hdl dest segment src_offset src_length dest_offset wr = record calloc_wr {
  nnti_wr = some wr;
  reg_buf = some src_hdl;
  peer = dest.buffer_owner;
  src_offset = src_offset;
  dst_offset = dest_offset;
  length = src_length;
  op_state = rdma_write_init;
  last_op = put_initiator;
  cmd_msg = record {
    offset = dest_offset;
    length = src_length;
    tag = segment.put_data_tag % 2 ^ 32;
    op = put_target;
  };
}

-- The sends of `NNTI_mpi_put`: the command, then the data. A tag and a
-- length are passed as an `int`, here and below: the bit pattern of 32 bits.
unfoldable pub put_posts : Env → ℕ → Buffer → Buffer → RdmaAddr → ℕ → ℕ → ℕ → ℕ → M NntiResult
put_posts env src_hdl src dest segment src_offset src_length dest_offset wr = do
  let w : MpiWorkRequest = put_request src_hdl dest segment src_offset src_length dest_offset wr
  p ← new_wr w
  post_or_fail env
      (issend dest.buffer_owner (segment.cmd_tag % 2 ^ 32) (command w.cmd_msg)
        (wr_slot p rdma_cmd_index))
      (post_or_fail env
        (issend dest.buffer_owner (segment.put_data_tag % 2 ^ 32)
          (bytes (src.payload + src_offset) (src_length % 2 ^ 32)) (wr_slot p put_send_index))
        (link wr p (started rdma_cmd_index put_send_index w) src_hdl src.transport_id
          bop_local_read))

-- `NNTI_mpi_put`
unfoldable pub put : Env → ℕ → ℕ → ℕ → ℕ → ℕ → ℕ → M NntiResult
put env src_hdl src_offset src_length dest_hdl dest_offset wr = do
  src ← get_buffer src_hdl
  dest ← get_buffer dest_hdl
  _ ← assert_some src.transport_private
  segment ← get_segment dest
  put_posts env src_hdl src dest segment src_offset src_length dest_offset wr

-- The work request of a GET.
abbrev pub get_request : Buffer → ℕ → RdmaAddr → ℕ → ℕ → ℕ → ℕ → MpiWorkRequest
get_request src dest_hdl segment src_offset src_length dest_offset wr = record calloc_wr {
  nnti_wr = some wr;
  reg_buf = some dest_hdl;
  peer = src.buffer_owner;
  src_offset = src_offset;
  dst_offset = dest_offset;
  length = src_length;
  op_state = rdma_read_init;
  last_op = get_initiator;
  cmd_msg = record {
    offset = src_offset;
    length = src_length;
    tag = segment.get_data_tag % 2 ^ 32;
    op = get_target;
  };
}

-- The receive of the data and the send of the command of `NNTI_mpi_get`.
unfoldable pub get_posts :
    Env → Buffer → ℕ → Buffer → RdmaAddr → RdmaAddr → ℕ → ℕ → ℕ → ℕ → M NntiResult
get_posts env src dest_hdl dest here there src_offset src_length dest_offset wr = do
  let w : MpiWorkRequest = get_request src dest_hdl here src_offset src_length dest_offset wr
  p ← new_wr w
  post_or_fail env
      (irecv src.buffer_owner (here.get_data_tag % 2 ^ 32)
        (bytes_region (dest.payload + dest_offset) (src_length % 2 ^ 32))
        (wr_slot p get_recv_index))
      (post_or_fail env
        (issend src.buffer_owner (there.cmd_tag % 2 ^ 32) (command w.cmd_msg)
          (wr_slot p rdma_cmd_index))
        (link wr p (started rdma_cmd_index get_recv_index w) dest_hdl dest.transport_id
          bop_local_write))

-- `NNTI_mpi_get`
unfoldable pub get : Env → ℕ → ℕ → ℕ → ℕ → ℕ → ℕ → M NntiResult
get env src_hdl src_offset src_length dest_hdl dest_offset wr = do
  dest ← get_buffer dest_hdl
  src ← get_buffer src_hdl
  _ ← assert_some dest.transport_private
  here ← get_segment dest
  there ← get_segment src
  get_posts env src dest_hdl dest here there src_offset src_length dest_offset wr

-- `NNTI_MPI_REQUEST_TAG`, `NNTI_MPI_ATOMICS_REQUEST_TAG`, `NNTI_MPI_ATOMICS_RESULT_TAG`
abbrev pub request_tag : ℕ
request_tag = 1

abbrev pub atomics_request_tag : ℕ
atomics_request_tag = 2

abbrev pub atomics_result_tag : ℕ
atomics_result_tag = 3

-- The branch of `NNTI_mpi_send` that sends to a request queue.
unfoldable pub send_queued : Env → ℕ → Buffer → Rank → ℕ → M NntiResult
unfolding link
send_queued env msg_hdl msg peer_rank wr = do
  _ ← assert_some msg.transport_private
  let w : MpiWorkRequest = record calloc_wr {
    nnti_wr = some wr;
    reg_buf = some msg_hdl;
    length = msg.payload_size;
    peer = peer_rank;
    last_op = send_request;
  }
  p ← new_wr w
  post_or_fail env
      (issend peer_rank request_tag (bytes msg.payload (msg.payload_size % 2 ^ 32))
        (wr_slot p send_index))
      (link wr p
        (record w {
          request_ptr = own send_index;
          request_count = 1;
          active_requests = activate send_index w.active_requests;
        })
        msg_hdl msg.transport_id bop_local_read)

-- The other branch: a PUT of the whole message, whose result is dropped.
unfoldable pub send_put : Env → ℕ → Buffer → ℕ → ℕ → M NntiResult
send_put env msg_hdl msg dest_hdl wr = do
  _ ← put env msg_hdl 0 msg.payload_size dest_hdl 0 wr
  pure ok

-- `NNTI_mpi_send`
unfoldable pub send : Env → Rank → ℕ → Option ℕ → ℕ → M NntiResult
send env peer_rank msg_hdl none wr = do
  msg ← get_buffer msg_hdl
  send_queued env msg_hdl msg peer_rank wr
send env peer_rank msg_hdl (some dest_hdl) wr = do
  msg ← get_buffer msg_hdl
  dest ← get_buffer dest_hdl
  if dest.ops == bop_recv_queue
      then send_queued env msg_hdl msg peer_rank wr
      else send_put env msg_hdl msg dest_hdl wr
