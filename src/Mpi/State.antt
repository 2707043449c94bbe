-- ===== src/Mpi/State.antt =====
-- nnti/nnti_mpi.cpp, lines 88 to 310: the constants and types of the transport, and of
-- nnti/Trios_nnti_xdr.x what it uses. A pointer is an address, a number; NULL is `none`. `uint64_t`
-- offsets and lengths are plain numbers, since the transport only copies them.
use nnti.Base.{ℕ, ◌%◌, ◌/◌, Bool, true, false, ◌&&◌, Option, none, List, ltb, ◌==◌, if◌then◌else◌}
use nnti.Types.{NntiResult}

-- The `MPI_OP_*` constants, in `uint8_t` fields. A byte of no name is `other`; so is 0, which
-- `calloc` leaves.
pub data MpiOp : Type 0 where
  put_initiator get_initiator put_target get_target send_request send_buffer new_request : MpiOp
  fetch_add compare_swap : MpiOp
  other : ℕ → MpiOp

-- `mpi_op_state_t`
pub data OpState : Type 0 where
  buffer_init send_complete recv_complete : OpState
  rdma_write_init rdma_rts_complete rdma_write_complete : OpState
  rdma_read_init rdma_rtr_complete rdma_read_complete : OpState

-- `mpi_command_msg`; `tag` is an `int32_t` as its bit pattern.
pub record CommandMsg : Type 0 where
  pub offset : ℕ
  pub length : ℕ
  pub tag : ℕ
  pub op : MpiOp

-- `mpi_atomic_op_t`, in a `uint8_t`
pub data AtomicOp : Type 0 where
  atomic_fetch_add atomic_cmp_and_swp : AtomicOp
  unknown : ℕ → AtomicOp

-- `mpi_atomic_request_msg`; an `int64_t` is its bit pattern.
pub record AtomicRequestMsg : Type 0 where
  pub compare_add : ℕ
  pub swap : ℕ
  pub index : ℕ
  pub op : AtomicOp

-- The slots of `request[MAX_INDEX]`.
abbrev pub rdma_cmd_index : ℕ
rdma_cmd_index = 0

abbrev pub send_index : ℕ
send_index = 1

abbrev pub get_recv_index : ℕ
get_recv_index = 2

abbrev pub get_send_index : ℕ
get_send_index = 3

abbrev pub put_recv_index : ℕ
put_recv_index = 4

abbrev pub put_send_index : ℕ
put_send_index = 5

abbrev pub recv_index : ℕ
recv_index = 6

abbrev pub atomics_send_index : ℕ
atomics_send_index = 7

abbrev pub atomics_recv_index : ℕ
atomics_recv_index = 8

-- `active_requests`, a `uint8_t`, by its bits. The constant `X_REQUEST_ACTIVE` is `1 << X_INDEX`, so
-- a flag is given by its index, and one beyond the eighth bit does not fit.
abbrev pub Flags : Type 0
Flags = ℕ → Bool

abbrev pub no_flags : Flags
no_flags i = false

-- `active_requests |= 1 << index`
abbrev pub activate : ℕ → Flags → Flags
activate index f i = if i == index && ltb index 8 then true else f i

-- `active_requests &= ~(1 << index)`
abbrev pub deactivate : ℕ → Flags → Flags
deactivate index f i = if i == index then false else f i

-- An MPI rank, or the library's `MPI_ANY_SOURCE`.
pub data Rank : Type 0 where
  rank : ℕ → Rank
  any_source : Rank

-- What the code reads of an `MPI_Status`.
pub record MpiStatus : Type 0 where
  pub source : ℕ
  pub tag : ℕ

abbrev pub zero_status : MpiStatus
zero_status = record { source = 0; tag = 0 }

-- `request_ptr`: NULL, a slot of the work request's own array, or the request queue's list.
pub data RequestPtr : Type 0 where
  null_ptr : RequestPtr
  own : ℕ → RequestPtr
  queue_list : RequestPtr

-- `mpi_work_request`, less its `MPI_Request` handles, which MPI owns, and `is_last_op_complete`,
-- which nothing uses.
pub record MpiWorkRequest : Type 0 where
  pub nnti_wr : Option ℕ
  pub reg_buf : Option ℕ
  pub peer : Rank
  pub src_offset : ℕ
  pub dst_offset : ℕ
  pub length : ℕ
  pub tag : ℕ
  pub request_ptr : RequestPtr
  pub request_count : ℕ
  pub request_index : ℕ
  pub active_requests : Flags
  pub cmd_msg : CommandMsg
  pub atomics_result_index : ℕ
  pub op_state : OpState
  pub last_event : MpiStatus
  pub last_op : MpiOp

abbrev pub zero_cmd : CommandMsg
zero_cmd = record { offset = 0; length = 0; tag = 0; op = other 0 }

-- `calloc(1, sizeof(mpi_work_request))`
abbrev pub calloc_wr : MpiWorkRequest
calloc_wr = record {
  nnti_wr = none;
  reg_buf = none;
  peer = rank 0;
  src_offset = 0;
  dst_offset = 0;
  length = 0;
  tag = 0;
  request_ptr = null_ptr;
  request_count = 0;
  request_index = 0;
  active_requests = no_flags;
  cmd_msg = zero_cmd;
  atomics_result_index = 0;
  op_state = buffer_init;
  last_event = zero_status;
  last_op = other 0;
}

-- `mpi_memory_handle`, less its lock
pub record MemoryHandle : Type 0 where
  pub cmd_tag : ℕ
  pub get_data_tag : ℕ
  pub put_data_tag : ℕ
  pub wr_queue : List ℕ

-- `NNTI_mpi_rdma_addr_t`, the one segment of a buffer
pub record RdmaAddr : Type 0 where
  pub size : ℕ
  pub cmd_tag : ℕ
  pub get_data_tag : ℕ
  pub put_data_tag : ℕ

-- `NNTI_buf_ops_t`
abbrev pub bop_local_read : ℕ
bop_local_read = 1

abbrev pub bop_remote_read : ℕ
bop_remote_read = 2

abbrev pub bop_local_write : ℕ
bop_local_write = 4

abbrev pub bop_remote_write : ℕ
bop_remote_write = 8

abbrev pub bop_with_events : ℕ
bop_with_events = 16

abbrev pub bop_recv_queue : ℕ
bop_recv_queue = 64

abbrev pub bop_atomics : ℕ
bop_atomics = 128

-- `ops & flag` as a test, for a flag that is a power of 2.
abbrev pub has_op : ℕ → ℕ → Bool
has_op ops flag = (ops / flag) % 2 == 1

-- `NNTI_transport_id_t`, as far as the transport names it
pub data TransportId : Type 0 where
  null_transport mpi_transport : TransportId

-- `NNTI_buffer_t`; `transport_private` is its memory handle, `segment` its one remote address.
pub record Buffer : Type 0 where
  pub transport_id : TransportId
  pub buffer_owner : Rank
  pub segment : Option RdmaAddr
  pub ops : ℕ
  pub payload_size : ℕ
  pub payload : ℕ
  pub transport_private : Option MemoryHandle

-- `NNTI_work_request_t`; `transport_private` points to the `mpi_work_request`.
pub record WorkRequest : Type 0 where
  pub transport_id : TransportId
  pub reg_buf : Option ℕ
  pub ops : ℕ
  pub result : NntiResult
  pub transport_private : Option ℕ

-- `NNTI_status_t`; a peer is given by its rank.
pub record Status : Type 0 where
  pub op : ℕ
  pub result : NntiResult
  pub start : ℕ
  pub offset : ℕ
  pub length : ℕ
  pub src : ℕ
  pub dest : ℕ
