-- ===== src/Ib.antt =====
-- nnti/nnti_ib.cpp, the InfiniBand transport: its work requests and `process_event`; the children
-- have the pools of work requests and the exchange of messages over a TCP socket. A pointer to a
-- work request of a user is what it points to.
pub mod Transfer
pub mod Tcp
pub mod Exchange
pub mod Pool
pub mod Segments
pub mod Issue
pub mod Register
pub mod Status
mod Tests
use nnti.Base.{
  ℕ, ◌+◌, ◌-◌, ◌%◌, ◌^◌, Bool, true, false, not, ◌&&◌, ◌||◌, Option, none, some, ◌==◌,
  if◌then◌else◌,
}
use nnti.Types.{NntiResult, ok, eio, edropped}
use nnti.Mpi.State.{bop_atomics}

-- `nnti_ib_wr_state_t`
pub data WrState : Type 0 where
  reset posted started attached canceling rdma_complete ack_complete wait_complete error : WrState

-- The `IB_OP_` constants.
pub data IbOp : Type 0 where
  put_initiator get_initiator put_target get_target send_request send_buffer new_request : IbOp
  receive fetch_add compare_swap : IbOp
  other : ℕ → IbOp

-- What verbs say of a completion, as far as the code tells it apart.
pub data WcStatus : Type 0 where
  success rnr_retry_exc_err failure : WcStatus

pub data WcOpcode : Type 0 where
  send rdma_write rdma_read recv recv_rdma_with_imm : WcOpcode
  other_opcode : ℕ → WcOpcode

pub data WcFlags : Type 0 where
  no_flags with_imm : WcFlags
  other_flags : ℕ → WcFlags

-- `struct ibv_wc`
pub record Wc : Type 0 where
  pub status : WcStatus
  pub opcode : WcOpcode
  pub flags : WcFlags

-- The fields of `NNTI_work_request_t` that the transport uses here.
pub record NntiWr : Type 0 where
  pub ops : ℕ
  pub result : NntiResult

-- `ib_work_request`
pub record IbWorkRequest : Type 0 where
  pub nnti_wr : Option NntiWr
  pub state : WrState
  pub last_op : IbOp
  pub sq_wr_count : ℕ
  pub sq_wr_completed_count : ℕ
  pub cq : ℕ
  pub last_wc : Option Wc

-- The counts of `transport_global_data`, and its completion queues.
pub record Counts : Type 0 where
  pub req_cq : ℕ
  pub data_cq : ℕ
  pub req_received : ℕ
  pub req_srq_count : ℕ
  pub data_srq_count : ℕ

-- `ib_wr->nnti_wr->result=rc`
abbrev pub set_result : NntiResult → IbWorkRequest → Option IbWorkRequest
set_result rc w = elim w.nnti_wr [
  | none ↦ none
  | some user ↦ some (record w { nnti_wr = some (record user { result = rc }) })
]

abbrev pub set_state : WrState → IbWorkRequest → IbWorkRequest
set_state st w = record w { state = st }

abbrev pub is_started : WrState → Bool
is_started started = true
is_started _ = false

abbrev pub is_rdma_complete : WrState → Bool
is_rdma_complete rdma_complete = true
is_rdma_complete _ = false

-- `is_wr_complete`
unfoldable pub is_wr_complete : IbWorkRequest → Bool
is_wr_complete w = elim w.state [ rdma_complete ↦ true | wait_complete ↦ true | _ ↦ false ]

-- `is_wr_canceling`
unfoldable pub is_wr_canceling : IbWorkRequest → Bool
is_wr_canceling w = elim w.state [ canceling ↦ true | _ ↦ false ]

-- The completion of one of the descriptors of a transfer.
unfoldable pub count_completed : IbWorkRequest → IbWorkRequest
count_completed w =
    if is_started w.state
    then record w { sq_wr_completed_count = (w.sq_wr_completed_count + 1) % 2 ^ 32 }
    else w

-- The test whether all have completed; `ack` is `config.use_rdma_target_ack`.
unfoldable pub finish_transfer : Bool → IbWorkRequest → Option IbWorkRequest
finish_transfer ack w =
    if w.sq_wr_completed_count == w.sq_wr_count
    then (if ack
        then some (set_state rdma_complete w)
        else set_result NntiResult.ok (set_state rdma_complete w))
    else some w

-- The acknowledgement of a transfer that is complete.
unfoldable pub acknowledge : Bool → IbWorkRequest → Option IbWorkRequest
acknowledge ack w =
    if ack && is_rdma_complete w.state
    then set_result NntiResult.ok (set_state ack_complete w)
    else some w

abbrev pub done : IbWorkRequest → Option IbWorkRequest
done w = set_result NntiResult.ok (set_state rdma_complete w)

-- The cases of `process_event` that touch the work request only.
abbrev pub initiator_event : Bool → IbOp → Wc → IbWorkRequest → Option IbWorkRequest
initiator_event ack send_request wc w = elim wc.opcode [ send ↦ done w | _ ↦ some w ]
initiator_event ack send_buffer wc w = elim wc.opcode [ rdma_write ↦ done w | _ ↦ some w ]
initiator_event ack put_initiator wc w = elim wc.opcode [
  | rdma_write ↦ elim wc.flags [
    | no_flags ↦ finish_transfer ack (count_completed w)
    | with_imm ↦ acknowledge ack w
    | _ ↦ some w
  ]
  | _ ↦ some w
]
initiator_event ack get_initiator wc w = elim wc.opcode [
  | rdma_read ↦ elim wc.flags [ no_flags ↦ finish_transfer ack (count_completed w) | _ ↦ some w ]
  | rdma_write ↦ elim wc.flags [ with_imm ↦ acknowledge ack w | _ ↦ some w ]
  | _ ↦ some w
]
initiator_event ack _ wc w = some w

abbrev pub drop_one : ℕ → ℕ
drop_one n = (n + (2 ^ 32 - 1)) % 2 ^ 32

-- A request has been received.
abbrev pub request_received : IbWorkRequest → Counts → Counts
request_received w c = record c {
  req_received = (c.req_received + 1) % 2 ^ 32;
  req_srq_count = (if w.cq == c.req_cq then drop_one c.req_srq_count else c.req_srq_count);
}

-- Data or an acknowledgement has been received at a target.
abbrev pub data_received : IbWorkRequest → Counts → Counts
data_received w c = record c {
  data_srq_count = (if w.cq == c.data_cq then drop_one c.data_srq_count else c.data_srq_count);
}

abbrev pub target_event : Wc → IbWorkRequest → Counts → IbWorkRequest × Counts
target_event wc w c = elim wc.opcode [
  | recv_rdma_with_imm ↦ (set_state rdma_complete w, data_received w c)
  | _ ↦ (w, c)
]

abbrev pub with_counts :
    Counts → Option IbWorkRequest → Option (NntiResult × (IbWorkRequest × Counts))
with_counts c none = none
with_counts c (some w) = some (ok, (w, c))

-- The chain of tests on `last_op`, after a completion that succeeded.
abbrev pub success_event :
    Bool → IbOp → Wc → IbWorkRequest → Counts → Option (NntiResult × (IbWorkRequest × Counts))
success_event ack new_request wc w c = elim wc.opcode [
  | recv ↦ some (ok, (set_state rdma_complete w, request_received w c))
  | _ ↦ some (ok, (w, c))
]
success_event ack receive wc w c = some (ok, target_event wc w c)
success_event ack put_target wc w c = some (ok, target_event wc w c)
success_event ack get_target wc w c = some (ok, target_event wc w c)
success_event ack op wc w c = with_counts c (initiator_event ack op wc w)

-- A completion that failed: NULL is followed where the work request has no user's one.
abbrev pub failed_with :
    NntiResult → Counts → Option IbWorkRequest → Option (NntiResult × (IbWorkRequest × Counts))
failed_with rc c none = none
failed_with rc c (some w) = some (rc, (w, c))

abbrev pub by_status :
    Bool → WcStatus → Wc → IbWorkRequest → Counts → Option (NntiResult × (IbWorkRequest × Counts))
by_status ack rnr_retry_exc_err wc w c =
    failed_with edropped c (set_result edropped (set_state wait_complete w))
by_status ack failure wc w c = failed_with eio c (set_result eio (set_state wait_complete w))
by_status ack success wc w c = success_event ack w.last_op wc (record w { last_wc = some wc }) c

abbrev pub is_atomic : Option NntiWr → Bool
is_atomic none = false
is_atomic (some user) = user.ops == bop_atomics

-- `process_event`; `ack` is `config.use_rdma_target_ack`.
unfoldable pub process_event :
    Bool → Wc → IbWorkRequest → Counts → Option (NntiResult × (IbWorkRequest × Counts))
process_event ack wc w c =
    if is_atomic w.nnti_wr then with_counts c (done w) else by_status ack wc.status wc w c
