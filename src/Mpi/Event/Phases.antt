-- ===== src/Mpi/Event/Phases.antt =====
-- The course of a work request: which of its requests still have to complete, in which order.
use nnti.Base.{ℕ, ◌≡◌, ◌≢◌, ◌↔◌, true, Option, none, some, List, [], ◌∷◌, mem, arith}
use nnti.Mpi.State.{
  MpiOp, put_initiator, get_initiator, put_target, get_target, send_request, send_buffer, OpState,
  buffer_init, send_complete, rdma_write_init, rdma_rts_complete, rdma_write_complete,
  rdma_read_init, rdma_rtr_complete, rdma_read_complete, rdma_cmd_index, send_index, get_recv_index,
  get_send_index, put_recv_index, put_send_index, own, MpiWorkRequest,
}
use nnti.Mpi.Event.{data_event, is_complete}

-- The requests of a work request that still have to complete, first to last; `none` for a state
-- that the operation never reaches.
abbrev pub legs : MpiOp → OpState → Option (List ℕ)
legs put_initiator rdma_write_init = some (rdma_cmd_index ∷ put_send_index ∷ [])
legs put_initiator rdma_rts_complete = some (put_send_index ∷ [])
legs put_initiator rdma_write_complete = some []
legs get_initiator rdma_read_init = some (rdma_cmd_index ∷ get_recv_index ∷ [])
legs get_initiator rdma_rtr_complete = some (get_recv_index ∷ [])
legs get_initiator rdma_read_complete = some []
legs put_target buffer_init = some (rdma_cmd_index ∷ put_recv_index ∷ [])
legs put_target rdma_rts_complete = some (put_recv_index ∷ [])
legs put_target rdma_write_complete = some []
legs get_target buffer_init = some (rdma_cmd_index ∷ get_send_index ∷ [])
legs get_target rdma_rtr_complete = some (get_send_index ∷ [])
legs get_target rdma_read_complete = some []
legs send_request buffer_init = some (send_index ∷ [])
legs send_request send_complete = some []
legs send_buffer buffer_init = some (send_index ∷ [])
legs send_buffer send_complete = some []
legs _ _ = none

-- The requests that are under way: an initiator starts all of them at once, a target starts the
-- second when the first has completed.
abbrev pub under_way : MpiOp → OpState → List ℕ → List ℕ
under_way put_target buffer_init l = rdma_cmd_index ∷ []
under_way get_target buffer_init l = rdma_cmd_index ∷ []
under_way _ _ l = l

abbrev pub first : List ℕ → Option ℕ
first [] = none
first (i ∷ l) = some i

-- The work request waits for the first of `l`, and its flags are those of what is under way.
pub record IsReady (l : List ℕ) (w : MpiWorkRequest) : Type 0 where
  pub on_course : legs w.last_op w.op_state ≡ some l
  pub waits : (i : ℕ) → first l ≡ some i → (w.request_ptr ≡ own i) × (w.request_count ≡ 1)
  pub flags : (i : ℕ) → w.active_requests i ≡ mem i (under_way w.last_op w.op_state l)

-- The test for completion holds exactly when nothing is left to complete.
pub is_complete-legs :
    (op : MpiOp) (st : OpState) (l : List ℕ)
    → legs op st ≡ some l
    → (is_complete op st ≡ true) ↔ (l ≡ [])
is_complete-legs put_initiator st l h = ground arith
is_complete-legs _ st l h = ground arith

pub data_event-IsReady :
    (op : MpiOp) (st : OpState) (i : ℕ) (l : List ℕ) (w : MpiWorkRequest)
    → w.last_op ≡ op
    → w.op_state ≡ st
    → IsReady (i ∷ l) w
    → IsReady l (data_event w.last_op w)
data_event-IsReady put_initiator rdma_write_init i l w eo es r = record {
  on_course = ground arith;
  waits = λ k h. ground arith;
  flags = λ k. ground (arith, r.flags k);
}
data_event-IsReady _ _ i l w eo es r = record {
  on_course = ground arith;
  waits = λ k h. ground arith;
  flags = λ k. ground (arith, r.flags k);
}

-- An event leaves the user's request, the buffer and the command of a work request alone.
pub data_event-keeps :
    (op : MpiOp) (st : OpState) (w : MpiWorkRequest)
    → w.op_state ≡ st
    → ((data_event op w).nnti_wr ≡ w.nnti_wr)
      × ((data_event op w).reg_buf ≡ w.reg_buf)
      × ((data_event op w).last_op ≡ w.last_op)
data_event-keeps put_initiator st w e = ground arith
data_event-keeps _ st w e = ground arith

-- Once an event has completed a leg, the request is not in its first state any more.
pub data_event-ne_init :
    (op : MpiOp) (st : OpState) (i : ℕ) (l : List ℕ) (w : MpiWorkRequest)
    → w.last_op ≡ op
    → w.op_state ≡ st
    → legs op st ≡ some (i ∷ l)
    → (data_event op w).op_state ≢ buffer_init
data_event-ne_init put_initiator rdma_write_init i l w eo es h = ground arith
data_event-ne_init _ _ i l w eo es h = ground arith
