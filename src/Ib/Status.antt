-- ===== src/Ib/Status.antt =====
-- nnti/nnti_ib.cpp: the tests of completion on an array of work requests, and the status of a wait.
pub mod Agree
use nnti.Base.{
  ℕ, zero, suc, Bool, true, false, not, ◌&&◌, Option, none, some, List, [], ◌∷◌, ◌==◌,
  if◌then◌else◌,
}
use nnti.Types.{NntiResult, is_ok}
use nnti.Mpi.State.{bop_atomics}
use nnti.Ib

-- `is_any_wr_complete`, from index `i` on: `which`, if it returns TRUE. NULL is skipped.
unfoldable pub is_any_wr_complete : ℕ → List (Option Ib.IbWorkRequest) → Option ℕ
is_any_wr_complete i [] = none
is_any_wr_complete i (none ∷ ws) = is_any_wr_complete (suc i) ws
is_any_wr_complete i (some w ∷ ws) =
    let rest = is_any_wr_complete (suc i) ws in if Ib.is_wr_complete w then some i else rest

-- `is_all_wr_complete`
unfoldable pub is_all_wr_complete : List (Option Ib.IbWorkRequest) → Bool
is_all_wr_complete [] = true
is_all_wr_complete (none ∷ ws) = is_all_wr_complete ws
is_all_wr_complete (some w ∷ ws) =
    let rest = is_all_wr_complete ws in if not (Ib.is_wr_complete w) then false else rest

-- `NNTI_peer_t`; its URL is printed from the name and the port and is left out.
pub record IbPeer : Type 0 where
  pub name : List ℕ
  pub addr : ℕ
  pub port : ℕ

-- `listen_name`, `listen_addr` and `listen_port`, `config.use_rdma_target_ack`, and
-- `connections_by_qpn` with the peers of its connections.
pub record Network : Type 0 where
  pub me : IbPeer
  pub acks : Bool
  pub connections_by_qpn : List (ℕ × IbPeer)

-- What a status reads of a work request besides its state: `reg_buf->payload` where there is a
-- buffer, the last completion, its own place and that of its acknowledgement.
pub record Report : Type 0 where
  pub request : Ib.IbWorkRequest
  pub payload : Option ℕ
  pub qp_num : ℕ
  pub byte_len : ℕ
  pub offset : ℕ
  pub length : ℕ
  pub ack_offset : ℕ
  pub ack_length : ℕ

-- `NNTI_status_t`
pub record IbStatus : Type 0 where
  pub op : ℕ
  pub result : NntiResult
  pub start : ℕ
  pub offset : ℕ
  pub length : ℕ
  pub src : IbPeer
  pub dest : IbPeer

-- `get_conn_qpn`
unfoldable pub get_conn_qpn : ℕ → List (ℕ × IbPeer) → Option IbPeer
get_conn_qpn qpn [] = none
get_conn_qpn qpn ((q, c) ∷ cs) = let rest = get_conn_qpn qpn cs in if q == qpn then some c else rest

-- A connection is followed where a peer is created from it.
abbrev pub with_ends : (IbPeer → IbStatus → IbStatus) → Option IbPeer → IbStatus → Option IbStatus
with_ends ends none st = none
with_ends ends (some conn) st = some (ends conn st)

abbrev pub from_me : IbPeer → IbPeer → IbStatus → IbStatus
from_me me conn st = record st { src = me; dest = conn }

abbrev pub to_me : IbPeer → IbPeer → IbStatus → IbStatus
to_me me conn st = record st { src = conn; dest = me }

-- The first switch: the ends of the transfer.
unfoldable pub status_ends : Bool → IbPeer → Option IbPeer → Ib.IbOp → IbStatus → Option IbStatus
status_ends acks me conn op st = elim op [
  | Ib.IbOp.put_initiator ↦ with_ends (from_me me) conn st
  | Ib.IbOp.send_request ↦ with_ends (from_me me) conn st
  | Ib.IbOp.send_buffer ↦ with_ends (from_me me) conn st
  | Ib.IbOp.get_target ↦ if acks then with_ends (from_me me) conn st else some st
  | Ib.IbOp.get_initiator ↦ with_ends (to_me me) conn st
  | Ib.IbOp.new_request ↦ with_ends (to_me me) conn st
  | Ib.IbOp.receive ↦ with_ends (to_me me) conn st
  | Ib.IbOp.put_target ↦ if acks then with_ends (to_me me) conn st else some st
  | _ ↦ some st
]

-- The second switch: the place of the transfer in the buffer.
unfoldable pub status_place : Bool → Ib.IbOp → Report → IbStatus → IbStatus
status_place acks op r st = elim op [
  | Ib.IbOp.new_request ↦ record st { offset = r.offset; length = r.byte_len }
  | Ib.IbOp.send_request ↦ record st { offset = 0; length = r.byte_len }
  | Ib.IbOp.send_buffer ↦ record st { offset = 0; length = r.byte_len }
  | Ib.IbOp.receive ↦ record st { offset = 0; length = r.byte_len }
  | Ib.IbOp.get_initiator ↦ record st { offset = r.offset; length = r.length }
  | Ib.IbOp.put_initiator ↦ record st { offset = r.offset; length = r.length }
  | Ib.IbOp.get_target ↦
      if acks then record st { offset = r.ack_offset; length = r.ack_length } else st
  | Ib.IbOp.put_target ↦
      if acks then record st { offset = r.ack_offset; length = r.ack_length } else st
  | _ ↦ st
]

-- `status->start`: the buffer is followed but for atomic operations.
abbrev pub status_start : Option Ib.NntiWr → Option ℕ → IbStatus → Option IbStatus
status_start none payload st = none
status_start (some user) none st = if user.ops == bop_atomics then some st else none
status_start (some user) (some p) st =
    if user.ops == bop_atomics then some st else some (record st { start = p })

abbrev pub then_ends :
    (IbStatus → Option IbStatus) → (IbStatus → IbStatus) → Option IbStatus → Option IbStatus
then_ends ends place none = none
then_ends ends place (some st) = elim (ends st) [ none ↦ none | some st' ↦ some (place st') ]

-- `create_status`, on the status that the caller gave; `user` is `wr`.
unfoldable pub create_status :
    Network → Ib.NntiWr → Report → NntiResult → IbStatus → Option IbStatus
create_status net user r rc st =
    let result = (if Ib.is_wr_complete r.request then user.result else rc) in
    let st' : IbStatus = record st { op = user.ops; result = result } in
    if is_ok result
    then then_ends
        (status_ends net.acks net.me (get_conn_qpn r.qp_num net.connections_by_qpn)
          r.request.last_op)
        (status_place net.acks r.request.last_op r) (status_start r.request.nnti_wr r.payload st')
    else some st'
