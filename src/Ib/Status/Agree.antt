-- ===== src/Ib/Status/Agree.antt =====
-- What the two sides of a transfer of nnti/nnti_ib.cpp are told of it.
use mathlib.Core.Option
use nnti.Base.{ℕ, ◌≡◌, refl, Bool, true, false, some, ◌==◌}
use nnti.Types.{NntiResult, ok}
use nnti.Mpi.State.{bop_atomics}
use nnti.Ib
use nnti.Ib.Status.{
  IbPeer, Network, Report, IbStatus, get_conn_qpn, status_ends, status_place, then_ends,
  create_status,
}

-- A work request that is complete, with the result NNTI_OK for its user, and that has a buffer.
pub record IsTold (user : Ib.NntiWr) (r : Report) (start : ℕ) : Type 0 where
  pub complete : Ib.is_wr_complete r.request ≡ true
  pub linked : r.request.nnti_wr ≡ some user
  pub succeeded : user.result ≡ ok
  pub plain : (user.ops == bop_atomics) ≡ false
  pub buffer : r.payload ≡ some start

-- The initiator's operation and the target's.
pub data Sides : Ib.IbOp → Ib.IbOp → Type 0 where
  put : Sides Ib.IbOp.put_initiator Ib.IbOp.put_target
  get : Sides Ib.IbOp.get_initiator Ib.IbOp.get_target

-- The place of a transfer and its ends, the source first.
pub record Told : Type 0 where
  pub offset : ℕ
  pub length : ℕ
  pub src : IbPeer
  pub dest : IbPeer

abbrev pub told : IbStatus → Told
told st = record { offset = st.offset; length = st.length; src = st.src; dest = st.dest }

abbrev pub source : {i t : Ib.IbOp} → Sides i t → IbPeer → IbPeer → IbPeer
source put initiator target = initiator
source get initiator target = target

abbrev pub destination : {i t : Ib.IbOp} → Sides i t → IbPeer → IbPeer → IbPeer
destination put initiator target = target
destination get initiator target = initiator

told_status :
    (net : Network) (user : Ib.NntiWr) (r : Report) (start : ℕ) (rc : NntiResult) (st : IbStatus)
    → IsTold user r start
    → create_status net user r rc st
      ≡ then_ends
          (status_ends net.acks net.me
            (get_conn_qpn r.qp_num net.connections_by_qpn)
            r.request.last_op)
          (status_place net.acks r.request.last_op r)
          (some (record st { op = user.ops; result = ok; start = start }))
unfolding create_status
told_status net user r start rc st h =
    rw (h.complete, h.succeeded, h.linked, h.buffer, h.plain) refl

initiator_told :
    {i t : Ib.IbOp} (side : Sides i t) (acks : Bool) (me peer : IbPeer) (r : Report) (st : IbStatus)
    → Option.map told
        (then_ends (status_ends acks me (some peer) i) (status_place acks i r) (some st))
      ≡ some (record {
        offset = r.offset;
        length = r.length;
        src = source side me peer;
        dest = destination side me peer;
      })
unfolding status_ends status_place
initiator_told put acks me peer r st = refl
initiator_told get acks me peer r st = refl

target_told :
    {i t : Ib.IbOp} (side : Sides i t) (me peer : IbPeer) (r : Report) (st : IbStatus)
    → Option.map told
        (then_ends (status_ends true me (some peer) t) (status_place true t r) (some st))
      ≡ some (record {
        offset = r.ack_offset;
        length = r.ack_length;
        src = source side peer me;
        dest = destination side peer me;
      })
unfolding status_ends status_place
target_told put me peer r st = refl
target_told get me peer r st = refl

-- With acknowledgements, where a PUT or GET is complete on both sides with the result NNTI_OK and
-- the connections of the two lead to each other: both users are told of the same source and the same
-- destination, the initiator and the target for a PUT and the other way round for a GET. The user of
-- the initiator is told the offset and length of its work request, that of the target those that the
-- acknowledgement brought.
pub statuses_agree :
    (here there : Network) (user user' : Ib.NntiWr) (r r' : Report) (start start' : ℕ)
    (rc rc' : NntiResult) (st st' : IbStatus)
    → (side : Sides r.request.last_op r'.request.last_op) → there.acks ≡ true
    → IsTold user r start
    → IsTold user' r' start'
    → get_conn_qpn r.qp_num here.connections_by_qpn ≡ some there.me
    → get_conn_qpn r'.qp_num there.connections_by_qpn ≡ some here.me
    → (Option.map told (create_status here user r rc st)
        ≡ some (record {
          offset = r.offset;
          length = r.length;
          src = source side here.me there.me;
          dest = destination side here.me there.me;
        }))
      × (Option.map told (create_status there user' r' rc' st')
          ≡ some (record {
            offset = r'.ack_offset;
            length = r'.ack_length;
            src = source side here.me there.me;
            dest = destination side here.me there.me;
          }))
statuses_agree here there user user' r r' start start' rc rc' st st' side acks h h' conn conn' = (
  rw (told_status here user r start rc st h, conn)
      (initiator_told side here.acks here.me there.me r
        (record st { op = user.ops; result = ok; start = start })),
  rw (told_status there user' r' start' rc' st' h', conn', acks)
      (target_told side there.me here.me r'
        (record st' { op = user'.ops; result = ok; start = start' })),
)
