-- ===== src/Ib/Tests/Status.antt =====
-- The theorem on the status of a wait at an input, and runs of the tests of completion.
use mathlib.Core.Option
use nnti.Base.{◌≡◌, refl, true, none, some, [], ◌∷◌}
use nnti.Types.{ok, eio}
use nnti.Ib
use nnti.Ib.Status.{
  IbPeer, Network, Report, IbStatus, create_status, get_conn_qpn, is_all_wr_complete,
  is_any_wr_complete,
}
use nnti.Ib.Status.Agree.{put, told, statuses_agree}

abbrev left_peer : IbPeer
left_peer = record { name = 97 ∷ []; addr = 1; port = 10 }

abbrev right_peer : IbPeer
right_peer = record { name = 98 ∷ []; addr = 2; port = 20 }

abbrev left : Network
left = record {
  me = left_peer;
  acks = true;
  connections_by_qpn = (3, left_peer) ∷ (5, right_peer) ∷ [];
}

abbrev right : Network
right = record { me = right_peer; acks = true; connections_by_qpn = (6, left_peer) ∷ [] }

abbrev user : Ib.NntiWr
user = record { ops = 4; result = ok }

abbrev work : Ib.IbOp → Ib.WrState → Ib.IbWorkRequest
work op state = record {
  nnti_wr = some user;
  state = state;
  last_op = op;
  sq_wr_count = 1;
  sq_wr_completed_count = 1;
  cq = 1;
  last_wc = none;
}

abbrev initiator : Report
initiator = record {
  request = work Ib.IbOp.put_initiator Ib.WrState.rdma_complete;
  payload = some 100;
  qp_num = 5;
  byte_len = 0;
  offset = 7;
  length = 16;
  ack_offset = 90;
  ack_length = 16;
}

abbrev target : Report
target = record {
  request = work Ib.IbOp.put_target Ib.WrState.rdma_complete;
  payload = some 300;
  qp_num = 6;
  byte_len = 24;
  offset = 0;
  length = 0;
  ack_offset = 90;
  ack_length = 16;
}

abbrev before : IbStatus
before = record {
  op = 0;
  result = eio;
  start = 0;
  offset = 0;
  length = 0;
  src = left_peer;
  dest = left_peer;
}

statuses_agree_example :
    (Option.map told (create_status left user initiator eio before)
      ≡ some (record { offset = 7; length = 16; src = left_peer; dest = right_peer }))
    × (Option.map told (create_status right user target eio before)
        ≡ some (record { offset = 90; length = 16; src = left_peer; dest = right_peer }))
unfolding get_conn_qpn Ib.is_wr_complete
statuses_agree_example =
    statuses_agree left right user user initiator target 100 300 eio eio before before put refl
      (record { complete = refl; linked = refl; succeeded = refl; plain = refl; buffer = refl })
      (record { complete = refl; linked = refl; succeeded = refl; plain = refl; buffer = refl })
      refl refl

-- NULL is skipped: it neither ends a wait for any nor holds up a wait for all.
second_complete :
    is_any_wr_complete 0 (
      none
      ∷ some (work Ib.IbOp.receive Ib.WrState.posted)
      ∷ some (work Ib.IbOp.receive Ib.WrState.wait_complete)
      ∷ [])
    ≡ some 2
unfolding is_any_wr_complete Ib.is_wr_complete
second_complete = refl

all_complete :
    is_all_wr_complete (none ∷ some (work Ib.IbOp.receive Ib.WrState.wait_complete) ∷ []) ≡ true
unfolding is_all_wr_complete Ib.is_wr_complete
all_complete = refl
