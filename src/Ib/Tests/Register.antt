-- ===== src/Ib/Tests/Register.antt =====
-- The theorems on the registration of segments at inputs.
use mathlib.Core.Option
use nnti.Base.{◌≡◌, refl, true, false, none, some, List, [], ◌∷◌, ◌==◌, ◌^◌, ◌+◌, if◌then◌else◌}
use nnti.Types.{einval}
use nnti.Ib.Segments.{Sge, hash6432shift}
use nnti.Ib.Pool.{idle, wr_pool_rdma_pop}
use nnti.Ib.Issue.{IbConfig, IbState, calloc_wr}
use nnti.Ib.Issue.Receive.{post_ack_recv_work_request}
use nnti.Ib.Register.{
  IbBuffer, Registry, UserSegment, ◌>>=◌, array, ib_register_segments, match_segments, look_up,
  get_buf_bufhash, set_up_segments, post_ack, insert_buf_bufhash,
}
use nnti.Ib.Register.Registered.{Verbs, registers}

abbrev verbs : Verbs
verbs = record {
  mr = λ u. record { addr = u.0; length = u.1; lkey = 7; rkey = 9 };
  addr_eq = λ u. refl;
  length_eq = λ u. refl;
}

abbrev config : IbConfig
config = record { use_wr_pool = true; use_rdma_target_ack = false; srq_count = 8 }

abbrev ack : Sge
ack = record { addr = 600; length = 32; lkey = 7 }

abbrev io : IbState
io = record {
  pools = record { rdma_wr_pool = []; sendrecv_wr_pool = 1 ∷ []; wrs = λ _. idle; next_wr = 2 };
  counter = 5;
  wrmap = [];
  wr_queue = [];
  reqs = λ _. calloc_wr;
  counts = record {
    req_cq = 1;
    data_cq = 2;
    req_received = 0;
    req_srq_count = 0;
    data_srq_count = 0;
  };
}

-- Another buffer is registered, at the hash of its first segment.
abbrev other : IbBuffer
other = record {
  ops = 4;
  payload_size = 5;
  payload = 900;
  handle = some 1;
  segments = array (record { buf = 900; size = 5; key = 9 } ∷ []);
}

abbrev registry : Registry
registry = record {
  buffers = λ a. if a == 40 then some other else none;
  bufhash = (hash6432shift 900, 40) ∷ [];
  handles = λ _. record { mr_list = verbs.mr (900, 5) ∷ []; wr_queue = []; ref_count = 1 };
  next_handle = 2;
  io = io;
}

abbrev user : List UserSegment
user = (100, 8) ∷ (300, 16) ∷ []

-- Segments of another length than those that are registered are refused.
other_length :
    Option.map
      (λ r. r.0)
      (ib_register_segments config true ack (registers verbs) 4 50 ((900, 6) ∷ []) registry)
    ≡ some einval
unfolding ib_register_segments match_segments look_up get_buf_bufhash set_up_segments hash6432shift
other_length = refl

-- Segments of 2^32 bytes and more are not known again: their size was cut to 32 bits.
long_segment :
    (ib_register_segments config true ack (registers verbs) 4 50 ((100, 2 ^ 32 + 8) ∷ []) registry
      >>= λ (_, t).
          Option.map
            (λ r. r.0)
            (ib_register_segments config true ack
              (registers verbs)
              4
              60
              ((100, 2 ^ 32 + 8) ∷ [])
              t))
    ≡ some einval
unfolding ib_register_segments match_segments look_up get_buf_bufhash set_up_segments hash6432shift
    post_ack insert_buf_bufhash
long_segment = refl

-- With acknowledgements, the pool has no work request for the receive that registration posts.
no_receive :
    ib_register_segments
      (record config { use_rdma_target_ack = true })
      true
      ack
      (registers verbs)
      8
      50
      user
      registry
    ≡ none
unfolding ib_register_segments look_up get_buf_bufhash set_up_segments hash6432shift post_ack
    post_ack_recv_work_request wr_pool_rdma_pop
no_receive = refl
