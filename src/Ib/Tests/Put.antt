-- ===== src/Ib/Tests/Put.antt =====
-- The theorems on the transfers of the InfiniBand transport at inputs, and runs of what they leave out.
use nnti.Base.{
  ℕ, zero, suc, ◌≡◌, refl, true, false, Option, none, some, List, [], ◌∷◌, length, inl, arith,
}
use nnti.Types.{NntiResult, ok}
use nnti.Ib.{IbWorkRequest, rdma_complete, put_initiator, is_wr_complete}
use nnti.Ib.Pool.{idle, wr_pool_sendrecv_pop}
use nnti.Ib.Segments.{
  Segment, Mr, Local, Stray, SendWr, put_many, params, find_first, find_last, next, skip,
  advance_src, advance_dst, fill_wrs, wr_length, put_wr,
}
use nnti.Ib.Segments.Bytes.{bytes, gathered}
use nnti.Ib.Segments.Loops.{AreNarrow}
use nnti.Ib.Segments.Copies.{segments_of}
use nnti.Ib.Segments.Gather.{find_local, sge_list, sge_loop}
use nnti.Ib.Segments.Gathered.{sge_list-bytes}
use nnti.Ib.Issue.{
  IbConfig, IbState, Posted, calloc_wr, ib_put, lookup_wr, insert_wr, insert_wrs, start, take_rdma,
  take_sendrecv,
}
use nnti.Ib.Issue.Fresh.{IsFresh, Below}
use mathlib.Core.List.{map}
use nnti.Ib.Issue.Waited.{IsDone, settle, put-wait-restores, acked-drains}
use nnti.Ib.Issue.Session.{IbCall, put, cancel, cleanup, run_call, run_calls, run_calls-insert}
use nnti.Ib.Issue.Cleanup.{wait_cleanup, ib_cancel, in_progress}

abbrev nowhere : Stray
nowhere = record {
  segment = record { buf = 0; size = 0; key = 0 };
  mr = record { addr = 0; length = 0; lkey = 0; rkey = 0 };
  last = 0;
}

abbrev mrs : List Mr
mrs =
    record { addr = 100; length = 3; lkey = 1; rkey = 2 }
    ∷ record { addr = 200; length = 2; lkey = 3; rkey = 4 }
    ∷ []

abbrev here : Local
here = record { segments = segments_of mrs; mr_list = mrs }

abbrev there : List Segment
there = record { buf = 50; size = 2; key = 5 } ∷ record { buf = 70; size = 4; key = 6 } ∷ []

here-AreNarrow : AreNarrow nowhere.segment here.segments
here-AreNarrow zero h = omega arith
here-AreNarrow (suc zero) h = omega arith
here-AreNarrow (suc (suc i)) h = absurd (omega arith)

sge_list-bytes_example : gathered (sge_list nowhere here 3 2) ≡ 200 ∷ 201 ∷ []
unfolding bytes find_local
sge_list-bytes_example =
    sge_list-bytes nowhere here 3 2 refl here-AreNarrow (omega arith) (omega arith) (inl refl)

abbrev cfg : IbConfig
cfg = record { use_wr_pool = true; use_rdma_target_ack = false; srq_count = 8 }

abbrev acked : IbConfig
acked = record { use_wr_pool = true; use_rdma_target_ack = true; srq_count = 8 }

-- One work request in each pool.
abbrev start_state : IbState
start_state = record {
  pools = record { rdma_wr_pool = 4 ∷ []; sendrecv_wr_pool = 5 ∷ []; wrs = λ p. idle; next_wr = 6 };
  counter = 9;
  wrmap = (8, 3) ∷ [];
  wr_queue = 3 ∷ [];
  reqs = λ p. calloc_wr;
  counts = record {
    req_cq = 1;
    data_cq = 2;
    req_received = 0;
    req_srq_count = 0;
    data_srq_count = 0;
  };
}

start_state-IsFresh : IsFresh start_state
unfolding Below
start_state-IsFresh = (omega arith, omega arith)

abbrev done_work : IbWorkRequest
done_work = record calloc_wr.work {
  nnti_wr = some (record { ops = 1; result = ok });
  state = rdma_complete;
  last_op = put_initiator;
}

done_work-IsDone : IsDone done_work
unfolding is_wr_complete
done_work-IsDone = record {
  user = record { ops = 1; result = ok };
  of_user = refl;
  plain = refl;
  op = refl;
  complete = refl;
}

abbrev one_segment : List Segment
one_segment = record { buf = 50; size = 9; key = 5 } ∷ []

put-wait-restores_example :
    (rc : NntiResult) × (ps : List Posted) × (t u : IbState) × (ib_put nowhere cfg
        (λ x. true)
        here
        3
        2
        one_segment
        1
        start_state
      ≡ some (rc, (ps, t)))
    × (wait_cleanup cfg true 8 5 (settle 5 done_work t) ≡ some u)
    × (u.wrmap ≡ (8, 3) ∷ [])
    × (u.wr_queue ≡ 3 ∷ [])
    × (u.pools.rdma_wr_pool ≡ 4 ∷ [])
    × (u.pools.sendrecv_wr_pool ≡ 5 ∷ [])
put-wait-restores_example =
    put-wait-restores nowhere cfg (λ x. true) true 8 here one_segment 3 2 1 5 [] start_state
      done_work start_state-IsFresh refl refl refl refl refl done_work-IsDone

acked-drains_example :
    (rc : NntiResult) × (ps : List Posted) × (t u : IbState) × (ib_put nowhere acked
        (λ x. true)
        here
        3
        2
        one_segment
        1
        start_state
      ≡ some (rc, (ps, t)))
    × (wait_cleanup acked true 8 4 (settle 4 done_work t) ≡ some u)
    × (u.pools.rdma_wr_pool ≡ [])
    × (u.pools.sendrecv_wr_pool ≡ 4 ∷ 5 ∷ [])
    × (ib_put nowhere acked (λ x. true) here 3 2 one_segment 1 u ≡ none)
acked-drains_example =
    acked-drains nowhere acked (λ x. true) true 8 here one_segment 3 2 1 4 start_state done_work
      start_state-IsFresh refl refl refl refl refl done_work-IsDone

abbrev ten_mrs : List Mr
ten_mrs =
    record { addr = 100; length = 10; lkey = 1; rkey = 2 }
    ∷ record { addr = 200; length = 10; lkey = 3; rkey = 4 }
    ∷ record { addr = 300; length = 10; lkey = 5; rkey = 6 }
    ∷ []

abbrev lengths_of : Option (List SendWr) → Option (List ℕ)
lengths_of none = none
lengths_of (some ws) = some (map (λ w. length (gathered w.sg_list)) ws)

-- A PUT of the second of three segments of ten bytes reads none of them: the search for the first
-- segment stays at the first where the offset is its size, that for the last counts the first whole.
abbrev tens : Local
tens = record { segments = segments_of ten_mrs; mr_list = ten_mrs }

-- And a PUT of one byte writes a whole segment.
abbrev two_tens : List Segment
two_tens = record { buf = 500; size = 10; key = 5 } ∷ record { buf = 700; size = 10; key = 6 } ∷ []

second_segment : lengths_of (put_many nowhere 0 tens 10 10 two_tens 0) ≡ some (0 ∷ [])
unfolding put_many put_wr fill_wrs params find_first find_last next skip advance_src advance_dst
    wr_length gathered
second_segment = refl

one_byte : lengths_of (put_many nowhere 0 tens 0 1 two_tens 0) ≡ some (10 ∷ [])
unfolding put_many put_wr fill_wrs params find_first find_last next skip advance_src advance_dst
    wr_length gathered
one_byte = refl

-- Behind an offset within a segment, the list for a buffer of one segment reads every later segment
-- from the same offset on, past its end.
offset_everywhere :
    sge_list nowhere tens 4 16
    ≡ record { addr = 104; length = 6; lkey = 1 }
      ∷ record { addr = 204; length = 10; lkey = 3 }
      ∷ record { addr = 304; length = 10; lkey = 5 }
      ∷ []
unfolding sge_list sge_loop find_local
offset_everywhere = refl

-- A PUT of two segments, which is canceled, and a wait that does not find it complete.
abbrev ib_calls : List IbCall
ib_calls = put (λ x. true) here 0 5 there 1 ∷ cancel 5 ∷ cleanup true 8 5 ∷ []

abbrev state_after : Option IbState → IbState
state_after none = start_state
state_after (some t) = t

ran :
    run_calls nowhere cfg ib_calls start_state
    ≡ some (state_after (run_calls nowhere cfg ib_calls start_state))
unfolding run_calls run_call ib_put take_rdma take_sendrecv wr_pool_sendrecv_pop put_many fill_wrs
    params find_first find_last advance_src advance_dst skip next start insert_wrs insert_wr
    ib_cancel in_progress wait_cleanup is_wr_complete
ran = refl

run_calls-insert_example :
    let t = state_after (run_calls nowhere cfg ib_calls start_state) in
    (m : List (ℕ × ℕ)) × (insert_wr t.counter 4 t.wrmap ≡ some m) × (lookup_wr t.counter m ≡ some 4)
run_calls-insert_example =
    run_calls-insert nowhere cfg ib_calls start_state
      (state_after (run_calls nowhere cfg ib_calls start_state)) 4 start_state-IsFresh ran
