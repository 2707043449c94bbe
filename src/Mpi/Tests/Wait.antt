-- ===== src/Mpi/Tests/Wait.antt =====
-- The theorems on waiting at inputs.
use nnti.Base.{◌≡◌, refl, true, none, some, List, [], ◌∷◌, arith, update}
use nnti.Types.{ok, etimedout}
use nnti.Mpi.State.{
  buffer_init, rdma_cmd_index, any_source, rdma_rts_complete, own, put_recv_index, Buffer,
  MemoryHandle, put_target, rdma_write_complete, MpiWorkRequest, WorkRequest, Status,
}
use nnti.Mpi.Machine.{Transport, Env, completed, nothing, MpiCall, irecv, command_region, wr_slot}
use nnti.Mpi.Initiate.{put, put_request}
use nnti.Mpi.Register.{armed}
use nnti.Mpi.Wait.Loop.{ms, negative, ended, running, wait_loop, wait}
use nnti.Mpi.Wait.Timeout.{Waiting, wait_loop-timeout_zero, wait_loop-times_out}
use nnti.Mpi.Wait.Finished.{Finished}
use nnti.Mpi.Event.Course.{process_events}
use nnti.Mpi.Event.Memory.{Backed}
use nnti.Mpi.Wait.{check_target}
use nnti.Mpi.Wait.Progress.{check_target-recycles}
use nnti.Mpi.Wait.Transfer.{put-wait}
use nnti.Mpi.Wait.Result.{wait-initiator, wait-target_requeued}
use nnti.Mpi.Tests.{
  operands, willing, here_now, user, local, remote, there, handle, arrival, serving,
}

abbrev no_targets : Transport
no_targets = record here_now { target_buffers = [] }

serving-Waiting : Waiting 4 serving no_targets
serving-Waiting = record { no_targets = refl; at_p = refl; incomplete = refl }

wait_loop-timeout_zero_example :
    (s' : Transport) × (wait_loop willing 1000 0 (ms 0) 4 no_targets ≡ some (running, s'))
wait_loop-timeout_zero_example =
    wait_loop-timeout_zero willing (λ k. refl) (λ k. refl) 1000 0 4 serving no_targets
      serving-Waiting

wait_loop-times_out_example :
    (s' : Transport) × (wait_loop willing 11 0 (ms 10) 4 no_targets ≡ some (ended etimedout, s'))
wait_loop-times_out_example =
    wait_loop-times_out willing (λ k. refl) (λ k. refl) (λ k. omega arith) 0 9 4 10 serving
      no_targets serving-Waiting (omega arith)

-- A PUT of 16 bytes that is over, in the queue of `local`.
abbrev put_done : MpiWorkRequest
put_done = record (put_request 1 remote there 4 16 8 3) {
  op_state = rdma_write_complete;
  last_event = arrival;
}

abbrev put_user : WorkRequest
put_user = record user { reg_buf = some 1; ops = 1; transport_private = some 20 }

abbrev blank : Status
blank = record { op = 0; result = ok; start = 0; offset = 0; length = 0; src = 0; dest = 0 }

abbrev put_over : Transport
put_over = record here_now {
  wrs = update here_now.wrs 20 (some put_done);
  nnti_wrs = update here_now.nnti_wrs 3 (some put_user);
}

put_over-Finished : Finished put_over 3 put_user 20 put_done 1 local handle
put_over-Finished = record {
  at_wr = refl;
  plain = refl;
  of_user = refl;
  linked = refl;
  at_p = refl;
  of_buffer = refl;
  at_b = refl;
  handle = refl;
  complete = refl;
}

wait-initiator_run :
    let status : Status = record {
      op = 1;
      result = ok;
      start = 1000;
      offset = 4;
      length = 16;
      src = 0;
      dest = 1;
    } in
    (s' : Transport) × (wait willing 100 3 (ms 5) blank put_over ≡ some (some (ok, status), s'))
    × (s'.wrs 20 ≡ none)
    × (s'.buffers 1 ≡ some local)
wait-initiator_run =
    wait-initiator willing 3 put_user 20 put_done 1 local handle blank 100 (ms 5) put_over
      put_over-Finished refl refl

-- The work request that serves `local` has received its 16 bytes; it is alone in the queue.
abbrev received : MpiWorkRequest
received = record serving {
  last_op = put_target;
  op_state = rdma_write_complete;
  dst_offset = 8;
  length = 16;
  last_event = arrival;
}

abbrev served_user : WorkRequest
served_user = record user { reg_buf = some 1; ops = 10; transport_private = some 4 }

abbrev queue_of_one : Transport
queue_of_one = record here_now {
  wrs = update here_now.wrs 4 (some received);
  nnti_wrs = update here_now.nnti_wrs 3 (some served_user);
  buffers =
      update here_now.buffers 1
        (some (record local { transport_private = some (record handle { wr_queue = 4 ∷ [] }) }));
}

received-Finished :
    Finished queue_of_one 3 served_user 4 received 1
      (record local { transport_private = some (record handle { wr_queue = 4 ∷ [] }) })
      (record handle { wr_queue = 4 ∷ [] })
received-Finished = record {
  at_wr = refl;
  plain = refl;
  of_user = refl;
  linked = refl;
  at_p = refl;
  of_buffer = refl;
  at_b = refl;
  handle = refl;
  complete = refl;
}

wait-target_requeued_run :
    let status : Status = record {
      op = 10;
      result = ok;
      start = 1000;
      offset = 8;
      length = 16;
      src = 1;
      dest = 0;
    } in
    (s' : Transport) × (wait willing 100 3 negative blank queue_of_one
      ≡ some (some (ok, status), s'))
    × (s'.wrs 4 ≡ some (armed true received))
    × (s'.buffers 1
        ≡ some
            (record local { transport_private = some (record handle { wr_queue = 4 ∷ 4 ∷ [] }) }))
wait-target_requeued_run =
    wait-target_requeued willing 3 served_user 4 received 1
      (record local { transport_private = some (record handle { wr_queue = 4 ∷ [] }) })
      (record handle { wr_queue = 4 ∷ [] }) blank 100 negative queue_of_one received-Finished refl
      refl

put-wait_example :
    let status : Status = record {
      op = 1;
      result = ok;
      start = 1000;
      offset = 4;
      length = 16;
      src = 0;
      dest = 1;
    } in
    (s₁ s₂ s₃ : Transport) × (put willing 1 4 16 2 8 3 here_now ≡ some (ok, s₁))
    × (process_events willing 20 (arrival ∷ arrival ∷ []) s₁ ≡ some (ok, s₂))
    × (wait willing 100 3 (ms 5) blank s₂ ≡ some (some (ok, status), s₃))
    × (s₃.wrs 20 ≡ none)
    × (s₃.buffers 1 ≡ some local)
put-wait_example =
    put-wait willing here_now 1 local handle 2 remote 3 user operands there refl (refl, refl) 4 16 8
      arrival arrival 100 (ms 5) blank refl refl

-- The data of a PUT is arriving at `local`; the work request is alone in the queue.
abbrev receiving : MpiWorkRequest
receiving = record serving {
  last_op = put_target;
  op_state = rdma_rts_complete;
  request_ptr = own put_recv_index;
}

abbrev arrives : Env
arrives = record willing { test = λ k. completed 0 arrival nothing }

abbrev one_request : MemoryHandle
one_request = record handle { wr_queue = 4 ∷ [] }

abbrev busy_buffer : Buffer
busy_buffer = record local { transport_private = some one_request }

abbrev receiving_now : Transport
receiving_now = record here_now {
  wrs = update here_now.wrs 4 (some receiving);
  buffers = update here_now.buffers 1 (some busy_buffer);
}

receiving-Backed : Backed receiving_now 4 receiving 1 busy_buffer one_request
receiving-Backed = record { at_p = refl; plain = tt; of_buffer = refl; at_r = refl; handle = refl }

check_target-recycles_example :
    (s' : Transport) × (v : MpiWorkRequest) × (earlier : List MpiCall) × (check_target arrives 1
        receiving_now
      ≡ some (some 1, s'))
    × (s'.wrs 4 ≡ some v)
    × (v.reg_buf ≡ some 1)
    × (v.op_state ≡ buffer_init)
    × (v.request_ptr ≡ own rdma_cmd_index)
    × (v.request_count ≡ 1)
    × (v.active_requests rdma_cmd_index ≡ true)
    × (s'.posted
        ≡ irecv any_source one_request.cmd_tag (command_region 4) (wr_slot 4 rdma_cmd_index)
          ∷ earlier)
    × (s'.buffers 1 ≡ some busy_buffer)
check_target-recycles_example =
    check_target-recycles arrives 1 4 busy_buffer one_request [] refl refl refl 0 arrival
      receiving_now receiving receiving-Backed refl refl (λ k. refl) refl
