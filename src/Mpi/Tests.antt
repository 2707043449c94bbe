-- ===== src/Mpi/Tests.antt =====
-- The theorems on the MPI transport at inputs: process 0 transfers to a buffer of process 1.
mod Atomics
mod Wait
mod Peer
mod Many
mod Setup
use nnti.Base.{
  ℕ, ◌+◌, ◌-◌, ◌%◌, ◌^◌, ◌≡◌, refl, Bool, true, false, none, some, [], ◌∷◌, ◌==◌, if◌then◌else◌,
  arith, update, mem, count, ◌≤◌,
}
use nnti.Types.{ok, ebadrpc}
use nnti.Mpi.State.{
  buffer_init, rdma_cmd_index, put_recv_index, get_target, put_target, atomic_fetch_add, CommandMsg,
  rank, any_source, MpiStatus, MpiWorkRequest, calloc_wr, MemoryHandle, RdmaAddr, mpi_transport,
  Buffer, WorkRequest,
}
use nnti.Mpi.Machine.{pending, Env, Transport, wr_slot, irecv, command_region}
use nnti.Mpi.Event.{follow_up}
use nnti.Mpi.Event.Phases.{IsReady}
use nnti.Mpi.Event.Memory.{Backed, seen}
use nnti.Mpi.Event.Course.{process_events, Progress, process_events-Progress}
use nnti.Mpi.Initiate.{put, put_request, get_request}
use nnti.Mpi.Initiate
use nnti.Mpi.Initiate.Operands.{Operands}
use nnti.Mpi.Initiate.Rendezvous.{
  transfers, meets, command_send, data_send, data_receive, put-rendezvous, get-rendezvous,
}
use nnti.Mpi.Initiate.Refused.{put-refused_command, put-refused_data, send-refused, Untouched}
use nnti.Mpi.Register.{
  armed, insert_target, repost_rdma_target_work_request, register_memory, unregister_memory,
}
use nnti.Mpi.Register.Targets.{
  repost_rdma_target_lem, register_memory-remote, after_arming, target_buffer, IsArmed,
}
use nnti.Mpi.Register.Unregister.{cleared, insert_target_lem, unregister_memory_lem}

-- MPI accepts the calls of `accepts`; nothing completes.
abbrev world : (ℕ → Bool) → Env
world accepts = record {
  accepts = accepts;
  test = λ k. pending;
  exit_now = λ k. false;
  time_ms = λ k. k;
  undefined = 2 ^ 32 - 1;
  locks = record { init_ok = true; lock_ok = true; fini_ok = true };
}

abbrev pub willing : Env
willing = world (λ k. true)

abbrev pub refusing : Env
refusing = world (λ k. false)

-- The buffer of this process, its handle and its address.
abbrev here : RdmaAddr
here = record { size = 100; cmd_tag = 111; get_data_tag = 112; put_data_tag = 113 }

abbrev pub handle : MemoryHandle
handle = record { cmd_tag = 111; get_data_tag = 112; put_data_tag = 113; wr_queue = [] }

abbrev pub local : Buffer
local = record {
  transport_id = mpi_transport;
  buffer_owner = rank 0;
  segment = some here;
  ops = 10;
  payload_size = 100;
  payload = 1000;
  transport_private = some handle;
}

-- The descriptor of the buffer of process 1, and that buffer there.
abbrev pub there : RdmaAddr
there = record { size = 64; cmd_tag = 211; get_data_tag = 212; put_data_tag = 213 }

abbrev pub remote : Buffer
remote = record {
  transport_id = mpi_transport;
  buffer_owner = rank 1;
  segment = some there;
  ops = 10;
  payload_size = 64;
  payload = 0;
  transport_private = none;
}

abbrev target_handle : MemoryHandle
target_handle = record { cmd_tag = 211; get_data_tag = 212; put_data_tag = 213; wr_queue = [] }

abbrev target : Buffer
target = record remote { payload = 5000; transport_private = some target_handle }

abbrev pub user : WorkRequest
user = record {
  transport_id = mpi_transport;
  reg_buf = none;
  ops = 0;
  result = ok;
  transport_private = none;
}

-- `local` is at 1, `remote` at 2, the user's work request at 3. The work request at 4 serves `local`
-- as a target, and has received a command for a PUT.
abbrev put_command : CommandMsg
put_command = record { offset = 8; length = 16; tag = 113; op = put_target }

abbrev pub serving : MpiWorkRequest
serving = armed true (record calloc_wr { reg_buf = some 1; cmd_msg = put_command })

abbrev pub here_now : Transport
here_now = record {
  me = 0;
  mbits = record { value = 300 };
  wrs = update (λ p. none) 4 (some serving);
  next_wr = 20;
  buffers = update (update (λ b. none) 1 (some local)) 2 (some remote);
  nnti_wrs = update (λ w. none) 3 (some user);
  target_buffers = 1 ∷ [];
  req_queue = record {
    reg_buf = none;
    req_queue = 0;
    req_size = 0;
    req_count = 0;
    last_request_index = 0;
  };
  atomics = [];
  atomics_request_msg = record { compare_add = 0; swap = 0; index = 0; op = atomic_fetch_add };
  atomics_result_msg = 0;
  posted = [];
  asked = 0;
}

pub operands : Operands here_now 1 local handle 2 remote 3 user
operands = record { at_l = refl; handle = refl; at_r = refl; at_wr = refl }

-- The work request of the target at process 1, with the command of the transfer.
abbrev target_wr : CommandMsg → MpiWorkRequest
target_wr c = armed true (record calloc_wr { reg_buf = some 9; cmd_msg = c })

abbrev pub arrival : MpiStatus
arrival = record { source = 1; tag = 211 }

put-rendezvous_example :
    transfers 0 (data_send remote there 20 local 4 16) 1 (
      follow_up put_target buffer_init 9
        (target_wr (put_request 1 remote there 4 16 8 3).cmd_msg)
        target
        target_handle
        (record arrival { source = 0 }))
    ≡ some (1004, 5008, 16)
put-rendezvous_example =
    (put-rendezvous willing here_now 1 local handle 2 remote 3 user operands there refl 1 refl
      (refl, refl) 4 16 8 9 (target_wr (put_request 1 remote there 4 16 8 3).cmd_msg) target
      target_handle (record arrival { source = 0 }) (omega arith) refl refl refl).5

get-rendezvous_example :
    meets 1
      (follow_up get_target buffer_init 9
        (target_wr (get_request remote 1 here 4 16 8 3).cmd_msg)
        target
        target_handle
        (record arrival { source = 0 }))
      0
      (data_receive remote here 20 local 8 16)
    ≡ some (5004, 1008, 16)
get-rendezvous_example =
    (get-rendezvous willing here_now 1 local handle 2 remote 3 user operands there refl 1 refl
      (refl, refl) here 4 16 8 9 (target_wr (get_request remote 1 here 4 16 8 3).cmd_msg) target
      target_handle (record arrival { source = 0 }) (omega arith) refl refl refl).5

serving-Backed : Backed here_now 4 serving 1 local handle
serving-Backed = record { at_p = refl; plain = tt; of_buffer = refl; at_r = refl; handle = refl }

-- The command has arrived, with the tag of `local`; the data is still to come.
serving-IsReady :
    IsReady
      (rdma_cmd_index ∷ put_recv_index ∷ [])
      (seen (record arrival { tag = 111 }) handle serving)
serving-IsReady = record {
  on_course = refl;
  waits = λ i e. ground arith;
  flags = λ i. ground arith;
}

process_events-Progress_example :
    (s' : Transport) × (v : MpiWorkRequest) × (process_events willing 4
        (record arrival { tag = 111 } ∷ record arrival { tag = 113 } ∷ [])
        here_now
      ≡ some (ok, s'))
    × Progress s' 4 [] 1 local handle v
process_events-Progress_example =
    process_events-Progress willing 4 1 local handle [] rdma_cmd_index (put_recv_index ∷ [])
      (record arrival { tag = 111 }) (record arrival { tag = 113 } ∷ []) here_now serving refl
      serving-Backed serving-IsReady

put-refused_command_run :
    (s' : Transport) × (put refusing 1 4 16 2 8 3 here_now ≡ some (ebadrpc, s'))
    × Untouched here_now s' []
put-refused_command_run =
    put-refused_command refusing here_now 1 local handle 2 remote 3 user operands there refl 4 16 8
      refl

abbrev half_willing : Env
half_willing = world (λ k. k == 0)

put-refused_data_run :
    (s' : Transport) × (put half_willing 1 4 16 2 8 3 here_now ≡ some (ebadrpc, s'))
    × Untouched here_now s'
        (command_send remote there 20 (put_request 1 remote there 4 16 8 3) ∷ [])
put-refused_data_run =
    put-refused_data half_willing here_now 1 local handle 2 remote 3 user operands there refl 4 16 8
      refl refl

send-refused_run :
    (s' : Transport) × (Initiate.send refusing (rank 1) 1 (some 2) 3 here_now ≡ some (ok, s'))
    × Untouched here_now s' []
send-refused_run =
    send-refused refusing here_now 1 local handle 2 remote 3 user operands there refl (rank 1) refl
      refl

repost_rdma_target_lem_run :
    repost_rdma_target_work_request willing 4 here_now
    ≡ some (ok, after_arming willing 1 4 (armed true serving) local handle here_now)
repost_rdma_target_lem_run =
    repost_rdma_target_lem willing 1 here_now local handle refl refl refl 4 serving refl refl

-- The second buffer of process 0, of 32 bytes at 7000.
register_memory-remote_example :
    (s' : Transport) × (w : MpiWorkRequest) × (register_memory willing 7000 32 1 10 5 here_now
      ≡ some (ok, s'))
    × (s'.mbits.value ≡ 303)
    × (s'.buffers 5 ≡ some (target_buffer 0 7000 32 10 300 20))
    × (s'.wrs 20 ≡ some w)
    × IsArmed 5 w
    × (s'.posted ≡ irecv any_source 300 (command_region 20) (wr_slot 20 rdma_cmd_index) ∷ [])
    × (s'.target_buffers ≡ 1 ∷ 5 ∷ [])
register_memory-remote_example =
    register_memory-remote willing 7000 32 1 10 5 here_now refl (omega arith) refl refl refl

insert_target_lem_run :
    (count 1 (insert_target 5 (1 ∷ [])) ≤ 1) × (mem 1 (insert_target 5 (1 ∷ [])) ≡ true)
insert_target_lem_run = insert_target_lem 1 5 (1 ∷ []) (omega arith)

unregister_memory_lem_run :
    (s' : Transport) × (unregister_memory 1 here_now ≡ some (ok, s'))
    × (s'.buffers 1 ≡ some cleared)
    × (mem 1 s'.target_buffers ≡ false)
    × (s'.buffers 2 ≡ some remote)
    × (mem 2 s'.target_buffers ≡ false)
unregister_memory_lem_run =
    unregister_memory_lem 1 2 here_now local handle refl refl (omega arith) (λ e. omega arith)
