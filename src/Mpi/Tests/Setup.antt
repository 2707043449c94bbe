-- ===== src/Mpi/Tests/Setup.antt =====
-- The theorems on the start of the transport at inputs.
use nnti.Base.{◌≡◌, refl, true, false, some, replicate, arith}
use nnti.Types.{ok}
use nnti.Url.{Bytes}
use nnti.Threads.{nthread_counter_init, nthread_counter_set}
use nnti.Mpi.Atomics.{setup_atomics}
use nnti.Mpi.Peer.{Peer, create_peer, get_url, connect}
use nnti.Mpi.Setup.{Start, Process, init, fini, set_up}
use nnti.Mpi.Setup.Again.{init-fini_again}
use nnti.Mpi.Setup.Address.{init-connect, after_set_up}
use nnti.Mpi.Tests.{willing, here_now}

abbrev start : Start
start = record {
  initialized_ok = true;
  mpi_initialized = false;
  init_thread_ok = true;
  rank = 3;
  malloc_ok = true;
  atomic_size = 64;
  min_vars = some (some 2);
}

abbrev unknown_peer : Peer
unknown_peer = create_peer 0

abbrev idle : Process
idle = record {
  initialized = false;
  init_called_mpi_init = false;
  finalized = false;
  transport = here_now;
}

init-connect_example :
    (p : Peer) × (t : Process) × (url : Bytes) × (init willing start unknown_peer idle
      ≡ some (ok, (p, t)))
    × (t.transport.me ≡ 3)
    × (t.transport.mbits.value ≡ 273)
    × (t.transport.atomics ≡ replicate 2 (record { locked = false; value = 0 }))
    × (get_url p 128 ≡ some url)
    × (connect (some url) unknown_peer ≡ (ok, p))
init-connect_example =
    init-connect willing start unknown_peer unknown_peer idle 127 refl refl refl refl refl
      (omega arith) (omega arith) (omega arith)

abbrev running_process : Process
running_process = record idle {
  initialized = true;
  init_called_mpi_init = true;
  transport = after_set_up willing start here_now;
}

init-fini_again_example :
    ((fini willing running_process).1.finalized ≡ true)
    × (init willing start unknown_peer (fini willing running_process).1
        ≡ some (ok, (unknown_peer, (fini willing running_process).1)))
unfolding init set_up setup_atomics nthread_counter_init nthread_counter_set
init-fini_again_example =
    init-fini_again willing start start unknown_peer unknown_peer (create_peer 3) idle
      running_process ok refl
