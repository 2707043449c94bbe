-- ===== src/Mpi/Setup.antt =====
-- nnti/nnti_mpi.cpp: the start and the end of the transport, `NNTI_mpi_init` and `NNTI_mpi_fini`, and the
-- buffers that it allocates itself, `NNTI_mpi_alloc` and `NNTI_mpi_free`.
pub mod Again
pub mod Address
use nnti.Base.{
  ℕ, ◌%◌, ◌^◌, Bool, true, false, not, ◌&&◌, ◌||◌, Option, none, some, [], ◌==◌, if◌then◌else◌,
}
use nnti.Types.{NntiResult, ok}
use nnti.Threads.{Counter, Locks, nthread_counter_init, nthread_counter_set, nthread_counter_fini}
use nnti.Mpi.State.{AtomicRequestMsg, unknown}
use nnti.Mpi.Machine.{Transport, Env, M, pure, fault, ◌>>=◌, ◌>>◌, assert_some, get_buffer}
use nnti.Mpi.Register.{register_memory, unregister_memory}
use nnti.Mpi.Atomics.{setup_atomics}
use nnti.Mpi.Peer.{Peer, create_peer}

-- What the start finds: whether `MPI_Initialized` and `MPI_Init_thread` succeed, whether the program
-- has started MPI before, the rank of the process, whether `malloc` of the atomic variables succeeds,
-- `sizeof(mpi_atomic_t)`, and TRIOS_NNTI_MIN_ATOMIC_VARS in the environment: nothing, or what `strtoul` makes of it.
pub record Start : Type 0 where
  pub initialized_ok : Bool
  pub mpi_initialized : Bool
  pub init_thread_ok : Bool
  pub rank : ℕ
  pub malloc_ok : Bool
  pub atomic_size : ℕ
  pub min_vars : Option (Option ℕ)

-- `config_get_from_env`
abbrev pub config_get_from_env : Option (Option ℕ) → ℕ
config_get_from_env (some (some v)) = v % 2 ^ 32
config_get_from_env _ = 512

-- The static `initialized`, `transport_global_data.init_called_mpi_init`, whether `MPI_Finalize` was
-- called, and the rest of the state.
pub record Process : Type 0 where
  pub initialized : Bool
  pub init_called_mpi_init : Bool
  pub finalized : Bool
  pub transport : Transport

abbrev pub no_request : AtomicRequestMsg
no_request = record { op = unknown 0; index = 0; compare_add = 0; swap = 0 }

-- `memset` of `transport_global_data`, and its `rank`.
abbrev pub reset : ℕ → Transport → Transport
reset rank s = record s {
  me = rank;
  mbits = record { value = 0 };
  req_queue = record {
    reg_buf = none;
    req_queue = 0;
    req_size = 0;
    req_count = 0;
    last_request_index = 0;
  };
  atomics = [];
  atomics_request_msg = no_request;
  atomics_result_msg = 0;
}

-- `nthread_counter_init` and `nthread_counter_set` with 0x111: the first tag.
abbrev pub first_tag : Env → M (Unit {0})
first_tag env s = some (
  tt,
  record s {
    mbits = (nthread_counter_set env.locks (nthread_counter_init env.locks s.mbits).1 273).1;
  },
)

-- The start proper; the results of the calls are not looked at.
unfoldable pub set_up : Env → Start → M (Unit {0})
set_up env start = do
  (λ s. some (tt, reset start.rank s))
  first_tag env
  _ ← setup_atomics env start.malloc_ok start.atomic_size (config_get_from_env start.min_vars)
  pure tt

-- Does the start of MPI itself end the process?
abbrev pub aborts : Start → Bool
aborts start = not start.initialized_ok || (not start.mpi_initialized && not start.init_thread_ok)

abbrev pub started_with :
    Start → Peer → Process → Option (Unit {0} × Transport) → Option (NntiResult × (Peer × Process))
started_with start me s none = none
started_with start me s (some (u, t)) = some (
  ok,
  (
    create_peer start.rank,
    record s {
      initialized = true;
      init_called_mpi_init = not start.mpi_initialized;
      transport = t;
    },
  ),
)

-- `NNTI_mpi_init`: the result and what is in `trans_hdl->me`.
unfoldable pub init : Env → Start → Peer → Process → Option (NntiResult × (Peer × Process))
init env start me s =
    if s.initialized
    then some (ok, (me, s))
    else if aborts start
    then none
    else started_with start me s (set_up env start s.transport)

-- `NNTI_mpi_fini`: `initialized` stays as it is.
unfoldable pub fini : Env → Process → NntiResult × Process
fini env s = (
  ok,
  record s {
    finalized = s.finalized || s.init_called_mpi_init;
    transport = record s.transport { mbits = (nthread_counter_fini env.locks s.transport.mbits).1 };
  },
)

-- `NNTI_mpi_alloc`: `address` is what `malloc` gives. Sizes and operations of 0 fail an assertion.
unfoldable pub alloc : Env → Option ℕ → ℕ → ℕ → ℕ → ℕ → M NntiResult
alloc env address element_size num_elements ops b =
    if element_size == 0 || (num_elements == 0 || ops == 0)
    then fault
    else (assert_some address >>= λ payload.
        register_memory env payload element_size num_elements ops b)

-- `NNTI_mpi_free`: the result, and the address that is given to `free`.
unfoldable pub free : ℕ → M (NntiResult × ℕ)
free b = do
  x ← get_buffer b
  if x.payload == 0 then fault else pure tt
  rc ← unregister_memory b
  pure (rc, x.payload)
