-- ===== src/Mpi/Setup/Address.antt =====
-- The address that the start gives a process leads its peers to it.
use nnti.Base.{
  ℕ, suc, ltb, arith, ◌*◌, ◌%◌, ◌≤◌, ◌<◌, ◌^◌, ◌≡◌, refl, ap, true, false, not, none, some,
  replicate,
}
use nnti.Types.{ok}
use nnti.Url.{Bytes}
use nnti.Mpi.Machine.{Transport, Env, M, ◌>>◌}
use nnti.Threads.{nthread_counter_init, nthread_counter_set}
use nnti.Mpi.Peer.{Peer, create_peer, get_url, connect}
use nnti.Mpi.Peer.RoundTrip.{connect-get_url}
use nnti.Mpi.Atomics.{setup_atomics, clear_atomics, post_atomics_recv_request}
use nnti.Mpi.Setup.{
  Start, Process, init, started_with, set_up, aborts, config_get_from_env, reset, first_tag,
}

-- The state after the start, which comes to its end.
abbrev pub after_set_up : Env → Start → Transport → Transport
after_set_up env start s = elim (prepare (reset start.rank s)) [ none ↦ s | some (u, t) ↦ t ]
  where
    prepare : M (Unit {0})
    prepare =
        first_tag env
        >> (clear_atomics (config_get_from_env start.min_vars) >> post_atomics_recv_request env)

set_up_lem :
    (env : Env) (start : Start) (s : Transport)
    → env.locks.init_ok ≡ true
    → env.locks.lock_ok ≡ true
    → start.malloc_ok ≡ true
    → config_get_from_env start.min_vars * start.atomic_size < 2 ^ 32
    → let t : Transport = after_set_up env start s in
      (set_up env start s ≡ some (tt, t))
      × (t.me ≡ start.rank)
      × (t.mbits.value ≡ 273)
      × (t.atomics
          ≡ replicate (config_get_from_env start.min_vars) (record { locked = false; value = 0 }))
unfolding set_up setup_atomics nthread_counter_init nthread_counter_set
set_up_lem env start s init_ok lock_ok malloc_ok fits =
    let in_bounds : ltb (config_get_from_env start.min_vars * start.atomic_size % 2 ^ 32)
          (config_get_from_env start.min_vars * start.atomic_size)
        ≡ false =
      ground arith in
    (rw (malloc_ok, in_bounds) refl, refl, rw init_ok (rw lock_ok refl), refl)

-- Where the start of MPI succeeds, the locks work, `malloc` succeeds, and the atomic variables take
-- less than 2^32 bytes, the first `NNTI_mpi_init`
-- of a process whose rank is an `int` returns NNTI_OK; the process has its rank, 0x111 as its first
-- tag, and its atomic variables, which are 0 and free; the URL of its handle, read into a buffer of
-- at least 18 bytes, leads a peer that connects to the same address.
pub init-connect :
    (env : Env) (start : Start) (me before : Peer) (s : Process) (n : ℕ)
    → s.initialized ≡ false
    → aborts start ≡ false
    → env.locks.init_ok ≡ true
    → env.locks.lock_ok ≡ true
    → start.malloc_ok ≡ true
    → config_get_from_env start.min_vars * start.atomic_size < 2 ^ 32
    → start.rank < 2 ^ 31
    → 17 ≤ n
    → (p : Peer) × (t : Process) × (url : Bytes) × (init env start me s ≡ some (ok, (p, t)))
      × (t.transport.me ≡ start.rank)
      × (t.transport.mbits.value ≡ 273)
      × (t.transport.atomics
          ≡ replicate (config_get_from_env start.min_vars) (record { locked = false; value = 0 }))
      × (get_url p (suc n) ≡ some url)
      × (connect (some url) before ≡ (ok, p))
unfolding init set_up setup_atomics
init-connect env start me before s n fresh runs init_ok lock_ok malloc_ok fits small room =
    let (url, read, reached) = connect-get_url start.rank n before small room in
    let (ends, me_is, tag, vars) =
      set_up_lem env start s.transport init_ok lock_ok malloc_ok fits in
    (
      create_peer start.rank,
      record s {
        initialized = true;
        init_called_mpi_init = not start.mpi_initialized;
        transport = after_set_up env start s.transport;
      },
      url,
      rw fresh (rw runs (ap (started_with start me s) ends)),
      me_is,
      tag,
      vars,
      read,
      reached,
    )
