-- ===== src/Mpi/Atomics.antt =====
-- nnti/nnti_mpi.cpp: the atomic variables. `check_atomic_operation` serves the requests of peers;
-- `NNTI_mpi_atomic_fop` and `NNTI_mpi_atomic_cswap` start one at a peer. An `int64_t` is its bit
-- pattern, and addition wraps.
pub mod Serve
pub mod Refine
pub mod Initiator
use nnti.Base.{
  ℕ, ◌+◌, ◌*◌, ◌%◌, ◌^◌, Bool, true, false, none, some, ◌∷◌, ◌++◌, ◌==◌, if◌then◌else◌, replicate,
  ltb,
}
use nnti.Types.{NntiResult, ok, enomem}
use nnti.Mpi.Event.{get_atomic, put_atomic, post_any}
use nnti.Mpi.Initiate.{started, atomics_request_tag, atomics_result_tag}
use nnti.Mpi.State.{
  fetch_add, AtomicOp, atomic_fetch_add, atomic_cmp_and_swp, unknown, AtomicRequestMsg,
  atomics_send_index, atomics_recv_index, Rank, rank, any_source, MpiWorkRequest, calloc_wr,
  bop_atomics, mpi_transport,
}
use nnti.Mpi.Machine.{
  post_or_fail, wr_slot, atomics_slot, blocking, request, result, request_region, result_region,
  MpiCall, isend, send, irecv, Delivery, request_arrived, TestResult, failed, pending, inactive,
  completed, Env, M, pure, ◌>>=◌, ◌>>◌, put_wr, new_wr, get_nnti_wr, put_nnti_wr, read, post, ask,
  fault,
}

-- The switch of `check_atomic_operation`: the result message (as it was, for an unknown operation)
-- and the variable's new value.
unfoldable pub apply : AtomicOp → AtomicRequestMsg → ℕ → ℕ → ℕ × ℕ
apply atomic_fetch_add msg old_result value = (value, (value + msg.compare_add) % 2 ^ 64)
apply atomic_cmp_and_swp msg old_result value =
    (value, (if value == msg.compare_add then msg.swap else value))
apply (unknown op) msg old_result value = (old_result, value)

-- `post_atomics_recv_request`
abbrev pub post_atomics_recv_request : Env → M (Unit {0})
post_atomics_recv_request env =
    post_any env (some (irecv any_source atomics_request_tag request_region atomics_slot))

abbrev pub set_result_msg : ℕ → M (Unit {0})
set_result_msg v s = some (tt, record s { atomics_result_msg = v })

-- The end of `check_atomic_operation`: the answer. Where MPI refuses it, the variable's lock is kept
-- and no receive is posted for the next request.
unfoldable pub answer : Env → ℕ → ℕ → ℕ → ℕ → M ℕ
answer env source i value result_value = do
  accepted ← post env (MpiCall.send (rank source) atomics_result_tag (result result_value) blocking)
  if accepted
      then (put_atomic i (record { locked = false; value = value })
          >> (post_atomics_recv_request env >> pure 1))
      else pure 0

-- What `check_atomic_operation` does when its test reports a request from `source`.
unfoldable pub serve : Env → ℕ → M ℕ
serve env source = do
  msg ← read (λ s. s.atomics_request_msg)
  a ← get_atomic msg.index
  old_result ← read (λ s. s.atomics_result_msg)
  let r : ℕ × ℕ = apply msg.op msg old_result a.value
  set_result_msg r.0
  put_atomic msg.index (record { locked = true; value = r.1 })
  answer env source msg.index r.1 r.0

-- The receive that a test completes has filled the request message.
abbrev pub deliver_request : Delivery → M (Unit {0})
deliver_request (request_arrived msg) s = some (tt, record s { atomics_request_msg = msg })
deliver_request _ s = some (tt, s)

-- `MPI_Test` reports `done` for a completed receive, and for none at all.
unfoldable pub on_test : Env → TestResult → M ℕ
on_test env failed = pure 0
on_test env pending = pure 0
on_test env (inactive event) = serve env event.source
on_test env (completed i event delivery) = deliver_request delivery >> serve env event.source

-- `check_atomic_operation`
unfoldable pub check_atomic_operation : Env → M ℕ
check_atomic_operation env = do r ← ask env.test; on_test env r

-- `NNTI_mpi_atomic_read`
unfoldable pub atomic_read : ℕ → M (NntiResult × ℕ)
atomic_read local_atomic = do a ← get_atomic local_atomic; pure (ok, a.value)

abbrev pub clear_atomics : ℕ → M (Unit {0})
clear_atomics n s =
    some (tt, record s { atomics = replicate n (record { locked = false; value = 0 }) })

-- `setup_atomics` with `min_atomics_vars` variables of `atomic_size` bytes each; `malloc` may fail.
-- `atomics_bytes` is a `uint32_t`: where the product does not fit, the loop writes beyond the memory
-- that was allocated, a fault.
unfoldable pub setup_atomics : Env → Bool → ℕ → ℕ → M NntiResult
setup_atomics env false atomic_size min_atomics_vars = pure enomem
setup_atomics env true atomic_size min_atomics_vars = do
  if ltb (min_atomics_vars * atomic_size % 2 ^ 32) (min_atomics_vars * atomic_size)
      then fault
      else pure tt
  clear_atomics min_atomics_vars
  post_atomics_recv_request env
  pure ok

-- The work request of an atomic operation. `NNTI_mpi_atomic_cswap` names it a fetch-and-add too.
abbrev pub atomic_request : ℕ → Rank → ℕ → MpiWorkRequest
atomic_request wr peer result_atomic = record calloc_wr {
  nnti_wr = some wr;
  atomics_result_index = result_atomic;
  peer = peer;
  last_op = fetch_add;
}

abbrev pub set_request_msg : AtomicRequestMsg → M (Unit {0})
set_request_msg msg s = some (tt, record s { atomics_request_msg = msg })

-- The calls of MPI that both operations make, and what they leave in the user's request.
unfoldable pub start_atomic : Env → Rank → ℕ → ℕ → AtomicRequestMsg → M NntiResult
start_atomic env peer result_atomic wr msg = do
  let w : MpiWorkRequest = atomic_request wr peer result_atomic
  p ← new_wr w
  set_request_msg msg
  post_or_fail env (isend peer atomics_request_tag (request msg) (wr_slot p atomics_send_index)) (
      post_or_fail env (irecv peer atomics_result_tag result_region (wr_slot p atomics_recv_index))
        (put_wr p (started atomics_send_index atomics_recv_index w)
          >> (get_nnti_wr wr >>= λ user.
              put_nnti_wr wr (record user {
                transport_id = mpi_transport;
                reg_buf = none;
                ops = bop_atomics;
                result = ok;
                transport_private = some p;
              })
              >> pure ok)))

-- `NNTI_mpi_atomic_fop`: `swap` keeps what the message held.
unfoldable pub atomic_fop : Env → Rank → ℕ → ℕ → ℕ → ℕ → M NntiResult
atomic_fop env peer target_atomic result_atomic operand wr = do
  old ← read (λ s. s.atomics_request_msg)
  start_atomic env peer result_atomic wr
      (record old { op = atomic_fetch_add; index = target_atomic % 2 ^ 32; compare_add = operand })

-- `NNTI_mpi_atomic_cswap`
unfoldable pub atomic_cswap : Env → Rank → ℕ → ℕ → ℕ → ℕ → ℕ → M NntiResult
atomic_cswap env peer target_atomic result_atomic compare_operand swap_operand wr =
    start_atomic env peer result_atomic wr (record {
      op = atomic_cmp_and_swp;
      index = target_atomic % 2 ^ 32;
      compare_add = compare_operand;
      swap = swap_operand;
    })
