-- ===== src/Mpi/Tests/Atomics.antt =====
-- The theorems on atomic operations at inputs: process 0 has one atomic variable, and serves the
-- ranks 1 and 2.
use nnti.Base.{ℕ, ◌≡◌, refl, true, false, some, none, List, [], ◌∷◌, ◌==◌, get_elem?, arith, update}
use nnti.Types.{ok}
use nnti.Mpi.State.{
  atomic_fetch_add, atomic_cmp_and_swp, AtomicRequestMsg, own, rank, MpiStatus, MpiWorkRequest,
  WorkRequest, atomics_send_index, atomics_recv_index,
}
use nnti.Mpi.Machine.{Atomic, Transport, irecv, isend, request, result_region, wr_slot}
use nnti.Mpi.Event.{get_atomic, process_event, is_wr_complete}
use nnti.Mpi.Initiate.{started, atomics_request_tag, atomics_result_tag}
use nnti.Mpi.Atomics.{serve, atomic_cswap, atomic_request}
use nnti.Mpi.Atomics.Serve.{serve-refused}
use nnti.Mpi.Atomics.Refine.{
  Request, Represents, exec, exec_answers, serve_requests, answers, serve_requests-refines,
}
use nnti.Mpi.Atomics.Initiator.{atomic_cswap-starts, atomic_events, atomic_user}
use nnti.Mpi.Tests.{willing, refusing, here_now, user}

abbrev five : Atomic
five = record { locked = false; value = 5 }

-- The message of a fetch-and-add of 3 has arrived.
abbrev add_three : AtomicRequestMsg
add_three = record { compare_add = 3; swap = 0; index = 0; op = atomic_fetch_add }

abbrev swap_eight : AtomicRequestMsg
swap_eight = record { compare_add = 8; swap = 1; index = 0; op = atomic_cmp_and_swp }

abbrev with_five : Transport
with_five = record here_now { atomics = five ∷ []; atomics_request_msg = add_three }

serve-refused_example :
    (s' : Transport) × (serve refusing 1 with_five ≡ some (0, s'))
    × (s'.posted ≡ [])
    × (get_atomic 0 s' ≡ none)
serve-refused_example = serve-refused refusing 1 five with_five refl refl refl

abbrev requests : List Request
requests = (1, add_three) ∷ (2, swap_eight) ∷ []

exec-requests : exec requests (λ i. 5) 0 ≡ 1
unfolding exec
exec-requests = refl

exec_answers-requests : exec_answers requests (λ i. 5) [] ≡ (2, 8) ∷ (1, 5) ∷ []
unfolding exec_answers
exec_answers-requests = refl

with_five-Represents : Represents 1 (λ i. 5) with_five.atomics
with_five-Represents = record { size = refl; holds = λ i h. ground arith }

serve_requests-refines_example :
    (s' : Transport) × (serve_requests willing requests with_five ≡ some (2, s'))
    × Represents 1 (exec requests (λ i. 5)) s'.atomics
    × (answers s'.posted ≡ exec_answers requests (λ i. 5) [])
serve_requests-refines_example =
    serve_requests-refines willing 1 (λ k. refl) requests (λ i. 5) with_five
      (omega arith, tt, (omega arith, tt, tt)) with_five-Represents

atomic_cswap-starts_run :
    let msg : AtomicRequestMsg = record {
      compare_add = 8;
      swap = 1;
      index = 2;
      op = atomic_cmp_and_swp;
    } in
    (s' : Transport) × (w : MpiWorkRequest) × (atomic_cswap willing (rank 1) 2 0 8 1 3 with_five
      ≡ some (ok, s'))
    × (s'.wrs 20 ≡ some w)
    × (s'.nnti_wrs 3 ≡ some (atomic_user 20 user))
    × (s'.posted
        ≡ irecv (rank 1) atomics_result_tag result_region (wr_slot 20 atomics_recv_index)
          ∷ isend (rank 1) atomics_request_tag (request msg) (wr_slot 20 atomics_send_index)
          ∷ [])
    × (w.request_ptr ≡ own atomics_send_index)
    × ((i : ℕ) → w.active_requests i ≡ (i == atomics_send_index))
atomic_cswap-starts_run =
    atomic_cswap-starts willing (rank 1) 0 3 with_five user refl refl refl 2 8 1

-- The operation that has just started, with 77 left in the shared message.
abbrev swapping : MpiWorkRequest
swapping = started atomics_send_index atomics_recv_index (atomic_request 3 (rank 1) 0)

abbrev swapping_user : WorkRequest
swapping_user = atomic_user 20 user

abbrev ongoing : Transport
ongoing = record with_five {
  wrs = update with_five.wrs 20 (some swapping);
  nnti_wrs = update with_five.nnti_wrs 3 (some swapping_user);
  atomics_result_msg = 77;
}

abbrev sent : MpiStatus
sent = record { source = 0; tag = atomics_request_tag }

abbrev answered : MpiStatus
answered = record { source = 1; tag = atomics_result_tag }

atomic_events_example :
    (s₁ s₂ : Transport) × (w₁ w₂ : MpiWorkRequest) × (process_event willing 20 sent ongoing
      ≡ some (ok, s₁))
    × (s₁.wrs 20 ≡ some w₁)
    × (is_wr_complete w₁ ≡ false)
    × (get_elem? s₁.atomics 0 ≡ some (record { locked = false; value = 77 }))
    × (process_event willing 20 answered (record s₁ { atomics_result_msg = 8 }) ≡ some (ok, s₂))
    × (s₂.wrs 20 ≡ some w₂)
    × (is_wr_complete w₂ ≡ true)
    × (get_elem? s₂.atomics 0 ≡ some (record { locked = false; value = 8 }))
atomic_events_example =
    atomic_events willing 20 3 sent answered ongoing swapping swapping_user five 8 refl refl refl
      refl refl refl refl refl
