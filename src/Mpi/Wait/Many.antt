-- ===== src/Mpi/Wait/Many.antt =====
-- nnti/nnti_mpi.cpp: what `NNTI_mpi_waitany` and `NNTI_mpi_waitall` do with their list of work requests.
use nnti.Base.{ℕ, suc, Option, none, some, List, [], ◌∷◌, ◌++◌, replicate}
use nnti.Mpi.Machine.{
  M, pure, fault, ◌>>=◌, ◌>>◌, assert_some, get_wr, get_nnti_wr, put_nnti_wr, get_handle,
}
use nnti.Mpi.Wait.{front}

-- The body of the first loop: the work request that the user's one stands for. The handle of its
-- buffer is asserted for every operation.
unfoldable pub link_wr : ℕ → M (Unit {0})
link_wr wr = do
  user ← get_nnti_wr wr
  b ← assert_some user.reg_buf
  h ← get_handle b
  elim user.transport_private [
    | some p ↦ pure tt
    | none ↦ front h.wr_queue >>= λ p. put_nnti_wr wr (record user { transport_private = some p })
  ]

-- The first loop; NULLs in the list are passed over.
unfoldable pub link_all : List (Option ℕ) → M (Unit {0})
link_all [] = pure tt
link_all (none ∷ wrs) = link_all wrs
link_all (some wr ∷ wrs) = link_wr wr >> link_all wrs

-- The indices in the list of the MPI requests of the work request at `wr`.
unfoldable pub owned_by : ℕ → ℕ → M (List ℕ)
owned_by i wr = get_nnti_wr wr >>= λ user. elim user.transport_private [
  | none ↦ pure []
  | some p ↦ get_wr p >>= λ w. pure (replicate w.request_count i)
]

-- `request_to_wr_index`: for each MPI request that is tested, the index of its work request.
unfoldable pub owners : ℕ → List (Option ℕ) → M (List ℕ)
owners i [] = pure []
owners i (none ∷ wrs) = owners (suc i) wrs
owners i (some wr ∷ wrs) =
    owned_by i wr >>= λ mine. owners (suc i) wrs >>= λ rest. pure (mine ++ rest)

-- `realloc` to a size of 0 gives NULL, on which an assertion fails.
abbrev pub some_owners : List ℕ → M (Unit {0})
some_owners [] = fault
some_owners (i ∷ is) = pure tt

-- `MPI_WORK_REQUEST(wr_list[i])`: the user's work request and the transport's.
abbrev pub entry_at : Option (Option ℕ) → M (ℕ × ℕ)
entry_at none = fault
entry_at (some none) = fault
entry_at (some (some wr)) =
    get_nnti_wr wr >>= λ user. assert_some user.transport_private >>= λ p. pure (wr, p)
