-- ===== src/Mpi/Setup/Again.antt =====
-- The transport does not start a second time.
use nnti.Base.{
  ◌≡◌, refl, sym, ap, subst, Bool, true, not, ◌||◌, Option, none, some, Bool-cases, inl, inr,
  if◌then◌else◌,
}
use nnti.Types.{NntiResult, ok}
use nnti.Mpi.Machine.{Transport, Env}
use nnti.Mpi.Peer.{Peer}
use nnti.Mpi.Setup.{Start, Process, init, fini, started_with, set_up, aborts}

-- What a start that returns leaves.
abbrev IsStarted : Option (NntiResult × (Peer × Process)) → Type 0
IsStarted none = Unit {0}
IsStarted (some (rc, (me, s))) = s.initialized ≡ true

started_with-IsStarted :
    (start : Start) (me : Peer) (s : Process) (o : Option (Unit {0} × Transport))
    → IsStarted (started_with start me s o)
started_with-IsStarted start me s none = tt
started_with-IsStarted start me s (some (u, t)) = refl

init-IsStarted :
    (env : Env) (start : Start) (me : Peer) (s : Process) → IsStarted (init env start me s)
unfolding init
init-IsStarted env start me s = elim (Bool-cases s.initialized) [
  | inl e ↦ rw (IsStarted, e) refl
  | inr e ↦ elim (Bool-cases (aborts start)) [
    | inl e' ↦ rw (IsStarted, e) (rw (IsStarted, e') tt)
    | inr e' ↦
        rw (IsStarted, e)
          (rw (IsStarted, e') (started_with-IsStarted start me s (set_up env start s.transport)))
  ]
]

-- Was MPI started by the transport, before this start or by it?
abbrev pub starts_mpi : Start → Process → Bool
starts_mpi start s = if s.initialized then s.init_called_mpi_init else not start.mpi_initialized

-- What a start that returns leaves of the two flags on MPI.
abbrev Flags : Bool → Bool → Option (NntiResult × (Peer × Process)) → Type 0
Flags called ended none = Unit {0}
Flags called ended (some (rc, (me, s))) = (s.init_called_mpi_init ≡ called) × (s.finalized ≡ ended)

started_with-Flags :
    (start : Start) (me : Peer) (s : Process) (o : Option (Unit {0} × Transport))
    → Flags (not start.mpi_initialized) s.finalized (started_with start me s o)
started_with-Flags start me s none = tt
started_with-Flags start me s (some (u, t)) = (refl, refl)

init-Flags :
    (env : Env) (start : Start) (me : Peer) (s : Process)
    → Flags (starts_mpi start s) s.finalized (init env start me s)
unfolding init
init-Flags env start me s = elim (Bool-cases s.initialized) [
  | inl e ↦
      let called : starts_mpi start s ≡ s.init_called_mpi_init =
        ap (λ t. if t then s.init_called_mpi_init else not start.mpi_initialized) e in
      rw (Flags, e) (sym called, refl)
  | inr e ↦
      let called : starts_mpi start s ≡ not start.mpi_initialized =
        ap (λ t. if t then s.init_called_mpi_init else not start.mpi_initialized) e in
      elim (Bool-cases (aborts start)) [
        | inl e' ↦ rw (Flags, e) (rw (Flags, e') tt)
        | inr e' ↦
            rw (Flags, e)
              (rw (Flags, e')
                (subst
                  (λ c.
                    Flags c s.finalized (started_with start me s (set_up env start s.transport)))
                  (sym called) (started_with-Flags start me s (set_up env start s.transport))))
      ]
]

-- Once `NNTI_mpi_init` has returned, `NNTI_mpi_fini` after it has ended MPI exactly if MPI was ended
-- before or the transport has started it, in this call or in an earlier one; and another
-- `NNTI_mpi_init` returns NNTI_OK, starts nothing, and leaves `trans_hdl->me` as it was.
pub init-fini_again :
    (env : Env) (start start' : Start) (me me' p : Peer) (s t : Process) (rc : NntiResult)
    → init env start me s ≡ some (rc, (p, t))
    → ((fini env t).1.finalized ≡ s.finalized || starts_mpi start s)
      × (init env start' me' (fini env t).1 ≡ some (ok, (me', (fini env t).1)))
unfolding init fini
init-fini_again env start start' me me' p s t rc e =
    let started : t.initialized ≡ true = subst IsStarted e (init-IsStarted env start me s) in
    let (called, ended) =
      subst (Flags (starts_mpi start s) s.finalized) e (init-Flags env start me s) in
    (rw (called, ended) refl, rw started refl)
