-- ===== src/Mpi/Atomics/Refine.antt =====
-- The atomic variables as a memory that executes the requests of all peers one by one.
use nnti.Base.{
  ℕ, suc, ◌+◌, ◌%◌, ◌^◌, ◌<◌, ◌≡◌, ◌∙◌, refl, sym, ap, true, false, some, List, [], ◌∷◌, ◌++◌, ◌==◌,
  if◌then◌else◌, get_elem?, set, length, length-set, get_elem?-set_self, get_elem?-set_ne, update,
  arith, Bool-cases, inl, inr, ==_refl, ==→eq, ==-false→ne,
}
use nnti.Mpi.Atomics.{apply, on_test}
use nnti.Mpi.Atomics.Serve.{served, serve_lem}
use nnti.Mpi.State.{AtomicOp, atomic_fetch_add, atomic_cmp_and_swp, unknown, AtomicRequestMsg, rank}
use nnti.Mpi.Machine.{
  >>=-eq_of_some, result, MpiCall, request_arrived, completed, Env, Atomic, Transport, M, pure,
  ◌>>=◌,
}

-- A request: the rank that it comes from, and its message.
abbrev pub Request : Type 0
Request = ℕ × AtomicRequestMsg

-- The specification: a memory of 64-bit integers. A fetch-and-add adds; a compare-and-swap writes
-- where it finds the value that it expects; each answers with the value before.
abbrev pub Memory : Type 0
Memory = ℕ → ℕ

abbrev pub exec_at : AtomicOp → AtomicRequestMsg → Memory → ℕ
exec_at atomic_fetch_add msg m = (m msg.index + msg.compare_add) % 2 ^ 64
exec_at atomic_cmp_and_swp msg m = if m msg.index == msg.compare_add then msg.swap else m msg.index
exec_at (unknown op) msg m = m msg.index

unfoldable pub exec : List Request → Memory → Memory
exec [] m = m
exec ((source, msg) ∷ rs) m = exec rs (update m msg.index (exec_at msg.op msg m))

-- The answers, with the rank that each goes to, the latest first, before those already given.
unfoldable pub exec_answers : List Request → Memory → List (ℕ × ℕ) → List (ℕ × ℕ)
exec_answers [] m given = given
exec_answers ((source, msg) ∷ rs) m given =
    exec_answers rs (update m msg.index (exec_at msg.op msg m)) ((source, m msg.index) ∷ given)

-- The implementation: the handler, for each request that arrives.
unfoldable pub serve_requests : Env → List Request → M ℕ
serve_requests env [] = pure 0
serve_requests env ((source, msg) ∷ rs) = do
  n ← on_test env (completed 0 (record { source = source; tag = 2 }) (request_arrived msg))
  m ← serve_requests env rs
  pure (n + m)

abbrev pub answer_of : MpiCall → List (ℕ × ℕ)
answer_of (MpiCall.send (rank source) tag (result v) slot) = (source, v) ∷ []
answer_of _ = []

-- The answers among the calls made of MPI.
abbrev pub answers : List MpiCall → List (ℕ × ℕ)
answers [] = []
answers (c ∷ cs) = answer_of c ++ answers cs

-- Every variable is free and holds its cell of the memory.
pub record Represents (n : ℕ) (m : Memory) (cells : List Atomic) : Type 0 where
  pub size : length cells ≡ n
  pub holds : (i : ℕ) → i < n → get_elem? cells i ≡ some (record { locked = false; value = m i })

abbrev pub IsKnown : AtomicOp → Type 0
IsKnown (unknown op) = ⊥
IsKnown _ = Unit {0}

-- The requests name variables that exist and operations that the target knows.
abbrev pub AreValid : ℕ → List Request → Type 0
AreValid n [] = Unit {0}
AreValid n ((source, msg) ∷ rs) = (msg.index < n) × IsKnown msg.op × AreValid n rs

apply-exec :
    (op : AtomicOp) (msg : AtomicRequestMsg) (old : ℕ) (m : Memory)
    → IsKnown op
    → (apply op msg old (m msg.index)).0 ≡ m msg.index
unfolding apply
apply-exec atomic_fetch_add msg old m k = refl
apply-exec atomic_cmp_and_swp msg old m k = refl
apply-exec (unknown op) msg old m k = absurd k

apply-exec_at :
    (op : AtomicOp) (msg : AtomicRequestMsg) (old : ℕ) (m : Memory)
    → (apply op msg old (m msg.index)).1 ≡ exec_at op msg m
unfolding apply
apply-exec_at atomic_fetch_add msg old m = refl
apply-exec_at atomic_cmp_and_swp msg old m = refl
apply-exec_at (unknown op) msg old m = refl

set-Represents :
    (n : ℕ) (m : Memory) (cells : List Atomic) (i v : ℕ)
    → i < n
    → Represents n m cells
    → Represents n (update m i v) (set cells i (record { locked = false; value = v }))
set-Represents n m cells i v lt r = record {
  size = length-set cells i _ ∙ r.size;
  holds = λ j h. elim (Bool-cases (j == i)) [
    | inl e ↦
        rw (==→eq j i e, ==_refl i)
          (get_elem?-set_self cells i (record { locked = false; value = v })
            (omega (arith, r.size)))
    | inr e ↦ rw e (
        get_elem?-set_ne cells (record { locked = false; value = v })
          (λ q. ==-false→ne j i e (sym q))
        ∙ r.holds j h)
  ];
}

-- One request.
abbrev serve_one : Env → ℕ → AtomicRequestMsg → Memory → Transport → Transport
serve_one env source msg m s =
    served env source (m msg.index) (record s { atomics_request_msg = msg })

module _ (env : Env) (n : ℕ) (accepts : (k : ℕ) → env.accepts k ≡ true) where
  on_request :
      (source : ℕ) (msg : AtomicRequestMsg) (m : Memory) (s : Transport)
      → msg.index < n
      → Represents n m s.atomics
      → on_test env (completed 0 (record { source = source; tag = 2 }) (request_arrived msg)) s
        ≡ some (1, serve_one env source msg m s)
  unfolding on_test
  on_request source msg m s lt r =
      serve_lem env source (record { locked = false; value = m msg.index })
        (record s { atomics_request_msg = msg }) (r.holds msg.index lt) refl (accepts s.asked)

  serve_one-Represents :
      (source : ℕ) (msg : AtomicRequestMsg) (m : Memory) (s : Transport)
      → msg.index < n
      → Represents n m s.atomics
      → Represents n
          (update m msg.index (exec_at msg.op msg m))
          (serve_one env source msg m s).atomics
  serve_one-Represents source msg m s lt r =
      rw (apply-exec_at msg.op msg s.atomics_result_msg m)
        (set-Represents n m s.atomics msg.index (exec_at msg.op msg m) lt r)

  serve_one-answers :
      (source : ℕ) (msg : AtomicRequestMsg) (m : Memory) (s : Transport)
      → IsKnown msg.op
      → answers (serve_one env source msg m s).posted ≡ (source, m msg.index) ∷ answers s.posted
  serve_one-answers source msg m s k =
      rw (accepts (suc s.asked), apply-exec msg.op msg s.atomics_result_msg m k)

  -- Where MPI accepts every call, the handler serves requests of all ranks as the memory executes
  -- them one by one: it completes each, gives each the answer that the memory gives, in the same
  -- order, and ends with the cells of the memory in the variables, all of them free.
  pub serve_requests-refines :
      (rs : List Request) (m : Memory) (s : Transport)
      → AreValid n rs
      → Represents n m s.atomics
      → (s' : Transport) × (serve_requests env rs s ≡ some (length rs, s'))
        × Represents n (exec rs m) s'.atomics
        × (answers s'.posted ≡ exec_answers rs m (answers s.posted))
  unfolding serve_requests exec exec_answers
  serve_requests-refines [] m s v r = (s, refl, r, refl)
  serve_requests-refines ((source, msg) ∷ rs) m s (lt, k, v) r =
      let s₁ : Transport = serve_one env source msg m s in
      let (s', run, r', given) =
        serve_requests-refines rs (update m msg.index (exec_at msg.op msg m)) s₁ v
          (serve_one-Represents source msg m s lt r) in
      (
        s',
        >>=-eq_of_some
              (on_test env
                (completed 0 (record { source = source; tag = 2 }) (request_arrived msg)))
              (λ n. serve_requests env rs >>= λ m. pure (n + m)) s (on_request source msg m s lt r)
            ∙ >>=-eq_of_some (serve_requests env rs) (λ m. pure (1 + m)) s₁ run
            ∙ ap (λ k. some (k, s')) (omega arith),
        r',
        given ∙ ap (exec_answers rs _) (serve_one-answers source msg m s k),
      )
