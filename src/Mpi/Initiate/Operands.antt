-- ===== src/Mpi/Initiate/Operands.antt =====
-- PUT and GET at their initiator, where the objects that they name are in memory.
use nnti.Base.{ℕ, suc, ◌≡◌, ◌∙◌, ap, true, some, [], ◌∷◌, ◌++◌, update}
use nnti.Types.{NntiResult, ok}
use nnti.Mpi.State.{MpiWorkRequest, MemoryHandle, RdmaAddr, Buffer, WorkRequest}
use nnti.Mpi.Machine.{
  get_buffer_lem, enqueue_lem, get_nnti_wr_lem, post_or_fail_accepted, enqueue, post_or_fail,
  >>=-eq_of_some, MpiCall, Env, Transport, M, pure, ◌>>=◌, ◌>>◌, assert_some, get_buffer,
  get_nnti_wr, put_nnti_wr,
}
use nnti.Mpi.Initiate.{put, get, put_posts, get_posts, link, get_segment}

-- The objects that a transfer names are in memory: the local buffer with its handle, the descriptor
-- of the remote buffer, and the user's work request.
pub record Operands (s : Transport) (l : ℕ) (local : Buffer) (h : MemoryHandle) (r : ℕ)
    (remote : Buffer) (wr : ℕ) (user : WorkRequest) : Type 0 where
  pub at_l : s.buffers l ≡ some local
  pub handle : local.transport_private ≡ some h
  pub at_r : s.buffers r ≡ some remote
  pub at_wr : s.nnti_wrs wr ≡ some user

-- What a PUT or GET that started leaves: the new work request, the user's, and the local buffer
-- with the new one at the end of its queue.
abbrev pub linked :
    ℕ → ℕ → MpiWorkRequest → ℕ → Buffer → MemoryHandle → WorkRequest → ℕ → Transport → Transport
linked wr p w l local h user ops s = record s {
  wrs = update s.wrs p (some w);
  nnti_wrs = update s.nnti_wrs wr (
      some (record user {
        transport_id = local.transport_id;
        reg_buf = some l;
        ops = ops;
        transport_private = some p;
      }));
  buffers = update s.buffers l (
      some (record local {
        transport_private = some (record h { wr_queue = h.wr_queue ++ (p ∷ []) });
      }));
}

pub link_lem :
    (wr p : ℕ) (w : MpiWorkRequest) (l : ℕ) (local : Buffer) (h : MemoryHandle) (user : WorkRequest)
    (ops : ℕ) (s : Transport)
    → s.buffers l ≡ some local
    → local.transport_private ≡ some h
    → s.nnti_wrs wr ≡ some user
    → link wr p w l local.transport_id ops s ≡ some (ok, linked wr p w l local h user ops s)
unfolding link
link_lem wr p w l local h user ops s el eh ew =
    let user' : WorkRequest = record user {
      transport_id = local.transport_id;
      reg_buf = some l;
      ops = ops;
      transport_private = some p;
    } in
    let s₁ : Transport = record s { wrs = update s.wrs p (some w) } in
    let s₂ : Transport = record s₁ { nnti_wrs = update s.nnti_wrs wr (some user') } in
    >>=-eq_of_some (get_nnti_wr wr)
      (λ user.
        put_nnti_wr wr (record user {
          transport_id = local.transport_id;
          reg_buf = some l;
          ops = ops;
          transport_private = some p;
        })
        >> (enqueue l p >> pure ok))
      s₁ (get_nnti_wr_lem wr s₁ user ew)
    ∙ >>=-eq_of_some (enqueue l p) (λ _. pure ok) s₂ (enqueue_lem l p s₂ local h el eh)

module _ (env : Env) (s : Transport) (l : ℕ) (local : Buffer) (h : MemoryHandle) (r : ℕ)
    (remote : Buffer) (wr : ℕ) (user : WorkRequest)
    (operands : Operands s l local h r remote wr user) where
  -- Both calls of MPI are accepted.
  abbrev pub Accepted : Type 0
  Accepted = (env.accepts s.asked ≡ true) × (env.accepts (suc s.asked) ≡ true)

  -- The state when the work request `w` was made and the calls `first` and `second` posted.
  abbrev pub both_posted : MpiWorkRequest → MpiCall → MpiCall → Transport
  both_posted w first second = record s {
    wrs = update s.wrs s.next_wr (some w);
    next_wr = suc s.next_wr;
    posted = second ∷ first ∷ s.posted;
    asked = suc (suc s.asked);
  }

  read_operands :
      (f : Buffer → Buffer → M NntiResult)
      → (get_buffer l >>= λ a. get_buffer r >>= λ b. assert_some a.transport_private >>= λ _. f a b)
          s
        ≡ f local remote s
  read_operands f =
      >>=-eq_of_some (get_buffer l)
        (λ a. get_buffer r >>= λ b. assert_some a.transport_private >>= λ _. f a b) s
        (get_buffer_lem l s local operands.at_l)
      ∙ >>=-eq_of_some (get_buffer r) (λ b. assert_some local.transport_private >>= λ _. f local b)
          s (get_buffer_lem r s remote operands.at_r)
      ∙ ap (λ o. (assert_some o >>= λ _. f local remote) s) operands.handle

  module _ (segment : RdmaAddr) (at : remote.segment ≡ some segment) where
    pub put_operands :
        (so n dO : ℕ) → put env l so n r dO wr s ≡ put_posts env l local remote segment so n dO wr s
    unfolding put
    put_operands so n dO =
        read_operands (λ a b. get_segment b >>= λ g. put_posts env l a b g so n dO wr)
        ∙ ap (λ o. (assert_some o >>= λ g. put_posts env l local remote g so n dO wr) s) at

    pub get_operands :
        (here : RdmaAddr) (so n dO : ℕ)
        → local.segment ≡ some here
        → get env r so n l dO wr s ≡ get_posts env remote l local here segment so n dO wr s
    unfolding get
    get_operands here so n dO e =
        read_operands
          (λ a b. get_segment a >>= λ g. get_segment b >>= λ k. get_posts env b l a g k so n dO wr)
        ∙ ap
            (λ o.
              (assert_some o >>= λ g.
              get_segment remote >>= λ k. get_posts env remote l local g k so n dO wr)
                s)
            e
        ∙ ap (λ o. (assert_some o >>= λ k. get_posts env remote l local here k so n dO wr) s) at

    module _ (accepted : Accepted) where
      -- Two accepted calls, and the link of the new work request.
      pub posts_lem :
          (w w' : MpiWorkRequest) (first second : MpiCall) (ops : ℕ)
          → post_or_fail env first
              (post_or_fail env second (link wr s.next_wr w' l local.transport_id ops))
              (record s { wrs = update s.wrs s.next_wr (some w); next_wr = suc s.next_wr })
            ≡ some (ok, linked wr s.next_wr w' l local h user ops (both_posted w first second))
      posts_lem w w' first second ops =
          let s₁ : Transport = record s {
            wrs = update s.wrs s.next_wr (some w);
            next_wr = suc s.next_wr;
          } in
          let s₂ : Transport = record s₁ { posted = first ∷ s.posted; asked = suc s.asked } in
          post_or_fail_accepted env first
            (post_or_fail env second (link wr s.next_wr w' l local.transport_id ops)) s₁ accepted.0
          ∙ post_or_fail_accepted env second (link wr s.next_wr w' l local.transport_id ops) s₂
              accepted.1
          ∙ link_lem wr s.next_wr w' l local h user ops (both_posted w first second) operands.at_l
              operands.handle operands.at_wr
