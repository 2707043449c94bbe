-- ===== src/Ib/Issue/Lands.antt =====
-- The operations of nnti/nnti_ib.cpp that start a transfer keep the keys of the map counted.
pub mod Ends
use nnti.Base.{
  ℕ, zero, suc, ◌+◌, ◌≤◌, ◌≡◌, ◌∙◌, refl, sym, ap, subst, Bool, true, false, ==_refl, Bool-cases,
  inl, inr, Option, none, some, List, [], ◌∷◌, ◌==◌, ◌&&◌, if◌then◌else◌, length, erase, mem, arith,
}
use nnti.Types.{NntiResult}
use nnti.Mpi.State.{bop_recv_queue, bop_atomics}
use nnti.Ib.{
  IbOp, IbWorkRequest, Counts, is_wr_complete, set_state, WrState, wait_complete, reset, posted,
  started, attached, canceling, rdma_complete, ack_complete, error,
}
use nnti.Ib.Pool.{Pools, new_wr, wr_pool_rdma_pop, wr_pool_sendrecv_pop}
use nnti.Ib.Segments.{Segment, Local, Stray, Sge}
use nnti.Ib.Issue.{
  IbConfig, IbRequest, IbState, Posted, ◌>>=◌, lookup_wr, insert_wr, insert_wrs, erase_wr, popped,
  allocated, take_sendrecv, take_rdma, start, begun, write, enqueue, Issued, after_issue, ib_put,
  ib_get,
}
use nnti.Ib.Issue.Message.{Dest, Atomics, ib_send, ib_atomic_fop, ib_atomic_cswap}
use nnti.Ib.Issue.Receive.{
  RecvBuf, Receiving, receiving, refused, post_srq, received, after_post, keyed,
  post_recv_work_request, post_ack_recv_work_request, repost_recv_work_request,
  repost_ack_recv_work_request, requeued, reposted,
}
use nnti.Ib.Issue.Cleanup.{
  wait_cleanup, give_back, whatever, ops_of, is_receiving, is_target, ib_cancel, in_progress,
  find_free, ib_create_work_request, ib_destroy_work_request,
}
use nnti.Ib.Issue.Waited.{settle}
use nnti.Ib.Issue.Fresh.{
  Below, IsFresh, Below-mono, Below-erase_wr, insert_wr-some, insert_wrs-Inserted,
}
use nnti.Ib.Issue.Puts.{Begun, start-Begun}

-- What holds of the outcome, if there is one.
abbrev pub Lands : {A : Type 0} → (A → Type 0) → Option A → Type 0
Lands P none = 0 ≤ 0
Lands P (some a) = P a

pub Lands-bind :
    {A B : Type 0} (P : A → Type 0) (Q : B → Type 0) (o : Option A) (f : A → Option B)
    → Lands P o
    → ((a : A) → P a → Lands Q (f a))
    → Lands Q (o >>= f)
Lands-bind P Q none f h k = omega arith
Lands-bind P Q (some a) f h k = k a h

pub Lands-any :
    {A B : Type 0} (Q : B → Type 0) (o : Option A) (f : A → Option B)
    → ((a : A) → Lands Q (f a))
    → Lands Q (o >>= f)
Lands-any Q none f k = omega arith
Lands-any Q (some a) f k = k a

pub Lands-if :
    {A : Type 0} (P : A → Type 0) (b : Bool) (x y : Option A)
    → Lands P x
    → Lands P y
    → Lands P (if b then x else y)
Lands-if P true x y h k = h
Lands-if P false x y h k = k

pub Lands-state :
    {A : Type 0} (P : A → Type 0) (st : WrState) (x y : Option A)
    → Lands P x
    → Lands P y
    → Lands P (elim st [ wait_complete ↦ x | _ ↦ y ])
Lands-state P wait_complete x y h k = h
Lands-state P reset x y h k = k
Lands-state P posted x y h k = k
Lands-state P started x y h k = k
Lands-state P attached x y h k = k
Lands-state P canceling x y h k = k
Lands-state P rdma_complete x y h k = k
Lands-state P ack_complete x y h k = k
Lands-state P error x y h k = k

abbrev pub Taken : ℕ × IbState → Type 0
Taken x = IsFresh x.1

abbrev pub After : Option IbState → Type 0
After = Lands IsFresh

pub popped-Lands : (s : IbState) (o : Option ℕ × Pools) → IsFresh s → Lands Taken (popped s o)
popped-Lands s (none, pools) h = omega arith
popped-Lands s (some p, pools) h = h

pub take_sendrecv-Lands :
    (cfg : IbConfig) (s : IbState) → IsFresh s → Lands Taken (take_sendrecv cfg s)
unfolding take_sendrecv
take_sendrecv-Lands cfg s h = elim (Bool-cases cfg.use_wr_pool) [
  | inl e ↦ rw e (popped-Lands s (wr_pool_sendrecv_pop s.pools) h)
  | inr e ↦ rw e h
]

pub start-Lands :
    (op : IbOp) (ops cq n key offset len p : ℕ) (s : IbState)
    → IsFresh s
    → After (start op ops cq n key offset len p s)
start-Lands op ops cq n key offset len p s h =
    let (t, run, b) = start-Begun op ops cq n key offset len p s h in rw run b.fresh

pub take_rdma-Lands : (cfg : IbConfig) (s : IbState) → IsFresh s → Lands Taken (take_rdma cfg s)
unfolding take_rdma
take_rdma-Lands cfg s h = elim (Bool-cases (cfg.use_wr_pool && cfg.use_rdma_target_ack)) [
  | inl e ↦ rw e (popped-Lands s (wr_pool_rdma_pop s.pools) h)
  | inr e ↦ rw e (take_sendrecv-Lands cfg s h)
]

abbrev pub IssuedFresh : NntiResult × (List Posted × IbState) → Type 0
IssuedFresh x = IsFresh x.1.1

pub after_issue-Lands : (o : Issued) → Lands IssuedFresh o → After (after_issue o)
after_issue-Lands none h = h
after_issue-Lands (some (rc, (ps, t))) h = h

-- What every operation that starts one does, after it has taken a work request.
pub start_then-Lands :
    (op : IbOp) (ops cq n key offset len p : ℕ) (s : IbState) (f : IbState → Issued)
    → IsFresh s
    → ((t : IbState) → IsFresh t → Lands IssuedFresh (f t))
    → Lands IssuedFresh (start op ops cq n key offset len p s >>= f)
start_then-Lands op ops cq n key offset len p s f h k =
    Lands-bind IsFresh IssuedFresh (start op ops cq n key offset len p s) f
      (start-Lands op ops cq n key offset len p s h) k

module _ (stray : Stray) (cfg : IbConfig) (posts : Posted → Bool) (s0 : IbState)
    (fresh : IsFresh s0) where
  pub put-Lands :
      (src : Local) (src_offset len : ℕ) (dst : List Segment) (dst_offset : ℕ)
      → Lands IssuedFresh (ib_put stray cfg posts src src_offset len dst dst_offset s0)
  unfolding ib_put
  put-Lands src src_offset len dst dst_offset =
      Lands-bind Taken IssuedFresh (take_rdma cfg s0) _ (take_rdma-Lands cfg s0 fresh) (λ (p, s) h.
        Lands-any IssuedFresh _ _ (λ ws. start_then-Lands _ _ _ _ _ _ _ p s _ h (λ t g. g)))

  pub get-Lands :
      (src : List Segment) (src_offset len : ℕ) (dst : Local) (dst_offset : ℕ)
      → Lands IssuedFresh (ib_get stray cfg posts src src_offset len dst dst_offset s0)
  unfolding ib_get
  get-Lands src src_offset len dst dst_offset =
      Lands-bind Taken IssuedFresh (take_rdma cfg s0) _ (take_rdma-Lands cfg s0 fresh) (λ (p, s) h.
        Lands-any IssuedFresh _ _ (λ ws. start_then-Lands _ _ _ _ _ _ _ p s _ h (λ t g. g)))

  pub send-Lands :
      (msg : Local) (n : ℕ) (dest : Option Dest)
      → Lands IssuedFresh (ib_send stray cfg posts msg n dest s0)
  unfolding ib_send
  send-Lands msg n dest =
      Lands-bind Taken IssuedFresh (take_sendrecv cfg s0) _ (take_sendrecv-Lands cfg s0 fresh)
        (λ (p, s) h. start_then-Lands _ _ _ _ _ _ _ p s _ h (λ t g. g))

  pub fop-Lands :
      (a : Atomics) (target result x : ℕ)
      → Lands IssuedFresh (ib_atomic_fop cfg posts a target result x s0)
  unfolding ib_atomic_fop
  fop-Lands a target result x =
      Lands-bind Taken IssuedFresh (take_sendrecv cfg s0) _ (take_sendrecv-Lands cfg s0 fresh)
        (λ (p, s) h. start_then-Lands _ _ _ _ _ _ _ p s _ h (λ t g. g))

  pub cswap-Lands :
      (a : Atomics) (target result x y : ℕ)
      → Lands IssuedFresh (ib_atomic_cswap cfg posts a target result x y s0)
  unfolding ib_atomic_cswap
  cswap-Lands a target result x y =
      Lands-bind Taken IssuedFresh (take_sendrecv cfg s0) _ (take_sendrecv-Lands cfg s0 fresh)
        (λ (p, s) h. start_then-Lands _ _ _ _ _ _ _ p s _ h (λ t g. g))
