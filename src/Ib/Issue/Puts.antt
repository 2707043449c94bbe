-- ===== src/Ib/Issue/Puts.antt =====
-- A PUT between buffers of several segments, from its start to its last completion
-- (nnti/nnti_ib.cpp).
use mathlib.Core.Option.{some-injective, none-ne-some}
use nnti.Base.{
  ℕ, ◌+◌, ◌<◌, ◌≡◌, refl, sym, ap, ◌&&◌, Bool-cases, inl, inr, Option, none, some, List,
  update_self,
}
use nnti.Types.{ok}
use nnti.Mpi.State.{bop_local_read}
use nnti.Ib.{IbOp, IbWorkRequest, NntiWr}
use nnti.Ib.Pool.{Pools, new_wr, wr_pool_rdma_pop, wr_pool_sendrecv_pop}
use nnti.Ib.Issue.{
  IbConfig, IbRequest, IbState, lookup_wr, popped, allocated, take_sendrecv, take_rdma, start,
  started_work, begun,
}
use nnti.Ib.Issue.Fresh.{IsFresh, insert_wrs-Inserted}

-- Taking a work request leaves the map as it is.
pub record Keeps (s t : IbState) : Type 0 where
  pub wrmap : t.wrmap ≡ s.wrmap
  pub counter : t.counter ≡ s.counter
  pub wr_queue : t.wr_queue ≡ s.wr_queue

popped-Keeps : (s t : IbState) (p : ℕ) (o : Option ℕ × Pools) → popped s o ≡ some (p, t) → Keeps s t
popped-Keeps s t p (none, pools) e = absurd (none-ne-some _ e)
popped-Keeps s t p (some q, pools) e =
    let f = some-injective _ _ e in
    record {
      wrmap = ap (λ x. x.1.wrmap) (sym f);
      counter = ap (λ x. x.1.counter) (sym f);
      wr_queue = ap (λ x. x.1.wr_queue) (sym f);
    }

allocated-Keeps : (s t : IbState) (p : ℕ) (o : ℕ × Pools) → allocated s o ≡ some (p, t) → Keeps s t
allocated-Keeps s t p (q, pools) e =
    let f = some-injective _ _ e in
    record {
      wrmap = ap (λ x. x.1.wrmap) (sym f);
      counter = ap (λ x. x.1.counter) (sym f);
      wr_queue = ap (λ x. x.1.wr_queue) (sym f);
    }

pub take_sendrecv-Keeps :
    (cfg : IbConfig) (s t : IbState) (p : ℕ) → take_sendrecv cfg s ≡ some (p, t) → Keeps s t
unfolding take_sendrecv
take_sendrecv-Keeps cfg s t p e = elim (Bool-cases cfg.use_wr_pool) [
  | inl f ↦ popped-Keeps s t p (wr_pool_sendrecv_pop s.pools) (rw f at e)
  | inr f ↦ allocated-Keeps s t p (new_wr s.pools) (rw f at e)
]

pub take_rdma-Keeps :
    (cfg : IbConfig) (s t : IbState) (p : ℕ) → take_rdma cfg s ≡ some (p, t) → Keeps s t
unfolding take_rdma
take_rdma-Keeps cfg s t p e = elim (Bool-cases (cfg.use_wr_pool && cfg.use_rdma_target_ack)) [
  | inl f ↦ popped-Keeps s t p (wr_pool_rdma_pop s.pools) (rw f at e)
  | inr f ↦ take_sendrecv-Keeps cfg s t p (rw f at e)
]

pub Keeps-IsFresh : (s t : IbState) → Keeps s t → IsFresh s → IsFresh t
Keeps-IsFresh s t k h = rw k.wrmap (rw k.counter h)

-- What has been started.
pub record Begun (n p : ℕ) (s t : IbState) (work : IbWorkRequest) : Type 0 where
  pub fresh : IsFresh t
  pub new : (i : ℕ) → i < n → lookup_wr (s.counter + i) t.wrmap ≡ some p
  pub old : (j : ℕ) → j < s.counter → lookup_wr j t.wrmap ≡ lookup_wr j s.wrmap
  pub work_of : (t.reqs p).work ≡ work
  pub counts : t.counts ≡ s.counts

pub start-Begun :
    (op : IbOp) (ops cq n key offset len p : ℕ) (s : IbState)
    → IsFresh s
    → (t : IbState) × (start op ops cq n key offset len p s ≡ some t)
      × Begun n p s t (started_work op ops cq n (s.reqs p).work.last_wc)
unfolding start
start-Begun op ops cq n key offset len p s fresh =
    let (m, run, ins) = insert_wrs-Inserted n s.counter p s.wrmap fresh in
    (
      begun op ops cq n key offset len p s m,
      rw run refl,
      record {
        fresh = ins.below;
        new = ins.new;
        old = ins.old;
        work_of = ap (λ (r : IbRequest). r.work) (update_self s.reqs p _);
        counts = refl;
      },
    )

abbrev user_put : NntiWr
user_put = record { ops = bop_local_read; result = ok }
