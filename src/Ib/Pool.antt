-- ===== src/Ib/Pool.antt =====
-- nnti/nnti_ib.cpp: the pools of work requests. A work request is its address and what the pool sets in
-- it; the lock of the pools makes each call one step.
pub mod Custody
use nnti.Base.{
  ℕ, zero, suc, Bool, true, false, Option, none, some, List, [], ◌∷◌, ◌++◌, if◌then◌else◌, update,
}
use nnti.Types.{NntiResult, ok, is_ok}
use nnti.Ib.{WrState, reset, IbOp, other}

-- `last_op` and `state` of an `ib_work_request`.
pub record PoolWr : Type 0 where
  pub last_op : IbOp
  pub state : WrState

-- `rdma_wr_pool`, `sendrecv_wr_pool`, the work requests at their addresses, and the next free address.
pub record Pools : Type 0 where
  pub rdma_wr_pool : List ℕ
  pub sendrecv_wr_pool : List ℕ
  pub wrs : ℕ → PoolWr
  pub next_wr : ℕ

abbrev pub idle : PoolWr
idle = record { last_op = other 0; state = reset }

-- `wr_pool_rdma_pop`: NULL where the pool is empty.
unfoldable pub wr_pool_rdma_pop : Pools → Option ℕ × Pools
wr_pool_rdma_pop s = elim s.rdma_wr_pool [
  | [] ↦ (none, s)
  | p ∷ ps ↦ (some p, record s { rdma_wr_pool = ps })
]

-- `wr_pool_sendrecv_pop`
unfoldable pub wr_pool_sendrecv_pop : Pools → Option ℕ × Pools
wr_pool_sendrecv_pop s = elim s.sendrecv_wr_pool [
  | [] ↦ (none, s)
  | p ∷ ps ↦ (some p, record s { sendrecv_wr_pool = ps })
]

-- `wr_pool_rdma_push`
unfoldable pub wr_pool_rdma_push : ℕ → Pools → Pools
wr_pool_rdma_push p s = record s { rdma_wr_pool = p ∷ s.rdma_wr_pool; wrs = update s.wrs p idle }

-- `wr_pool_sendrecv_push`
unfoldable pub wr_pool_sendrecv_push : ℕ → Pools → Pools
wr_pool_sendrecv_push p s = record s {
  sendrecv_wr_pool = p ∷ s.sendrecv_wr_pool;
  wrs = update s.wrs p idle;
}

-- `calloc`, at a new address.
abbrev pub new_wr : Pools → ℕ × Pools
new_wr s = (s.next_wr, record s { next_wr = suc s.next_wr; wrs = update s.wrs s.next_wr idle })

-- `wr_pool_init` of `pool_size` pairs; `registers` says of the address of a work request what
-- `wr_pool_register` returns.
unfoldable pub wr_pool_init : (ℕ → NntiResult) → ℕ → Pools → NntiResult × Pools
wr_pool_init registers zero s = (ok, s)
wr_pool_init registers (suc pool_size) s =
    let (p, s1) = new_wr s in
    let (q, s2) = new_wr (wr_pool_rdma_push p s1) in
    let rest : NntiResult × Pools = wr_pool_init registers pool_size (wr_pool_sendrecv_push q s2) in
    if is_ok (registers p) then rest else (registers p, s1)

-- The first loop of `wr_pool_fini`: the addresses that are freed. It stops at the first that is not
-- deregistered, which is out of the pool then.
unfoldable pub drain_rdma : (ℕ → NntiResult) → List ℕ → NntiResult × (List ℕ × List ℕ)
drain_rdma deregisters [] = (ok, ([], []))
drain_rdma deregisters (p ∷ ps) =
    let (rc, (freed, left)) = drain_rdma deregisters ps in
    if is_ok (deregisters p) then (rc, (p ∷ freed, left)) else (deregisters p, ([], ps))

abbrev pub fini_after : Pools → NntiResult × (List ℕ × List ℕ) → NntiResult × (List ℕ × Pools)
fini_after s (rc, (freed, left)) =
    if is_ok rc
    then (
      rc,
      (freed ++ s.sendrecv_wr_pool, record s { rdma_wr_pool = left; sendrecv_wr_pool = [] }),
    )
    else (rc, (freed, record s { rdma_wr_pool = left }))

-- `wr_pool_fini`: the result, the addresses that are freed, and the pools.
unfoldable pub wr_pool_fini : (ℕ → NntiResult) → Pools → NntiResult × (List ℕ × Pools)
wr_pool_fini deregisters s = fini_after s (drain_rdma deregisters s.rdma_wr_pool)
