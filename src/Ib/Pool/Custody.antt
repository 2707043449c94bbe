-- ===== src/Ib/Pool/Custody.antt =====
-- A work request that is taken from the pool is idle, and nobody else has it.
use mathlib.Core.Option.{some-injective, none-ne-some}
use nnti.Base.{
  ℕ, zero, suc, ◌+◌, ◌≤◌, ◌<◌, ◌≡◌, ◌∙◌, refl, sym, ap, true, Option, none, some, List, [], ◌∷◌,
  ◌==◌, if◌then◌else◌, update, count, erase, mem, arith, Bool-cases, inl, inr, subst,
}
use nnti.Types.{NntiResult, is_ok}
use nnti.Ib.Pool.{
  PoolWr, Pools, idle, wr_pool_rdma_pop, wr_pool_rdma_push, wr_pool_sendrecv_push, new_wr,
  wr_pool_init,
}

-- The calls on the RDMA pool, and what a work request's holder does to it.
pub data PoolCall : Type 0 where
  pop : PoolCall
  push : ℕ → PoolCall
  change : ℕ → PoolWr → PoolCall

-- The pools, and the work requests that are taken.
pub record Held : Type 0 where
  pub pools : Pools
  pub taken : List ℕ

abbrev pub take_one : Held → Option ℕ × Pools → Held
take_one h (none, s) = record h { pools = s }
take_one h (some p, s) = record { pools = s; taken = p ∷ h.taken }

-- A step of a session in which only what was taken is given back or changed.
unfoldable pub step : PoolCall → Held → Held
step pop h = take_one h (wr_pool_rdma_pop h.pools)
step (push p) h =
    if mem p h.taken
    then record { pools = wr_pool_rdma_push p h.pools; taken = erase p h.taken }
    else h
step (change p w) h =
    if mem p h.taken
    then record h { pools = record h.pools { wrs = update h.pools.wrs p w } }
    else h

unfoldable pub run : List PoolCall → Held → Held
run [] h = h
run (c ∷ cs) h = run cs (step c h)

-- Each work request is in the pool or taken, once at most, and those in the pool are idle.
pub record Inv (h : Held) : Type 0 where
  pub once : (a : ℕ) → count a h.pools.rdma_wr_pool + count a h.taken ≤ 1
  pub rests : (a : ℕ) → 0 < count a h.pools.rdma_wr_pool → h.pools.wrs a ≡ idle

count_pos : (p : ℕ) (xs : List ℕ) → mem p xs ≡ true → 0 < count p xs
count_pos p [] h = ground arith
count_pos p (x ∷ xs) h = ground (arith, count_pos p xs)

count-erase :
    (p a : ℕ) (xs : List ℕ)
    → mem p xs ≡ true
    → count a xs ≡ count a (erase p xs) + (if p == a then 1 else 0)
count-erase p a [] h = ground arith
count-erase p a (x ∷ xs) h = ground (arith, count-erase p a xs)

push-Inv :
    (p : ℕ) (h : Held)
    → mem p h.taken ≡ true
    → Inv h
    → Inv (record { pools = wr_pool_rdma_push p h.pools; taken = erase p h.taken })
unfolding wr_pool_rdma_push
push-Inv p h held inv = record {
  once = λ a. ground (arith, inv.once a, count-erase p a h.taken held);
  rests = λ a k. ground (arith, inv.rests a);
}

change-Inv :
    (p : ℕ) (w : PoolWr) (h : Held)
    → mem p h.taken ≡ true
    → Inv h
    → Inv (record h { pools = record h.pools { wrs = update h.pools.wrs p w } })
change-Inv p w h held inv = record {
  once = inv.once;
  rests = λ a k. ground (arith, inv.rests a, inv.once a, count_pos p h.taken held);
}

popped-Inv :
    (h : Held) (ps : List ℕ)
    → h.pools.rdma_wr_pool ≡ ps
    → Inv h
    → Inv (
        take_one h (elim ps [
          | [] ↦ (none, h.pools)
          | p ∷ rest ↦ (some p, record h.pools { rdma_wr_pool = rest })
        ]))
popped-Inv h [] e inv = inv
popped-Inv h (p ∷ rest) e inv = record {
  once = λ a.
      let before : count a (p ∷ rest) + count a h.taken ≤ 1 =
        subst (λ l. count a l + count a h.taken ≤ 1) e (inv.once a) in
      ground (arith, before);
  rests = λ a k. inv.rests a (subst (λ l. 0 < count a l) (sym e) (ground (arith, k)));
}

step-Inv : (c : PoolCall) (h : Held) → Inv h → Inv (step c h)
unfolding step wr_pool_rdma_pop
step-Inv pop h inv = popped-Inv h h.pools.rdma_wr_pool refl inv
step-Inv (push p) h inv = elim (Bool-cases (mem p h.taken)) [
  | inl e ↦ rw e (push-Inv p h e inv)
  | inr e ↦ rw e inv
]
step-Inv (change p w) h inv = elim (Bool-cases (mem p h.taken)) [
  | inl e ↦ rw e (change-Inv p w h e inv)
  | inr e ↦ rw e inv
]

run-Inv : (cs : List PoolCall) (h : Held) → Inv h → Inv (run cs h)
unfolding run
run-Inv [] h inv = inv
run-Inv (c ∷ cs) h inv = run-Inv cs (step c h) (step-Inv c h inv)

-- What the start of the pools keeps: addresses from the next free one on are in no pool.
record Fresh (s : Pools) : Type 0 where
  below : (a : ℕ) → s.next_wr ≤ a → count a s.rdma_wr_pool ≡ 0
  held_once : (a : ℕ) → count a s.rdma_wr_pool ≤ 1
  resting : (a : ℕ) → 0 < count a s.rdma_wr_pool → s.wrs a ≡ idle

init-Fresh :
    (registers : ℕ → NntiResult) (n : ℕ) (s : Pools)
    → Fresh s
    → Fresh (wr_pool_init registers n s).1
unfolding wr_pool_init wr_pool_rdma_push wr_pool_sendrecv_push
init-Fresh registers zero s f = f
init-Fresh registers (suc n) s f = elim (Bool-cases (is_ok (registers s.next_wr))) [
  | inl e ↦ rw e (
      init-Fresh registers n
        (wr_pool_sendrecv_push (suc s.next_wr)
          (new_wr (wr_pool_rdma_push s.next_wr (new_wr s).1)).1)
        (record {
          below = λ a k. ground (arith, f.below a);
          held_once = λ a. ground (arith, f.held_once a, f.below a);
          resting = λ a k. ground (arith, f.resting a, f.below a);
        }))
  | inr e ↦ rw e (record {
    below = λ a k. f.below a (omega (arith, k));
    held_once = f.held_once;
    resting = λ a k. ground (arith, f.resting a, f.below a);
  })
]

abbrev pub no_pools : Pools
no_pools = record { rdma_wr_pool = []; sendrecv_wr_pool = []; wrs = λ a. idle; next_wr = 0 }

popped_idle :
    (h : Held) (ps : List ℕ) (p : ℕ) (s : Pools)
    → Inv h
    → h.pools.rdma_wr_pool ≡ ps
    → (elim ps as (λ x. Option ℕ × Pools) [
      | [] ↦ (none, h.pools)
      | q ∷ rest ↦ (some q, record h.pools { rdma_wr_pool = rest })
    ])
      ≡ (some p, s)
    → (s.wrs p ≡ idle) × (count p h.taken ≡ 0) × (count p s.rdma_wr_pool ≡ 0)
popped_idle h [] p s inv e f = absurd (none-ne-some p (ap (λ x. x.0) f))
popped_idle h (q ∷ rest) p s inv e f =
    let here : count q h.pools.rdma_wr_pool ≡ suc (count q rest) = ap (count q) e ∙ ground arith in
    subst (λ t. (t.wrs p ≡ idle) × (count p h.taken ≡ 0) × (count p t.rdma_wr_pool ≡ 0))
      (ap (λ x. x.1) f)
      (subst (λ a. (h.pools.wrs a ≡ idle) × (count a h.taken ≡ 0) × (count a rest ≡ 0))
        (some-injective q p (ap (λ x. x.0) f))
        (
          inv.rests q (omega (arith, here)),
          omega (arith, here, inv.once q),
          omega (arith, here, inv.once q),
        ))

-- From `wr_pool_init` on, whatever of it was registered, after any session in which only what was
-- taken from the RDMA pool is given back or changed: a work request that is taken is idle, nobody
-- has it, and it is in the pool no more.
pub pop-idle :
    (registers : ℕ → NntiResult) (n : ℕ) (cs : List PoolCall) (p : ℕ) (s : Pools)
    → let h : Held =
        run cs (record { pools = (wr_pool_init registers n no_pools).1; taken = [] }) in
      wr_pool_rdma_pop h.pools ≡ (some p, s)
      → (s.wrs p ≡ idle) × (count p h.taken ≡ 0) × (count p s.rdma_wr_pool ≡ 0)
unfolding wr_pool_rdma_pop
pop-idle registers n cs p s e =
    let start : Held = record { pools = (wr_pool_init registers n no_pools).1; taken = [] } in
    let fresh : Fresh (wr_pool_init registers n no_pools).1 =
      init-Fresh registers n no_pools
        (record { below = λ a k. refl; held_once = λ a. omega arith; resting = λ a k. refl }) in
    let inv : Inv (run cs start) =
      run-Inv cs start
        (record { once = λ a. omega (arith, fresh.held_once a); rests = fresh.resting }) in
    popped_idle (run cs start) (run cs start).pools.rdma_wr_pool p s inv refl e
