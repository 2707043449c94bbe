-- ===== src/Ib/Transfer.antt =====
-- A PUT or GET of several descriptors is complete when each of them has completed.
use nnti.Base.{
  ℕ, zero, suc, ◌+◌, ◌^◌, ◌<◌, ◌≤◌, ◌≡◌, ◌∙◌, refl, ap, Bool, true, false, not, ◌&&◌, Option, none,
  some, ◌==◌, if◌then◌else◌, arith, Bool-cases, inl, inr, ==_refl,
}
use nnti.Types.{NntiResult, ok}
use nnti.Mpi.State.{bop_atomics}
use nnti.Ib.{
  started, rdma_complete, ack_complete, IbOp, put_initiator, get_initiator, success, rdma_write,
  rdma_read, no_flags, with_imm, Wc, NntiWr, IbWorkRequest, Counts, is_wr_complete, process_event,
  count_completed, finish_transfer, acknowledge,
}

-- A GET or a PUT, and the completion of one of its descriptors.
abbrev pub op_of : Bool → IbOp
op_of true = get_initiator
op_of false = put_initiator

abbrev pub wc_of : Bool → Wc
wc_of true = record { status = success; opcode = rdma_read; flags = no_flags }
wc_of false = record { status = success; opcode = rdma_write; flags = no_flags }

-- The acknowledgement of the target.
abbrev pub ack_wc : Wc
ack_wc = record { status = success; opcode = rdma_write; flags = with_imm }

abbrev pub after :
    {A : Type 0}
    → Option (NntiResult × (IbWorkRequest × Counts))
    → (IbWorkRequest → Counts → Option A)
    → Option A
after none f = none
after (some (rc, (w, c))) f = f w c

-- The work request and the counts after `k` completions.
unfoldable pub completions :
    Bool → Wc → ℕ → IbWorkRequest → Counts → Option (IbWorkRequest × Counts)
completions ack wc zero w c = some (w, c)
completions ack wc (suc k) w c = after (process_event ack wc w c) (completions ack wc k)

-- A transfer of `n` descriptors of which `k` have completed.
abbrev pub transfer : Bool → Bool → NntiWr → ℕ → ℕ → ℕ → Option Wc → IbWorkRequest
transfer ack get user cq n k last = record {
  nnti_wr = some (if (k == n) && not ack then record user { result = ok } else user);
  state = if k == n then rdma_complete else started;
  last_op = op_of get;
  sq_wr_count = n;
  sq_wr_completed_count = k;
  cq = cq;
  last_wc = last;
}

transfer_step :
    (ack get : Bool) (user : NntiWr) (cq n k : ℕ) (last : Option Wc) (c : Counts)
    → (user.ops == bop_atomics) ≡ false
    → k < n
    → n < 2 ^ 32
    → process_event ack (wc_of get) (transfer ack get user cq n k last) c
      ≡ some (ok, (transfer ack get user cq n (suc k) (some (wc_of get)), c))
unfolding process_event count_completed finish_transfer
transfer_step true true user cq n k last c plain h bound = ground arith
transfer_step true false user cq n k last c plain h bound = ground arith
transfer_step false true user cq n k last c plain h bound = ground arith
transfer_step false false user cq n k last c plain h bound = ground arith

completions-transfer :
    (ack get : Bool) (user : NntiWr) (cq n k j : ℕ) (last : Option Wc) (c : Counts)
    → (user.ops == bop_atomics) ≡ false
    → k + j ≤ n
    → n < 2 ^ 32
    → (last' : Option Wc) × (completions ack (wc_of get) j (transfer ack get user cq n k last) c
        ≡ some (transfer ack get user cq n (k + j) last', c))
unfolding completions
completions-transfer ack get user cq n k zero last c plain h bound =
    (last, ap (λ i. some (transfer ack get user cq n i last, c)) (omega arith))
completions-transfer ack get user cq n k (suc j) last c plain h bound =
    let (last', e) =
      completions-transfer ack get user cq n (suc k) j (some (wc_of get)) c plain (omega arith)
        bound in
    (
      last',
      ap (λ o. after o (completions ack (wc_of get) j))
            (transfer_step ack get user cq n k last c plain (omega arith) bound)
          ∙ e
          ∙ ap (λ i. some (transfer ack get user cq n i last', c)) (omega arith),
    )

transfer-is_wr_complete :
    (ack get : Bool) (user : NntiWr) (cq n k : ℕ) (last : Option Wc)
    → is_wr_complete (transfer ack get user cq n k last) ≡ (k == n)
unfolding is_wr_complete
transfer-is_wr_complete ack get user cq n k last = elim (Bool-cases (k == n)) [
  | inl e ↦ rw e refl
  | inr e ↦ rw e refl
]

-- A PUT or GET of at least one descriptor and less than 2^32, whose user's work request is not that of an atomic
-- operation: after `k` of its `n` descriptors have completed, it is complete exactly where `k` is `n`,
-- whether targets are acknowledged or not; the counts of the transport do not change.
pub transfer_completes :
    (ack get : Bool) (user : NntiWr) (cq n k : ℕ) (last : Option Wc) (c : Counts)
    → (user.ops == bop_atomics) ≡ false
    → 0 < n
    → k ≤ n
    → n < 2 ^ 32
    → (w : IbWorkRequest) × (completions ack (wc_of get) k (transfer ack get user cq n 0 last) c
        ≡ some (w, c))
      × (w.sq_wr_completed_count ≡ k)
      × (is_wr_complete w ≡ (k == n))
transfer_completes ack get user cq n k last c plain some_descriptor h bound =
    let (last', e) = completions-transfer ack get user cq n 0 k last c plain (omega arith) bound in
    (
      transfer ack get user cq n (0 + k) last',
      e,
      omega arith,
      transfer-is_wr_complete ack get user cq n (0 + k) last' ∙ ap (λ i. i == n) (omega arith),
    )

acknowledge_step :
    (get : Bool) (user : NntiWr) (cq n : ℕ) (last : Option Wc) (c : Counts)
    → (user.ops == bop_atomics) ≡ false
    → (w : IbWorkRequest) × (process_event true ack_wc (transfer true get user cq n n last) c
        ≡ some (ok, (w, c)))
      × (w.nnti_wr ≡ some (record user { result = ok }))
      × (is_wr_complete w ≡ false)
unfolding process_event acknowledge is_wr_complete
acknowledge_step true user cq n last c plain = (
  record (transfer true true user cq n n last) {
    nnti_wr = some (record user { result = ok });
    state = ack_complete;
    last_wc = some ack_wc;
  },
  ground arith,
  refl,
  refl,
)
acknowledge_step false user cq n last c plain = (
  record (transfer true false user cq n n last) {
    nnti_wr = some (record user { result = ok });
    state = ack_complete;
    last_wc = some ack_wc;
  },
  ground arith,
  refl,
  refl,
)

-- Where targets are acknowledged, for a PUT or GET of at least one descriptor, whose user's work
-- request is not that of an atomic operation: it is complete when all its descriptors have
-- completed; after its acknowledgement, the user's result is NNTI_OK, but it is not complete.
pub acknowledged_incomplete :
    (get : Bool) (user : NntiWr) (cq n : ℕ) (last : Option Wc) (c : Counts)
    → (user.ops == bop_atomics) ≡ false
    → 0 < n
    → n < 2 ^ 32
    → (v w : IbWorkRequest) × (completions true (wc_of get) n (transfer true get user cq n 0 last) c
        ≡ some (v, c))
      × (is_wr_complete v ≡ true)
      × (process_event true ack_wc v c ≡ some (ok, (w, c)))
      × (w.nnti_wr ≡ some (record user { result = ok }))
      × (is_wr_complete w ≡ false)
acknowledged_incomplete get user cq n last c plain some_descriptor bound =
    let (last', e) = completions-transfer true get user cq n 0 n last c plain (omega arith) bound in
    let (w, p, r, i) = acknowledge_step get user cq n last' c plain in
    (
      transfer true get user cq n n last',
      w,
      e ∙ ap (λ i. some (transfer true get user cq n i last', c)) (omega arith),
      transfer-is_wr_complete true get user cq n n last' ∙ ==_refl n,
      p,
      r,
      i,
    )
