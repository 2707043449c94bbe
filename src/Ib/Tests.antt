-- ===== src/Ib/Tests.antt =====
-- The theorems on the InfiniBand transport at inputs.
mod Put
mod Register
mod Status
use nnti.Base.{List, count, ◌≡◌, refl, true, false, none, some, [], ◌∷◌, arith}
use nnti.Types.{ok, eio}
use nnti.Ib.{
  put_initiator, started, NntiWr, IbWorkRequest, Counts, failure, rdma_write, no_flags,
  is_wr_complete, is_wr_canceling, process_event, set_state, wait_complete, canceling,
}
use nnti.Ib.Transfer.{
  wc_of, ack_wc, completions, transfer, transfer_completes, acknowledged_incomplete,
}
use nnti.Ib.Exchange.{Sink, AreSound, tcp_exchange, exchanged}
use nnti.Ib.Pool.{
  Pools, idle, wr_pool_init, wr_pool_rdma_pop, wr_pool_rdma_push, wr_pool_sendrecv_push,
}
use nnti.Ib.Pool.Custody.{PoolCall, pop, push, change, Held, run, step, no_pools, pop-idle}
use nnti.Ib.Tcp.{Socket, bytes_read, tcp_read, tcp_read-take}

abbrev user : NntiWr
user = record { ops = 1; result = eio }

abbrev counts : Counts
counts = record { req_cq = 1; data_cq = 2; req_received = 0; req_srq_count = 5; data_srq_count = 5 }

transfer_completes_example :
    (w : IbWorkRequest) × (completions false
        (wc_of true)
        2
        (transfer false true user 2 3 0 none)
        counts
      ≡ some (w, counts))
    × (w.sq_wr_completed_count ≡ 2)
    × (is_wr_complete w ≡ false)
transfer_completes_example =
    transfer_completes false true user 2 3 2 none counts refl (omega arith) (omega arith)
      (omega arith)

acknowledged_incomplete_example :
    (v w : IbWorkRequest) × (completions true
        (wc_of false)
        1
        (transfer true false user 2 1 0 none)
        counts
      ≡ some (v, counts))
    × (is_wr_complete v ≡ true)
    × (process_event true ack_wc v counts ≡ some (ok, (w, counts)))
    × (w.nnti_wr ≡ some (record user { result = ok }))
    × (is_wr_complete w ≡ false)
acknowledged_incomplete_example =
    acknowledged_incomplete false user 2 1 none counts refl (omega arith) (omega arith)

-- One that fails is complete, with an error for the user.
failing :
    process_event false
      (record { status = failure; opcode = rdma_write; flags = no_flags })
      (transfer false false user 2 3 1 none)
      counts
    ≡ some (eio, (set_state wait_complete (transfer false false user 2 3 1 none), counts))
unfolding process_event
failing = refl

canceled : is_wr_canceling (set_state canceling (transfer false false user 2 3 1 none)) ≡ true
unfolding is_wr_canceling
canceled = refl

-- Pieces of two bytes.
abbrev in_pairs : Socket
in_pairs = record { fails = λ n. false; more = λ n. 1 }

in_pieces :
    tcp_read in_pairs 9 0 3 (1 ∷ 2 ∷ 3 ∷ 4 ∷ []) ≡ some (bytes_read (1 ∷ 2 ∷ 3 ∷ []) (4 ∷ []))
in_pieces = tcp_read-take in_pairs 9 0 3 (1 ∷ 2 ∷ 3 ∷ 4 ∷ []) (λ m. refl) (omega arith)

abbrev one_by_one : Sink
one_by_one = record { fails = λ n. false; accepts = λ n. 1 }

pairs_and_ones : AreSound in_pairs one_by_one
pairs_and_ones = record { reads = λ m. refl; writes = λ m. refl; moves = λ m. omega arith }

exchanged_example :
    (tcp_exchange in_pairs one_by_one 3 true (4 ∷ 5 ∷ 6 ∷ []) 3 (1 ∷ 2 ∷ 3 ∷ [])
      ≡ some (record { rc = 0; incoming = 1 ∷ 2 ∷ 3 ∷ []; sent = 4 ∷ 5 ∷ 6 ∷ [] }))
    × (tcp_exchange in_pairs one_by_one 3 false (1 ∷ 2 ∷ 3 ∷ []) 3 (4 ∷ 5 ∷ 6 ∷ [])
        ≡ some (record { rc = 0; incoming = 4 ∷ 5 ∷ 6 ∷ []; sent = 1 ∷ 2 ∷ 3 ∷ [] }))
exchanged_example =
    exchanged in_pairs in_pairs one_by_one one_by_one 3 (1 ∷ 2 ∷ 3 ∷ []) (4 ∷ 5 ∷ 6 ∷ [])
      pairs_and_ones pairs_and_ones refl (omega arith)

-- Two pairs; one is taken, changed and given back, and taken again.
abbrev calls : List PoolCall
calls = pop ∷ change 2 (record { last_op = put_initiator; state = started }) ∷ push 2 ∷ []

pop-idle_example :
    let h : Held =
      run calls (record { pools = (wr_pool_init (λ p. ok) 2 no_pools).1; taken = [] }) in
    let s : Pools = (wr_pool_rdma_pop h.pools).1 in
    (s.wrs 2 ≡ idle) × (count 2 h.taken ≡ 0) × (count 2 s.rdma_wr_pool ≡ 0)
unfolding wr_pool_rdma_pop wr_pool_rdma_push wr_pool_sendrecv_push run step wr_pool_init
pop-idle_example =
    pop-idle (λ p. ok) 2 calls 2
      (wr_pool_rdma_pop
        (run calls (record { pools = (wr_pool_init (λ p. ok) 2 no_pools).1; taken = [] })).pools).1
      refl
