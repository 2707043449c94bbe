-- ===== src/BufferQueue/Ledger.antt =====
-- The queue keeps its limits, and every registered buffer is in it or with the client.
use nnti.Base.{
  ℕ, zero, suc, ◌+◌, ◌%◌, ◌^◌, ◌≤◌, ◌<◌, ◌≡◌, ◌≢◌, ◌∙◌, refl, sym, ap, subst, ◌&&◌, Bool, true,
  false, List, [], ◌∷◌, ◌++◌, ◌==◌, ltb, length, mem, erase, count, arith, length-append,
  Bool-cases, inl, inr,
}
use nnti.Types.{NntiResult, ok, is_ok}
use nnti.BufferQueue.{
  Registrar, BufferQueue, true_value, create_buffer, destroy_buffer, fill, init, pop_empty,
  pop_from, pop, push,
}
use nnti.BufferQueue.Session.{
  Session, Call, pops, pushes, keep, step, run, config-run, succeeds, all_succeed, fill_succeeds,
}
use nnti.BufferQueue.Custody.{
  Laws, Inv, create_registers, destroy_unregisters, made-Inv, kept-Inv, is_registered, gone-Inv,
  Filled, Filling, filling_step,
}

module _ {W : Type 0} (t : Registrar W) (registered : W → List ℕ) (others : List ℕ)
    (laws : Laws t registered) where
  pop_empty-Inv :
      (s : Session W)
      → s.bq.queue ≡ []
      → is_ok (create_buffer t s.bq.op s.bq.buffer_size s.world).0 ≡ true
      → Inv t registered others s
      → let (got, bq, w) = pop_empty t s.bq s.world in
        Inv t registered others (record { bq = bq; held = keep got s.held; world = w })
  unfolding pop_empty
  pop_empty-Inv s e fine v =
      let (made, new) =
        create_registers t registered others laws s.bq.op s.bq.buffer_size s.world fine in
      let b : ℕ = (create_buffer t s.bq.op s.bq.buffer_size s.world).1 in
      let w : W = (create_buffer t s.bq.op s.bq.buffer_size s.world).2 in
      elim (Bool-cases (ltb s.bq.current_size s.bq.max_size)) [
        | inl lt ↦
            rw (lt, fine)
              (made-Inv t registered others laws ((s.bq.current_size + 1) % 2 ^ 32) s b w v
                (ground (arith, v.word)) (ground (arith, v.word)) (λ h. ground (arith, v.word)) made
                new)
        | inr ge ↦
            elim (Bool-cases
              (s.bq.current_size == s.bq.max_size && s.bq.create_on_fly == true_value)) [
                | inl fly ↦
                    rw (ge, fly, fine)
                      (made-Inv t registered others laws s.bq.current_size s b w v (omega arith)
                        v.size_fits (λ h. ground arith) made new)
                | inr full ↦ rw (ge, full) v
              ]
      ]

  pop_from-Inv :
      (q : List ℕ) (s : Session W)
      → s.bq.queue ≡ q
      → succeeds t s pops ≡ true
      → Inv t registered others s
      → let (got, bq, w) = pop_from t q s.bq s.world in
        Inv t registered others (record { bq = bq; held = keep got s.held; world = w })
  unfolding pop_from succeeds
  pop_from-Inv [] s e fine v =
      pop_empty-Inv s e
        (subst
          (λ q.
            elim q as (λ _. Bool) [
              | [] ↦ is_ok (create_buffer t s.bq.op s.bq.buffer_size s.world).0
              | _ ∷ _ ↦ true
            ]
            ≡ true)
          e fine)
        v
  pop_from-Inv (b ∷ rest) s e fine v = record {
    owned = λ x. ground (arith, v.owned x, ap (count x) e);
    once = v.once;
    balanced = omega (arith, v.balanced, ap length e);
    counted = v.counted;
    queue_fits = omega (arith, v.queue_fits, ap length e);
    size_fits = v.size_fits;
    word = v.word;
  }

  push-Inv :
      (s : Session W) (b : ℕ)
      → mem b s.held ≡ true
      → succeeds t s (pushes b) ≡ true
      → Inv t registered others s
      → let (bq, w) = push t s.bq b s.world in
        Inv t registered others (record { bq = bq; held = erase b s.held; world = w })
  unfolding push succeeds
  push-Inv s b m fine v = elim (Bool-cases (ltb (length s.bq.queue) s.bq.max_size)) [
    | inl room ↦ rw room (
        kept-Inv t registered others laws s b (t.set_size b s.bq.buffer_size s.world) v m
          (ground arith) (laws.set_size_keeps b s.bq.buffer_size s.world))
    | inr full ↦ rw full (
        gone-Inv t registered others laws s b (destroy_buffer t b s.world).1 v m full (
          destroy_unregisters t registered others laws b s.world
            (is_registered t registered others laws s b v m) (ground arith)))
  ]

  step-Inv :
      (s : Session W) (c : Call)
      → succeeds t s c ≡ true
      → Inv t registered others s
      → Inv t registered others (step t s c)
  unfolding step pop
  step-Inv s pops fine v = pop_from-Inv s.bq.queue s refl fine v
  step-Inv s (pushes b) fine v = elim (Bool-cases (mem b s.held)) [
    | inl m ↦ rw m (push-Inv s b m fine v)
    | inr m ↦ rw m v
  ]

  fill-Filled :
      (n : ℕ) (rc : NntiResult) (bq : BufferQueue) (w : W)
      → is_ok rc ≡ true
      → fill_succeeds t n bq.op bq.buffer_size w ≡ true
      → Filling t registered others laws n bq w
      → Filled t registered others laws n bq (fill t n rc bq w)
  unfolding fill fill_succeeds
  fill-Filled zero rc bq w r fine f = record {
    succeeded = r;
    grown = omega arith;
    sized = f.sized;
    limit = refl;
    owned = f.owned;
    once = f.once;
    balanced = f.balanced;
  }
  fill-Filled (suc n) rc bq w r fine f =
      let made : is_ok (create_buffer t bq.op bq.buffer_size w).0 ≡ true = ground arith in
      let (e, new) = create_registers t registered others laws bq.op bq.buffer_size w made in
      let b : ℕ = (create_buffer t bq.op bq.buffer_size w).1 in
      let w' : W = (create_buffer t bq.op bq.buffer_size w).2 in
      let bq' : BufferQueue = record bq {
        queue = bq.queue ++ (b ∷ []);
        current_size = (bq.current_size + 1) % 2 ^ 32;
      } in
      let rest : Filled t registered others laws n bq'
          (fill t n (create_buffer t bq.op bq.buffer_size w).0 bq' w') =
        fill-Filled n (create_buffer t bq.op bq.buffer_size w).0 bq' w' made (ground arith)
          (filling_step t registered others laws n bq b w w' f e new) in
      rw made (record {
        succeeded = rest.succeeded;
        grown = omega (arith, rest.grown, length-append bq.queue (b ∷ []));
        sized = rest.sized;
        limit = rest.limit;
        owned = rest.owned;
        once = rest.once;
        balanced = rest.balanced;
      })

  -- Where the registrar follows the laws, its allocations for the initial buffers succeed, and
  -- those of others are there once each: `trios_buffer_queue_init` of an empty deque, with a buffer
  -- size other than 0 and at most `max_size` buffers, a number below 2^32, succeeds with exactly
  -- `initial_size` buffers in the queue, and establishes the invariant for a client that holds
  -- none.
  pub init-Inv :
      (bq : BufferQueue) (initial_size max_size create_on_fly op buffer_size : ℕ) (w : W)
      → bq.queue ≡ []
      → initial_size ≤ max_size
      → max_size < 2 ^ 32
      → buffer_size ≢ 0
      → registered w ≡ others
      → ((x : ℕ) → count x others ≤ 1)
      → fill_succeeds t initial_size op buffer_size w ≡ true
      → let (rc, bq', w') = init t bq initial_size max_size create_on_fly op buffer_size w in
        (is_ok rc ≡ true)
        × (length bq'.queue ≡ initial_size)
        × Inv t registered others (record { bq = bq'; held = []; world = w' })
  unfolding init
  init-Inv bq initial_size max_size create_on_fly op buffer_size w e h k ne b single fine =
      let bq' : BufferQueue = record {
        queue = bq.queue;
        current_size = 0;
        initial_size = initial_size;
        max_size = max_size;
        create_on_fly = create_on_fly;
        op = op;
        buffer_size = buffer_size;
      } in
      let start : Filling t registered others laws initial_size bq' w = record {
        owned = λ x. ap (count x) b ∙ omega (arith, ap (count x) e);
        once = λ x. rw b (single x);
        balanced = omega (arith, ap length b, ap length e);
        sized = sym (ap length e);
        fits = omega (arith, ap length e);
        word = k;
      } in
      let filled : Filled t registered others laws initial_size bq' (fill t initial_size ok bq' w) =
        fill-Filled initial_size ok bq' w refl fine start in
      let sized : (buffer_size == 0) ≡ false = ground arith in
      rw sized (
        filled.succeeded,
        omega (arith, filled.grown, ap length e),
        record {
          owned = λ x. omega (arith, filled.owned x);
          once = filled.once;
          balanced = omega (arith, filled.balanced);
          counted = λ _. omega (arith, filled.balanced, filled.sized);
          queue_fits = omega (arith, filled.grown, filled.limit, ap length e);
          size_fits = omega (arith, filled.grown, filled.sized, filled.limit, ap length e);
          word = omega (arith, filled.limit);
        },
      )

  -- Where the registrar follows the laws, and its allocations and frees in the session succeed: after
  -- any calls of `pop` and `push` by a client that gives back what it holds, from a state where
  -- this is so, the registered buffers are, address by address, those in the queue, those with
  -- the client and those of others, and each is there once; the queue holds at most `max_size`
  -- buffers, and `current_size` has not passed `max_size`; without creation on the fly the buffers of
  -- the queue are `current_size` many.
  pub run-Inv :
      (s : Session W) (cs : List Call)
      → all_succeed t s cs ≡ true
      → Inv t registered others s
      → Inv t registered others (run t s cs)
  unfolding run all_succeed
  run-Inv s [] fine v = v
  run-Inv s (c ∷ cs) fine v = run-Inv (step t s c) cs (ground arith) (step-Inv s c (ground arith) v)

  -- Under these conditions, without creation on the fly, and from a state where the invariant
  -- holds, no calls take the number of the queue's buffers beyond `max_size`.
  pub registered-le-max_size :
      (s : Session W) (cs : List Call)
      → all_succeed t s cs ≡ true
      → (s.bq.create_on_fly == true_value) ≡ false
      → Inv t registered others s
      → length (registered (run t s cs).world) ≤ length others + s.bq.max_size
  registered-le-max_size s cs fine h v = omega (
    arith,
    config-run t s cs,
    (run-Inv s cs fine v).counted (rw (config-run t s cs).0 h),
    (run-Inv s cs fine v).size_fits,
  )
