-- ===== src/BufferQueue/Custody.antt =====
-- Who has which buffer: the registered buffers are those in the queue and those with the client.
use nnti.Base.{
  ℕ, suc, ◌+◌, ◌%◌, ◌^◌, ◌≤◌, ◌<◌, ◌≡◌, ◌∙◌, ap, true, false, List, [], ◌∷◌, ◌++◌, ◌==◌, ltb,
  length, mem, erase, count, arith, length-append, count-append, count-erase, length-erase,
  count_of_mem, mem_of_count, Bool-cases, inl, inr,
}
use nnti.Types.{NntiResult, is_ok}
use nnti.BufferQueue.{Registrar, BufferQueue, true_value, create_buffer, destroy_buffer}
use nnti.BufferQueue.Session.{Session}

-- What the queue relies on, of the sequence of the buffers that are registered: `malloc` gives an
-- address that is not in use, an allocation that succeeds registers its buffer, a `NNTI_free` of a
-- registered buffer that succeeds takes it back, and nothing else changes what is registered.
pub record Laws {W : Type 0} (t : Registrar W) (registered : W → List ℕ) : Type 0 where
  pub malloc_keeps : (w : W) → registered (t.malloc w).1 ≡ registered w
  pub malloc_new : (w : W) → mem (t.malloc w).0 (registered w) ≡ false
  pub free_keeps : (b : ℕ) (w : W) → registered (t.free b w) ≡ registered w
  pub set_size_keeps : (b n : ℕ) (w : W) → registered (t.set_size b n w) ≡ registered w
  pub alloc_registers :
      (n op b : ℕ) (w : W)
      → is_ok (t.nnti_alloc n op b w).0 ≡ true
      → registered (t.nnti_alloc n op b w).1 ≡ b ∷ registered w
  pub alloc_failed_keeps :
      (n op b : ℕ) (w : W)
      → is_ok (t.nnti_alloc n op b w).0 ≡ false
      → registered (t.nnti_alloc n op b w).1 ≡ registered w
  pub free_failed_keeps :
      (b : ℕ) (w : W)
      → is_ok (t.nnti_free b w).0 ≡ false
      → registered (t.nnti_free b w).1 ≡ registered w
  pub free_unregisters :
      (b : ℕ) (w : W)
      → mem b (registered w) ≡ true
      → is_ok (t.nnti_free b w).0 ≡ true
      → registered (t.nnti_free b w).1 ≡ erase b (registered w)

module _ {W : Type 0} (t : Registrar W) (registered : W → List ℕ) (others : List ℕ) where
  -- What is registered, address by address; and the limits.
  pub record Inv (s : Session W) : Type 0 where
    pub owned :
        (x : ℕ)
        → count x (registered s.world) ≡ count x others + count x s.bq.queue + count x s.held
    pub once : (x : ℕ) → count x (registered s.world) ≤ 1
    pub balanced : length (registered s.world) ≡ length others + length s.bq.queue + length s.held
    pub counted :
        (s.bq.create_on_fly == true_value) ≡ false
        → length (registered s.world) ≡ length others + s.bq.current_size
    pub queue_fits : length s.bq.queue ≤ s.bq.max_size
    pub size_fits : s.bq.current_size ≤ s.bq.max_size
    pub word : s.bq.max_size < 2 ^ 32

  module _ (laws : Laws t registered) where
    pub create_registers :
        (op n : ℕ) (w : W)
        → is_ok (create_buffer t op n w).0 ≡ true
        → (registered (create_buffer t op n w).2 ≡ (create_buffer t op n w).1 ∷ registered w)
          × (mem (create_buffer t op n w).1 (registered w) ≡ false)
    unfolding create_buffer
    create_registers op n w h = (
      laws.alloc_registers n op (t.malloc w).0 (t.malloc w).1 h
          ∙ ap (◌∷◌ (t.malloc w).0) (laws.malloc_keeps w),
      laws.malloc_new w,
    )

    pub destroy_unregisters :
        (b : ℕ) (w : W)
        → mem b (registered w) ≡ true
        → is_ok (destroy_buffer t b w).0 ≡ true
        → registered (destroy_buffer t b w).1 ≡ erase b (registered w)
    unfolding destroy_buffer
    destroy_unregisters b w m h =
        laws.free_keeps b (t.nnti_free b w).1 ∙ laws.free_unregisters b w m h

    -- A new buffer goes to the client.
    pub made-Inv :
        (n : ℕ) (s : Session W) (b : ℕ) (w : W)
        → Inv s
        → s.bq.current_size ≤ n
        → n ≤ s.bq.max_size
        → ((s.bq.create_on_fly == true_value) ≡ false → n ≡ suc s.bq.current_size)
        → registered w ≡ b ∷ registered s.world
        → mem b (registered s.world) ≡ false
        → Inv (record { bq = record s.bq { current_size = n }; held = b ∷ s.held; world = w })
    made-Inv n s b w v le fits counts e new = record {
      owned = λ x. ap (count x) e ∙ ground (arith, v.owned x);
      once = λ x. rw e (ground (arith, v.once x, count_of_mem b (registered s.world) new));
      balanced = omega (arith, v.balanced, ap length e);
      counted = λ h. omega (arith, v.counted h, counts h, ap length e);
      queue_fits = v.queue_fits;
      size_fits = fits;
      word = v.word;
    }

    -- What a client gives back.
    held_count : (b : ℕ) (xs : List ℕ) → mem b xs ≡ true → 1 ≤ count b xs
    held_count b xs h = ground (arith, mem_of_count b xs)

    count-given : (x b : ℕ) (xs : List ℕ) → mem b xs ≡ true → count x (b ∷ erase b xs) ≡ count x xs
    count-given x b xs h = ground (arith, count-erase x b xs, held_count b xs h)

    pub kept-Inv :
        (s : Session W) (b : ℕ) (w : W)
        → Inv s
        → mem b s.held ≡ true
        → length s.bq.queue < s.bq.max_size
        → registered w ≡ registered s.world
        → Inv (record {
          bq = record s.bq { queue = b ∷ s.bq.queue };
          held = erase b s.held;
          world = w;
        })
    kept-Inv s b w v m room e = record {
      owned = λ x. ap (count x) e ∙ ground (arith, v.owned x, count-given x b s.held m);
      once = λ x. rw e (v.once x);
      balanced = omega (arith, v.balanced, ap length e, length-erase b s.held m);
      counted = λ h. omega (arith, v.counted h, ap length e);
      queue_fits = omega arith;
      size_fits = v.size_fits;
      word = v.word;
    }

    pub is_registered :
        (s : Session W) (b : ℕ) → Inv s → mem b s.held ≡ true → mem b (registered s.world) ≡ true
    is_registered s b v m = elim (Bool-cases (mem b (registered s.world))) [
      | inl e ↦ e
      | inr e ↦
          absurd
            (omega (arith, count_of_mem b (registered s.world) e, v.owned b, held_count b s.held m))
    ]

    -- A buffer is destroyed where the queue is full: more are registered than the queue counts.
    pub gone-Inv :
        (s : Session W) (b : ℕ) (w : W)
        → Inv s
        → mem b s.held ≡ true
        → ltb (length s.bq.queue) s.bq.max_size ≡ false
        → registered w ≡ erase b (registered s.world)
        → Inv (record { bq = s.bq; held = erase b s.held; world = w })
    gone-Inv s b w v m full e =
        let there : mem b (registered s.world) ≡ true = is_registered s b v m in
        record {
          owned = λ x.
              ap (count x) e
              ∙ ground (
                arith,
                v.owned x,
                count-given x b s.held m,
                count-given x b (registered s.world) there,
              );
          once = λ x. rw e (ground (arith, v.once x, count-given x b (registered s.world) there));
          balanced = omega (
            arith,
            v.balanced,
            ap length e,
            length-erase b (registered s.world) there,
            length-erase b s.held m,
          );
          counted = λ h.
              absurd
                (ground (arith, v.balanced, v.counted h, v.size_fits, length-erase b s.held m));
          queue_fits = v.queue_fits;
          size_fits = v.size_fits;
          word = v.word;
        }

    -- What a run of the loop of `init` has done.
    pub record Filled (n : ℕ) (bq : BufferQueue) (r : NntiResult × BufferQueue × W) : Type 0 where
      pub succeeded : is_ok r.0 ≡ true
      pub grown : length r.1.queue ≡ length bq.queue + n
      pub sized : r.1.current_size ≡ length r.1.queue
      pub limit : r.1.max_size ≡ bq.max_size
      pub owned : (x : ℕ) → count x (registered r.2) ≡ count x others + count x r.1.queue
      pub once : (x : ℕ) → count x (registered r.2) ≤ 1
      pub balanced : length (registered r.2) ≡ length others + length r.1.queue

    -- What holds before it, for `n` rounds.
    pub record Filling (n : ℕ) (bq : BufferQueue) (w : W) : Type 0 where
      pub owned : (x : ℕ) → count x (registered w) ≡ count x others + count x bq.queue
      pub once : (x : ℕ) → count x (registered w) ≤ 1
      pub balanced : length (registered w) ≡ length others + length bq.queue
      pub sized : bq.current_size ≡ length bq.queue
      pub fits : length bq.queue + n ≤ bq.max_size
      pub word : bq.max_size < 2 ^ 32

    pub filling_step :
        (n : ℕ) (bq : BufferQueue) (b : ℕ) (w w' : W)
        → Filling (suc n) bq w
        → registered w' ≡ b ∷ registered w
        → mem b (registered w) ≡ false
        → Filling n
            (record bq {
              queue = bq.queue ++ (b ∷ []);
              current_size = (bq.current_size + 1) % 2 ^ 32;
            })
            w'
    filling_step n bq b w w' f e new = record {
      owned = λ x. ap (count x) e ∙ ground (arith, f.owned x, count-append x b bq.queue);
      once = λ x. rw e (ground (arith, f.once x, count_of_mem b (registered w) new));
      balanced = omega (arith, f.balanced, ap length e, length-append bq.queue (b ∷ []));
      sized = omega (arith, f.sized, f.fits, f.word, length-append bq.queue (b ∷ []));
      fits = omega (arith, f.fits, length-append bq.queue (b ∷ []));
      word = f.word;
    }
