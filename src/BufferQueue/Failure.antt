-- ===== src/BufferQueue/Failure.antt =====
-- Single calls of the queue: a buffer that is given back, and an allocation that fails.
use nnti.Base.{ℕ, ◌≡◌, ◌∙◌, false, Option, none, some, List, [], ltb, if◌then◌else◌, length, arith}
use nnti.Types.{is_ok}
use nnti.BufferQueue.{
  Registrar, BufferQueue, create_buffer, destroy_buffer, pop_empty, pop_from, pop, push,
}
use nnti.BufferQueue.Custody.{Laws}

module _ {W : Type 0} (t : Registrar W) where
  -- A buffer that is given back while the queue has room is the next one that `pop` returns, and
  -- the queue is then as it was; where there is no room, the queue does not change and the buffer is
  -- destroyed.
  pub pop-push :
      (bq : BufferQueue) (b : ℕ) (w : W)
      → let (bq', w') = push t bq b w in
        let back : Option ℕ × BufferQueue × W = (some b, bq, t.set_size b bq.buffer_size w) in
        let gone : BufferQueue × W = (bq, (destroy_buffer t b w).1) in
        if ltb (length bq.queue) bq.max_size then pop t bq' w' ≡ back else push t bq b w ≡ gone
  unfolding pop pop_from push
  pop-push bq b w = ground arith

  module _ (registered : W → List ℕ) (laws : Laws t registered) where
    create_failed_keeps :
        (op n : ℕ) (w : W)
        → is_ok (create_buffer t op n w).0 ≡ false
        → registered (create_buffer t op n w).2 ≡ registered w
    unfolding create_buffer
    create_failed_keeps op n w f =
        laws.alloc_failed_keeps n op (t.malloc w).0 (t.malloc w).1 f ∙ laws.malloc_keeps w

    -- `pop` of an empty queue whose allocation fails registers no buffer and leaves the queue as it
    -- was. It returns NULL, except where the queue may still grow: there it returns the header of
    -- the buffer that is not registered.
    pub pop-alloc_failure :
        (bq : BufferQueue) (w : W)
        → bq.queue ≡ []
        → is_ok (create_buffer t bq.op bq.buffer_size w).0 ≡ false
        → (registered (pop t bq w).2 ≡ registered w)
          × ((pop t bq w).1 ≡ bq)
          × ((pop t bq w).0 ≡ (
              if ltb bq.current_size bq.max_size
              then some (create_buffer t bq.op bq.buffer_size w).1
              else none))
    unfolding pop pop_from pop_empty
    pop-alloc_failure bq w e f = rw e (ground (arith, create_failed_keeps bq.op bq.buffer_size w))
