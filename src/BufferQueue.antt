-- ===== src/BufferQueue.antt =====
-- nnti/buffer_queue.h and nnti/buffer_queue.cpp: a pool of registered buffers. Each call runs under
-- the queue's mutex, so a call is one step. A buffer is its address. The transport that registers
-- buffers is the interface `Registrar`; logging is left out.
pub mod Session
pub mod Custody
pub mod Ledger
pub mod Failure
mod Tests
use nnti.Base.{
  ℕ, zero, suc, ◌+◌, ◌%◌, ◌^◌, Bool, true, false, ◌&&◌, Option, none, some, List, [], ◌∷◌, ◌++◌,
  ltb, ◌==◌, if◌then◌else◌, length,
}
use nnti.Types.{NntiResult, ok, is_ok}

-- What the queue calls, over a world `W`: the C library's `malloc` (asserted not to fail) and
-- `free` of a buffer's header, `NNTI_alloc` (size, operations, header), `NNTI_free`, and
-- `NNTI_BUFFER_SIZE(buffer) = size`.
pub record Registrar (W : Type 0) : Type 0 where
  pub malloc : W → ℕ × W
  pub nnti_alloc : ℕ → ℕ → ℕ → W → NntiResult × W
  pub nnti_free : ℕ → W → NntiResult × W
  pub free : ℕ → W → W
  pub set_size : ℕ → ℕ → W → W

-- `trios_buffer_queue_t`, less its mutex and the transport handle, which is part of the world.
pub record BufferQueue : Type 0 where
  pub queue : List ℕ
  pub current_size : ℕ
  pub initial_size : ℕ
  pub max_size : ℕ
  pub create_on_fly : ℕ
  pub op : ℕ
  pub buffer_size : ℕ

-- `TRUE` of support/logger/Trios_logger.h
abbrev pub true_value : ℕ
true_value = 1

module _ {W : Type 0} (t : Registrar W) where
  unfoldable pub create_buffer : ℕ → ℕ → W → NntiResult × ℕ × W
  create_buffer op buffer_size w =
      let (buffer, w₁) = t.malloc w in
      let (rc, w₂) = t.nnti_alloc buffer_size op buffer w₁ in (rc, buffer, w₂)

  unfoldable pub destroy_buffer : ℕ → W → NntiResult × W
  destroy_buffer buffer w = let (rc, w₁) = t.nnti_free buffer w in (rc, t.free buffer w₁)

  -- The loop of `trios_buffer_queue_init`, with the rounds that are left and the last result.
  -- `current_size++` is on a `uint32_t`.
  unfoldable pub fill : ℕ → NntiResult → BufferQueue → W → NntiResult × BufferQueue × W
  fill zero rc bq w = (rc, bq, w)
  fill (suc n) rc bq w =
      let (rc', buffer, w') = create_buffer bq.op bq.buffer_size w in
      let bq' : BufferQueue = record bq {
        queue = bq.queue ++ (buffer ∷ []);
        current_size = (bq.current_size + 1) % 2 ^ 32;
      } in
      if is_ok rc' then fill n rc' bq' w' else (rc', bq, w')

  -- `trios_buffer_queue_init` on a structure whose deque is constructed already.
  unfoldable pub init : BufferQueue → ℕ → ℕ → ℕ → ℕ → ℕ → W → NntiResult × BufferQueue × W
  init bq initial_size max_size create_on_fly op buffer_size w =
      let bq' : BufferQueue = record {
        queue = bq.queue;
        current_size = 0;
        initial_size = initial_size;
        max_size = max_size;
        create_on_fly = create_on_fly;
        op = op;
        buffer_size = buffer_size;
      } in
      if buffer_size == 0 then (ok, bq, w) else fill initial_size ok bq' w

  -- The branch of `trios_buffer_queue_pop` for an empty queue. `none` is NULL.
  unfoldable pub pop_empty : BufferQueue → W → Option ℕ × BufferQueue × W
  pop_empty bq w =
      let (rc, buffer, w') = create_buffer bq.op bq.buffer_size w in
      if ltb bq.current_size bq.max_size
      then (
        some buffer,
        (if is_ok rc then record bq { current_size = (bq.current_size + 1) % 2 ^ 32 } else bq),
        w',
      )
      else if bq.current_size == bq.max_size && bq.create_on_fly == true_value
      then ((if is_ok rc then some buffer else none), bq, w')
      else (none, bq, w)

  unfoldable pub pop_from : List ℕ → BufferQueue → W → Option ℕ × BufferQueue × W
  pop_from [] bq w = pop_empty bq w
  pop_from (buffer ∷ rest) bq w = (some buffer, record bq { queue = rest }, w)

  -- `trios_buffer_queue_pop`
  unfoldable pub pop : BufferQueue → W → Option ℕ × BufferQueue × W
  pop bq w = pop_from bq.queue bq w

  -- `trios_buffer_queue_push`: to the front, or destroyed where the queue is full.
  unfoldable pub push : BufferQueue → ℕ → W → BufferQueue × W
  push bq buffer w =
      if ltb (length bq.queue) bq.max_size
      then (record bq { queue = buffer ∷ bq.queue }, t.set_size buffer bq.buffer_size w)
      else (bq, (destroy_buffer buffer w).1)

  -- The loop of `trios_buffer_queue_fini`: what is left in the queue comes second.
  unfoldable pub drain : List ℕ → NntiResult → W → NntiResult × List ℕ × W
  drain [] rc w = (rc, [], w)
  drain (buffer ∷ rest) rc w =
      let (rc', w') = destroy_buffer buffer w in
      if is_ok rc' then drain rest rc' w' else (rc', rest, w')

  -- `trios_buffer_queue_fini`; its tests on the sizes only log.
  unfoldable pub fini : BufferQueue → W → NntiResult × BufferQueue × W
  fini bq w = let (rc, left, w') = drain bq.queue ok w in (rc, record bq { queue = left }, w')
