-- ===== src/Threads/Counters.antt =====
-- What the counters promise to the threads that share one.
use nnti.Base.{ℕ, zero, suc, ◌+◌, ◌%◌, ◌^◌, ◌<◌, ◌≡◌, refl, true, false, List, [], ◌∷◌, mem, arith}
use nnti.Threads.{
  Locks, Counter, minus_one, Call, increments, decrements, reads, sets, call,
  nthread_counter_increment, nthread_counter_decrement, nthread_counter_read, nthread_counter_set,
}

-- The values that `n` increments in a row return.
unfoldable pub draw : Locks → ℕ → Counter → List ℕ
draw l zero c = []
draw l (suc n) c = let (v, c') = nthread_counter_increment l c in v ∷ draw l n c'

-- The values are the consecutive numbers from `v` on, modulo 2^64.
abbrev pub Consecutive : ℕ → List ℕ → Type 0
Consecutive v [] = Unit {0}
Consecutive v (x ∷ xs) = (x ≡ v) × Consecutive ((v + 1) % 2 ^ 64) xs

-- Increments whose lock is taken hand out consecutive values, starting with the counter's.
pub draw-Consecutive :
    (l : Locks) (n : ℕ) (c : Counter) → l.lock_ok ≡ true → Consecutive c.value (draw l n c)
unfolding draw nthread_counter_increment
draw-Consecutive l zero c h = tt
draw-Consecutive l (suc n) c h = rw h (refl, draw-Consecutive l n _ h)

-- Every value handed out lies in the `n` numbers from the counter's on, if these do not pass 2^64.
draw-ge :
    (l : Locks) (n : ℕ) (c : Counter) (a : ℕ)
    → l.lock_ok ≡ true
    → c.value + n < 2 ^ 64
    → a < c.value
    → mem a (draw l n c) ≡ false
unfolding draw nthread_counter_increment
draw-ge l zero c a h k lt = refl
draw-ge l (suc n) c a h k lt =
    rw h (ground (arith, draw-ge l n (record { value = (c.value + 1) % 2 ^ 64 }) a h))

abbrev pub IsDistinct : List ℕ → Type 0
IsDistinct [] = Unit {0}
IsDistinct (x ∷ xs) = (mem x xs ≡ false) × IsDistinct xs

-- Two increments never hand out one value twice, as long as the counter does not pass 2^64.
pub draw-IsDistinct :
    (l : Locks) (n : ℕ) (c : Counter)
    → l.lock_ok ≡ true
    → c.value + n < 2 ^ 64
    → IsDistinct (draw l n c)
unfolding draw nthread_counter_increment
draw-IsDistinct l zero c h k = tt
draw-IsDistinct l (suc n) c h k =
    rw h
      (draw-ge l n _ c.value h (omega arith) (omega arith), draw-IsDistinct l n _ h (omega arith))

call-before : (l : Locks) (c : Counter) (k : Call) → l.lock_ok ≡ true → (call l k c).0 ≡ c.value
unfolding call nthread_counter_increment nthread_counter_decrement nthread_counter_read
    nthread_counter_set
call-before l c increments h = ground arith
call-before l c decrements h = ground arith
call-before l c reads h = ground arith
call-before l c (sets v) h = ground arith

-- Where the lock is taken and the value is a word, each call returns the value before it, an
-- increment undoes a decrement and the other way round, and a read returns what was set.
pub call_lem :
    (l : Locks) (c : Counter) (k : Call)
    → l.lock_ok ≡ true
    → c.value < 2 ^ 64
    → ((call l k c).0 ≡ c.value)
      × ((call l Call.increments (call l Call.decrements c).1).1.value ≡ c.value)
      × ((call l Call.decrements (call l Call.increments c).1).1.value ≡ c.value)
      × ((v : ℕ) → (call l Call.reads (call l (Call.sets v) c).1).0 ≡ v)
unfolding call nthread_counter_increment nthread_counter_decrement nthread_counter_read
    nthread_counter_set
call_lem l c k h b = (call-before l c k h, ground arith, ground arith, λ v. ground arith)

-- Where the lock is not taken, every call returns -1 and leaves the counter alone.
pub call_unlocked :
    (l : Locks) (c : Counter) (k : Call)
    → l.lock_ok ≡ false
    → ((call l k c).0 ≡ minus_one) × ((call l k c).1 ≡ c)
unfolding call nthread_counter_increment nthread_counter_decrement nthread_counter_read
    nthread_counter_set
call_unlocked l c increments h = ground arith
call_unlocked l c decrements h = ground arith
call_unlocked l c reads h = ground arith
call_unlocked l c (sets v) h = ground arith
