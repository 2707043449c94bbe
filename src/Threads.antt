-- ===== src/Threads.antt =====
-- support/threads/trios_threads.cpp: the counters `nthread_counter_t`. The lock of a counter is the
-- platform's; whether a call of it succeeds is an argument. An `int64_t` is its bit pattern, a
-- number below 2^64, so that -1 is 2^64 - 1.
pub mod Counters
mod Tests
use nnti.Base.{ℕ, ◌+◌, ◌-◌, ◌%◌, ◌^◌, Bool, if◌then◌else◌}

pub record Counter : Type 0 where
  pub value : ℕ

abbrev pub minus_one : ℕ
minus_one = 2 ^ 64 - 1

-- What `nthread_lock_init`, `nthread_lock`, `nthread_unlock` and `nthread_lock_fini` return: true
-- for success. A failed unlock is only logged.
pub record Locks : Type 0 where
  pub init_ok : Bool
  pub lock_ok : Bool
  pub fini_ok : Bool

-- `nthread_counter_init`: 0, or -1 where the lock is not made. A lock that cannot be taken leaves
-- the value unset and the result 0.
unfoldable pub nthread_counter_init : Locks → Counter → ℕ × Counter
nthread_counter_init l c =
    if l.init_ok then (0, (if l.lock_ok then record c { value = 0 } else c)) else (minus_one, c)

unfoldable pub nthread_counter_increment : Locks → Counter → ℕ × Counter
nthread_counter_increment l c =
    if l.lock_ok then (c.value, record c { value = (c.value + 1) % 2 ^ 64 }) else (minus_one, c)

unfoldable pub nthread_counter_decrement : Locks → Counter → ℕ × Counter
nthread_counter_decrement l c =
    if l.lock_ok
    then (c.value, record c { value = (c.value + minus_one) % 2 ^ 64 })
    else (minus_one, c)

unfoldable pub nthread_counter_read : Locks → Counter → ℕ × Counter
nthread_counter_read l c = if l.lock_ok then (c.value, c) else (minus_one, c)

unfoldable pub nthread_counter_set : Locks → Counter → ℕ → ℕ × Counter
nthread_counter_set l c new_value =
    if l.lock_ok then (c.value, record c { value = new_value }) else (minus_one, c)

unfoldable pub nthread_counter_fini : Locks → Counter → ℕ × Counter
nthread_counter_fini l c =
    if l.lock_ok then ((if l.fini_ok then 0 else minus_one), record c { value = 0 }) else (0, c)

-- The calls of several threads, in the order in which they take the lock.
pub data Call : Type 0 where
  increments decrements reads : Call
  sets : ℕ → Call

unfoldable pub call : Locks → Call → Counter → ℕ × Counter
call l Call.increments c = nthread_counter_increment l c
call l Call.decrements c = nthread_counter_decrement l c
call l Call.reads c = nthread_counter_read l c
call l (Call.sets v) c = nthread_counter_set l c v
