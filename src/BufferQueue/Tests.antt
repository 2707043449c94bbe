-- ===== src/BufferQueue/Tests.antt =====
-- The buffer queue on a registrar with a limit, and the theorems at inputs.
use nnti.Base.{
  ℕ, suc, ◌≡◌, ◌≤◌, refl, Bool, true, false, Option, some, List, [], ◌∷◌, length, arith, mem, erase,
  ltb, max,
}
use nnti.Types.{NntiResult, ok, einval, enomem, is_ok}
use nnti.BufferQueue.{
  Registrar, BufferQueue, create_buffer, destroy_buffer, init, pop_empty, pop_from, pop, push,
  drain, fini,
}
use nnti.BufferQueue.Session.{
  Session, Call, pops, pushes, run, succeeds, all_succeed, fill_succeeds,
}
use nnti.BufferQueue.Custody.{Laws, Inv}
use nnti.BufferQueue.Ledger.{init-Inv, run-Inv, registered-le-max_size}
use nnti.BufferQueue.Failure.{pop-push, pop-alloc_failure}

-- The registered buffers, and the next address; a limit on the buffers.
record Machine : Type 0 where
  next : ℕ
  live : List ℕ
  limit : ℕ

abbrev allocate : Bool → ℕ → Machine → NntiResult × Machine
allocate true b m = (ok, record m { live = b ∷ m.live })
allocate false b m = (enomem, m)

abbrev discard : Bool → ℕ → Machine → NntiResult × Machine
discard true b m = (ok, record m { live = erase b m.live })
discard false b m = (einval, m)

-- The first address from `n` on that is not in use.
abbrev above : ℕ → List ℕ → ℕ
above n [] = n
above n (x ∷ xs) = max (suc x) (above n xs)

-- An allocation fails at the limit; a buffer that is not registered is not freed.
abbrev registrar : Registrar Machine
registrar = record {
  malloc = λ m. (above m.next m.live, record m { next = suc m.next });
  nnti_alloc = λ n op b m. allocate (ltb (length m.live) m.limit) b m;
  nnti_free = λ b m. discard (mem b m.live) b m;
  free = λ b m. m;
  set_size = λ b n m. m;
}

abbrev registered : Machine → List ℕ
registered m = m.live

above_new : (a n : ℕ) (xs : List ℕ) → above n xs ≤ a → mem a xs ≡ false
above_new a n [] h = refl
above_new a n (x ∷ xs) h = ground (arith, above_new a n xs)

allocate-Laws :
    (works : Bool) (b : ℕ) (m : Machine)
    → (is_ok (allocate works b m).0 ≡ true → (allocate works b m).1.live ≡ b ∷ m.live)
      × (is_ok (allocate works b m).0 ≡ false → (allocate works b m).1.live ≡ m.live)
allocate-Laws true b m = ((λ h. refl), (λ h. ground arith))
allocate-Laws false b m = ((λ h. ground arith), (λ h. refl))

discard-Laws :
    (works : Bool) (b : ℕ) (m : Machine)
    → (is_ok (discard works b m).0 ≡ true → (discard works b m).1.live ≡ erase b m.live)
      × (is_ok (discard works b m).0 ≡ false → (discard works b m).1.live ≡ m.live)
discard-Laws true b m = ((λ h. refl), (λ h. ground arith))
discard-Laws false b m = ((λ h. ground arith), (λ h. refl))

registrar-Laws : Laws registrar registered
registrar-Laws = record {
  malloc_keeps = λ m. refl;
  malloc_new = λ m. above_new (above m.next m.live) m.next m.live (omega arith);
  free_keeps = λ b m. refl;
  set_size_keeps = λ b n m. refl;
  alloc_registers = λ n op b m. (allocate-Laws (ltb (length m.live) m.limit) b m).0;
  alloc_failed_keeps = λ n op b m. (allocate-Laws (ltb (length m.live) m.limit) b m).1;
  free_failed_keeps = λ b m. (discard-Laws (mem b m.live) b m).1;
  free_unregisters = λ b m h. (discard-Laws (mem b m.live) b m).0;
}

abbrev unset : BufferQueue
unset = record {
  queue = [];
  current_size = 0;
  initial_size = 0;
  max_size = 0;
  create_on_fly = 0;
  op = 0;
  buffer_size = 0;
}

-- Two buffers of at most three, one of them with the client.
abbrev small : BufferQueue
small = record {
  queue = 5 ∷ [];
  current_size = 2;
  initial_size = 2;
  max_size = 3;
  create_on_fly = 0;
  op = 4;
  buffer_size = 128;
}

abbrev busy : Session Machine
busy = record {
  bq = small;
  held = 6 ∷ [];
  world = record { next = 7; live = 6 ∷ 5 ∷ []; limit = 9 };
}

abbrev calls : List Call
calls = pops ∷ pops ∷ pops ∷ pushes 6 ∷ pushes 5 ∷ pops ∷ []

run-busy : (run registrar busy calls).held ≡ 5 ∷ 7 ∷ []
unfolding run pop pop_from pop_empty push create_buffer
run-busy = refl

fini-small : (fini registrar small busy.world).1.queue ≡ []
unfolding fini drain destroy_buffer
fini-small = refl

busy-Inv : Inv registrar registered [] busy
busy-Inv = record {
  owned = λ x. ground arith;
  once = λ x. ground arith;
  balanced = refl;
  counted = λ h. refl;
  queue_fits = omega arith;
  size_fits = omega arith;
  word = omega arith;
}

abbrev empty_world : Machine
empty_world = record { next = 5; live = []; limit = 9 }

init-Inv_example :
    let (rc, bq', w') = init registrar unset 2 3 0 4 128 empty_world in
    (is_ok rc ≡ true)
    × (length bq'.queue ≡ 2)
    × Inv registrar registered [] (record { bq = bq'; held = []; world = w' })
unfolding fill_succeeds create_buffer
init-Inv_example =
    init-Inv registrar registered [] registrar-Laws unset 2 3 0 4 128 empty_world refl (omega arith)
      (omega arith) (omega arith) refl (λ x. omega arith) refl

run-Inv_example : Inv registrar registered [] (run registrar busy calls)
unfolding all_succeed succeeds run pop pop_from pop_empty push create_buffer
run-Inv_example = run-Inv registrar registered [] registrar-Laws busy calls refl busy-Inv

registered-le-max_size_example : length (registered (run registrar busy calls).world) ≤ 3
unfolding all_succeed succeeds run pop pop_from pop_empty push create_buffer
registered-le-max_size_example =
    registered-le-max_size registrar registered [] registrar-Laws busy calls refl refl busy-Inv

pop-push_example :
    let back : Option ℕ × BufferQueue × Machine = (some 6, small, busy.world) in
    pop registrar (push registrar small 6 busy.world).0 (push registrar small 6 busy.world).1 ≡ back
pop-push_example = pop-push registrar small 6 busy.world

abbrev drained : BufferQueue
drained = record small { queue = [] }

-- No buffer can be registered any more.
abbrev full_world : Machine
full_world = record busy.world { limit = 2 }

-- The client gets the header 7, though no buffer was registered.
pop-alloc_failure_run :
    (registered (pop registrar drained full_world).2 ≡ 6 ∷ 5 ∷ [])
    × ((pop registrar drained full_world).1 ≡ drained)
    × ((pop registrar drained full_world).0 ≡ some 7)
unfolding create_buffer
pop-alloc_failure_run =
    pop-alloc_failure registrar registered registrar-Laws drained full_world refl refl
