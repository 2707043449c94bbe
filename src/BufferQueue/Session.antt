-- ===== src/BufferQueue/Session.antt =====
-- A client's calls of a buffer queue in any order: the client gives back only what it holds.
use nnti.Base.{
  ℕ, zero, suc, ltb, ◌&&◌, ◌||◌, Bool, ◌≡◌, refl, true, Option, none, some, List, [], ◌∷◌,
  if◌then◌else◌, length, mem, erase, arith,
}
use nnti.Types.{is_ok}
use nnti.BufferQueue.{
  create_buffer, destroy_buffer, Registrar, BufferQueue, pop_empty, pop_from, pop, push,
}

-- The queue, the buffers that the client holds, and the world.
pub record Session (W : Type 0) : Type 0 where
  pub bq : BufferQueue
  pub held : List ℕ
  pub world : W

pub data Call : Type 0 where
  pops : Call
  pushes : ℕ → Call

abbrev pub keep : Option ℕ → List ℕ → List ℕ
keep none held = held
keep (some buffer) held = buffer ∷ held

module _ {W : Type 0} (t : Registrar W) where
  unfoldable pub step : Session W → Call → Session W
  step s pops =
      let (got, bq, w) = pop t s.bq s.world in record { bq = bq; held = keep got s.held; world = w }
  step s (pushes buffer) =
      let (bq, w) = push t s.bq buffer s.world in
      if mem buffer s.held then record { bq = bq; held = erase buffer s.held; world = w } else s

  unfoldable pub run : Session W → List Call → Session W
  unfolding step
  run s [] = s
  run s (c ∷ cs) = run (step s c) cs

  -- Does what the call asks of the registrar succeed, where it asks for a buffer or gives one up?
  unfoldable pub succeeds : Session W → Call → Bool
  succeeds s pops = elim s.bq.queue [
    | [] ↦ is_ok (create_buffer t s.bq.op s.bq.buffer_size s.world).0
    | _ ∷ _ ↦ true
  ]
  succeeds s (pushes buffer) =
      ltb (length s.bq.queue) s.bq.max_size || is_ok (destroy_buffer t buffer s.world).0

  unfoldable pub all_succeed : Session W → List Call → Bool
  all_succeed s [] = true
  all_succeed s (c ∷ cs) = succeeds s c && all_succeed (step s c) cs

  -- The same for the buffers that the loop of `trios_buffer_queue_init` makes.
  unfoldable pub fill_succeeds : ℕ → ℕ → ℕ → W → Bool
  fill_succeeds zero op buffer_size w = true
  fill_succeeds (suc n) op buffer_size w =
      let (rc, buffer, w') = create_buffer t op buffer_size w in
      is_ok rc && fill_succeeds n op buffer_size w'

module _ {W : Type 0} (t : Registrar W) where
  config-step :
      (s : Session W) (c : Call)
      → ((step t s c).bq.create_on_fly ≡ s.bq.create_on_fly)
        × ((step t s c).bq.max_size ≡ s.bq.max_size)
  unfolding step pop pop_from pop_empty push
  config-step s pops = go s.bq.queue
    where
      go :
          (q : List ℕ)
          → ((pop_from t q s.bq s.world).1.create_on_fly ≡ s.bq.create_on_fly)
            × ((pop_from t q s.bq s.world).1.max_size ≡ s.bq.max_size)
      go [] = ground arith
      go (b ∷ rest) = (refl, refl)
  config-step s (pushes b) = ground arith

  -- No call changes the limits.
  pub config-run :
      (s : Session W) (cs : List Call)
      → ((run t s cs).bq.create_on_fly ≡ s.bq.create_on_fly)
        × ((run t s cs).bq.max_size ≡ s.bq.max_size)
  unfolding run
  config-run s [] = (refl, refl)
  config-run s (c ∷ cs) = ground (arith, config-run (step t s c) cs, config-step s c)
