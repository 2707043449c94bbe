-- ===== src/Ib/Register.antt =====
-- nnti/nnti_ib.cpp: the registration of buffers. A buffer and a memory handle are objects at their
-- addresses; what verbs make of a registration is a parameter. The memory of acknowledgements is a
-- parameter too, and so is which work requests have some.

pub mod Registered
use nnti.Base.{
  ℕ, zero, suc, ◌+◌, ◌-◌, ◌%◌, ◌^◌, Bool, true, false, not, ◌&&◌, ◌||◌, Option, none, some, List,
  [], ◌∷◌, ◌==◌, if◌then◌else◌, update,
}
use nnti.Types.{NntiResult, ok, einval}
use nnti.Mpi.State.{bop_recv_queue}
use nnti.Mpi.Register.{is_remote}
use nnti.Ib.{reset, other}
use nnti.Ib.Pool.{Pools, wr_pool_rdma_push, wr_pool_sendrecv_push}
use nnti.Ib.Issue.{IbConfig, IbState}
use nnti.Ib.Issue.Receive.{Receiving, receiving, refused, post_ack_recv_work_request}
use nnti.Ib.Segments.{Segment, Mr, Local, hash6432shift, Sge}
use nnti.Ib.Segments.Copies.{segment_of, segments_of}

-- `ib_memory_handle`
pub record IbHandle : Type 0 where
  pub mr_list : List Mr
  pub wr_queue : List ℕ
  pub ref_count : ℕ

-- `buffer_segments`: NULL, an array, or one that has been freed.
pub data Segments : Type 0 where
  null dangling : Segments
  array : List Segment → Segments

-- The fields of `NNTI_buffer_t` that registration sets.
pub record IbBuffer : Type 0 where
  pub ops : ℕ
  pub payload_size : ℕ
  pub payload : ℕ
  pub handle : Option ℕ
  pub segments : Segments

-- The buffers, `buffers_by_bufhash`, the handles, the next free address of a handle, and the work
-- requests, whose own queue is not used here.
pub record Registry : Type 0 where
  pub buffers : ℕ → Option IbBuffer
  pub bufhash : List (ℕ × ℕ)
  pub handles : ℕ → IbHandle
  pub next_handle : ℕ
  pub io : IbState

-- A segment as the user names it: where it starts, and its length.
abbrev pub UserSegment : Type 0
UserSegment = ℕ × ℕ

-- A NULL pointer that is followed, or an `assert` that fails, is none.
infixl 5 ◌>>=◌
abbrev pub ◌>>=◌ : {A B : Type 0} → Option A → (A → Option B) → Option B
none >>= f = none
some a >>= f = f a

abbrev pub find_hash : ℕ → List (ℕ × ℕ) → Option ℕ
find_hash h [] = none
find_hash h ((k, b) ∷ m) = if k == h then some b else find_hash h m

abbrev pub erase_hash : ℕ → List (ℕ × ℕ) → List (ℕ × ℕ)
erase_hash h [] = []
erase_hash h ((k, b) ∷ m) = if k == h then m else (k, b) ∷ erase_hash h m

abbrev pub array_of : Segments → Option (List Segment)
array_of (array ss) = some ss
array_of _ = none

-- The address of the first segment.
abbrev pub first_buf : IbBuffer → Option ℕ
first_buf b = array_of b.segments >>= λ ss. elim ss [ [] ↦ none | s ∷ _ ↦ some s.buf ]

-- The entry is inserted where the hash is not in the map yet, as the `assert` demands.
abbrev pub insert_absent : ℕ → ℕ → Registry → Option ℕ → Option Registry
insert_absent h a s none = some (record s { bufhash = (h, a) ∷ s.bufhash })
insert_absent h a s (some _) = none

-- `insert_buf_bufhash`
unfoldable pub insert_buf_bufhash : ℕ → IbBuffer → Registry → Option Registry
insert_buf_bufhash a b s = first_buf b >>= λ buf.
    insert_absent (hash6432shift buf) a s (find_hash (hash6432shift buf) s.bufhash)

-- `get_buf_bufhash`
unfoldable pub get_buf_bufhash : ℕ → Registry → Option ℕ
get_buf_bufhash h s = find_hash h s.bufhash

-- `del_buf_bufhash`
unfoldable pub del_buf_bufhash : IbBuffer → Registry → Option Registry
del_buf_bufhash b s =
    first_buf b >>= λ buf. some (record s { bufhash = erase_hash (hash6432shift buf) s.bufhash })

-- The loop that compares the segments with those of `old_buf`.
unfoldable pub match_segments : List Segment → List UserSegment → Bool
match_segments [] us = true
match_segments (s ∷ ss) [] = true
match_segments (s ∷ ss) ((buf, len) ∷ us) =
    let rest = match_segments ss us in
    if not (s.buf == buf) then false else if not (s.size == len) then false else rest

abbrev pub segment_count : {A : Type 0} → List A → ℕ
segment_count [] = 0
segment_count (x ∷ xs) = suc (segment_count xs)

abbrev pub sum_of : List UserSegment → ℕ
sum_of [] = 0
sum_of ((buf, len) ∷ us) = len + sum_of us

-- `register_memory_segment` of every segment: NULL where verbs refuse one.
abbrev pub register_each : (UserSegment → Option Mr) → List UserSegment → List (Option Mr)
register_each reg [] = []
register_each reg (u ∷ us) = reg u ∷ register_each reg us

-- The last loop follows every `mr_list[i]`.
abbrev pub all_mrs : List (Option Mr) → Option (List Mr)
all_mrs [] = some []
all_mrs (none ∷ ms) = none
all_mrs (some m ∷ ms) = all_mrs ms >>= λ rest. some (m ∷ rest)

-- A segment as the descriptor keeps it: its size is a `uint32_t`.
abbrev pub stored : Mr → Segment
stored m = record { buf = m.addr; size = m.length % 2 ^ 32; key = m.rkey }

abbrev pub stored_all : List Mr → List Segment
stored_all [] = []
stored_all (m ∷ ms) = stored m ∷ stored_all ms

-- A handle of segments that are not registered.
abbrev pub new_handle : List Mr → Registry → ℕ × Registry
new_handle mrs s = (
  s.next_handle,
  record s {
    handles =
        update s.handles s.next_handle (record { mr_list = mrs; wr_queue = []; ref_count = 1 });
    next_handle = suc s.next_handle;
  },
)

-- The first part of a registration: the result where it ends there, or the handle of `old_buf`.
pub data Before : Type 0 where
  mismatch : NntiResult → Before
  new_buffer : Before
  again : ℕ → Before

-- Segments that are registered already must be those that are given.
abbrev pub compare_old : List UserSegment → Registry → Option ℕ → Option Before
compare_old us s none = some new_buffer
compare_old us s (some a) = s.buffers a >>= λ old. array_of old.segments >>= λ ss.
    if not (segment_count ss == segment_count us)
    then some (mismatch einval)
    else if match_segments ss us
    then (old.handle >>= λ h. some (again h))
    else some (mismatch einval)

unfoldable pub look_up : ℕ → List UserSegment → Registry → Option Before
look_up first us s = compare_old us s (get_buf_bufhash (hash6432shift first) s)

abbrev pub with_buffer : ℕ → IbBuffer → Registry → Registry
with_buffer a b s = record s { buffers = update s.buffers a (some b) }

abbrev pub state_of : Receiving → IbState
state_of (receiving t) = t
state_of (refused t) = t

-- What a call on the work requests leaves, with the queue of the handle `h`.
abbrev pub with_queue : ℕ → Registry → IbState → Registry
with_queue h s t = record s {
  io = record t { wr_queue = s.io.wr_queue };
  handles = update s.handles h (record (s.handles h) { wr_queue = t.wr_queue });
}

-- A work request that goes back to a pool by `push`.
abbrev pub pushed : (ℕ → Pools → Pools) → ℕ → IbState → IbState
pushed push p s =
    let r = s.reqs p in
    record s {
      pools = push p s.pools;
      reqs =
          update s.reqs p (record r { work = record r.work { last_op = other 0; state = reset } });
    }

module _ (cfg : IbConfig) where
  abbrev pub wants_ack : ℕ → Bool
  wants_ack ops = cfg.use_rdma_target_ack && is_remote ops

  -- The receive for acknowledgements that a registration posts; its result is not looked at.
  unfoldable pub post_ack : Bool → Sge → ℕ → ℕ → Registry → Option Registry
  post_ack accepts ack ops h s =
      if wants_ack ops
      then (post_ack_recv_work_request cfg accepts ack ops
            (record s.io { wr_queue = (s.handles h).wr_queue })
          >>= λ r. some (with_queue h s (state_of r)))
      else some s

  -- The rest: with a new handle the segments are registered and the array is allocated. With the
  -- handle of `old_buf`, which has a reference already, the buffer has been cleared and has no array to
  -- write to.
  unfoldable pub set_up_segments :
      Bool
      → Sge
      → (UserSegment → Option Mr)
      → ℕ
      → ℕ
      → ℕ
      → List UserSegment
      → Registry
      → Before
      → Option (NntiResult × Registry)
  set_up_segments accepts ack reg ops a first us s (mismatch rc) = some (rc, s)
  set_up_segments accepts ack reg ops a first us s (again h) = none
  set_up_segments accepts ack reg ops a first us s new_buffer =
      all_mrs (register_each reg us) >>= λ mrs.
      let (h, t) = new_handle mrs s in
      let b : IbBuffer = record {
        ops = ops;
        payload_size = sum_of us % 2 ^ 64;
        payload = first;
        handle = some h;
        segments = array (stored_all mrs);
      } in
      post_ack accepts ack ops h (with_buffer a b t) >>= λ t'.
      insert_buf_bufhash a b t' >>= λ u. some (ok, u)

  -- `NNTI_ib_register_segments` of one segment or more for the buffer at `a`.
  unfoldable pub ib_register_segments :
      Bool
      → Sge
      → (UserSegment → Option Mr)
      → ℕ
      → ℕ
      → List UserSegment
      → Registry
      → Option (NntiResult × Registry)
  ib_register_segments accepts ack reg ops a [] s = none
  ib_register_segments accepts ack reg ops a ((first, len) ∷ us) s =
      if ops == bop_recv_queue
      then some (einval, s)
      else look_up first ((first, len) ∷ us) s
        >>= set_up_segments accepts ack reg ops a first ((first, len) ∷ us) s

  -- The loop over the work requests that wait in the queue of a handle: with pools, each goes to the
  -- pool that fits it.
  abbrev pub return_all : (ℕ → Bool) → List ℕ → IbState → IbState
  return_all has_ack [] s = s
  return_all has_ack (p ∷ ps) s = return_all has_ack ps (
      if cfg.use_wr_pool
      then (if has_ack p then pushed wr_pool_rdma_push p s else pushed wr_pool_sendrecv_push p s)
      else s)

  -- What deregistration leaves in the structure: the array of segments has been freed.
  abbrev pub cleared_buffer : IbBuffer
  cleared_buffer = record {
    ops = 0;
    payload_size = 0;
    payload = 0;
    handle = none;
    segments = dangling;
  }

  -- `NNTI_ib_unregister_memory`: the last of the buffers of a handle takes its segments with it; the
  -- buffer is cleared only then.
  unfoldable pub ib_unregister_memory : (ℕ → Bool) → ℕ → Registry → Option (NntiResult × Registry)
  ib_unregister_memory has_ack a s = s.buffers a >>= λ b. b.handle >>= λ k.
      let h = s.handles k in
      let left : IbHandle = record h { ref_count = (h.ref_count + (2 ^ 32 - 1)) % 2 ^ 32 } in
      let t : Registry = record s { handles = update s.handles k left } in
      if left.ref_count == 0
      then (del_buf_bufhash b t >>= λ u. some (
        ok,
        record u {
          io = return_all has_ack h.wr_queue u.io;
          buffers = update u.buffers a (some cleared_buffer);
        },
      ))
      else some (ok, t)
