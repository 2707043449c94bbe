-- ===== src/Mpi/Machine.antt =====
-- The state that nnti/nnti_mpi.cpp keeps (`transport_global_data`, `target_buffers`, and the objects
-- that pointers lead to), the calls that it makes of the MPI library, and the monad of its
-- functions. MPI itself and the clock are the parameter `Env`. The locks that a function takes and
-- gives back on every path are left out; the lock of an atomic variable is not one of them.
use mathlib.Core.Option
use nnti.Base.{
  ℕ, suc, ◌+◌, ◌≡◌, ◌∙◌, ap, Bool, true, false, Option, none, some, List, [], ◌∷◌, ◌++◌, update,
  if◌then◌else◌,
}
use nnti.Types.{NntiResult, ebadrpc}
use nnti.Threads.{Counter, Locks}
use nnti.Mpi.State.{
  MpiWorkRequest, RequestPtr, null_ptr, own, queue_list, CommandMsg, AtomicRequestMsg, Rank,
  MpiStatus, MemoryHandle, Buffer, WorkRequest,
}

-- Where an `MPI_Request` handle is kept.
pub data Slot : Type 0 where
  wr_slot : ℕ → ℕ → Slot
  queue_slot : ℕ → Slot
  atomics_slot : Slot
  blocking : Slot
  no_slot : Slot

-- `&request_ptr[i]` of the work request at `p`
abbrev pub slot_at : ℕ → RequestPtr → ℕ → Slot
slot_at p null_ptr i = no_slot
slot_at p (own first) i = wr_slot p (first + i)
slot_at p queue_list i = queue_slot i

-- What a send reads: bytes at an address, or a message of the transport.
pub data Message : Type 0 where
  bytes : ℕ → ℕ → Message
  command : CommandMsg → Message
  request : AtomicRequestMsg → Message
  result : ℕ → Message

-- What a receive fills: bytes at an address, the `cmd_msg` of a work request, or one of the two
-- messages of `transport_global_data`.
pub data Region : Type 0 where
  bytes_region : ℕ → ℕ → Region
  command_region : ℕ → Region
  request_region : Region
  result_region : Region

-- `MPI_Issend`, `MPI_Isend`, `MPI_Send` and `MPI_Irecv`: peer, tag, memory, handle.
pub data MpiCall : Type 0 where
  issend isend send : Rank → ℕ → Message → Slot → MpiCall
  irecv : Rank → ℕ → Region → Slot → MpiCall

-- What the receive that a test completes has left in memory.
pub data Delivery : Type 0 where
  nothing : Delivery
  command_arrived : CommandMsg → Delivery
  request_arrived : AtomicRequestMsg → Delivery
  result_arrived : ℕ → Delivery

-- The outcome of `MPI_Test` or `MPI_Testany`: the call failed; nothing completed yet; there is no
-- active request (`done` with the index `MPI_UNDEFINED`); or the request of an index completed.
pub data TestResult : Type 0 where
  failed : TestResult
  pending : TestResult
  inactive : MpiStatus → TestResult
  completed : ℕ → MpiStatus → Delivery → TestResult

-- The world, by the number of the question that is asked of it: whether a send or receive is
-- accepted (MPI_SUCCESS), what a test returns, `trios_exit_now()` and `trios_get_time_ms()`;
-- whether the locks of counters work; and MPI_UNDEFINED, an `int` as its bit pattern.
pub record Env : Type 0 where
  pub accepts : ℕ → Bool
  pub test : ℕ → TestResult
  pub exit_now : ℕ → Bool
  pub time_ms : ℕ → ℕ
  pub undefined : ℕ
  pub locks : Locks

-- `mpi_request_queue_handle`, less the list of its MPI handles
pub record RequestQueue : Type 0 where
  pub reg_buf : Option ℕ
  pub req_queue : ℕ
  pub req_size : ℕ
  pub req_count : ℕ
  pub last_request_index : ℕ

-- `mpi_atomic_t`
pub record Atomic : Type 0 where
  pub locked : Bool
  pub value : ℕ

pub record Transport : Type 0 where
  pub me : ℕ
  pub mbits : Counter
  pub wrs : ℕ → Option MpiWorkRequest
  pub next_wr : ℕ
  pub buffers : ℕ → Option Buffer
  pub nnti_wrs : ℕ → Option WorkRequest
  pub target_buffers : List ℕ
  pub req_queue : RequestQueue
  pub atomics : List Atomic
  pub atomics_request_msg : AtomicRequestMsg
  pub atomics_result_msg : ℕ
  pub posted : List MpiCall
  pub asked : ℕ

-- `none` is the end of the process or of its progress: a failed assertion, a pointer that leads
-- nowhere, or a thread that takes a lock it already has.
abbrev pub M : Type 0 → Type 0
M A = Transport → Option (A × Transport)

abbrev pub pure : {A : Type 0} → A → M A
pure a s = some (a, s)

abbrev pub fault : {A : Type 0} → M A
fault s = none

infixl 5 ◌>>=◌ ◌>>◌
abbrev pub ◌>>=◌ : {A B : Type 0} → M A → (A → M B) → M B
◌>>=◌ m f s = elim (m s) [ none ↦ none | some (a, s') ↦ f a s' ]

abbrev pub ◌>>◌ : {B : Type 0} → M (Unit {0}) → M B → M B
m >> k = m >>= λ _. k

-- A bind whose first part is known to succeed.
pub >>=-eq_of_some :
    {A B : Type 0} (m : M A) (f : A → M B) (s : Transport) {a : A} {s' : Transport}
    → m s ≡ some (a, s')
    → (m >>= f) s ≡ f a s'
>>=-eq_of_some m f s e = rw (◌>>=◌, e)

-- A pointer that must not be NULL.
abbrev pub assert_some : {A : Type 0} → Option A → M A
assert_some none = fault
assert_some (some a) = pure a

abbrev pub get_wr : ℕ → M MpiWorkRequest
get_wr p s = Option.map (λ w. (w, s)) (s.wrs p)

abbrev pub put_wr : ℕ → MpiWorkRequest → M (Unit {0})
put_wr p w s = some (tt, record s { wrs = update s.wrs p (some w) })

-- `calloc` and an assignment of fields: the address is a new one.
abbrev pub new_wr : MpiWorkRequest → M ℕ
new_wr w s =
    some (s.next_wr, record s { wrs = update s.wrs s.next_wr (some w); next_wr = suc s.next_wr })

abbrev pub free_wr : ℕ → M (Unit {0})
free_wr p s = some (tt, record s { wrs = update s.wrs p none })

abbrev pub get_buffer : ℕ → M Buffer
get_buffer b s = Option.map (λ x. (x, s)) (s.buffers b)

abbrev pub put_buffer : ℕ → Buffer → M (Unit {0})
put_buffer b x s = some (tt, record s { buffers = update s.buffers b (some x) })

abbrev pub get_nnti_wr : ℕ → M WorkRequest
get_nnti_wr w s = Option.map (λ x. (x, s)) (s.nnti_wrs w)

abbrev pub put_nnti_wr : ℕ → WorkRequest → M (Unit {0})
put_nnti_wr w x s = some (tt, record s { nnti_wrs = update s.nnti_wrs w (some x) })

-- `MPI_MEM_HDL(b)`, asserted
abbrev pub get_handle : ℕ → M MemoryHandle
get_handle b = do x ← get_buffer b; assert_some x.transport_private

abbrev pub put_handle : ℕ → MemoryHandle → M (Unit {0})
put_handle b h = do x ← get_buffer b; put_buffer b (record x { transport_private = some h })

abbrev pub read : {A : Type 0} → (Transport → A) → M A
read f s = some (f s, s)

-- A send or receive; one that MPI refuses leaves no trace.
abbrev pub post : Env → MpiCall → M Bool
post env c s = some (
  env.accepts s.asked,
  record s {
    posted = (if env.accepts s.asked then c ∷ s.posted else s.posted);
    asked = suc s.asked;
  },
)

abbrev pub ask : {A : Type 0} → (ℕ → A) → M A
ask f s = some (f s.asked, record s { asked = suc s.asked })

-- `wr_queue.push_back(mpi_wr)` on the handle of the buffer at `b`
abbrev pub enqueue : ℕ → ℕ → M (Unit {0})
enqueue b p = do h ← get_handle b; put_handle b (record h { wr_queue = h.wr_queue ++ (p ∷ []) })

-- A send or receive that must be accepted before `rest`; otherwise `goto cleanup` with
-- NNTI_EBADRPC.
abbrev pub post_or_fail : Env → MpiCall → M NntiResult → M NntiResult
post_or_fail env c rest = do accepted ← post env c; if accepted then rest else pure ebadrpc

-- A read of memory that is known.
pub get_wr_lem :
    (p : ℕ) (s : Transport) (w : MpiWorkRequest) → s.wrs p ≡ some w → get_wr p s ≡ some (w, s)
get_wr_lem p s w e = rw (get_wr, e)

pub get_nnti_wr_lem :
    (n : ℕ) (s : Transport) (w : WorkRequest)
    → s.nnti_wrs n ≡ some w
    → get_nnti_wr n s ≡ some (w, s)
get_nnti_wr_lem n s w e = rw (get_nnti_wr, e)

pub get_buffer_lem :
    (n : ℕ) (s : Transport) (b : Buffer) → s.buffers n ≡ some b → get_buffer n s ≡ some (b, s)
get_buffer_lem n s b e = rw (get_buffer, e)

pub get_handle_lem :
    (n : ℕ) (s : Transport) (b : Buffer) (h : MemoryHandle)
    → s.buffers n ≡ some b
    → b.transport_private ≡ some h
    → get_handle n s ≡ some (h, s)
get_handle_lem n s b h e k =
    >>=-eq_of_some (get_buffer n) (λ x. assert_some x.transport_private) s (get_buffer_lem n s b e)
    ∙ ap (λ (o : Option MemoryHandle). assert_some o s) k

pub put_handle_lem :
    (n : ℕ) (g : MemoryHandle) (s : Transport) (b : Buffer)
    → s.buffers n ≡ some b
    → put_handle n g s
      ≡ some (
        tt,
        record s { buffers = update s.buffers n (some (record b { transport_private = some g })) },
      )
put_handle_lem n g s b e =
    >>=-eq_of_some (get_buffer n) (λ x. put_buffer n (record x { transport_private = some g })) s
      (get_buffer_lem n s b e)

pub enqueue_lem :
    (n p : ℕ) (s : Transport) (b : Buffer) (h : MemoryHandle)
    → s.buffers n ≡ some b
    → b.transport_private ≡ some h
    → enqueue n p s
      ≡ some (
        tt,
        record s {
          buffers = update s.buffers n (
              some (record b {
                transport_private = some (record h { wr_queue = h.wr_queue ++ (p ∷ []) });
              }));
        },
      )
enqueue_lem n p s b h e k =
    >>=-eq_of_some (get_handle n)
      (λ h. put_handle n (record h { wr_queue = h.wr_queue ++ (p ∷ []) })) s
      (get_handle_lem n s b h e k)
    ∙ put_handle_lem n (record h { wr_queue = h.wr_queue ++ (p ∷ []) }) s b e

-- The two outcomes of a send or receive that must be accepted.
pub post_or_fail_accepted :
    (env : Env) (c : MpiCall) (rest : M NntiResult) (s : Transport)
    → env.accepts s.asked ≡ true
    → post_or_fail env c rest s ≡ rest (record s { posted = c ∷ s.posted; asked = suc s.asked })
post_or_fail_accepted env c rest s e =
    ap
      (λ (t : Bool).
        (if t then rest else pure ebadrpc)
          (record s { posted = (if t then c ∷ s.posted else s.posted); asked = suc s.asked }))
      e

pub post_or_fail_refused :
    (env : Env) (c : MpiCall) (rest : M NntiResult) (s : Transport)
    → env.accepts s.asked ≡ false
    → post_or_fail env c rest s ≡ some (ebadrpc, record s { asked = suc s.asked })
post_or_fail_refused env c rest s e =
    ap
      (λ (t : Bool).
        (if t then rest else pure ebadrpc)
          (record s { posted = (if t then c ∷ s.posted else s.posted); asked = suc s.asked }))
      e
