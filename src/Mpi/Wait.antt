-- ===== src/Mpi/Wait.antt =====
-- nnti/nnti_mpi.cpp: the calls on a user's work request, and `NNTI_mpi_wait`, which drives the events
-- of its process until the request is complete.
pub mod Loop
pub mod Timeout
pub mod Finished
pub mod Result
pub mod Transfer
pub mod Progress
pub mod Many
pub mod Any
pub mod All
pub mod After
pub mod Chosen
pub mod Named
pub mod Finality
pub mod Null
use nnti.Base.{
  ℕ, suc, ◌+◌, ◌-◌, Bool, true, false, ◌&&◌, Option, none, some, List, [], ◌∷◌, ◌==◌, if◌then◌else◌,
  erase,
}
use nnti.Types.{NntiResult, ok, is_ok}
use nnti.Mpi.State.{
  put_initiator, get_initiator, put_target, get_target, send_request, send_buffer, new_request,
  MpiWorkRequest, bop_with_events, has_op, null_transport, MpiOp, WorkRequest, Status,
  rdma_read_complete, rdma_write_complete, OpState,
}
use nnti.Mpi.Machine.{
  Delivery, nothing, command_arrived, request_arrived, result_arrived, TestResult, failed, pending,
  inactive, completed, Env, M, pure, fault, ◌>>=◌, ◌>>◌, assert_some, get_wr, put_wr, get_buffer,
  get_nnti_wr, put_nnti_wr, get_handle, put_handle, read, ask,
}
use nnti.Mpi.Event.{process_event, is_wr_complete}
use nnti.Mpi.Atomics.{set_result_msg, set_request_msg}
use nnti.Mpi.Register.{repost_rdma_target_work_request}

-- `NNTI_mpi_create_work_request`
unfoldable pub create_work_request : ℕ → ℕ → M NntiResult
create_work_request reg_buf wr = do
  x ← get_buffer reg_buf
  _ ← assert_some x.transport_private
  user ← get_nnti_wr wr
  put_nnti_wr wr (record user {
    transport_id = x.transport_id;
    reg_buf = some reg_buf;
    ops = x.ops;
    transport_private = none;
  })
  pure ok

-- `NNTI_mpi_clear_work_request`
unfoldable pub clear_work_request : ℕ → M NntiResult
clear_work_request wr = do
  user ← get_nnti_wr wr
  put_nnti_wr wr (record user { transport_private = none })
  pure ok

-- `NNTI_mpi_destroy_work_request`
unfoldable pub destroy_work_request : ℕ → M NntiResult
destroy_work_request wr = do
  user ← get_nnti_wr wr
  put_nnti_wr wr (record user {
    transport_id = null_transport;
    reg_buf = none;
    ops = 0;
    transport_private = none;
  })
  pure ok

-- `is_wr_complete` of a user's work request
unfoldable pub is_user_wr_complete : ℕ → M Bool
is_user_wr_complete wr = do
  user ← get_nnti_wr wr
  p ← assert_some user.transport_private
  w ← get_wr p
  pure (is_wr_complete w)

-- `is_any_wr_complete`, from the index `i` on: the index of the first that is complete.
unfoldable pub is_any_wr_complete : ℕ → List (Option ℕ) → M (Option ℕ)
is_any_wr_complete i [] = pure none
is_any_wr_complete i (none ∷ wrs) = is_any_wr_complete (suc i) wrs
is_any_wr_complete i (some wr ∷ wrs) =
    is_user_wr_complete wr >>= λ c. if c then pure (some i) else is_any_wr_complete (suc i) wrs

-- `is_all_wr_complete`
unfoldable pub is_all_wr_complete : List (Option ℕ) → M Bool
is_all_wr_complete [] = pure true
is_all_wr_complete (none ∷ wrs) = is_all_wr_complete wrs
is_all_wr_complete (some wr ∷ wrs) =
    is_user_wr_complete wr >>= λ c. if c then is_all_wr_complete wrs else pure false

-- What `create_status` writes for each operation; `source` is where the last event came from.
abbrev pub status_of : MpiOp → ℕ → ℕ → MpiWorkRequest → Status → Status
status_of put_initiator me source w st = record st {
  offset = w.src_offset;
  src = me;
  dest = source;
}
status_of get_target me source w st = record st { offset = w.src_offset; src = me; dest = source }
status_of send_request me source w st = record st { offset = w.src_offset; src = me; dest = source }
status_of send_buffer me source w st = record st { offset = w.src_offset; src = me; dest = source }
status_of get_initiator me source w st = record st {
  offset = w.dst_offset;
  src = source;
  dest = me;
}
status_of put_target me source w st = record st { offset = w.dst_offset; src = source; dest = me }
status_of new_request me source w st = record st { offset = w.dst_offset; src = source; dest = me }
status_of _ me source w st = st

abbrev pub buffer_status : Option ℕ → ℕ → Status → M Status
buffer_status none length st = pure st
buffer_status (some b) length st =
    get_buffer b >>= λ x. pure (record st { start = x.payload; length = length })

-- `create_status`, on the status that the caller gave.
unfoldable pub create_status : WorkRequest → MpiWorkRequest → NntiResult → Status → M Status
create_status user w rc st =
    if is_ok rc
    then (buffer_status w.reg_buf w.length (record st { op = user.ops; result = rc }) >>= λ st'.
        read (λ s. s.me) >>= λ me. pure (status_of w.last_op me w.last_event.source w st'))
    else pure (record st { op = user.ops; result = rc })

-- What a receive that completed has left in memory; `p` is the work request that was tested.
abbrev pub deliver : ℕ → Delivery → M (Unit {0})
deliver p nothing = pure tt
deliver p (command_arrived c) = get_wr p >>= λ w. put_wr p (record w { cmd_msg = c })
deliver p (request_arrived msg) = set_request_msg msg
deliver p (result_arrived v) = set_result_msg v

-- `wr_queue.front()`, which an empty deque does not have.
abbrev pub front : List ℕ → M ℕ
front [] = fault
front (p ∷ ps) = pure p

-- A target's work request whose transfer is over.
abbrev pub is_transferred : MpiOp → OpState → Bool
is_transferred get_target rdma_read_complete = true
is_transferred put_target rdma_write_complete = true
is_transferred _ _ = false

-- The end of a round of `check_target_buffer_progress`, after its event.
unfoldable pub recycle_target : Env → ℕ → ℕ → M ℕ
recycle_target env b p = do
  w ← get_wr p
  x ← get_buffer b
  h ← get_handle b
  if is_transferred w.last_op w.op_state
      then (if has_op x.ops bop_with_events
          then pure 1
          else (put_handle b (record h { wr_queue = erase p h.wr_queue })
              >> (repost_rdma_target_work_request env p >>= λ _. pure 1)))
      else pure 0

-- What a round does with the outcome of its test: how many operations completed, or `none` where it
-- leaves the loop.
unfoldable pub on_target_test : Env → ℕ → ℕ → TestResult → M (Option ℕ)
on_target_test env b p failed = pure none
on_target_test env b p pending = pure (some 0)
on_target_test env b p (inactive event) =
    process_event env p event >>= λ _. recycle_target env b p >>= λ n. pure (some n)
on_target_test env b p (completed i event delivery) =
    deliver p delivery
    >> (process_event env p event >>= λ _. recycle_target env b p >>= λ n. pure (some n))

unfoldable pub check_target : Env → ℕ → M (Option ℕ)
check_target env b = do
  h ← get_handle b
  p ← front h.wr_queue
  w ← get_wr p
  if is_wr_complete w then pure (some 0) else (ask env.test >>= on_target_test env b p)

abbrev pub after_target : M ℕ → Option ℕ → M ℕ
after_target rest none = pure 0
after_target rest (some n) = rest >>= λ m. pure (n + m)

unfoldable pub check_targets : Env → List ℕ → M ℕ
check_targets env [] = pure 0
check_targets env (b ∷ bs) = check_target env b >>= after_target (check_targets env bs)

-- `check_target_buffer_progress`
unfoldable pub check_target_buffer_progress : Env → M ℕ
check_target_buffer_progress env = read (λ s. s.target_buffers) >>= check_targets env
