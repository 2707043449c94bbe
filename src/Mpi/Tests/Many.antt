-- ===== src/Mpi/Tests/Many.antt =====
-- The theorems on waiting for several work requests at inputs: two PUTs whose data has been taken.
use nnti.Base.{
  ℕ, ◌≡◌, refl, true, Option, none, some, List, [], ◌∷◌, ◌==◌, if◌then◌else◌, update, replicate,
}
use nnti.Types.{ok, ecanceled}
use nnti.Mpi.State.{rdma_rts_complete, MpiWorkRequest, WorkRequest, Status, own, put_send_index}
use nnti.Mpi.Machine.{Transport, Env, pending, completed, nothing}
use nnti.Mpi.Event.{process_event, process_wr, process_data}
use nnti.Mpi.Atomics.{check_atomic_operation, on_test}
use nnti.Mpi.Initiate.{put_request}
use nnti.Mpi.Wait.{
  is_any_wr_complete, is_all_wr_complete, is_user_wr_complete, check_targets,
  check_target_buffer_progress,
}
use nnti.Mpi.Wait.Loop.{ms}
use nnti.Mpi.Wait.Many.{owners, owned_by, link_all, link_wr}
use nnti.Mpi.Wait.Any.{any_loop, any_round, test_any, on_any_test, break_on_any}
use nnti.Mpi.Wait.All.{
  AllResult, all_completed, all_loop, all_round, test_of_all, on_all_test, break_on_all,
  deliver_all, process_all, waitall, finish_all,
}
use nnti.Mpi.Wait.Chosen.{Chosen}
use nnti.Mpi.Wait.Named.{any_loop-Chosen}
use nnti.Mpi.Wait.Finality.{AllComplete, all_loop-AllComplete}
use nnti.Mpi.Wait.Null.{waitall-null}
use nnti.Mpi.Tests.{willing, user, remote, there, here_now, arrival}

abbrev sent : MpiWorkRequest
sent = record (put_request 1 remote there 4 16 8 3) {
  op_state = rdma_rts_complete;
  request_ptr = own put_send_index;
  request_count = 1;
}

abbrev user_of : ℕ → WorkRequest
user_of p = record user { reg_buf = some 1; ops = 1; transport_private = some p }

abbrev two_puts : Transport
two_puts = record here_now {
  wrs = update (update here_now.wrs 20 (some sent)) 21 (some sent);
  nnti_wrs = update (update here_now.nnti_wrs 3 (some (user_of 20))) 5 (some (user_of 21));
  target_buffers = [];
  asked = 0;
}

-- The third question, the test of all, is told that the request at the index 1 completed.
abbrev second_completes : Env
second_completes = record willing {
  test = λ k. if k == 2 then completed 1 arrival nothing else pending;
}

abbrev state_of : {A : Type 0} → Option (A × Transport) → Transport
state_of none = two_puts
state_of (some (a, s)) = s

abbrev any_list : List (Option ℕ)
any_list = none ∷ some 3 ∷ some 5 ∷ []

abbrev after_any : Transport
after_any = state_of (any_loop second_completes 5 0 (ms 9) any_list 7 two_puts)

any_loop-Chosen_example : Chosen any_list after_any 2
unfolding any_loop any_round check_atomic_operation on_test check_target_buffer_progress
    check_targets test_any owners owned_by on_any_test process_event process_wr process_data
    break_on_any is_any_wr_complete is_user_wr_complete
any_loop-Chosen_example =
    any_loop-Chosen second_completes 5 0 (ms 9) any_list 7 2 two_puts after_any refl

abbrev both : List (Option ℕ)
both = some 3 ∷ some 5 ∷ []

abbrev both_complete : ℕ → AllResult
both_complete k = all_completed ((arrival, nothing) ∷ (arrival, nothing) ∷ [])

abbrev after_all : Transport
after_all = state_of (all_loop willing both_complete 5 0 (ms 9) both two_puts)

all_loop-AllComplete_example : AllComplete both after_all
unfolding all_loop all_round check_atomic_operation on_test check_target_buffer_progress
    check_targets test_of_all owners owned_by on_all_test deliver_all process_all process_event
    process_wr process_data break_on_all is_all_wr_complete is_user_wr_complete
all_loop-AllComplete_example =
    all_loop-AllComplete willing both_complete 5 0 (ms 9) both two_puts after_all refl

abbrev leaving : Env
leaving = record willing { exit_now = λ k. true }

abbrev blanks : List Status
blanks =
    replicate 2
      (record { op = 0; result = ok; start = 0; offset = 0; length = 0; src = 0; dest = 0 })

abbrev null_list : List (Option ℕ)
null_list = some 3 ∷ none ∷ []

waitall-null_example : ecanceled ≡ ecanceled
unfolding waitall link_all link_wr break_on_all is_all_wr_complete is_user_wr_complete all_loop
    finish_all
waitall-null_example =
    waitall-null leaving both_complete 5 (some 3) none [] (ms 9) blanks blanks 1 two_puts
      (state_of (waitall leaving both_complete 5 null_list (ms 9) blanks two_puts)) ecanceled refl
      refl
