-- ===== src/Mpi/Wait/Finished.antt =====
-- `NNTI_mpi_wait` for a work request that is complete: the steps from the call to its end.
use nnti.Base.{
  ℕ, suc, ◌≡◌, ◌∙◌, refl, ap, Bool, true, false, Option, none, some, ◌==◌, if◌then◌else◌, erase,
  update, arith,
}
use nnti.Types.{NntiResult, ok}
use nnti.Mpi.State.{
  MpiOp, put_initiator, get_initiator, send_request, send_buffer, MpiWorkRequest, MemoryHandle,
  bop_atomics, Buffer, WorkRequest, Status,
}
use nnti.Mpi.Machine.{
  Env, Transport, M, pure, fault, ◌>>=◌, ◌>>◌, assert_some, get_wr, get_buffer, get_nnti_wr,
  get_handle, put_handle, free_wr, put_nnti_wr, read, get_wr_lem, get_nnti_wr_lem, get_buffer_lem,
  get_handle_lem, put_handle_lem, >>=-eq_of_some,
}
use nnti.Mpi.Event.{is_wr_complete}
use nnti.Mpi.Wait.{status_of, buffer_status, create_status, front}
use nnti.Mpi.Wait.Loop.{Timeout, ended, wait_loop, find_wr, release, recycle, finish, wait}

-- The user's work request at `wr` is linked to the one at `p`, which is complete, and the buffer of
-- both, with its handle, is in memory.
pub record Finished (s : Transport) (wr : ℕ) (user : WorkRequest) (p : ℕ) (w : MpiWorkRequest)
    (b : ℕ) (x : Buffer) (h : MemoryHandle) : Type 0 where
  pub at_wr : s.nnti_wrs wr ≡ some user
  pub plain : (user.ops == bop_atomics) ≡ false
  pub of_user : user.reg_buf ≡ some b
  pub linked : user.transport_private ≡ some p
  pub at_p : s.wrs p ≡ some w
  pub of_buffer : w.reg_buf ≡ some b
  pub at_b : s.buffers b ≡ some x
  pub handle : x.transport_private ≡ some h
  pub complete : is_wr_complete w ≡ true

-- The status of a finished work request, on the one `st` that the caller gave.
abbrev pub final_status : ℕ → WorkRequest → MpiWorkRequest → Buffer → Status → Status
final_status me user w x st =
    status_of w.last_op me w.last_event.source w
      (record st { op = user.ops; result = ok; start = x.payload; length = w.length })

module _ (env : Env) (wr : ℕ) (user : WorkRequest) (p : ℕ) (w : MpiWorkRequest) (b : ℕ) (x : Buffer)
    (h : MemoryHandle) (st : Status) where
  found : (s : Transport) → Finished s wr user p w b x h → find_wr wr user s ≡ some (p, s)
  unfolding find_wr
  found s finished =
      let pick : Option ℕ → MemoryHandle → M ℕ = λ o h. elim o [
        | some p ↦ pure p
        | none ↦ front h.wr_queue >>= λ p.
            put_nnti_wr wr (record user { transport_private = some p }) >> pure p
      ] in
      ap
        (λ (t : Bool).
          (if t
              then assert_some user.transport_private
              else (assert_some user.reg_buf >>= λ b. get_handle b >>= pick user.transport_private))
            s)
        finished.plain
      ∙ ap (λ o. (assert_some o >>= λ b. get_handle b >>= pick user.transport_private) s)
          finished.of_user
      ∙ >>=-eq_of_some (get_handle b) (pick user.transport_private) s
          (get_handle_lem b s x h finished.at_b finished.handle)
      ∙ ap (λ o. pick o h s) finished.linked

  status_lem :
      (s : Transport)
      → Finished s wr user p w b x h
      → create_status user w ok st s ≡ some (final_status s.me user w x st, s)
  unfolding create_status
  status_lem s finished =
      let st₁ : Status = record st { op = user.ops; result = ok } in
      let rest : Status → M Status =
        λ st'. read (λ s. s.me) >>= λ me. pure (status_of w.last_op me w.last_event.source w st') in
      ap (λ o. (buffer_status o w.length st₁ >>= rest) s) finished.of_buffer
      ∙ >>=-eq_of_some (buffer_status (some b) w.length st₁) rest s (
          >>=-eq_of_some (get_buffer b)
            (λ x. pure (record st₁ { start = x.payload; length = w.length })) s
            (get_buffer_lem b s x finished.at_b))

  pub finish_lem :
      (s : Transport)
      → Finished s wr user p w b x h
      → finish env wr p st (ended ok) s
        ≡ (recycle w.last_op env p w (final_status s.me user w x st)
              >> pure (some (ok, final_status s.me user w x st)))
            s
  unfolding finish
  finish_lem s finished =
      let close : MpiWorkRequest → Status → M (Option (NntiResult × Status)) =
        λ w st'. recycle w.last_op env p w st' >> pure (some (ok, st')) in
      >>=-eq_of_some (get_nnti_wr wr)
        (λ user. get_wr p >>= λ w. create_status user w ok st >>= close w) s
        (get_nnti_wr_lem wr s user finished.at_wr)
      ∙ >>=-eq_of_some (get_wr p) (λ w. create_status user w ok st >>= close w) s
          (get_wr_lem p s w finished.at_p)
      ∙ >>=-eq_of_some (create_status user w ok st) (close w) s (status_lem s finished)

  pub asked-Finished :
      (s : Transport)
      → Finished s wr user p w b x h
      → Finished (record s { asked = suc s.asked }) wr user p w b x h
  asked-Finished s finished = record {
    at_wr = finished.at_wr;
    plain = finished.plain;
    of_user = finished.of_user;
    linked = finished.linked;
    at_p = finished.at_p;
    of_buffer = finished.of_buffer;
    at_b = finished.at_b;
    handle = finished.handle;
    complete = finished.complete;
  }

  pub wait_to_finish :
      (rounds : ℕ) (timeout : Timeout) (s : Transport)
      → Finished s wr user p w b x h
      → wait env rounds wr timeout st s
        ≡ finish env wr p st (ended ok) (record s { asked = suc s.asked })
  unfolding wait
  wait_to_finish rounds timeout s finished =
      let s₁ : Transport = record s { asked = suc s.asked } in
      let entry : ℕ = env.time_ms s.asked in
      let end : ℕ → Bool → M (Option (NntiResult × Status)) = λ p t.
        (if t then pure (ended ok) else wait_loop env rounds entry timeout p)
        >>= finish env wr p st in
      let here : Finished s₁ wr user p w b x h = asked-Finished s finished in
      >>=-eq_of_some (get_nnti_wr wr)
        (λ user. find_wr wr user >>= λ p. get_wr p >>= λ w. end p (is_wr_complete w)) s₁
        (get_nnti_wr_lem wr s₁ user finished.at_wr)
      ∙ >>=-eq_of_some (find_wr wr user) (λ p. get_wr p >>= λ w. end p (is_wr_complete w)) s₁
          (found s₁ here)
      ∙ >>=-eq_of_some (get_wr p) (λ w. end p (is_wr_complete w)) s₁
          (get_wr_lem p s₁ w finished.at_p)
      ∙ ap (λ t. end p t s₁) finished.complete

  pub release_lem :
      (status : Status) (s : Transport)
      → Finished s wr user p w b x h
      → (status.length == 0) ≡ false
      → release p w status s
        ≡ some (
          tt,
          record s {
            buffers = update s.buffers b (
                some (record x {
                  transport_private = some (record h { wr_queue = erase p h.wr_queue });
                }));
            wrs = update s.wrs p none;
          },
        )
  unfolding release
  release_lem status s finished ne =
      let g : MemoryHandle = record h { wr_queue = erase p h.wr_queue } in
      let off : M (Unit {0}) = get_handle b >>= λ h.
      put_handle b (record h { wr_queue = erase p h.wr_queue }) >> free_wr p in
      ap
        (λ (t : Bool).
          (if t
              then fault
              else (assert_some w.reg_buf >>= λ b. get_handle b >>= λ h.
                  put_handle b (record h { wr_queue = erase p h.wr_queue }) >> free_wr p))
            s)
        ne
      ∙ ap
          (λ o.
            (assert_some o >>= λ b. get_handle b >>= λ h.
            put_handle b (record h { wr_queue = erase p h.wr_queue }) >> free_wr p)
              s)
          finished.of_buffer
      ∙ >>=-eq_of_some (get_handle b)
          (λ h. put_handle b (record h { wr_queue = erase p h.wr_queue }) >> free_wr p) s
          (get_handle_lem b s x h finished.at_b finished.handle)
      ∙ >>=-eq_of_some (put_handle b g) (λ _. free_wr p) s (put_handle_lem b g s x finished.at_b)

-- The operations of an initiator on buffers.
abbrev pub is_initiator : MpiOp → Bool
is_initiator put_initiator = true
is_initiator get_initiator = true
is_initiator send_request = true
is_initiator send_buffer = true
is_initiator _ = false

pub recycle-release :
    (op : MpiOp) (env : Env) (p : ℕ) (w : MpiWorkRequest) (st : Status)
    → is_initiator op ≡ true
    → recycle op env p w st ≡ release p w st
unfolding recycle
recycle-release put_initiator env p w st e = refl
recycle-release get_initiator env p w st e = refl
recycle-release send_request env p w st e = refl
recycle-release send_buffer env p w st e = refl
recycle-release _ env p w st e = ground arith

abbrev pub is_get : MpiOp → Bool
is_get get_initiator = true
is_get _ = false

-- The status of an initiator's operation: a GET moves from the peer to this process, the others
-- the other way.
pub initiator_status :
    (op : MpiOp) (me source : ℕ) (w : MpiWorkRequest) (st : Status)
    → is_initiator op ≡ true
    → status_of op me source w st ≡ record st {
      offset = (if is_get op then w.dst_offset else w.src_offset);
      src = (if is_get op then source else me);
      dest = (if is_get op then me else source);
    }
initiator_status put_initiator me source w st e = refl
initiator_status get_initiator me source w st e = refl
initiator_status send_request me source w st e = refl
initiator_status send_buffer me source w st e = refl
initiator_status _ me source w st e = ground arith
