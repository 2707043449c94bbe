-- ===== src/Mpi/Wait/Transfer.antt =====
-- A PUT from its start to the end of the wait for it.
use nnti.Base.{
  ℕ, ◌≡◌, ◌∙◌, refl, sym, ap, false, none, some, List, [], ◌∷◌, ◌++◌, ◌==◌, erase, mem, update,
  update_self, arith,
}
use nnti.Types.{ok}
use nnti.Mpi.State.{
  rdma_cmd_index, put_send_index, MpiStatus, MpiWorkRequest, MemoryHandle, RdmaAddr, bop_local_read,
  Buffer, WorkRequest, Status,
}
use nnti.Mpi.Machine.{Env, Transport, >>=-eq_of_some}
use nnti.Mpi.Event.{process_event}
use nnti.Mpi.Event.Memory.{Backed, after_event, process_event_lem}
use nnti.Mpi.Event.Course.{moved, process_events}
use nnti.Mpi.Initiate.{put, put_posts, put_request, started}
use nnti.Mpi.Initiate.Operands.{Operands, linked, Accepted, both_posted, put_operands, posts_lem}
use nnti.Mpi.Initiate.Rendezvous.{command_send, data_send}
use nnti.Mpi.Wait.Loop.{Timeout, wait}
use nnti.Mpi.Wait.Finished.{Finished}
use nnti.Mpi.Wait.Result.{wait-initiator}

erase-append : (p : ℕ) (q : List ℕ) → mem p q ≡ false → erase p (q ++ (p ∷ [])) ≡ q
erase-append p [] e = ground arith
erase-append p (x ∷ q) e = ground (arith, erase-append p q)

module _ (env : Env) (s : Transport) (l : ℕ) (local : Buffer) (h : MemoryHandle) (r : ℕ)
    (remote : Buffer) (wr : ℕ) (user : WorkRequest)
    (operands : Operands s l local h r remote wr user) (segment : RdmaAddr)
    (at : remote.segment ≡ some segment)
    (accepted : Accepted env s l local h r remote wr user operands) (so n dO : ℕ)
    (e₁ e₂ : MpiStatus) where
  abbrev fresh_wr : MpiWorkRequest
  fresh_wr = put_request l remote segment so n dO wr

  abbrev started_wr : MpiWorkRequest
  started_wr = started rdma_cmd_index put_send_index fresh_wr

  abbrev after_put : Transport
  after_put = linked wr s.next_wr started_wr l local h user bop_local_read (
      both_posted env s l local h r remote wr user operands fresh_wr
        (command_send remote segment s.next_wr fresh_wr)
        (data_send remote segment s.next_wr local so n))

  put_started : put env l so n r dO wr s ≡ some (ok, after_put)
  unfolding put_posts
  put_started =
      put_operands env s l local h r remote wr user operands segment at so n dO
      ∙ posts_lem env s l local h r remote wr user operands segment at accepted fresh_wr started_wr
          (command_send remote segment s.next_wr fresh_wr)
          (data_send remote segment s.next_wr local so n) bop_local_read

  abbrev put_user : WorkRequest
  put_user = record user {
    transport_id = local.transport_id;
    reg_buf = some l;
    ops = bop_local_read;
    transport_private = some s.next_wr;
  }

  abbrev longer : MemoryHandle
  longer = record h { wr_queue = h.wr_queue ++ (s.next_wr ∷ []) }

  abbrev linked_buffer : Buffer
  linked_buffer = record local { transport_private = some longer }

  put_Backed : Backed after_put s.next_wr started_wr l linked_buffer longer
  put_Backed = record {
    at_p = update_self (update s.wrs s.next_wr (some fresh_wr)) s.next_wr (some started_wr);
    plain = (put_user, update_self s.nnti_wrs wr (some put_user), refl);
    of_buffer = refl;
    at_r = update_self s.buffers l (some linked_buffer);
    handle = refl;
  }

  abbrev first_wr : MpiWorkRequest
  first_wr = moved e₁ longer started_wr

  abbrev after_first : Transport
  after_first = after_event env s.next_wr e₁ started_wr linked_buffer longer after_put

  first_Backed : Backed after_first s.next_wr first_wr l linked_buffer longer
  first_Backed = record {
    at_p =
        update_self (update after_put.wrs s.next_wr (some (record started_wr { last_event = e₁ })))
          s.next_wr (some first_wr);
    plain = put_Backed.plain;
    of_buffer = refl;
    at_r = put_Backed.at_r;
    handle = refl;
  }

  abbrev last_wr : MpiWorkRequest
  last_wr = moved e₂ longer first_wr

  abbrev after_last : Transport
  after_last = after_event env s.next_wr e₂ first_wr linked_buffer longer after_first

  both_events : process_events env s.next_wr (e₁ ∷ e₂ ∷ []) after_put ≡ some (ok, after_last)
  unfolding process_events
  both_events =
      >>=-eq_of_some (process_event env s.next_wr e₁) (λ _. process_events env s.next_wr (e₂ ∷ []))
        after_put
        (process_event_lem env s.next_wr e₁ after_put started_wr l linked_buffer longer put_Backed)
      ∙ >>=-eq_of_some (process_event env s.next_wr e₂) (λ _. process_events env s.next_wr [])
          after_first
          (process_event_lem env s.next_wr e₂ after_first first_wr l linked_buffer longer
            first_Backed)

  put_Finished : Finished after_last wr put_user s.next_wr last_wr l linked_buffer longer
  put_Finished = record {
    at_wr = update_self s.nnti_wrs wr (some put_user);
    plain = refl;
    of_user = refl;
    linked = refl;
    at_p =
        update_self (update after_first.wrs s.next_wr (some (record first_wr { last_event = e₂ })))
          s.next_wr (some last_wr);
    of_buffer = refl;
    at_b = put_Backed.at_r;
    handle = refl;
    complete = refl;
  }

  -- A PUT of at least one byte, from its start to the end of the wait for it: the calls that it makes
  -- of MPI are accepted, the events that MPI reports for them, first the command's and then the
  -- data's, are processed, and the wait returns NNTI_OK at once with the status of the transfer. The
  -- work request that the PUT made is freed then, and the local buffer is as it was, if the address
  -- of the request was not in its queue before.
  pub put-wait :
      (rounds : ℕ) (timeout : Timeout) (st : Status)
      → (n == 0) ≡ false
      → mem s.next_wr h.wr_queue ≡ false
      → let status : Status = record {
        op = bop_local_read;
        result = ok;
        start = local.payload;
        offset = so;
        length = n;
        src = s.me;
        dest = e₂.source;
      } in
        (s₁ s₂ s₃ : Transport) × (put env l so n r dO wr s ≡ some (ok, s₁))
        × (process_events env s.next_wr (e₁ ∷ e₂ ∷ []) s₁ ≡ some (ok, s₂))
        × (wait env rounds wr timeout st s₂ ≡ some (some (ok, status), s₃))
        × (s₃.wrs s.next_wr ≡ none)
        × (s₃.buffers l ≡ some local)
  put-wait rounds timeout st nonzero fresh =
      let (s₃, run, freed, queue) =
        wait-initiator env wr put_user s.next_wr last_wr l linked_buffer longer st rounds timeout
          after_last put_Finished refl nonzero in
      (
        after_put,
        after_last,
        s₃,
        put_started,
        both_events,
        run,
        freed,
        queue
            ∙ ap (λ q. some (record local { transport_private = some (record h { wr_queue = q }) }))
                (erase-append s.next_wr h.wr_queue fresh)
            ∙ ap (λ o. some (record local { transport_private = o })) (sym operands.handle),
      )
