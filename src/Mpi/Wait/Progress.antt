-- ===== src/Mpi/Wait/Progress.antt =====
-- A round of `check_target_buffer_progress` that completes a transfer.
use nnti.Base.{
  ℕ, suc, ◌%◌, ◌^◌, ◌≡◌, ◌∙◌, refl, ap, Bool, true, false, Option, some, List, [], ◌∷◌, ◌++◌,
  if◌then◌else◌, erase, update, update_self, ==_refl,
}
use nnti.Mpi.State.{
  buffer_init, rdma_cmd_index, own, any_source, MpiStatus, MpiWorkRequest, MemoryHandle,
  bop_with_events, has_op, Buffer,
}
use nnti.Mpi.Machine.{
  nothing, completed, wr_slot, command_region, MpiCall, irecv, Env, Transport, M, pure, ◌>>=◌, ◌>>◌,
  get_wr, get_buffer, get_handle, put_handle, ask, get_wr_lem, get_buffer_lem, get_handle_lem,
  put_handle_lem, >>=-eq_of_some,
}
use nnti.Mpi.Event.{process_event, is_wr_complete}
use nnti.Mpi.Event.Memory.{Backed, after_event, process_event_lem}
use nnti.Mpi.Event.Course.{moved, after_event-Backed}
use nnti.Mpi.Register.{armed, is_remote, repost_rdma_target_work_request}
use nnti.Mpi.Register.Targets.{after_arming, repost_rdma_target_lem}
use nnti.Mpi.Wait.{front, is_transferred, recycle_target, on_target_test, check_target}

erase_first : (p : ℕ) (rest q : List ℕ) → q ≡ p ∷ rest → erase p q ≡ rest
erase_first p rest q e = ap (erase p) e ∙ rw (==_refl p) refl

module _ (env : Env) (b p : ℕ) (x : Buffer) (h : MemoryHandle) (rest : List ℕ)
    (queue : h.wr_queue ≡ p ∷ rest) (remote : is_remote x.ops ≡ true)
    (silent : has_op x.ops bop_with_events ≡ false) where
  abbrev shorter : MemoryHandle
  shorter = record h { wr_queue = erase p h.wr_queue }

  abbrev shorter_buffer : Buffer
  shorter_buffer = record x { transport_private = some shorter }

  abbrev recycled : MpiWorkRequest → Transport → Transport
  recycled v s =
      after_arming env b p (armed true v) shorter_buffer shorter
        (record s { buffers = update s.buffers b (some shorter_buffer) })

  recycle_lem :
      (v : MpiWorkRequest) (s : Transport)
      → Backed s p v b x h
      → is_transferred v.last_op v.op_state ≡ true
      → recycle_target env b p s ≡ some (1, recycled v s)
  unfolding recycle_target
  recycle_lem v s backed over =
      let again : M ℕ = repost_rdma_target_work_request env p >>= λ _. pure 1 in
      let act : MemoryHandle → M ℕ =
        λ h. put_handle b (record h { wr_queue = erase p h.wr_queue }) >> again in
      let choose : Bool → Bool → MemoryHandle → M ℕ =
        λ t e h. if t then (if e then pure 1 else act h) else pure 0 in
      let s₁ : Transport = record s { buffers = update s.buffers b (some shorter_buffer) } in
      >>=-eq_of_some (get_wr p)
        (λ w. get_buffer b >>= λ x.
          get_handle b
          >>= choose (is_transferred w.last_op w.op_state) (has_op x.ops bop_with_events))
        s (get_wr_lem p s v backed.at_p)
      ∙ >>=-eq_of_some (get_buffer b)
          (λ x.
            get_handle b
            >>= choose (is_transferred v.last_op v.op_state) (has_op x.ops bop_with_events))
          s (get_buffer_lem b s x backed.at_r)
      ∙ >>=-eq_of_some (get_handle b)
          (choose (is_transferred v.last_op v.op_state) (has_op x.ops bop_with_events)) s
          (get_handle_lem b s x h backed.at_r backed.handle)
      ∙ ap (λ t. choose t (has_op x.ops bop_with_events) h s) over
      ∙ ap (λ t. choose true t h s) silent
      ∙ >>=-eq_of_some (put_handle b shorter) (λ _. again) s
          (put_handle_lem b shorter s x backed.at_r)
      ∙ >>=-eq_of_some (repost_rdma_target_work_request env p) (λ _. pure 1) s₁
          (repost_rdma_target_lem env b s₁ shorter_buffer shorter
            (update_self s.buffers b (some shorter_buffer)) refl remote p v backed.at_p
            backed.of_buffer)

  module _ (i : ℕ) (event : MpiStatus) (s : Transport) (w : MpiWorkRequest)
      (backed : Backed s p w b x h) (going : is_wr_complete w ≡ false)
      (tested : env.test s.asked ≡ completed i event nothing)
      (accepting : (k : ℕ) → env.accepts k ≡ true)
      (over : is_transferred (moved event h w).last_op (moved event h w).op_state ≡ true) where
    abbrev asked_once : Transport
    asked_once = record s { asked = suc s.asked }

    asked-Backed : Backed asked_once p w b x h
    asked-Backed = record {
      at_p = backed.at_p;
      plain = backed.plain;
      of_buffer = backed.of_buffer;
      at_r = backed.at_r;
      handle = backed.handle;
    }

    -- A round whose test reports the event that ends the transfer of the first work request in the
    -- queue, for a buffer without events for its user, while MPI accepts what it is asked: it counts
    -- one operation; the work request is in its first state, waits for a command, whose receive
    -- from any process with the tag of the buffer is the last call made of MPI, and moves from the
    -- front to the end of the queue.
    pub check_target-recycles :
        (s' : Transport) × (v : MpiWorkRequest) × (earlier : List MpiCall) × (check_target env b s
          ≡ some (some 1, s'))
        × (s'.wrs p ≡ some v)
        × (v.reg_buf ≡ some b)
        × (v.op_state ≡ buffer_init)
        × (v.request_ptr ≡ own rdma_cmd_index)
        × (v.request_count ≡ 1)
        × (v.active_requests rdma_cmd_index ≡ true)
        × (s'.posted
            ≡ irecv any_source (h.cmd_tag % 2 ^ 32) (command_region p) (wr_slot p rdma_cmd_index)
              ∷ earlier)
        × (s'.buffers b
            ≡ some
                (record x { transport_private = some (record h { wr_queue = rest ++ (p ∷ []) }) }))
    unfolding check_target on_target_test
    check_target-recycles =
        let v : MpiWorkRequest = moved event h w in
        let s₂ : Transport = after_event env p event w x h asked_once in
        let count_one : M (Option ℕ) = recycle_target env b p >>= λ n. pure (some n) in
        let use_front : List ℕ → M (Option ℕ) = λ q. front q >>= λ p. get_wr p >>= λ w.
        if is_wr_complete w then pure (some 0) else (ask env.test >>= on_target_test env b p) in
        let test : MpiWorkRequest → M (Option ℕ) = λ w.
          if is_wr_complete w then pure (some 0) else (ask env.test >>= on_target_test env b p) in
        (
          recycled v s₂,
          armed true v,
          s₂.posted,
          >>=-eq_of_some (get_handle b) (λ h. use_front h.wr_queue) s
                (get_handle_lem b s x h backed.at_r backed.handle)
              ∙ ap (λ q. use_front q s) queue
              ∙ >>=-eq_of_some (get_wr p) test s (get_wr_lem p s w backed.at_p)
              ∙ ap
                  (λ (t : Bool).
                    (if t then pure (some 0) else (ask env.test >>= on_target_test env b p)) s)
                  going
              ∙ ap (λ r. on_target_test env b p r asked_once) tested
              ∙ >>=-eq_of_some (process_event env p event) (λ _. count_one) asked_once
                  (process_event_lem env p event asked_once w b x h asked-Backed)
              ∙ >>=-eq_of_some (recycle_target env b p) (λ n. pure (some n)) s₂
                  (recycle_lem v s₂ (after_event-Backed env p event asked_once w b x h asked-Backed)
                    over),
          update_self s₂.wrs p (some (armed true v)),
          (after_event-Backed env p event asked_once w b x h asked-Backed).of_buffer,
          refl,
          refl,
          refl,
          refl,
          rw (accepting s₂.asked) refl,
          update_self (update s₂.buffers b (some shorter_buffer)) b _
              ∙ ap
                  (λ q.
                    some (record x {
                      transport_private = some (record h { wr_queue = q ++ (p ∷ []) });
                    }))
                  (erase_first p rest h.wr_queue queue),
        )
