-- ===== src/Mpi/Wait/Result.antt =====
-- What `NNTI_mpi_wait` returns for a work request that is complete, and what becomes of the request.
use nnti.Base.{
  ℕ, suc, ◌≡◌, ◌∙◌, ap, true, false, Option, none, some, [], ◌∷◌, ◌++◌, ◌==◌, if◌then◌else◌, erase,
  update, update_self,
}
use nnti.Types.{NntiResult, ok}
use nnti.Mpi.State.{MpiOp, put_target, MpiWorkRequest, MemoryHandle, Buffer, WorkRequest, Status}
use nnti.Mpi.Machine.{Env, Transport, M, pure, ◌>>=◌, ◌>>◌, >>=-eq_of_some}
use nnti.Mpi.Register.{armed, is_remote, repost_rdma_target_work_request}
use nnti.Mpi.Register.Targets.{queued, after_arming, repost_rdma_target_lem}
use nnti.Mpi.Wait.{status_of}
use nnti.Mpi.Wait.Loop.{Timeout, release, recycle, wait}
use nnti.Mpi.Wait.Finished.{
  Finished, final_status, asked-Finished, wait_to_finish, finish_lem, release_lem, recycle-release,
  initiator_status, is_initiator, is_get,
}

module _ (env : Env) (wr : ℕ) (user : WorkRequest) (p : ℕ) (w : MpiWorkRequest) (b : ℕ) (x : Buffer)
    (h : MemoryHandle) (st : Status) (rounds : ℕ) (timeout : Timeout) (s : Transport)
    (finished : Finished s wr user p w b x h) where
  -- A wait for a PUT, GET or SEND of at least one byte that is complete returns NNTI_OK at once,
  -- whatever the timeout. The status names the buffer, the offset, the length and the two ranks,
  -- from this process to the last event's or, for a GET, the other way. The work request is freed
  -- and is off the queue of its buffer.
  pub wait-initiator :
      is_initiator w.last_op ≡ true
      → (w.length == 0) ≡ false
      → let source : ℕ = w.last_event.source in
        let status : Status = record {
          op = user.ops;
          result = ok;
          start = x.payload;
          offset = (if is_get w.last_op then w.dst_offset else w.src_offset);
          length = w.length;
          src = (if is_get w.last_op then source else s.me);
          dest = (if is_get w.last_op then s.me else source);
        } in
        (s' : Transport) × (wait env rounds wr timeout st s ≡ some (some (ok, status), s'))
        × (s'.wrs p ≡ none)
        × (s'.buffers b
            ≡ some (record x {
              transport_private = some (record h { wr_queue = erase p h.wr_queue });
            }))
  wait-initiator own ne =
      let s₁ : Transport = record s { asked = suc s.asked } in
      let here : Finished s₁ wr user p w b x h =
        asked-Finished env wr user p w b x h st s finished in
      let status : Status = final_status s.me user w x st in
      let e =
        initiator_status w.last_op s.me w.last_event.source w
          (record st { op = user.ops; result = ok; start = x.payload; length = w.length }) own in
      let s₂ : Transport = record s₁ {
        buffers = update s.buffers b (
            some
              (record x { transport_private = some (record h { wr_queue = erase p h.wr_queue }) }));
        wrs = update s.wrs p none;
      } in
      let answer : Status → Option (Option (NntiResult × Status) × Transport) =
        λ st. some (some (ok, st), s₂) in
      (
        s₂,
        wait_to_finish env wr user p w b x h st rounds timeout s finished
            ∙ finish_lem env wr user p w b x h st s₁ here
            ∙ ap (λ m. (m >> pure (some (ok, status))) s₁)
                (recycle-release w.last_op env p w status own)
            ∙ >>=-eq_of_some (release p w status) (λ _. pure (some (ok, status))) s₁
                (release_lem env wr user p w b x h st status s₁ here
                  (ap (λ (st : Status). st.length == 0) e ∙ ne))
            ∙ ap answer e,
        update_self s.wrs p none,
        update_self s.buffers b _,
      )

  -- A wait for a PUT that is complete at its target returns NNTI_OK at once, with the work request
  -- armed for the next command. The request joins the end of its buffer's queue, from which it was
  -- not taken: if it was there, it is there twice.
  pub wait-target_requeued :
      w.last_op ≡ put_target
      → is_remote x.ops ≡ true
      → let status : Status = record {
        op = user.ops;
        result = ok;
        start = x.payload;
        offset = w.dst_offset;
        length = w.length;
        src = w.last_event.source;
        dest = s.me;
      } in
        (s' : Transport) × (wait env rounds wr timeout st s ≡ some (some (ok, status), s'))
        × (s'.wrs p ≡ some (armed true w))
        × (s'.buffers b
            ≡ some (record x {
              transport_private = some (record h { wr_queue = h.wr_queue ++ (p ∷ []) });
            }))
  unfolding recycle
  wait-target_requeued target remote =
      let s₁ : Transport = record s { asked = suc s.asked } in
      let here : Finished s₁ wr user p w b x h =
        asked-Finished env wr user p w b x h st s finished in
      let again : M (Unit {0}) = pure tt in
      let close : MpiOp → M (Option (NntiResult × Status)) = λ op.
        let st' : Status =
          status_of op s.me w.last_event.source w
            (record st { op = user.ops; result = ok; start = x.payload; length = w.length }) in
        recycle op env p w st' >> pure (some (ok, st')) in
      let status : Status = record {
        op = user.ops;
        result = ok;
        start = x.payload;
        offset = w.dst_offset;
        length = w.length;
        src = w.last_event.source;
        dest = s.me;
      } in
      (
        after_arming env b p (armed true w) x h s₁,
        wait_to_finish env wr user p w b x h st rounds timeout s finished
            ∙ finish_lem env wr user p w b x h st s₁ here
            ∙ ap (λ op. close op s₁) target
            ∙ >>=-eq_of_some (repost_rdma_target_work_request env p >>= λ _. again)
                (λ _. pure (some (ok, status))) s₁
                (>>=-eq_of_some (repost_rdma_target_work_request env p) (λ _. again) s₁
                  (repost_rdma_target_lem env b s₁ x h finished.at_b finished.handle remote p w
                    finished.at_p finished.of_buffer)),
        update_self s.wrs p (some (armed true w)),
        update_self s.buffers b (some (queued p x h)),
      )
