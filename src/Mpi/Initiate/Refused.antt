-- ===== src/Mpi/Initiate/Refused.antt =====
-- PUT, GET and SEND where MPI refuses a call.
use nnti.Base.{
  ℕ, suc, ◌≡◌, ◌∙◌, refl, ap, Bool, true, false, some, List, [], ◌∷◌, ◌++◌, ◌==◌, if◌then◌else◌,
  update,
}
use nnti.Types.{NntiResult, ok, ebadrpc}
use nnti.Mpi.State.{
  rdma_cmd_index, put_send_index, Rank, MpiWorkRequest, MemoryHandle, RdmaAddr, bop_local_read,
  bop_recv_queue, Buffer, WorkRequest,
}
use nnti.Mpi.Machine.{
  get_buffer_lem, post_or_fail_accepted, post_or_fail_refused, post_or_fail, >>=-eq_of_some,
  MpiCall, Env, Transport, M, pure, ◌>>=◌, get_buffer,
}
use nnti.Mpi.Initiate.{
  put, get, put_posts, get_posts, put_request, get_request, started, link, get_segment,
}
use nnti.Mpi.Initiate
use nnti.Mpi.Initiate.{send_put, send_queued}
use nnti.Mpi.Initiate.Rendezvous.{command_send, data_send}
use nnti.Mpi.Initiate.Operands.{Operands, put_operands}

-- What a call leaves that MPI refused: the user's request, the queues and the earlier calls of MPI
-- are as they were, up to the calls `sent` that MPI had accepted.
pub record Untouched (s s' : Transport) (sent : List MpiCall) : Type 0 where
  pub nnti_wrs : s'.nnti_wrs ≡ s.nnti_wrs
  pub buffers : s'.buffers ≡ s.buffers
  pub posted : s'.posted ≡ sent ++ s.posted

module _ (env : Env) (s : Transport) (l : ℕ) (local : Buffer) (h : MemoryHandle) (r : ℕ)
    (remote : Buffer) (wr : ℕ) (user : WorkRequest)
    (operands : Operands s l local h r remote wr user) (segment : RdmaAddr)
    (at : remote.segment ≡ some segment) (so n dO : ℕ) where
  -- A PUT whose command is refused fails with NNTI_EBADRPC, and nothing is sent, queued or linked.
  pub put-refused_command :
      env.accepts s.asked ≡ false
      → (s' : Transport) × (put env l so n r dO wr s ≡ some (ebadrpc, s')) × Untouched s s' []
  unfolding put_posts
  put-refused_command e =
      let w : MpiWorkRequest = put_request l remote segment so n dO wr in
      let s₁ : Transport = record s {
        wrs = update s.wrs s.next_wr (some w);
        next_wr = suc s.next_wr;
      } in
      (
        record s₁ { asked = suc s.asked },
        put_operands env s l local h r remote wr user operands segment at so n dO
            ∙ post_or_fail_refused env (command_send remote segment s.next_wr w)
                (post_or_fail env (data_send remote segment s.next_wr local so n) (
                  link wr s.next_wr (started rdma_cmd_index put_send_index w) l local.transport_id
                    bop_local_read))
                s₁ e,
        record { nnti_wrs = refl; buffers = refl; posted = refl },
      )

  -- One whose command is accepted and whose data is refused fails in the same way: nothing is queued
  -- or linked, but the command has been sent.
  pub put-refused_data :
      env.accepts s.asked ≡ true
      → env.accepts (suc s.asked) ≡ false
      → (s' : Transport) × (put env l so n r dO wr s ≡ some (ebadrpc, s'))
        × Untouched s s'
            (command_send remote segment s.next_wr (put_request l remote segment so n dO wr) ∷ [])
  unfolding put_posts
  put-refused_data e e' =
      let w : MpiWorkRequest = put_request l remote segment so n dO wr in
      let cmd : MpiCall = command_send remote segment s.next_wr w in
      let rest : M NntiResult =
        link wr s.next_wr (started rdma_cmd_index put_send_index w) l local.transport_id
          bop_local_read in
      let s₁ : Transport = record s {
        wrs = update s.wrs s.next_wr (some w);
        next_wr = suc s.next_wr;
      } in
      let s₂ : Transport = record s₁ { posted = cmd ∷ s.posted; asked = suc s.asked } in
      (
        record s₂ { asked = suc (suc s.asked) },
        put_operands env s l local h r remote wr user operands segment at so n dO
            ∙ post_or_fail_accepted env cmd
                (post_or_fail env (data_send remote segment s.next_wr local so n) rest) s₁ e
            ∙ post_or_fail_refused env (data_send remote segment s.next_wr local so n) rest s₂ e',
        record { nnti_wrs = refl; buffers = refl; posted = refl },
      )

module _ (env : Env) (s : Transport) (l : ℕ) (local : Buffer) (h : MemoryHandle) (r : ℕ)
    (remote : Buffer) (wr : ℕ) (user : WorkRequest)
    (operands : Operands s l local h r remote wr user) (segment : RdmaAddr)
    (at : remote.segment ≡ some segment) where
  -- A SEND to a buffer that is no request queue is a PUT whose result is dropped: where MPI refuses
  -- the command, it still returns NNTI_OK, though nothing is sent, queued or linked to the user's
  -- request.
  pub send-refused :
      (peer : Rank)
      → (remote.ops == bop_recv_queue) ≡ false
      → env.accepts s.asked ≡ false
      → (s' : Transport) × (Initiate.send env peer l (some r) wr s ≡ some (ok, s'))
        × Untouched s s' []
  unfolding Initiate.send send_put
  send-refused peer ne e =
      let (s', run, untouched) =
        put-refused_command env s l local h r remote wr user operands segment at 0
          local.payload_size 0 e in
      (
        s',
        >>=-eq_of_some (get_buffer l)
              (λ msg. get_buffer r >>= λ dest.
                if dest.ops == bop_recv_queue
                then send_queued env l msg peer wr
                else send_put env l msg r wr)
              s (get_buffer_lem l s local operands.at_l)
            ∙ >>=-eq_of_some (get_buffer r)
                (λ dest.
                  if dest.ops == bop_recv_queue
                  then send_queued env l local peer wr
                  else send_put env l local r wr)
                s (get_buffer_lem r s remote operands.at_r)
            ∙ ap
                (λ (t : Bool).
                  (if t then send_queued env l local peer wr else send_put env l local r wr) s)
                ne
            ∙ >>=-eq_of_some (put env l 0 local.payload_size r 0 wr) (λ _. pure ok) s run,
        untouched,
      )
