-- ===== src/Mpi/Register/Targets.antt =====
-- Registration of a buffer that peers may read or write: its tags, its descriptor, the receive that
-- waits for commands, and its place in `target_buffers`.
use nnti.Base.{
  ℕ, suc, ◌+◌, ◌%◌, ◌^◌, ◌<◌, ◌≡◌, ◌∙◌, refl, ap, Bool, true, false, some, [], ◌∷◌, ◌++◌, ◌==◌,
  if◌then◌else◌, update, update_self, arith,
}
use nnti.Types.{NntiResult, ok}
use nnti.Threads.{nthread_counter_increment}
use nnti.Mpi.Event.{post_any}
use nnti.Mpi.Register.{
  next_tag, insert_target, insert_target_buffer, is_remote, armed, command_receive,
  post_rdma_target_work_request, repost_rdma_target_work_request, registered, register_queue,
  register_tagged, register_rdma, register_memory, has_zero,
}
use nnti.Mpi.State.{
  buffer_init, rdma_cmd_index, rank, any_source, own, MpiWorkRequest, calloc_wr, MemoryHandle,
  bop_recv_queue, mpi_transport, Buffer,
}
use nnti.Mpi.Machine.{
  get_wr_lem, get_buffer_lem, enqueue_lem, enqueue, >>=-eq_of_some, wr_slot, command_region,
  MpiCall, irecv, Env, Transport, M, pure, fault, ◌>>=◌, ◌>>◌, assert_some, get_wr, put_wr, new_wr,
  get_buffer,
}

-- The work request of a target whose receive of a command is under way, and nothing else.
pub record IsArmed (b : ℕ) (w : MpiWorkRequest) : Type 0 where
  pub of_buffer : w.reg_buf ≡ some b
  pub first_state : w.op_state ≡ buffer_init
  pub waits : w.request_ptr ≡ own rdma_cmd_index
  pub one : w.request_count ≡ 1
  pub flags : (i : ℕ) → w.active_requests i ≡ (i == rdma_cmd_index)

-- The handle with a work request at the end of its queue.
abbrev pub queued : ℕ → Buffer → MemoryHandle → Buffer
queued p x h = record x {
  transport_private = some (record h { wr_queue = h.wr_queue ++ (p ∷ []) });
}

abbrev pub command_post : ℕ → MemoryHandle → MpiCall
command_post p h =
    irecv any_source (h.cmd_tag % 2 ^ 32) (command_region p) (wr_slot p rdma_cmd_index)

-- The state when the receive of a command was posted for the work request at `p`, which joined the
-- queue of its buffer.
abbrev pub arming : Env → ℕ → MpiWorkRequest → MemoryHandle → Transport → Transport
arming env p w h s = record s {
  wrs = update s.wrs p (some w);
  posted = (if env.accepts s.asked then command_post p h ∷ s.posted else s.posted);
  asked = suc s.asked;
}

abbrev pub after_arming :
    Env → ℕ → ℕ → MpiWorkRequest → Buffer → MemoryHandle → Transport → Transport
after_arming env b p w x h s = record (arming env p w h s) {
  buffers = update s.buffers b (some (queued p x h));
}

module _ (env : Env) (b : ℕ) (s : Transport) (x : Buffer) (h : MemoryHandle)
    (at : s.buffers b ≡ some x) (handle : x.transport_private ≡ some h)
    (remote : is_remote x.ops ≡ true) where
  pub post_rdma_target_lem :
      post_rdma_target_work_request env b s
      ≡ some (
        ok,
        after_arming env b s.next_wr
            (armed true (record calloc_wr { reg_buf = some b }))
            x
            h
            (record s { next_wr = suc s.next_wr }),
      )
  unfolding post_rdma_target_work_request
  post_rdma_target_lem =
      let body : Bool → MemoryHandle → M NntiResult = λ t h.
        new_wr (armed t (record calloc_wr { reg_buf = some b })) >>= λ p.
        post_any env (command_receive t p h) >> (enqueue b p >> pure ok) in
      let s₁ : Transport =
        arming env s.next_wr (armed true (record calloc_wr { reg_buf = some b })) h
          (record s { next_wr = suc s.next_wr }) in
      >>=-eq_of_some (get_buffer b)
        (λ x. assert_some x.transport_private >>= λ h. body (is_remote x.ops) h) s
        (get_buffer_lem b s x at)
      ∙ ap (λ o. (assert_some o >>= λ h. body (is_remote x.ops) h) s) handle
      ∙ ap (λ t. body t h s) remote
      ∙ >>=-eq_of_some (enqueue b s.next_wr) (λ _. pure ok) s₁
          (enqueue_lem b s.next_wr s₁ x h at handle)

  -- A target's work request is armed again: it waits for the next command, whose receive is posted if
  -- MPI accepts it, and joins the end of the queue of its buffer.
  pub repost_rdma_target_lem :
      (p : ℕ) (w : MpiWorkRequest)
      → s.wrs p ≡ some w
      → w.reg_buf ≡ some b
      → repost_rdma_target_work_request env p s
        ≡ some (ok, after_arming env b p (armed true w) x h s)
  unfolding repost_rdma_target_work_request
  repost_rdma_target_lem p w atp of =
      let body : Bool → MemoryHandle → M NntiResult = λ t h.
        put_wr p (armed t w)
        >> (post_any env (command_receive t p h) >> (enqueue b p >> pure ok)) in
      let s₁ : Transport = arming env p (armed true w) h s in
      >>=-eq_of_some (get_wr p)
        (λ w. assert_some w.reg_buf >>= λ b. get_buffer b >>= λ x.
          assert_some x.transport_private >>= λ h.
          put_wr p (armed (is_remote x.ops) w)
          >> (post_any env (command_receive (is_remote x.ops) p h) >> (enqueue b p >> pure ok)))
        s (get_wr_lem p s w atp)
      ∙ ap
          (λ o.
            (assert_some o >>= λ b. get_buffer b >>= λ x. assert_some x.transport_private >>= λ h.
            put_wr p (armed (is_remote x.ops) w)
            >> (post_any env (command_receive (is_remote x.ops) p h) >> (enqueue b p >> pure ok)))
              s)
          of
      ∙ >>=-eq_of_some (get_buffer b)
          (λ x. assert_some x.transport_private >>= λ h. body (is_remote x.ops) h) s
          (get_buffer_lem b s x at)
      ∙ ap (λ o. (assert_some o >>= λ h. body (is_remote x.ops) h) s) handle
      ∙ ap (λ t. body t h s) remote
      ∙ >>=-eq_of_some (enqueue b p) (λ _. pure ok) s₁ (enqueue_lem b p s₁ x h at handle)

-- What registration of a buffer for remote use leaves at `b`.
abbrev pub target_buffer : ℕ → ℕ → ℕ → ℕ → ℕ → ℕ → Buffer
target_buffer me payload element_size ops tag p =
    let h : MemoryHandle = record {
      cmd_tag = tag;
      get_data_tag = tag + 1;
      put_data_tag = tag + 1 + 1;
      wr_queue = p ∷ [];
    } in
    record {
      transport_id = mpi_transport;
      buffer_owner = rank me;
      segment = some (record {
        size = element_size % 2 ^ 32;
        cmd_tag = tag;
        get_data_tag = tag + 1;
        put_data_tag = tag + 1 + 1;
      });
      ops = ops;
      payload_size = element_size;
      payload = payload;
      transport_private = some h;
    }

next_tag_lem :
    (env : Env) (s : Transport)
    → env.locks.lock_ok ≡ true
    → s.mbits.value + 1 < 2 ^ 64
    → next_tag env s
      ≡ some (s.mbits.value, record s { mbits = record { value = s.mbits.value + 1 } })
unfolding nthread_counter_increment
next_tag_lem env s l room = rw l (ground arith)

module _ (env : Env) (payload element_size num_elements ops b : ℕ) (s : Transport)
    (locked : env.locks.lock_ok ≡ true) (room : s.mbits.value + 3 < 2 ^ 64)
    (plain : (ops == bop_recv_queue) ≡ false) (remote : is_remote ops ≡ true)
    (given : has_zero payload element_size num_elements ops ≡ false) where
  -- Registering a buffer that peers may read or write, whose address and sizes are not 0, succeeds. It takes three new tags, the
  -- counter's next three values, for the handle and, equal to them, for the descriptor that peers
  -- get. The buffer's queue holds one new work request, which waits for a command and for nothing
  -- else; its receive is the last call made of MPI, if MPI accepts it. The buffer joins
  -- `target_buffers`, if it is not there.
  pub register_memory-remote :
      let v : ℕ = s.mbits.value in
      let x : Buffer = target_buffer s.me payload element_size ops v s.next_wr in
      (s' : Transport) × (w : MpiWorkRequest) × (register_memory env payload element_size
          num_elements ops b s
        ≡ some (ok, s'))
      × (s'.mbits.value ≡ v + 3)
      × (s'.buffers b ≡ some x)
      × (s'.wrs s.next_wr ≡ some w)
      × IsArmed b w
      × (s'.posted ≡ (
          if env.accepts s.asked
          then irecv any_source
              (v % 2 ^ 32)
              (command_region s.next_wr)
              (wr_slot s.next_wr rdma_cmd_index)
            ∷ s.posted
          else s.posted))
      × (s'.target_buffers ≡ insert_target b s.target_buffers)
  unfolding register_memory register_rdma register_tagged
  register_memory-remote =
      let v : ℕ = s.mbits.value in
      let tags : ℕ → ℕ → ℕ → M NntiResult =
        λ c g p. register_tagged env b (registered s.me payload element_size ops c g p) in
      let after_tags : ℕ → Transport = λ n. record s { mbits = record { value = n } } in
      let x : Buffer = registered s.me payload element_size ops v (v + 1) (v + 1 + 1) in
      let h : MemoryHandle = record {
        cmd_tag = v;
        get_data_tag = v + 1;
        put_data_tag = v + 1 + 1;
        wr_queue = [];
      } in
      let s₃ : Transport = after_tags (v + 1 + 1 + 1) in
      let s₄ : Transport = record s₃ { buffers = update s.buffers b (some x) } in
      let w : MpiWorkRequest = armed true (record calloc_wr { reg_buf = some b }) in
      let s₅ : Transport =
        after_arming env b s.next_wr w x h (record s₄ { next_wr = suc s.next_wr }) in
      let rest : M NntiResult = insert_target_buffer b >>= λ _. pure ok in
      (
        record s₅ { target_buffers = insert_target b s.target_buffers },
        w,
        ap
              (λ t.
                (if t
                    then fault
                    else if ops == bop_recv_queue
                    then register_queue env payload element_size num_elements ops b
                    else register_rdma env payload element_size ops b)
                  s)
              given
            ∙ ap
                (λ t.
                  (if t
                      then register_queue env payload element_size num_elements ops b
                      else register_rdma env payload element_size ops b)
                    s)
                plain
            ∙ >>=-eq_of_some (next_tag env)
                (λ c. next_tag env >>= λ g. next_tag env >>= λ p. tags c g p) s
                (next_tag_lem env s locked (omega arith))
            ∙ >>=-eq_of_some (next_tag env) (λ g. next_tag env >>= λ p. tags v g p)
                (after_tags (v + 1)) (next_tag_lem env (after_tags (v + 1)) locked (omega arith))
            ∙ >>=-eq_of_some (next_tag env) (λ p. tags v (v + 1) p) (after_tags (v + 1 + 1))
                (next_tag_lem env (after_tags (v + 1 + 1)) locked (omega arith))
            ∙ ap
                (λ t.
                  (if t then (post_rdma_target_work_request env b >>= λ _. rest) else pure ok) s₄)
                remote
            ∙ >>=-eq_of_some (post_rdma_target_work_request env b) (λ _. rest) s₄
                (post_rdma_target_lem env b s₄ x h (update_self s.buffers b (some x)) refl remote),
        omega arith,
        update_self (update s.buffers b (some x)) b (some (queued s.next_wr x h)),
        update_self s.wrs s.next_wr (some w),
        record {
          of_buffer = refl;
          first_state = refl;
          waits = refl;
          one = refl;
          flags = λ i. ground arith;
        },
        refl,
        refl,
      )
