-- ===== src/Mpi/Initiate/Rendezvous.antt =====
-- PUT and GET between an initiator and a target: what the one posts meets what the other posts.
use nnti.Base.{
  ℕ, ◌+◌, ◌%◌, ◌^◌, ◌<◌, ◌≡◌, ◌∙◌, refl, Bool, true, ◌&&◌, Option, none, some, [], ◌∷◌, ◌==◌,
  if◌then◌else◌, update, update_self, arith,
}
use nnti.Types.{ok}
use nnti.Mpi.State.{
  buffer_init, rdma_cmd_index, get_recv_index, put_send_index, Rank, rank, any_source, MpiStatus,
  MpiWorkRequest, MemoryHandle, RdmaAddr, bop_local_read, bop_local_write, Buffer, WorkRequest,
}
use nnti.Mpi.Machine.{wr_slot, bytes, command, bytes_region, MpiCall, issend, irecv, Env, Transport}
use nnti.Mpi.Event.{follow_up}
use nnti.Mpi.Event.Phases.{IsReady}
use nnti.Mpi.Initiate.{put, get, put_posts, get_posts, put_request, get_request, started}
use nnti.Mpi.Initiate.Operands.{
  Operands, linked, Accepted, both_posted, put_operands, get_operands, posts_lem,
}

abbrev pub names : Rank → ℕ → Bool
names (rank r) k = r == k
names any_source k = true

-- The bytes that a send of the process `from` and a receive of the process `to` move when MPI
-- matches them: from, to, and how many. They match if the send is to the one and the receive from the
-- other, and their tags and lengths are equal.
abbrev pub matched : ℕ → MpiCall → ℕ → MpiCall → Option (ℕ × ℕ × ℕ)
matched from (issend dest t (bytes a n) _) to (irecv source u (bytes_region c m) _) =
    if names dest to && (names source from && (t == u && n == m)) then some (a, c, n) else none
matched _ _ _ _ = none

-- The same where the one or the other is the call, if any, that a target answers with.
abbrev pub transfers : ℕ → MpiCall → ℕ → Option MpiCall → Option (ℕ × ℕ × ℕ)
transfers from c to none = none
transfers from c to (some d) = matched from c to d

abbrev pub meets : ℕ → Option MpiCall → ℕ → MpiCall → Option (ℕ × ℕ × ℕ)
meets from none to d = none
meets from (some c) to d = matched from c to d

-- The messages of a transfer with the work request `w` at `p`: the command to the owner of the
-- remote buffer, the data that a PUT sends, and the receive that a GET posts.
abbrev pub command_send : Buffer → RdmaAddr → ℕ → MpiWorkRequest → MpiCall
command_send remote segment p w =
    issend remote.buffer_owner (segment.cmd_tag % 2 ^ 32) (command w.cmd_msg)
      (wr_slot p rdma_cmd_index)

abbrev pub data_send : Buffer → RdmaAddr → ℕ → Buffer → ℕ → ℕ → MpiCall
data_send remote segment p local so n =
    issend remote.buffer_owner (segment.put_data_tag % 2 ^ 32)
      (bytes (local.payload + so) (n % 2 ^ 32)) (wr_slot p put_send_index)

abbrev pub data_receive : Buffer → RdmaAddr → ℕ → Buffer → ℕ → ℕ → MpiCall
data_receive remote here p local dO n =
    irecv remote.buffer_owner (here.get_data_tag % 2 ^ 32)
      (bytes_region (local.payload + dO) (n % 2 ^ 32)) (wr_slot p get_recv_index)

module _ (env : Env) (s : Transport) (l : ℕ) (local : Buffer) (h : MemoryHandle) (r : ℕ)
    (remote : Buffer) (wr : ℕ) (user : WorkRequest)
    (operands : Operands s l local h r remote wr user) (segment : RdmaAddr)
    (at : remote.segment ≡ some segment) (peer : ℕ) (owner : remote.buffer_owner ≡ rank peer)
    (accepted : Accepted env s l local h r remote wr user operands) where
  -- A PUT whose calls are accepted leaves a work request that waits for its command and then
  -- its data, with exactly these under way. It sends the command and the data to the owner of the
  -- remote buffer. At this process, where the handle has the tag for PUT of the descriptor, and the
  -- work request has received this command from the initiator, the transfer that the command
  -- starts matches the data: it moves the `n` bytes, less than 2^31, at `so` of the local buffer to
  -- `dO` of the target's.
  pub put-rendezvous :
      (so n dO q : ℕ) (tw : MpiWorkRequest) (tb : Buffer) (th : MemoryHandle) (event : MpiStatus)
      → n < 2 ^ 31
      → event.source ≡ s.me
      → th.put_data_tag ≡ segment.put_data_tag
      → tw.cmd_msg ≡ (put_request l remote segment so n dO wr).cmd_msg
      → let w : MpiWorkRequest =
          started rdma_cmd_index put_send_index (put_request l remote segment so n dO wr) in
        let payload_call : MpiCall = data_send remote segment s.next_wr local so n in
        (s' : Transport) × (put env l so n r dO wr s ≡ some (ok, s'))
        × (s'.wrs s.next_wr ≡ some w)
        × IsReady (rdma_cmd_index ∷ put_send_index ∷ []) w
        × (s'.posted ≡ payload_call ∷ command_send remote segment s.next_wr w ∷ s.posted)
        × (transfers s.me payload_call peer (follow_up tw.cmd_msg.op buffer_init q tw tb th event)
            ≡ some (local.payload + so, tb.payload + dO, n))
  unfolding put_posts
  put-rendezvous so n dO q tw tb th event small from et ec =
      let w : MpiWorkRequest = put_request l remote segment so n dO wr in
      let w' : MpiWorkRequest = started rdma_cmd_index put_send_index w in
      let cmd : MpiCall = command_send remote segment s.next_wr w in
      let payload_call : MpiCall = data_send remote segment s.next_wr local so n in
      (
        linked wr s.next_wr w' l local h user bop_local_read
            (both_posted env s l local h r remote wr user operands w cmd payload_call),
        put_operands env s l local h r remote wr user operands segment at so n dO
            ∙ posts_lem env s l local h r remote wr user operands segment at accepted w w' cmd
                payload_call bop_local_read,
        update_self (update s.wrs s.next_wr (some w)) s.next_wr (some w'),
        record { on_course = refl; waits = λ i e. ground arith; flags = λ i. ground arith },
        refl,
        rw (ec, et, owner, from) (ground arith),
      )

  -- A GET whose calls are accepted leaves a work request that waits for its command and then its
  -- data, with exactly these under way. It posts a receive for the data and sends the command.
  -- At the owner of the remote buffer, whose work request has received this command from the
  -- initiator, the transfer that the command starts matches the receive: it moves the `n` bytes,
  -- less than 2^31, at `so` of the target's buffer to `dO` of the local one.
  pub get-rendezvous :
      (here : RdmaAddr) (so n dO q : ℕ) (tw : MpiWorkRequest) (tb : Buffer) (th : MemoryHandle)
      (event : MpiStatus)
      → n < 2 ^ 31
      → event.source ≡ s.me
      → local.segment ≡ some here
      → tw.cmd_msg ≡ (get_request remote l here so n dO wr).cmd_msg
      → let w : MpiWorkRequest =
          started rdma_cmd_index get_recv_index (get_request remote l here so n dO wr) in
        let payload_call : MpiCall = data_receive remote here s.next_wr local dO n in
        (s' : Transport) × (get env r so n l dO wr s ≡ some (ok, s'))
        × (s'.wrs s.next_wr ≡ some w)
        × IsReady (rdma_cmd_index ∷ get_recv_index ∷ []) w
        × (s'.posted ≡ command_send remote segment s.next_wr w ∷ payload_call ∷ s.posted)
        × (meets peer (follow_up tw.cmd_msg.op buffer_init q tw tb th event) s.me payload_call
            ≡ some (tb.payload + so, local.payload + dO, n))
  unfolding get_posts
  get-rendezvous here so n dO q tw tb th event small from eh ec =
      let w : MpiWorkRequest = get_request remote l here so n dO wr in
      let w' : MpiWorkRequest = started rdma_cmd_index get_recv_index w in
      let cmd : MpiCall = command_send remote segment s.next_wr w in
      let payload_call : MpiCall = data_receive remote here s.next_wr local dO n in
      (
        linked wr s.next_wr w' l local h user bop_local_write
            (both_posted env s l local h r remote wr user operands w payload_call cmd),
        get_operands env s l local h r remote wr user operands segment at here so n dO eh
            ∙ posts_lem env s l local h r remote wr user operands segment at accepted w w'
                payload_call cmd bop_local_write,
        update_self (update s.wrs s.next_wr (some w)) s.next_wr (some w'),
        record { on_course = refl; waits = λ i e. ground arith; flags = λ i. ground arith },
        refl,
        rw (ec, owner, from) (ground arith),
      )
