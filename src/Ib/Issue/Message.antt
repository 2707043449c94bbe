-- ===== src/Ib/Issue/Message.antt =====
-- nnti/nnti_ib.cpp: messages and atomic operations.
use nnti.Base.{
  ℕ, zero, suc, ◌+◌, ◌*◌, ◌%◌, ◌^◌, Bool, true, false, Option, none, some, List, [], ◌∷◌, ◌==◌,
  if◌then◌else◌, length, get_or,
}
use nnti.Mpi.State.{bop_local_read, bop_atomics, bop_recv_queue}
use nnti.Ib.{send_request, send_buffer, fetch_add, compare_swap}
use nnti.Ib.Segments.{Segment, Mr, Local, Stray, Sge, SendOpcode, SendWr, hash6432shift}
use nnti.Ib.Issue.{IbConfig, IbState, Posted, Issued, ◌>>=◌, take_sendrecv, start, enqueue, issued}

-- The destination of a message: `ops` and the segments of `dest_hdl`.
pub record Dest : Type 0 where
  pub ops : ℕ
  pub segments : List Segment

module _ (stray : Stray) where
  -- The loop over the segments of the message, with `left` to go from index `i` on.
  unfoldable pub message_loop : List Mr → ℕ → ℕ → List Sge
  message_loop mrs zero i = []
  message_loop mrs (suc left) i =
      let m = get_or stray.mr mrs i in
      record { addr = m.addr; length = m.length % 2 ^ 32; lkey = m.lkey }
      ∷ message_loop mrs left (suc i)

  unfoldable pub message_sges : Local → ℕ → List Sge
  message_sges msg payload_size =
      let m = get_or stray.mr msg.mr_list 0 in
      if length msg.segments == 1
      then record { addr = m.addr; length = payload_size % 2 ^ 32; lkey = m.lkey } ∷ []
      else message_loop msg.mr_list (length msg.segments) 0

  -- The descriptor of a message to a buffer that is not a request queue.
  unfoldable pub buffer_message : ℕ → List Sge → List Segment → SendWr
  buffer_message key sges dst =
      let r = get_or stray.segment dst 0 in
      record {
        sg_list = sges;
        opcode = SendOpcode.rdma_write_with_imm;
        wr_id = key;
        imm_data = hash6432shift r.buf;
        rkey = r.key;
        remote_addr = r.buf;
      }

  abbrev to_queue : Option Dest → Bool
  to_queue none = true
  to_queue (some d) = d.ops == bop_recv_queue

  abbrev dest_segments : Option Dest → List Segment
  dest_segments none = []
  dest_segments (some d) = d.segments

  -- `NNTI_ib_send`
  unfoldable pub ib_send : IbConfig → (Posted → Bool) → Local → ℕ → Option Dest → IbState → Issued
  ib_send cfg posts msg payload_size dest s0 = take_sendrecv cfg s0 >>= λ (p, s).
      let sges = message_sges msg payload_size in
      let wr =
        if to_queue dest
        then Posted.message s.counter sges
        else Posted.moves (buffer_message s.counter sges (dest_segments dest)) in
      start (if to_queue dest then send_request else send_buffer) bop_local_read
        (if to_queue dest then s.counts.req_cq else s.counts.data_cq) 1 s.counter (s.reqs p).offset
        (s.reqs p).length p s
      >>= λ t. issued posts (wr ∷ []) (enqueue p t)

-- `atomics_addr` and `atomics_rkey` of a connection, and the atomics of this process.
pub record Atomics : Type 0 where
  pub remote_addr : ℕ
  pub rkey : ℕ
  pub local_addr : ℕ
  pub lkey : ℕ

-- `NNTI_ib_atomic_fop` adds, whatever `op` is.
unfoldable pub ib_atomic_fop : IbConfig → (Posted → Bool) → Atomics → ℕ → ℕ → ℕ → IbState → Issued
ib_atomic_fop cfg posts a target result operand s0 = take_sendrecv cfg s0 >>= λ (p, s).
    let wr = Posted.atomic (record {
      sge = record { addr = a.local_addr + result * 8; length = 8; lkey = a.lkey };
      compares = false;
      wr_id = s.counter;
      rkey = a.rkey;
      remote_addr = a.remote_addr + target * 8;
      compare_add = operand;
      swap = 0;
    }) in
    start fetch_add bop_atomics s.counts.data_cq 1 s.counter (s.reqs p).offset (s.reqs p).length p s
    >>= issued posts (wr ∷ [])

-- `NNTI_ib_atomic_cswap`
unfoldable pub ib_atomic_cswap :
    IbConfig → (Posted → Bool) → Atomics → ℕ → ℕ → ℕ → ℕ → IbState → Issued
ib_atomic_cswap cfg posts a target result compare_operand swap_operand s0 =
    take_sendrecv cfg s0 >>= λ (p, s).
    let wr = Posted.atomic (record {
      sge = record { addr = a.local_addr + result * 8; length = 8; lkey = a.lkey };
      compares = true;
      wr_id = s.counter;
      rkey = a.rkey;
      remote_addr = a.remote_addr + target * 8;
      compare_add = compare_operand;
      swap = swap_operand;
    }) in
    start compare_swap bop_atomics s.counts.data_cq 1 s.counter (s.reqs p).offset (s.reqs p).length
      p s
    >>= issued posts (wr ∷ [])
