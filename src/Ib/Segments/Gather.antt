-- ===== src/Ib/Segments/Gather.antt =====
-- nnti/nnti_ib.cpp: the scatter-gather list of a transfer whose other buffer has one segment, which
-- takes one descriptor.
use nnti.Base.{
  ℕ, zero, suc, ◌+◌, ◌-◌, ◌%◌, ◌^◌, List, [], ◌∷◌, ◌==◌, ltb, if◌then◌else◌, length, get_or,
}
use nnti.Ib.Segments.{Segment, Mr, Local, Stray, Sge, SendWr, SendOpcode, hash6432shift}

-- `first_segment` and `segment_offset`
pub record FirstLocal : Type 0 where
  pub first_segment : ℕ
  pub segment_offset : ℕ

-- The loop that finds the first segment, on the segments from index `i` on.
unfoldable pub find_local : List Segment → ℕ → ℕ → FirstLocal
find_local [] i offset = record { first_segment = 0; segment_offset = offset }
find_local (s ∷ ss) i offset =
    let more = find_local ss (suc i) (offset - s.size) in
    if ltb s.size offset
    then more
    else if offset == s.size
    then record { first_segment = suc i; segment_offset = 0 }
    else record { first_segment = i; segment_offset = offset }

module _ (stray : Stray) where
  -- The loop that fills in the list, with `left` rounds to go.
  unfoldable pub sge_loop : List Mr → ℕ → ℕ → ℕ → ℕ → List Sge
  sge_loop mrs offset zero i j = []
  sge_loop mrs offset (suc left) i j =
      let m = get_or stray.mr mrs j in
      record {
        addr = m.addr + offset;
        length = (if i == 0 then m.length - offset else m.length) % 2 ^ 32;
        lkey = m.lkey;
      }
      ∷ sge_loop mrs offset left (suc i) (suc j)

  -- `sge_list`
  unfoldable pub sge_list : Local → ℕ → ℕ → List Sge
  sge_list l offset len =
      let at = find_local l.segments 0 offset in
      let m = get_or stray.mr l.mr_list at.first_segment in
      let sge_count = length l.segments - at.first_segment in
      if sge_count == 1
      then record { addr = m.addr + at.segment_offset; length = len % 2 ^ 32; lkey = m.lkey } ∷ []
      else sge_loop l.mr_list at.segment_offset sge_count 0 at.first_segment

  -- The descriptor of a PUT to, and of a GET from, a buffer of one segment.
  unfoldable pub put_one : ℕ → Local → ℕ → ℕ → List Segment → ℕ → SendWr
  put_one key src src_offset len dst dst_offset =
      let r = get_or stray.segment dst 0 in
      record {
        sg_list = sge_list src src_offset len;
        opcode = SendOpcode.rdma_write;
        wr_id = key;
        imm_data = hash6432shift r.buf;
        rkey = r.key;
        remote_addr = r.buf + dst_offset;
      }

  unfoldable pub get_one : ℕ → List Segment → ℕ → ℕ → Local → ℕ → SendWr
  get_one key src src_offset len dst dst_offset =
      let r = get_or stray.segment src 0 in
      record {
        sg_list = sge_list dst dst_offset len;
        opcode = SendOpcode.rdma_read;
        wr_id = key;
        imm_data = hash6432shift r.buf;
        rkey = r.key;
        remote_addr = r.buf + src_offset;
      }
