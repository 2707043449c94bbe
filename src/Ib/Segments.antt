-- ===== src/Ib/Segments.antt =====
-- nnti/nnti_ib.cpp: how `NNTI_ib_put` and `NNTI_ib_get` cut a transfer between buffers of several
-- segments into descriptors. What the code reads past an array's end, or in a variable that no
-- branch has set, is a parameter. A sum of an address and an offset lies within a segment.
pub mod Bytes
pub mod Loops
pub mod Position
pub mod Copies
pub mod Whole
pub mod Gather
pub mod Gathered
pub mod Keys
use Prim.Native.Nat.{bit_xor}
use nnti.Base.{
  ℕ, zero, suc, ◌+◌, ◌-◌, ◌*◌, ◌/◌, ◌%◌, ◌^◌, Bool, true, false, Option, none, some, List, [], ◌∷◌,
  ◌==◌, ltb, leb, if◌then◌else◌, length, drop, get_or,
}

-- `buf`, `size` and `key` of a `NNTI_remote_addr_t`
pub record Segment : Type 0 where
  pub buf : ℕ
  pub size : ℕ
  pub key : ℕ

-- `struct ibv_mr`
pub record Mr : Type 0 where
  pub addr : ℕ
  pub length : ℕ
  pub lkey : ℕ
  pub rkey : ℕ

-- The segments of a buffer of this process, and `mr_list` of its memory handle.
pub record Local : Type 0 where
  pub segments : List Segment
  pub mr_list : List Mr

-- What stands past the end of the arrays, and in a `last_segment` that is not set.
pub record Stray : Type 0 where
  pub segment : Segment
  pub mr : Mr
  pub last : ℕ

-- `src_params` and `dst_params`
pub record Params : Type 0 where
  pub segment_index : ℕ
  pub segment_offset : ℕ
  pub segment_remaining : ℕ
  pub last_segment : ℕ

-- `struct ibv_sge`
pub record Sge : Type 0 where
  pub addr : ℕ
  pub length : ℕ
  pub lkey : ℕ

pub data SendOpcode : Type 0 where
  rdma_write rdma_read rdma_write_with_imm : SendOpcode

-- `struct ibv_send_wr`
pub record SendWr : Type 0 where
  pub sg_list : List Sge
  pub opcode : SendOpcode
  pub wr_id : ℕ
  pub imm_data : ℕ
  pub rkey : ℕ
  pub remote_addr : ℕ

-- `hash6432shift`
unfoldable pub hash6432shift : ℕ → ℕ
hash6432shift key =
    let k1 = (2 ^ 64 - 1 - key % 2 ^ 64 + key * 2 ^ 18) % 2 ^ 64 in
    let k2 = bit_xor k1 (k1 / 2 ^ 31) in
    let k3 = k2 * 21 % 2 ^ 64 in
    let k4 = bit_xor k3 (k3 / 2 ^ 11) in
    let k5 = (k4 + k4 * 2 ^ 6) % 2 ^ 64 in bit_xor k5 (k5 / 2 ^ 22) % 2 ^ 32

-- The first loop of the transfers of many descriptors, on the segments from index `i` on.
unfoldable pub find_first : List Segment → ℕ → ℕ → ℕ → Params
find_first [] i offset last = record {
  segment_index = 0;
  segment_offset = offset;
  segment_remaining = 0;
  last_segment = last;
}
find_first (s ∷ ss) i offset last =
    let rest = find_first ss (suc i) (offset - s.size) last in
    if ltb s.size offset then rest else record {
      segment_index = i;
      segment_offset = offset;
      segment_remaining = s.size - offset;
      last_segment = last;
    }

-- The second loop, on the segments from index `i` on: `last_segment`.
unfoldable pub find_last : List Segment → ℕ → ℕ → ℕ → ℕ
find_last [] i remaining last = last
find_last (s ∷ ss) i remaining last =
    let rest = find_last ss (suc i) (remaining - s.size) last in
    if ltb s.size remaining then rest else i

-- `n` bytes further in the segment.
unfoldable pub skip : ℕ → Params → Params
skip n p = record p {
  segment_offset = p.segment_offset + n;
  segment_remaining = p.segment_remaining - n;
}

-- A round of each loop takes a segment of one of the arrays at least.
abbrev pub fuel_for : List Segment → List Segment → ℕ
fuel_for src_segs dst_segs = suc (length src_segs + length dst_segs)

-- `sg_list[0].length` of a descriptor, 32 bits wide.
unfoldable pub wr_length : Params → Params → ℕ
wr_length src dst =
    (if leb src.segment_remaining dst.segment_remaining
      then src.segment_remaining
      else dst.segment_remaining)
    % 2 ^ 32

module _ (stray : Stray) where
  -- Both loops, for a transfer of `len` bytes from `offset` on.
  unfoldable pub params : List Segment → ℕ → ℕ → Params
  params segs offset len =
      let p = find_first segs 0 offset stray.last in
      record p {
        last_segment = find_last (drop p.segment_index segs) p.segment_index len stray.last;
      }

  -- The next segment of an array.
  unfoldable pub next : List Segment → Params → Params
  next segs p = record p {
    segment_index = suc p.segment_index;
    segment_offset = 0;
    segment_remaining = (get_or stray.segment segs (suc p.segment_index)).size;
  }

  module _ (src_segs dst_segs : List Segment) where
    -- What the three cases at the end of both loops do to `src_params` and to `dst_params`.
    unfoldable pub advance_src : Params → Params → Params
    advance_src src dst =
        if leb src.segment_remaining dst.segment_remaining
        then next src_segs src
        else skip dst.segment_remaining src

    unfoldable pub advance_dst : Params → Params → Params
    advance_dst src dst =
        if ltb src.segment_remaining dst.segment_remaining
        then skip src.segment_remaining dst
        else next dst_segs dst

    -- The loop that counts the descriptors.
    unfoldable pub count_wrs : ℕ → Params → Params → Option ℕ
    count_wrs zero src dst = none
    count_wrs (suc fuel) src dst =
        let rest = count_wrs fuel (advance_src src dst) (advance_dst src dst) in
        if leb src.segment_index src.last_segment
        then elim rest [ none ↦ none | some n ↦ some (suc n) ]
        else some 0

    -- The loop that fills in the descriptors, `fill` with the value of `nnti_wrmap_counter`.
    unfoldable pub fill_wrs :
        (ℕ → Params → Params → SendWr) → ℕ → ℕ → Params → Params → Option (List SendWr)
    fill_wrs fill zero key src dst = none
    fill_wrs fill (suc fuel) key src dst =
        let rest = fill_wrs fill fuel (suc key) (advance_src src dst) (advance_dst src dst) in
        if leb src.segment_index src.last_segment
        then elim rest [ none ↦ none | some ws ↦ some (fill key src dst ∷ ws) ]
        else some []

  -- The descriptor that transfers `n` bytes at `here` of the local buffer and at `there` of the other.
  abbrev descriptor : SendOpcode → Local → List Segment → ℕ → ℕ → Params → Params → SendWr
  descriptor op l remote n key here there =
      let m = get_or stray.mr l.mr_list here.segment_index in
      let r = get_or stray.segment remote there.segment_index in
      record {
        sg_list = record { addr = m.addr + here.segment_offset; length = n; lkey = m.lkey } ∷ [];
        opcode = op;
        wr_id = key;
        imm_data = hash6432shift r.buf;
        rkey = r.key;
        remote_addr = r.buf + there.segment_offset;
      }

  -- A round of the filling loop of `NNTI_ib_put`, and of `NNTI_ib_get`.
  unfoldable pub put_wr : Local → List Segment → ℕ → Params → Params → SendWr
  put_wr src dst key s d = descriptor rdma_write src dst (wr_length s d) key s d

  unfoldable pub get_wr : List Segment → Local → ℕ → Params → Params → SendWr
  get_wr src dst key s d = descriptor rdma_read dst src (wr_length s d) key d s

  -- The descriptors of a PUT to a buffer of several segments.
  unfoldable pub put_many : ℕ → Local → ℕ → ℕ → List Segment → ℕ → Option (List SendWr)
  put_many key src src_offset len dst dst_offset =
      fill_wrs src.segments dst (put_wr src dst) (fuel_for src.segments dst) key
        (params src.segments src_offset len) (params dst dst_offset len)

  -- The descriptors of a GET from a buffer of several segments.
  unfoldable pub get_many : ℕ → List Segment → ℕ → ℕ → Local → ℕ → Option (List SendWr)
  get_many key src src_offset len dst dst_offset =
      fill_wrs src dst.segments (get_wr src dst) (fuel_for src dst.segments) key
        (params src src_offset len) (params dst.segments dst_offset len)

  -- `sq_wr_count` of both.
  unfoldable pub put_count : Local → ℕ → ℕ → List Segment → ℕ → Option ℕ
  put_count src src_offset len dst dst_offset =
      count_wrs src.segments dst (fuel_for src.segments dst) (params src.segments src_offset len)
        (params dst dst_offset len)

  unfoldable pub get_count : List Segment → ℕ → ℕ → Local → ℕ → Option ℕ
  get_count src src_offset len dst dst_offset =
      count_wrs src dst.segments (fuel_for src dst.segments) (params src src_offset len)
        (params dst.segments dst_offset len)
