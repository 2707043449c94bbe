-- ===== src/Ib/Segments/Copies.antt =====
-- What the descriptors of `NNTI_ib_put` and `NNTI_ib_get` do between buffers of several segments
-- (nnti/nnti_ib.cpp).
use mathlib.Core.List.{flat_map, append-nil}
use nnti.Base.{
  ℕ, zero, suc, ◌+◌, ◌-◌, ◌≤◌, ◌<◌, ◌≡◌, ◌∙◌, refl, ap, Bool, true, false, Option, none, some, List,
  [], ◌∷◌, ◌++◌, length, leb, if◌then◌else◌, get_or, take, drop, drop-take, length-drop, range,
  length-range, arith,
}
use nnti.Ib.Segments.{
  Segment, Mr, Local, Stray, Params, SendWr, params, put_wr, get_wr, put_many, get_many, put_count,
  get_count, fill_wrs, count_wrs, fuel_for, wr_length, advance_src, advance_dst,
}
use nnti.Ib.Segments.Bytes.{
  bytes, total, rest, gathered, local_of, remote_of, local_bytes, remote_bytes, length-bytes,
  bytes-take,
}
use nnti.Ib.Segments.Position.{IsAt-rest, total-positive, Placed, params-Placed}
use nnti.Ib.Segments.Loops.{AreNarrow, Filling, fill_wrs-copies}

-- The segment that stands for a memory region.
abbrev pub segment_of : Mr → Segment
segment_of m = record { buf = m.addr; size = m.length; key = m.rkey }

abbrev pub segments_of : List Mr → List Segment
segments_of [] = []
segments_of (m ∷ ms) = segment_of m ∷ segments_of ms

-- What `NNTI_ib_register_segments` sees to.
abbrev pub IsRegistered : Local → Type 0
IsRegistered l = l.segments ≡ segments_of l.mr_list

addr-buf :
    (stray : Stray) (ms : List Mr) (i : ℕ)
    → i < length (segments_of ms)
    → (get_or stray.mr ms i).addr ≡ (get_or stray.segment (segments_of ms) i).buf
addr-buf stray [] i h = absurd (omega arith)
addr-buf stray (m ∷ ms) zero h = refl
addr-buf stray (m ∷ ms) (suc i) h = addr-buf stray ms i (omega arith)

pub registered_addr :
    (stray : Stray) (l : Local)
    → IsRegistered l
    → (i : ℕ) → i < length l.segments
    → (get_or stray.mr l.mr_list i).addr ≡ (get_or stray.segment l.segments i).buf
registered_addr stray l reg i h = rw reg (addr-buf stray l.mr_list i (rw (← reg) h))

wr_bytes : (a n : ℕ) → length (range a n ++ []) ≡ n
wr_bytes a n = ap length (append-nil (range a n)) ∙ length-range a n

abbrev count_of : Option (List SendWr) → Option ℕ
count_of none = none
count_of (some ws) = some (length ws)

count_step :
    (go : Bool) (w : SendWr) (n : Option ℕ) (o : Option (List SendWr))
    → n ≡ count_of o
    → (if go then (elim n [ none ↦ none | some m ↦ some (suc m) ]) else some 0)
      ≡ count_of (if go then (elim o [ none ↦ none | some ws ↦ some (w ∷ ws) ]) else some [])
count_step false w n o e = refl
count_step true w n none e = rw e refl
count_step true w n (some ws) e = rw e refl

-- `sq_wr_count` is the number of descriptors that are filled in, for any fuel.
count_wrs-length :
    (stray : Stray) (src dst : List Segment) (fill : ℕ → Params → Params → SendWr) (fuel key : ℕ)
    (s d : Params)
    → count_wrs stray src dst fuel s d ≡ count_of (fill_wrs stray src dst fill fuel key s d)
unfolding count_wrs fill_wrs
count_wrs-length stray src dst fill zero key s d = refl
count_wrs-length stray src dst fill (suc fuel) key s d =
    count_step (leb s.segment_index s.last_segment) (fill key s d) _ _ (
      count_wrs-length stray src dst fill fuel (suc key) (advance_src stray src dst s d)
        (advance_dst stray src dst s d))

module _ (stray : Stray) where
  put_Filling : (l : Local) (dst : List Segment) → IsRegistered l → Filling stray l.segments dst
  unfolding put_wr gathered
  put_Filling l dst reg = record {
    make = put_wr stray l dst;
    from_of = local_of;
    to_of = remote_of;
    here = λ s. (get_or stray.mr l.mr_list s.segment_index).addr + s.segment_offset;
    there = λ d. (get_or stray.segment dst d.segment_index).buf + d.segment_offset;
    from_eq = λ key s d. append-nil (range _ (wr_length s d));
    to_eq = λ key s d. ap (range _) (wr_bytes _ (wr_length s d));
    here_eq = λ s h. ap (◌+ s.segment_offset) (registered_addr stray l reg s.segment_index h);
    there_eq = λ d h. refl;
  }

  get_Filling : (src : List Segment) (l : Local) → IsRegistered l → Filling stray src l.segments
  unfolding get_wr gathered
  get_Filling src l reg = record {
    make = get_wr stray src l;
    from_of = remote_of;
    to_of = local_of;
    here = λ s. (get_or stray.segment src s.segment_index).buf + s.segment_offset;
    there = λ d. (get_or stray.mr l.mr_list d.segment_index).addr + d.segment_offset;
    from_eq = λ key s d. ap (range _) (wr_bytes _ (wr_length s d));
    to_eq = λ key s d. append-nil (range _ (wr_length s d));
    here_eq = λ s h. refl;
    there_eq = λ d h. ap (◌+ d.segment_offset) (registered_addr stray l reg d.segment_index h);
  }

  -- The end of the last segment of a transfer, in bytes from the start of the segments.
  unfoldable pub end_of : List Segment → ℕ → ℕ → ℕ
  end_of segs offset len = total (take (suc (params stray segs offset len).last_segment) segs)

  module _ (segs : List Segment) (offset len : ℕ) (some_len : 0 < len)
      (fits : offset + len ≤ total segs) where
    abbrev here : Params
    here = params stray segs offset len

    abbrev here_part : List Segment
    here_part = take (suc here.last_segment) segs

    placed : Placed stray.segment segs here offset
    placed = params-Placed stray segs offset len (total-positive segs (omega arith)) fits

    -- What a transfer from `offset` on reads.
    part-bytes :
        rest here_part here ≡ take (end_of segs offset len - offset) (drop offset (bytes segs))
    unfolding end_of
    part-bytes =
        IsAt-rest stray.segment here_part here offset placed.part_at
        ∙ ap (drop offset) (bytes-take (suc here.last_segment) segs)
        ∙ drop-take offset (total here_part) (bytes segs)

    length-part : length (rest here_part here) ≡ end_of segs offset len - offset
    unfolding end_of
    length-part =
        ap length (IsAt-rest stray.segment here_part here offset placed.part_at)
        ∙ length-drop offset (bytes here_part)
        ∙ ap (◌- offset) (length-bytes here_part)

    whole-bytes : rest segs here ≡ drop offset (bytes segs)
    whole-bytes = IsAt-rest stray.segment segs here offset placed.at

    length-whole : length (rest segs here) ≡ total segs - offset
    length-whole =
        ap length whole-bytes ∙ length-drop offset (bytes segs) ∙ ap (◌- offset) (length-bytes segs)

  module _ (src dst : List Segment) (f : Filling stray src dst)
      (key src_offset len dst_offset : ℕ) where
    fill-copies :
        AreNarrow stray.segment src
        → 0 < len
        → src_offset + len ≤ total src
        → dst_offset + len ≤ total dst
        → end_of src src_offset len + dst_offset ≤ src_offset + total dst
        → (ws : List SendWr) × (fill_wrs stray src dst f.make
              (fuel_for src dst)
              key
              (params stray src src_offset len)
              (params stray dst dst_offset len)
            ≡ some ws)
          × (flat_map f.from_of ws
              ≡ take (end_of src src_offset len - src_offset) (drop src_offset (bytes src)))
          × (flat_map f.to_of ws
              ≡ take (end_of src src_offset len - src_offset) (drop dst_offset (bytes dst)))
    fill-copies all some_len fits fits_dst room =
        let s = params stray src src_offset len in
        let d = params stray dst dst_offset len in
        let p = placed src src_offset len some_len fits in
        let n = length-part src src_offset len some_len fits in
        let (ws, run, read, written) =
          fill_wrs-copies stray src dst s.last_segment p.last_within f all (fuel_for src dst) key s
            d refl (λ le. omega (arith, p.at.size, all s.segment_index p.at.within))
            (omega (arith, n, length-whole dst dst_offset len some_len fits_dst))
            (omega (arith, p.last_within)) in
        (
          ws,
          run,
          read ∙ part-bytes src src_offset len some_len fits,
          written ∙ rw n (rw (whole-bytes dst dst_offset len some_len fits_dst) refl),
        )

-- A PUT of the first `len` bytes after `src_offset` fills in its descriptors, as many as it has
-- counted; they read, in order, the bytes from `src_offset` to the end of the last segment the code
-- chooses, and write them to the consecutive bytes from `dst_offset` on, where the destination has
-- room for them.
pub put_many-copies :
    (stray : Stray) (src : Local) (dst : List Segment) (key src_offset len dst_offset : ℕ)
    → IsRegistered src
    → AreNarrow stray.segment src.segments
    → 0 < len
    → src_offset + len ≤ total src.segments
    → dst_offset + len ≤ total dst
    → end_of stray src.segments src_offset len + dst_offset ≤ src_offset + total dst
    → (ws : List SendWr) × (put_many stray key src src_offset len dst dst_offset ≡ some ws)
      × (put_count stray src src_offset len dst dst_offset ≡ some (length ws))
      × (local_bytes ws
          ≡ take
              (end_of stray src.segments src_offset len - src_offset)
              (drop src_offset (bytes src.segments)))
      × (remote_bytes ws
          ≡ take
              (end_of stray src.segments src_offset len - src_offset)
              (drop dst_offset (bytes dst)))
unfolding put_many put_count local_bytes remote_bytes put_wr put_Filling
put_many-copies stray src dst key src_offset len dst_offset reg all some_len fits fits_dst room =
    let (ws, run, read, written) =
      fill-copies stray src.segments dst (put_Filling stray src dst reg) key src_offset len
        dst_offset all some_len fits fits_dst room in
    (
      ws,
      run,
      count_wrs-length stray src.segments dst (put_wr stray src dst) _ key _ _ ∙ ap count_of run,
      read,
      written,
    )

pub get_many-copies :
    (stray : Stray) (src : List Segment) (dst : Local) (key src_offset len dst_offset : ℕ)
    → IsRegistered dst
    → AreNarrow stray.segment src
    → 0 < len
    → src_offset + len ≤ total src
    → dst_offset + len ≤ total dst.segments
    → end_of stray src src_offset len + dst_offset ≤ src_offset + total dst.segments
    → (ws : List SendWr) × (get_many stray key src src_offset len dst dst_offset ≡ some ws)
      × (get_count stray src src_offset len dst dst_offset ≡ some (length ws))
      × (remote_bytes ws
          ≡ take (end_of stray src src_offset len - src_offset) (drop src_offset (bytes src)))
      × (local_bytes ws
          ≡ take
              (end_of stray src src_offset len - src_offset)
              (drop dst_offset (bytes dst.segments)))
unfolding get_many get_count local_bytes remote_bytes get_wr get_Filling
get_many-copies stray src dst key src_offset len dst_offset reg all some_len fits fits_dst room =
    let (ws, run, read, written) =
      fill-copies stray src dst.segments (get_Filling stray src dst reg) key src_offset len
        dst_offset all some_len fits fits_dst room in
    (
      ws,
      run,
      count_wrs-length stray src dst.segments (get_wr stray src dst) _ key _ _ ∙ ap count_of run,
      read,
      written,
    )
