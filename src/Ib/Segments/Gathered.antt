-- ===== src/Ib/Segments/Gathered.antt =====
-- The bytes of the scatter-gather lists of nnti/nnti_ib.cpp.
use mathlib.Core.List.{append-nil}
use nnti.Base.{
  ℕ, zero, suc, ◌+◌, ◌-◌, ◌%◌, ◌^◌, ◌≤◌, ◌<◌, ◌≡◌, ◌∙◌, refl, sym, ap, List, [], ◌∷◌, ◌++◌, ◌⊎◌,
  inl, inr, ◌==◌, ltb, Bool-cases, if◌then◌else◌, length, get_or, take, take_all, drop, drop-append,
  drop-cons, drop-past, range, length-range, length-drop, arith,
}
use nnti.Ib.Segments.{Segment, Mr, Local, Stray}
use nnti.Ib.Segments.Bytes.{bytes, total, gathered, length-bytes}
use nnti.Ib.Segments.Position.{total-positive}
use nnti.Ib.Segments.Loops.{AreNarrow}
use nnti.Ib.Segments.Copies.{IsRegistered, segments_of, registered_addr}
use nnti.Ib.Segments.Gather.{FirstLocal, find_local, sge_loop, sge_list}

-- Where the loop stops, on the segments from index `i` on.
record Stops (segs : List Segment) (i offset : ℕ) (at : FirstLocal) : Type 0 where
  k : ℕ
  index : at.first_segment ≡ i + k
  within : k ≤ length segs
  before : total (take k segs) + at.segment_offset ≡ offset

find_local-Stops :
    (segs : List Segment) (i offset : ℕ)
    → 0 < length segs
    → offset ≤ total segs
    → Stops segs i offset (find_local segs i offset)
unfolding find_local
find_local-Stops [] i offset some_left h = absurd (omega arith)
find_local-Stops (s ∷ ss) i offset some_left h = elim (Bool-cases (ltb s.size offset)) [
  | inl e ↦
      let more =
        find_local-Stops ss (suc i) (offset - s.size) (total-positive ss (ground arith))
          (omega arith) in
      rw e (record {
        k = suc more.k;
        index = omega (arith, more.index);
        within = omega (arith, more.within);
        before = ground (arith, more.before);
      })
  | inr e ↦ elim (Bool-cases (offset == s.size)) [
    | inl f ↦
        rw e (
          rw f (record { k = 1; index = omega arith; within = omega arith; before = ground arith }))
    | inr f ↦
        rw e
          (rw f (record { k = 0; index = omega arith; within = omega arith; before = omega arith }))
  ]
]

bytes-drop :
    (k o offset : ℕ) (segs : List Segment)
    → total (take k segs) + o ≡ offset
    → drop o (bytes (drop k segs)) ≡ drop offset (bytes segs)
unfolding bytes
bytes-drop zero o offset segs e = ap (λ n. drop n (bytes segs)) (omega arith)
bytes-drop (suc k) o offset [] e = ap (λ n. drop n []) (omega arith)
bytes-drop (suc k) o offset (s ∷ ss) e =
    let m = total (take k ss) + o in
    bytes-drop k o m ss refl
    ∙ sym (drop-append s.size m (range s.buf s.size) (bytes ss) (length-range s.buf s.size))
    ∙ ap (λ n. drop n (range s.buf s.size ++ bytes ss)) (omega arith)

drop-range : (o n a : ℕ) → o ≤ n → drop o (range a n) ≡ range (a + o) (n - o)
drop-range zero n a h =
    let e : a + 0 ≡ a = omega arith in let f : n - 0 ≡ n = omega arith in rw e (rw f refl)
drop-range (suc o) zero a h = absurd (omega arith)
drop-range (suc o) (suc n) a h =
    let e : a + suc o ≡ suc a + o = omega arith in
    let f : suc n - suc o ≡ n - o = omega arith in
    rw e (rw f (drop-range o n (suc a) (omega arith)))

take-range : (m n a : ℕ) → m ≤ n → take m (range a n) ≡ range a m
take-range zero n a h = refl
take-range (suc m) zero a h = absurd (omega arith)
take-range (suc m) (suc n) a h = ap (◌∷◌ a) (take-range m n (suc a) (omega arith))

length-size :
    (stray : Stray) (ms : List Mr) (i : ℕ)
    → i < length (segments_of ms)
    → (get_or stray.mr ms i).length ≡ (get_or stray.segment (segments_of ms) i).size
length-size stray [] i h = absurd (omega arith)
length-size stray (m ∷ ms) zero h = refl
length-size stray (m ∷ ms) (suc i) h = length-size stray ms i (omega arith)

registered_length :
    (stray : Stray) (l : Local)
    → IsRegistered l
    → (i : ℕ) → i < length l.segments
    → (get_or stray.mr l.mr_list i).length ≡ (get_or stray.segment l.segments i).size
registered_length stray l reg i h = rw reg (length-size stray l.mr_list i (rw (← reg) h))

whole_length : (i n : ℕ) → n < 2 ^ 32 → (if i == 0 then n - 0 else n) % 2 ^ 32 ≡ n
whole_length i n h = ground arith

-- The loop from a segment on, at no offset: the bytes of all segments that follow.
sge_loop-bytes :
    (stray : Stray) (l : Local)
    → IsRegistered l
    → AreNarrow stray.segment l.segments
    → (left i j : ℕ) → j + left ≡ length l.segments
    → gathered (sge_loop stray l.mr_list 0 left i j) ≡ bytes (drop j l.segments)
unfolding sge_loop gathered bytes
sge_loop-bytes stray l reg all zero i j e = rw (drop-past j l.segments (omega arith)) refl
sge_loop-bytes stray l reg all (suc left) i j e = elim (drop-cons stray.segment j l.segments) [
  | inl (f, past) ↦ absurd (omega arith)
  | inr (f, lt) ↦
      let a : (get_or stray.mr l.mr_list j).addr + 0 ≡ (get_or stray.segment l.segments j).buf =
        omega (arith, registered_addr stray l reg j lt) in
      rw f (
        rw a (
          rw (registered_length stray l reg j lt) (
            rw (whole_length i _ (all j lt)) (
              ap
                (range (get_or stray.segment l.segments j).buf
                  (get_or stray.segment l.segments j).size ++◌)
                (sge_loop-bytes stray l reg all left (suc i) (suc j) (omega arith))))))
]

total-drop-cons :
    (d : Segment) (k : ℕ) (segs : List Segment)
    → k < length segs
    → total (take (suc k) segs) ≡ total (take k segs) + (get_or d segs k).size
total-drop-cons d k [] h = absurd (omega arith)
total-drop-cons d zero (s ∷ ss) h = omega arith
total-drop-cons d (suc k) (s ∷ ss) h = omega (arith, total-drop-cons d k ss (omega arith))

module _ (d : Segment) (k o offset len : ℕ) (segs : List Segment) (last : suc k ≡ length segs)
    (before : total (take k segs) + o ≡ offset) (fits : offset + len ≤ total segs) where
  last_size : o + len ≤ (get_or d segs k).size
  last_size =
      omega (arith, total-drop-cons d k segs (omega arith), ap total (take_all segs (suc k) last))

  -- The bytes of the last segment from `o` on.
  last-bytes : range ((get_or d segs k).buf + o) len ≡ take len (drop offset (bytes segs))
  unfolding bytes
  last-bytes = elim (drop-cons d k segs) [
    | inl (f, past) ↦ absurd (omega arith)
    | inr (f, lt) ↦
        let s = get_or d segs k in
        rw (← bytes-drop k o offset segs before) (
          rw f (
            rw (drop-past (suc k) segs (omega arith)) (
              rw (append-nil (range s.buf s.size)) (
                rw (drop-range o s.size s.buf (omega (arith, last_size)))
                  (sym (take-range len (s.size - o) (s.buf + o) (omega (arith, last_size))))))))
  ]

-- The scatter-gather list moves the `len` bytes from `offset` on, where they lie in the last
-- segment, or start a segment and run to the end of the buffer.
pub sge_list-bytes :
    (stray : Stray) (l : Local) (offset len : ℕ)
    → IsRegistered l
    → AreNarrow stray.segment l.segments
    → 0 < len
    → offset + len ≤ total l.segments
    → (suc (find_local l.segments 0 offset).first_segment ≡ length l.segments)
      ⊎ ((find_local l.segments 0 offset).segment_offset ≡ 0) × (offset + len ≡ total l.segments)
    → gathered (sge_list stray l offset len) ≡ take len (drop offset (bytes l.segments))
unfolding sge_list gathered
sge_list-bytes stray l offset len reg all some_len fits kind =
    let stops =
      find_local-Stops l.segments 0 offset (total-positive l.segments (omega arith))
        (omega arith) in
    let at = find_local l.segments 0 offset in
    let e : at.first_segment ≡ stops.k = omega (arith, stops.index) in
    let before : total (take at.first_segment l.segments) + at.segment_offset ≡ offset =
      rw e stops.before in
    elim (Bool-cases ((length l.segments - at.first_segment) == 1)) [
      | inl f ↦
          let last : suc at.first_segment ≡ length l.segments = ground arith in
          let size = last_size stray.segment _ _ offset len l.segments last before fits in
          let small : len % 2 ^ 32 ≡ len =
            omega (arith, size, all at.first_segment (omega arith)) in
          rw f (
            rw small (
              append-nil (range _ len)
              ∙ ap (λ a. range (a + at.segment_offset) len)
                  (registered_addr stray l reg at.first_segment (omega arith))
              ∙ last-bytes stray.segment _ _ offset len l.segments last before fits))
      | inr f ↦ elim kind [
        | inl last ↦ absurd (ground arith)
        | inr (zero_offset, whole) ↦ rw f (
            rw zero_offset (
              sge_loop-bytes stray l reg all _ 0 at.first_segment (omega (arith, stops.within, e))
              ∙ bytes-drop at.first_segment 0 offset l.segments (omega arith)
              ∙ sym (
                  take_all (drop offset (bytes l.segments)) len (
                    omega
                      (arith, length-drop offset (bytes l.segments), length-bytes l.segments)))))
      ]
    ]
