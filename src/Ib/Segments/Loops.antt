-- ===== src/Ib/Segments/Loops.antt =====
-- The loop over the descriptors ends, and the descriptors take the bytes of the source in order to
-- the bytes of the destination, whatever stands past the arrays' ends.
use mathlib.Core.List.{flat_map}
use nnti.Base.{
  ℕ, zero, suc, ◌+◌, ◌-◌, ◌^◌, ◌≤◌, ◌<◌, ◌≡◌, ◌∙◌, refl, sym, ap, inl, inr, true, false, some, List,
  [], ◌∷◌, ◌++◌, length, leb, ltb, if◌then◌else◌, Bool-cases, length-append, get_or, get_or-take,
  take, drop, range, length-range, length-take, take-append, arith,
}
use nnti.Ib.Segments.{
  Segment, Stray, Params, SendWr, next, skip, advance_src, advance_dst, fill_wrs, wr_length,
}
use nnti.Ib.Segments.Bytes.{bytes, rest, rest-past, rest-within, rest-next, rest-skip}

abbrev pub AreNarrow : Segment → List Segment → Type 0
AreNarrow d segs = (i : ℕ) → i < length segs → (get_or d segs i).size < 2 ^ 32

-- What a loop's body makes of a round: the descriptor, and the addresses from which and to which it
-- moves the bytes of the round.
pub record Filling (stray : Stray) (src dst : List Segment) : Type 0 where
  pub make : ℕ → Params → Params → SendWr
  pub from_of : SendWr → List ℕ
  pub to_of : SendWr → List ℕ
  pub here : Params → ℕ
  pub there : Params → ℕ
  pub from_eq : (key : ℕ) (s d : Params) → from_of (make key s d) ≡ range (here s) (wr_length s d)
  pub to_eq : (key : ℕ) (s d : Params) → to_of (make key s d) ≡ range (there d) (wr_length s d)
  pub here_eq :
      (s : Params)
      → s.segment_index < length src
      → here s ≡ (get_or stray.segment src s.segment_index).buf + s.segment_offset
  pub there_eq :
      (d : Params)
      → d.segment_index < length dst
      → there d ≡ (get_or stray.segment dst d.segment_index).buf + d.segment_offset

-- The number of bytes of a round.
piece : Params → Params → ℕ
piece s d =
    if leb s.segment_remaining d.segment_remaining then s.segment_remaining else d.segment_remaining

piece_lt :
    (s d : Params)
    → ltb s.segment_remaining d.segment_remaining ≡ true
    → piece s d ≡ s.segment_remaining
unfolding piece
piece_lt s d h = ground arith

piece_ge :
    (s d : Params)
    → ltb s.segment_remaining d.segment_remaining ≡ false
    → piece s d ≡ d.segment_remaining
unfolding piece
piece_ge s d h = ground arith

piece_zero : (s d : Params) → s.segment_remaining ≡ 0 → piece s d ≡ 0
unfolding piece
piece_zero s d h = ground arith

wr_length-piece : (s d : Params) → s.segment_remaining < 2 ^ 32 → wr_length s d ≡ piece s d
unfolding wr_length piece
wr_length-piece s d h = ground arith

module _ (stray : Stray) (src dst : List Segment) (last : ℕ) (inside : last < length src) where
  abbrev pub part : List Segment
  part = take (suc last) src

  length-part : length part ≡ suc last
  length-part = length-take (suc last) src (omega arith)

  same_segment : (i : ℕ) → i ≤ last → get_or stray.segment part i ≡ get_or stray.segment src i
  same_segment i h = get_or-take stray.segment (suc last) i src (omega arith)

  next-part :
      (s : Params)
      → s.segment_index ≤ last
      → rest part (next stray src s) ≡ bytes (drop (suc s.segment_index) part)
  next-part s h =
      rest-next stray src part s
        (λ lt. same_segment (suc s.segment_index) (omega (arith, length-part)))

  -- A round takes the first bytes of what is left of the source.
  src-piece :
      (s d : Params)
      → s.segment_index ≤ last
      → rest part s
        ≡ range ((get_or stray.segment src s.segment_index).buf + s.segment_offset) (piece s d)
          ++ rest part (advance_src stray src dst s d)
  unfolding piece advance_src
  src-piece s d h = elim (Bool-cases (leb s.segment_remaining d.segment_remaining)) [
    | inl e ↦ rw e (
        rw (next-part s h) (
          rw (← same_segment s.segment_index h)
            (rest-within stray.segment part s (omega (arith, length-part)))))
    | inr e ↦ rw e (
        rw (← same_segment s.segment_index h) (
          rest-skip stray.segment part d.segment_remaining s (omega (arith, length-part))
            (ground arith)))
  ]

  past-piece :
      (s d : Params)
      → s.segment_remaining ≡ 0
      → length dst ≤ d.segment_index
      → (there : ℕ)
      → rest dst d ≡ range there (piece s d) ++ rest dst (advance_dst stray src dst s d)
  unfolding advance_dst skip next
  past-piece s d none_left past there =
      let e = piece_zero s d none_left in
      let now = rest-past dst d past in
      rw e (
        rw now (elim (Bool-cases (ltb s.segment_remaining d.segment_remaining)) [
          | inl f ↦ rw f (sym (rest-past dst _ past))
          | inr f ↦ rw f (sym (rest-past dst _ (omega arith)))
        ]))

  -- And writes the first bytes of what is left of the destination.
  dst-piece :
      (s d : Params)
      → s.segment_remaining ≤ length (rest dst d)
      → (there : ℕ)
      → (d.segment_index < length dst
          → there ≡ (get_or stray.segment dst d.segment_index).buf + d.segment_offset)
      → rest dst d ≡ range there (piece s d) ++ rest dst (advance_dst stray src dst s d)
  unfolding advance_dst
  dst-piece s d room there at = elim (Bool-cases (ltb d.segment_index (length dst))) [
    | inl e ↦
        rw (at (ground arith)) (elim (Bool-cases (ltb s.segment_remaining d.segment_remaining)) [
          | inl f ↦ rw (piece_lt s d f) (
              rw f
                (rest-skip stray.segment dst s.segment_remaining d (ground arith) (ground arith)))
          | inr f ↦ rw (piece_ge s d f) (
              rw f (
                rw (rest-next stray dst dst d (λ _. refl))
                  (rest-within stray.segment dst d (ground arith))))
        ])
    | inr e ↦
        let past : length dst ≤ d.segment_index = ground arith in
        past-piece s d (omega (arith, ap length (rest-past dst d past))) past there
  ]

  length-src :
      (s d : Params)
      → s.segment_index ≤ last
      → length (rest part s) ≡ piece s d + length (rest part (advance_src stray src dst s d))
  length-src s d h =
      ap length (src-piece s d h)
      ∙ length-append (range _ (piece s d)) (rest part (advance_src stray src dst s d))
      ∙ ap (◌+ length (rest part (advance_src stray src dst s d))) (length-range _ (piece s d))

  remaining-le-rest :
      (s : Params) → s.segment_index ≤ last → s.segment_remaining ≤ length (rest part s)
  remaining-le-rest s h =
      let here = (get_or stray.segment part s.segment_index).buf + s.segment_offset in
      let after = bytes (drop (suc s.segment_index) part) in
      omega (
        arith,
        ap length (rest-within stray.segment part s (omega (arith, length-part))),
        length-append (range here s.segment_remaining) after,
        length-range here s.segment_remaining,
      )

  -- Where the source does not fit, the destination has a segment.
  within :
      (s d : Params)
      → s.segment_index ≤ last
      → length (rest part s) ≤ length (rest dst d)
      → 0 < s.segment_remaining
      → d.segment_index < length dst
  within s d h room some_left = elim (Bool-cases (ltb d.segment_index (length dst))) [
    | inl e ↦ ground arith
    | inr e ↦
        absurd (omega (arith, remaining-le-rest s h, ap length (rest-past dst d (ground arith))))
  ]

  -- The rounds that are left.
  abbrev pub measure : Params → Params → ℕ
  measure s d = (suc last - s.segment_index) + (length dst - d.segment_index)

  measure_lt :
      (s d : Params)
      → s.segment_index ≤ last
      → length (rest part s) ≤ length (rest dst d)
      → measure (advance_src stray src dst s d) (advance_dst stray src dst s d) < measure s d
  unfolding advance_src advance_dst next skip
  measure_lt s d h room = ground (arith, within s d h room)

  abbrev pub IsSmall : Params → Type 0
  IsSmall s = s.segment_index ≤ last → s.segment_remaining < 2 ^ 32

  advance-IsSmall :
      (s d : Params)
      → AreNarrow stray.segment src
      → s.segment_remaining < 2 ^ 32
      → IsSmall (advance_src stray src dst s d)
  unfolding advance_src next skip
  advance-IsSmall s d all h le = ground (arith, all (suc s.segment_index))

  advance-last : (s d : Params) → (advance_src stray src dst s d).last_segment ≡ s.last_segment
  unfolding advance_src next skip
  advance-last s d = ground arith

  module _ (f : Filling stray src dst) (s d : Params) (key : ℕ) (le : s.segment_index ≤ last) where
    -- The round of `s` and `d`: it reads and writes the first bytes of what is left.
    round_reads :
        s.segment_remaining < 2 ^ 32
        → rest part s ≡ f.from_of (f.make key s d) ++ rest part (advance_src stray src dst s d)
    round_reads small =
        src-piece s d le
        ∙ ap (◌++ rest part (advance_src stray src dst s d)) (
            ap (λ a. range a (piece s d)) (sym (f.here_eq s (omega (arith, inside))))
            ∙ ap (range (f.here s)) (sym (wr_length-piece s d small))
            ∙ sym (f.from_eq key s d))

    round_writes :
        s.segment_remaining < 2 ^ 32
        → s.segment_remaining ≤ length (rest dst d)
        → rest dst d ≡ f.to_of (f.make key s d) ++ rest dst (advance_dst stray src dst s d)
    round_writes small room =
        dst-piece s d room (f.there d) (f.there_eq d)
        ∙ ap (◌++ rest dst (advance_dst stray src dst s d))
            (ap (range (f.there d)) (sym (wr_length-piece s d small)) ∙ sym (f.to_eq key s d))

    written-length : s.segment_remaining < 2 ^ 32 → length (f.to_of (f.make key s d)) ≡ piece s d
    written-length small =
        ap length (f.to_eq key s d)
        ∙ length-range (f.there d) (wr_length s d)
        ∙ wr_length-piece s d small

    length-dst :
        s.segment_remaining < 2 ^ 32
        → s.segment_remaining ≤ length (rest dst d)
        → length (rest dst d) ≡ piece s d + length (rest dst (advance_dst stray src dst s d))
    length-dst small room =
        ap length (round_writes small room)
        ∙ length-append (f.to_of (f.make key s d)) (rest dst (advance_dst stray src dst s d))
        ∙ ap (◌+ length (rest dst (advance_dst stray src dst s d))) (written-length small)

    written-take :
        s.segment_remaining < 2 ^ 32
        → s.segment_remaining ≤ length (rest dst d)
        → take (length (rest part s)) (rest dst d)
          ≡ f.to_of (f.make key s d)
            ++ take
                (length (rest part (advance_src stray src dst s d)))
                (rest dst (advance_dst stray src dst s d))
    written-take small room =
        ap (λ n. take n (rest dst d)) (length-src s d le)
        ∙ ap (take (piece s d + length (rest part (advance_src stray src dst s d))))
            (round_writes small room)
        ∙ take-append (piece s d) (length (rest part (advance_src stray src dst s d)))
            (f.to_of (f.make key s d)) (rest dst (advance_dst stray src dst s d))
            (written-length small)

  -- The loop ends with descriptors that read what is left of the source up to its last segment, and
  -- write as much from the destination's position on.
  pub fill_wrs-copies :
      (f : Filling stray src dst)
      → AreNarrow stray.segment src
      → (fuel key : ℕ) (s d : Params) → s.last_segment ≡ last
      → IsSmall s
      → length (rest part s) ≤ length (rest dst d)
      → measure s d < fuel
      → (ws : List SendWr) × (fill_wrs stray src dst f.make fuel key s d ≡ some ws)
        × (flat_map f.from_of ws ≡ rest part s)
        × (flat_map f.to_of ws ≡ take (length (rest part s)) (rest dst d))
  unfolding fill_wrs flat_map
  fill_wrs-copies f all zero key s d stays small room enough = absurd (omega arith)
  fill_wrs-copies f all (suc fuel) key s d stays small room enough =
      elim (Bool-cases (leb s.segment_index s.last_segment)) [
        | inr e ↦
            let done = rest-past part s (ground (arith, length-part)) in
            ([], rw e refl, sym done, rw done refl)
        | inl e ↦
            let le : s.segment_index ≤ last = ground arith in
            let s1 = advance_src stray src dst s d in
            let d1 = advance_dst stray src dst s d in
            let fits : s.segment_remaining ≤ length (rest dst d) =
              omega (arith, remaining-le-rest s le) in
            let (ws, run, read, written) =
              fill_wrs-copies f all fuel (suc key) s1 d1 (advance-last s d ∙ stays)
                (advance-IsSmall s d all (small le))
                (omega (arith, length-src s d le, length-dst f s d key le (small le) fits))
                (omega (arith, measure_lt s d le room)) in
            (
              f.make key s d ∷ ws,
              rw e (rw run refl),
              ap (f.from_of (f.make key s d) ++◌) read ∙ sym (round_reads f s d key le (small le)),
              ap (f.to_of (f.make key s d) ++◌) written
                  ∙ sym (written-take f s d key le (small le) fits),
            )
      ]
