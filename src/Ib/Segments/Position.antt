-- ===== src/Ib/Segments/Position.antt =====
-- Where `find_first` and `find_last` of nnti/nnti_ib.cpp stand, in bytes.
use mathlib.Core.List.{append_assoc}
use nnti.Base.{
  ℕ, zero, suc, ◌+◌, ◌-◌, ◌≤◌, ◌<◌, ◌≡◌, ◌∙◌, refl, sym, ap, inl, inr, List, [], ◌∷◌, ◌++◌,
  Bool-cases, ltb, length, get_or, get_or-take, take, drop, drop-append, range, range_add,
  length-range, length-take, length-drop, arith,
}
use nnti.Ib.Segments.{Segment, Stray, Params, find_first, find_last, params}
use nnti.Ib.Segments.Bytes.{bytes, total, rest, from_offset}

-- The position is `offset` bytes from the start of the segments.
pub record IsAt (d : Segment) (segs : List Segment) (p : Params) (offset : ℕ) : Type 0 where
  pub within : p.segment_index < length segs
  pub size : (get_or d segs p.segment_index).size ≡ p.segment_offset + p.segment_remaining
  pub before : total (take p.segment_index segs) + p.segment_offset ≡ offset

pub total-positive : (segs : List Segment) → 0 < total segs → 0 < length segs
total-positive [] h = h
total-positive (s ∷ ss) h = omega arith

from_offset_lem :
    (d : Segment) (i o r offset : ℕ) (segs : List Segment)
    → i < length segs
    → (get_or d segs i).size ≡ o + r
    → total (take i segs) + o ≡ offset
    → from_offset (drop i segs) o r ≡ drop offset (bytes segs)
unfolding from_offset bytes
from_offset_lem d i o r offset [] lt size before = absurd (omega arith)
from_offset_lem d zero o r offset (s ∷ ss) lt size before =
    let e : offset ≡ o + 0 = omega arith in
    sym (
      ap (λ n. drop offset (range s.buf n ++ bytes ss)) size
      ∙ ap (λ l. drop offset (l ++ bytes ss)) (range_add s.buf o r)
      ∙ ap (drop offset) (append_assoc (range s.buf o) (range (s.buf + o) r) (bytes ss))
      ∙ ap (λ n. drop n (range s.buf o ++ (range (s.buf + o) r ++ bytes ss))) e
      ∙ drop-append o 0 (range s.buf o) _ (length-range s.buf o))
from_offset_lem d (suc i) o r offset (s ∷ ss) lt size before =
    let m = total (take i ss) + o in
    from_offset_lem d i o r m ss (omega arith) size refl
    ∙ sym (drop-append s.size m (range s.buf s.size) (bytes ss) (length-range s.buf s.size))
    ∙ ap (λ n. drop n (range s.buf s.size ++ bytes ss)) (omega arith)

pub IsAt-rest :
    (d : Segment) (segs : List Segment) (p : Params) (offset : ℕ)
    → IsAt d segs p offset
    → rest segs p ≡ drop offset (bytes segs)
unfolding rest
IsAt-rest d segs p offset h =
    from_offset_lem d p.segment_index p.segment_offset p.segment_remaining offset segs h.within
      h.size h.before

take-take : (i n : ℕ) (segs : List Segment) → i < n → take i (take n segs) ≡ take i segs
take-take zero n segs h = refl
take-take (suc i) zero segs h = absurd (omega arith)
take-take (suc i) (suc n) [] h = refl
take-take (suc i) (suc n) (s ∷ ss) h = ap (◌∷◌ s) (take-take i n ss (omega arith))

pub total-take-drop :
    (i : ℕ) (segs : List Segment) → total (take i segs) + total (drop i segs) ≡ total segs
total-take-drop zero segs = omega arith
total-take-drop (suc i) [] = omega arith
total-take-drop (suc i) (s ∷ ss) = omega (arith, total-take-drop i ss)

-- The first loop, on the segments from index `i` on.
record Found (d : Segment) (segs : List Segment) (i offset : ℕ) (p : Params) : Type 0 where
  k : ℕ
  index : p.segment_index ≡ i + k
  within : k < length segs
  size : (get_or d segs k).size ≡ p.segment_offset + p.segment_remaining
  before : total (take k segs) + p.segment_offset ≡ offset

find_first-Found :
    (d : Segment) (segs : List Segment) (i offset last : ℕ)
    → 0 < length segs
    → offset ≤ total segs
    → Found d segs i offset (find_first segs i offset last)
unfolding find_first
find_first-Found d [] i offset last some_left h = absurd (omega arith)
find_first-Found d (s ∷ ss) i offset last some_left h = elim (Bool-cases (ltb s.size offset)) [
  | inl e ↦
      let found =
        find_first-Found d ss (suc i) (offset - s.size) last (total-positive ss (ground arith))
          (omega arith) in
      rw e (record {
        k = suc found.k;
        index = omega (arith, found.index);
        within = omega (arith, found.within);
        size = found.size;
        before = ground (arith, found.before);
      })
  | inr e ↦ rw e (record {
    k = 0;
    index = omega arith;
    within = omega arith;
    size = ground arith;
    before = omega arith;
  })
]

-- The second loop, on the segments from index `i` on: the first segment at whose end `remaining`
-- bytes have gone by.
record Ends (segs : List Segment) (i remaining last : ℕ) : Type 0 where
  k : ℕ
  index : last ≡ i + k
  within : k < length segs
  enough : remaining ≤ total (take (suc k) segs)
  first : 0 < k → total (take k segs) < remaining

total-take-zero : (k : ℕ) (segs : List Segment) → k ≡ 0 → total (take k segs) ≡ 0
total-take-zero zero segs h = refl
total-take-zero (suc k) segs h = absurd (omega arith)

find_last-Ends :
    (segs : List Segment) (i remaining last : ℕ)
    → 0 < length segs
    → remaining ≤ total segs
    → Ends segs i remaining (find_last segs i remaining last)
unfolding find_last
find_last-Ends [] i remaining last some_left h = absurd (omega arith)
find_last-Ends (s ∷ ss) i remaining last some_left h = elim (Bool-cases (ltb s.size remaining)) [
  | inl e ↦
      let more =
        find_last-Ends ss (suc i) (remaining - s.size) last (total-positive ss (ground arith))
          (omega arith) in
      rw e (record {
        k = suc more.k;
        index = omega (arith, more.index);
        within = omega (arith, more.within);
        enough = ground (arith, more.enough);
        first = λ _. ground (arith, more.first, total-take-zero more.k ss);
      })
  | inr e ↦ rw e (record {
    k = 0;
    index = omega arith;
    within = omega arith;
    enough = ground arith;
    first = λ h. absurd (omega arith);
  })
]

IsAt-take :
    (d : Segment) (segs : List Segment) (p : Params) (offset n : ℕ)
    → p.segment_index < n
    → n ≤ length segs
    → IsAt d segs p offset
    → IsAt d (take n segs) p offset
IsAt-take d segs p offset n lt le h = record {
  within = omega (arith, length-take n segs le);
  size = rw (get_or-take d n p.segment_index segs lt) h.size;
  before = rw (take-take p.segment_index n segs lt) h.before;
}

-- Where a transfer starts, and the segment at whose end it stops.
pub record Placed (d : Segment) (segs : List Segment) (p : Params) (offset : ℕ) : Type 0 where
  pub at : IsAt d segs p offset
  pub index-le-last : p.segment_index ≤ p.last_segment
  pub last_within : p.last_segment < length segs
  pub part_at : IsAt d (take (suc p.last_segment) segs) p offset

pub params-Placed :
    (stray : Stray) (segs : List Segment) (offset len : ℕ)
    → 0 < length segs
    → offset + len ≤ total segs
    → Placed stray.segment segs (params stray segs offset len) offset
unfolding params
params-Placed stray segs offset len some_left h =
    let p = find_first segs 0 offset stray.last in
    let found = find_first-Found stray.segment segs 0 offset stray.last some_left (omega arith) in
    let e : found.k ≡ p.segment_index = omega (arith, found.index) in
    let at : IsAt stray.segment segs p offset = record {
      within = omega (arith, found.within);
      size = rw (← e) found.size;
      before = rw (← e) found.before;
    } in
    let ends =
      find_last-Ends (drop p.segment_index segs) p.segment_index len stray.last
        (omega (arith, length-drop p.segment_index segs, at.within))
        (omega (arith, at.before, total-take-drop p.segment_index segs)) in
    let last_le : find_last (drop p.segment_index segs) p.segment_index len stray.last
        < length segs =
      omega (arith, ends.index, ends.within, length-drop p.segment_index segs) in
    record {
      at = at_of at;
      index-le-last = omega (arith, ends.index);
      last_within = last_le;
      part_at = at_of (
          IsAt-take stray.segment segs p offset
            (suc (find_last (drop p.segment_index segs) p.segment_index len stray.last))
            (omega (arith, ends.index)) (omega (arith, last_le)) at);
    }
  where
    at_of :
        {segs' : List Segment} {p : Params} {l : ℕ}
        → IsAt stray.segment segs' p offset
        → IsAt stray.segment segs' (record p { last_segment = l }) offset
    at_of a = record { within = a.within; size = a.size; before = a.before }

total-take_mono :
    (m n : ℕ) (segs : List Segment) → m ≤ n → total (take m segs) ≤ total (take n segs)
total-take_mono zero n segs h = omega arith
total-take_mono (suc m) zero segs h = absurd (omega arith)
total-take_mono (suc m) (suc n) [] h = omega arith
total-take_mono (suc m) (suc n) (s ∷ ss) h = omega (arith, total-take_mono m n ss (omega arith))

find_first_zero : (segs : List Segment) (last : ℕ) → (find_first segs 0 0 last).segment_index ≡ 0
unfolding find_first
find_first_zero [] last = refl
find_first_zero (s ∷ ss) last = ground arith

Ends-whole :
    (segs : List Segment) (n last : ℕ)
    → 0 < total (take n segs)
    → Ends segs 0 (total (take n segs)) last
    → total (take (suc last) segs) ≡ total (take n segs)
Ends-whole segs n last some_left ends =
    let e : last ≡ ends.k = omega (arith, ends.index) in
    let below : suc ends.k ≤ n = elim (Bool-cases (ltb ends.k n)) [
      | inl e ↦ ground arith
      | inr e ↦ ground (arith, ends.first, total-take_mono n ends.k segs, total-take-zero n segs)
    ] in
    rw e (omega (arith, total-take_mono (suc ends.k) n segs below, ends.enough))

-- A transfer of the first `n` segments, from their start, ends where they end.
pub params_whole :
    (stray : Stray) (segs : List Segment) (n : ℕ)
    → 0 < total (take n segs)
    → total (take (suc (params stray segs 0 (total (take n segs))).last_segment) segs)
      ≡ total (take n segs)
unfolding params
params_whole stray segs n some_left =
    let le : total (take n segs) ≤ total segs = omega (arith, total-take-drop n segs) in
    rw (find_first_zero segs stray.last) (
      Ends-whole segs n _ some_left (
        find_last-Ends segs 0 (total (take n segs)) stray.last (total-positive segs (omega arith))
          le))
