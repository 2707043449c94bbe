-- ===== src/Ib/Segments/Bytes.antt =====
-- The bytes of a buffer of several segments, by their addresses, and those a descriptor moves.
use mathlib.Core.List.{append_assoc, flat_map}
use nnti.Base.{
  ℕ, zero, suc, ◌+◌, ◌-◌, ◌≤◌, ◌<◌, ◌≡◌, ◌∙◌, refl, sym, ap, inl, inr, List, [], ◌∷◌, ◌++◌, length,
  length-append, get_or, take, take-append, drop, drop-cons, drop-past, range, range_add,
  length-range, arith,
}
use nnti.Ib.Segments.{Segment, Stray, Params, next, skip, SendWr, Sge}

unfoldable pub bytes : List Segment → List ℕ
bytes [] = []
bytes (s ∷ ss) = range s.buf s.size ++ bytes ss

abbrev pub total : List Segment → ℕ
total [] = 0
total (s ∷ ss) = s.size + total ss

-- The bytes of the segments but those before an offset in the first and those after the
-- `remaining` ones that follow it there.
unfoldable pub from_offset : List Segment → ℕ → ℕ → List ℕ
from_offset [] offset remaining = []
from_offset (s ∷ ss) offset remaining = range (s.buf + offset) remaining ++ bytes ss

-- The bytes from a position to the end of the segments.
unfoldable pub rest : List Segment → Params → List ℕ
rest segs p = from_offset (drop p.segment_index segs) p.segment_offset p.segment_remaining

-- The bytes of a descriptor's scatter-gather list, and those at the other side.
unfoldable pub gathered : List Sge → List ℕ
gathered [] = []
gathered (g ∷ gs) = range g.addr g.length ++ gathered gs

abbrev pub local_of : SendWr → List ℕ
local_of w = gathered w.sg_list

abbrev pub remote_of : SendWr → List ℕ
remote_of w = range w.remote_addr (length (gathered w.sg_list))

-- The bytes that a list of descriptors moves, here and there.
unfoldable pub local_bytes : List SendWr → List ℕ
local_bytes = flat_map local_of

unfoldable pub remote_bytes : List SendWr → List ℕ
remote_bytes = flat_map remote_of

pub length-bytes : (segs : List Segment) → length (bytes segs) ≡ total segs
unfolding bytes
length-bytes [] = refl
length-bytes (s ∷ ss) =
    length-append (range s.buf s.size) (bytes ss)
    ∙ ap (◌+ length (bytes ss)) (length-range s.buf s.size)
    ∙ ap (s.size +◌) (length-bytes ss)

pub bytes-take :
    (n : ℕ) (segs : List Segment) → bytes (take n segs) ≡ take (total (take n segs)) (bytes segs)
unfolding bytes
bytes-take zero segs = refl
bytes-take (suc n) [] = refl
bytes-take (suc n) (s ∷ ss) =
    ap (range s.buf s.size ++◌) (bytes-take n ss)
    ∙ sym (
        take-append s.size (total (take n ss)) (range s.buf s.size) (bytes ss)
          (length-range s.buf s.size))

pub rest-past :
    (segs : List Segment) (p : Params) → length segs ≤ p.segment_index → rest segs p ≡ []
unfolding rest from_offset
rest-past segs p h = rw (rest, drop-past p.segment_index segs h) refl

-- `d` stands past the end.
pub rest-within :
    (d : Segment) (segs : List Segment) (p : Params)
    → p.segment_index < length segs
    → rest segs p
      ≡ range ((get_or d segs p.segment_index).buf + p.segment_offset) p.segment_remaining
        ++ bytes (drop (suc p.segment_index) segs)
unfolding rest from_offset
rest-within d segs p h = elim (drop-cons d p.segment_index segs) [
  | inl (e, le) ↦ absurd (omega arith)
  | inr (e, lt) ↦ rw (rest, e) refl
]

-- `part` is the part of the segments that counts.
pub rest-next :
    (stray : Stray) (segs part : List Segment) (p : Params)
    → (suc p.segment_index < length part
        → get_or stray.segment part (suc p.segment_index)
          ≡ get_or stray.segment segs (suc p.segment_index))
    → rest part (next stray segs p) ≡ bytes (drop (suc p.segment_index) part)
unfolding rest next bytes from_offset
rest-next stray segs part p same = elim (drop-cons stray.segment (suc p.segment_index) part) [
  | inl (e, le) ↦ rw (rest, e) refl
  | inr (e, lt) ↦
      rw (rest, e)
        (rw (same lt) (
          ap
            (λ a.
              range a (get_or stray.segment segs (suc p.segment_index)).size
              ++ bytes (drop (suc (suc p.segment_index)) part))
            (omega arith)))
]

range_split :
    (a o r n : ℕ) (more : List ℕ)
    → n ≤ r
    → range (a + o) r ++ more ≡ range (a + o) n ++ (range (a + (o + n)) (r - n) ++ more)
range_split a o r n more le =
    ap (λ m. range (a + o) m ++ more) (omega arith)
    ∙ ap (◌++ more) (range_add (a + o) n (r - n))
    ∙ append_assoc (range (a + o) n) _ more
    ∙ ap (λ b. range (a + o) n ++ (range b (r - n) ++ more)) (omega arith)

pub rest-skip :
    (d : Segment) (segs : List Segment) (n : ℕ) (p : Params)
    → p.segment_index < length segs
    → n ≤ p.segment_remaining
    → rest segs p
      ≡ range ((get_or d segs p.segment_index).buf + p.segment_offset) n ++ rest segs (skip n p)
unfolding skip
rest-skip d segs n p h le =
    let b = (get_or d segs p.segment_index).buf in
    rest-within d segs p h
    ∙ range_split b p.segment_offset p.segment_remaining n _ le
    ∙ ap (range (b + p.segment_offset) n ++◌) (sym (rest-within d segs (skip n p) h))
