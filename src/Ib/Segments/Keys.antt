-- ===== src/Ib/Segments/Keys.antt =====
-- How many descriptors the loop of nnti/nnti_ib.cpp fills in, and their keys.
use mathlib.Core.Option.{some-injective, none-ne-some}
use nnti.Base.{
  ℕ, zero, suc, ◌+◌, ◌≤◌, ◌<◌, ◌≡◌, ◌∙◌, refl, sym, ap, true, false, Bool, Option, none, some, List,
  [], ◌∷◌, leb, if◌then◌else◌, length, get_elem?, arith, subst,
}
use nnti.Ib.Segments.{
  Segment, Local, Stray, Params, SendWr, params, fill_wrs, advance_src, advance_dst, put_wr,
  put_many, fuel_for,
}
use nnti.Ib.Segments.Bytes.{total}
use nnti.Ib.Segments.Position.{total-positive, params-Placed}

-- `count` descriptors or fewer, under the keys from `key` on.
pub record AreKeyed (key count : ℕ) (ws : List SendWr) : Type 0 where
  pub few : length ws ≤ count
  pub keys : (i : ℕ) (w : SendWr) → get_elem? ws i ≡ some w → w.wr_id ≡ key + i

AreKeyed-nil : (key count : ℕ) → AreKeyed key count []
AreKeyed-nil key count = record { few = omega arith; keys = λ i w e. absurd (none-ne-some w e) }

AreKeyed-cons :
    (key count : ℕ) (w : SendWr) (ws : List SendWr)
    → w.wr_id ≡ key
    → AreKeyed (suc key) count ws
    → AreKeyed key (suc count) (w ∷ ws)
AreKeyed-cons key count w ws e h = record { few = omega (arith, h.few); keys = at }
  where
    at : (i : ℕ) (v : SendWr) → get_elem? (w ∷ ws) i ≡ some v → v.wr_id ≡ key + i
    at zero v f = omega (arith, e, ap (λ (x : SendWr). x.wr_id) (some-injective w v f))
    at (suc i) v f = omega (arith, h.keys i v f)

-- A round of the loop, after the rounds that follow it.
abbrev fill_round : Bool → SendWr → Option (List SendWr) → Option (List SendWr)
fill_round go w o = if go then (elim o [ none ↦ none | some ws ↦ some (w ∷ ws) ]) else some []

fill_round-AreKeyed :
    (go : Bool) (key count : ℕ) (w : SendWr) (o : Option (List SendWr)) (ws : List SendWr)
    → fill_round go w o ≡ some ws
    → w.wr_id ≡ key
    → ((vs : List SendWr) → o ≡ some vs → AreKeyed (suc key) count vs)
    → AreKeyed key (suc count) ws
fill_round-AreKeyed false key count w o ws e under later =
    subst (AreKeyed key (suc count)) (some-injective [] ws e) (AreKeyed-nil key (suc count))
fill_round-AreKeyed true key count w none ws e under later = absurd (none-ne-some ws e)
fill_round-AreKeyed true key count w (some vs) ws e under later =
    subst (AreKeyed key (suc count)) (some-injective (w ∷ vs) ws e)
      (AreKeyed-cons key count w vs under (later vs refl))

fill_round-some :
    (w : SendWr) (o : Option (List SendWr)) (ws : List SendWr)
    → fill_round true w o ≡ some ws
    → 0 < length ws
fill_round-some w none ws e = absurd (none-ne-some ws e)
fill_round-some w (some vs) ws e = omega (arith, ap length (some-injective (w ∷ vs) ws e))

module _ (stray : Stray) (src dst : List Segment) (fill : ℕ → Params → Params → SendWr) where
  pub fill_wrs-AreKeyed :
      ((key : ℕ) (s d : Params) → (fill key s d).wr_id ≡ key)
      → (fuel key : ℕ) (s d : Params) (ws : List SendWr)
      → fill_wrs stray src dst fill fuel key s d ≡ some ws
      → AreKeyed key fuel ws
  unfolding fill_wrs
  fill_wrs-AreKeyed under zero key s d ws e = absurd (none-ne-some ws e)
  fill_wrs-AreKeyed under (suc fuel) key s d ws e =
      let s1 = advance_src stray src dst s d in
      let d1 = advance_dst stray src dst s d in
      fill_round-AreKeyed (leb s.segment_index s.last_segment) key fuel (fill key s d)
        (fill_wrs stray src dst fill fuel (suc key) s1 d1) ws e (under key s d)
        (fill_wrs-AreKeyed under fuel (suc key) s1 d1)

  -- A loop that starts at or before its last segment fills in a descriptor.
  pub fill_wrs-some :
      (fuel key : ℕ) (s d : Params) (ws : List SendWr)
      → fill_wrs stray src dst fill fuel key s d ≡ some ws
      → s.segment_index ≤ s.last_segment
      → 0 < length ws
  unfolding fill_wrs
  fill_wrs-some zero key s d ws e le = absurd (none-ne-some ws e)
  fill_wrs-some (suc fuel) key s d ws e le =
      let go : leb s.segment_index s.last_segment ≡ true = ground arith in
      let o =
        fill_wrs stray src dst fill fuel (suc key) (advance_src stray src dst s d)
          (advance_dst stray src dst s d) in
      fill_round-some (fill key s d) o ws (sym (ap (λ g. fill_round g (fill key s d) o) go) ∙ e)

pub put_many-AreKeyed :
    (stray : Stray) (src : Local) (dst : List Segment) (key src_offset len dst_offset : ℕ)
    (ws : List SendWr)
    → put_many stray key src src_offset len dst dst_offset ≡ some ws
    → AreKeyed key (fuel_for src.segments dst) ws
unfolding put_many put_wr
put_many-AreKeyed stray src dst key src_offset len dst_offset ws e =
    fill_wrs-AreKeyed stray src.segments dst (put_wr stray src dst) (λ k s d. refl)
      (fuel_for src.segments dst) key (params stray src.segments src_offset len)
      (params stray dst dst_offset len) ws e

pub put_many-some :
    (stray : Stray) (src : Local) (dst : List Segment) (key src_offset len dst_offset : ℕ)
    (ws : List SendWr)
    → put_many stray key src src_offset len dst dst_offset ≡ some ws
    → 0 < len
    → src_offset + len ≤ total src.segments
    → 0 < length ws
unfolding put_many
put_many-some stray src dst key src_offset len dst_offset ws e some_len fits =
    let placed =
      params-Placed stray src.segments src_offset len (total-positive src.segments (omega arith))
        fits in
    fill_wrs-some stray src.segments dst (put_wr stray src dst) (fuel_for src.segments dst) key
      (params stray src.segments src_offset len) (params stray dst dst_offset len) ws e
      placed.index-le-last
