-- ===== src/Ib/Segments/Whole.antt =====
-- Transfers that move what was asked for and nothing else (nnti/nnti_ib.cpp).
use nnti.Base.{ℕ, ◌+◌, ◌-◌, ◌≤◌, ◌<◌, ◌≡◌, ap, sym, ◌∙◌, some, List, take, drop, arith}
use nnti.Ib.Segments.{Segment, Local, Stray, SendWr, get_many}
use nnti.Ib.Segments.Bytes.{bytes, total, local_bytes, remote_bytes, bytes-take}
use nnti.Ib.Segments.Position.{params_whole, total-take-drop}
use nnti.Ib.Segments.Loops.{AreNarrow}
use nnti.Ib.Segments.Copies.{IsRegistered, end_of, get_many-copies}

end_of-whole :
    (stray : Stray) (segs : List Segment) (n : ℕ)
    → 0 < total (take n segs)
    → end_of stray segs 0 (total (take n segs)) ≡ total (take n segs)
unfolding end_of
end_of-whole stray segs n some_left = params_whole stray segs n some_left

-- A GET of the first `n` segments of another process's buffer, whole, likewise.
pub get_whole :
    (stray : Stray) (src : List Segment) (dst : Local) (key n dst_offset : ℕ)
    → IsRegistered dst
    → AreNarrow stray.segment src
    → 0 < total (take n src)
    → dst_offset + total (take n src) ≤ total dst.segments
    → (ws : List SendWr) × (get_many stray key src 0 (total (take n src)) dst dst_offset ≡ some ws)
      × (remote_bytes ws ≡ bytes (take n src))
      × (local_bytes ws ≡ take (total (take n src)) (drop dst_offset (bytes dst.segments)))
get_whole stray src dst key n dst_offset reg all some_left fits =
    let len = total (take n src) in
    let e = end_of-whole stray src n some_left in
    let (ws, run, count, read, written) =
      get_many-copies stray src dst key 0 len dst_offset reg all some_left
        (omega (arith, total-take-drop n src)) fits (omega (arith, e)) in
    let f : end_of stray src 0 len - 0 ≡ len = omega (arith, e) in
    (
      ws,
      run,
      read ∙ ap (λ m. take m (bytes src)) f ∙ sym (bytes-take n src),
      written ∙ ap (λ m. take m (drop dst_offset (bytes dst.segments))) f,
    )
