-- ===== src/Front/Pack/RoundTrip.antt =====
-- An object that is packed into a buffer of the size that `NNTI_dt_sizeof` says is unpacked again.
use nnti.Base.{ℕ, ◌+◌, ◌<◌, ◌≤◌, ◌^◌, ◌≡◌, true, some, arith}
use nnti.Types.{ok}
use nnti.Url.{Bytes}
use nnti.Front.{Front, transport_count}
use nnti.Front.Pack.{Proc, Codec, Packed, proc, body_len, dt_sizeof, dt_pack, dt_unpack}

-- What XDR documents of a type's function: an object is encoded where the stream holds `sizeof`
-- bytes, and decoding those bytes into an object whose bytes are 0 gives it again.
pub record IsXdr {O : Type 0} (p : Proc O) (zero : O) (o : O) : Type 0 where
  pub encodes :
      (len : ℕ) (body : Bytes)
      → p.sizeof o ≤ len
      → (coded : Bytes) × (p.encode o len body ≡ (true, coded))
        × (p.decode len coded zero ≡ (true, o))

body_len_lem : (n : ℕ) → n < 2 ^ 32 → body_len (n + 4) ≡ n
unfolding body_len
body_len_lem n h = omega arith

-- For an open transport, and an object of one of the five types whose XDR size is below 2^32 - 4:
-- `NNTI_dt_sizeof` gives a length with which `NNTI_dt_pack` succeeds, whatever is in the buffer, and
-- `NNTI_dt_unpack` of what is packed gives the object, where XDR does what it documents.
pub dt_unpack-dt_pack :
    {O W : Type 0} (codec : Codec O) (p : Proc O) (o before : O) (hdl len : ℕ) (buf : Packed)
    (s : Front W)
    → (s.world.transports hdl).transport_id < transport_count
    → (s.entries (s.world.transports hdl).transport_id).initialized ≡ true
    → proc codec (codec.datatype o) ≡ some p
    → IsXdr p (codec.zero_of (codec.datatype o)) o
    → p.sizeof o + 4 < 2 ^ 32
    → (n : ℕ) × (packed : Packed) × (dt_sizeof codec hdl o len s ≡ some (ok, n))
      × (dt_pack codec hdl o buf n s ≡ some (ok, packed))
      × (dt_unpack codec hdl before packed n s ≡ some (ok, o))
unfolding dt_sizeof dt_pack dt_unpack
dt_unpack-dt_pack codec p o before hdl len buf s small opened found xdr bound =
    let (coded, enc, dec) = xdr.encodes (p.sizeof o) buf.body (omega arith) in
    let room : body_len (p.sizeof o + 4) ≡ p.sizeof o = body_len_lem (p.sizeof o) (omega arith) in
    (
      p.sizeof o + 4,
      record { word = codec.datatype o; body = coded },
      ground (arith, opened, found),
      ground (arith, opened, found, room, enc),
      ground (arith, opened, found, room, dec),
    )
