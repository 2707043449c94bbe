-- ===== src/Front/Pack.antt =====
-- nnti/nnti.c: `NNTI_dt_sizeof`, `NNTI_dt_pack`, `NNTI_dt_unpack` and `NNTI_dt_free`. The XDR functions,
-- which rpcgen makes of nnti/Trios_nnti_xdr.x, and those of the XDR library are parameters.
pub mod RoundTrip
use nnti.Base.{
  ℕ, ◌+◌, ◌-◌, ◌%◌, ◌^◌, Bool, true, false, Option, none, some, leb, ◌==◌, if◌then◌else◌,
}
use nnti.Types.{NntiResult, ok, enotinit, eencode, edecode}
use nnti.Url.{Bytes}
use nnti.Front.{Front, World, transport_count}
use nnti.Front.Datatype

-- What XDR does for one type of objects: `xdr_sizeof`; the type's function on a stream that
-- `xdrmem_create` makes of a size and the bytes of a buffer, to encode an object, where the buffer
-- is written, and to decode into one; and `xdr_free`.
pub record Proc (O : Type 0) : Type 0 where
  pub sizeof : O → ℕ
  pub encode : O → ℕ → Bytes → Bool × Bytes
  pub decode : ℕ → Bytes → O → Bool × O
  pub free : O → O

-- The functions for the five types; what an object's first field says of its type; and an object of
-- a type whose bytes are 0.
pub record Codec (O : Type 0) : Type 0 where
  pub transport : Proc O
  pub peer : Proc O
  pub buffer : Proc O
  pub work_request : Proc O
  pub status : Proc O
  pub datatype : O → ℕ
  pub zero_of : ℕ → O

-- `packed_buf`: the word at its start, and the bytes after it.
pub record Packed : Type 0 where
  pub word : ℕ
  pub body : Bytes

-- `packed_buflen -= sizeof(NNTI_datatype_t)` on 64 bits, of which `xdrmem_create` takes 32.
unfoldable pub body_len : ℕ → ℕ
body_len packed_buflen = (packed_buflen + (2 ^ 64 - 4)) % 2 ^ 64 % 2 ^ 32

abbrev pub fst_or : {O : Type 0} → NntiResult → Bool × O → NntiResult × O
fst_or error (true, x) = (ok, x)
fst_or error (false, x) = (error, x)

-- The test of `initialized`.
abbrev pub when_open :
    {A W : Type 0} → ℕ → Front W → A → Option (NntiResult × A) → Option (NntiResult × A)
when_open trans_hdl s before body =
    if leb transport_count (s.world.transports trans_hdl).transport_id
    then none
    else if (s.entries (s.world.transports trans_hdl).transport_id).initialized
    then body
    else some (enotinit, before)

module _ {O : Type 0} (codec : Codec O) where
  -- The `switch` on the type: no function is set for any other value.
  unfoldable pub proc : ℕ → Option (Proc O)
  proc dt =
      if dt == Datatype.transport
      then some codec.transport
      else if dt == Datatype.peer
      then some codec.peer
      else if dt == Datatype.buffer
      then some codec.buffer
      else if dt == Datatype.work_request
      then some codec.work_request
      else if dt == Datatype.status
      then some codec.status
      else none

  abbrev pub sizeof_with : Option (Proc O) → O → Option (NntiResult × ℕ)
  sizeof_with none nnti_dt = none
  sizeof_with (some p) nnti_dt = some (ok, (p.sizeof nnti_dt + 4) % 2 ^ 64)

  -- `NNTI_dt_sizeof`: the result and `*packed_len`.
  unfoldable pub dt_sizeof : {W : Type 0} → ℕ → O → ℕ → Front W → Option (NntiResult × ℕ)
  dt_sizeof trans_hdl nnti_dt packed_len s =
      when_open trans_hdl s packed_len (sizeof_with (proc (codec.datatype nnti_dt)) nnti_dt)

  abbrev pub packed_as : ℕ → NntiResult × Bytes → NntiResult × Packed
  packed_as dt (rc, body) = (rc, record { word = dt; body = body })

  abbrev pub pack_with : Option (Proc O) → O → Packed → ℕ → Option (NntiResult × Packed)
  pack_with none nnti_dt packed_buf packed_buflen = none
  pack_with (some p) nnti_dt packed_buf packed_buflen = some (
      packed_as (codec.datatype nnti_dt)
        (fst_or eencode (p.encode nnti_dt (body_len packed_buflen) packed_buf.body)))

  -- `NNTI_dt_pack`: the result and what is in `packed_buf`.
  unfoldable pub dt_pack :
      {W : Type 0} → ℕ → O → Packed → ℕ → Front W → Option (NntiResult × Packed)
  dt_pack trans_hdl nnti_dt packed_buf packed_buflen s =
      when_open trans_hdl s packed_buf
        (pack_with (proc (codec.datatype nnti_dt)) nnti_dt packed_buf packed_buflen)

  abbrev pub unpack_with : Option (Proc O) → Packed → ℕ → Option (NntiResult × O)
  unpack_with none packed_buf packed_buflen = none
  unpack_with (some p) packed_buf packed_buflen = some (
      fst_or edecode
        (p.decode (body_len packed_buflen) packed_buf.body (codec.zero_of packed_buf.word)))

  -- `NNTI_dt_unpack`: the result and what is in `nnti_dt`.
  unfoldable pub dt_unpack : {W : Type 0} → ℕ → O → Packed → ℕ → Front W → Option (NntiResult × O)
  dt_unpack trans_hdl nnti_dt packed_buf packed_buflen s =
      when_open trans_hdl s nnti_dt (unpack_with (proc packed_buf.word) packed_buf packed_buflen)

  abbrev pub free_with : Option (Proc O) → O → Option (NntiResult × O)
  free_with none nnti_dt = none
  free_with (some p) nnti_dt = some (ok, p.free nnti_dt)

  -- `NNTI_dt_free`
  unfoldable pub dt_free : {W : Type 0} → ℕ → O → Front W → Option (NntiResult × O)
  dt_free trans_hdl nnti_dt s =
      when_open trans_hdl s nnti_dt (free_with (proc (codec.datatype nnti_dt)) nnti_dt)
