-- ===== src/Mpi/Peer.antt =====
-- nnti/nnti_mpi.cpp: the address of a process, `NNTI_mpi_init`, `NNTI_mpi_get_url` and
-- `NNTI_mpi_connect`.
pub mod RoundTrip
use nnti.Base.{
  ℕ, zero, suc, ◌+◌, ◌%◌, ◌^◌, Bool, true, false, Option, none, some, [], ◌∷◌, ◌++◌, ◌==◌,
  if◌then◌else◌,
}
use nnti.Types.{NntiResult, ok, einval}
use nnti.Url.{Bytes, Parsed, part, take, url_get_transport, url_get_address}
use nnti.Url.Numbers.{decimal, strtol}

-- `NNTI_peer_t`: its `url` up to the NUL, and the rank, an `int` as its bit pattern.
pub record Peer : Type 0 where
  pub url : Bytes
  pub rank : ℕ

-- `NNTI_URL_LEN`
abbrev pub url_len : ℕ
url_len = 128

abbrev pub mpi : Bytes
mpi = b'm' ∷ b'p' ∷ b'i' ∷ []

-- `create_peer`: the URL is printed with "mpi://%u/".
unfoldable pub create_peer : ℕ → Peer
create_peer rank = record {
  url = mpi ++ ((b':' ∷ b'/' ∷ b'/' ∷ []) ++ (decimal rank ++ (b'/' ∷ [])));
  rank = rank;
}

-- `NNTI_mpi_get_url`: what is in `url`; a size of 0 fails an assertion.
unfoldable pub get_url : Peer → ℕ → Option Bytes
get_url me zero = none
get_url me (suc n) = some (take n me.url)

-- `strcmp(s, t) == 0`
abbrev pub same : Bytes → Bytes → Bool
same [] [] = true
same (c ∷ s) (d ∷ t) = if c == d then same s t else false
same _ _ = false

-- The end of `NNTI_mpi_connect`, from the address. `strtol` returns a `long`, of which an `int` is
-- kept.
abbrev pub connect_address : Parsed → Peer → NntiResult × Peer
connect_address (part address) peer_hdl = (ok, create_peer (strtol address % 2 ^ 32))
connect_address _ peer_hdl = (einval, peer_hdl)

abbrev pub connect_transport : Bytes → Parsed → Peer → NntiResult × Peer
connect_transport url (part transport) peer_hdl =
    if same transport mpi
    then connect_address (url_get_address url url_len) peer_hdl
    else (einval, peer_hdl)
connect_transport url _ peer_hdl = (einval, peer_hdl)

-- `NNTI_mpi_connect`: the result, and what it leaves in `peer_hdl`. `none` is a NULL URL.
unfoldable pub connect : Option Bytes → Peer → NntiResult × Peer
connect none peer_hdl = (einval, peer_hdl)
connect (some url) peer_hdl = connect_transport url (url_get_transport url url_len) peer_hdl
