-- ===== src/Mpi/Tests/Peer.antt =====
-- The theorems on the addresses of processes at inputs.
use nnti.Base.{◌≡◌, refl, some, [], ◌∷◌, arith}
use nnti.Types.{ok, einval}
use nnti.Url.{Bytes, url_get_transport, split_sep, copy_out}
use nnti.Mpi.Peer.{Peer, create_peer, get_url, connect}
use nnti.Mpi.Peer.RoundTrip.{connect-get_url}

abbrev nobody : Peer
nobody = record { url = []; rank = 0 }

reached_205 :
    (url : Bytes) × (get_url (create_peer 205) 128 ≡ some url)
    × (connect (some url) nobody ≡ (ok, create_peer 205))
reached_205 = connect-get_url 205 127 nobody (omega arith) (omega arith)

abbrev other : Bytes
other = b'i' ∷ b'b' ∷ b':' ∷ b'/' ∷ b'/' ∷ b'7' ∷ b'/' ∷ []

refused : connect (some other) nobody ≡ (einval, nobody)
unfolding connect url_get_transport split_sep copy_out
refused = refl
