-- ===== src/Mpi/Peer/RoundTrip.antt =====
-- The URL of a process leads its peers to it.
use nnti.Base.{
  ℕ, zero, suc, ◌+◌, ◌%◌, ◌^◌, ◌≤◌, ◌<◌, ◌≡◌, ◌∙◌, refl, ap, true, false, some, [], ◌∷◌, ltb,
  lt→ltb, ◌/◌, arith, length, length-append, mem,
}
use nnti.Types.{NntiResult, ok}
use nnti.Url.{Bytes, part, url_get_transport, url_get_address, url_get_memdesc}
use nnti.Url.Numbers.{decimal, decimal_onto, strtol-decimal, length-decimal_onto, mem-decimal_onto}
use nnti.Url.Parts.{take_all, url_parts}
use nnti.Mpi.Peer.{
  Peer, url_len, mpi, create_peer, get_url, connect_address, connect_transport, connect,
}

length_url : (rank : ℕ) → length (create_peer rank).url ≤ 17
unfolding create_peer decimal
length_url rank =
    omega
      (arith, length-append (decimal_onto 10 rank []) (b'/' ∷ []), length-decimal_onto 10 rank [])

decimal_grows : (fuel n : ℕ) (rest : Bytes) → length rest < length (decimal_onto (suc fuel) n rest)
unfolding decimal_onto
decimal_grows zero n rest = ground arith
decimal_grows (suc fuel) n rest =
    ground (arith, decimal_grows fuel (n / 10) ((b'0' + n % 10) ∷ rest))

decimal_pos : (rank : ℕ) → ltb 0 (length (decimal rank)) ≡ true
unfolding decimal
decimal_pos rank = lt→ltb 0 (length (decimal_onto 10 rank [])) (decimal_grows 9 rank [])

no_slash : (rank : ℕ) → mem b'/' (decimal rank) ≡ false
unfolding decimal
no_slash rank = mem-decimal_onto b'/' 10 rank [] refl refl

decimal_fits : (rank : ℕ) → ltb (length (decimal rank)) url_len ≡ true
unfolding decimal
decimal_fits rank =
    lt→ltb (length (decimal_onto 10 rank [])) url_len
      (omega (arith, length-decimal_onto 10 rank []))

-- A process whose rank is an `int` gives the URL that `get_url` returns into a buffer of at least 18
-- bytes; who connects to it gets its rank, and the same URL.
pub connect-get_url :
    (rank n : ℕ) (before : Peer)
    → rank < 2 ^ 31
    → 17 ≤ n
    → (url : Bytes) × (get_url (create_peer rank) (suc n) ≡ some url)
      × (connect (some url) before ≡ (ok, create_peer rank))
unfolding get_url connect create_peer
connect-get_url rank n before h room =
    let url : Bytes = (create_peer rank).url in
    let parts : (url_get_transport url url_len ≡ part mpi)
        × (url_get_address url url_len ≡ part (decimal rank))
        × (url_get_memdesc url url_len ≡ part []) =
      url_parts mpi (decimal rank) [] url_len (omega arith) refl (no_slash rank) (decimal_pos rank)
        refl (decimal_fits rank) refl in
    let reached : ℕ → NntiResult × Peer = λ r. (ok, create_peer r) in
    (
      url,
      ap some (take_all n url (omega (arith, length_url rank))),
      ap (λ p. connect_transport url p before) parts.0
          ∙ ap (λ p. connect_address p before) parts.1
          ∙ ap (λ r. reached (r % 2 ^ 32)) (strtol-decimal rank (omega arith))
          ∙ ap reached (omega arith),
    )
