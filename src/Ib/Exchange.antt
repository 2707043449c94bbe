-- ===== src/Ib/Exchange.antt =====
-- nnti/nnti_ib.cpp: `tcp_write` and `tcp_exchange`, in which two processes send each other a
-- message of one length over a TCP socket.
use nnti.Base.{
  ℕ, zero, suc, ◌-◌, ◌^◌, ◌≤◌, ◌<◌, ◌≡◌, ◌∙◌, refl, sym, ap, Bool, true, false, Option, none, some,
  [], ◌∷◌, ◌++◌, ◌==◌, if◌then◌else◌, length, arith, ==_refl,
}
use nnti.Url.{Bytes, take}
use nnti.Ib.Tcp.{Socket, drop, min, ReadResult, read_failed, bytes_read, tcp_read, tcp_read-take}

-- What `write` does: whether the n-th fails, and how many bytes it takes, at most.
pub record Sink : Type 0 where
  pub fails : ℕ → Bool
  pub accepts : ℕ → ℕ

pub data WriteResult : Type 0 where
  write_failed : WriteResult
  written : Bytes → WriteResult

abbrev pub behind : Bytes → Option WriteResult → Option WriteResult
behind s none = none
behind s (some write_failed) = some write_failed
behind s (some (written t)) = some (written (s ++ t))

-- `tcp_write`, from the n-th `write` on, in at most `fuel` rounds: it goes on as long as `write` takes
-- no byte.
unfoldable pub tcp_write : Sink → ℕ → ℕ → Bytes → Option WriteResult
tcp_write sink fuel n [] = some (written [])
tcp_write sink zero n (c ∷ s) = none
tcp_write sink (suc fuel) n (c ∷ s) =
    let k : ℕ = min (sink.accepts n) (length (c ∷ s)) in
    let rest : Option WriteResult = tcp_write sink fuel (suc n) (drop k (c ∷ s)) in
    if sink.fails n then some write_failed else behind (take k (c ∷ s)) rest

-- What `tcp_exchange` returns, an `int` as its bit pattern, with what is in `incoming` and what was
-- sent.
pub record Exchange : Type 0 where
  pub rc : ℕ
  pub incoming : Bytes
  pub sent : Bytes

abbrev pub minus_one : ℕ
minus_one = 2 ^ 32 - 1

abbrev pub server_wrote : Bytes → Option WriteResult → Option Exchange
server_wrote incoming none = none
server_wrote incoming (some write_failed) =
    some (record { rc = minus_one; incoming = incoming; sent = [] })
server_wrote incoming (some (written s)) = some (record { rc = 0; incoming = incoming; sent = s })

abbrev pub server_read : Option WriteResult → ℕ → Option ReadResult → Option Exchange
server_read reply len none = none
server_read reply len (some read_failed) =
    some (record { rc = minus_one; incoming = []; sent = [] })
server_read reply len (some (bytes_read incoming rest)) =
    if length incoming == len
    then server_wrote incoming reply
    else some (record { rc = 1; incoming = incoming; sent = [] })

abbrev pub client_read : Bytes → ℕ → Option ReadResult → Option Exchange
client_read sent len none = none
client_read sent len (some read_failed) =
    some (record { rc = minus_one; incoming = []; sent = sent })
client_read sent len (some (bytes_read incoming rest)) =
    some (record { rc = if length incoming == len then 0 else 1; incoming = incoming; sent = sent })

abbrev pub client_wrote : Option ReadResult → ℕ → Option WriteResult → Option Exchange
client_wrote answer len none = none
client_wrote answer len (some write_failed) =
    some (record { rc = minus_one; incoming = []; sent = [] })
client_wrote answer len (some (written s)) = client_read s len answer

-- `tcp_exchange` of `len` bytes, where `stream` is what the other process sends: a server receives and
-- then sends, a client sends and then receives.
unfoldable pub tcp_exchange : Socket → Sink → ℕ → Bool → Bytes → ℕ → Bytes → Option Exchange
tcp_exchange sock sink fuel true outgoing len stream =
    server_read (tcp_write sink fuel 0 outgoing) len (tcp_read sock fuel 0 len stream)
tcp_exchange sock sink fuel false outgoing len stream =
    client_wrote (tcp_read sock fuel 0 len stream) len (tcp_write sink fuel 0 outgoing)

take-drop_all : (k : ℕ) (s : Bytes) → take k s ++ drop k s ≡ s
take-drop_all zero s = refl
take-drop_all (suc k) [] = refl
take-drop_all (suc k) (c ∷ s) = ap (◌∷◌ c) (take-drop_all k s)

length-drop : (k : ℕ) (s : Bytes) → length (drop k s) ≡ length s - k
length-drop zero s = omega arith
length-drop (suc k) [] = omega arith
length-drop (suc k) (c ∷ s) = omega (arith, length-drop k s)

take_exact : (s : Bytes) → take (length s) s ≡ s
take_exact [] = refl
take_exact (c ∷ s) = ap (◌∷◌ c) (take_exact s)

tcp_write-written :
    (sink : Sink) (fuel n : ℕ) (s : Bytes)
    → ((m : ℕ) → sink.fails m ≡ false)
    → ((m : ℕ) → 0 < sink.accepts m)
    → length s ≤ fuel
    → tcp_write sink fuel n s ≡ some (written s)
unfolding tcp_write
tcp_write-written sink fuel n [] sound moves enough = refl
tcp_write-written sink zero n (c ∷ s) sound moves enough = absurd (omega arith)
tcp_write-written sink (suc fuel) n (c ∷ s) sound moves enough =
    let k : ℕ = min (sink.accepts n) (length (c ∷ s)) in
    let positive : 0 < k = ground (arith, moves n) in
    rw (sound n) (
      ap (behind (take k (c ∷ s))) (
        tcp_write-written sink fuel (suc n) (drop k (c ∷ s)) sound moves
          (omega (arith, length-drop k (c ∷ s), positive)))
      ∙ ap (λ t. some (written t)) (take-drop_all k (c ∷ s)))

-- No call fails, and each `write` takes a byte at least.
pub record AreSound (sock : Socket) (sink : Sink) : Type 0 where
  pub reads : (m : ℕ) → sock.fails m ≡ false
  pub writes : (m : ℕ) → sink.fails m ≡ false
  pub moves : (m : ℕ) → 0 < sink.accepts m

tcp_read_exact :
    (sock : Socket) (fuel : ℕ) (s : Bytes)
    → ((m : ℕ) → sock.fails m ≡ false)
    → length s ≤ fuel
    → (rest : Bytes) × (tcp_read sock fuel 0 (length s) s ≡ some (bytes_read s rest))
tcp_read_exact sock fuel s sound enough = (
  drop (length s) s,
  tcp_read-take sock fuel 0 (length s) s sound enough
      ∙ ap (λ t. some (bytes_read t (drop (length s) s))) (take_exact s),
)

exchange_server :
    (sock : Socket) (sink : Sink) (fuel : ℕ) (mine theirs : Bytes)
    → AreSound sock sink
    → length mine ≡ length theirs
    → length theirs ≤ fuel
    → tcp_exchange sock sink fuel true mine (length theirs) theirs
      ≡ some (record { rc = 0; incoming = theirs; sent = mine })
unfolding tcp_exchange
exchange_server sock sink fuel mine theirs sound same enough =
    let (rest, read) = tcp_read_exact sock fuel theirs sound.reads enough in
    ap (server_read (tcp_write sink fuel 0 mine) (length theirs)) read
    ∙ ap
        (λ o.
          if o
          then server_wrote theirs (tcp_write sink fuel 0 mine)
          else some (record { rc = 1; incoming = theirs; sent = [] }))
        (==_refl (length theirs))
    ∙ ap (server_wrote theirs)
        (tcp_write-written sink fuel 0 mine sound.writes sound.moves (omega (arith, same, enough)))

exchange_client :
    (sock : Socket) (sink : Sink) (fuel : ℕ) (mine theirs : Bytes)
    → AreSound sock sink
    → length mine ≡ length theirs
    → length theirs ≤ fuel
    → tcp_exchange sock sink fuel false mine (length theirs) theirs
      ≡ some (record { rc = 0; incoming = theirs; sent = mine })
unfolding tcp_exchange
exchange_client sock sink fuel mine theirs sound same enough =
    let (rest, read) = tcp_read_exact sock fuel theirs sound.reads enough in
    ap (client_wrote (tcp_read sock fuel 0 (length theirs) theirs) (length theirs))
      (tcp_write-written sink fuel 0 mine sound.writes sound.moves (omega (arith, same, enough)))
    ∙ ap (client_read mine (length theirs)) read
    ∙ ap (λ o. some (record { rc = if o then 0 else 1; incoming = theirs; sent = mine }))
        (==_refl (length theirs))

-- Where no call fails and each `write` takes a byte at least, a server and a client that exchange
-- messages of one length each send their own and receive the other's, in whatever pieces these come;
-- as many rounds as bytes are enough.
pub exchanged :
    (server client : Socket) (server_out client_out : Sink) (fuel : ℕ) (a b : Bytes)
    → AreSound server server_out
    → AreSound client client_out
    → length a ≡ length b
    → length a ≤ fuel
    → (tcp_exchange server server_out fuel true b (length a) a
        ≡ some (record { rc = 0; incoming = a; sent = b }))
      × (tcp_exchange client client_out fuel false a (length a) b
          ≡ some (record { rc = 0; incoming = b; sent = a }))
exchanged server client server_out client_out fuel a b s c same enough = (
  exchange_server server server_out fuel b a s (sym same) enough,
  ap (λ n. tcp_exchange client client_out fuel false a n b) same
      ∙ exchange_client client client_out fuel a b c same (omega (arith, same, enough)),
)
