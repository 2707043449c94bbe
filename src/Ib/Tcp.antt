-- ===== src/Ib/Tcp.antt =====
-- nnti/nnti_ib.cpp: `tcp_read`, which reads a message of a given length from a socket.
use nnti.Base.{
  ℕ, zero, suc, ◌+◌, ◌-◌, ◌≤◌, ◌≡◌, ◌∙◌, refl, sym, ap, subst, ==-false→ne, Bool, true, false,
  Option, none, some, [], ◌∷◌, ◌++◌, ◌==◌, leb, if◌then◌else◌, length, arith, Bool-cases, inl, inr,
}
use nnti.Url.{Bytes, take}

-- A socket: whether the n-th `read` fails, and how many bytes more than one it gives, at most, if that
-- many are asked for and there.
pub record Socket : Type 0 where
  pub fails : ℕ → Bool
  pub more : ℕ → ℕ

abbrev pub drop : ℕ → Bytes → Bytes
drop zero s = s
drop (suc n) [] = []
drop (suc n) (c ∷ s) = drop n s

abbrev pub min : ℕ → ℕ → ℕ
min a b = if leb a b then a else b

-- How many bytes the n-th `read` of `left` bytes gives where `stream` is still to come: 0 at its end.
abbrev pub given : Socket → ℕ → ℕ → Bytes → ℕ
given sock n left stream = min (suc (sock.more n)) (min left (length stream))

-- What `tcp_read` returns: the result of a `read` that failed, or the number of bytes in the
-- buffer; with what is in the buffer, and what is still to come.
pub data ReadResult : Type 0 where
  read_failed : ReadResult
  bytes_read : Bytes → Bytes → ReadResult

abbrev pub onto_buffer : Bytes → Option ReadResult → Option ReadResult
onto_buffer buf none = none
onto_buffer buf (some read_failed) = some read_failed
onto_buffer buf (some (bytes_read incoming rest)) = some (bytes_read (buf ++ incoming) rest)

-- The loop of `tcp_read`, from the n-th `read` on, with `left` bytes to be read, in at most `fuel`
-- rounds. A length is below 2^31.
unfoldable pub tcp_read : Socket → ℕ → ℕ → ℕ → Bytes → Option ReadResult
tcp_read sock fuel n zero stream = some (bytes_read [] stream)
tcp_read sock zero n (suc left) stream = none
tcp_read sock (suc fuel) n (suc left) stream =
    let k : ℕ = given sock n (suc left) stream in
    let rest : Option ReadResult = tcp_read sock fuel (suc n) (suc left - k) (drop k stream) in
    if sock.fails n
    then some read_failed
    else if k == 0
    then some (bytes_read [] stream)
    else onto_buffer (take k stream) rest

succ_add : (k m : ℕ) → suc (k + m) ≡ suc k + m
succ_add k m = omega arith

take_nil : (n : ℕ) → take n [] ≡ []
take_nil zero = refl
take_nil (suc n) = refl

drop_nil : (n : ℕ) → drop n [] ≡ []
drop_nil zero = refl
drop_nil (suc n) = refl

take-drop : (k m : ℕ) (s : Bytes) → take k s ++ take m (drop k s) ≡ take (k + m) s
take-drop zero m s = ap (λ i. take i s) (omega arith)
take-drop (suc k) m [] = take_nil m ∙ sym (take_nil (suc k + m))
take-drop (suc k) m (c ∷ s) = ap (◌∷◌ c) (take-drop k m s) ∙ ap (λ i. take i (c ∷ s)) (succ_add k m)

drop-drop : (k m : ℕ) (s : Bytes) → drop m (drop k s) ≡ drop (k + m) s
drop-drop zero m s = ap (λ i. drop i s) (omega arith)
drop-drop (suc k) m [] = drop_nil m ∙ sym (drop_nil (suc k + m))
drop-drop (suc k) m (x ∷ s) = drop-drop k m s ∙ ap (λ i. drop i (x ∷ s)) (succ_add k m)

given_zero :
    (sock : Socket) (n left : ℕ) (s : Bytes) → (given sock n (suc left) s == 0) ≡ true → s ≡ []
given_zero sock n left [] h = refl
given_zero sock n left (c ∷ s) h = absurd (ground arith)

given_bounds : (sock : Socket) (n left : ℕ) (s : Bytes) → given sock n (suc left) s ≤ suc left
given_bounds sock n left s = ground arith

-- Where no `read` fails, `tcp_read` reads the first `left` bytes that come, or all where fewer do, and
-- leaves the others, in whatever pieces they come; as many rounds as bytes are enough.
pub tcp_read-take :
    (sock : Socket) (fuel n left : ℕ) (stream : Bytes)
    → ((m : ℕ) → sock.fails m ≡ false)
    → left ≤ fuel
    → tcp_read sock fuel n left stream ≡ some (bytes_read (take left stream) (drop left stream))
unfolding tcp_read
tcp_read-take sock fuel n zero stream sound enough = refl
tcp_read-take sock zero n (suc left) stream sound enough = absurd (omega arith)
tcp_read-take sock (suc fuel) n (suc left) stream sound enough =
    let k : ℕ = given sock n (suc left) stream in
    let all : k + (suc left - k) ≡ suc left = omega (arith, given_bounds sock n left stream) in
    elim (Bool-cases (k == 0)) [
      | inl e ↦ rw (sound n) (
          rw e (
            subst
              (λ t.
                some (bytes_read [] t) ≡ some (bytes_read (take (suc left) t) (drop (suc left) t)))
              (sym (given_zero sock n left stream e)) refl))
      | inr e ↦ rw (sound n) (
          rw e (
            ap (onto_buffer (take k stream)) (
              tcp_read-take sock fuel (suc n) (suc left - k) (drop k stream) sound
                (omega (arith, ==-false→ne k 0 e)))
            ∙ ap (λ x. some (bytes_read x (drop (suc left - k) (drop k stream))))
                (take-drop k (suc left - k) stream ∙ ap (λ i. take i stream) all)
            ∙ ap (λ y. some (bytes_read (take (suc left) stream) y))
                (drop-drop k (suc left - k) stream ∙ ap (λ i. drop i stream) all)))
    ]
