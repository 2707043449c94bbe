-- ===== src/Url/Numbers.antt =====
-- What the transports use of the C library's numbers in text: `%u` of `printf`, and `strtol` with the
-- base 0.
use nnti.Base.{
  ℕ, zero, suc, ◌+◌, ◌-◌, ◌*◌, ◌/◌, ◌%◌, ◌^◌, ◌≤◌, ◌<◌, ◌≡◌, ◌∙◌, ap, refl, sym, Bool, false, ◌&&◌,
  ◌||◌, [], ◌∷◌, ◌==◌, leb, ltb, if◌then◌else◌, length, mem, arith, Bool-cases, inl, inr,
}
use nnti.Url.{Bytes}

-- The decimal digits of `n` before `rest`, at most as many as the fuel.
unfoldable pub decimal_onto : ℕ → ℕ → Bytes → Bytes
decimal_onto zero n rest = rest
decimal_onto (suc fuel) n rest =
    let more = decimal_onto fuel (n / 10) ((b'0' + n % 10) ∷ rest) in
    if ltb n 10 then (b'0' + n) ∷ rest else more

-- `%u`: an `unsigned int` has ten digits at most.
unfoldable pub decimal : ℕ → Bytes
decimal n = decimal_onto 10 n []

-- The value of a digit in a base up to 36; 36 for any other character.
unfoldable pub digit : ℕ → ℕ
digit c =
    if leb b'0' c && leb c b'9'
    then c - b'0'
    else if leb b'a' c && leb c b'z'
    then c - b'a' + 10
    else if leb b'A' c && leb c b'Z'
    then c - b'A' + 10
    else 36

-- The number that the digits at the front of a string make, after `acc`.
unfoldable pub digits_value : ℕ → ℕ → Bytes → ℕ
digits_value base acc [] = acc
digits_value base acc (c ∷ s) =
    let rest = digits_value base (acc * base + digit c) s in
    if ltb (digit c) base then rest else acc

abbrev pub is_space : ℕ → Bool
is_space c = c == b' ' || (leb 9 c && leb c 13)

unfoldable pub skip_spaces : Bytes → Bytes
skip_spaces [] = []
skip_spaces (c ∷ s) = let rest = skip_spaces s in if is_space c then rest else c ∷ s

-- After a first 0: hexadecimal or octal.
abbrev pub after_zero : Bytes → ℕ
after_zero [] = 0
after_zero (c ∷ s) =
    if c == b'x' || c == b'X' then digits_value 16 0 s else digits_value 8 0 (c ∷ s)

abbrev pub magnitude : Bytes → ℕ
magnitude [] = 0
magnitude (c ∷ s) = if c == b'0' then after_zero s else digits_value 10 0 (c ∷ s)

abbrev pub long_max : ℕ
long_max = 2 ^ 63 - 1

-- A `long` as its bit pattern, from its sign and magnitude; one out of range is cut off.
abbrev pub negative_long : ℕ → ℕ
negative_long m = (2 ^ 64 - (if leb m (2 ^ 63) then m else 2 ^ 63)) % 2 ^ 64

abbrev pub positive_long : ℕ → ℕ
positive_long m = if leb m long_max then m else long_max

abbrev pub signed_long : Bytes → ℕ
signed_long [] = 0
signed_long (c ∷ s) =
    if c == b'-'
    then negative_long (magnitude s)
    else positive_long (if c == b'+' then magnitude s else magnitude (c ∷ s))

-- `strtol(s, NULL, 0)`
unfoldable pub strtol : Bytes → ℕ
strtol s = signed_long (skip_spaces s)

-- What `fuel` digits can write.
abbrev pub bound : ℕ → ℕ
bound zero = 1
bound (suc fuel) = 10 * bound fuel

digit_lem : (n : ℕ) → n < 10 → digit (b'0' + n) ≡ n
unfolding digit
digit_lem n h = ground arith

digits_value-cons :
    (acc n : ℕ) (rest : Bytes)
    → n < 10
    → digits_value 10 acc ((b'0' + n) ∷ rest) ≡ digits_value 10 (acc * 10 + n) rest
unfolding digits_value
digits_value-cons acc n rest h = ground (arith, digit_lem n h)

pub digits_value-decimal_onto :
    (fuel n : ℕ) (rest : Bytes)
    → n < bound fuel
    → digits_value 10 0 (decimal_onto fuel n rest) ≡ digits_value 10 n rest
unfolding decimal_onto
digits_value-decimal_onto zero n rest h = ap (λ k. digits_value 10 k rest) (omega arith)
digits_value-decimal_onto (suc fuel) n rest h = elim (Bool-cases (ltb n 10)) [
  | inl e ↦
      rw e
        (digits_value-cons 0 n rest (ground arith) ∙ ap (λ k. digits_value 10 k rest) (omega arith))
  | inr e ↦ rw e (
      digits_value-decimal_onto fuel (n / 10) ((b'0' + n % 10) ∷ rest) (omega arith)
      ∙ digits_value-cons (n / 10) (n % 10) rest (omega arith)
      ∙ ap (λ k. digits_value 10 k rest) (omega arith))
]

-- A number other than 0 starts with a digit other than 0.
pub decimal_onto-head :
    (fuel n : ℕ) (rest : Bytes)
    → n < bound fuel
    → 0 < n
    → (c : ℕ) × (s : Bytes) × (decimal_onto fuel n rest ≡ c ∷ s) × (b'1' ≤ c) × (c ≤ b'9')
unfolding decimal_onto
decimal_onto-head zero n rest h k = absurd (omega arith)
decimal_onto-head (suc fuel) n rest h k = elim (Bool-cases (ltb n 10)) [
  | inl e ↦ (b'0' + n, rest, rw e refl, omega arith, ground arith)
  | inr e ↦
      let (c, s, start, lo, hi) =
        decimal_onto-head fuel (n / 10) ((b'0' + n % 10) ∷ rest) (omega arith) (ground arith) in
      (c, s, rw e start, lo, hi)
]

signed_long_digits :
    (c : ℕ) (s : Bytes)
    → b'1' ≤ c
    → c ≤ b'9'
    → signed_long (skip_spaces (c ∷ s)) ≡ positive_long (digits_value 10 0 (c ∷ s))
unfolding skip_spaces
signed_long_digits c s lo hi = ground arith

positive_long_lem : (n : ℕ) → n < 2 ^ 32 → positive_long n ≡ n
positive_long_lem n h = ground arith

strtol_zero : strtol (decimal 0) ≡ 0
unfolding strtol decimal decimal_onto digits_value digit skip_spaces
strtol_zero = refl

-- `strtol` reads the number that `%u` printed, where an `unsigned int` can be it.
pub strtol-decimal : (n : ℕ) → n < 2 ^ 32 → strtol (decimal n) ≡ n
unfolding strtol decimal digits_value
strtol-decimal n h = elim (Bool-cases (ltb 0 n)) [
  | inl e ↦
      let (c, s, start, lo, hi) = decimal_onto-head 10 n [] (omega arith) (ground arith) in
      ap (λ t. signed_long (skip_spaces t)) start
      ∙ signed_long_digits c s lo hi
      ∙ ap (λ t. positive_long (digits_value 10 0 t)) (sym start)
      ∙ ap positive_long (digits_value-decimal_onto 10 n [] (omega arith))
      ∙ positive_long_lem n h
  | inr e ↦ let z : n ≡ 0 = ground arith in ap (λ k. strtol (decimal k)) z ∙ strtol_zero ∙ sym z
]

pub length-decimal_onto :
    (fuel n : ℕ) (rest : Bytes) → length (decimal_onto fuel n rest) ≤ fuel + length rest
unfolding decimal_onto
length-decimal_onto zero n rest = omega arith
length-decimal_onto (suc fuel) n rest =
    ground (arith, length-decimal_onto fuel (n / 10) ((b'0' + n % 10) ∷ rest))

-- No character below the digits or above them is among them.
pub mem-decimal_onto :
    (a fuel n : ℕ) (rest : Bytes)
    → (leb b'0' a && leb a b'9') ≡ false
    → mem a rest ≡ false
    → mem a (decimal_onto fuel n rest) ≡ false
unfolding decimal_onto
mem-decimal_onto a zero n rest h k = k
mem-decimal_onto a (suc fuel) n rest h k =
    ground (arith, mem-decimal_onto a fuel (n / 10) ((b'0' + n % 10) ∷ rest))
