-- ===== src/Url/Parts.antt =====
-- The parts of a URL are found where it has them, and never overrun the caller's buffer.
use nnti.Base.{
  ℕ, zero, suc, ◌+◌, ◌^◌, ◌≤◌, ◌<◌, ◌≡◌, ◌∙◌, ap, refl, true, false, Option, none, some, [], ◌∷◌,
  ◌++◌, ◌==◌, ltb, length, mem, arith, ==_refl, Bool-cases, inl, inr,
}
use nnti.Url.{
  Bytes, Parsed, invalid, overrun, part, take, int_length, copy_out, sep, after_sep, onto,
  split_sep, split_char, here_or_later, transport_of, address_of, after_char, url_get_transport,
  url_get_address, url_get_memdesc, url_get_params, up_to_slash, address_out, optional_out,
}

pub split_char-append :
    (d : ℕ) (s rest : Bytes) → mem d s ≡ false → split_char d (s ++ (d ∷ rest)) ≡ some (s, rest)
unfolding split_char
split_char-append d [] rest h = rw (==_refl d) refl
split_char-append d (c ∷ s) rest h = ground (arith, split_char-append d s rest)

pub split_char_absent : (d : ℕ) (s : Bytes) → mem d s ≡ false → split_char d s ≡ none
unfolding split_char
split_char_absent d [] h = refl
split_char_absent d (c ∷ s) h = ground (arith, split_char_absent d s)

after_sep-none : (c : ℕ) (t : Bytes) → (c == b':') ≡ false → after_sep (c ∷ t) ≡ none
after_sep-none c [] h = refl
after_sep-none c (d ∷ []) h = refl
after_sep-none c (d ∷ e ∷ t) h = rw h refl

pub split_sep-append :
    (s rest : Bytes) → mem b':' s ≡ false → split_sep (s ++ (sep ++ rest)) ≡ some (s, rest)
unfolding split_sep
split_sep-append [] rest h = refl
split_sep-append (c ∷ s) rest h =
    ap (λ o. here_or_later o (onto c (split_sep (s ++ (sep ++ rest)))))
      (after_sep-none c (s ++ (sep ++ rest)) (ground arith))
    ∙ ap (onto c) (split_sep-append s rest (ground arith))

length-take : (n : ℕ) (s : Bytes) → length (take n s) < suc n
length-take zero s = omega arith
length-take (suc n) [] = omega arith
length-take (suc n) (c ∷ s) = omega (arith, length-take n s)

pub take_all : (n : ℕ) (s : Bytes) → length s ≤ n → take n s ≡ s
take_all zero [] h = refl
take_all zero (c ∷ s) h = absurd (omega arith)
take_all (suc n) [] h = refl
take_all (suc n) (c ∷ s) h = ap (◌∷◌ c) (take_all n s (omega arith))

int_length_lem : (s : Bytes) → length s < 2 ^ 31 → int_length s ≡ length s
int_length_lem s h = omega arith

copy_out-fits : (s : Bytes) (n : ℕ) → n ≤ 2 ^ 31 → ltb (length s) n ≡ true → copy_out s n ≡ part s
unfolding copy_out
copy_out-fits s zero small h = ground arith
copy_out-fits s (suc n) small h = ground (arith, take_all (int_length s) s)

address_out_lem :
    (a : Bytes) (n : ℕ)
    → n ≤ 2 ^ 31
    → ltb 0 (length a) ≡ true
    → ltb (length a) n ≡ true
    → address_out a n ≡ copy_out a n
address_out_lem a n small h k = ground arith

optional_out_lem :
    (a m : Bytes) (n : ℕ)
    → n ≤ 2 ^ 31
    → ltb (length m) n ≡ true
    → optional_out (some (a, m)) n ≡ part m
optional_out_lem a m zero small h = ground arith
optional_out_lem a [] (suc n) small h = refl
optional_out_lem a (c ∷ m) (suc n) small h = ground (arith, copy_out-fits (c ∷ m) (suc n) small h)

-- A URL "t://a/m", whose transport has no colon and whose address is not empty and has no slash, is
-- taken apart into t, a and m, where each is shorter than the caller's buffer, whose size is an `int`.
pub url_parts :
    (t a m : Bytes) (n : ℕ)
    → n ≤ 2 ^ 31
    → mem b':' t ≡ false
    → mem b'/' a ≡ false
    → ltb 0 (length a) ≡ true
    → ltb (length t) n ≡ true
    → ltb (length a) n ≡ true
    → ltb (length m) n ≡ true
    → let url : Bytes = t ++ (sep ++ (a ++ (b'/' ∷ m))) in
      (url_get_transport url n ≡ part t)
      × (url_get_address url n ≡ part a)
      × (url_get_memdesc url n ≡ part m)
unfolding url_get_transport url_get_address url_get_memdesc
url_parts t a m n small ht ha ne lt la lm =
    let s : split_sep (t ++ (sep ++ (a ++ (b'/' ∷ m)))) ≡ some (t, a ++ (b'/' ∷ m)) =
      split_sep-append t (a ++ (b'/' ∷ m)) ht in
    let c : split_char b'/' (a ++ (b'/' ∷ m)) ≡ some (a, m) = split_char-append b'/' a m ha in
    (
      ap (λ o. transport_of o n) s ∙ copy_out-fits t n small lt,
      ap (λ o. address_of o n) s
          ∙ ap (λ o. address_out (up_to_slash (a ++ (b'/' ∷ m)) o) n) c
          ∙ address_out_lem a n small ne la
          ∙ copy_out-fits a n small la,
      ap (λ o. after_char b'/' o n) s
          ∙ ap (λ o. optional_out o n) c
          ∙ optional_out_lem a m n small lm,
    )

-- What a caller's buffer of `n` bytes can take, the NUL included.
abbrev pub Fits : ℕ → Parsed → Type 0
Fits n invalid = Unit {0}
Fits n overrun = ⊥
Fits n (part s) = length s < n

-- How long the two parts of a string are.
abbrev size_of : Option (Bytes × Bytes) → ℕ
size_of none = 0
size_of (some (before, after)) = length before + length after

size_of-onto : (c : ℕ) (o : Option (Bytes × Bytes)) → size_of (onto c o) ≤ suc (size_of o)
size_of-onto c none = omega arith
size_of-onto c (some (a, b)) = omega arith

length-after_sep :
    (s : Bytes) (o : Option (Bytes × Bytes)) (n : ℕ)
    → length s ≤ n
    → size_of o ≤ n
    → size_of (here_or_later (after_sep s) o) ≤ n
length-after_sep [] o n h k = k
length-after_sep (c ∷ []) o n h k = k
length-after_sep (c ∷ d ∷ []) o n h k = k
length-after_sep (c ∷ d ∷ e ∷ s) o n h k = ground arith

size_of-split_sep : (s : Bytes) → size_of (split_sep s) ≤ length s
unfolding split_sep
size_of-split_sep [] = omega arith
size_of-split_sep (c ∷ s) =
    length-after_sep (c ∷ s) (onto c (split_sep s)) (suc (length s)) (omega arith)
      (omega (arith, size_of-onto c (split_sep s), size_of-split_sep s))

size_of-split_char : (d : ℕ) (s : Bytes) → size_of (split_char d s) ≤ length s
unfolding split_char
size_of-split_char d [] = omega arith
size_of-split_char d (c ∷ s) =
    ground (arith, size_of-onto c (split_char d s), size_of-split_char d s)

copy_out-Fits : (s : Bytes) (n : ℕ) → length s < 2 ^ 31 → Fits (suc n) (copy_out s (suc n))
unfolding copy_out
copy_out-Fits s n h = ground (arith, length-take n s, length-take (int_length s) s)

optional_out-Fits :
    (o : Option (Bytes × Bytes)) (n : ℕ)
    → size_of o < 2 ^ 31
    → Fits (suc n) (optional_out o (suc n))
optional_out-Fits none n h = omega arith
optional_out-Fits (some (a, m)) n h = ground (arith, copy_out-Fits m n (omega arith))

address_out-Fits : (a : Bytes) (n : ℕ) → length a < 2 ^ 31 → Fits (suc n) (address_out a (suc n))
address_out-Fits a n h = elim (Bool-cases (int_length a == 0)) [
  | inl e ↦ rw e tt
  | inr e ↦ rw e (copy_out-Fits a n h)
]

transport_of-Fits :
    (o : Option (Bytes × Bytes)) (n : ℕ)
    → size_of o < 2 ^ 31
    → Fits (suc n) (transport_of o (suc n))
transport_of-Fits none n h = tt
transport_of-Fits (some (t, rest)) n h = copy_out-Fits t n (omega arith)

length-up_to_slash :
    (rest : Bytes) (o : Option (Bytes × Bytes)) (k : ℕ)
    → length rest < k
    → size_of o < k
    → length (up_to_slash rest o) < k
length-up_to_slash rest none k h g = h
length-up_to_slash rest (some (a, b)) k h g = omega arith

address_of-Fits :
    (o : Option (Bytes × Bytes)) (n : ℕ) → size_of o < 2 ^ 31 → Fits (suc n) (address_of o (suc n))
address_of-Fits none n h = tt
address_of-Fits (some (t, rest)) n h =
    address_out-Fits (up_to_slash rest (split_char b'/' rest)) n (
      length-up_to_slash rest (split_char b'/' rest) (2 ^ 31) (omega arith)
        (omega (arith, size_of-split_char b'/' rest)))

after_char-Fits :
    (d : ℕ) (o : Option (Bytes × Bytes)) (n : ℕ)
    → size_of o < 2 ^ 31
    → Fits (suc n) (after_char d o (suc n))
after_char-Fits d none n h = tt
after_char-Fits d (some (t, rest)) n h =
    optional_out-Fits (split_char d rest) n (omega (arith, size_of-split_char d rest))

-- For every URL of less than 2^31 bytes and every buffer of at least one byte, what the four
-- functions write fits the buffer, with its NUL.
pub url_get-Fits :
    (url : Bytes) (n : ℕ)
    → length url < 2 ^ 31
    → Fits (suc n) (url_get_transport url (suc n))
      × Fits (suc n) (url_get_address url (suc n))
      × Fits (suc n) (url_get_memdesc url (suc n))
      × Fits (suc n) (url_get_params url (suc n))
unfolding url_get_transport url_get_address url_get_memdesc url_get_params
url_get-Fits url n h =
    let small : size_of (split_sep url) < 2 ^ 31 = omega (arith, size_of-split_sep url) in
    (
      transport_of-Fits (split_sep url) n small,
      address_of-Fits (split_sep url) n small,
      after_char-Fits b'/' (split_sep url) n small,
      after_char-Fits b'?' (split_sep url) n small,
    )
