-- ===== src/Base/Slices.antt =====
-- The first and the last elements of lists measured by native numbers, and ranges of numbers.
use Prim.Native.Nat.{ℕ, zero, suc, ◌+◌, ◌-◌, ◌≤◌, ◌<◌}
use mathlib.Core.Path.{◌≡◌, refl, ap, sym}
use mathlib.Core.Logic.{◌⊎◌, inl, inr}
use mathlib.Core.List.{List, [], ◌∷◌, ◌++◌}
use native.Mathlib.Omega.{arith}
use nnti.Base.Lists.{length}

module _ {ℓ} {A : Type ℓ} where
  abbrev pub take : ℕ → List A → List A
  take zero xs = []
  take (suc n) [] = []
  take (suc n) (x ∷ xs) = x ∷ take n xs

  abbrev pub drop : ℕ → List A → List A
  drop zero xs = xs
  drop (suc n) [] = []
  drop (suc n) (x ∷ xs) = drop n xs

  -- The element at an index, or `d` past the end.
  abbrev pub get_or : A → List A → ℕ → A
  get_or d [] i = d
  get_or d (x ∷ xs) zero = x
  get_or d (x ∷ xs) (suc i) = get_or d xs i

  pub drop-cons :
      (d : A) (i : ℕ) (xs : List A)
      → (drop i xs ≡ []) × (length xs ≤ i)
        ⊎ (drop i xs ≡ get_or d xs i ∷ drop (suc i) xs) × (i < length xs)
  drop-cons d zero [] = inl (refl, omega arith)
  drop-cons d (suc i) [] = inl (refl, omega arith)
  drop-cons d zero (x ∷ xs) = inr (refl, omega arith)
  drop-cons d (suc i) (x ∷ xs) = elim (drop-cons d i xs) [
    | inl (e, h) ↦ inl (e, omega arith)
    | inr (e, h) ↦ inr (e, omega arith)
  ]

  pub drop-past : (i : ℕ) (xs : List A) → length xs ≤ i → drop i xs ≡ []
  drop-past zero [] h = refl
  drop-past (suc i) [] h = refl
  drop-past zero (x ∷ xs) h = absurd (omega arith)
  drop-past (suc i) (x ∷ xs) h = drop-past i xs (omega arith)

  pub length-take : (i : ℕ) (xs : List A) → i ≤ length xs → length (take i xs) ≡ i
  length-take zero xs h = refl
  length-take (suc i) [] h = absurd (omega arith)
  length-take (suc i) (x ∷ xs) h = ap suc (length-take i xs (omega arith))

  pub get_or-take : (d : A) (n i : ℕ) (xs : List A) → i < n → get_or d (take n xs) i ≡ get_or d xs i
  get_or-take d zero i xs h = absurd (omega arith)
  get_or-take d (suc n) i [] h = refl
  get_or-take d (suc n) zero (x ∷ xs) h = refl
  get_or-take d (suc n) (suc i) (x ∷ xs) h = get_or-take d n i xs (omega arith)

  pub take-append :
      (n m : ℕ) (xs ys : List A) → length xs ≡ n → take (n + m) (xs ++ ys) ≡ xs ++ take m ys
  take-append n m [] ys h = let e : n + m ≡ m = omega arith in rw e refl
  take-append n m (x ∷ xs) ys h =
      let e : n + m ≡ suc (length xs + m) = omega arith in
      rw e (ap (◌∷◌ x) (take-append (length xs) m xs ys refl))

  pub drop-append : (n m : ℕ) (xs ys : List A) → length xs ≡ n → drop (n + m) (xs ++ ys) ≡ drop m ys
  drop-append n m [] ys h = let e : n + m ≡ m = omega arith in rw e refl
  drop-append n m (x ∷ xs) ys h =
      let e : n + m ≡ suc (length xs + m) = omega arith in
      rw e (drop-append (length xs) m xs ys refl)

  pub take_nil : (n : ℕ) → take n [] ≡ []
  take_nil zero = refl
  take_nil (suc n) = refl

  pub length-drop : (i : ℕ) (xs : List A) → length (drop i xs) ≡ length xs - i
  length-drop zero xs = omega arith
  length-drop (suc i) [] = omega arith
  length-drop (suc i) (x ∷ xs) = omega (arith, length-drop i xs)

  pub take_all : (xs : List A) (n : ℕ) → n ≡ length xs → take n xs ≡ xs
  take_all [] zero h = refl
  take_all [] (suc n) h = refl
  take_all (x ∷ xs) zero h = absurd (omega arith)
  take_all (x ∷ xs) (suc n) h = ap (◌∷◌ x) (take_all xs n (omega arith))

  pub drop-take : (i n : ℕ) (xs : List A) → drop i (take n xs) ≡ take (n - i) (drop i xs)
  drop-take zero n xs = let e : n - 0 ≡ n = omega arith in rw e refl
  drop-take (suc i) zero xs = let e : 0 - suc i ≡ 0 = omega arith in rw e refl
  drop-take (suc i) (suc n) [] =
      let e : suc n - suc i ≡ n - i = omega arith in rw e (sym (take_nil (n - i)))
  drop-take (suc i) (suc n) (x ∷ xs) =
      let e : suc n - suc i ≡ n - i = omega arith in rw e (drop-take i n xs)

-- The numbers `a`, `a + 1`, … below `a + n`.
abbrev pub range : ℕ → ℕ → List ℕ
range a zero = []
range a (suc n) = a ∷ range (suc a) n

pub length-range : (a n : ℕ) → length (range a n) ≡ n
length-range a zero = refl
length-range a (suc n) = ap suc (length-range (suc a) n)

pub range_add : (a n m : ℕ) → range a (n + m) ≡ range a n ++ range (a + n) m
range_add a zero m =
    let e : a + 0 ≡ a = omega arith in let f : 0 + m ≡ m = omega arith in rw e (rw f refl)
range_add a (suc n) m =
    let f : suc n + m ≡ suc (n + m) = omega arith in
    let e : a + suc n ≡ suc a + n = omega arith in rw f (rw e (ap (◌∷◌ a) (range_add (suc a) n m)))
