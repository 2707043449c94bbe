-- ===== src/Base/Counts.antt =====
-- How often an address stands in a sequence.
use Prim.Native.Nat.{ℕ, suc, ◌+◌, ◌-◌}
use mathlib.Core.Path.{◌≡◌, refl}
use mathlib.Core.Logic.{◌≢◌}
use mathlib.Core.Bool.{true, false}
use mathlib.Core.List.{List, [], ◌∷◌, ◌++◌}
use native.Mathlib.Omega.{arith}
use nnti.Base.Tests.{◌==◌, if◌then◌else◌}
use nnti.Base.Lists.{length}
use nnti.Base.Maps.{mem, erase, count}

pub count-append : (a b : ℕ) (l : List ℕ) → count a (l ++ (b ∷ [])) ≡ count a l + count a (b ∷ [])
count-append a b [] = ground arith
count-append a b (x ∷ l) = ground (arith, count-append a b l)

pub count_of_mem : (a : ℕ) (l : List ℕ) → mem a l ≡ false → count a l ≡ 0
count_of_mem a [] h = refl
count_of_mem a (x ∷ l) h = ground (arith, count_of_mem a l)

pub mem_of_count : (a : ℕ) (l : List ℕ) → count a l ≡ 0 → mem a l ≡ false
mem_of_count a [] h = refl
mem_of_count a (x ∷ l) h = ground (arith, mem_of_count a l)

pub mem-append : (a b : ℕ) (l : List ℕ) → mem a (l ++ (b ∷ [])) ≡ (if mem a l then true else b == a)
mem-append a b [] = ground arith
mem-append a b (x ∷ l) = ground (arith, mem-append a b l)

pub count-erase :
    (a b : ℕ) (l : List ℕ) → count a (erase b l) ≡ (if b == a then count a l - 1 else count a l)
count-erase a b [] = ground arith
count-erase a b (x ∷ l) = ground (arith, count-erase a b l)

pub mem-erase : (a b : ℕ) (l : List ℕ) → a ≢ b → mem a (erase b l) ≡ mem a l
mem-erase a b [] h = refl
mem-erase a b (x ∷ l) h = ground (arith, mem-erase a b l)

pub length-erase : (a : ℕ) (xs : List ℕ) → mem a xs ≡ true → length xs ≡ suc (length (erase a xs))
length-erase a [] h = ground arith
length-erase a (x ∷ xs) h = ground (arith, length-erase a xs)
