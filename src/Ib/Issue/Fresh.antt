-- ===== src/Ib/Issue/Fresh.antt =====
-- The keys in `wrmap` of nnti/nnti_ib.cpp: a new one is not there yet.
use nnti.Base.{
  ℕ, zero, suc, ◌+◌, ◌≤◌, ◌<◌, ◌≡◌, ◌∙◌, refl, false, none, some, List, [], ◌∷◌, ◌==◌, Bool-cases,
  inl, inr, ==_refl, arith,
}
use nnti.Ib.Issue.{IbState, lookup_wr, erase_wr, insert_wr, insert_wrs}

-- Every key is below `c`.
unfoldable pub Below : ℕ → List (ℕ × ℕ) → Type 0
Below c [] = 0 ≤ c
Below c ((j, p) ∷ m) = (j < c) × Below c m

abbrev pub IsFresh : IbState → Type 0
IsFresh s = Below s.counter s.wrmap

pub Below-mono : (c d : ℕ) (m : List (ℕ × ℕ)) → c ≤ d → Below c m → Below d m
unfolding Below
Below-mono c d [] le h = omega arith
Below-mono c d ((j, p) ∷ m) le (lt, h) = (omega arith, Below-mono c d m le h)

pub Below-erase_wr : (c k : ℕ) (m : List (ℕ × ℕ)) → Below c m → Below c (erase_wr k m)
unfolding Below
Below-erase_wr c k [] h = h
Below-erase_wr c k ((j, p) ∷ m) (lt, h) = elim (Bool-cases (j == k)) [
  | inl e ↦ rw e h
  | inr e ↦ rw e (lt, Below-erase_wr c k m h)
]

lookup_wr-none : (c k : ℕ) (m : List (ℕ × ℕ)) → c ≤ k → Below c m → lookup_wr k m ≡ none
unfolding Below
lookup_wr-none c k [] le h = refl
lookup_wr-none c k ((j, p) ∷ m) le (lt, h) =
    let e : (j == k) ≡ false = ground arith in rw e (lookup_wr-none c k m le h)

-- A key that is not below the others can be inserted.
pub insert_wr-some : (k p : ℕ) (m : List (ℕ × ℕ)) → Below k m → insert_wr k p m ≡ some ((k, p) ∷ m)
unfolding insert_wr
insert_wr-some k p m h = rw (insert_wr, lookup_wr-none k k m (omega arith) h) refl

-- What the insertions make of the map.
pub record Inserted (n k p : ℕ) (m m' : List (ℕ × ℕ)) : Type 0 where
  pub below : Below (k + n) m'
  pub new : (i : ℕ) → i < n → lookup_wr (k + i) m' ≡ some p
  pub old : (j : ℕ) → j < k → lookup_wr j m' ≡ lookup_wr j m

new-step :
    (n k p : ℕ) (m m' : List (ℕ × ℕ))
    → Inserted n (suc k) p ((k, p) ∷ m) m'
    → (i : ℕ) → i < suc n
    → lookup_wr (k + i) m' ≡ some p
new-step n k p m m' step zero lt =
    let e : k + 0 ≡ k = omega arith in rw e (step.old k (omega arith) ∙ rw (==_refl k) refl)
new-step n k p m m' step (suc i) lt =
    let e : k + suc i ≡ suc k + i = omega arith in rw e (step.new i (omega arith))

pub insert_wrs-Inserted :
    (n k p : ℕ) (m : List (ℕ × ℕ))
    → Below k m
    → (m' : List (ℕ × ℕ)) × (insert_wrs n k p m ≡ some m') × Inserted n k p m m'
unfolding insert_wrs Below
insert_wrs-Inserted zero k p m h = (
  m,
  refl,
  record {
    below = Below-mono k (k + 0) m (omega arith) h;
    new = λ i lt. absurd (omega arith);
    old = λ j lt. refl;
  },
)
insert_wrs-Inserted (suc n) k p m h =
    let (m', run, step) =
      insert_wrs-Inserted n (suc k) p ((k, p) ∷ m)
        (omega arith, Below-mono k (suc k) m (omega arith) h) in
    (
      m',
      rw (insert_wr-some k p m h) run,
      record {
        below = Below-mono (suc k + n) (k + suc n) m' (omega arith) step.below;
        new = new-step n k p m m' step;
        old = λ j lt.
            let ne : (k == j) ≡ false = ground arith in step.old j (omega arith) ∙ rw ne refl;
      },
    )
