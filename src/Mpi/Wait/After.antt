-- ===== src/Mpi/Wait/After.antt =====
-- What holds after a computation that ends, and that the tests of completion change nothing.
use mathlib.Core.Option
use nnti.Base.{
  ℕ, ◌≡◌, refl, sym, subst, Bool, true, false, Option, none, some, Option-cases, inl, inr,
  if◌then◌else◌,
}
use nnti.Mpi.Machine.{Transport, M, pure, ◌>>=◌, assert_some, get_wr, get_nnti_wr}
use nnti.Mpi.Event.{is_wr_complete}
use nnti.Mpi.Wait.{is_user_wr_complete}

-- `Q` holds of the result and the state, if there is one.
abbrev pub After : {A : Type 0} → (A → Transport → Type 0) → Option (A × Transport) → Type 0
After Q none = Unit {0}
After Q (some (a, s)) = Q a s

pub >>=-After :
    {A B : Type 0} (Q : B → Transport → Type 0) (m : M A) (f : A → M B) (s : Transport)
    → ((a : A) (s' : Transport) → m s ≡ some (a, s') → After Q (f a s'))
    → After Q ((m >>= f) s)
>>=-After Q m f s k = elim (Option-cases (m s)) [
  | inl e ↦ rw (◌>>=◌, e) tt
  | inr ((a, s'), e) ↦ rw (◌>>=◌, e) (k a s' e)
]

-- The same in every state.
pub record Always {A : Type 0} (Q : A → Transport → Type 0) (m : M A) : Type 0 where
  pub at_state : (s : Transport) → After Q (m s)

pub >>=-Always :
    {A B : Type 0} (Q : B → Transport → Type 0) (m : M A) (f : A → M B)
    → ((a : A) → Always Q (f a))
    → Always Q (m >>= f)
>>=-Always Q m f h = record { at_state = λ s. >>=-After Q m f s (λ a t e. (h a).at_state t) }

pub if-Always :
    {A : Type 0} (Q : A → Transport → Type 0) (b : Bool) (m n : M A)
    → Always Q m
    → Always Q n
    → Always Q (if b then m else n)
if-Always Q true m n h k = h
if-Always Q false m n h k = k

pub pure-Always :
    {A : Type 0} (Q : A → Transport → Type 0) (a : A)
    → ((s : Transport) → Q a s)
    → Always Q (pure a)
pure-Always Q a h = record { at_state = h }

pub after_some :
    {A : Type 0} (Q : A → Transport → Type 0) (o : Option (A × Transport)) (a : A) (s : Transport)
    → After Q o
    → o ≡ some (a, s)
    → Q a s
after_some Q o a s h e = subst (After Q) e h

pub after_map :
    {A : Type 0} {P Q : A → Transport → Type 0} (o : Option (A × Transport))
    → ((a : A) (s : Transport) → P a s → Q a s)
    → After P o
    → After Q o
after_map none f h = tt
after_map (some (a, s)) f h = f a s h

-- A computation that changes nothing.
abbrev pub ReadOnly : {A : Type 0} → M A → Type 0
ReadOnly m = (s : Transport) → After (λ a s'. s' ≡ s) (m s)

map-ReadOnly :
    {A : Type 0} (o : Option A) (s : Transport)
    → After (λ a s'. s' ≡ s) (Option.map (λ a. (a, s)) o)
map-ReadOnly none s = tt
map-ReadOnly (some a) s = refl

get_wr-ReadOnly : (p : ℕ) → ReadOnly (get_wr p)
get_wr-ReadOnly p s = map-ReadOnly (s.wrs p) s

get_nnti_wr-ReadOnly : (wr : ℕ) → ReadOnly (get_nnti_wr wr)
get_nnti_wr-ReadOnly wr s = map-ReadOnly (s.nnti_wrs wr) s

assert_some-ReadOnly : {A : Type 0} (o : Option A) → ReadOnly (assert_some o)
assert_some-ReadOnly none s = tt
assert_some-ReadOnly (some a) s = refl

>>=-ReadOnly :
    {A B : Type 0} (m : M A) (f : A → M B)
    → ReadOnly m
    → ((a : A) → ReadOnly (f a))
    → ReadOnly (m >>= f)
>>=-ReadOnly m f r k s =
    >>=-After (λ b s'. s' ≡ s) m f s
      (λ a t e.
        subst (λ u. After (λ b s'. s' ≡ u) (f a t)) (after_some (λ a' s'. s' ≡ s) (m s) a t (r s) e)
          (k a t))

pub ReadOnly-same :
    {A : Type 0} (m : M A) (s t : Transport) (a : A) → ReadOnly m → m s ≡ some (a, t) → t ≡ s
ReadOnly-same m s t a r e = after_some (λ a' s'. s' ≡ s) (m s) a t (r s) e

-- What it finds, it finds again.
pub ReadOnly-again :
    {A : Type 0} (m : M A) (s t : Transport) (a : A)
    → ReadOnly m
    → m s ≡ some (a, t)
    → m t ≡ some (a, t)
ReadOnly-again m s t a r e = subst (λ u. m u ≡ some (a, t)) (sym (ReadOnly-same m s t a r e)) e

pub is_user_wr_complete-ReadOnly : (wr : ℕ) → ReadOnly (is_user_wr_complete wr)
unfolding is_user_wr_complete
is_user_wr_complete-ReadOnly wr =
    >>=-ReadOnly (get_nnti_wr wr)
      (λ user.
        assert_some user.transport_private >>= λ p. get_wr p >>= λ w. pure (is_wr_complete w))
      (get_nnti_wr-ReadOnly wr)
      (λ user.
        >>=-ReadOnly (assert_some user.transport_private)
          (λ p. get_wr p >>= λ w. pure (is_wr_complete w))
          (assert_some-ReadOnly user.transport_private)
          (λ p.
            >>=-ReadOnly (get_wr p) (λ w. pure (is_wr_complete w)) (get_wr-ReadOnly p)
              (λ w s. refl)))
