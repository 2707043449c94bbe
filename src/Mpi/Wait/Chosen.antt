-- ===== src/Mpi/Wait/Chosen.antt =====
-- `is_any_wr_complete` finds the first work request of its list that is complete.
use nnti.Base.{
  ℕ, zero, suc, ◌+◌, ◌<◌, ◌≡◌, ◌∙◌, refl, sym, subst, Bool, true, false, Option, none, some, List,
  [], ◌∷◌, get_elem?, if◌then◌else◌, arith,
}
use nnti.Mpi.Machine.{Transport, pure}
use nnti.Mpi.Wait.{is_user_wr_complete, is_any_wr_complete}
use nnti.Mpi.Wait.After.{
  After, >>=-After, after_map, ReadOnly-same, ReadOnly-again, is_user_wr_complete-ReadOnly,
}

-- The work request at index `k` of the list is complete in the state `s`, and no other before it is.
pub record Chosen (wrs : List (Option ℕ)) (s : Transport) (k : ℕ) : Type 0 where
  pub wr : ℕ
  pub at_k : get_elem? wrs k ≡ some (some wr)
  pub complete : is_user_wr_complete wr s ≡ some (true, s)
  pub earlier :
      (j v : ℕ)
      → j < k
      → get_elem? wrs j ≡ some (some v)
      → is_user_wr_complete v s ≡ some (false, s)

Chosen-here :
    (wr : ℕ) (wrs : List (Option ℕ)) (s : Transport)
    → is_user_wr_complete wr s ≡ some (true, s)
    → Chosen (some wr ∷ wrs) s 0
Chosen-here wr wrs s e = record {
  wr = wr;
  at_k = refl;
  complete = e;
  earlier = λ j v h e'. absurd (omega arith);
}

earlier-null :
    (wrs : List (Option ℕ)) (s : Transport) (k : ℕ)
    → Chosen wrs s k
    → (j v : ℕ) → j < suc k
    → get_elem? (none ∷ wrs) j ≡ some (some v)
    → is_user_wr_complete v s ≡ some (false, s)
earlier-null wrs s k c zero v h e = absurd (ground arith)
earlier-null wrs s k c (suc j) v h e = c.earlier j v (omega arith) e

Chosen-null :
    (wrs : List (Option ℕ)) (s : Transport) (k : ℕ) → Chosen wrs s k → Chosen (none ∷ wrs) s (suc k)
Chosen-null wrs s k c = record {
  wr = c.wr;
  at_k = c.at_k;
  complete = c.complete;
  earlier = earlier-null wrs s k c;
}

earlier-next :
    (wr : ℕ) (wrs : List (Option ℕ)) (s : Transport) (k : ℕ)
    → is_user_wr_complete wr s ≡ some (false, s)
    → Chosen wrs s k
    → (j v : ℕ) → j < suc k
    → get_elem? (some wr ∷ wrs) j ≡ some (some v)
    → is_user_wr_complete v s ≡ some (false, s)
earlier-next wr wrs s k n c zero v h e =
    let same : wr ≡ v = ground arith in
    subst (λ u. is_user_wr_complete u s ≡ some (false, s)) same n
earlier-next wr wrs s k n c (suc j) v h e = c.earlier j v (omega arith) e

Chosen-next :
    (wr : ℕ) (wrs : List (Option ℕ)) (s : Transport) (k : ℕ)
    → is_user_wr_complete wr s ≡ some (false, s)
    → Chosen wrs s k
    → Chosen (some wr ∷ wrs) s (suc k)
Chosen-next wr wrs s k n c = record {
  wr = c.wr;
  at_k = c.at_k;
  complete = c.complete;
  earlier = earlier-next wr wrs s k n c;
}

-- What `is_any_wr_complete` from the index `i` on finds.
abbrev pub Found : ℕ → List (Option ℕ) → Option ℕ → Transport → Type 0
Found i wrs none s = Unit {0}
Found i wrs (some n) s = (k : ℕ) × (n ≡ i + k) × Chosen wrs s k

Found-null :
    (i : ℕ) (wrs : List (Option ℕ)) (o : Option ℕ) (s : Transport)
    → Found (suc i) wrs o s
    → Found i (none ∷ wrs) o s
Found-null i wrs none s f = tt
Found-null i wrs (some n) s (k, e, c) = (suc k, omega arith, Chosen-null wrs s k c)

Found-next :
    (i wr : ℕ) (wrs : List (Option ℕ)) (o : Option ℕ) (s : Transport)
    → is_user_wr_complete wr s ≡ some (false, s)
    → Found (suc i) wrs o s
    → Found i (some wr ∷ wrs) o s
Found-next i wr wrs none s n f = tt
Found-next i wr wrs (some m) s n (k, e, c) = (suc k, omega arith, Chosen-next wr wrs s k n c)

user-Found :
    (i wr : ℕ) (wrs : List (Option ℕ)) (s : Transport)
    → ((t : Transport)
        → After (λ o s'. (s' ≡ t) × Found (suc i) wrs o s') (is_any_wr_complete (suc i) wrs t))
    → (c : Bool) (t : Transport) → is_user_wr_complete wr s ≡ some (c, t)
    → After
        (λ o s'. (s' ≡ s) × Found i (some wr ∷ wrs) o s')
        ((if c then pure (some i) else is_any_wr_complete (suc i) wrs) t)
user-Found i wr wrs s rest true t e =
    let q : t ≡ s =
      ReadOnly-same (is_user_wr_complete wr) s t true (is_user_wr_complete-ReadOnly wr) e in
    (
      q,
      (
        0,
        omega arith,
        Chosen-here wr wrs t
            (ReadOnly-again (is_user_wr_complete wr) s t true (is_user_wr_complete-ReadOnly wr) e),
      ),
    )
user-Found i wr wrs s rest false t e =
    let q : t ≡ s =
      ReadOnly-same (is_user_wr_complete wr) s t false (is_user_wr_complete-ReadOnly wr) e in
    let again : is_user_wr_complete wr t ≡ some (false, t) =
      ReadOnly-again (is_user_wr_complete wr) s t false (is_user_wr_complete-ReadOnly wr) e in
    after_map (is_any_wr_complete (suc i) wrs t)
      (λ o s' (r, f). (
        r ∙ q,
        Found-next i wr wrs o s'
            (subst (λ u. is_user_wr_complete wr u ≡ some (false, u)) (sym r) again) f,
      ))
      (rest t)

-- It changes nothing, and what it finds is the first that is complete.
pub is_any_wr_complete-Found :
    (i : ℕ) (wrs : List (Option ℕ)) (s : Transport)
    → After (λ o s'. (s' ≡ s) × Found i wrs o s') (is_any_wr_complete i wrs s)
unfolding is_any_wr_complete
is_any_wr_complete-Found i [] s = (refl, tt)
is_any_wr_complete-Found i (none ∷ wrs) s =
    after_map (is_any_wr_complete (suc i) wrs s) (λ o s' (q, f). (q, Found-null i wrs o s' f))
      (is_any_wr_complete-Found (suc i) wrs s)
is_any_wr_complete-Found i (some wr ∷ wrs) s =
    >>=-After (λ o s'. (s' ≡ s) × Found i (some wr ∷ wrs) o s') (is_user_wr_complete wr)
      (λ c. if c then pure (some i) else is_any_wr_complete (suc i) wrs) s
      (user-Found i wr wrs s (is_any_wr_complete-Found (suc i) wrs))
