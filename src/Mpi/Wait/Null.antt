-- ===== src/Mpi/Wait/Null.antt =====
-- `NNTI_mpi_waitall` of a list with a NULL, which its first loops pass over and its last follows.
use nnti.Base.{ℕ, zero, suc, ◌≡◌, refl, Option, none, some, List, [], ◌∷◌, get_elem?, arith}
use nnti.Types.{NntiResult, ecanceled}
use nnti.Mpi.State.{Status}
use nnti.Mpi.Machine.{Transport, Env, M, pure, ◌>>=◌, ask}
use nnti.Mpi.Wait.Loop.{Timeout, Outcome, cancelled, ended, running}
use nnti.Mpi.Wait.Many.{link_all}
use nnti.Mpi.Wait.All.{
  AllResult, break_on_all, all_loop, finish_one, finish_each, finish_all, waitall,
}
use nnti.Mpi.Wait.After.{Always, >>=-After, >>=-Always, pure-Always, after_some}

-- No result at all.
abbrev Never : {A : Type 0} → A → Transport → Type 0
Never a s = ⊥

>>=-Never : {A B : Type 0} (m : M A) (f : A → M B) → Always Never m → Always Never (m >>= f)
>>=-Never m f h = record {
  at_state =
      λ s. >>=-After Never m f s (λ a t e. absurd (after_some Never (m s) a t (h.at_state s) e));
}

finish_each-Never :
    (env : Env) (rc : NntiResult) (wrs : List (Option ℕ)) (sts : List Status) (j : ℕ)
    → get_elem? wrs j ≡ some none
    → Always Never (finish_each env rc wrs sts)
unfolding finish_each finish_one
finish_each-Never env rc [] sts j e = absurd (ground arith)
finish_each-Never env rc (o ∷ wrs) [] j e = record { at_state = λ s. tt }
finish_each-Never env rc (none ∷ wrs) (st ∷ sts) j e = record { at_state = λ s. tt }
finish_each-Never env rc (some wr ∷ wrs) (st ∷ sts) zero e = absurd (ground arith)
finish_each-Never env rc (some wr ∷ wrs) (st ∷ sts) (suc j) e =
    >>=-Always Never (finish_one env rc (some wr) st) _
      (λ st'. >>=-Never (finish_each env rc wrs sts) _ (finish_each-Never env rc wrs sts j e))

-- A result is that of the return on an abort signal.
abbrev IsCancelled : Option (NntiResult × List Status) → Transport → Type 0
IsCancelled none s = Unit {0}
IsCancelled (some (rc, sts)) s = rc ≡ ecanceled

finish_all-IsCancelled :
    (env : Env) (wrs : List (Option ℕ)) (sts : List Status) (j : ℕ)
    → get_elem? wrs j ≡ some none
    → (o : Outcome) → Always IsCancelled (finish_all env wrs sts o)
unfolding finish_all
finish_all-IsCancelled env wrs sts j e cancelled =
    pure-Always IsCancelled (some (ecanceled, sts)) (λ s. refl)
finish_all-IsCancelled env wrs sts j e running = pure-Always IsCancelled none (λ s. tt)
finish_all-IsCancelled env wrs sts j e (ended rc) = record {
  at_state = λ s.
      >>=-After IsCancelled (finish_each env rc wrs sts) (λ sts'. pure (some (rc, sts'))) s
        (λ a t e'. absurd (
          after_some Never (finish_each env rc wrs sts s) a t
            ((finish_each-Never env rc wrs sts j e).at_state s) e'));
}

-- `NNTI_mpi_waitall` of two or more work requests of which one is NULL never returns any other result
-- than NNTI_ECANCELED, not even where the others are complete.
pub waitall-null :
    (env : Env) (test_all : ℕ → AllResult) (rounds : ℕ) (a b : Option ℕ) (wrs : List (Option ℕ))
    (timeout : Timeout) (sts sts' : List Status) (j : ℕ) (s s' : Transport) (rc : NntiResult)
    → get_elem? (a ∷ b ∷ wrs) j ≡ some none
    → waitall env test_all rounds (a ∷ b ∷ wrs) timeout sts s ≡ some (some (rc, sts'), s')
    → rc ≡ ecanceled
unfolding waitall
waitall-null env test_all rounds a b wrs timeout sts sts' j s s' rc null e =
    let all : List (Option ℕ) = a ∷ b ∷ wrs in
    let ends : Always IsCancelled (waitall env test_all rounds all timeout sts) =
      >>=-Always IsCancelled (ask env.time_ms) _ (λ entry.
        >>=-Always IsCancelled (link_all all) _ (λ u.
          >>=-Always IsCancelled (break_on_all all (all_loop env test_all rounds entry timeout all))
            _ (λ o. finish_all-IsCancelled env all sts j null o))) in
    after_some IsCancelled (waitall env test_all rounds all timeout sts s) (some (rc, sts')) s'
      (ends.at_state s) e
