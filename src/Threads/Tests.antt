-- ===== src/Threads/Tests.antt =====
-- The counter theorems at inputs.
use nnti.Base.{◌≡◌, refl, true, false, [], ◌∷◌, arith}
use nnti.Threads.{Locks, Counter, minus_one, Call, call, nthread_counter_increment}
use nnti.Threads.Counters.{
  draw, Consecutive, IsDistinct, draw-Consecutive, draw-IsDistinct, call_lem, call_unlocked,
}

abbrev working : Locks
working = record { init_ok = true; lock_ok = true; fini_ok = true }

abbrev broken : Locks
broken = record { init_ok = true; lock_ok = false; fini_ok = true }

abbrev seven : Counter
seven = record { value = 7 }

draw-seven : draw working 3 seven ≡ 7 ∷ 8 ∷ 9 ∷ []
unfolding draw nthread_counter_increment
draw-seven = refl

drawn : Consecutive 7 (draw working 3 seven)
drawn = draw-Consecutive working 3 seven refl

draw-IsDistinct_example : IsDistinct (draw working 3 seven)
draw-IsDistinct_example = draw-IsDistinct working 3 seven refl (omega arith)

called : (call working (Call.sets 3) seven).0 ≡ 7
called = (call_lem working seven (Call.sets 3) refl (omega arith)).0

not_called :
    ((call broken Call.increments seven).0 ≡ minus_one)
    × ((call broken Call.increments seven).1 ≡ seven)
not_called = call_unlocked broken seven Call.increments refl
