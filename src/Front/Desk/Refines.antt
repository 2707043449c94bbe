-- ===== src/Front/Desk/Refines.antt =====
-- The front end keeps what its desk promises.
use nnti.Base.{◌≡◌, Option, none, some}
use nnti.Types.{NntiResult}
use nnti.Front.{Front, Build}
use nnti.Front.Desk.{Desk}
use nnti.Front.Desk.Requests.{Shows}

module _ {W : Type 0} (build : Build W) where
  -- The same result and memory, and a table that shows what is open.
  abbrev Agree : Option (NntiResult × Front W) → Option (NntiResult × Desk W) → Type 0
  Agree none none = Unit {0}
  Agree (some (rc, s)) (some (rc', d)) =
      (rc ≡ rc') × (s.world ≡ d.world) × Shows build s.first_init s.entries d.opened
  Agree _ _ = ⊥
