-- ===== src/Front/Dispatch.antt =====
-- Which functions the calls reach after a transport was opened or closed.
use nnti.Base.{ℕ, ◌<◌, ◌≡◌, ◌≢◌, true, false, some, update, update_ne, arith}
use nnti.Types.{NntiResult, enotinit}
use nnti.Front.{
  World, Effect, Ops, Front, Build, transport_count, compiled, returned, dispatch, zeroed,
}
use nnti.Front.Session.{enter, cleared, set_handle, nnti_init, nnti_fini}

module _ {W : Type 0} where
  -- Where the build has the transport `t`, `NNTI_init` returns what `nnti_init_fn` does, be it an
  -- error; then every call on `t` reaches the transport's functions, and any other entry is as it was,
  -- or zero if this was the first `NNTI_init`.
  pub init-dispatch :
      (build : Build W) (ops : Ops W) (t url hdl : ℕ) (s : Front W) (rc : NntiResult) (w : World W)
      → t < transport_count
      → compiled build t ≡ some ops
      → ops.init_fn t url hdl (set_handle hdl t s.world) ≡ some (rc, w)
      → (s' : Front W) × (nnti_init build t url hdl s ≡ some (rc, s'))
        × ((f : Ops W → Effect W) → dispatch t f s' ≡ returned s' (f ops s'.world))
        × ((u : ℕ) → u ≢ t → s'.entries u ≡ cleared s u)
  unfolding nnti_init dispatch
  init-dispatch build ops t url hdl s rc w small has done = (
    record { first_init = false; entries = enter (some ops) (cleared s) t; world = w },
    ground (arith, has, done),
    λ f. ground arith,
    λ u ne. update_ne (cleared s) t u (record { initialized = true; ops = some ops }) ne,
  )

  -- `NNTI_fini` of an open transport returns what `nnti_fini_fn` does, be it an error; then every call
  -- on the transport gives NNTI_ENOTINIT and changes nothing, and the other entries are as they were.
  -- `nnti_fini_fn` leaves the id in the handle.
  pub fini-dispatch :
      (ops : Ops W) (t hdl : ℕ) (s : Front W) (rc : NntiResult) (w : World W)
      → t < transport_count
      → (s.world.transports hdl).transport_id ≡ t
      → s.entries t ≡ record { initialized = true; ops = some ops }
      → ops.fini_fn hdl s.world ≡ some (rc, w)
      → (w.transports hdl).transport_id ≡ t
      → (s' : Front W) × (nnti_fini hdl s ≡ some (rc, s'))
        × ((f : Ops W → Effect W) → dispatch t f s' ≡ some (enotinit, s'))
        × ((u : ℕ) → u ≢ t → s'.entries u ≡ s.entries u)
  unfolding nnti_fini dispatch
  fini-dispatch ops t hdl s rc w small id entry done same = (
    record s { entries = update s.entries t zeroed; world = w },
    ground (arith, id, entry, done, same),
    λ f. ground arith,
    λ u ne. update_ne s.entries t u zeroed ne,
  )
