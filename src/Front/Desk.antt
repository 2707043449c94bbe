-- ===== src/Front/Desk.antt =====
-- What the front end promises: a desk that knows which transports are open, serves a call with the
-- functions of the transport that the call's object names, and marks the object.
mod Requests
pub mod Refines
use nnti.Base.{
  ℕ, Bool, true, false, ◌&&◌, Option, none, some, List, [], ◌∷◌, leb, ◌==◌, if◌then◌else◌, update,
}
use nnti.Types.{NntiResult, enotinit, einval}
use nnti.Front.{World, Effect, Ops, Front, Build, transport_count, compiled}
use nnti.Front.TransportId
use nnti.Front.Session.{set_handle}
use nnti.Front.Request.{Request, Call, init, request, fini, target, listed, work, marks, next}

pub record Desk (W : Type 0) : Type 0 where
  pub opened : ℕ → Bool
  pub world : World W

module _ {W : Type 0} where
  abbrev pub marked :
      (World W → World W) → Option (NntiResult × World W) → Option (NntiResult × World W)
  marked mark none = none
  marked mark (some (rc, w)) = some (rc, mark w)

  abbrev pub kept : (ℕ → Bool) → Option (NntiResult × World W) → Option (NntiResult × Desk W)
  kept opened none = none
  kept opened (some (rc, w)) = some (rc, record { opened = opened; world = w })

  abbrev pub use_ops : Option (Ops W) → (Ops W → Effect W) → Effect W
  use_ops none f w = none
  use_ops (some ops) f w = f ops w

  -- A transport that is open does the work; one that is not does not.
  abbrev pub reach : Build W → (ℕ → Bool) → ℕ → (Ops W → Effect W) → Effect W
  reach build opened id f w =
      if leb transport_count id
      then none
      else if opened id
      then use_ops (compiled build id) f w
      else some (enotinit, w)

  abbrev pub answer : Build W → (ℕ → Bool) → Request → Effect W
  answer build opened r w = marked (marks r) (
      if listed r && (target r w == TransportId.null)
      then some (einval, w)
      else reach build opened (target r w) (work r) w)

  abbrev pub closed_by :
      (ℕ → Bool) → ℕ → Option (NntiResult × World W) → Option (NntiResult × Desk W)
  closed_by opened trans_hdl none = none
  closed_by opened trans_hdl (some (rc, w)) =
      if leb transport_count (w.transports trans_hdl).transport_id
      then none
      else some (
        rc,
        record { opened = update opened (w.transports trans_hdl).transport_id false; world = w },
      )

  abbrev pub promise : Build W → Call → Desk W → Option (NntiResult × Desk W)
  promise build (init trans_id my_url trans_hdl) d =
      if leb transport_count trans_id
      then none
      else kept (update d.opened trans_id true) (
          use_ops (compiled build trans_id) (λ ops. ops.init_fn trans_id my_url trans_hdl)
            (set_handle trans_hdl trans_id d.world))
  promise build (request r) d = kept d.opened (answer build d.opened r d.world)
  promise build (fini trans_hdl) d =
      let id : ℕ = (d.world.transports trans_hdl).transport_id in
      if leb transport_count id
      then none
      else if d.opened id
      then closed_by d.opened trans_hdl
          (use_ops (compiled build id) (λ ops. ops.fini_fn trans_hdl) d.world)
      else some (enotinit, d)

  abbrev pub promise_all : Build W → List Call → Desk W → Option (List NntiResult × World W)
  promise_all build [] d = some ([], d.world)
  promise_all build (c ∷ cs) d = next (promise build c d) (promise_all build cs)

  -- The front end before the first call: static memory is zero.
  abbrev pub start : World W → Front W
  start w = record {
    first_init = true;
    entries = λ id. record { initialized = false; ops = none };
    world = w;
  }

  abbrev pub all_closed : World W → Desk W
  all_closed w = record { opened = λ id. false; world = w }
