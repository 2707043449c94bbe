-- ===== src/Front/Session.antt =====
-- nnti/nnti.c: opening and closing a transport.
use nnti.Base.{ℕ, true, false, Option, none, some, leb, if◌then◌else◌, update}
use nnti.Types.{NntiResult}
use nnti.Front.{World, Ops, Entry, Front, Build, transport_count, zeroed, compiled, call}
use nnti.Front.Datatype

module _ {W : Type 0} where
  -- The entry of a transport that the build has; one that it lacks is left as it is.
  abbrev pub enter : Option (Ops W) → (ℕ → Entry W) → ℕ → ℕ → Entry W
  enter none entries id = entries
  enter (some ops) entries id = update entries id (record { initialized = true; ops = some ops })

  -- `memset` of the table before the first transport.
  abbrev pub cleared : Front W → ℕ → Entry W
  cleared s = if s.first_init then (λ id. zeroed) else s.entries

  abbrev pub set_handle : ℕ → ℕ → World W → World W
  set_handle trans_hdl id w = record w {
    transports =
        update w.transports trans_hdl (record { datatype = Datatype.transport; transport_id = id });
  }

  -- `NNTI_init`: the entry is set before `nnti_init_fn` is called, and its pointer is not tested.
  unfoldable pub nnti_init : Build W → ℕ → ℕ → ℕ → Front W → Option (NntiResult × Front W)
  nnti_init build trans_id my_url trans_hdl s =
      let entries : ℕ → Entry W = enter (compiled build trans_id) (cleared s) trans_id in
      if leb transport_count trans_id
      then none
      else call (entries trans_id).ops (λ ops. ops.init_fn trans_id my_url trans_hdl)
          (record {
            first_init = false;
            entries = entries;
            world = set_handle trans_hdl trans_id s.world;
          })

  -- `memset` of the entry after `nnti_fini_fn`, whose result does not matter. `trans_hdl->id` is read
  -- again.
  abbrev pub close : ℕ → Option (NntiResult × World W) → Front W → Option (NntiResult × Front W)
  close trans_hdl none s = none
  close trans_hdl (some (rc, w)) s =
      if leb transport_count (w.transports trans_hdl).transport_id
      then none
      else some (
        rc,
        record s {
          entries = update s.entries (w.transports trans_hdl).transport_id zeroed;
          world = w;
        },
      )

  abbrev pub fini_call : Option (Ops W) → ℕ → Front W → Option (NntiResult × Front W)
  fini_call none trans_hdl s = none
  fini_call (some ops) trans_hdl s = close trans_hdl (ops.fini_fn trans_hdl s.world) s

  -- `NNTI_fini`
  unfoldable pub nnti_fini : ℕ → Front W → Option (NntiResult × Front W)
  nnti_fini trans_hdl s =
      let id : ℕ = (s.world.transports trans_hdl).transport_id in
      if leb transport_count id
      then none
      else if (s.entries id).initialized
      then fini_call (s.entries id).ops trans_hdl s
      else some (NntiResult.enotinit, s)
