-- ===== src/Front.antt =====
-- nnti/nnti.c and nnti/nnti_internal.h: the front end, which keeps a table of the transports that are
-- open and passes every call on to one of them. Pointers are addresses and NULL is 0; those that a
-- function follows without a test are valid. An array and its count are a list.
pub mod TransportId
pub mod Datatype
pub mod Session
pub mod Calls
pub mod Request
pub mod Dispatch
pub mod Desk
pub mod Pack
mod Tests
use nnti.Base.{
  ℕ, ◌≡◌, ◌≢◌, Bool, false, Option, none, some, List, [], ◌∷◌, ◌==◌, leb, if◌then◌else◌, update,
}
use nnti.Types.{NntiResult, enotinit, einval}

-- The first fields of the front end's structs, which it reads and sets.
pub record Head : Type 0 where
  pub datatype : ℕ
  pub transport_id : ℕ

-- The memory that the front end and the transports share: what stands at the address of an
-- `NNTI_transport_t`, an `NNTI_buffer_t`, an `NNTI_work_request_t`, and the `datatype` of an
-- `NNTI_peer_t` and an `NNTI_status_t`. All else, only transports see.
pub record World (W : Type 0) : Type 0 where
  pub transports : ℕ → Head
  pub buffers : ℕ → Head
  pub requests : ℕ → Head
  pub peers : ℕ → ℕ
  pub statuses : ℕ → ℕ
  pub rest : W

-- What a function of a transport does: `none` where it does not return.
abbrev pub Effect : Type 0 → Type 0
Effect W = World W → Option (NntiResult × World W)

-- `NNTI_transport_ops_t`
pub record Ops (W : Type 0) : Type 0 where
  pub init_fn : ℕ → ℕ → ℕ → Effect W
  pub get_url_fn : ℕ → ℕ → ℕ → Effect W
  pub connect_fn : ℕ → ℕ → ℕ → ℕ → Effect W
  pub disconnect_fn : ℕ → ℕ → Effect W
  pub alloc_fn : ℕ → ℕ → ℕ → ℕ → ℕ → Effect W
  pub free_fn : ℕ → Effect W
  pub register_memory_fn : ℕ → ℕ → ℕ → ℕ → ℕ → ℕ → Effect W
  pub register_segments_fn : ℕ → ℕ → ℕ → ℕ → ℕ → ℕ → Effect W
  pub unregister_memory_fn : ℕ → Effect W
  pub send_fn : ℕ → ℕ → ℕ → ℕ → Effect W
  pub put_fn : ℕ → ℕ → ℕ → ℕ → ℕ → ℕ → Effect W
  pub get_fn : ℕ → ℕ → ℕ → ℕ → ℕ → ℕ → Effect W
  pub scatter_fn : ℕ → ℕ → List ℕ → ℕ → ℕ → Effect W
  pub gather_fn : List ℕ → ℕ → ℕ → ℕ → ℕ → Effect W
  pub atomic_set_callback_fn : ℕ → ℕ → ℕ → ℕ → Effect W
  pub atomic_read_fn : ℕ → ℕ → ℕ → Effect W
  pub atomic_fop_fn : ℕ → ℕ → ℕ → ℕ → ℕ → ℕ → ℕ → Effect W
  pub atomic_cswap_fn : ℕ → ℕ → ℕ → ℕ → ℕ → ℕ → ℕ → Effect W
  pub create_work_request_fn : ℕ → ℕ → Effect W
  pub clear_work_request_fn : ℕ → Effect W
  pub destroy_work_request_fn : ℕ → Effect W
  pub cancel_fn : ℕ → Effect W
  pub cancelall_fn : List ℕ → Effect W
  pub interrupt_fn : ℕ → Effect W
  pub wait_fn : ℕ → ℕ → ℕ → Effect W
  pub waitany_fn : List ℕ → ℕ → ℕ → ℕ → Effect W
  pub waitall_fn : List ℕ → ℕ → List ℕ → Effect W
  pub fini_fn : ℕ → Effect W

-- `NNTI_internal_transport_t`: `ops` is `none` where its pointers are NULL. No code uses its `id` and
-- `me`.
pub record Entry (W : Type 0) : Type 0 where
  pub initialized : Bool
  pub ops : Option (Ops W)

-- The static variables: `first_init` of `NNTI_init` and `available_transports`.
pub record Front (W : Type 0) : Type 0 where
  pub first_init : Bool
  pub entries : ℕ → Entry W
  pub world : World W

-- The transports that the `HAVE_TRIOS_` macros of the build compile in.
pub record Build (W : Type 0) : Type 0 where
  pub portals : Option (Ops W)
  pub infiniband : Option (Ops W)
  pub gemini : Option (Ops W)
  pub bgpdcmf : Option (Ops W)
  pub bgqpami : Option (Ops W)
  pub mpi : Option (Ops W)

-- `NNTI_TRANSPORT_COUNT`
abbrev pub transport_count : ℕ
transport_count = 8

-- `NNTI_BOP_RECV_QUEUE`
abbrev pub recv_queue : ℕ
recv_queue = 64

module _ {W : Type 0} where
  abbrev pub zeroed : Entry W
  zeroed = record { initialized = false; ops = none }

  -- The functions that `NNTI_init` enters for a transport, where the build has it.
  unfoldable pub compiled : Build W → ℕ → Option (Ops W)
  compiled build id =
      if id == TransportId.portals
      then build.portals
      else if id == TransportId.ib
      then build.infiniband
      else if id == TransportId.gemini
      then build.gemini
      else if id == TransportId.dcmf
      then build.bgpdcmf
      else if id == TransportId.pami
      then build.bgqpami
      else if id == TransportId.mpi
      then build.mpi
      else none

  -- A transport's result, in the front end's state.
  abbrev pub returned : Front W → Option (NntiResult × World W) → Option (NntiResult × Front W)
  returned s none = none
  returned s (some (rc, w)) = some (rc, record s { world = w })

  abbrev pub call : Option (Ops W) → (Ops W → Effect W) → Front W → Option (NntiResult × Front W)
  call none f s = none
  call (some ops) f s = returned s (f ops s.world)

  -- The test of `initialized` and the call through the table, in each function of the front end. An
  -- id beyond the table reads outside it.
  unfoldable pub dispatch : ℕ → (Ops W → Effect W) → Front W → Option (NntiResult × Front W)
  dispatch id f s =
      if leb transport_count id
      then none
      else if (s.entries id).initialized
      then call (s.entries id).ops f s
      else some (enotinit, s)

  -- What a function sets before it returns, whatever its result.
  abbrev pub then_mark :
      (World W → World W) → Option (NntiResult × Front W) → Option (NntiResult × Front W)
  then_mark mark none = none
  then_mark mark (some (rc, s)) = some (rc, record s { world = mark s.world })

  abbrev pub mark_peer : ℕ → World W → World W
  mark_peer peer_hdl w = record w { peers = update w.peers peer_hdl Datatype.peer }

  abbrev pub mark_buffer : ℕ → World W → World W
  mark_buffer reg_buf w = record w {
    buffers = update w.buffers reg_buf (record (w.buffers reg_buf) { datatype = Datatype.buffer });
  }

  abbrev pub mark_request : ℕ → World W → World W
  mark_request wr w = record w {
    requests = update w.requests wr (record (w.requests wr) { datatype = Datatype.work_request });
  }

  abbrev pub mark_requests : List ℕ → World W → World W
  mark_requests [] w = w
  mark_requests (wr ∷ wrs) w =
      if wr == 0 then mark_requests wrs w else mark_requests wrs (mark_request wr w)

  abbrev pub mark_status : ℕ → World W → World W
  mark_status status w = record w { statuses = update w.statuses status Datatype.status }

  abbrev pub mark_statuses : List ℕ → World W → World W
  mark_statuses [] w = w
  mark_statuses (status ∷ more) w =
      if status == 0 then mark_statuses more w else mark_statuses more (mark_status status w)

  -- The loop over `wr_list`: the transport of the last work request that is not NULL.
  abbrev pub last_id : World W → ℕ → List ℕ → ℕ
  last_id w id [] = id
  last_id w id (wr ∷ wrs) = last_id w (if wr == 0 then id else (w.requests wr).transport_id) wrs

  -- The branches of `NNTI_cancelall`, `NNTI_waitany` and `NNTI_waitall`.
  unfoldable pub dispatch_list : ℕ → (Ops W → Effect W) → Front W → Option (NntiResult × Front W)
  dispatch_list id f s = if id == TransportId.null then some (einval, s) else dispatch id f s

  -- A receive queue is refused where memory is registered.
  abbrev pub allowed : ℕ → Effect W → Effect W
  allowed buf_ops f w = if buf_ops == recv_queue then some (einval, w) else f w
