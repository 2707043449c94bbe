-- ===== src/Front/Tests.antt =====
-- The theorems on the front end at inputs: a transport that counts its calls.
use nnti.Base.{
  ℕ, suc, ◌≡◌, ◌≢◌, refl, Bool, true, false, Option, none, some, List, [], ◌∷◌, leb, if◌then◌else◌,
  arith, update, ◌^◌, ◌-◌,
}
use nnti.Types.{NntiResult, ok, enotinit, einval}
use nnti.Url.{Bytes}
use nnti.Front.{
  Head, World, Effect, Ops, Front, Build, compiled, returned, dispatch, recv_queue, dispatch_list,
}
use nnti.Front.Session.{nnti_init, nnti_fini, cleared}
use nnti.Front.Calls.{nnti_wait, nnti_put, nnti_waitany, nnti_register_memory}
use nnti.Front.Request.{Call, init, request, fini, put, wait, waitany, register_memory, serve_all}
use nnti.Front.Desk.{start}
use nnti.Front.Dispatch.{init-dispatch, fini-dispatch}
use nnti.Front.Pack.{Proc, Codec, Packed, dt_sizeof, dt_pack, dt_unpack, proc, body_len}
use nnti.Front.Pack.RoundTrip.{IsXdr, dt_unpack-dt_pack}

abbrev count : Effect ℕ
count w = some (ok, record w { rest = suc w.rest })

abbrev counting : Ops ℕ
counting = record {
  init_fn = λ a b c. count;
  get_url_fn = λ a b c. count;
  connect_fn = λ a b c d. count;
  disconnect_fn = λ a b. count;
  alloc_fn = λ a b c d e. count;
  free_fn = λ a. count;
  register_memory_fn = λ a b c d e f. count;
  register_segments_fn = λ a b c d e f. count;
  unregister_memory_fn = λ a. count;
  send_fn = λ a b c d. count;
  put_fn = λ a b c d e f. count;
  get_fn = λ a b c d e f. count;
  scatter_fn = λ a b c d e. count;
  gather_fn = λ a b c d e. count;
  atomic_set_callback_fn = λ a b c d. count;
  atomic_read_fn = λ a b c. count;
  atomic_fop_fn = λ a b c d e f g. count;
  atomic_cswap_fn = λ a b c d e f g. count;
  create_work_request_fn = λ a b. count;
  clear_work_request_fn = λ a. count;
  destroy_work_request_fn = λ a. count;
  cancel_fn = λ a. count;
  cancelall_fn = λ a. count;
  interrupt_fn = λ a. count;
  wait_fn = λ a b c. count;
  waitany_fn = λ a b c d. count;
  waitall_fn = λ a b c. count;
  fini_fn = λ a. count;
}

abbrev with_mpi : Build ℕ
with_mpi = record {
  portals = none;
  infiniband = none;
  gemini = none;
  bgpdcmf = none;
  bgqpami = none;
  mpi = some counting;
}

abbrev blank : Head
blank = record { datatype = 0; transport_id = 6 }

abbrev world : World ℕ
world = record {
  transports = λ a. blank;
  buffers = λ a. blank;
  requests = λ a. blank;
  peers = λ a. 0;
  statuses = λ a. 0;
  rest = 0;
}

abbrev session : List Call
session =
    request (wait 1 0 2)
    ∷ init 6 0 9
    ∷ request (put 1 0 8 2 0 3)
    ∷ request (register_memory 9 5 1 8 recv_queue 4)
    ∷ request (waitany (0 ∷ []) 0 5 2)
    ∷ fini 9
    ∷ request (wait 3 0 2)
    ∷ []

abbrev results : {W : Type 0} → Option (List NntiResult × World W) → Option (List NntiResult × W)
results none = none
results (some (rcs, w)) = some (rcs, w.rest)

session_lem :
    results (serve_all with_mpi session (start world))
    ≡ some (enotinit ∷ ok ∷ ok ∷ einval ∷ einval ∷ ok ∷ enotinit ∷ [], 3)
unfolding nnti_init nnti_fini nnti_wait nnti_put nnti_waitany nnti_register_memory dispatch
    dispatch_list compiled
session_lem = refl

-- A transport that is not compiled in has no `nnti_init_fn`.
not_compiled : nnti_init with_mpi 2 0 9 (start world) ≡ none
unfolding nnti_init compiled
not_compiled = refl

init-dispatch_example :
    (s' : Front ℕ) × (nnti_init with_mpi 6 0 9 (start world) ≡ some (ok, s'))
    × ((f : Ops ℕ → Effect ℕ) → dispatch 6 f s' ≡ returned s' (f counting s'.world))
    × ((u : ℕ) → u ≢ 6 → s'.entries u ≡ cleared (start world) u)
unfolding compiled
init-dispatch_example =
    init-dispatch with_mpi counting 6 0 9 (start world) ok
      (record world {
        transports = update world.transports 9 (record { datatype = 1111; transport_id = 6 });
        rest = 1;
      })
      (omega arith) refl refl

abbrev opened : Front ℕ
opened = record {
  first_init = false;
  entries = λ id. record { initialized = true; ops = some counting };
  world = world;
}

closed_again :
    (s' : Front ℕ) × (nnti_fini 9 opened ≡ some (ok, s'))
    × ((f : Ops ℕ → Effect ℕ) → dispatch 6 f s' ≡ some (enotinit, s'))
    × ((u : ℕ) → u ≢ 6 → s'.entries u ≡ opened.entries u)
closed_again =
    fini-dispatch counting 6 9 opened ok (record world { rest = 1 }) (omega arith) refl refl refl
      refl

-- Objects of a type and a number, of which XDR makes eight bytes.
abbrev decoded : Bytes → ℕ × ℕ → Bool × (ℕ × ℕ)
decoded (dt ∷ v ∷ rest) before = (true, (dt, v))
decoded _ before = (false, before)

abbrev pairs : Proc (ℕ × ℕ)
pairs = record {
  sizeof = λ o. 8;
  encode = λ o len body. if leb 8 len then (true, o.0 ∷ o.1 ∷ []) else (false, body);
  decode = λ len body before. if leb 8 len then decoded body before else (false, before);
  free = λ o. o;
}

abbrev all_pairs : Codec (ℕ × ℕ)
all_pairs = record {
  transport = pairs;
  peer = pairs;
  buffer = pairs;
  work_request = pairs;
  status = pairs;
  datatype = λ o. o.0;
  zero_of = λ dt. (0, 0);
}

abbrev some_peer : ℕ × ℕ
some_peer = (1112, 5)

some_peer-IsXdr : IsXdr pairs (0, 0) some_peer
some_peer-IsXdr = record { encodes = λ len body fits. (1112 ∷ 5 ∷ [], ground arith, ground arith) }

abbrev packed_buf : Packed
packed_buf = record { word = 0; body = [] }

dt_unpack-dt_pack_example :
    (n : ℕ) × (packed : Packed) × (dt_sizeof all_pairs 9 some_peer 0 opened ≡ some (ok, n))
    × (dt_pack all_pairs 9 some_peer packed_buf n opened ≡ some (ok, packed))
    × (dt_unpack all_pairs 9 (0, 0) packed n opened ≡ some (ok, some_peer))
unfolding proc
dt_unpack-dt_pack_example =
    dt_unpack-dt_pack all_pairs pairs some_peer (0, 0) 9 0 packed_buf opened (omega arith) refl refl
      some_peer-IsXdr (omega arith)

-- A length below that of the word wraps around.
no_room : body_len 0 ≡ 2 ^ 32 - 4
unfolding body_len
no_room = refl
