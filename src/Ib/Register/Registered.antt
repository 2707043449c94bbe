-- ===== src/Ib/Register/Registered.antt =====
-- What the registration of segments in nnti/nnti_ib.cpp gives to transfers, and takes back.
use mathlib.Core.Option
use nnti.Base.{ℕ, suc, ◌%◌, ◌^◌, ◌≡◌, ◌<◌, Bool, Option, some, List, [], ◌∷◌, update}
use nnti.Types.{NntiResult}
use nnti.Ib.Issue.{IbConfig}
use nnti.Ib.Segments.{Sge, Mr, Local, hash6432shift}
use nnti.Ib.Segments.Copies.{segments_of}
use nnti.Ib.Register.{
  IbHandle, IbBuffer, Registry, UserSegment, ◌>>=◌, get_buf_bufhash, sum_of, array, array_of,
  stored_all,
}

-- Verbs register what they are asked to, each segment at its address and with its length.
pub record Verbs : Type 0 where
  pub mr : UserSegment → Mr
  pub addr_eq : (u : UserSegment) → (mr u).addr ≡ u.0
  pub length_eq : (u : UserSegment) → (mr u).length ≡ u.1

abbrev pub registers : Verbs → UserSegment → Option Mr
registers v u = some (v.mr u)

abbrev pub mrs_of : Verbs → List UserSegment → List Mr
mrs_of v [] = []
mrs_of v (u ∷ us) = v.mr u ∷ mrs_of v us

-- Segments of less than 2^32 bytes each.
abbrev pub AreShort : List UserSegment → Type 0
AreShort [] = Unit {0}
AreShort (u ∷ us) = (u.1 < 2 ^ 32) × AreShort us

module _ (cfg : IbConfig) (accepts : Bool) (ack : Sge) (v : Verbs) (ops a first len : ℕ)
    (us : List UserSegment) (s : Registry) where
  abbrev user : List UserSegment
  user = (first, len) ∷ us

  abbrev made : IbBuffer
  made = record {
    ops = ops;
    payload_size = sum_of user % 2 ^ 64;
    payload = first;
    handle = some s.next_handle;
    segments = array (stored_all (mrs_of v user));
  }

  abbrev fresh_handle : IbHandle
  fresh_handle = record { mr_list = mrs_of v user; wr_queue = []; ref_count = 1 }

  abbrev registered : Registry
  registered = record {
    buffers = update s.buffers a (some made);
    bufhash = (hash6432shift first, a) ∷ s.bufhash;
    handles = update s.handles s.next_handle fresh_handle;
    next_handle = suc s.next_handle;
    io = s.io;
  }

-- The segments and the registrations of a buffer.
abbrev local_of_buffer : Registry → IbBuffer → Option Local
local_of_buffer s b = b.handle >>= λ h.
    array_of b.segments >>= λ ss. some (record { segments = ss; mr_list = (s.handles h).mr_list })

-- What transfers see of the buffer at an address: where the hash of the first segment leads, its
-- segments, and its payload size.
abbrev pub seen : ℕ → ℕ → NntiResult × Registry → NntiResult × Option ℕ × Option Local × Option ℕ
seen first a (rc, s) = (
  rc,
  get_buf_bufhash (hash6432shift first) s,
  s.buffers a >>= local_of_buffer s,
  Option.map IbBuffer.payload_size (s.buffers a),
)

-- The local side of transfers on segments that verbs have registered.
abbrev pub registered_local : Verbs → List UserSegment → Local
registered_local v us = record { segments = segments_of (mrs_of v us); mr_list = mrs_of v us }

-- What is left of the map of buffers, and of the buffer at an address.
abbrev pub left : ℕ → NntiResult × Registry → NntiResult × List (ℕ × ℕ) × Option IbBuffer
left a (rc, s) = (rc, s.bufhash, s.buffers a)
