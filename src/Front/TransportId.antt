-- ===== src/Front/TransportId.antt =====
-- nnti/Trios_nnti_xdr.x: `NNTI_transport_id_t`.
use nnti.Base.{ℕ}

abbrev pub null : ℕ
null = 0

abbrev pub portals : ℕ
portals = 1

abbrev pub ib : ℕ
ib = 2

abbrev pub gemini : ℕ
gemini = 3

abbrev pub dcmf : ℕ
dcmf = 4

abbrev pub pami : ℕ
pami = 5

abbrev pub mpi : ℕ
mpi = 6

abbrev pub local : ℕ
local = 7
