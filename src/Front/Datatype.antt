-- ===== src/Front/Datatype.antt =====
-- nnti/Trios_nnti_xdr.x: `NNTI_datatype_t`.
use nnti.Base.{ℕ}

abbrev pub transport : ℕ
transport = 1111

abbrev pub peer : ℕ
peer = 1112

abbrev pub buffer : ℕ
buffer = 1113

abbrev pub work_request : ℕ
work_request = 1114

abbrev pub status : ℕ
status = 1115
