-- ===== src/Types.antt =====
-- The types of nnti/Trios_nnti_xdr.x that the transports share.
use nnti.Base.{Bool, true, false}

-- `NNTI_result_t`
pub data NntiResult : Type 0 where
  ok eio emsgsize ecanceled etimedout einval enomem enoent enotsup eexist : NntiResult
  ebadrpc enotinit eperm eintr ewouldblock eagain edropped edecode eencode : NntiResult

-- The test `rc == NNTI_OK`.
abbrev pub is_ok : NntiResult → Bool
is_ok NntiResult.ok = true
is_ok _ = false
