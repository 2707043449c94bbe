-- ===== src/Url.antt =====
-- nnti/nnti_utils.c: the parts of a URL, "transport://address/memory_descriptor". A C string is the
-- list of its bytes before the NUL.
pub mod Parts
pub mod Numbers
mod Tests
use nnti.Base.{
  ℕ, zero, suc, ◌%◌, ◌^◌, Option, none, some, List, [], ◌∷◌, ◌==◌, leb, if◌then◌else◌, length,
}

abbrev pub Bytes : Type 0
Bytes = List ℕ

-- What a function leaves in `outstr`: nothing, with NNTI_EINVAL, or a string, with NNTI_OK. A size
-- of 0, or a part that is too long, makes `memcpy` overrun the buffer.
pub data Parsed : Type 0 where
  invalid : Parsed
  overrun : Parsed
  part : Bytes → Parsed

abbrev pub take : ℕ → Bytes → Bytes
take zero s = []
take (suc n) [] = []
take (suc n) (c ∷ s) = c ∷ take n s

-- A length as the functions keep it, an `int`, by its bit pattern; a negative one is 2^31 at least.
abbrev pub int_length : Bytes → ℕ
int_length s = length s % 2 ^ 32

-- The end of each function: `memcpy` of the part, or of its first `maxlen - 1` bytes, and a NUL. A
-- length that is negative passes the test against `maxlen`, and `memcpy` overruns the buffer.
unfoldable pub copy_out : Bytes → ℕ → Parsed
copy_out s zero = overrun
copy_out s (suc n) =
    if leb (2 ^ 31) (int_length s)
    then overrun
    else part (if leb (suc n) (int_length s) then take n s else take (int_length s) s)

abbrev pub sep : Bytes
sep = b':' ∷ b'/' ∷ b'/' ∷ []

-- The rest of a string that starts with "://".
abbrev pub after_sep : Bytes → Option Bytes
after_sep (c ∷ d ∷ e ∷ s) =
    if c == b':' then (if d == b'/' then (if e == b'/' then some s else none) else none) else none
after_sep _ = none

abbrev pub onto : ℕ → Option (Bytes × Bytes) → Option (Bytes × Bytes)
onto c none = none
onto c (some (before, after)) = some (c ∷ before, after)

abbrev pub here_or_later : Option Bytes → Option (Bytes × Bytes) → Option (Bytes × Bytes)
here_or_later none later = later
here_or_later (some rest) later = some ([], rest)

-- `strstr(url, "://")`: what stands before the first "://" and what after it.
unfoldable pub split_sep : Bytes → Option (Bytes × Bytes)
split_sep [] = none
split_sep (c ∷ s) = here_or_later (after_sep (c ∷ s)) (onto c (split_sep s))

-- `strchr(s, d)`
unfoldable pub split_char : ℕ → Bytes → Option (Bytes × Bytes)
split_char d [] = none
split_char d (c ∷ s) = if c == d then some ([], s) else onto c (split_char d s)

abbrev pub transport_of : Option (Bytes × Bytes) → ℕ → Parsed
transport_of none maxlen = invalid
transport_of (some (transport, rest)) maxlen = copy_out transport maxlen

-- `nnti_url_get_transport`
unfoldable pub url_get_transport : Bytes → ℕ → Parsed
url_get_transport url maxlen = transport_of (split_sep url) maxlen

-- `address` up to the next slash, or to the end.
abbrev pub up_to_slash : Bytes → Option (Bytes × Bytes) → Bytes
up_to_slash rest none = rest
up_to_slash rest (some (address, after)) = address

abbrev pub address_out : Bytes → ℕ → Parsed
address_out s maxlen = if int_length s == 0 then invalid else copy_out s maxlen

abbrev pub address_of : Option (Bytes × Bytes) → ℕ → Parsed
address_of none maxlen = invalid
address_of (some (transport, rest)) maxlen =
    address_out (up_to_slash rest (split_char b'/' rest)) maxlen

-- `nnti_url_get_address`
unfoldable pub url_get_address : Bytes → ℕ → Parsed
url_get_address url maxlen = address_of (split_sep url) maxlen

-- `outstr[0]='\0'` where there is nothing, and the copy otherwise. With a size of 0 the NUL stands
-- beyond the buffer.
abbrev pub optional_out : Option (Bytes × Bytes) → ℕ → Parsed
optional_out o zero = overrun
optional_out none (suc n) = part []
optional_out (some (before, s)) (suc n) = if int_length s == 0 then part [] else copy_out s (suc n)

abbrev pub after_char : ℕ → Option (Bytes × Bytes) → ℕ → Parsed
after_char d none maxlen = invalid
after_char d (some (transport, rest)) maxlen = optional_out (split_char d rest) maxlen

-- `nnti_url_get_memdesc`
unfoldable pub url_get_memdesc : Bytes → ℕ → Parsed
url_get_memdesc url maxlen = after_char b'/' (split_sep url) maxlen

-- `nnti_url_get_params`
unfoldable pub url_get_params : Bytes → ℕ → Parsed
url_get_params url maxlen = after_char b'?' (split_sep url) maxlen
