-- ===== src/Url/Tests.antt =====
-- The theorems on URLs at inputs.
use nnti.Base.{◌≡◌, refl, [], ◌∷◌, ◌++◌, arith}
use nnti.Url.{
  Bytes, split_sep, split_char, copy_out, part, invalid, overrun, sep, url_get_transport,
  url_get_address, url_get_memdesc, url_get_params,
}
use nnti.Url.Parts.{url_parts, Fits, url_get-Fits}

abbrev ib : Bytes
ib = b'i' ∷ b'b' ∷ []

abbrev host : Bytes
host = b'h' ∷ b':' ∷ b'1' ∷ []

abbrev query : Bytes
query = b'?' ∷ b'a' ∷ []

abbrev url : Bytes
url = ib ++ (sep ++ (host ++ (b'/' ∷ query)))

taken_apart :
    (url_get_transport url 8 ≡ part ib)
    × (url_get_address url 8 ≡ part host)
    × (url_get_memdesc url 8 ≡ part query)
taken_apart = url_parts ib host query 8 (omega arith) refl refl refl refl refl refl

url_get-Fits_example :
    Fits 3 (url_get_transport url 3)
    × Fits 3 (url_get_address url 3)
    × Fits 3 (url_get_memdesc url 3)
    × Fits 3 (url_get_params url 3)
url_get-Fits_example = url_get-Fits url 2 (omega arith)

cut_off : url_get_address url 3 ≡ part (b'h' ∷ b':' ∷ [])
unfolding url_get_address split_sep split_char copy_out
cut_off = refl

no_transport : url_get_transport host 3 ≡ invalid
unfolding url_get_transport split_sep
no_transport = refl

no_address : url_get_address (ib ++ sep) 3 ≡ invalid
unfolding url_get_address split_sep split_char
no_address = refl

params : url_get_params url 4 ≡ part (b'a' ∷ [])
unfolding url_get_params split_sep split_char copy_out
params = refl

no_room : url_get_transport url 0 ≡ overrun
unfolding url_get_transport split_sep copy_out
no_room = refl
