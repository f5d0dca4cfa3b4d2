-- ===== src/Url/Examples.antt =====
-- Tests of the URL codec, and its theorems at concrete inputs.
use ddmframework.Common.{◌≤◌, ◌<◌, ◌≡◌, refl, ◌↔◌, arith}
use ddmframework.Url.{codes, url_encode, url_decode, decode_written, decode_capacity, encode_byte}
use ddmframework.Url.RoundTrip.{url_decode-url_encode}
use ddmframework.Url.Escapes.{count_escapes, decode_written-le-decode_capacity}

encodes : url_encode (codes "{a b+/~}") ≡ codes "%7Ba+b%2B%2F%7E%7D"
unfolding url_encode encode_byte
encodes = refl

decodes : url_decode (codes "%7Ba+b%2b%2") ≡ codes "{a b+%2"
unfolding url_decode
decodes = refl

url_decode-url_encode_example : url_decode (url_encode (codes "a {%+}")) ≡ codes "a {%+}"
url_decode-url_encode_example = url_decode-url_encode (codes "a {%+}") (omega arith)

decode_written-le-decode_capacity_example :
    (decode_written (codes "abc") ≤ decode_capacity (codes "abc"))
    ↔ (0 < count_escapes (codes "abc"))
decode_written-le-decode_capacity_example = decode_written-le-decode_capacity (codes "abc")
