-- ===== src/Url/Names.antt =====
-- soaagent/url_encode.c: an encoded text can be the name of a node.
use ddmframework.Url.RoundTrip.{url_decode-url_encode}
use ddmframework.Zookeeper.{IsName}
use ddmframework.Common.{
  IsBytes, ◌<◌, sym, ap, ◌∙◌, ◌*◌, ℕ, suc, zero, ◌/◌, ◌%◌, ◌≤◌, ◌≡◌, ◌≢◌, List, [], ◌∷◌, arith,
  length, length-append, get_or, All, All-append,
}
use ddmframework.Paths.{NoSlash}
use ddmframework.Url.{codes, url_decode, hexchars, encode_byte, is_reserved, url_encode}

hexchars-NoSlash : NoSlash hexchars
hexchars-NoSlash = ground arith

get_or-NoSlash : (xs : List ℕ) (i : ℕ) → NoSlash xs → get_or xs i 0 ≢ b'/'
get_or-NoSlash [] i h = omega arith
get_or-NoSlash (x ∷ xs) zero (ne, h) = ne
get_or-NoSlash (x ∷ xs) (suc i) (ne, h) = get_or-NoSlash xs i h

encode_byte-NoSlash : (c : ℕ) → NoSlash (encode_byte c)
unfolding encode_byte is_reserved
encode_byte-NoSlash c =
    let high = get_or-NoSlash hexchars (c / 16) hexchars-NoSlash in
    let low = get_or-NoSlash hexchars (c % 16) hexchars-NoSlash in ground (arith, high, low)

get_or-printable :
    (xs : List ℕ) (i : ℕ)
    → All (λ (d : ℕ). (32 ≤ d) × (d ≤ 126)) xs
    → i < length xs
    → (32 ≤ get_or xs i 0) × (get_or xs i 0 ≤ 126)
get_or-printable [] i h lt = absurd (omega arith)
get_or-printable (x ∷ xs) zero (e, h) lt = e
get_or-printable (x ∷ xs) (suc i) (e, h) lt = get_or-printable xs i h (omega arith)

hexchars-printable : (i : ℕ) → i < 16 → (32 ≤ get_or hexchars i 0) × (get_or hexchars i 0 ≤ 126)
hexchars-printable i lt = get_or-printable hexchars i (ground arith) lt

encode_byte-printable : (c : ℕ) → c < 256 → All (λ (d : ℕ). (32 ≤ d) × (d ≤ 126)) (encode_byte c)
unfolding encode_byte is_reserved
encode_byte-printable c byte =
    let high = hexchars-printable (c / 16) (omega arith) in
    let low = hexchars-printable (c % 16) (omega arith) in ground (arith, high, low)

url_encode-printable :
    (s : List ℕ) → IsBytes s → All (λ (d : ℕ). (32 ≤ d) × (d ≤ 126)) (url_encode s)
unfolding url_encode
url_encode-printable [] h = tt
url_encode-printable (c ∷ s) (byte, h) =
    All-append (λ d. (32 ≤ d) × (d ≤ 126)) (encode_byte c) (url_encode s)
      (encode_byte-printable c byte) (url_encode-printable s h)

-- An encoded text can stand in a path.
pub url_encode-NoSlash : (s : List ℕ) → NoSlash (url_encode s)
unfolding url_encode
url_encode-NoSlash [] = tt
url_encode-NoSlash (c ∷ s) =
    All-append (λ d. d ≢ b'/') (encode_byte c) (url_encode s) (encode_byte-NoSlash c)
      (url_encode-NoSlash s)

encode_byte-le : (c : ℕ) → 1 ≤ length (encode_byte c)
unfolding encode_byte
encode_byte-le c = ground arith

pub url_encode-le : (s : List ℕ) → 1 ≤ length s → 1 ≤ length (url_encode s)
unfolding url_encode
url_encode-le [] h = h
url_encode-le (c ∷ s) h =
    omega (arith, length-append (encode_byte c) (url_encode s), encode_byte-le c)

encode_byte-length : (c : ℕ) → length (encode_byte c) ≤ 3
unfolding encode_byte
encode_byte-length c = ground arith

pub length-url_encode-le : (s : List ℕ) → length (url_encode s) ≤ 3 * length s
unfolding url_encode
length-url_encode-le [] = omega arith
length-url_encode-le (c ∷ s) = omega (
  arith,
  length-append (encode_byte c) (url_encode s),
  encode_byte-length c,
  length-url_encode-le s,
)

-- Not one of the two texts that are written as themselves and that no node can have for a name.
abbrev pub NoDots : List ℕ → Type 0
NoDots s = (s ≢ codes ".") × (s ≢ codes "..")

dot-decoded : (s : List ℕ) → IsBytes s → url_encode s ≡ codes "." → s ≡ codes "."
unfolding url_decode
dot-decoded s bytes e = sym (url_decode-url_encode s bytes) ∙ ap url_decode e

dots-decoded : (s : List ℕ) → IsBytes s → url_encode s ≡ codes ".." → s ≡ codes ".."
unfolding url_decode
dots-decoded s bytes e = sym (url_decode-url_encode s bytes) ∙ ap url_decode e

-- An encoded text is a name of a node.
pub url_encode-IsName : (s : List ℕ) → IsBytes s → 1 ≤ length s → NoDots s → IsName (url_encode s)
url_encode-IsName s bytes h (dot, dots) = (
  url_encode-NoSlash s,
  url_encode-le s h,
  url_encode-printable s bytes,
  (λ e. dot (dot-decoded s bytes e)),
  (λ e. dots (dots-decoded s bytes e)),
)
