-- ===== src/Url.antt =====
-- soaagent/url_encode.c: `url_encode`, `url_decode` and the static `hextoint`. A string is the list
-- of its bytes. The buffers that the two functions allocate are modelled by their sizes.
pub mod Escapes
pub mod RoundTrip
pub mod Names
mod Examples
use Prim.Native.Char.{code}
use Prim.Native.String.{String}
use ddmframework.Common.{
  ℕ, suc, ◌+◌, ◌-◌, ◌*◌, ◌/◌, ◌%◌, Bool, true, false, not, ◌&&◌, ◌||◌, List, [], ◌∷◌, ◌++◌, ltb,
  leb, ◌==◌, if◌then◌else◌, length, get_or,
}

abbrev pub codes : String → List ℕ
codes String.[] = []
codes (String.◌∷◌ c s) = code c ∷ codes s

abbrev pub hexchars : List ℕ
hexchars = codes "0123456789ABCDEF"

-- The C library's `isupper`, `tolower` and `isxdigit` in the "C" locale.
is_upper : ℕ → Bool
is_upper c = leb b'A' c && leb c b'Z'

to_lower : ℕ → ℕ
unfolding is_upper
to_lower c = if is_upper c then c + 32 else c

is_digit : ℕ → Bool
is_digit c = leb b'0' c && leb c b'9'

pub is_xdigit : ℕ → Bool
unfolding is_digit
is_xdigit c = is_digit c || (leb b'A' c && leb c b'F') || (leb b'a' c && leb c b'f')

-- The value of one hexadecimal digit, as `hextoint` computes it twice.
hex_value : ℕ → ℕ
unfolding is_digit to_lower
hex_value s = let c = to_lower s in if is_digit c then c - b'0' else c - b'a' + 10

pub hextoint : ℕ → ℕ → ℕ
unfolding hex_value
hextoint high low = hex_value high * 16 + hex_value low

-- The bytes that are written as an escape.
pub is_reserved : ℕ → Bool
is_reserved c =
    (ltb c b'0' && not (c == b'-') && not (c == b'.'))
    || (ltb c b'A' && ltb b'9' c)
    || (ltb b'Z' c && ltb c b'a' && not (c == b'_'))
    || ltb b'z' c

pub encode_byte : ℕ → List ℕ
unfolding is_reserved
encode_byte c =
    if c == b' '
    then b'+' ∷ []
    else if is_reserved c
    then b'%' ∷ get_or hexchars (c / 16) 0 ∷ get_or hexchars (c % 16) 0 ∷ []
    else c ∷ []

pub url_encode : List ℕ → List ℕ
url_encode [] = []
url_encode (c ∷ s) = encode_byte c ++ url_encode s

-- `calloc(1, 3 * len + 1)`.
pub encode_capacity : List ℕ → ℕ
encode_capacity s = 3 * length s + 1

pub decode_plain : ℕ → ℕ
decode_plain c = if c == b'+' then b' ' else c

-- `len >= 2` after the decrement is the presence of two more bytes.
pub is_escape : ℕ → ℕ → ℕ → Bool
unfolding is_xdigit
is_escape c high low = c == b'%' && is_xdigit high && is_xdigit low

pub url_decode : List ℕ → List ℕ
unfolding decode_plain is_escape hextoint
url_decode [] = []
url_decode (c ∷ []) = decode_plain c ∷ []
url_decode (c ∷ d ∷ []) = decode_plain c ∷ decode_plain d ∷ []
url_decode (c ∷ high ∷ low ∷ rest) = elim (is_escape c high low) [
  | true ↦ hextoint high low ∷ url_decode rest
  | false ↦ decode_plain c ∷ url_decode (high ∷ low ∷ rest)
]

-- `malloc(len)`, and the bytes stored there: the decoded ones and the final NUL.
pub decode_capacity : List ℕ → ℕ
decode_capacity s = length s

pub decode_written : List ℕ → ℕ
decode_written s = suc (length (url_decode s))
