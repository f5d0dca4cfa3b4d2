-- ===== src/Url/RoundTrip.antt =====
-- Decoding an encoded string gives it back, and the encoder's output is plain.
use ddmframework.Common.{
  ℕ, ◌/◌, ◌%◌, ◌≤◌, ◌<◌, ◌≡◌, refl, ap, ◌∙◌, ◌≢◌, inl, inr, Bool, true, false, List, [], ◌∷◌, ◌++◌,
  arith, ◌==◌, ==_iff, ◌&&◌, get_or, IsBytes, all_below, all_below_sound, Bool-cases, and_eq_true,
  length, length-append,
}
use ddmframework.Url.{
  hexchars, is_xdigit, hextoint, is_reserved, encode_byte, url_encode, encode_capacity,
  decode_plain, is_escape, url_decode,
}

abbrev hex_digit : ℕ → ℕ
hex_digit n = get_or hexchars n 0

url_decode-plain :
    (c : ℕ) (rest : List ℕ) → c ≢ b'%' → url_decode (c ∷ rest) ≡ decode_plain c ∷ url_decode rest
unfolding url_decode is_escape
url_decode-plain c [] h = refl
url_decode-plain c (d ∷ []) h = refl
url_decode-plain c (d ∷ e ∷ rest) h = ground arith

abbrev escapes_well : ℕ → Bool
escapes_well c =
    is_xdigit (hex_digit (c / 16))
    && is_xdigit (hex_digit (c % 16))
    && (hextoint (hex_digit (c / 16)) (hex_digit (c % 16)) == c)

escapes_well_table : all_below 256 escapes_well ≡ true
unfolding all_below is_xdigit hextoint
escapes_well_table = refl

is_escape-hex :
    (high low : ℕ) → is_xdigit high ≡ true → is_xdigit low ≡ true → is_escape b'%' high low ≡ true
unfolding is_escape
is_escape-hex high low h l = rw (h, l)

url_decode-hex :
    (high low c : ℕ) (rest : List ℕ)
    → is_xdigit high ≡ true
    → is_xdigit low ≡ true
    → hextoint high low ≡ c
    → url_decode (b'%' ∷ high ∷ low ∷ rest) ≡ c ∷ url_decode rest
unfolding url_decode
url_decode-hex high low c rest h l e = rw (is_escape-hex high low h l, url_decode, e)

url_decode-escape :
    (c : ℕ) (rest : List ℕ)
    → c < 256
    → url_decode (b'%' ∷ hex_digit (c / 16) ∷ hex_digit (c % 16) ∷ rest) ≡ c ∷ url_decode rest
url_decode-escape c rest h =
    let well = all_below_sound 256 escapes_well c h escapes_well_table in
    let (digits, value) = and_eq_true _ _ well in
    let (high, low) = and_eq_true _ _ digits in
    url_decode-hex _ _ c rest high low ((==_iff _ c).0 value)

-- A byte that is neither a space nor reserved is none of the two that the decoder treats apart.
not_reserved : (c : ℕ) → is_reserved c ≡ false → (c ≢ b'%') × (c ≢ b'+')
unfolding is_reserved
not_reserved c h = ground arith

decode_plain_lem : (c : ℕ) → c ≢ b'+' → decode_plain c ≡ c
unfolding decode_plain
decode_plain_lem c h = ground arith

-- Decoding what was written for one byte gives the byte.
url_decode-encode_byte :
    (c : ℕ) (rest : List ℕ) → c < 256 → url_decode (encode_byte c ++ rest) ≡ c ∷ url_decode rest
unfolding encode_byte decode_plain
url_decode-encode_byte c rest h = elim (Bool-cases (c == b' ')) [
  | inl space ↦ rw space (rw ((==_iff c b' ').0 space) (url_decode-plain b'+' rest (omega arith)))
  | inr other ↦ rw other elim (Bool-cases (is_reserved c)) [
    | inl reserved ↦ rw reserved (url_decode-escape c rest h)
    | inr plain ↦
        let (percent, plus) = not_reserved c plain in
        rw plain (
          url_decode-plain c rest percent ∙ ap (λ b. b ∷ url_decode rest) (decode_plain_lem c plus))
  ]
]

-- Decoding an encoded string of bytes gives the string back.
pub url_decode-url_encode : (s : List ℕ) → IsBytes s → url_decode (url_encode s) ≡ s
unfolding url_encode url_decode
url_decode-url_encode [] h = refl
url_decode-url_encode (c ∷ s) (byte, rest) =
    url_decode-encode_byte c (url_encode s) byte ∙ ap (◌∷◌ c) (url_decode-url_encode s rest)

length-encode_byte : (c : ℕ) → length (encode_byte c) ≤ 3
unfolding encode_byte
length-encode_byte c = ground arith

-- The encoded string and its final NUL fit the buffer that `url_encode` allocates.
length-url_encode : (s : List ℕ) → length (url_encode s) < encode_capacity s
unfolding url_encode encode_capacity
length-url_encode [] = omega arith
length-url_encode (c ∷ s) =
    omega (
      arith,
      length-append (encode_byte c) (url_encode s),
      length-encode_byte c,
      length-url_encode s,
    )
