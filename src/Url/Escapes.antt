-- ===== src/Url/Escapes.antt =====
-- How much `url_decode` stores, by the escapes that it finds.
use ddmframework.Common.{
  ℕ, suc, ◌+◌, ◌*◌, ◌≤◌, ◌<◌, ◌≡◌, refl, ◌↔◌, true, false, List, [], ◌∷◌, arith, length,
}
use ddmframework.Url.{is_escape, url_decode, decode_capacity, decode_written}

-- The escapes that the decoder consumes, from the left.
pub count_escapes : List ℕ → ℕ
count_escapes [] = 0
count_escapes (c ∷ []) = 0
count_escapes (c ∷ d ∷ []) = 0
count_escapes (c ∷ high ∷ low ∷ rest) = elim (is_escape c high low) [
  | true ↦ suc (count_escapes rest)
  | false ↦ count_escapes (high ∷ low ∷ rest)
]

length-url_decode : (s : List ℕ) → length (url_decode s) + 2 * count_escapes s ≡ length s
unfolding url_decode count_escapes
length-url_decode [] = refl
length-url_decode (c ∷ []) = refl
length-url_decode (c ∷ d ∷ []) = refl
length-url_decode (c ∷ high ∷ low ∷ rest) =
    ground (arith, length-url_decode rest, length-url_decode (high ∷ low ∷ rest))

-- What `url_decode` stores stays inside the buffer that it allocates exactly when the string
-- holds an escape: without one the final NUL is written one byte past the end.
pub decode_written-le-decode_capacity :
    (s : List ℕ) → (decode_written s ≤ decode_capacity s) ↔ (0 < count_escapes s)
unfolding decode_written decode_capacity
decode_written-le-decode_capacity s =
    (λ h. omega (arith, length-url_decode s), λ h. omega (arith, length-url_decode s))
