-- ===== src/Crc/Detection.antt =====
-- soaagent/crc32.c: what the checksum of protocol.c tells apart.
use Prim.Native.Nat.{bit_xor}
use ddmframework.Common.{
  ℕ, ◌≢◌, zero, suc, ◌+◌, ◌*◌, ◌/◌, ◌^◌, ◌≤◌, ◌<◌, ◌≡◌, ap, ◌∙◌, sym, List, [], ◌∷◌, ◌++◌, IsBytes,
  arith, inl, inr, All-append, bit_xor-lt, bit_xor_comm, bit_xor_assoc, bit_xor_fields,
  bit_xor_cancel,
}
use ddmframework.Crc.{crc32}
use ddmframework.Crc.Reference.{
  shift, shifts, divide, shift-even, shift-odd, shift-lt, step-lt, parity_cases, crc32-divide,
}

bit_xor_injective : (a b m : ℕ) → bit_xor a m ≡ bit_xor b m → a ≡ b
bit_xor_injective a b m e =
    sym (bit_xor_cancel a m) ∙ ap (λ (t : ℕ). bit_xor t m) e ∙ bit_xor_cancel b m

-- The polynomial's top bit shows that it was taken off.
taken_off : (a : ℕ) → a < 2 ^ 31 → 2 ^ 31 ≤ bit_xor a 0xEDB88320
taken_off a h =
    let top : bit_xor a 0xEDB88320 ≡ 2 ^ 31 + bit_xor 0x6DB88320 a =
      bit_xor_comm a 0xEDB88320
      ∙ bit_xor_assoc (1 * 2 ^ 31) 0x6DB88320 a
      ∙ bit_xor_fields 31 1 (bit_xor 0x6DB88320 a) (bit_xor-lt 31 0x6DB88320 a (omega arith) h) in
    omega (arith, top)

shift_injective : (x y : ℕ) → x < 2 ^ 32 → y < 2 ^ 32 → shift x ≡ shift y → x ≡ y
shift_injective x y hx hy e = elim (parity_cases x) [
  | inl x0 ↦ elim (parity_cases y) [
    | inl y0 ↦ omega (arith, shift-even x x0, shift-even y y0)
    | inr y1 ↦
        absurd (omega (arith, shift-even x x0, shift-odd y y1, taken_off (y / 2) (omega arith)))
  ]
  | inr x1 ↦ elim (parity_cases y) [
    | inl y0 ↦
        absurd (omega (arith, shift-odd x x1, shift-even y y0, taken_off (x / 2) (omega arith)))
    | inr y1 ↦
        let half : x / 2 ≡ y / 2 =
          bit_xor_injective (x / 2) (y / 2) 0xEDB88320
            (sym (shift-odd x x1) ∙ e ∙ shift-odd y y1) in
        omega arith
  ]
]

shifts_injective : (k x y : ℕ) → x < 2 ^ 32 → y < 2 ^ 32 → shifts k x ≡ shifts k y → x ≡ y
unfolding shifts
shifts_injective zero x y hx hy e = e
shifts_injective (suc k) x y hx hy e =
    shift_injective x y hx hy
      (shifts_injective k (shift x) (shift y) (shift-lt x hx) (shift-lt y hy) e)

divide_injective :
    (bytes : List ℕ) (x y : ℕ)
    → x < 2 ^ 32
    → y < 2 ^ 32
    → IsBytes bytes
    → divide x bytes ≡ divide y bytes
    → x ≡ y
unfolding divide
divide_injective [] x y hx hy hb e = e
divide_injective (p ∷ rest) x y hx hy (hp, hb) e = bit_xor_injective x y p (
    shifts_injective 8 (bit_xor x p) (bit_xor y p) (bit_xor-lt 32 x p hx (omega arith))
      (bit_xor-lt 32 y p hy (omega arith))
      (divide_injective rest (shifts 8 (bit_xor x p)) (shifts 8 (bit_xor y p)) (step-lt x p hx hp)
        (step-lt y p hy hp) hb e))

divide-byte :
    (before rest : List ℕ) (a b x : ℕ)
    → x < 2 ^ 32
    → IsBytes before
    → IsBytes rest
    → a < 256
    → b < 256
    → divide x (before ++ a ∷ rest) ≡ divide x (before ++ b ∷ rest)
    → a ≡ b
unfolding divide
divide-byte [] rest a b x hx hb hr ha hb2 e = bit_xor_injective a b x (
    bit_xor_comm a x
    ∙ shifts_injective 8 (bit_xor x a) (bit_xor x b) (bit_xor-lt 32 x a hx (omega arith))
        (bit_xor-lt 32 x b hx (omega arith))
        (divide_injective rest (shifts 8 (bit_xor x a)) (shifts 8 (bit_xor x b)) (step-lt x a hx ha)
          (step-lt x b hx hb2) hr e)
    ∙ bit_xor_comm x b)
divide-byte (p ∷ before) rest a b x hx (hp, hb) hr ha hb2 e =
    divide-byte before rest a b (shifts 8 (bit_xor x p)) (step-lt x p hx hp) hb hr ha hb2 e

pub crc32-byte :
    (before rest : List ℕ) (a b : ℕ)
    → IsBytes before
    → IsBytes rest
    → a < 256
    → b < 256
    → crc32 (before ++ a ∷ rest) ≡ crc32 (before ++ b ∷ rest)
    → a ≡ b
crc32-byte before rest a b hb hr ha hb2 e =
    divide-byte before rest a b 0xFFFFFFFF (omega arith) hb hr ha hb2 (
      bit_xor_injective _ _ 0xFFFFFFFF (
        sym
          (crc32-divide (before ++ a ∷ rest)
            (All-append (λ c. c < 256) before (a ∷ rest) hb (ha, hr))).0
        ∙ e
        ∙ (crc32-divide (before ++ b ∷ rest)
            (All-append (λ c. c < 256) before (b ∷ rest) hb (hb2, hr))).0))

-- A message of bytes in which one byte was changed, at any place, has another checksum.
pub crc32_damaged :
    (before rest : List ℕ) (a b : ℕ)
    → IsBytes before
    → IsBytes rest
    → a < 256
    → b < 256
    → a ≢ b
    → crc32 (before ++ a ∷ rest) ≢ crc32 (before ++ b ∷ rest)
crc32_damaged before rest a b hb hr ha hb2 ne e = ne (crc32-byte before rest a b hb hr ha hb2 e)
