-- ===== src/Crc/Reference.antt =====
-- soaagent/crc32.c against the bitwise division by the polynomial in its comment (0xEDB88320, the
-- coefficients from the lowest bit up): the table routine does eight of its steps at a time.
use Prim.Native.Nat.{bit_and, bit_xor}
use ddmframework.Common.{
  ℕ, zero, suc, ◌+◌, ◌*◌, ◌/◌, ◌%◌, ◌^◌, ◌<◌, ◌≡◌, refl, ap, ◌∙◌, sym, Bool, true, List, [], ◌∷◌,
  ◌==◌, ==_iff, if◌then◌else◌, all_below, all_below_sound, get_or, IsBytes, arith, ◌⊎◌, inl, inr,
  bit_xor-lt, bit_xor-half, bit_xor-parity, bit_xor_comm, bit_xor_assoc, bit_xor_self, bit_xor-zero,
  bit_xor_fields, bit_and-low,
}
use native.Mathlib.Nat.{pow-suc}
use ddmframework.Crc.{crc32tab, crc_step, crc_loop, crc32}

-- One step of the division: the low bit leaves, and a 1 takes the polynomial off the rest.
unfoldable pub shift : ℕ → ℕ
shift x = if x % 2 == 1 then bit_xor (x / 2) 0xEDB88320 else x / 2

unfoldable pub shifts : ℕ → ℕ → ℕ
unfolding shift
shifts zero x = x
shifts (suc k) x = shifts k (shift x)

-- The division of a whole message, a bit at a time.
unfoldable pub divide : ℕ → List ℕ → ℕ
unfolding shifts
divide crc [] = crc
divide crc (p ∷ data_rest) = divide (shifts 8 (bit_xor crc p)) data_rest

pub shift-even : (x : ℕ) → x % 2 ≡ 0 → shift x ≡ x / 2
unfolding shift
shift-even x h = ground arith

pub shift-odd : (x : ℕ) → x % 2 ≡ 1 → shift x ≡ bit_xor (x / 2) 0xEDB88320
unfolding shift
shift-odd x h = ground arith

-- Exclusive ors exchange their inner operands.
exchange : (a b c d : ℕ) → bit_xor (bit_xor a b) (bit_xor c d) ≡ bit_xor (bit_xor a c) (bit_xor b d)
exchange a b c d =
    rw
      (
        bit_xor_assoc a b (bit_xor c d),
        sym (bit_xor_assoc b c d),
        bit_xor_comm b c,
        bit_xor_assoc c b d,
        bit_xor_assoc a c (bit_xor b d),
      )
      refl

pub parity_cases : (a : ℕ) → (a % 2 ≡ 0) ⊎ (a % 2 ≡ 1)
parity_cases a = omega arith

shift-bit_xor : (a b : ℕ) → shift (bit_xor a b) ≡ bit_xor (shift a) (shift b)
shift-bit_xor a b = elim (parity_cases a) [
  | inl a0 ↦ elim (parity_cases b) [
    | inl b0 ↦
        rw
          (
            shift-even a a0,
            shift-even b b0,
            shift-even (bit_xor a b) (omega (arith, bit_xor-parity a b)),
          )
          (bit_xor-half a b)
    | inr b1 ↦
        rw
          (
            shift-even a a0,
            shift-odd b b1,
            shift-odd (bit_xor a b) (omega (arith, bit_xor-parity a b)),
            bit_xor-half a b,
          )
          (bit_xor_assoc (a / 2) (b / 2) 0xEDB88320)
  ]
  | inr a1 ↦ elim (parity_cases b) [
    | inl b0 ↦
        rw
          (
            shift-odd a a1,
            shift-even b b0,
            shift-odd (bit_xor a b) (omega (arith, bit_xor-parity a b)),
            bit_xor-half a b,
            bit_xor_assoc (a / 2) (b / 2) 0xEDB88320,
            bit_xor_comm (b / 2) 0xEDB88320,
          )
          (sym (bit_xor_assoc (a / 2) 0xEDB88320 (b / 2)))
    | inr b1 ↦
        rw
          (
            shift-odd a a1,
            shift-odd b b1,
            shift-even (bit_xor a b) (omega (arith, bit_xor-parity a b)),
            exchange (a / 2) 0xEDB88320 (b / 2) 0xEDB88320,
            bit_xor_self 0xEDB88320,
            bit_xor-zero (bit_xor (a / 2) (b / 2)),
          )
          (bit_xor-half a b)
  ]
]

shifts-bit_xor : (k a b : ℕ) → shifts k (bit_xor a b) ≡ bit_xor (shifts k a) (shifts k b)
unfolding shifts
shifts-bit_xor zero a b = refl
shifts-bit_xor (suc k) a b = rw (shift-bit_xor a b) (shifts-bit_xor k (shift a) (shift b))

-- Zeros leave without a trace.
shifts-multiple : (k q : ℕ) → shifts k (q * 2 ^ k) ≡ q
unfolding shifts
shifts-multiple zero q = omega arith
shifts-multiple (suc k) q =
    let split : q * 2 ^ suc k ≡ 2 * (q * 2 ^ k) =
      omega (arith, ap (λ (t : ℕ). q * t) (pow-suc 2 k)) in
    let even : shift (q * 2 ^ suc k) ≡ q * 2 ^ k =
      shift-even (q * 2 ^ suc k) (omega (arith, split)) ∙ omega (arith, split) in
    rw (even) (shifts-multiple k q)

-- The table holds, for each byte, what eight steps make of it.
is_table_entry : ℕ → Bool
unfolding shifts crc32tab
is_table_entry r = get_or crc32tab r 0 == shifts 8 r

every : all_below 256 is_table_entry ≡ true
unfolding is_table_entry all_below
every = refl

table_entry : (r : ℕ) → r < 256 → get_or crc32tab r 0 ≡ shifts 8 r
unfolding is_table_entry
table_entry r h =
    ground (
      arith,
      all_below_sound 256 is_table_entry r h every,
      ==_iff (get_or crc32tab r 0) (shifts 8 r),
    )

shifts-word : (q r : ℕ) → r < 256 → shifts 8 (q * 2 ^ 8 + r) ≡ bit_xor q (get_or crc32tab r 0)
shifts-word q r h =
    rw
      (
        sym (bit_xor_fields 8 q r h),
        shifts-bit_xor 8 (q * 2 ^ 8) r,
        shifts-multiple 8 q,
        sym (table_entry r h),
      )
      refl

-- A byte meets only the low byte of a word.
bit_xor-word : (crc p : ℕ) → p < 256 → bit_xor crc p ≡ (crc / 2 ^ 8) * 2 ^ 8 + bit_xor (crc % 256) p
bit_xor-word crc p h =
    let word : crc ≡ bit_xor ((crc / 2 ^ 8) * 2 ^ 8) (crc % 256) =
      omega (arith, bit_xor_fields 8 (crc / 2 ^ 8) (crc % 256) (omega arith)) in
    ap (λ (c : ℕ). bit_xor c p) word
    ∙ bit_xor_assoc ((crc / 2 ^ 8) * 2 ^ 8) (crc % 256) p
    ∙ bit_xor_fields 8 (crc / 2 ^ 8) (bit_xor (crc % 256) p)
        (bit_xor-lt 8 (crc % 256) p (omega arith) h)

crc_step-shifts : (crc p : ℕ) → crc < 2 ^ 32 → p < 256 → crc_step crc p ≡ shifts 8 (bit_xor crc p)
unfolding crc_step
crc_step-shifts crc p hc hp =
    let low = bit_xor (crc % 256) p in
    let bound : low < 256 = bit_xor-lt 8 (crc % 256) p (omega arith) hp in
    let high : bit_and (crc / 2 ^ 8) 0x00FFFFFF ≡ crc / 2 ^ 8 =
      ap (λ (c : ℕ). bit_and c 0x00FFFFFF) (omega arith)
      ∙ bit_and-low 24 0 (crc / 2 ^ 8) (omega arith) in
    rw (bit_xor-word crc p hp, high, bit_and-low 8 (crc / 2 ^ 8) low bound)
      (sym (shifts-word (crc / 2 ^ 8) low bound))

pub shift-lt : (x : ℕ) → x < 2 ^ 32 → shift x < 2 ^ 32
shift-lt x h = elim (parity_cases x) [
  | inl even ↦ omega (arith, shift-even x even)
  | inr odd ↦
      omega (arith, shift-odd x odd, bit_xor-lt 32 (x / 2) 0xEDB88320 (omega arith) (omega arith))
]

pub shifts-lt : (k x : ℕ) → x < 2 ^ 32 → shifts k x < 2 ^ 32
unfolding shifts
shifts-lt zero x h = h
shifts-lt (suc k) x h = shifts-lt k (shift x) (shift-lt x h)

pub step-lt : (crc p : ℕ) → crc < 2 ^ 32 → p < 256 → shifts 8 (bit_xor crc p) < 2 ^ 32
step-lt crc p hc hp = shifts-lt 8 (bit_xor crc p) (bit_xor-lt 32 crc p hc (omega arith))

pub divide-cons :
    (crc p : ℕ) (rest : List ℕ) → divide crc (p ∷ rest) ≡ divide (shifts 8 (bit_xor crc p)) rest
unfolding divide
divide-cons crc p rest = refl

crc_loop-divide :
    (bytes : List ℕ) (crc : ℕ)
    → crc < 2 ^ 32
    → IsBytes bytes
    → (crc_loop crc bytes ≡ divide crc bytes) × (divide crc bytes < 2 ^ 32)
unfolding crc_loop divide
crc_loop-divide [] crc hc hb = (refl, hc)
crc_loop-divide (p ∷ rest) crc hc (hp, hb) =
    rw (divide-cons crc p rest, crc_step-shifts crc p hc hp)
      (crc_loop-divide rest (shifts 8 (bit_xor crc p)) (step-lt crc p hc hp) hb)

-- On any bytes, `crc32` is the division of the message by the polynomial bit by bit, started from
-- all ones and with the remainder's bits flipped at the end; it is a 32-bit number.
pub crc32-divide :
    (bytes : List ℕ)
    → IsBytes bytes
    → (crc32 bytes ≡ bit_xor (divide 0xFFFFFFFF bytes) 0xFFFFFFFF) × (crc32 bytes < 2 ^ 32)
unfolding crc32
crc32-divide bytes hb = (
  ap (λ (c : ℕ). bit_xor c 0xFFFFFFFF) (crc_loop-divide bytes 0xFFFFFFFF (omega arith) hb).0,
  bit_xor-lt 32 (crc_loop 0xFFFFFFFF bytes) 0xFFFFFFFF
      (omega (arith, crc_loop-divide bytes 0xFFFFFFFF (omega arith) hb)) (omega arith),
)
