-- ===== src/Common/Bits.antt =====
-- Exclusive or and masks at variables, from the lowest digit.
use Prim.Native.Nat.{
  ℕ, zero, suc, ◌+◌, ◌*◌, ◌/◌, ◌%◌, ◌^◌, ◌≤◌, ◌<◌, ◌-◌, min, bit_xor, bit_xor-bitwise, bit_and,
  bit_and-bitwise, digits, differ,
}
use mathlib.Core.Path.{◌≡◌, refl, ap}
use native.Mathlib.Nat.{pow-suc}
use native.Mathlib.Omega.{arith}

-- The digits of two numbers, combined: any fuel that the first number does not exceed is enough,
-- and the lowest digit comes off.
module _ (alone : ℕ → ℕ) (combine : ℕ → ℕ → ℕ) where
  enough_digits :
      (x y fuel more : ℕ)
      → x ≤ more
      → x ≤ fuel
      → digits alone combine more x y ≡ digits alone combine fuel x y
  enough_digits zero y zero zero below under = refl
  enough_digits zero y zero (suc more) below under = refl
  enough_digits zero y (suc fuel) zero below under = refl
  enough_digits zero y (suc fuel) (suc more) below under = refl
  enough_digits (suc x) y zero more below under = absurd (omega arith)
  enough_digits (suc x) y (suc fuel) zero below under = absurd (omega arith)
  enough_digits (suc x) y (suc fuel) (suc more) below under =
      let halves : digits alone combine more (suc x / 2) (y / 2)
          ≡ digits alone combine fuel (suc x / 2) (y / 2) =
        enough_digits (suc x / 2) (y / 2) fuel more (omega arith) (omega arith) in
      omega (arith, halves)

  lowest_digit :
      (x y : ℕ)
      → digits alone combine (suc x) (suc x) y
        ≡ digits alone combine (suc x / 2) (suc x / 2) (y / 2) * 2 + combine (suc x % 2) (y % 2)
  lowest_digit x y =
      let halves = enough_digits (suc x / 2) (y / 2) (suc x / 2) x (omega arith) (omega arith) in
      omega (arith, halves)

differ_lem : (x y : ℕ) → x < 2 → y < 2 → differ x y ≡ (x + y) % 2
differ_lem zero zero p q = refl
differ_lem zero (suc zero) p q = refl
differ_lem (suc zero) zero p q = refl
differ_lem (suc zero) (suc zero) p q = refl
differ_lem _ _ p q = absurd (omega arith)

zero-bit_xor : (b : ℕ) → bit_xor 0 b ≡ b
zero-bit_xor b = bit_xor-bitwise 0 b

pub bit_xor_step : (a b : ℕ) → bit_xor a b ≡ bit_xor (a / 2) (b / 2) * 2 + (a + b) % 2
bit_xor_step zero b = omega (arith, zero-bit_xor b, zero-bit_xor (b / 2))
bit_xor_step (suc a) b =
    let digit = differ_lem (suc a % 2) (b % 2) (omega arith) (omega arith) in
    let lowest = lowest_digit (λ y. y) differ a b in
    omega (arith, lowest, digit, bit_xor-bitwise (suc a / 2) (b / 2), bit_xor-bitwise (suc a) b)

-- No more digits than the operands.
pub bit_xor-lt : (k a b : ℕ) → a < 2 ^ k → b < 2 ^ k → bit_xor a b < 2 ^ k
bit_xor-lt zero a b p q =
    let a0 : a ≡ 0 = omega arith in let b0 : b ≡ 0 = omega arith in rw (a0, b0) (omega arith)
bit_xor-lt (suc k) a b p q = omega (
  arith,
  pow-suc 2 k,
  bit_xor_step a b,
  bit_xor-lt k (a / 2) (b / 2) (omega (arith, pow-suc 2 k)) (omega (arith, pow-suc 2 k)),
)

-- The halves and the parity of an exclusive or.
pub bit_xor-half : (a b : ℕ) → bit_xor a b / 2 ≡ bit_xor (a / 2) (b / 2)
bit_xor-half a b = omega (arith, bit_xor_step a b)

pub bit_xor-parity : (a b : ℕ) → bit_xor a b % 2 ≡ (a + b) % 2
bit_xor-parity a b = omega (arith, bit_xor_step a b)

-- Two numbers with the same halves and parity are equal.
by_half : (a b : ℕ) → a / 2 ≡ b / 2 → a % 2 ≡ b % 2 → a ≡ b
by_half a b h p = omega arith

comm_fuel : (n a b : ℕ) → a ≤ n → b ≤ n → bit_xor a b ≡ bit_xor b a
comm_fuel zero zero zero p q = refl
comm_fuel zero (suc a) b p q = absurd (omega arith)
comm_fuel zero zero (suc b) p q = absurd (omega arith)
comm_fuel (suc n) a b p q = omega (
  arith,
  bit_xor_step a b,
  bit_xor_step b a,
  comm_fuel n (a / 2) (b / 2) (omega arith) (omega arith),
)

pub bit_xor_comm : (a b : ℕ) → bit_xor a b ≡ bit_xor b a
bit_xor_comm a b = comm_fuel (a + b) a b (omega arith) (omega arith)

assoc_fuel :
    (n a b c : ℕ) → a ≤ n → b ≤ n → c ≤ n → bit_xor (bit_xor a b) c ≡ bit_xor a (bit_xor b c)
assoc_fuel zero zero zero zero p q r = refl
assoc_fuel zero (suc a) b c p q r = absurd (omega arith)
assoc_fuel zero zero (suc b) c p q r = absurd (omega arith)
assoc_fuel zero zero zero (suc c) p q r = absurd (omega arith)
assoc_fuel (suc n) a b c p q r =
    by_half _ _
      (rw (bit_xor-half, bit_xor-half, bit_xor-half, bit_xor-half)
        (assoc_fuel n (a / 2) (b / 2) (c / 2) (omega arith) (omega arith) (omega arith)))
      (omega (
        arith,
        bit_xor-parity (bit_xor a b) c,
        bit_xor-parity a b,
        bit_xor-parity a (bit_xor b c),
        bit_xor-parity b c,
      ))

pub bit_xor_assoc : (a b c : ℕ) → bit_xor (bit_xor a b) c ≡ bit_xor a (bit_xor b c)
bit_xor_assoc a b c = assoc_fuel (a + b + c) a b c (omega arith) (omega arith) (omega arith)

self_fuel : (n a : ℕ) → a ≤ n → bit_xor a a ≡ 0
self_fuel zero zero h = refl
self_fuel zero (suc a) h = absurd (omega arith)
self_fuel (suc n) a h = omega (arith, bit_xor_step a a, self_fuel n (a / 2) (omega arith))

pub bit_xor_self : (a : ℕ) → bit_xor a a ≡ 0
bit_xor_self a = self_fuel a a (omega arith)

pub bit_xor-zero : (a : ℕ) → bit_xor a 0 ≡ a
bit_xor-zero a = omega (arith, bit_xor_comm a 0, zero-bit_xor a)

-- Applying a mask twice undoes it.
pub bit_xor_cancel : (a b : ℕ) → bit_xor (bit_xor a b) b ≡ a
bit_xor_cancel a b = rw (bit_xor_assoc a b b, bit_xor_self b) (bit_xor-zero a)

-- The low `k` digits and the rest do not meet.
pub bit_xor_fields : (k q r : ℕ) → r < 2 ^ k → bit_xor (q * 2 ^ k) r ≡ q * 2 ^ k + r
bit_xor_fields zero q r h =
    let r0 : r ≡ 0 = omega arith in rw (r0, bit_xor-zero (q * 2 ^ 0)) (omega arith)
bit_xor_fields (suc k) q r h =
    let split : q * 2 ^ suc k ≡ 2 * (q * 2 ^ k) =
      omega (arith, ap (λ (t : ℕ). q * t) (pow-suc 2 k)) in
    let half : q * 2 ^ suc k / 2 ≡ q * 2 ^ k = omega (arith, split) in
    rw (bit_xor_step (q * 2 ^ suc k) r, half)
      (omega (arith, split, bit_xor_fields k q (r / 2) (omega (arith, pow-suc 2 k))))

nothing_masked : (y : ℕ) → bit_and 0 y ≡ 0
nothing_masked y = bit_and-bitwise 0 y

bit_and_halves :
    (x mask : ℕ) → bit_and x mask ≡ 2 * bit_and (x / 2) (mask / 2) + min (x % 2) (mask % 2)
bit_and_halves zero mask = omega (arith, nothing_masked (mask / 2), nothing_masked mask)
bit_and_halves (suc x) mask =
    let lowest = lowest_digit (λ y. zero) min x mask in
    omega (arith, lowest, bit_and-bitwise (suc x / 2) (mask / 2), bit_and-bitwise (suc x) mask)

empty_mask_steps : (steps x : ℕ) → x ≤ steps → bit_and x 0 ≡ 0
empty_mask_steps zero x h = let none : x ≡ 0 = omega arith in rw none (nothing_masked 0)
empty_mask_steps (suc steps) x h =
    omega (arith, empty_mask_steps steps (x / 2) (omega arith), bit_and_halves x 0)

empty_mask : (x : ℕ) → bit_and x 0 ≡ 0
empty_mask x = empty_mask_steps x x (omega arith)

-- A mask of `k` ones keeps the low `k` digits.
pub bit_and-low : (k q r : ℕ) → r < 2 ^ k → bit_and (q * 2 ^ k + r) (2 ^ k - 1) ≡ r
bit_and-low zero q r h = omega (arith, empty_mask (q * 2 ^ 0 + r))
bit_and-low (suc k) q r h =
    let split : q * 2 ^ suc k ≡ 2 * (q * 2 ^ k) =
      omega (arith, ap (λ (t : ℕ). q * t) (pow-suc 2 k)) in
    let half : (q * 2 ^ suc k + r) / 2 ≡ q * 2 ^ k + r / 2 = omega (arith, split) in
    let positive : 0 < 2 ^ k = omega arith in
    let half_mask : (2 ^ suc k - 1) / 2 ≡ 2 ^ k - 1 = omega (arith, pow-suc 2 k) in
    rw (bit_and_halves (q * 2 ^ suc k + r) (2 ^ suc k - 1), half, half_mask)
      (omega (arith, split, pow-suc 2 k, bit_and-low k q (r / 2) (omega (arith, pow-suc 2 k))))
