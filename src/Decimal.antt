-- ===== src/Decimal.antt =====
-- `%d` of the C library on a number that is not negative, and its digits read back.
use native.Mathlib.Nat.{pow-suc}
use ddmframework.Common.{
  ℕ, zero, suc, ◌+◌, ◌-◌, ◌*◌, ◌/◌, ◌%◌, ◌^◌, ◌≤◌, ◌<◌, ◌≡◌, refl, ap, ◌∙◌, sym, inl, inr, List, [],
  ◌∷◌, ◌++◌, arith, ltb, if◌then◌else◌, length, length-append, All, All-append, Bool-cases,
}

print_fuel : ℕ → ℕ → List ℕ
print_fuel zero n = []
print_fuel (suc fuel) n =
    let front = print_fuel fuel (n / 10) in
    if ltb n 10 then (b'0' + n) ∷ [] else front ++ (b'0' + n % 10) ∷ []

-- A number has no more digits than its value and one.
unfoldable pub print : ℕ → List ℕ
unfolding print_fuel
print n = print_fuel (suc n) n

unfoldable pub read_from : ℕ → List ℕ → ℕ
read_from acc [] = acc
read_from acc (d ∷ ds) = read_from (acc * 10 + (d - b'0')) ds

read_from-snoc :
    (acc : ℕ) (xs : List ℕ) (d : ℕ)
    → read_from acc (xs ++ d ∷ []) ≡ read_from acc xs * 10 + (d - b'0')
unfolding read_from
read_from-snoc acc [] d = refl
read_from-snoc acc (x ∷ xs) d = read_from-snoc (acc * 10 + (x - b'0')) xs d

read_from-print_fuel : (fuel n : ℕ) → n < fuel → read_from 0 (print_fuel fuel n) ≡ n
unfolding print_fuel read_from
read_from-print_fuel zero n h = absurd (omega arith)
read_from-print_fuel (suc fuel) n h = elim (Bool-cases (ltb n 10)) [
  | inl small ↦ rw small (omega arith)
  | inr large ↦ ground (
    arith,
    read_from-snoc 0 (print_fuel fuel (n / 10)) (b'0' + n % 10),
    read_from-print_fuel fuel (n / 10),
  )
]

-- Reading the printed digits gives the number back.
pub read_from-print : (n : ℕ) → read_from 0 (print n) ≡ n
unfolding print
read_from-print n = read_from-print_fuel (suc n) n (omega arith)

pub print_injective : (m n : ℕ) → print m ≡ print n → m ≡ n
print_injective m n e = sym (read_from-print m) ∙ ap (read_from 0) e ∙ read_from-print n

abbrev pub IsDigit : ℕ → Type 0
IsDigit d = (b'0' ≤ d) × (d ≤ b'9')

digits_fuel : (fuel n : ℕ) → All IsDigit (print_fuel fuel n)
unfolding print_fuel
digits_fuel zero n = tt
digits_fuel (suc fuel) n = elim (Bool-cases (ltb n 10)) [
  | inl small ↦ rw small (ground arith)
  | inr large ↦
      rw large
        (All-append IsDigit (print_fuel fuel (n / 10)) _ (digits_fuel fuel (n / 10)) (omega arith))
]

pub print-All : (n : ℕ) → All IsDigit (print n)
unfolding print
print-All n = digits_fuel (suc n) n

length-print_fuel : (fuel k n : ℕ) → n < 10 ^ suc k → length (print_fuel fuel n) ≤ suc k
unfolding print_fuel
length-print_fuel zero k n h = omega arith
length-print_fuel (suc fuel) zero n h = ground arith
length-print_fuel (suc fuel) (suc k) n h = elim (Bool-cases (ltb n 10)) [
  | inl small ↦ rw small (omega arith)
  | inr large ↦ rw large (
      omega (
        arith,
        length-append (print_fuel fuel (n / 10)) ((b'0' + n % 10) ∷ []),
        length-print_fuel fuel k (n / 10) (omega (arith, pow-suc 10 (suc k))),
      ))
]

-- A number below 10^(k+1) has at most k+1 digits.
pub length-print : (k n : ℕ) → n < 10 ^ suc k → length (print n) ≤ suc k
unfolding print
length-print k n h = length-print_fuel (suc n) k n h

-- A number has a digit.
pub print-le : (n : ℕ) → 1 ≤ length (print n)
unfolding print print_fuel
print-le n = ground (arith, length-append (print_fuel n (n / 10)) ((b'0' + n % 10) ∷ []))
