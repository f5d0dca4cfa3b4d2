-- ===== src/StringArray/RoundRobin.antt =====
-- `string_array_next` hands the strings out in turn.
use native.Mathlib.Nat.{mod-lt, div-add-mod}
use ddmframework.Common.{
  ℕ, zero, suc, ◌+◌, ◌-◌, ◌*◌, ◌/◌, ◌%◌, ◌^◌, ◌<◌, ◌≡◌, refl, ap, ◌∙◌, ◌≢◌, ◌↔◌, List, [], ◌∷◌,
  some, arith, Key, length, get_elem?, leb, Bool-cases, inl, inr, ◌⊎◌, if◌then◌else◌,
}
use ddmframework.StringArray.{StringArray, null, found, out_of_range, string_array_next}

-- The array after `n` calls, whose results are thrown away.
pub after : ℕ → StringArray → StringArray
after zero a = a
after (suc n) a = after n (string_array_next a).0

get_elem?-lt {ℓ} :
    {A : Type ℓ} (xs : List A) (i : ℕ) → i < length xs → (x : A) × (get_elem? xs i ≡ some x)
get_elem?-lt [] i h = absurd (omega arith)
get_elem?-lt (x ∷ xs) zero h = (x, refl)
get_elem?-lt (x ∷ xs) (suc i) h = get_elem?-lt xs i (omega arith)

length_pos {ℓ} : {A : Type ℓ} (xs : List A) → xs ≢ [] → 0 < length xs
length_pos [] ne = absurd (ne refl)
length_pos (x ∷ xs) ne = omega arith

-- On a non-empty array a call returns a string and moves the counter by one, modulo 2^32.
next_nonempty :
    (a : StringArray)
    → a.strs ≢ []
    → (k : Key) × (get_elem? a.strs (a.counter % length a.strs) ≡ some k)
      × (string_array_next a ≡ (record a { counter = (a.counter + 1) % 2 ^ 32 }, found k))
unfolding string_array_next
next_nonempty a ne =
    let pos = length_pos a.strs ne in
    let (k, e) = get_elem?-lt a.strs (a.counter % length a.strs) (omega arith) in
    (k, e, ground arith)

next_empty : (a : StringArray) → a.strs ≡ [] → string_array_next a ≡ (a, null)
unfolding string_array_next
next_empty a e = ground (arith, ap length e)

List-cases {ℓ} : {A : Type ℓ} (xs : List A) → (xs ≡ []) ⊎ (xs ≢ [])
List-cases [] = inl refl
List-cases (x ∷ xs) = inr (λ e. cc)

-- A call never reads out of range, and returns NULL exactly when the array is empty.
pub string_array_next_range :
    (a : StringArray)
    → ((string_array_next a).1 ≢ out_of_range) × (((string_array_next a).1 ≡ null) ↔ (a.strs ≡ []))
string_array_next_range a = elim (List-cases a.strs) [
  | inl e ↦ rw (next_empty a e) (λ h. cc, (λ _. e, λ _. refl))
  | inr ne ↦ let (k, _, run) = next_nonempty a ne in rw run (λ h. cc, (λ h. cc, λ e. absurd (ne e)))
]

after_nonempty :
    (n : ℕ) (a : StringArray)
    → a.strs ≢ []
    → a.counter + n < 2 ^ 32
    → after n a ≡ record a { counter = a.counter + n }
unfolding after
after_nonempty zero a ne h = ground arith
after_nonempty (suc n) a ne h =
    let moved = record a { counter = (a.counter + 1) % 2 ^ 32 } in
    let (k, _, run) = next_nonempty a ne in
    rw run
      (after_nonempty n moved ne (omega arith) ∙ ap (λ c. record a { counter = c }) (omega arith))

turn_mod : (q n r m : ℕ) → r < n → m ≡ q * n + r → m % n ≡ r
turn_mod q n r m h e = grind arith

-- How many calls are made before the one that returns the string at index `j`.
abbrev pub turn : ℕ → ℕ → ℕ → ℕ
turn counter count j =
    if leb (counter % count) j then j - counter % count else j + count - counter % count

turn-lt : (counter count j : ℕ) → j < count → turn counter count j < count
turn-lt counter count j h = ground arith

turn_lem : (counter count j : ℕ) → j < count → (counter + turn counter count j) % count ≡ j
turn_lem counter count j h =
    let split = div-add-mod counter count in
    let low = mod-lt counter {m = count} (omega arith) in
    elim (Bool-cases (leb (counter % count) j)) [
      | inl e ↦ rw e (turn_mod (counter / count) count j _ h (ground arith))
      | inr e ↦ rw e (turn_mod (counter / count + 1) count j _ h (ground arith))
    ]

-- The rotation is fair: of any `count` calls in a row on an array of `count` strings, one returns
-- the string at index `j`, for every `j`, as long as the 32-bit counter does not wrap meanwhile.
pub string_array_next_fair :
    (a : StringArray) (j : ℕ)
    → j < length a.strs
    → a.counter + length a.strs < 2 ^ 32
    → (i : ℕ) × (k : Key) × (i < length a.strs)
      × (get_elem? a.strs j ≡ some k)
      × ((string_array_next (after i a)).1 ≡ found k)
string_array_next_fair a j h fits =
    let i = turn a.counter (length a.strs) j in
    let i_lt = turn-lt a.counter (length a.strs) j h in
    let ne : a.strs ≢ [] = λ e. absurd (omega (arith, ap length e)) in
    let turned = record a { counter = a.counter + i } in
    let (k, at, run) = next_nonempty turned ne in
    (
      i,
      k,
      i_lt,
      rw (turn_lem a.counter (length a.strs) j h) at at,
      rw (after_nonempty i a ne (omega arith)) (ap (λ r. r.1) run),
    )
