-- ===== src/StringArray/Examples.antt =====
-- The theorem on string arrays at an array of two strings.
use ddmframework.Common.{
  ℕ, ◌<◌, ◌≡◌, refl, [], ◌∷◌, some, arith, str_eq, Key, has, NoDup, get_elem?,
}
use ddmframework.StringArray.{StringArray, found, string_array_next}
use ddmframework.StringArray.RoundRobin.{after, string_array_next_fair}

abbrev first_key : Key
first_key = b'a' ∷ b'#' ∷ b'1' ∷ []

abbrev second_key : Key
second_key = b'b' ∷ b'#' ∷ b'2' ∷ []

abbrev two_keys : StringArray
two_keys = record { strs = first_key ∷ second_key ∷ []; counter = 5 }

two_keys-NoDup : NoDup two_keys.strs
unfolding has str_eq
two_keys-NoDup = (refl, (refl, tt))

string_array_next_fair_example :
    (i : ℕ) × (k : Key) × (i < 2)
    × (get_elem? two_keys.strs 0 ≡ some k)
    × ((string_array_next (after i two_keys)).1 ≡ found k)
string_array_next_fair_example = string_array_next_fair two_keys 0 (omega arith) (omega arith)
