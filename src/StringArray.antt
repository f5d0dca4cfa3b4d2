-- ===== src/StringArray.antt =====
-- soaagent/str_array.c: the array of node keys of a service, with its round-robin counter. The
-- `UT_array` of copied strings is a list of byte strings; `none` stands for the index -1.
pub mod Members
pub mod RoundRobin
mod Examples
use ddmframework.Common.{
  ℕ, suc, ◌+◌, ◌%◌, ◌^◌, List, [], ◌∷◌, ◌++◌, Option, none, some, str_eq, if◌then◌else◌, ◌==◌, Key,
  length, get_elem?,
}
use mathlib.Core.Option

pub record StringArray : Type 0 where
  pub strs : List Key
  -- uint32_t
  pub counter : ℕ

unfoldable pub string_array_init : StringArray
string_array_init = record { strs = []; counter = 0 }

unfoldable pub index_of : List Key → Key → Option ℕ
index_of [] value = none
index_of (x ∷ xs) value = if str_eq x value then some 0 else Option.map suc (index_of xs value)

unfoldable pub string_array_find : StringArray → Key → Option ℕ
unfolding index_of
string_array_find array value = index_of array.strs value

unfoldable pub string_array_add : StringArray → Key → StringArray
unfolding string_array_find
string_array_add array value = elim (string_array_find array value) [
  | some _ ↦ array
  | none ↦ record array { strs = array.strs ++ value ∷ [] }
]

-- `utarray_erase(a, pos, 1)`.
unfoldable pub erase_at : List Key → ℕ → List Key
erase_at [] i = []
erase_at (x ∷ xs) ℕ.zero = xs
erase_at (x ∷ xs) (suc i) = x ∷ erase_at xs i

-- The returned flag is -1 (`none`) where the value is missing.
unfoldable pub string_array_delete : StringArray → Key → StringArray × Option ℕ
unfolding string_array_find erase_at
string_array_delete array value = elim (string_array_find array value) [
  | none ↦ (array, none)
  | some idx ↦ (record array { strs = erase_at array.strs idx }, some 0)
]

-- What `string_array_next` returns: NULL, a string, or a read past the last element.
pub data Next : Type 0 where
  null : Next
  found : Key → Next
  out_of_range : Next

abbrev pub fetched : Option Key → Next
fetched none = out_of_range
fetched (some key) = found key

unfoldable pub string_array_next : StringArray → StringArray × Next
string_array_next array =
    let count = length array.strs in
    if count == 0 then (array, null) else (
      record array { counter = (array.counter + 1) % 2 ^ 32 },
      fetched (get_elem? array.strs (array.counter % count)),
    )

unfoldable pub string_array_size : StringArray → ℕ
string_array_size array = length array.strs
