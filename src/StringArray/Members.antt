-- ===== src/StringArray/Members.antt =====
-- `string_array_find`, `string_array_add` and `string_array_delete` treat the array as a set.
use ddmframework.Common.{
  ℕ, zero, suc, ◌≡◌, refl, ◌↔◌, Bool, true, false, not, ◌&&◌, ◌||◌, List, [], ◌∷◌, Option, none,
  some, arith, str_eq, str_eq_iff, Key, has, has-append, NoDup, NoDup-snoc, if◌then◌else◌,
  Option-cases, inl, inr,
}
use ddmframework.StringArray.{
  StringArray, index_of, erase_at, string_array_find, string_array_add, string_array_delete,
}

unfoldable pub is_found : Option ℕ → Bool
is_found none = false
is_found (some i) = true

index_of-has : (xs : List Key) (k : Key) → is_found (index_of xs k) ≡ has k xs
unfolding is_found has index_of
index_of-has [] k = refl
index_of-has (x ∷ xs) k = ground (arith, index_of-has xs k)

pub string_array_find-has :
    (a : StringArray) (k : Key) → is_found (string_array_find a k) ≡ has k a.strs
string_array_find-has a k = unfold string_array_find in index_of-has a.strs k

index_of-none : (xs : List Key) (k : Key) → index_of xs k ≡ none → has k xs ≡ false
unfolding is_found
index_of-none xs k e = ground (arith, index_of-has xs k)

has_self : (xs : List Key) (v k : Key) → has v xs ≡ true → has k xs ≡ (str_eq v k || has k xs)
has_self xs v k h = ground (arith, str_eq_iff v k)

-- Adding a value makes it a member, keeps the other members, and repeats none.
pub string_array_add_lem :
    (a : StringArray) (v k : Key)
    → NoDup a.strs
    → let b = string_array_add a v in
      (has k b.strs ≡ (str_eq v k || has k a.strs)) × NoDup b.strs × (b.counter ≡ a.counter)
unfolding string_array_add has is_found
string_array_add_lem a v k d = elim (Option-cases (index_of a.strs v)) [
  | inl e ↦
      rw (e, string_array_add)
        (
          ground (arith, has-append k a.strs (v ∷ [])),
          NoDup-snoc v a.strs (index_of-none a.strs v e) d,
          refl,
        )
  | inr (i, e) ↦
      rw (e, string_array_add) (ground (arith, has_self a.strs v k, index_of-has a.strs v), d, refl)
]

-- Removing the first occurrence, as one recursion.
remove : Key → List Key → List Key
remove v [] = []
remove v (x ∷ xs) = if str_eq x v then xs else x ∷ remove v xs

erase_at-index_of :
    (xs : List Key) (v : Key) (i : ℕ) → index_of xs v ≡ some i → erase_at xs i ≡ remove v xs
unfolding erase_at index_of remove
erase_at-index_of [] v i e = cc
erase_at-index_of (x ∷ xs) v zero e = ground arith
erase_at-index_of (x ∷ xs) v (suc i) e = ground (arith, erase_at-index_of xs v i)

has-remove :
    (xs : List Key) (v k : Key) → NoDup xs → has k (remove v xs) ≡ (has k xs && not (str_eq v k))
unfolding has remove
has-remove [] v k d = refl
has-remove (x ∷ xs) v k d =
    ground (arith, str_eq_iff v k, str_eq_iff x v, str_eq_iff x k, has-remove xs v k)

remove-NoDup : (xs : List Key) (v : Key) → NoDup xs → NoDup (remove v xs)
unfolding remove
remove-NoDup [] v d = tt
remove-NoDup (x ∷ xs) v d = ground (arith, has-remove xs v x, remove-NoDup xs v)

-- Deleting takes the value out and keeps the other members; -1 is returned exactly where the
-- value was missing, and then nothing changes.
pub string_array_delete_lem :
    (a : StringArray) (v k : Key)
    → NoDup a.strs
    → let (b, status) = string_array_delete a v in
      (has k b.strs ≡ (has k a.strs && not (str_eq v k)))
      × NoDup b.strs
      × (b.counter ≡ a.counter)
      × ((status ≡ none) ↔ (has v a.strs ≡ false))
unfolding string_array_delete is_found
string_array_delete_lem a v k d = elim (Option-cases (index_of a.strs v)) [
  | inl e ↦
      rw (e, string_array_delete)
        let missing = index_of-none a.strs v e in
          (ground (arith, str_eq_iff v k), d, refl, (λ _. missing, λ _. refl))
  | inr (i, e) ↦
      rw (e, string_array_delete)
        let removed = erase_at-index_of a.strs v i e in
          (
            rw removed (has-remove a.strs v k d),
            rw removed (remove-NoDup a.strs v d),
            refl,
            (λ h. cc, λ h. ground (arith, index_of-has a.strs v)),
          )
]
