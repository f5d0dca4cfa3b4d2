-- ===== src/Common/Keys.antt =====
-- Byte strings as keys: membership, lists without repetition, and tables keyed by strings.
-- A `uthash` table is the list of its items, the latest first: of two items with one key a search
-- finds the one that was added last.
use Prim.Native.Nat.{ℕ}
use mathlib.Core.Path.{◌≡◌, refl}
use mathlib.Core.Bool.{Bool, false, ◌||◌}
use mathlib.Core.Option.{Option, none, some}
use mathlib.Core.List.{List, [], ◌∷◌, ◌++◌}
use native.Mathlib.Omega.{arith}
use ddmframework.Common.Tests.{str_eq, str_eq_iff, if◌then◌else◌}

abbrev pub Key : Type 0
Key = List ℕ

unfoldable pub has : Key → List Key → Bool
has k [] = false
has k (x ∷ xs) = str_eq x k || has k xs

abbrev pub NoDup : List Key → Type 0
NoDup [] = Unit {0}
NoDup (x ∷ xs) = (has x xs ≡ false) × NoDup xs

pub has-append : (k : Key) (xs ys : List Key) → has k (xs ++ ys) ≡ (has k xs || has k ys)
unfolding has
has-append k [] ys = refl
has-append k (x ∷ xs) ys = ground (arith, has-append k xs ys)

pub NoDup-snoc : (k : Key) (xs : List Key) → has k xs ≡ false → NoDup xs → NoDup (xs ++ k ∷ [])
unfolding has
NoDup-snoc k [] h d = (refl, tt)
NoDup-snoc k (x ∷ xs) h d =
    ground (arith, has-append x xs (k ∷ []), str_eq_iff x k, str_eq_iff k x, NoDup-snoc k xs)

module _ {ℓ} {V : Type ℓ} where
  -- HASH_FIND_STR.
  unfoldable pub table_find : Key → List (Key × V) → Option V
  table_find k [] = none
  table_find k ((j, v) ∷ t) = if str_eq j k then some v else table_find k t

  -- HASH_ADD_STR.
  unfoldable pub table_add : Key → V → List (Key × V) → List (Key × V)
  table_add k v t = (k, v) ∷ t

  -- HASH_DEL of the item that HASH_FIND_STR finds.
  unfoldable pub table_delete : Key → List (Key × V) → List (Key × V)
  table_delete k [] = []
  table_delete k ((j, v) ∷ t) = if str_eq j k then t else (j, v) ∷ table_delete k t

  -- A write through the pointer that HASH_FIND_STR returns.
  unfoldable pub table_update : Key → V → List (Key × V) → List (Key × V)
  table_update k v [] = []
  table_update k v ((j, w) ∷ t) = if str_eq j k then (j, v) ∷ t else (j, w) ∷ table_update k v t

  -- No two items have one key.
  abbrev pub IsTable : List (Key × V) → Type ℓ
  IsTable [] = Unit {ℓ}
  IsTable ((k, v) ∷ t) = (table_find k t ≡ none) × IsTable t

  pub table_find-add :
      (k j : Key) (v : V) (t : List (Key × V))
      → table_find j (table_add k v t) ≡ (if str_eq k j then some v else table_find j t)
  unfolding table_find table_add
  table_find-add k j v t = refl

  pub table_find-delete :
      (k j : Key) (t : List (Key × V))
      → IsTable t
      → table_find j (table_delete k t) ≡ (if str_eq k j then none else table_find j t)
  unfolding table_find table_delete
  table_find-delete k j [] u = ground arith
  table_find-delete k j ((i, w) ∷ t) u =
      ground (arith, str_eq_iff k j, str_eq_iff i k, str_eq_iff i j, table_find-delete k j t)

  pub table_find-update :
      (k j : Key) (v w : V) (t : List (Key × V))
      → table_find k t ≡ some w
      → table_find j (table_update k v t) ≡ (if str_eq k j then some v else table_find j t)
  unfolding table_find table_update
  table_find-update k j v w [] h = ground arith
  table_find-update k j v w ((i, u) ∷ t) h =
      ground (arith, str_eq_iff k j, str_eq_iff i k, str_eq_iff i j, table_find-update k j v w t)

  pub table_add-IsTable :
      (k : Key) (v : V) (t : List (Key × V))
      → table_find k t ≡ none
      → IsTable t
      → IsTable (table_add k v t)
  unfolding table_add
  table_add-IsTable k v t h u = (h, u)

  pub table_delete-IsTable : (k : Key) (t : List (Key × V)) → IsTable t → IsTable (table_delete k t)
  unfolding table_find table_delete
  table_delete-IsTable k [] u = tt
  table_delete-IsTable k ((i, w) ∷ t) u =
      ground
        (arith, table_find-delete k i t, str_eq_iff k i, str_eq_iff i k, table_delete-IsTable k t)

  table_find-update-none :
      (k j : Key) (v : V) (t : List (Key × V))
      → table_find j t ≡ none
      → table_find j (table_update k v t) ≡ none
  unfolding table_find table_update
  table_find-update-none k j v [] h = refl
  table_find-update-none k j v ((i, w) ∷ t) h = ground (arith, table_find-update-none k j v t)

  pub table_update-IsTable :
      (k : Key) (v : V) (t : List (Key × V)) → IsTable t → IsTable (table_update k v t)
  unfolding table_find table_update
  table_update-IsTable k v [] u = tt
  table_update-IsTable k v ((i, w) ∷ t) u =
      ground (arith, table_find-update-none k i v t, table_update-IsTable k v t)
