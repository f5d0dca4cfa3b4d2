-- ===== src/Common/Counts.antt =====
-- Lists of addresses seen as multisets, by counting, and the linked lists of soaagent/utlist.h.
use Prim.Native.Nat.{ℕ, suc, ◌+◌, ◌<◌}
use mathlib.Core.Path.{◌≡◌, refl}
use mathlib.Core.Bool.{Bool, false, ◌||◌}
use mathlib.Core.Option.{Option, none, some}
use mathlib.Core.List.{List, [], ◌∷◌, ◌++◌}
use native.Mathlib.Omega.{arith}
use ddmframework.Common.Tests.{◌==◌, if◌then◌else◌}
use ddmframework.Common.Lists.{length}

unfoldable pub count : ℕ → List ℕ → ℕ
count x [] = 0
count x (y ∷ ys) = (if y == x then 1 else 0) + count x ys

unfoldable pub mem : ℕ → List ℕ → Bool
mem x [] = false
mem x (y ∷ ys) = y == x || mem x ys

unfoldable pub remove : ℕ → List ℕ → List ℕ
remove x [] = []
remove x (y ∷ ys) = if y == x then ys else y ∷ remove x ys

pub count-append : (x : ℕ) (xs ys : List ℕ) → count x (xs ++ ys) ≡ count x xs + count x ys
unfolding count
count-append x [] ys = omega arith
count-append x (y ∷ xs) ys = omega (arith, count-append x xs ys)

pub count-remove :
    (x z : ℕ) (xs : List ℕ)
    → 0 < count z xs
    → count x (remove z xs) + (if z == x then 1 else 0) ≡ count x xs
unfolding count remove
count-remove x z [] h = absurd (omega arith)
count-remove x z (y ∷ xs) h = ground (arith, count-remove x z xs)

pub length-remove : (z : ℕ) (xs : List ℕ) → 0 < count z xs → suc (length (remove z xs)) ≡ length xs
unfolding count remove
length-remove z [] h = absurd (omega arith)
length-remove z (y ∷ xs) h = ground (arith, length-remove z xs)

pub mem-count : (x : ℕ) (xs : List ℕ) → mem x xs ≡ false → count x xs ≡ 0
unfolding count mem
mem-count x [] h = refl
mem-count x (y ∷ xs) h = ground (arith, mem-count x xs)

pub count-mem : (x : ℕ) (xs : List ℕ) → count x xs ≡ 0 → mem x xs ≡ false
unfolding count mem
count-mem x [] h = refl
count-mem x (y ∷ xs) h = ground (arith, count-mem x xs)

-- LL_APPEND of an item to a list that it is already in makes its tail point to itself: from then
-- on there is no list any more, which `none` stands for.
unfoldable pub ll_append : List ℕ → ℕ → Option (List ℕ)
unfolding mem
ll_append xs x = if mem x xs then none else some (xs ++ x ∷ [])

-- LL_DELETE reads the head of the list: on the empty list it reads through NULL (`none`). An item
-- that is not in the list changes nothing.
unfoldable pub ll_delete : List ℕ → ℕ → Option (List ℕ)
unfolding remove
ll_delete [] x = none
ll_delete (y ∷ ys) x = some (remove x (y ∷ ys))

pub ll_append_fresh : (xs : List ℕ) (x : ℕ) → count x xs ≡ 0 → ll_append xs x ≡ some (xs ++ x ∷ [])
unfolding ll_append
ll_append_fresh xs x h = ground (arith, count-mem x xs)

pub ll_delete_member : (xs : List ℕ) (x : ℕ) → 0 < count x xs → ll_delete xs x ≡ some (remove x xs)
unfolding ll_delete count
ll_delete_member [] x h = absurd (omega arith)
ll_delete_member (y ∷ ys) x h = refl
