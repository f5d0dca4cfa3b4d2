-- ===== src/ServiceConf/Diff.antt =====
-- `diff_register_info` is the difference of two sets of instances.
use ddmframework.Common.{
  ◌≡◌, refl, sym, ap, ◌∙◌, ◌↔◌, inl, inr, Bool, true, false, not, ◌&&◌, ◌||◌, List, [], ◌∷◌, ◌++◌,
  Option, none, some, arith, append_assoc, append-nil, str_eq_iff, if◌then◌else◌, Bool-cases,
}
use ddmframework.ServiceConf.{
  ServiceInfo, RegisterInfo, Status, normal, added, deleted, with_status, same_service,
  same_register, find_register_info, copy_register_info, push_missing, diff_register_info,
}

same_service_iff : (a b : ServiceInfo) → (same_service a b ≡ true) ↔ (a ≡ b)
unfolding same_service
same_service_iff a b = ground (
  arith,
  str_eq_iff a.group_value b.group_value,
  str_eq_iff a.service_value b.service_value,
  str_eq_iff a.version_value b.version_value,
)

-- Two instances are the same exactly when they differ at most in their status.
pub same_register_iff :
    (a b : RegisterInfo) → (same_register a b ≡ true) ↔ (a ≡ with_status a.status b)
unfolding same_register
same_register_iff a b =
    ground (arith, same_service_iff a.srv_info b.srv_info, str_eq_iff a.host_value b.host_value)

find-with_status :
    (xs : List RegisterInfo) (s : Status) (r : RegisterInfo)
    → find_register_info xs (with_status s r) ≡ find_register_info xs r
unfolding find_register_info same_register
find-with_status [] s r = refl
find-with_status (x ∷ xs) s r = rw (find-with_status xs s r)

-- A search sees an instance only up to its status.
pub find-same :
    (xs : List RegisterInfo) (p r : RegisterInfo)
    → same_register p r ≡ true
    → find_register_info xs p ≡ find_register_info xs r
find-same xs p r e =
    ap (find_register_info xs) ((same_register_iff p r).0 e) ∙ find-with_status xs p.status r

-- The instances of the first array that the second lacks.
pub missing : List RegisterInfo → List RegisterInfo → Status → List RegisterInfo
missing [] other s = []
missing (p ∷ array) other s =
    if find_register_info other p
    then missing array other s
    else with_status s p ∷ missing array other s

push_missing-append :
    (xs other result : List RegisterInfo) (s : Status)
    → push_missing xs other result s ≡ result ++ missing xs other s
unfolding push_missing missing
push_missing-append [] other result s = sym (append-nil result)
push_missing-append (p ∷ xs) other result s = ground (
  arith,
  push_missing-append xs other result s,
  push_missing-append xs other (result ++ with_status s p ∷ []) s,
  append_assoc result (with_status s p ∷ []) (missing xs other s),
)

copy_register_info-append :
    (xs dest : List RegisterInfo) (s : Status)
    → copy_register_info xs dest s ≡ dest ++ missing xs [] s
unfolding copy_register_info missing find_register_info
copy_register_info-append [] dest s = sym (append-nil dest)
copy_register_info-append (p ∷ xs) dest s =
    copy_register_info-append xs (dest ++ with_status s p ∷ []) s
    ∙ append_assoc dest (with_status s p ∷ []) (missing xs [] s)

find-missing :
    (xs other : List RegisterInfo) (s : Status) (r : RegisterInfo)
    → find_register_info (missing xs other s) r
      ≡ (find_register_info xs r && not (find_register_info other r))
unfolding missing find_register_info same_register
find-missing [] other s r = refl
find-missing (p ∷ xs) other s r = ground (arith, find-same other p r, find-missing xs other s r)

-- A set of instances, by its membership test, and what the entries of a difference do to it.
abbrev pub Instances : Type 0
Instances = RegisterInfo → Bool

unfoldable pub change : Status → Bool → Bool → Bool
change deleted was hit = was && not hit
change added was hit = was || hit
change normal was hit = was

unfoldable pub apply_diff : List RegisterInfo → Instances → Instances
apply_diff [] set = set
apply_diff (p ∷ diff) set = apply_diff diff (λ q. change p.status (set q) (same_register p q))

apply_diff-append :
    (xs ys : List RegisterInfo) (set : Instances) (r : RegisterInfo)
    → apply_diff (xs ++ ys) set r ≡ apply_diff ys (apply_diff xs set) r
unfolding apply_diff
apply_diff-append [] ys set r = refl
apply_diff-append (p ∷ xs) ys set r = apply_diff-append xs ys _ r

apply_deleted :
    (xs other : List RegisterInfo) (set : Instances) (r : RegisterInfo)
    → apply_diff (missing xs other deleted) set r
      ≡ (set r && not (find_register_info (missing xs other deleted) r))
unfolding apply_diff change missing find_register_info
apply_deleted [] other set r = ground arith
apply_deleted (p ∷ xs) other set r = elim (Bool-cases (find_register_info other p)) [
  | inl e ↦ rw e (apply_deleted xs other set r)
  | inr e ↦ rw e (apply_deleted xs other _ r ∙ ground arith)
]

apply_added :
    (xs other : List RegisterInfo) (set : Instances) (r : RegisterInfo)
    → apply_diff (missing xs other added) set r
      ≡ (set r || find_register_info (missing xs other added) r)
unfolding apply_diff change missing find_register_info
apply_added [] other set r = ground arith
apply_added (p ∷ xs) other set r = elim (Bool-cases (find_register_info other p)) [
  | inl e ↦ rw e (apply_added xs other set r)
  | inr e ↦ rw e (apply_added xs other _ r ∙ ground arith)
]

-- The instances of an array that may be NULL.
abbrev pub members : Option (List RegisterInfo) → Instances
members none r = false
members (some xs) r = find_register_info xs r

abbrev pub changes : Option (List RegisterInfo) → List RegisterInfo
changes none = []
changes (some diff) = diff

-- What a difference does to any set: an instance in both arrays or in neither keeps its place.
pub diff_register_info_any :
    (left right : Option (List RegisterInfo)) (set : Instances) (r : RegisterInfo)
    → apply_diff (changes (diff_register_info left right)) set r
      ≡ (if members left r then members right r && set r else members right r || set r)
unfolding diff_register_info find_register_info apply_diff
diff_register_info_any none none set r = refl
diff_register_info_any (some left) none set r =
    rw (copy_register_info-append left [] deleted)
      (ground (arith, apply_deleted left [] set r, find-missing left [] deleted r))
diff_register_info_any none (some right) set r =
    rw (copy_register_info-append right [] added)
      (ground (arith, apply_added right [] set r, find-missing right [] added r))
diff_register_info_any (some left) (some right) set r =
    let gone = missing left right deleted in
    let fresh = missing right left added in
    rw
      (
        push_missing-append left right [] deleted,
        push_missing-append right left gone added,
        apply_diff-append gone fresh set r,
      )
      (ground (
        arith,
        apply_added right left (apply_diff gone set) r,
        apply_deleted left right set r,
        find-missing left right deleted r,
        find-missing right left added r,
      ))

-- Applying the difference of two arrays to the instances of the first gives the instances of the
-- second, also where an array is NULL.
pub diff_register_info_lem :
    (left right : Option (List RegisterInfo)) (r : RegisterInfo)
    → apply_diff (changes (diff_register_info left right)) (members left) r ≡ members right r
diff_register_info_lem left right r =
    ground (arith, diff_register_info_any left right (members left) r)
