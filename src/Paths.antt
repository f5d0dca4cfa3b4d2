-- ===== src/Paths.antt =====
-- soaagent/util.c: `get_dir_path` and `get_file_name`. The result -1 is `none`; the path is given
-- back as it was. A path has fewer than 2^31 bytes.
mod Examples
use ddmframework.Common.{
  ℕ, zero, suc, ◌+◌, ◌-◌, ◌≤◌, ◌<◌, ◌≡◌, ◌≢◌, refl, ap, ◌∙◌, Bool-cases, List, [], ◌∷◌, ◌++◌,
  Option, none, some, Option-cases, inl, inr, ◌⊎◌, arith, ◌==◌, if◌then◌else◌, length, length-take,
  length-drop, take, drop, take_self, get_or, All,
}
use ddmframework.Conn.{snprintf_s}

-- The loop from the end of the path: the position of the last slash before `end_pos`.
unfoldable pub last_slash : ℕ → List ℕ → Option ℕ
last_slash zero path = none
last_slash (suc end_pos) path =
    let rest = last_slash end_pos path in
    if get_or path end_pos 0 == b'/' then some end_pos else rest

unfoldable pub get_dir_path : List ℕ → (len : ℕ) → Option (List ℕ)
unfolding last_slash
get_dir_path path len = elim (last_slash (length path) path) [
  | none ↦ none
  | some found_pos ↦ some (snprintf_s len (take found_pos path))
]

unfoldable pub get_file_name : List ℕ → (len : ℕ) → Option (List ℕ)
unfolding last_slash
get_file_name path len = elim (last_slash (length path) path) [
  | none ↦ none
  | some found_pos ↦ some (snprintf_s len (drop (suc found_pos) path))
]

abbrev pub NoSlash : List ℕ → Type 0
NoSlash = All (λ c. c ≢ b'/')

split_at :
    (i : ℕ) (path : List ℕ)
    → get_or path i 0 ≡ b'/'
    → take i path ++ b'/' ∷ drop (suc i) path ≡ path
split_at i [] h = absurd (omega arith)
split_at zero (x ∷ path) h = ap (λ (c : ℕ). c ∷ path) (omega arith)
split_at (suc i) (x ∷ path) h = ap (◌∷◌ x) (split_at i path h)

one_more :
    (i : ℕ) (path : List ℕ)
    → get_or path i 0 ≢ b'/'
    → NoSlash (drop (suc i) path)
    → NoSlash (drop i path)
one_more zero [] ne h = tt
one_more (suc i) [] ne h = tt
one_more zero (x ∷ path) ne h = (ne, h)
one_more (suc i) (x ∷ path) ne h = one_more i path ne h

last_slash_lem :
    (n : ℕ) (path : List ℕ)
    → NoSlash (drop n path)
    → ((last_slash n path ≡ none) × NoSlash path)
      ⊎ ((i : ℕ) × (last_slash n path ≡ some i)
          × (get_or path i 0 ≡ b'/')
          × NoSlash (drop (suc i) path))
unfolding last_slash
last_slash_lem zero path h = inl (refl, h)
last_slash_lem (suc n) path h = elim (Bool-cases (get_or path n 0 == b'/')) [
  | inl e ↦ inr (n, rw e refl, ground arith, h)
  | inr e ↦ rw e (last_slash_lem n path (one_more n path (ground arith) h))
]

nothing_after : (path : List ℕ) → NoSlash (drop (length path) path)
nothing_after [] = tt
nothing_after (x ∷ path) = nothing_after path

-- A path that fits the buffer is the directory, a slash and the name of the file, and the name
-- holds no slash; both calls fail exactly where the path itself holds none.
pub get_dir_path-get_file_name :
    (path : List ℕ) (len : ℕ)
    → length path < len
    → ((get_dir_path path len ≡ none) × (get_file_name path len ≡ none) × NoSlash path)
      ⊎ ((dir : List ℕ) × (name : List ℕ) × (get_dir_path path len ≡ some dir)
          × (get_file_name path len ≡ some name)
          × (dir ++ b'/' ∷ name ≡ path)
          × NoSlash name)
unfolding get_dir_path get_file_name
get_dir_path-get_file_name path len fits =
    elim (last_slash_lem (length path) path (nothing_after path)) [
      | inl (e, plain) ↦ inl (rw (e, get_dir_path), rw (e, get_file_name), plain)
      | inr (i, e, slash, plain) ↦ inr (
        take i path,
        drop (suc i) path,
        rw (e, get_dir_path)
            (ap some (take_self (len - 1) (take i path) (omega (arith, length-take i path)))),
        rw (e, get_file_name)
            (ap some
              (take_self (len - 1) (drop (suc i) path) (omega (arith, length-drop (suc i) path)))),
        split_at i path slash,
        plain,
      )
    ]
