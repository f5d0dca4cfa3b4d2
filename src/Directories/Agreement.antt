-- ===== src/Directories/Agreement.antt =====
-- soaagent/util.c: `make_sure_dir` against `mkdirs` on the directory of the file.
use ddmframework.Common.{
  ℕ, suc, ◌≤◌, ◌<◌, ◌≡◌, refl, sym, ap, subst, ◌∙◌, inl, inr, Bool, true, false, not, ◌&&◌,
  Bool-cases, List, [], ◌∷◌, ◌++◌, append_assoc, append-nil, some, arith, Key, length,
  length-append, take_self, ltb, leb, ◌==◌, if◌then◌else◌,
}
use ddmframework.Config.{path_max}
use ddmframework.Paths.{NoSlash, get_dir_path, get_dir_path-get_file_name}
use ddmframework.Directories.{
  FileSystem, make_missing, mkdirs, make_sure_loop, make_sure_path, make_sure_dir,
}
use ddmframework.Directories.Parents.{parents, ends_in_slash, targets, make_all, mkdirs-make_all}

-- No slash stands at the start of the rest, if `is_first`, or behind another one.
unfoldable pub single_slashes : (is_first : Bool) → (rest : List ℕ) → Bool
single_slashes is_first [] = true
single_slashes is_first (c ∷ rest) =
    if c == b'/' then not is_first && single_slashes true rest else single_slashes false rest

parents-append :
    (before rest more : List ℕ)
    → parents before (rest ++ more) ≡ parents before rest ++ parents (before ++ rest) more
unfolding parents
parents-append before [] more = ap (λ b. parents b more) (sym (append-nil before))
parents-append before (c ∷ rest) more = elim (Bool-cases (c == b'/' && ltb 0 (length before))) [
  | inl e ↦ rw e (
      ap (◌∷◌ before) (
        parents-append (before ++ c ∷ []) rest more
        ∙ ap (λ b. parents (before ++ c ∷ []) rest ++ parents b more)
            (append_assoc before (c ∷ []) rest)))
  | inr e ↦ rw e (
      parents-append (before ++ c ∷ []) rest more
      ∙ ap (λ b. parents (before ++ c ∷ []) rest ++ parents b more)
          (append_assoc before (c ∷ []) rest))
]

parents-NoSlash : (before name : List ℕ) → NoSlash name → parents before name ≡ []
unfolding parents
parents-NoSlash before [] h = refl
parents-NoSlash before (c ∷ name) h = ground (arith, parents-NoSlash (before ++ c ∷ []) name)

parents-snoc :
    (dir name : List ℕ) → 1 ≤ length dir → NoSlash name → parents dir (b'/' ∷ name) ≡ dir ∷ []
unfolding parents
parents-snoc dir name h plain = ground (arith, parents-NoSlash (dir ++ b'/' ∷ []) name)

single_slashes-weaken :
    (rest : List ℕ) → single_slashes true rest ≡ true → single_slashes false rest ≡ true
unfolding single_slashes
single_slashes-weaken [] h = refl
single_slashes-weaken (c ∷ rest) h = ground arith

module _ (c : ℕ) (rest : List ℕ) where
  after_slash :
      (is_first : Bool)
      → (c == b'/') ≡ true
      → single_slashes is_first (c ∷ rest) ≡ true
      → (is_first ≡ false) × (single_slashes true rest ≡ true)
  unfolding single_slashes
  after_slash is_first e h = ground arith

  after_plain :
      (is_first : Bool)
      → (c == b'/') ≡ false
      → single_slashes is_first (c ∷ rest) ≡ true
      → single_slashes false rest ≡ true
  unfolding single_slashes
  after_plain is_first e h = ground arith

  parents_slash :
      (before : List ℕ)
      → (c == b'/') ≡ true
      → 1 ≤ length before
      → parents before (c ∷ rest) ≡ before ∷ parents (before ++ c ∷ []) rest
  unfolding parents
  parents_slash before e h = ground arith

  parents_plain :
      (before : List ℕ)
      → (c == b'/') ≡ false
      → parents before (c ∷ rest) ≡ parents (before ++ c ∷ []) rest
  unfolding parents
  parents_plain before e = ground arith

ends_in_slash-single :
    (is_first : Bool) (c : ℕ) (rest name : List ℕ)
    → single_slashes is_first (c ∷ (rest ++ b'/' ∷ name)) ≡ true
    → ends_in_slash is_first c rest ≡ false
unfolding ends_in_slash
ends_in_slash-single is_first c [] name h = unfold single_slashes in ground arith
ends_in_slash-single is_first c (d ∷ rest) name h = elim (Bool-cases (c == b'/')) [
  | inl e ↦ ends_in_slash-single false d rest name (
      single_slashes-weaken (d ∷ (rest ++ b'/' ∷ name))
        (after_slash c (d ∷ (rest ++ b'/' ∷ name)) is_first e h).1)
  | inr e ↦
      ends_in_slash-single false d rest name
        (after_plain c (d ∷ (rest ++ b'/' ∷ name)) is_first e h)
]

parents_first : (c : ℕ) (rest : List ℕ) → parents [] (c ∷ rest) ≡ parents (c ∷ []) rest
unfolding parents
parents_first c rest = ground arith

no_slash_at_end :
    (c : ℕ) (rest name : List ℕ)
    → single_slashes true (rest ++ b'/' ∷ name) ≡ true
    → ends_in_slash true c rest ≡ false
no_slash_at_end c [] name h = unfold ends_in_slash in ground arith
no_slash_at_end c (d ∷ rest) name h =
    unfold ends_in_slash in
    ends_in_slash-single false d rest name (single_slashes-weaken (d ∷ (rest ++ b'/' ∷ name)) h)

targets_whole :
    (c : ℕ) (rest : List ℕ)
    → ends_in_slash true c rest ≡ false
    → targets (c ∷ rest) ≡ parents [] (c ∷ rest) ++ (c ∷ rest) ∷ []
unfolding targets
targets_whole c rest e = rw e refl

-- The directories above a file are those that its directory names.
targets-dir :
    (c : ℕ) (rest name : List ℕ)
    → NoSlash name
    → single_slashes true (rest ++ b'/' ∷ name) ≡ true
    → targets (c ∷ rest) ≡ parents (c ∷ []) (rest ++ b'/' ∷ name)
targets-dir c rest name plain single =
    targets_whole c rest (no_slash_at_end c rest name single)
    ∙ ap (λ qs. qs ++ (c ∷ rest) ∷ []) (parents_first c rest)
    ∙ ap (◌++◌ (parents (c ∷ []) rest)) (sym (parents-snoc (c ∷ rest) name (omega arith) plain))
    ∙ sym (parents-append (c ∷ []) rest (b'/' ∷ name))

targets_above :
    (c : ℕ) (rest dir name : List ℕ)
    → dir ++ b'/' ∷ name ≡ c ∷ rest
    → NoSlash name
    → single_slashes true rest ≡ true
    → targets dir ≡ parents (c ∷ []) rest
targets_above c rest [] name e plain single =
    unfold targets in sym (parents-NoSlash (c ∷ []) rest (subst NoSlash (cc) plain))
targets_above c rest (d ∷ dir) name e plain single =
    let same : rest ≡ dir ++ b'/' ∷ name = cc in
    let head : d ≡ c = cc in
    targets-dir d dir name plain (subst (λ r. single_slashes true r ≡ true) same single)
    ∙ ap (λ h. parents (h ∷ []) (dir ++ b'/' ∷ name)) head
    ∙ ap (parents (c ∷ [])) (sym same)

get_dir_path-some :
    (path dir : List ℕ)
    → length path < path_max
    → get_dir_path path path_max ≡ some dir
    → (name : List ℕ) × (dir ++ b'/' ∷ name ≡ path) × NoSlash name
get_dir_path-some path dir fits above = elim (get_dir_path-get_file_name path path_max fits) [
  | inl (nothing, unnamed, plain) ↦ cc
  | inr (dir', name, found, named, whole, plain) ↦
      let same : dir' ≡ dir = cc in (name, subst (λ d. d ++ b'/' ∷ name ≡ path) same whole, plain)
]

module _ (sys : FileSystem) where
  open sys use {Fs}

  module _ (fs : Fs) (before : List ℕ) (c : ℕ) (rest : List ℕ) where
    loop_plain :
        (is_first : Bool)
        → (c == b'/') ≡ false
        → make_sure_loop sys fs before (c ∷ rest) is_first
          ≡ make_sure_loop sys fs (before ++ c ∷ []) rest false
    unfolding make_sure_loop
    loop_plain is_first e = rw e refl

    loop_slash :
        (c == b'/') ≡ true
        → make_sure_loop sys fs before (c ∷ rest) false ≡ (
            if (make_missing sys fs before).1
            then make_sure_loop sys (make_missing sys fs before).0 (before ++ c ∷ []) rest true
            else ((make_missing sys fs before).0, false))
    unfolding make_sure_loop
    loop_slash e = rw e refl

  make_all-cons :
      (fs : Fs) (q : Key) (qs : List Key) (later : Fs × Bool)
      → later ≡ make_all sys (make_missing sys fs q).0 qs
      → (if (make_missing sys fs q).1 then later else ((make_missing sys fs q).0, false))
        ≡ make_all sys fs (q ∷ qs)
  unfolding make_all
  make_all-cons fs q qs later e = rw e refl

  longer : (before : List ℕ) (c : ℕ) → 1 ≤ length (before ++ c ∷ [])
  longer before c = omega (arith, length-append before (c ∷ []))

  make_sure_loop-make_all :
      (fs : Fs) (before rest : List ℕ) (is_first : Bool)
      → 1 ≤ length before
      → single_slashes is_first rest ≡ true
      → make_sure_loop sys fs before rest is_first ≡ make_all sys fs (parents before rest)
  make_sure_loop-make_all fs before [] is_first h single =
      unfold make_sure_loop make_all parents in refl
  make_sure_loop-make_all fs before (c ∷ rest) is_first h single = elim (Bool-cases (c == b'/')) [
    | inl e ↦
        let (later, fine) = after_slash c rest is_first e single in
        ap (make_sure_loop sys fs before (c ∷ rest)) later
        ∙ loop_slash fs before c rest e
        ∙ make_all-cons fs before (parents (before ++ c ∷ []) rest) _ (
            make_sure_loop-make_all (make_missing sys fs before).0 (before ++ c ∷ []) rest true
              (longer before c) fine)
        ∙ ap (make_all sys fs) (sym (parents_slash c rest before e h))
    | inr e ↦
        loop_plain fs before c rest is_first e
        ∙ make_sure_loop-make_all fs (before ++ c ∷ []) rest false (longer before c)
            (after_plain c rest is_first e single)
        ∙ ap (make_all sys fs) (sym (parents_plain c rest before e))
  ]

  -- On a path that fits PATH_MAX, whose second byte is no slash and in which no two slashes follow
  -- one another, `make_sure_dir` does what `mkdirs` does on the directory of the path.
  pub make_sure_dir-mkdirs :
      (fs : Fs) (c : ℕ) (rest dir : List ℕ)
      → length (c ∷ rest) < path_max
      → single_slashes true rest ≡ true
      → get_dir_path (c ∷ rest) path_max ≡ some dir
      → 1 ≤ length rest
      → make_sure_dir sys fs (some (c ∷ rest)) ≡ mkdirs sys fs dir
  unfolding make_sure_dir make_sure_path
  make_sure_dir-mkdirs fs c rest dir fits single above two =
      let (name, whole, plain) = get_dir_path-some (c ∷ rest) dir fits above in
      let long : leb (suc (length rest)) 1 ≡ false = ground arith in
      rw long (
        ap (λ r. make_sure_loop sys fs (c ∷ []) r true) (take_self 4094 rest (omega arith))
        ∙ make_sure_loop-make_all fs (c ∷ []) rest true (omega arith) single
        ∙ ap (make_all sys fs) (sym (targets_above c rest dir name whole plain single))
        ∙ sym (mkdirs-make_all sys fs dir))
