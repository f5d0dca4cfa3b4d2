-- ===== src/Directories/Parents.antt =====
-- soaagent/util.c: `mkdirs` and `make_sure_dir` make one directory after the other, those above first.
use ddmframework.Common.{
  ℕ, ◌+◌, ◌≤◌, ◌≡◌, refl, sym, ap, ◌∙◌, inl, inr, Bool, true, false, not, ◌&&◌, Bool-cases, List,
  [], ◌∷◌, ◌++◌, append_assoc, arith, Key, length, length-append, ltb, ◌==◌, if◌then◌else◌,
}
use ddmframework.Directories.{FileSystem, make_missing, mkdirs_loop, mkdirs_last, mkdirs}

-- The paths that end before a slash, the first byte aside.
unfoldable pub parents : (before rest : List ℕ) → List Key
parents before [] = []
parents before (c ∷ rest) =
    let later = parents (before ++ c ∷ []) rest in
    if c == b'/' && ltb 0 (length before) then before ∷ later else later

-- Whether the path `c ∷ rest` ends in a slash, the first byte of the whole path aside.
unfoldable pub ends_in_slash : (is_first : Bool) → (c : ℕ) → (rest : List ℕ) → Bool
ends_in_slash is_first c [] = (c == b'/') && not is_first
ends_in_slash is_first c (d ∷ rest) = ends_in_slash false d rest

-- The directories that a path names, those above first.
unfoldable pub targets : Key → List Key
unfolding parents ends_in_slash
targets [] = []
targets (c ∷ rest) =
    let whole = (c ∷ rest) ∷ [] in
    parents [] (c ∷ rest) ++ (if ends_in_slash true c rest then [] else whole)

-- Where the last separator was seen.
sep_after : (before rest : List ℕ) → ℕ → ℕ
sep_after before [] sep_end = sep_end
sep_after before (c ∷ rest) sep_end =
    sep_after (before ++ c ∷ []) rest
      (if c == b'/' && ltb 0 (length before) then length before + 1 else sep_end)

sep_after_lem :
    (before : List ℕ) (c : ℕ) (rest : List ℕ) (sep_end : ℕ) (is_first : Bool)
    → is_first ≡ not (ltb 0 (length before))
    → sep_end ≤ length before
    → (sep_after before (c ∷ rest) sep_end == length (before ++ c ∷ rest))
      ≡ ends_in_slash is_first c rest
unfolding sep_after ends_in_slash
sep_after_lem before c [] sep_end is_first h le = ground (arith, length-append before (c ∷ []))
sep_after_lem before c (d ∷ rest) sep_end is_first h le =
    ap (λ w. sep_after before (c ∷ d ∷ rest) sep_end == length w)
      (sym (append_assoc before (c ∷ []) (d ∷ rest)))
    ∙ sep_after_lem (before ++ c ∷ []) d rest
        (if c == b'/' && ltb 0 (length before) then length before + 1 else sep_end) false
        (ground (arith, length-append before (c ∷ [])))
        (ground (arith, length-append before (c ∷ [])))

module _ (sys : FileSystem) where
  open sys use {Fs, access, mkdir}

  -- The directories that are missing are made in order, until one cannot be made.
  unfoldable pub make_all : Fs → List Key → Fs × Bool
  unfolding make_missing
  make_all fs [] = (fs, true)
  make_all fs (q ∷ qs) =
      let later = make_all (make_missing sys fs q).0 qs in
      if (make_missing sys fs q).1 then later else ((make_missing sys fs q).0, false)

  make_all-append :
      (fs : Fs) (qs rs : List Key)
      → make_all fs (qs ++ rs) ≡ (
          if (make_all fs qs).1
          then make_all (make_all fs qs).0 rs
          else ((make_all fs qs).0, false))
  unfolding make_all
  make_all-append fs [] rs = refl
  make_all-append fs (q ∷ qs) rs = elim (Bool-cases (make_missing sys fs q).1) [
    | inl e ↦ rw e (make_all-append (make_missing sys fs q).0 qs rs)
    | inr e ↦ rw e refl
  ]

  mkdirs_loop_lem :
      (fs : Fs) (before rest : List ℕ) (sep_end : ℕ) (dir_path : Key)
      → mkdirs_last sys dir_path (mkdirs_loop sys fs before rest sep_end) ≡ (
          let made = make_all fs (parents before rest) in
          mkdirs_last sys dir_path ((made.0, sep_after before rest sep_end), made.1))
  unfolding mkdirs_loop parents make_all sep_after mkdirs_last
  mkdirs_loop_lem fs before [] sep_end dir_path = refl
  mkdirs_loop_lem fs before (c ∷ rest) sep_end dir_path =
      elim (Bool-cases (c == b'/' && ltb 0 (length before))) [
        | inl e ↦ elim (Bool-cases (make_missing sys fs before).1) [
          | inl made ↦ rw e (
              rw made (
                mkdirs_loop_lem (make_missing sys fs before).0 (before ++ c ∷ []) rest
                  (length before + 1) dir_path))
          | inr failed ↦ rw e (rw failed refl)
        ]
        | inr e ↦ rw e (mkdirs_loop_lem fs (before ++ c ∷ []) rest sep_end dir_path)
      ]

  make_all_one : (fs : Fs) (q : Key) → make_all fs (q ∷ []) ≡ make_missing sys fs q
  unfolding make_all
  make_all_one fs q = elim (Bool-cases (make_missing sys fs q).1) [
    | inl e ↦ rw e (ap (λ b. ((make_missing sys fs q).0, b)) (sym e))
    | inr e ↦ rw e (ap (λ b. ((make_missing sys fs q).0, b)) (sym e))
  ]

  mkdirs_last_lem :
      (made : Fs × Bool) (sep_end : ℕ) (path : Key) (ends : Bool)
      → (sep_end == length path) ≡ ends
      → mkdirs_last sys path ((made.0, sep_end), made.1)
        ≡ (if made.1 then make_all made.0 (if ends then [] else path ∷ []) else (made.0, false))
  unfolding mkdirs_last
  mkdirs_last_lem (fs, false) sep_end path ends e = refl
  mkdirs_last_lem (fs, true) sep_end path true e = rw e (unfold make_all in refl)
  mkdirs_last_lem (fs, true) sep_end path false e = rw e (sym (make_all_one fs path))

  -- `mkdirs` makes the directories that its path names.
  pub mkdirs-make_all :
      (fs : Fs) (dir_path : Key) → mkdirs sys fs dir_path ≡ make_all fs (targets dir_path)
  unfolding mkdirs
  mkdirs-make_all fs [] = unfold mkdirs_loop mkdirs_last make_all targets in refl
  mkdirs-make_all fs (c ∷ rest) =
      mkdirs_loop_lem fs [] (c ∷ rest) 0 (c ∷ rest)
      ∙ mkdirs_last_lem (make_all fs (parents [] (c ∷ rest))) (sep_after [] (c ∷ rest) 0) (c ∷ rest)
          (ends_in_slash true c rest) (sep_after_lem [] c rest 0 true refl (omega arith))
      ∙ sym (
          make_all-append fs (parents [] (c ∷ rest))
            (if ends_in_slash true c rest then [] else (c ∷ rest) ∷ []))
      ∙ unfold targets in refl
