-- ===== src/Directories/Made.antt =====
-- soaagent/util.c: what `mkdirs` leaves, and the file of `write_pid`.
use ddmframework.Common.{
  ℕ, ◌≤◌, ◌<◌, ◌^◌, ◌≡◌, refl, sym, ap, subst, ◌⊎◌, inl, inr, Bool, true, false, not, ◌||◌,
  Bool-cases, Option-cases, List, [], ◌∷◌, ◌++◌, some, arith, Key, length, take_self, All,
}
use ddmframework.Decimal.{print, print-le, length-print}
use ddmframework.Directories.{
  FileSystem, FileSystemLaws, make_missing, mkdirs, write_content_to_file, read_content_from_file,
  write_pid,
}
use ddmframework.Directories.Parents.{targets, make_all, mkdirs-make_all}

module _ (sys : FileSystem) (laws : FileSystemLaws sys) where
  open sys use {Fs, access, mkdir}

  -- What was there is there.
  abbrev pub Kept : (fs fs' : Fs) → Key → Type 0
  Kept fs fs' other = (not (access fs other) || access fs' other) ≡ true

  -- All directories are there, or one could not be made and those before it are there.
  abbrev pub Ended : (fs' : Fs) → (ok : Bool) → List Key → Type 0
  Ended fs' ok qs =
      ((ok ≡ true) × All (λ q. access fs' q ≡ true) qs)
      ⊎ ((ok ≡ false)
          × (made : List Key) × (q : Key) × (later : List Key) × (qs ≡ made ++ q ∷ later)
          × All (λ d. access fs' d ≡ true) made
          × (access fs' q ≡ false)
          × ((mkdir fs' q).1 ≡ false))

  Kept-trans :
      (fs fs' fs'' : Fs) (other : Key)
      → Kept fs fs' other
      → Kept fs' fs'' other
      → Kept fs fs'' other
  Kept-trans fs fs' fs'' other h k = ground arith

  make_missing-Kept : (fs : Fs) (q other : Key) → Kept fs (make_missing sys fs q).0 other
  unfolding make_missing
  make_missing-Kept fs q other = elim (Bool-cases (access fs other)) [
    | inl there ↦ elim (Bool-cases (access fs q)) [
      | inl e ↦ rw e (rw there refl)
      | inr e ↦ rw e (rw there (laws.mkdir_keeps fs q other there))
    ]
    | inr missing ↦ rw missing refl
  ]

  make_missing-made :
      (fs : Fs) (q : Key)
      → (make_missing sys fs q).1 ≡ true
      → access (make_missing sys fs q).0 q ≡ true
  unfolding make_missing
  make_missing-made fs q h = elim (Bool-cases (access fs q)) [
    | inl e ↦ rw e e
    | inr e ↦ rw e (laws.mkdir_makes fs q (rw e at h))
  ]

  make_missing-failed :
      (fs : Fs) (q : Key)
      → (make_missing sys fs q).1 ≡ false
      → (access (make_missing sys fs q).0 q ≡ false)
        × ((mkdir (make_missing sys fs q).0 q).1 ≡ false)
  unfolding make_missing
  make_missing-failed fs q h = elim (Bool-cases (access fs q)) [
    | inl e ↦ cc (rw e at h)
    | inr e ↦ let same = laws.mkdir_fails fs q (rw e at h) in rw e (rw same (e, rw e at h))
  ]

  Kept-true :
      (fs fs' : Fs) (other : Key)
      → Kept fs fs' other
      → access fs other ≡ true
      → access fs' other ≡ true
  Kept-true fs fs' other h e = ground arith

  make_all-Kept : (fs : Fs) (qs : List Key) (other : Key) → Kept fs (make_all sys fs qs).0 other
  unfolding make_all
  make_all-Kept fs [] other = ground arith
  make_all-Kept fs (q ∷ qs) other = elim (Bool-cases (make_missing sys fs q).1) [
    | inl e ↦ rw e (
        Kept-trans fs (make_missing sys fs q).0 _ other (make_missing-Kept fs q other)
          (make_all-Kept (make_missing sys fs q).0 qs other))
    | inr e ↦ rw e (make_missing-Kept fs q other)
  ]

  Ended-cons :
      (fs fs' : Fs) (ok : Bool) (q : Key) (qs : List Key)
      → access fs' q ≡ true
      → Ended fs' ok qs
      → Ended fs' ok (q ∷ qs)
  Ended-cons fs fs' ok q qs there (inl (e, all)) = inl (e, (there, all))
  Ended-cons fs fs' ok q qs there (inr (e, made, d, later, same, all, missing, fails)) =
      inr (e, q ∷ made, d, later, ap (◌∷◌ q) same, (there, all), missing, fails)

  make_all_made :
      (fs : Fs) (q : Key) (qs : List Key)
      → (make_missing sys fs q).1 ≡ true
      → make_all sys fs (q ∷ qs) ≡ make_all sys (make_missing sys fs q).0 qs
  unfolding make_all
  make_all_made fs q qs e = rw e refl

  make_all_failed :
      (fs : Fs) (q : Key) (qs : List Key)
      → (make_missing sys fs q).1 ≡ false
      → make_all sys fs (q ∷ qs) ≡ ((make_missing sys fs q).0, false)
  unfolding make_all
  make_all_failed fs q qs e = rw e refl

  make_all_lem : (fs : Fs) (qs : List Key) → Ended (make_all sys fs qs).0 (make_all sys fs qs).1 qs
  make_all_lem fs [] = unfold make_all in inl (refl, tt)
  make_all_lem fs (q ∷ qs) = elim (Bool-cases (make_missing sys fs q).1) [
    | inl e ↦
        let fs' = (make_missing sys fs q).0 in
        subst (λ (r : Fs × Bool). Ended r.0 r.1 (q ∷ qs)) (sym (make_all_made fs q qs e))
          (Ended-cons fs (make_all sys fs' qs).0 (make_all sys fs' qs).1 q qs
            (Kept-true fs' (make_all sys fs' qs).0 q (make_all-Kept fs' qs q)
              (make_missing-made fs q e))
            (make_all_lem fs' qs))
    | inr e ↦
        subst (λ (r : Fs × Bool). Ended r.0 r.1 (q ∷ qs)) (sym (make_all_failed fs q qs e))
          (inr (
            refl,
            [],
            q,
            qs,
            refl,
            tt,
            (make_missing-failed fs q e).0,
            (make_missing-failed fs q e).1,
          ))
  ]

  -- `mkdirs` ends with 0 and every directory that the path names is there, those above it
  -- included, or with -1 and a directory that is missing and cannot be made, while those before it
  -- are there; nothing that was there is lost. The path may be empty or end in a slash.
  pub mkdirs_lem :
      (fs : Fs) (dir_path other : Key)
      → Ended (mkdirs sys fs dir_path).0 (mkdirs sys fs dir_path).1 (targets dir_path)
        × Kept fs (mkdirs sys fs dir_path).0 other
  mkdirs_lem fs dir_path other =
      rw mkdirs-make_all
        (make_all_lem fs (targets dir_path), make_all-Kept fs (targets dir_path) other)

  pub read_content_from_file-write_content_to_file :
      (fs : Fs) (path : Key) (content : List ℕ)
      → 1 ≤ length content
      → (write_content_to_file sys fs path content).1 ≡ true
      → read_content_from_file sys (write_content_to_file sys fs path content).0 (some path)
        ≡ some content
  unfolding write_content_to_file read_content_from_file
  read_content_from_file-write_content_to_file fs path content h ok =
      elim (Option-cases (sys.write fs path content)) [
        | inl e ↦ cc (rw (e, write_content_to_file) at ok)
        | inr (fs', e) ↦
            rw (e, write_content_to_file)
              (rw (laws.write_reads fs fs' path content e, read_content_from_file) (ground arith))
      ]

  -- A pid file that was written reads back as the printed number of the process.
  write_pid_lem :
      (fs : Fs) (pid : ℕ) (pid_file_path : Key)
      → pid < 10 ^ 19
      → (write_pid sys fs pid pid_file_path).1 ≡ true
      → read_content_from_file sys (write_pid sys fs pid pid_file_path).0 (some pid_file_path)
        ≡ some (print pid)
  unfolding write_pid
  write_pid_lem fs pid pid_file_path h ok = rw (take_self 19 (print pid) (length-print 18 pid h)) (
      read_content_from_file-write_content_to_file _ pid_file_path (print pid) (print-le pid)
        (rw (take_self 19 (print pid) (length-print 18 pid h)) at ok))
