-- ===== src/Directories/Examples.antt =====
-- The theorems on directories, with a table of paths for the file system.
use ddmframework.Common.{
  ℕ, ◌≡◌, refl, Bool, true, false, Bool-cases, inl, inr, List, [], ◌∷◌, Option, none, some, arith,
  Key, table_find, table_add, table_find-add, str_eq, str_eq_refl, if◌then◌else◌,
}
use ddmframework.Url.{codes}
use ddmframework.Directories.{FileSystem, FileSystemLaws, mkdirs, make_sure_dir, write_pid}
use ddmframework.Directories.Parents.{targets}
use ddmframework.Directories.Made.{Ended, Kept, mkdirs_lem}
use ddmframework.Directories.Agreement.{single_slashes, make_sure_dir-mkdirs}
use ddmframework.Config.{path_max}
use ddmframework.Paths.{get_dir_path}

abbrev pub Paths : Type 0
Paths = List (Key × List ℕ)

unfoldable pub is_some : Option (List ℕ) → Bool
is_some none = false
is_some (some content) = true

unfoldable pub there : Paths → Key → Bool
unfolding is_some table_find
there fs q = is_some (table_find q fs)

unfoldable pub make : Paths → Key → Paths × Bool
unfolding there table_add
make fs q = if there fs q then (fs, false) else (table_add q [] fs, true)

abbrev pub table_system : FileSystem
table_system = record {
  Fs = Paths;
  access = there;
  mkdir = make;
  write = λ fs p content. some (table_add p content fs);
  read = λ fs p. table_find p fs;
}

there-add :
    (fs : Paths) (p q : Key) (content : List ℕ)
    → there (table_add p content fs) q ≡ (if str_eq p q then true else there fs q)
unfolding there is_some
there-add fs p q content = rw table_find-add (ground arith)

keeps :
    (fs : Paths) (p q : Key) (content : List ℕ)
    → there fs q ≡ true
    → there (table_add p content fs) q ≡ true
keeps fs p q content h = ground (arith, there-add fs p q content)

pub make_keeps : (fs : Paths) (p q : Key) → there fs q ≡ true → there (make fs p).0 q ≡ true
unfolding make
make_keeps fs p q h = elim (Bool-cases (there fs p)) [
  | inl e ↦ rw e h
  | inr e ↦ rw e (keeps fs p q [] h)
]

pub make_makes : (fs : Paths) (p : Key) → (make fs p).1 ≡ true → there (make fs p).0 p ≡ true
unfolding make
make_makes fs p h = elim (Bool-cases (there fs p)) [
  | inl e ↦ cc (rw e at h)
  | inr e ↦ rw e (ground (arith, there-add fs p p [], str_eq_refl p))
]

pub make_fails : (fs : Paths) (p : Key) → (make fs p).1 ≡ false → (make fs p).0 ≡ fs
unfolding make
make_fails fs p h = ground arith

pub written :
    (fs fs' : Paths) (p q : Key) (content : List ℕ)
    → some (table_add p content fs) ≡ some fs'
    → there fs q ≡ true
    → there fs' q ≡ true
written fs fs' p q content e h = ground (arith, keeps fs p q content)

pub read_back :
    (fs fs' : Paths) (p : Key) (content : List ℕ)
    → some (table_add p content fs) ≡ some fs'
    → table_find p fs' ≡ some content
read_back fs fs' p content e = ground (arith, table_find-add p p content fs, str_eq_refl p)

abbrev pub table_system-FileSystemLaws : FileSystemLaws table_system
table_system-FileSystemLaws = record {
  mkdir_keeps = make_keeps;
  mkdir_makes = make_makes;
  mkdir_fails = make_fails;
  write_keeps = written;
  write_reads = read_back;
}

mkdirs_test :
    (mkdirs table_system [] (codes "/a/bc")).0 ≡ (codes "/a/bc", []) ∷ (codes "/a", []) ∷ []
unfolding mkdirs make there str_eq
mkdirs_test = refl

-- A path that begins with a dot and a slash: nothing is made, and the result is 0.
relative_test : make_sure_dir table_system [] (some (codes "./logs/a")) ≡ ([], true)
unfolding make_sure_dir make there str_eq
relative_test = refl

mkdirs_lem_example :
    Ended table_system table_system-FileSystemLaws
      (mkdirs table_system [] (codes "/a/b")).0
      (mkdirs table_system [] (codes "/a/b")).1
      (targets (codes "/a/b"))
    × Kept table_system table_system-FileSystemLaws []
        (mkdirs table_system [] (codes "/a/b")).0
        (codes "/")
mkdirs_lem_example =
    mkdirs_lem table_system table_system-FileSystemLaws [] (codes "/a/b") (codes "/")

wrote_pid : (write_pid table_system [] 42 (codes "/run/a.pid")).1 ≡ true
unfolding write_pid make there str_eq
wrote_pid = refl

above_file : get_dir_path (codes "/a/b/c") path_max ≡ some (codes "/a/b")
unfolding get_dir_path
above_file = refl

single : single_slashes true (codes "a/b/c") ≡ true
unfolding single_slashes
single = refl

make_sure_dir-mkdirs_example :
    make_sure_dir table_system [] (some (codes "/a/b/c")) ≡ mkdirs table_system [] (codes "/a/b")
make_sure_dir-mkdirs_example =
    make_sure_dir-mkdirs table_system [] b'/' (codes "a/b/c") (codes "/a/b") (omega arith) single
      above_file (omega arith)
