-- ===== src/Directories.antt =====
-- soaagent/util.c: the directories above a file, and small files. The calls of the system (`access`,
-- `mkdir`, `fopen`, `getpid`) are an interface. The text of an error goes to the log.
pub mod Parents
pub mod Made
pub mod Agreement
pub mod Examples
use ddmframework.Common.{
  ℕ, zero, suc, ◌+◌, ◌≡◌, Bool, true, false, not, ◌&&◌, List, [], ◌∷◌, ◌++◌, Option, none, some,
  Key, length, take, leb, ltb, ◌==◌, if◌then◌else◌,
}
use ddmframework.Conn.{snprintf_s}
use ddmframework.Config.{path_max}
use ddmframework.Decimal.{print}
use ddmframework.Paths.{get_dir_path}

-- `access(path, F_OK)`, `mkdir`, whose flag is true for the result 0, a file that is written anew,
-- and the content of a file that can be opened.
pub record FileSystem : Type 1 where
  pub Fs : Type 0
  pub access : Fs → Key → Bool
  pub mkdir : Fs → Key → Fs × Bool
  pub write : Fs → Key → List ℕ → Option Fs
  pub read : Fs → Key → Option (List ℕ)

-- What is documented of `mkdir` and of writing: what is there stays; a directory that was made is
-- there; a `mkdir` that fails changes nothing; a file that was written has the content.
pub record FileSystemLaws (sys : FileSystem) : Type 0 where
  pub mkdir_keeps :
      (fs : sys.Fs) (p q : Key) → sys.access fs q ≡ true → sys.access (sys.mkdir fs p).0 q ≡ true
  pub mkdir_makes :
      (fs : sys.Fs) (p : Key) → (sys.mkdir fs p).1 ≡ true → sys.access (sys.mkdir fs p).0 p ≡ true
  pub mkdir_fails : (fs : sys.Fs) (p : Key) → (sys.mkdir fs p).1 ≡ false → (sys.mkdir fs p).0 ≡ fs
  pub write_keeps :
      (fs fs' : sys.Fs) (p q : Key) (content : List ℕ)
      → sys.write fs p content ≡ some fs'
      → sys.access fs q ≡ true
      → sys.access fs' q ≡ true
  pub write_reads :
      (fs fs' : sys.Fs) (p : Key) (content : List ℕ)
      → sys.write fs p content ≡ some fs'
      → sys.read fs' p ≡ some content

module _ (sys : FileSystem) where
  open sys use {Fs, access, mkdir, write, read}

  -- `mkdir` unless there is something.
  unfoldable pub make_missing : Fs → Key → Fs × Bool
  make_missing fs path = if access fs path then (fs, true) else mkdir fs path

  -- The loop, with the bytes before `index` and those from it on. The number is `sepPos + 1`.
  unfoldable pub mkdirs_loop : Fs → (before rest : List ℕ) → (sep_end : ℕ) → (Fs × ℕ) × Bool
  unfolding make_missing
  mkdirs_loop fs before [] sep_end = ((fs, sep_end), true)
  mkdirs_loop fs before (c ∷ rest) sep_end =
      let next = mkdirs_loop fs (before ++ c ∷ []) rest sep_end in
      let (fs', ok) = make_missing fs before in
      let later = mkdirs_loop fs' (before ++ c ∷ []) rest (length before + 1) in
      if c == b'/' && ltb 0 (length before)
      then (if ok then later else ((fs', length before + 1), false))
      else next

  -- After the loop: a path that does not end in a slash is a directory too.
  unfoldable pub mkdirs_last : (dir_path : Key) → (Fs × ℕ) × Bool → Fs × Bool
  unfolding make_missing
  mkdirs_last dir_path ((fs, sep_end), false) = (fs, false)
  mkdirs_last dir_path ((fs, sep_end), true) =
      if sep_end == length dir_path then (fs, true) else make_missing fs dir_path

  -- The flag is true for the result 0.
  unfoldable pub mkdirs : Fs → (dir_path : Key) → Fs × Bool
  unfolding mkdirs_loop mkdirs_last
  mkdirs fs dir_path = mkdirs_last dir_path (mkdirs_loop fs [] dir_path 0)

  -- `strchr` from `str_ptr` on; `is_first` says whether nothing was read since `str_ptr`. A slash
  -- that stands there ends the loop.
  unfoldable pub make_sure_loop : Fs → (before rest : List ℕ) → (is_first : Bool) → Fs × Bool
  unfolding make_missing
  make_sure_loop fs before [] is_first = (fs, true)
  make_sure_loop fs before (c ∷ rest) is_first =
      let next = make_sure_loop fs (before ++ c ∷ []) rest false in
      let (fs', ok) = make_missing fs before in
      let later = make_sure_loop fs' (before ++ c ∷ []) rest true in
      if c == b'/'
      then (if is_first then (fs, true) else if ok then later else (fs', false))
      else next

  -- The search begins at the second byte.
  unfoldable pub make_sure_path : Fs → (path : List ℕ) → Fs × Bool
  unfolding make_sure_loop
  make_sure_path fs [] = (fs, true)
  make_sure_path fs (c ∷ path) = make_sure_loop fs (c ∷ []) path true

  -- `none` is a NULL path.
  unfoldable pub make_sure_dir : Fs → (file_path : Option Key) → Fs × Bool
  unfolding make_sure_path
  make_sure_dir fs none = (fs, false)
  make_sure_dir fs (some file_path) =
      if leb (length file_path) 1
      then (fs, false)
      else make_sure_path fs (snprintf_s path_max file_path)

  -- A file that cannot be opened is -1.
  unfoldable pub write_content_to_file : Fs → (file_path : Key) → List ℕ → Fs × Bool
  write_content_to_file fs file_path buffer = elim (write fs file_path buffer) [
    | none ↦ (fs, false)
    | some fs' ↦ (fs', true)
  ]

  -- `fread` of no bytes gives 0 items, so that an empty file counts as a failure. `none` is -1.
  unfoldable pub read_content_from_file : Fs → (filename : Option Key) → Option (List ℕ)
  read_content_from_file fs none = none
  read_content_from_file fs (some filename) = elim (read fs filename) [
    | none ↦ none
    | some content ↦ if ltb 0 (length content) then some content else none
  ]

  -- The directory is made, whatever `get_dir_path` says: its buffer starts empty. The result of
  -- `mkdirs` is not used.
  unfoldable pub write_pid : Fs → (pid : ℕ) → (pid_file_path : Key) → Fs × Bool
  unfolding get_dir_path mkdirs write_content_to_file
  write_pid fs pid pid_file_path =
      let dir_path : List ℕ = elim (get_dir_path pid_file_path path_max) [
        | none ↦ []
        | some dir ↦ dir
      ] in
      write_content_to_file (mkdirs fs dir_path).0 pid_file_path (snprintf_s 20 (print pid))
