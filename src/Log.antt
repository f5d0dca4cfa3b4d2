-- ===== src/Log.antt =====
-- soaregister/log.c: the log of the extension, one file for each day, opened anew when the file has
-- been moved or deleted. The text of a line and the day are given; the files are a parameter.
pub mod Rotation
mod Examples
use ddmframework.Common.{
  ℕ, ◌-◌, ◌≡◌, Bool, true, false, not, ◌&&◌, ◌||◌, List, [], ◌∷◌, ◌++◌, Option, none, some, Key,
  str_eq, length, ltb, ◌==◌, if◌then◌else◌,
}
use ddmframework.Url.{codes}
use ddmframework.Conn.{snprintf_s}
use ddmframework.Config.{path_max}

pub data Level : Type 0 where
  level_none level_debug level_info level_notice level_warn level_error level_fatal : Level

-- The values with one added.
unfoldable pub level_value : Level → ℕ
level_value level_none = 0
level_value level_debug = 1
level_value level_info = 2
level_value level_notice = 3
level_value level_warn = 4
level_value level_error = 5
level_value level_fatal = 6

pub data LockType : Type 0 where
  lock_none lock_between_thread lock_between_process : LockType

unfoldable pub get_locktype : List ℕ → LockType
get_locktype lock_type_name =
    if str_eq (codes "thread") lock_type_name
    then lock_between_thread
    else if str_eq (codes "process") lock_type_name
    then lock_between_process
    else lock_none

unfoldable pub get_level : List ℕ → Level
get_level level_name =
    if str_eq (codes "debug") level_name
    then level_debug
    else if str_eq (codes "info") level_name
    then level_info
    else if str_eq (codes "notice") level_name
    then level_notice
    else if str_eq (codes "warn") level_name
    then level_warn
    else if str_eq (codes "error") level_name
    then level_error
    else if str_eq (codes "fatal") level_name
    then level_fatal
    else level_none

-- An open file is known by its inode.
pub record LogHandle : Type 0 where
  pub status : Bool
  pub fp : Option ℕ
  pub filenametpl : List ℕ
  pub filename : List ℕ
  pub inode_value : Option ℕ
  pub level : Level
  pub threadsafe : LockType

-- The files during a call: the inode under a path, what `fopen` opens, and the inode after that.
pub record Files : Type 0 where
  pub get_inode : Key → Option ℕ
  pub fopen : Key → Option ℕ
  pub inode_after : Key → Option ℕ

-- `made` says whether `make_sure_dir` succeeds. The flag is true for the result 0.
unfoldable pub open_log :
    (made : Bool) → (filename levelname lock_type : List ℕ) → LogHandle → LogHandle × Bool
unfolding get_level get_locktype
open_log made filename levelname lock_type h =
    let closed : LogHandle = record {
      status = false;
      fp = none;
      filenametpl = [];
      filename = [];
      inode_value = none;
      level = get_level levelname;
      threadsafe = h.threadsafe;
    } in
    if ltb (path_max - 25) (length filename)
    then (closed, false)
    else if not made
    then (closed, false)
    else (
      record closed {
        status = true;
        filenametpl = snprintf_s path_max filename;
        threadsafe = get_locktype lock_type;
      },
      true,
    )

unfoldable pub log_path : LogHandle → (day : List ℕ) → Key
log_path h day = snprintf_s path_max (h.filenametpl ++ b'.' ∷ day)

-- `fclose`, `fopen`, and what follows.
unfoldable pub switch_file : Files → Key → LogHandle → LogHandle × Bool
switch_file files file_path h = elim (files.fopen file_path) [
  | none ↦ (record h { fp = none; status = false }, false)
  | some inode ↦ (
    record h {
      fp = some inode;
      filename = snprintf_s path_max file_path;
      inode_value = files.inode_after file_path;
    },
    true,
  )
]

-- Whether the file under the path is another one, or none.
unfoldable pub is_moved : Option ℕ → (cur_inode_value : Option ℕ) → Bool
is_moved inode_value none = true
is_moved none (some cur) = true
is_moved (some inode) (some cur) = not (inode == cur)

unfoldable pub prepare_log : Files → (day : List ℕ) → LogHandle → LogHandle × Bool
unfolding log_path switch_file is_moved
prepare_log files day h =
    let file_path = log_path h day in
    if not (str_eq file_path h.filename)
    then switch_file files file_path h
    else if is_moved h.inode_value (files.get_inode file_path)
    then switch_file files file_path h
    else (h, true)

-- `fwrite`, where a NULL file is a fault.
unfoldable pub write_to :
    (line : List ℕ) → LogHandle → (fp : Option ℕ) → Option (LogHandle × Option (ℕ × List ℕ))
write_to line h none = none
write_to line h (some inode) = some (h, some (inode, line))

-- What follows `prepare_log`.
unfoldable pub write_line :
    (line : List ℕ) → LogHandle × Bool → Option (LogHandle × Option (ℕ × List ℕ))
unfolding write_to
write_line line (h, false) = some (h, none)
write_line line (h, true) = write_to line h h.fp

unfoldable pub logv :
    Files → (day line : List ℕ) → LogHandle → Option (LogHandle × Option (ℕ × List ℕ))
unfolding prepare_log write_line
logv files day line h = write_line line (prepare_log files day h)

unfoldable pub is_none : Level → Bool
is_none level_none = true
is_none level_debug = false
is_none level_info = false
is_none level_notice = false
is_none level_warn = false
is_none level_error = false
is_none level_fatal = false

-- Whether a line is dropped.
unfoldable pub is_dropped : Level → LogHandle → Bool
unfolding level_value is_none
is_dropped level h =
    not h.status || is_none h.level || ltb (level_value level) (level_value h.level)

-- The inode of the file that the line went to, if it was written.
unfoldable pub log_write :
    Files → (day line : List ℕ) → Level → LogHandle → Option (LogHandle × Option (ℕ × List ℕ))
unfolding logv is_dropped
log_write files day line level h =
    if is_dropped level h then some (h, none) else logv files day line h

unfoldable pub close_log : LogHandle → LogHandle
close_log h = elim h.fp [
  | none ↦ if h.status then h else record h { status = false }
  | some inode ↦
      if h.status then record h { fp = none; status = false } else record h { status = false }
]
