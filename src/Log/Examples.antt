-- ===== src/Log/Examples.antt =====
-- The theorem on the log: its file was moved away, and a new one is opened.
use ddmframework.Common.{not, ◌&&◌, ℕ, ◌≡◌, refl, true, List, Option, none, some, inr}
use ddmframework.Url.{codes}
use ddmframework.Log.{LogHandle, Files, level_info, level_error, lock_none, log_path, log_write}
use ddmframework.Log.Rotation.{passes, Ends, log_write_lem}

abbrev handle : LogHandle
handle = record {
  status = true;
  fp = some 7;
  filenametpl = codes "/log/soa";
  filename = codes "/log/soa.20160101";
  inode_value = some 7;
  level = level_info;
  threadsafe = lock_none;
}

abbrev files : Files
files = record { get_inode = λ path. none; fopen = λ path. some 9; inode_after = λ path. some 9 }

log_write_lem_example :
    (h' : LogHandle) × (out : Option (ℕ × List ℕ)) × (log_write files
        (codes "20160101")
        (codes "down")
        level_error
        handle
      ≡ some (h', out))
    × Ends files
        (log_path handle (codes "20160101"))
        (not (handle.status && passes handle.level level_error))
        (codes "down")
        handle
        h'
        out
log_write_lem_example =
    log_write_lem files (codes "20160101") (codes "down") level_error handle (λ inode e. e)
      (inr (7, refl, refl))
