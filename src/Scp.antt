-- ===== src/Scp.antt =====
-- soaregister/scp.c: the PHP extension of a provider, from its settings to the announcement of its
-- services, with `provider_stub_destroy` and `get_cur_node_path` of soaregister/service_mgt.c.
-- Zookeeper, cJSON and the file system are parameters.
pub mod Registered
mod Examples
use ddmframework.Common.{
  Bool, true, false, List, [], ◌∷◌, Option, none, some, Key, if◌then◌else◌, ℕ,
}
use ddmframework.Conn.{snprintf_s}
use ddmframework.Config.{path_max}
use ddmframework.Directories.{
  FileSystem, make_sure_dir, read_content_from_file, write_content_to_file,
}
use ddmframework.Zookeeper.{Zookeeper}
use ddmframework.Log.{LogHandle, open_log, close_log}
use ddmframework.Register.{Groups, Provider, provider_stub_init}

-- The settings, from php.ini or the defaults.
pub record ScpGlobals : Type 0 where
  pub zk_addrs : List ℕ
  pub log_path : List ℕ
  pub log_level : List ℕ
  pub log_lock_type : List ℕ

-- What a function returns to PHP.
pub data Zval : Type 0 where
  null_value : Zval
  long_zero : Zval
  long_minus_one : Zval

unfoldable pub status_of : Bool → Zval
status_of true = long_zero
status_of false = long_minus_one

module _ (sys : FileSystem) (zk : Zookeeper) where
  -- The files, the provider and the log.
  pub record Scp : Type 0 where
    pub files : sys.Fs
    pub provider : Provider zk
    pub log : LogHandle

  -- PHP_MINIT_FUNCTION; the flag is true for SUCCESS. The log makes the directories above its file
  -- when its name is not too long.
  unfoldable pub scp_minit : ScpGlobals → Scp → Scp × Bool
  unfolding make_sure_dir open_log
  scp_minit globals s =
      let (files, made) = make_sure_dir sys s.files (some globals.log_path) in
      let (log, opened) =
        open_log made globals.log_path globals.log_level globals.log_lock_type s.log in
      (record s { files = files; log = log }, opened)

  unfoldable pub returned : Scp → Option (Provider zk × Bool) → Option (Scp × Zval)
  unfolding status_of
  returned s none = none
  returned s (some (provider, ok)) = some (record s { provider = provider }, status_of ok)

  -- The first string of the caller, the addresses, is not used. `open_session` says what zookeeper
  -- at some addresses answers.
  unfoldable pub register_service_by_file :
      Groups
      → (open_session : List ℕ → Option zk.Zk) → ScpGlobals
      → (args : Option (List ℕ × List ℕ)) → Scp
      → Option (Scp × Zval)
  unfolding returned provider_stub_init read_content_from_file
  register_service_by_file cjson open_session globals none s = some (s, null_value)
  register_service_by_file cjson open_session globals (some (zk_addrs, file)) s = returned s (
      provider_stub_init zk cjson
        (read_content_from_file sys s.files (some (snprintf_s path_max file)))
        (open_session globals.zk_addrs) s.provider)

  unfoldable pub get_cur_node_path : Provider zk → List ℕ
  get_cur_node_path provider = provider.node_value

  -- The result of the write is not used.
  unfoldable pub scp_write_node_value : (args : Option (List ℕ)) → Scp → Scp × Zval
  unfolding write_content_to_file get_cur_node_path
  scp_write_node_value none s = (s, null_value)
  scp_write_node_value (some output_file_path) s = (
    record s {
      files = (write_content_to_file sys s.files output_file_path (get_cur_node_path s.provider)).0;
    },
    long_zero,
  )

  -- `close_session` is `fini_zk_handle`.
  unfoldable pub provider_stub_destroy : (close_session : zk.Zk → zk.Zk) → Provider zk → Provider zk
  provider_stub_destroy close_session p =
      if p.g_inited then record p { session = close_session p.session; g_inited = false } else p

  -- PHP_MSHUTDOWN_FUNCTION
  unfoldable pub scp_mshutdown : (close_session : zk.Zk → zk.Zk) → Scp → Scp
  unfolding provider_stub_destroy close_log
  scp_mshutdown close_session s = record s {
    provider = provider_stub_destroy close_session s.provider;
    log = close_log s.log;
  }
