-- ===== src/Scp/Examples.antt =====
-- The theorem on a provider, with a table of paths for the file system and a table of nodes for
-- zookeeper.
use ddmframework.Conn.{c_str}
use ddmframework.Common.{
  ℕ, ◌≡◌, refl, true, false, List, [], ◌∷◌, ◌++◌, none, some, arith, inl, inr, str_eq, table_find,
}
use ddmframework.Url.{codes, url_decode}
use ddmframework.Paths.{NoSlash}
use ddmframework.Log.{level_none, lock_none}
use ddmframework.Directories.{read_content_from_file, write_content_to_file}
use ddmframework.Directories.Examples.{table_system, table_system-FileSystemLaws}
use ddmframework.Zookeeper.{ephemeral_node}
use ddmframework.Register.{node_path}
use ddmframework.Register.Announcement.{providers}
use ddmframework.Register.Examples.{
  tables, tables-ZookeeperLaws, session, provider, short, at_pay, no_providers, not_yet, pay-IsName,
}
use ddmframework.Scp.{ScpGlobals, Scp, long_zero, register_service_by_file, scp_write_node_value}
use ddmframework.Scp.Registered.{scp_write_node_value-register_service_by_file}

abbrev globals : ScpGlobals
globals = record {
  zk_addrs = codes "zk1:2181";
  log_path = codes "/tmp/scp.log";
  log_level = codes "info";
  log_lock_type = [];
}

-- The declarations of the provider, and a log that is closed.
abbrev scp : Scp table_system tables
scp = record {
  files = (codes "/etc/pay.json", codes "{a}") ∷ [];
  provider = provider;
  log = record {
    status = false;
    fp = none;
    filenametpl = [];
    filename = [];
    inode_value = none;
    level = level_none;
    threadsafe = lock_none;
  };
}

declared :
    read_content_from_file table_system scp.files (some (codes "/etc/pay.json"))
    ≡ some (codes "{a}")
unfolding read_content_from_file table_find str_eq
declared = refl

writes :
    (write_content_to_file table_system scp.files
      (codes "/tmp/node")
      (node_path (codes "pay") (codes "{a}"))).1
    ≡ true
unfolding write_content_to_file
writes = refl

whole : c_str (codes "{a}") ≡ codes "{a}"
unfolding c_str
whole = refl

scp_write_node_value-register_service_by_file_example :
    (s' : Scp table_system tables) × (register_service_by_file table_system tables
        (λ text. some (some (codes "pay")))
        (λ addrs. some session)
        globals
        (some (codes "zk2:2181", codes "/etc/pay.json"))
        scp
      ≡ some (s', long_zero))
    × (table_find (node_path (codes "pay") (codes "{a}")) s'.provider.session ≡ some ephemeral_node)
    × (s'.log ≡ scp.log)
    × (name : List ℕ) × (read_content_from_file table_system
          (scp_write_node_value table_system tables (some (codes "/tmp/node")) s').0.files
          (some (codes "/tmp/node"))
        ≡ some (providers (codes "pay") ++ b'/' ∷ name))
    × NoSlash name
    × (url_decode name ≡ codes "{a}")
scp_write_node_value-register_service_by_file_example =
    scp_write_node_value-register_service_by_file table_system tables table_system-FileSystemLaws
      tables-ZookeeperLaws (λ text. some (some (codes "pay"))) (λ addrs. some session) globals scp
      session (codes "zk2:2181") (codes "/etc/pay.json") (codes "/tmp/node") (codes "pay")
      (codes "{a}") (codes "{a}") (omega arith) declared whole refl refl pay-IsName (omega arith)
      (omega arith, (omega arith, (omega arith, tt))) ((λ e. cc), (λ e. cc)) short
      (inr at_pay, inl no_providers) not_yet writes
