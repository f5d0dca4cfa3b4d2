-- ===== src/Scp/Registered.antt =====
-- soaregister/scp.c: a provider registers its services and writes the path of its node.
use ddmframework.Conn.{c_str}
use ddmframework.Common.{
  ℕ, ◌≤◌, ◌<◌, ◌≡◌, refl, ap, ◌∙◌, true, List, ◌∷◌, ◌++◌, Option, none, some, arith, length,
  take_self, IsBytes,
}
use ddmframework.Url.{url_decode}
use ddmframework.Url.Names.{NoDots}
use ddmframework.Config.{path_max}
use ddmframework.Paths.{NoSlash}
use ddmframework.Directories.{
  FileSystem, FileSystemLaws, read_content_from_file, write_content_to_file,
}
use ddmframework.Directories.Made.{read_content_from_file-write_content_to_file}
use ddmframework.Zookeeper.{IsName, ephemeral_node, Zookeeper, ZookeeperLaws}
use ddmframework.Invoke.Agent.{max_node_path_len}
use ddmframework.Register.{Groups, node_path}
use ddmframework.Register.Announcement.{IsOpen, providers, announces}
use ddmframework.Scp.{
  ScpGlobals, Scp, long_zero, status_of, returned, register_service_by_file, scp_write_node_value,
  get_cur_node_path,
}

module _ (sys : FileSystem) (zk : Zookeeper) (laws : FileSystemLaws sys)
    (zk_laws : ZookeeperLaws zk) where
  -- `register_service_by_file` on a file that a provider can read returns 0, and when
  -- `scp_write_node_value` can write its file too, that file holds the path of an ephemeral node
  -- below the providers of the group, whose name an agent decodes into the text of the first file,
  -- up to its first NUL. The session is the one at the configured addresses, whatever addresses the
  -- caller gives. The path of the file fits PATH_MAX; its text up to that NUL is a JSON text with a
  -- group that is a name, is not empty nor one or two dots, and holds bytes; the path of the node
  -- fits its buffer, and no node is in the way.
  pub scp_write_node_value-register_service_by_file :
      (cjson : Groups) (open_session : List ℕ → Option zk.Zk) (globals : ScpGlobals)
      (s : Scp sys zk) (session : zk.Zk) (zk_addrs file output group content services_info : List ℕ)
      → length file < path_max
      → read_content_from_file sys s.files (some file) ≡ some content
      → c_str content ≡ services_info
      → open_session globals.zk_addrs ≡ some session
      → cjson services_info ≡ some (some group)
      → IsName group
      → 1 ≤ length services_info
      → IsBytes services_info
      → NoDots services_info
      → length (node_path group services_info) < max_node_path_len
      → IsOpen zk zk_laws session group
      → zk_laws.node session (node_path group services_info) ≡ none
      → (write_content_to_file sys s.files output (node_path group services_info)).1 ≡ true
      → (s' : Scp sys zk) × (register_service_by_file sys zk cjson open_session globals
            (some (zk_addrs, file))
            s
          ≡ some (s', long_zero))
        × (zk_laws.node s'.provider.session (node_path group services_info) ≡ some ephemeral_node)
        × (s'.log ≡ s.log)
        × (name : List ℕ) × (read_content_from_file sys
              (scp_write_node_value sys zk (some output) s').0.files
              (some output)
            ≡ some (providers group ++ b'/' ∷ name))
        × NoSlash name
        × (url_decode name ≡ services_info)
  unfolding register_service_by_file scp_write_node_value returned status_of get_cur_node_path
      node_path
  scp_write_node_value-register_service_by_file cjson open_session globals s session zk_addrs file
        output group content services_info short read text opened parsed name some_text bytes
        no_dots fits no_other fresh written =
      let (st, run, again, there, node, path, plain, decoded) =
        announces zk zk_laws cjson s.provider session group content services_info text parsed name
          some_text bytes no_dots fits no_other fresh in
      let at = node_path group services_info in
      (
        record s { provider = record { session = st; node_value = at; g_inited = true } },
        rw (take_self 4095 file (omega arith), read, opened, run),
        there,
        refl,
        node,
        read_content_from_file-write_content_to_file sys laws s.files output at (omega arith)
              written
            ∙ ap some path,
        plain,
        decoded,
      )
