-- ===== src/Register.antt =====
-- soaregister/service_mgt.c: a provider announces its services. What can be read of its file, what
-- cJSON makes of it and what zookeeper answers are parameters.
pub mod Announcement
pub mod Examples
use ddmframework.Common.{ℕ, Bool, true, false, List, [], ◌∷◌, ◌++◌, Option, none, some}
use ddmframework.Url.{codes, url_encode}
use ddmframework.Conn.{c_str, snprintf_s}
use ddmframework.Zookeeper.{Zookeeper, make_sure_enode}
use ddmframework.Invoke.Agent.{
  max_node_path_len, EventType, session_event, SessionState, expired_session,
}

-- What cJSON makes of a text: NULL, or an object and its item "group", if it has one.
abbrev pub Groups : Type 0
Groups = List ℕ → Option (Option (List ℕ))

unfoldable pub node_path : (group_name services_info : List ℕ) → List ℕ
node_path group_name services_info =
    b'/' ∷ (group_name ++ (codes "/providers/" ++ url_encode services_info))

module _ (zk : Zookeeper) where
  -- `zk_h` and `g_inited`.
  pub record Provider : Type 0 where
    pub session : zk.Zk
    pub node_value : List ℕ
    pub g_inited : Bool

  -- After `make_sure_enode`.
  unfoldable pub keep_node_value : Provider → List ℕ → zk.Zk × Bool → Provider × Bool
  keep_node_value p node_path_value (session, false) = (record p { session = session }, false)
  keep_node_value p node_path_value (session, true) = (
    record p { session = session; node_value = snprintf_s max_node_path_len node_path_value },
    true,
  )

  -- The flag is true for the result 0. cJSON and `strlen` read the content up to its first NUL; a
  -- text without a group is a fault.
  unfoldable pub register_services :
      Groups → (content : Option (List ℕ)) → Provider → Option (Provider × Bool)
  unfolding node_path make_sure_enode keep_node_value c_str
  register_services cjson none p = some (p, false)
  register_services cjson (some content) p = elim (cjson (c_str content)) [
    | none ↦ some (p, false)
    | some none ↦ none
    | some (some group_name) ↦
        let node_path_value = snprintf_s max_node_path_len (node_path group_name (c_str content)) in
        some (keep_node_value p node_path_value (make_sure_enode zk p.session node_path_value none))
  ]

  -- `init_zk_handle` opens a session, or fails.
  unfoldable pub provider_stub_init :
      Groups
      → (content : Option (List ℕ)) → (opened : Option zk.Zk) → Provider
      → Option (Provider × Bool)
  unfolding register_services
  provider_stub_init cjson content none p = some (record p { node_value = [] }, false)
  provider_stub_init cjson content (some session) p =
      elim (register_services cjson content (record p { session = session; node_value = [] })) [
        | none ↦ none
        | some (p', false) ↦ some (p', false)
        | some (p', true) ↦ some (record p' { g_inited = true }, true)
      ]

  unfoldable pub my_zk_watcher_marshal :
      Groups
      → (content : Option (List ℕ)) → (opened : Option zk.Zk) → Provider
      → EventType
      → SessionState
      → Option Provider
  unfolding register_services
  my_zk_watcher_marshal cjson content none p session_event expired_session = some p
  my_zk_watcher_marshal cjson content (some session) p session_event expired_session =
      elim (register_services cjson content (record p { session = session })) [
        | none ↦ none
        | some (p', ok) ↦ some p'
      ]
  my_zk_watcher_marshal cjson content opened p type state = some p
