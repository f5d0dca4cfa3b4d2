-- ===== src/Register/Announcement.antt =====
-- soaregister/service_mgt.c, soaregister/zk_handle.c and url_encode.c, read back by soaagent: the
-- node that announces the services of a provider.
use ddmframework.Common.{
  take_self, ◌-◌, ℕ, ◌≤◌, ◌<◌, ◌≡◌, refl, sym, ap, ◌∙◌, true, List, [], ◌∷◌, ◌++◌, append_assoc,
  none, some, arith, Key, length, IsBytes,
}
use ddmframework.Url.{codes, url_encode, url_decode}
use ddmframework.Url.Names.{NoDots, url_encode-IsName, url_encode-NoSlash}
use ddmframework.Url.RoundTrip.{url_decode-url_encode}
use ddmframework.Conn.{c_str, snprintf_s}
use ddmframework.Paths.{NoSlash}
use ddmframework.Zookeeper.{IsName, ephemeral_node, Zookeeper, ZookeeperLaws, make_sure_enode}
use ddmframework.Zookeeper.Nodes.{below}
use ddmframework.Zookeeper.Created.{IsFree}
use ddmframework.Zookeeper.Enode.{make_sure_enode_lem}
use ddmframework.Invoke.Agent.{max_node_path_len, session_event, expired_session}
use ddmframework.Register.{
  provider_stub_init, Provider, Groups, node_path, keep_node_value, register_services,
  my_zk_watcher_marshal,
}

-- The node above the announcements of a group.
abbrev pub providers : (group : List ℕ) → Key
providers group = b'/' ∷ (group ++ codes "/providers")

node_path-providers :
    (group services_info : List ℕ)
    → node_path group services_info ≡ providers group ++ b'/' ∷ url_encode services_info
unfolding node_path
node_path-providers group services_info =
    ap (◌∷◌ b'/') (sym (append_assoc group (codes "/providers") (b'/' ∷ url_encode services_info)))

providers-IsName : IsName (codes "providers")
providers-IsName = ground arith

announced :
    (zk : Zookeeper) (cjson : Groups) (p : Provider zk) (group content services_info : List ℕ)
    → c_str content ≡ services_info
    → cjson services_info ≡ some (some group)
    → register_services zk cjson (some content) p
      ≡ some (
          keep_node_value zk p (snprintf_s max_node_path_len (node_path group services_info)) (
            make_sure_enode zk p.session
              (snprintf_s max_node_path_len (node_path group services_info))
              none))
unfolding register_services
announced zk cjson p group content services_info text parsed =
    rw (register_services, text, parsed, text) refl

module _ (zk : Zookeeper) (laws : ZookeeperLaws zk) where
  -- What may stand at the node of the group and above its announcements.
  abbrev pub IsOpen : zk.Zk → (group : List ℕ) → Type 0
  IsOpen st group = IsFree (laws.node st (b'/' ∷ group)) × IsFree (laws.node st (providers group))

  -- The node of an announcement.
  enode_made :
      (session : zk.Zk) (group services_info : List ℕ)
      → IsName group
      → 1 ≤ length services_info
      → IsBytes services_info
      → NoDots services_info
      → IsOpen session group
      → laws.node session (node_path group services_info) ≡ none
      → (st : zk.Zk) × (make_sure_enode zk session (node_path group services_info) none
          ≡ (st, true))
        × (laws.node st (node_path group services_info) ≡ some ephemeral_node)
  unfolding below
  enode_made session group services_info name some_text bytes no_dots (open_group, open_providers)
        fresh =
      let path = node_path-providers group services_info in
      let (st, run, there, parent) =
        make_sure_enode_lem zk laws session group (codes "providers" ∷ [])
          (url_encode services_info) none (name, (providers-IsName, tt))
          (url_encode-IsName services_info bytes some_text no_dots)
          (open_group, (open_providers, tt)) (ap (laws.node session) (sym path) ∙ fresh) in
      (st, ap (λ x. make_sure_enode zk session x none) path ∙ run, ap (laws.node st) path ∙ there)

  -- One announcement.
  register_services_lem :
      (cjson : Groups) (p : Provider zk) (group content services_info : List ℕ) (st : zk.Zk)
      → c_str content ≡ services_info
      → cjson services_info ≡ some (some group)
      → length (node_path group services_info) < max_node_path_len
      → make_sure_enode zk p.session (node_path group services_info) none ≡ (st, true)
      → register_services zk cjson (some content) p
        ≡ some (record p { session = st; node_value = node_path group services_info }, true)
  unfolding keep_node_value
  register_services_lem cjson p group content services_info st text parsed fits run =
      let whole : snprintf_s max_node_path_len (node_path group services_info)
          ≡ node_path group services_info =
        take_self (max_node_path_len - 1) (node_path group services_info) (omega (arith, fits)) in
      announced zk cjson p group content services_info text parsed
      ∙ ap (λ x. some (keep_node_value zk p x (make_sure_enode zk p.session x none))) whole
      ∙ ap (λ r. some (keep_node_value zk p (node_path group services_info) r)) run
      ∙ ap (λ x. some (record p { session = st; node_value = x }, true)) whole

  -- A provider announces its services when it starts, and again when its session has expired: in
  -- the new session there is an ephemeral node below the providers of its group, its path is kept,
  -- and its name, which holds no slash, is decoded by an agent into the text of the file, up to its
  -- first NUL. The group is a name, that text is not empty, nor one or two dots, and holds bytes,
  -- the path fits its buffer, and no node is in the way.
  pub announces :
      (cjson : Groups) (p : Provider zk) (session : zk.Zk) (group content services_info : List ℕ)
      → c_str content ≡ services_info
      → cjson services_info ≡ some (some group)
      → IsName group
      → 1 ≤ length services_info
      → IsBytes services_info
      → NoDots services_info
      → length (node_path group services_info) < max_node_path_len
      → IsOpen session group
      → laws.node session (node_path group services_info) ≡ none
      → (st : zk.Zk) × (provider_stub_init zk cjson (some content) (some session) p
          ≡ some (
            record { session = st; node_value = node_path group services_info; g_inited = true },
            true,
          ))
        × (my_zk_watcher_marshal zk cjson
              (some content)
              (some session)
              p
              session_event
              expired_session
            ≡ some (record {
              session = st;
              node_value = node_path group services_info;
              g_inited = p.g_inited;
            }))
        × (laws.node st (node_path group services_info) ≡ some ephemeral_node)
        × (name : List ℕ) × (node_path group services_info ≡ providers group ++ b'/' ∷ name)
        × NoSlash name
        × (url_decode name ≡ services_info)
  unfolding provider_stub_init my_zk_watcher_marshal
  announces cjson p session group content services_info text parsed name some_text bytes no_dots
        fits no_other fresh =
      let at_start : Provider zk = record p { session = session; node_value = [] } in
      let again : Provider zk = record p { session = session } in
      let (st, made, there) =
        enode_made session group services_info name some_text bytes no_dots no_other fresh in
      let run =
        register_services_lem cjson at_start group content services_info st text parsed fits made in
      let run2 =
        register_services_lem cjson again group content services_info st text parsed fits made in
      (
        st,
        rw (run, provider_stub_init) refl,
        rw (run2, my_zk_watcher_marshal) refl,
        there,
        url_encode services_info,
        node_path-providers group services_info,
        url_encode-NoSlash services_info,
        url_decode-url_encode services_info bytes,
      )
