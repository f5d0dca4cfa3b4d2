-- ===== src/Invoke/Life.antt =====
-- soaagent/invoke_stub.c: a refresh and the watcher keep the pools that are there.
use ddmframework.Common.{
  length, ltb, ℕ, ◌≤◌, ◌≡◌, refl, inl, inr, Bool, true, false, not, ◌&&◌, ◌==◌, Bool-cases, List,
  [], ◌∷◌, Option, none, some, Option-cases, Key,
}
use ddmframework.StringArray.{string_array_init}
use ddmframework.ServiceConf.{provider_construct_key}
use ddmframework.Invoke.{reconcile}
use ddmframework.Invoke.Kept.{Pooled, reconcile-Pooled}
use ddmframework.Invoke.Invocation.{PoolsSound}
use ddmframework.Invoke.Refresh.{
  Sound, IsFairAnswer, IsWholeFile, children_change-Sound, watch_declared_services_lem,
}
use ddmframework.Invoke.Agent.{
  Agent, World, ConfigFile, EventType, child_event, session_event, created_event, deleted_event,
  changed_event, notwatching_event, SessionState, expired_session, auth_failed, connecting,
  associating, connected, max_node_path_len, parse_nodes, children_change_func_impl, get_children,
  watch_group_change, watch_groups, declare_groups, watch_declared_services, take_over, Declared,
  Context, context_at, max_group_value_len, push_context, my_zk_watcher_marshal,
}

-- An agent that is well: its pools are in step with its services, its registrations are fit, and
-- each pool has its invariant.
pub record Alive (a : Agent) : Type 0 where
  pub sound : Sound a
  pub pools : PoolsSound a.resources.nodes

pub Alive-Pooled : (a : Agent) → Alive a → Pooled a.resources.nodes
Alive-Pooled a v = record { table = v.sound.in_step.nodes; sound = v.pools }

-- The pointer that an event on children brings is still good.
abbrev pub IsCurrent : Agent → EventType → Context → Type 0
IsCurrent a child_event context = (group : Key) × (context_at a context ≡ some group)
IsCurrent a created_event context = Unit {0}
IsCurrent a deleted_event context = Unit {0}
IsCurrent a changed_event context = Unit {0}
IsCurrent a session_event context = Unit {0}
IsCurrent a notwatching_event context = Unit {0}

module _ (w : World) (fits : w.config.init_conn_num ≤ w.config.max_conn_num) where
  -- The pools of an agent.
  abbrev pub AgentPooled : Agent → Type 0
  AgentPooled a = Pooled a.resources.nodes

  children_change-Pooled :
      (a : Agent) (node_group : Key) (node_names : List (List ℕ)) (a' : Agent)
      → AgentPooled a
      → children_change_func_impl w a node_group node_names ≡ some a'
      → AgentPooled a'
  unfolding children_change_func_impl
  children_change-Pooled a node_group node_names a' v e =
      elim (Option-cases (parse_nodes w a.service_filters none node_names)) [
        | inl f ↦ absurd (cc (rw (f, children_change_func_impl) at e))
        | inr (remote, f) ↦
            elim (Option-cases
              (reconcile w.config w.started a.resources a.mapping node_group remote)) [
                | inl g ↦ absurd (cc (rw (f, g, children_change_func_impl) at e))
                | inr ((resources, mapping), g) ↦
                    let same : record a { resources = resources; mapping = mapping } ≡ a' =
                      cc (rw (f, g, children_change_func_impl) at e) in
                    rw⁻¹ same (
                      reconcile-Pooled w.config fits w.started a.resources a.mapping node_group
                        remote resources mapping v g)
              ]
      ]

  get_children-Pooled :
      (a : Agent) (node_group : Key) (answer : Option (List (List ℕ))) (a' : Agent) (ok : Bool)
      → AgentPooled a
      → get_children w a node_group answer ≡ some (a', ok)
      → AgentPooled a'
  unfolding get_children
  get_children-Pooled a node_group none a' ok v e = let same : a ≡ a' = cc in rw⁻¹ same v
  get_children-Pooled a node_group (some node_names) a' ok v e =
      elim (Option-cases (children_change_func_impl w a node_group node_names)) [
        | inl f ↦ absurd (cc (rw (f, get_children) at e))
        | inr (later, f) ↦
            let same : later ≡ a' = cc (rw (f, get_children) at e) in
            rw⁻¹ same (children_change-Pooled a node_group node_names later v f)
      ]

  watch_group_change-Pooled :
      (children : Key → Option (List (List ℕ))) (a : Agent) (group : List ℕ) (a' : Agent)
      → AgentPooled a
      → watch_group_change w children a group ≡ some a'
      → AgentPooled a'
  unfolding watch_group_change
  watch_group_change-Pooled children a group a' v e =
      let node_group = provider_construct_key group max_node_path_len in
      let watching = push_context w a node_group in
      elim (Bool-cases (ltb (length node_group) max_group_value_len)) [
        | inr long ↦ absurd (cc (rw (long, watch_group_change) at e))
        | inl short ↦
            elim (Option-cases (get_children w watching node_group (children node_group))) [
              | inl f ↦ absurd (cc (rw (short, f, watch_group_change) at e))
              | inr ((later, ok), f) ↦
                  let same : later ≡ a' = cc (rw (short, f, watch_group_change) at e) in
                  rw⁻¹ same
                    (get_children-Pooled watching node_group (children node_group) later ok v f)
            ]
      ]

  watch_groups-Pooled :
      (children : Key → Option (List (List ℕ))) (a : Agent) (groups : List Key) (a' : Agent)
      → AgentPooled a
      → watch_groups w children a groups ≡ some a'
      → AgentPooled a'
  unfolding watch_groups
  watch_groups-Pooled children a [] a' v e = let same : a ≡ a' = cc in rw⁻¹ same v
  watch_groups-Pooled children a (group ∷ groups) a' v e =
      elim (Option-cases (watch_group_change w children a group)) [
        | inl f ↦ absurd (cc (rw (f, watch_groups) at e))
        | inr (later, f) ↦
            watch_groups-Pooled children later groups a'
              (watch_group_change-Pooled children a group later v f) (rw (f, watch_groups) at e)
      ]

  take_over-Pooled :
      (children : Key → Option (List (List ℕ))) (file : ConfigFile) (a : Agent)
      (root : List Declared) (a' : Agent) (ok : Bool)
      → AgentPooled a
      → take_over w children file a root ≡ some (a', ok)
      → AgentPooled a'
  unfolding take_over
  take_over-Pooled children file a root a' ok v e =
      elim (Option-cases (declare_groups a.service_filters string_array_init root)) [
        | inl f ↦ absurd (cc (rw (f, take_over) at e))
        | inr ((filters, group_names), f) ↦
            let declared = record a { service_filters = filters } in
            elim (Option-cases (watch_groups w children declared group_names.strs)) [
              | inl g ↦ absurd (cc (rw (f, g, take_over) at e))
              | inr (later, g) ↦
                  let same : record later { config_file_last_modified = file.modified_after } ≡ a' =
                    cc (rw (f, g, take_over) at e) in
                  rw⁻¹ same (watch_groups-Pooled children declared group_names.strs later v g)
            ]
      ]

  pub watch_declared_services-Pooled :
      (children : Key → Option (List (List ℕ))) (file : ConfigFile) (a : Agent)
      (force_refresh : Bool) (a' : Agent) (ok : Bool)
      → AgentPooled a
      → watch_declared_services w children file a force_refresh ≡ some (a', ok)
      → AgentPooled a'
  unfolding watch_declared_services
  watch_declared_services-Pooled children file a force_refresh a' ok v e =
      elim (Bool-cases file.exists) [
        | inr missing ↦
            let same : a ≡ a' = cc (rw (missing, watch_declared_services) at e) in rw⁻¹ same v
        | inl there ↦
            elim (Bool-cases
              (not force_refresh && (file.modified_before == a.config_file_last_modified))) [
                | inl current ↦
                    let same : a ≡ a' = cc (rw (there, current, watch_declared_services) at e) in
                    rw⁻¹ same v
                | inr due ↦ elim (Option-cases file.content) [
                  | inl unread ↦
                      let same : a ≡ a' =
                        cc (rw (there, due, unread, watch_declared_services) at e) in
                      rw⁻¹ same v
                  | inr (buffer, content) ↦ elim (Option-cases (file.declarations buffer)) [
                    | inl unparsed ↦
                        let same : a ≡ a' =
                          cc (rw (there, due, content, unparsed, watch_declared_services) at e) in
                        rw⁻¹ same v
                    | inr (root, parsed) ↦
                        take_over-Pooled children file a root a' ok v
                          (rw (there, due, content, parsed, watch_declared_services) at e)
                  ]
                ]
              ]
      ]

  -- A refresh, with the answers of zookeeper and the file at that time.
  pub watch_declared_services-Alive :
      (children : Key → Option (List (List ℕ))) (file : ConfigFile) (a : Agent)
      (force_refresh : Bool)
      → IsFairAnswer w children
      → IsWholeFile file
      → Alive a
      → (a' : Agent) × (ok : Bool) × (watch_declared_services w children file a force_refresh
          ≡ some (a', ok))
        × Alive a'
  watch_declared_services-Alive children file a force_refresh fair whole v =
      let (a', run, sound, same) =
        watch_declared_services_lem w children file a force_refresh fits fair whole v.sound in
      (
        a',
        _,
        run,
        record {
          sound = sound;
          pools =
              (watch_declared_services-Pooled children file a force_refresh a' _ (Alive-Pooled a v)
                run).sound;
        },
      )

  -- The watcher of zookeeper does not fault and leaves the agent well, whatever the event is.
  pub my_zk_watcher_marshal-Alive :
      (children : Key → Option (List (List ℕ))) (file : ConfigFile) (reconnected : Bool) (a : Agent)
      (type : EventType) (state : SessionState) (context : Context)
      → IsFairAnswer w children
      → IsWholeFile file
      → IsCurrent a type context
      → Alive a
      → (a' : Agent) × (my_zk_watcher_marshal w children file reconnected a type state context
          ≡ some a')
        × Alive a'
  unfolding my_zk_watcher_marshal get_children
  my_zk_watcher_marshal-Alive children file reconnected a child_event state context fair whole
        (group, at) v =
      elim (Option-cases (children group)) [
        | inl e ↦ (a, rw (at, e, my_zk_watcher_marshal) refl, v)
        | inr (node_names, e) ↦
            let (short, nodes) = fair group node_names e in
            let (a', run, sound, same) =
              children_change-Sound w a group node_names fits v.sound short nodes in
            (
              a',
              rw (at, e, run, my_zk_watcher_marshal, get_children) refl,
              record {
                sound = sound;
                pools = (children_change-Pooled a group node_names a' (Alive-Pooled a v) run).sound;
              },
            )
      ]
  my_zk_watcher_marshal-Alive children file true a session_event expired_session context fair whole
        current v =
      let (a', ok, run, v') = watch_declared_services-Alive children file a true fair whole v in
      (a', rw (run, my_zk_watcher_marshal) refl, v')
  my_zk_watcher_marshal-Alive children file true a session_event auth_failed context fair whole
        current v =
      (a, refl, v)
  my_zk_watcher_marshal-Alive children file true a session_event connecting context fair whole
        current v =
      (a, refl, v)
  my_zk_watcher_marshal-Alive children file true a session_event associating context fair whole
        current v =
      (a, refl, v)
  my_zk_watcher_marshal-Alive children file true a session_event connected context fair whole
        current v =
      (a, refl, v)
  my_zk_watcher_marshal-Alive children file false a session_event state context fair whole current
        v =
      (a, refl, v)
  my_zk_watcher_marshal-Alive children file reconnected a created_event state context fair whole
        current v =
      (a, refl, v)
  my_zk_watcher_marshal-Alive children file reconnected a deleted_event state context fair whole
        current v =
      (a, refl, v)
  my_zk_watcher_marshal-Alive children file reconnected a changed_event state context fair whole
        current v =
      (a, refl, v)
  my_zk_watcher_marshal-Alive children file reconnected a notwatching_event state context fair whole
        current v =
      (a, refl, v)
