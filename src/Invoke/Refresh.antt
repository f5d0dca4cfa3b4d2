-- ===== src/Invoke/Refresh.antt =====
-- soaagent/invoke_stub.c: `watch_declared_services`, which reads the file of declarations and lists
-- every group that it names.
use ddmframework.Conn.{snprintf_s}
use ddmframework.ServiceConf.Registration.{is_declared, find-is_declared}
use ddmframework.Common.{
  str_eq, take, sym, ltb, All-append, ℕ, ◌≤◌, ◌<◌, ◌≡◌, refl, ap, ◌∙◌, inl, inr, Bool, true, false,
  not, ◌&&◌, ◌||◌, ◌==◌, List, [], ◌∷◌, ◌++◌, Option, none, some, Option-cases, arith, str_eq,
  str_eq_iff, Bool-cases, if◌then◌else◌, Key, All, length,
}
use ddmframework.StringArray.{StringArray, string_array_init, string_array_find, string_array_add}
use ddmframework.ServiceConf.{
  ServiceInfo, register_mapping_find, register_mapping_put, provider_key_len,
  provider_construct_key, same_service, service_filter_find, service_filter_add,
  service_filter_padding,
}
use ddmframework.ServiceConf.Diff.{changes}
use ddmframework.ServiceConf.Mapping.{register_mapping_find-put}
use ddmframework.Resource.Sync.{InStep, is_some}
use ddmframework.Invoke.Registry.{IsFit, reconcile-All}
use ddmframework.Invoke.Agent.{
  Agent, World, Declared, ConfigFile, max_node_path_len, max_group_value_len, push_context,
  children_change_func_impl, get_children, watch_group_change, watch_groups, declare_services,
  declare_groups, watch_declared_services, take_over,
}
use ddmframework.Invoke.Parsing.{IsFairNode, parse_nodes_lem}

-- The tables are in step, and the mapping holds no instance with a separator in its fields.
pub record Sound (a : Agent) : Type 0 where
  pub in_step : InStep a.resources
  pub fit : (k : Key) → All IsFit (changes (register_mapping_find a.mapping k))

-- What zookeeper answers for a group: a key that fits and instances of that group.
abbrev pub IsFairAnswer : World → (Key → Option (List (List ℕ))) → Type 0
IsFairAnswer w children =
    (k : Key) (node_names : List (List ℕ))
    → children k ≡ some node_names
    → (length k < provider_key_len) × All (IsFairNode w k) node_names

pub children_change-Sound :
    (w : World) (a : Agent) (group : Key) (node_names : List (List ℕ))
    → w.config.init_conn_num ≤ w.config.max_conn_num
    → Sound a
    → length group < provider_key_len
    → All (IsFairNode w group) node_names
    → (a' : Agent) × (children_change_func_impl w a group node_names ≡ some a')
      × Sound a'
      × (a'.service_filters ≡ a.service_filters)
unfolding children_change_func_impl
children_change-Sound w a group node_names fits v short fair =
    let (remote, parsed, fit, found) =
      parse_nodes_lem w group a.service_filters node_names none fair tt in
    let (r, run, in_step, after) =
      reconcile-All w.config w.started a.resources a.mapping group remote fits v.in_step
        (v.fit group) fit in
    (
      record a { resources = r; mapping = register_mapping_put a.mapping group remote },
      rw (parsed, run, children_change_func_impl) refl,
      record {
        in_step = in_step;
        fit = λ k. elim (Bool-cases (str_eq group k)) [
          | inl e ↦ rw (register_mapping_find-put a.mapping group k remote short, e) fit
          | inr e ↦ rw (register_mapping_find-put a.mapping group k remote short, e) (v.fit k)
        ];
      },
      refl,
    )

-- A group whose key fits the context of a watcher.
abbrev pub IsShort : List ℕ → Type 0
IsShort group =
    ltb (length (provider_construct_key group max_node_path_len)) max_group_value_len ≡ true

-- Every item that is followed is there, and the group is short.
abbrev pub IsWholeService : Option (List ℕ) × Option (List ℕ) → Type 0
IsWholeService (some service, some version) = Unit {0}
IsWholeService (some service, none) = ⊥
IsWholeService (none, version) = ⊥

abbrev pub IsWhole : Declared → Type 0
IsWhole (some group, some services) = IsShort group × All IsWholeService services
IsWhole (some group, none) = ⊥
IsWhole (none, services) = ⊥

abbrev pub IsWholeFile : ConfigFile → Type 0
IsWholeFile file =
    (buffer : List ℕ) (root : List Declared)
    → file.content ≡ some buffer
    → file.declarations buffer ≡ some root
    → All IsWhole root

module _ (w : World) (children : Key → Option (List (List ℕ)))
    (fits : w.config.init_conn_num ≤ w.config.max_conn_num) (fair : IsFairAnswer w children) where
  watch_group_change-Sound :
      (a : Agent) (group : List ℕ)
      → IsShort group
      → Sound a
      → (a' : Agent) × (watch_group_change w children a group ≡ some a')
        × Sound a'
        × (a'.service_filters ≡ a.service_filters)
  unfolding watch_group_change get_children
  watch_group_change-Sound a group key_fits v =
      let node_group = provider_construct_key group max_node_path_len in
      let watching = push_context w a node_group in
      elim (Option-cases (children node_group)) [
        | inl e ↦ (
          watching,
          rw (key_fits, e, watch_group_change) refl,
          record { in_step = v.in_step; fit = v.fit },
          refl,
        )
        | inr (node_names, e) ↦
            let (short, nodes) = fair node_group node_names e in
            let (a', run, v', same) =
              children_change-Sound w watching node_group node_names fits
                (record { in_step = v.in_step; fit = v.fit }) short nodes in
            (a', rw (key_fits, e, watch_group_change) (rw (run, get_children) refl), v', same)
      ]

  watch_groups-Sound :
      (a : Agent) (groups : List Key)
      → All IsShort groups
      → Sound a
      → (a' : Agent) × (watch_groups w children a groups ≡ some a')
        × Sound a'
        × (a'.service_filters ≡ a.service_filters)
  unfolding watch_groups
  watch_groups-Sound a [] h v = (a, refl, v, refl)
  watch_groups-Sound a (group ∷ groups) (h, hs) v =
      let (one, run, v1, same1) = watch_group_change-Sound a group h v in
      let (last, runs, v2, same2) = watch_groups-Sound one groups hs v1 in
      (last, rw (run, watch_groups) runs, v2, same2 ∙ same1)

same_service-right :
    (x p s : ServiceInfo) → same_service p s ≡ true → same_service x p ≡ same_service x s
unfolding same_service
same_service-right x p s h = ground (
  arith,
  str_eq_iff p.group_value s.group_value,
  str_eq_iff p.service_value s.service_value,
  str_eq_iff p.version_value s.version_value,
  h,
)

find-same :
    (filters : List ServiceInfo) (p s : ServiceInfo)
    → same_service p s ≡ true
    → service_filter_find filters p ≡ service_filter_find filters s
unfolding service_filter_find
find-same [] p s h = refl
find-same (x ∷ filters) p s h = rw (same_service-right x p s h, find-same filters p s h) refl

find-append :
    (filters : List ServiceInfo) (p s : ServiceInfo)
    → service_filter_find (filters ++ p ∷ []) s
      ≡ (service_filter_find filters s || same_service p s)
unfolding service_filter_find
find-append [] p s = ground arith
find-append (x ∷ filters) p s = ground (arith, find-append filters p s)

find-add :
    (filters : List ServiceInfo) (p s : ServiceInfo)
    → service_filter_find (service_filter_add filters p) s
      ≡ (service_filter_find filters s || same_service p s)
unfolding service_filter_add
find-add filters p s = elim (Bool-cases (service_filter_find filters p)) [
  | inl e ↦ elim (Bool-cases (same_service p s)) [
    | inl same ↦ ground (arith, e, same, find-same filters p s same)
    | inr other ↦ ground (arith, e, other)
  ]
  | inr e ↦ rw (e, service_filter_add) (find-append filters p s)
]

-- Whether a declaration names a service: each text is cut off at the length of its field.
unfoldable pub declared_services :
    (group : List ℕ) → List (Option (List ℕ) × Option (List ℕ)) → ServiceInfo → Bool
declared_services group [] s = false
declared_services group ((some service, some version) ∷ rest) s =
    (str_eq (take 49 group) s.group_value
      && str_eq (take 29 service) s.service_value
      && str_eq (take 19 version) s.version_value)
    || declared_services group rest s
declared_services group (item ∷ rest) s = declared_services group rest s

same-padding :
    (group service version : List ℕ) (s : ServiceInfo)
    → same_service (service_filter_padding group service version) s ≡ (
        str_eq (take 49 group) s.group_value
        && str_eq (take 29 service) s.service_value
        && str_eq (take 19 version) s.version_value)
unfolding same_service service_filter_padding snprintf_s
same-padding group service version s = ground arith

unfoldable pub declared_in : List Declared → ServiceInfo → Bool
unfolding declared_services
declared_in [] s = false
declared_in ((some group, some services) ∷ rest) s =
    declared_services group services s || declared_in rest s
declared_in (item ∷ rest) s = declared_in rest s

declare_services_lem :
    (filters : List ServiceInfo) (group : List ℕ)
    (services : List (Option (List ℕ) × Option (List ℕ)))
    → All IsWholeService services
    → (filters' : List ServiceInfo) × (declare_services filters group services ≡ some filters')
      × ((s : ServiceInfo)
          → service_filter_find filters' s
            ≡ (service_filter_find filters s || declared_services group services s))
unfolding declare_services declared_services
declare_services_lem filters group [] h = (filters, refl, λ s. ground arith)
declare_services_lem filters group ((some service, some version) ∷ rest) (h, hs) =
    let p = service_filter_padding group service version in
    let (filters', run, found) =
      declare_services_lem (service_filter_add filters p) group rest hs in
    (
      filters',
      run,
      λ s. ground (arith, found s, find-add filters p s, same-padding group service version s),
    )
declare_services_lem filters group ((some service, none) ∷ rest) (h, hs) = absurd h
declare_services_lem filters group ((none, version) ∷ rest) (h, hs) = absurd h

string_array_add-All :
    (P : Key → Type 0) (a : StringArray) (v : Key)
    → All P a.strs
    → P v
    → All P (string_array_add a v).strs
unfolding string_array_add
string_array_add-All P a v h hv = elim (Option-cases (string_array_find a v)) [
  | inr (index, e) ↦ rw (e, string_array_add) h
  | inl e ↦ rw (e, string_array_add) (All-append P a.strs (v ∷ []) h (hv, tt))
]

declare_groups_lem :
    (filters : List ServiceInfo) (group_names : StringArray) (root : List Declared)
    → All IsWhole root
    → All IsShort group_names.strs
    → (filters' : List ServiceInfo) × (group_names' : StringArray) × (declare_groups filters
          group_names root
        ≡ some (filters', group_names'))
      × All IsShort group_names'.strs
      × ((s : ServiceInfo)
          → service_filter_find filters' s ≡ (service_filter_find filters s || declared_in root s))
unfolding declare_groups declared_in
declare_groups_lem filters group_names [] h k = (filters, group_names, refl, k, λ s. ground arith)
declare_groups_lem filters group_names ((some group, some services) ∷ rest) ((short, h), hs) k =
    let (one, run, found) = declare_services_lem filters group services h in
    let (filters', group_names', runs, k', found') =
      declare_groups_lem one (string_array_add group_names group) rest hs
        (string_array_add-All IsShort group_names group k short) in
    (
      filters',
      group_names',
      rw (run, declare_groups) runs,
      k',
      λ s. ground (arith, found' s, found s),
    )
declare_groups_lem filters group_names ((some group, none) ∷ rest) (h, hs) k = absurd h
declare_groups_lem filters group_names ((none, services) ∷ rest) (h, hs) k = absurd h

-- What the file holds, if it can be read and parsed.
unfoldable pub read_declarations : ConfigFile → Option (List Declared)
read_declarations file = elim file.content [
  | none ↦ none
  | some services_info_buffer ↦ file.declarations services_info_buffer
]

-- The declarations that a call takes over, and whether it succeeds.
unfoldable pub taken_over : ConfigFile → Agent → Bool → Option (List Declared)
unfolding read_declarations
taken_over file a force_refresh =
    if not file.exists
    then none
    else if not force_refresh && (file.modified_before == a.config_file_last_modified)
    then none
    else read_declarations file

unfoldable pub succeeds : ConfigFile → Agent → Bool → Bool
unfolding read_declarations is_some
succeeds file a force_refresh =
    file.exists
    && ((not force_refresh && (file.modified_before == a.config_file_last_modified))
        || is_some (read_declarations file))

unfoldable pub declared_anew : Option (List Declared) → ServiceInfo → Bool
unfolding declared_in
declared_anew none s = false
declared_anew (some root) s = declared_in root s

module _ (w : World) (children : Key → Option (List (List ℕ))) (file : ConfigFile) (a : Agent)
    (force_refresh : Bool) where
  -- How a call ends.
  abbrev pub Refreshes : Option (List Declared) → Bool → Type 0
  Refreshes taken ok =
      (a' : Agent) × (watch_declared_services w children file a force_refresh ≡ some (a', ok))
      × Sound a'
      × ((s : ServiceInfo)
          → is_declared a'.service_filters s
            ≡ (is_declared a.service_filters s || declared_anew taken s))

  -- A call that reads nothing leaves the agent as it is.
  unchanged :
      (ok : Bool)
      → Sound a
      → watch_declared_services w children file a force_refresh ≡ some (a, ok)
      → Refreshes none ok
  unfolding declared_anew
  unchanged ok v run = (a, run, v, λ s. ground arith)

  -- A call that reads a file of declarations.
  reads :
      (buffer : List ℕ) (root : List Declared)
      → w.config.init_conn_num ≤ w.config.max_conn_num
      → IsFairAnswer w children
      → All IsWhole root
      → Sound a
      → not file.exists ≡ false
      → (not force_refresh && (file.modified_before == a.config_file_last_modified)) ≡ false
      → file.content ≡ some buffer
      → file.declarations buffer ≡ some root
      → Refreshes (some root) true
  unfolding declared_anew watch_declared_services take_over
  reads buffer root fits fair whole v there due content parsed =
      let (filters, group_names, declared, short, found) =
        declare_groups_lem a.service_filters string_array_init root whole tt in
      let (a', run, v', same) =
        watch_groups-Sound w children fits fair (record a { service_filters = filters })
          group_names.strs short (record { in_step = v.in_step; fit = v.fit }) in
      (
        record a' { config_file_last_modified = file.modified_after },
        rw (there, due, content, watch_declared_services)
            (rw parsed (rw (declared, take_over) (rw (run, take_over) refl))),
        record { in_step = v'.in_step; fit = v'.fit },
        λ s.
            ap (λ f. is_declared f s) same
            ∙ sym (find-is_declared filters s)
            ∙ found s
            ∙ ap (λ b. b || declared_in root s) (find-is_declared a.service_filters s),
      )

  settled :
      (t t' : Option (List Declared)) (ok ok' : Bool)
      → t ≡ t'
      → ok ≡ ok'
      → Refreshes t' ok'
      → Refreshes t ok
  settled t t' ok ok' e f r = rw (e, f) r

  pub watch_declared_services_lem :
      w.config.init_conn_num ≤ w.config.max_conn_num
      → IsFairAnswer w children
      → IsWholeFile file
      → Sound a
      → Refreshes (taken_over file a force_refresh) (succeeds file a force_refresh)
  unfolding watch_declared_services taken_over succeeds read_declarations is_some
  watch_declared_services_lem fits fair whole v =
      let settle = settled (taken_over file a force_refresh) in
      let ended = succeeds file a force_refresh in
      elim (Bool-cases file.exists) [
        | inr missing ↦
            settle none ended false (rw missing refl) (rw missing refl)
              (unchanged false v (rw missing refl))
        | inl there ↦
            elim (Bool-cases
              (not force_refresh && (file.modified_before == a.config_file_last_modified))) [
                | inl current ↦
                    settle none ended true (rw (there, current) refl) (rw (there, current) refl)
                      (unchanged true v (rw (there, current) refl))
                | inr due ↦ elim (Option-cases file.content) [
                  | inl unread ↦
                      settle none ended false (rw (there, due, unread) refl)
                        (rw (there, due, unread) refl)
                        (unchanged false v (rw (there, due, unread) refl))
                  | inr (buffer, content) ↦ elim (Option-cases (file.declarations buffer)) [
                    | inl unparsed ↦
                        settle none ended false (rw (there, due, content) unparsed)
                          (rw (there, due, content) (rw unparsed refl))
                          (unchanged false v (rw (there, due, content) (rw unparsed refl)))
                    | inr (root, parsed) ↦
                        settle (some root) ended true (rw (there, due, content) parsed)
                          (rw (there, due, content) (rw parsed refl))
                          (reads buffer root fits fair (whole buffer root content parsed) v
                            (rw there refl) due content parsed)
                  ]
                ]
              ]
      ]
