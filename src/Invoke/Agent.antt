-- ===== src/Invoke/Agent.antt =====
-- soaagent/invoke_stub.c: the agent as a whole, from `children_change_func_impl` up to the watcher
-- of zookeeper, with `get_children` of soaagent/zk_handle.c. What cJSON makes of the registrations
-- and the declarations, what zookeeper answers and what the file system holds are parameters.
use ddmframework.Common.{
  length, ltb, get_elem?, ◌*◌, ◌+◌, ℕ, Bool, true, false, not, ◌&&◌, ◌==◌, List, [], ◌∷◌, ◌++◌,
  Option, none, some, Key, if◌then◌else◌,
}
use ddmframework.Url.{url_decode}
use ddmframework.StringArray.{StringArray, string_array_init, string_array_add}
use ddmframework.ServiceConf.{
  ServiceInfo, RegisterInfo, RegisterMapping, provider_construct_key, service_filter_padding,
  service_filter_add,
}
use ddmframework.ServiceConf.Registration.{Document, parse_node_register_info}
use ddmframework.NodeResource.{PoolConfig}
use ddmframework.Resource.{Resources}
use ddmframework.Invoke.{reconcile}

pub record Agent : Type 0 where
  pub resources : Resources
  pub mapping : RegisterMapping
  pub service_filters : List ServiceInfo
  -- the node groups of `watchers_context_array`, and how often its block of memory has moved
  pub watchers : List Key
  pub watchers_block : ℕ
  -- of the file of declarations, when it was read last
  pub config_file_last_modified : ℕ

-- The code that the agent calls and that is not its own.
pub record World : Type 0 where
  pub cjson : List ℕ → Document
  pub config : PoolConfig
  -- whether the i-th thread that destroys a pool can be created
  pub started : ℕ → Bool
  -- whether `utarray_push_back` on an array of that length moves the block
  pub moves : ℕ → Bool

-- The loop over the children; a text that is no registration is logged and passed over.
unfoldable pub parse_nodes :
    World
    → List ServiceInfo
    → Option (List RegisterInfo)
    → List (List ℕ)
    → Option (Option (List RegisterInfo))
unfolding parse_node_register_info
parse_nodes w filters result [] = some result
parse_nodes w filters result (node_value ∷ node_names) =
    elim (parse_node_register_info w.cjson filters result (url_decode node_value)) [
      | none ↦ none
      | some (result', status) ↦ parse_nodes w filters result' node_names
    ]

unfoldable pub children_change_func_impl : World → Agent → Key → List (List ℕ) → Option Agent
unfolding parse_nodes reconcile
children_change_func_impl w a node_group node_names =
    elim (parse_nodes w a.service_filters none node_names) [
      | none ↦ none
      | some remote ↦ elim (reconcile w.config w.started a.resources a.mapping node_group remote) [
        | none ↦ none
        | some (resources, mapping) ↦ some (record a { resources = resources; mapping = mapping })
      ]
    ]

-- `zoo_wget_children2` answers with the names of the children, or fails.
unfoldable pub get_children : World → Agent → Key → Option (List (List ℕ)) → Option (Agent × Bool)
unfolding children_change_func_impl
get_children w a node_group none = some (a, false)
get_children w a node_group (some node_names) =
    elim (children_change_func_impl w a node_group node_names) [
      | none ↦ none
      | some a' ↦ some (a', true)
    ]

-- MAX_NODE_PATH_LEN
abbrev pub max_node_path_len : ℕ
max_node_path_len = 1024 * 10 + 512 + 100

-- MAX_GROUP_VALUE_LEN, the size of `node_group_value`
abbrev pub max_group_value_len : ℕ
max_group_value_len = 512

abbrev pub push_context : World → Agent → Key → Agent
push_context w a node_group = record a {
  watchers = a.watchers ++ node_group ∷ [];
  watchers_block = if w.moves (length a.watchers) then a.watchers_block + 1 else a.watchers_block;
}

-- A key that is too long for its field runs over it.
unfoldable pub watch_group_change :
    World → (Key → Option (List (List ℕ))) → Agent → List ℕ → Option Agent
unfolding get_children provider_construct_key
watch_group_change w children a group_name =
    let node_group = provider_construct_key group_name max_node_path_len in
    if ltb (length node_group) max_group_value_len
    then elim (get_children w (push_context w a node_group) node_group (children node_group)) [
      | none ↦ none
      | some (a', status) ↦ some a'
    ]
    else none

-- `string_array_walk` with that function.
unfoldable pub watch_groups :
    World → (Key → Option (List (List ℕ))) → Agent → List Key → Option Agent
unfolding watch_group_change
watch_groups w children a [] = some a
watch_groups w children a (group ∷ groups) = elim (watch_group_change w children a group) [
  | none ↦ none
  | some a' ↦ watch_groups w children a' groups
]

-- One element of the declarations: its items "group" and "services", and of each service "service"
-- and "version". `none` is an item that is missing or not of its type.
abbrev pub Declared : Type 0
Declared = Option (List ℕ) × Option (List (Option (List ℕ) × Option (List ℕ)))

-- The file of declarations: whether it exists, its time before and after it is read, what can be
-- read, and what cJSON makes of it.
pub record ConfigFile : Type 0 where
  pub exists : Bool
  pub modified_before : ℕ
  pub content : Option (List ℕ)
  pub modified_after : ℕ
  pub declarations : List ℕ → Option (List Declared)

-- `none` is an item that is followed although it is missing.
unfoldable pub declare_services :
    List ServiceInfo → List ℕ → List (Option (List ℕ) × Option (List ℕ)) → Option (List ServiceInfo)
unfolding service_filter_add service_filter_padding
declare_services filters group [] = some filters
declare_services filters group ((some service, some version) ∷ rest) =
    declare_services (service_filter_add filters (service_filter_padding group service version))
      group rest
declare_services filters group (item ∷ rest) = none

-- The two loops over the declarations: the filters, and the array of group names.
unfoldable pub declare_groups :
    List ServiceInfo → StringArray → List Declared → Option (List ServiceInfo × StringArray)
unfolding declare_services string_array_add
declare_groups filters group_names [] = some (filters, group_names)
declare_groups filters group_names ((some group, some services) ∷ rest) =
    elim (declare_services filters group services) [
      | none ↦ none
      | some filters' ↦ declare_groups filters' (string_array_add group_names group) rest
    ]
declare_groups filters group_names (item ∷ rest) = none

-- What follows the parsing.
unfoldable pub take_over :
    World
    → (Key → Option (List (List ℕ)))
    → ConfigFile
    → Agent
    → (root : List Declared) → Option (Agent × Bool)
unfolding declare_groups watch_groups string_array_init
take_over w children file a root = elim (declare_groups a.service_filters string_array_init root) [
  | none ↦ none
  | some (filters, group_names) ↦
      elim (watch_groups w children (record a { service_filters = filters }) group_names.strs) [
        | none ↦ none
        | some a' ↦ some (record a' { config_file_last_modified = file.modified_after }, true)
      ]
]

-- The flag is false for the result -1.
unfoldable pub watch_declared_services :
    World
    → (Key → Option (List (List ℕ)))
    → ConfigFile
    → Agent
    → (force_refresh : Bool) → Option (Agent × Bool)
unfolding take_over
watch_declared_services w children file a force_refresh =
    if not file.exists
    then some (a, false)
    else if not force_refresh && (file.modified_before == a.config_file_last_modified)
    then some (a, true)
    else elim file.content [
      | none ↦ some (a, false)
      | some services_info_buffer ↦ elim (file.declarations services_info_buffer) [
        | none ↦ some (a, false)
        | some root ↦ take_over w children file a root
      ]
    ]

pub data EventType : Type 0 where
  created_event deleted_event changed_event child_event session_event notwatching_event : EventType

pub data SessionState : Type 0 where
  expired_session auth_failed connecting associating connected : SessionState

-- A pointer into `watchers_context_array`: the moves of the block before it was taken, the index.
pub record Context : Type 0 where
  pub block : ℕ
  pub index : ℕ

-- The context that a pointer shows, unless the block has moved since.
unfoldable pub context_at : Agent → Context → Option Key
context_at a context =
    if context.block == a.watchers_block then get_elem? a.watchers context.index else none

-- `zoo_wget_children2` at the time of the event, the file, and whether a new session is opened. A
-- pointer into memory that was freed is a fault.
unfoldable pub my_zk_watcher_marshal :
    World
    → (Key → Option (List (List ℕ)))
    → ConfigFile
    → (reconnected : Bool) → Agent
    → EventType
    → SessionState
    → Context
    → Option Agent
unfolding get_children watch_declared_services context_at
my_zk_watcher_marshal w children file reconnected a child_event state context =
    elim (context_at a context) [
      | none ↦ none
      | some node_group ↦ elim (get_children w a node_group (children node_group)) [
        | none ↦ none
        | some (a', status) ↦ some a'
      ]
    ]
my_zk_watcher_marshal w children file true a session_event expired_session context =
    elim (watch_declared_services w children file a true) [
      | none ↦ none
      | some (a', status) ↦ some a'
    ]
my_zk_watcher_marshal w children file reconnected a type state context = some a
