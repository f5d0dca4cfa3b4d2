-- ===== src/ServiceResource.antt =====
-- soaagent/resource_mgt.c, the part named service_resource: the table from service keys to the node
-- keys of their providers. Each operation runs under the lock of the table.
pub mod Members
use ddmframework.Common.{
  ℕ, Bool, true, false, not, ◌||◌, List, [], ◌∷◌, Option, none, some, ◌==◌, if◌then◌else◌, Key,
  table_find, table_add, table_update, table_delete,
}
use ddmframework.StringArray.{
  StringArray, Next, null, string_array_init, string_array_find, string_array_add,
  string_array_delete, string_array_next, string_array_size,
}
use ddmframework.ServiceConf.{
  node_key_len, service_key_len, node_resource_construct_key, service_resource_construct_key,
}

abbrev pub Services : Type 0
Services = List (Key × StringArray)

abbrev pub service_key : (group service version : List ℕ) → Key
service_key group service version =
    service_resource_construct_key group service version service_key_len

abbrev pub node_key : List ℕ → ℕ → Key
node_key host port = node_resource_construct_key host port node_key_len

unfoldable pub service_resource_get_by_key : Services → Key → Option StringArray
service_resource_get_by_key services key = table_find key services

unfoldable pub service_resource_get :
    Services → (group service version : List ℕ) → Option StringArray
unfolding service_resource_get_by_key
service_resource_get services group service version =
    service_resource_get_by_key services (service_key group service version)

-- The body of `service_resource_add`, with the keys that it constructs.
unfoldable pub add_node_key : Services → Key → Key → Services
unfolding string_array_add string_array_init
add_node_key services key node = elim (table_find key services) [
  | some item ↦ table_update key (string_array_add item node) services
  | none ↦ table_add key (string_array_add string_array_init node) services
]

unfoldable pub service_resource_add :
    Services → (group service version host : List ℕ) → ℕ → Services
unfolding add_node_key
service_resource_add services group service version host port =
    add_node_key services (service_key group service version) (node_key host port)

-- The body of `service_resource_delete`: a service without nodes leaves the table.
unfoldable pub delete_node_key : Services → Key → Key → Services
unfolding string_array_delete string_array_size
delete_node_key services key node = elim (table_find key services) [
  | none ↦ services
  | some item ↦
      let rest = (string_array_delete item node).0 in
      if string_array_size rest == 0
      then table_delete key services
      else table_update key rest services
]

unfoldable pub service_resource_delete :
    Services → (group service version host : List ℕ) → ℕ → Services
unfolding delete_node_key
service_resource_delete services group service version host port =
    delete_node_key services (service_key group service version) (node_key host port)

-- The node key is `null` where the service is not known.
unfoldable pub service_resource_require_node_key :
    Services → (group service version : List ℕ) → Services × Next
unfolding service_resource_get string_array_next
service_resource_require_node_key services group service version =
    elim (service_resource_get services group service version) [
      | none ↦ (services, null)
      | some item ↦
          let (item', key) = string_array_next item in
          (table_update (service_key group service version) item' services, key)
    ]

unfoldable pub uses : Key → Services → Bool
unfolding string_array_find
uses node [] = false
uses node ((_, item) ∷ services) = elim (string_array_find item node) [
  | some _ ↦ true
  | none ↦ uses node services
]

unfoldable pub service_resource_pool_is_used : Services → List ℕ → ℕ → Bool
unfolding uses
service_resource_pool_is_used services host port = uses (node_key host port) services
