-- ===== src/NodeResource.antt =====
-- soaagent/resource_mgt.c, the part named node_resource: the table from node keys to connection
-- pools. Each operation runs under the lock of the table; `none` is a fault in a pool.
use ddmframework.Common.{
  ℕ, Bool, true, List, [], ◌∷◌, Option, none, some, if◌then◌else◌, Key, table_find, table_add,
  table_update, table_delete,
}
use ddmframework.Clock.{Timeval}
use ddmframework.Conn.{Store}
use ddmframework.ConnPool.{
  Pool, pool_init, pool_require_connection, pool_release_connection, pool_check, pool_destroy,
}
use ddmframework.ServiceResource.{node_key}

-- What `get_config_item_int` gives for the section "pool" of the configuration.
pub record PoolConfig : Type 0 where
  pub timeout_secs : ℕ
  pub init_conn_num : ℕ
  pub min_conn_num : ℕ
  pub max_conn_num : ℕ
  pub max_idle_secs : ℕ

-- The table of pools, the connections of all of them, and the nodes that have been taken out and
-- wait in a thread of their own to be destroyed.
pub record Nodes : Type 0 where
  pub table : List (Key × Pool)
  pub store : Store
  pub leaving : List (Key × Pool)

unfoldable pub node_resource_get_by_key : Nodes → Key → Option Pool
node_resource_get_by_key nodes key = table_find key nodes.table

unfoldable pub node_resource_get : Nodes → List ℕ → ℕ → Option Pool
unfolding node_resource_get_by_key
node_resource_get nodes host port = node_resource_get_by_key nodes (node_key host port)

unfoldable pub node_resource_add : PoolConfig → Nodes → List ℕ → ℕ → Option Nodes
unfolding node_resource_get
node_resource_add config nodes host port = elim (node_resource_get nodes host port) [
  | some _ ↦ some nodes
  | none ↦
      elim (pool_init nodes.store host port config.timeout_secs config.init_conn_num
        config.min_conn_num config.max_conn_num config.max_idle_secs) [
          | none ↦ none
          | some (store, pool) ↦ some (record nodes {
            table = table_add (node_key host port) pool nodes.table;
            store = store;
          })
        ]
]

-- The thread `pool_destroy_thd_func` gets the node; `started` says whether it could be created. If
-- not, the node is lost.
unfoldable pub node_resource_delete : Nodes → List ℕ → ℕ → (started : Bool) → Nodes
unfolding node_resource_get
node_resource_delete nodes host port started = elim (node_resource_get nodes host port) [
  | none ↦ nodes
  | some pool ↦ record nodes {
    table = table_delete (node_key host port) nodes.table;
    leaving = if started then (node_key host port, pool) ∷ nodes.leaving else nodes.leaving;
  }
]

unfoldable pub node_require_connection : Nodes → Option Key → Option (Nodes × Option ℕ)
node_require_connection nodes none = some (nodes, none)
node_require_connection nodes (some key) = elim (table_find key nodes.table) [
  | none ↦ some (nodes, none)
  | some pool ↦ elim (pool_require_connection nodes.store pool) [
    | none ↦ none
    | some (store, pool', conn) ↦
        some (record nodes { table = table_update key pool' nodes.table; store = store }, conn)
  ]
]

unfoldable pub node_release_connection : Nodes → Option Key → Option ℕ → Timeval → Option Nodes
node_release_connection nodes none conn now = some nodes
node_release_connection nodes (some key) none now = some nodes
node_release_connection nodes (some key) (some conn) now = elim (table_find key nodes.table) [
  | none ↦ some nodes
  | some pool ↦ elim (pool_release_connection nodes.store pool (some conn) true now) [
    | none ↦ none
    | some (store, pool') ↦
        some (record nodes { table = table_update key pool' nodes.table; store = store })
  ]
]

-- One round of `conn_check_thd_func` over the table.
unfoldable pub check_pools :
    Store → List (Key × Pool) → Timeval → Option (Store × List (Key × Pool))
check_pools store [] now = some (store, [])
check_pools store ((key, pool) ∷ rest) now = elim (pool_check store pool now) [
  | none ↦ none
  | some (store', pool') ↦ elim (check_pools store' rest now) [
    | none ↦ none
    | some (store'', rest') ↦ some (store'', (key, pool') ∷ rest')
  ]
]

-- `pool_destroy_thd_func`: `tries` calls are left, and the i-th finds the store and the pool as
-- `at i`. The result is the number of calls that failed before one succeeded.
unfoldable pub pool_destroy_thd_func : ℕ → ℕ → (ℕ → Store × Pool) → Option ℕ
pool_destroy_thd_func ℕ.zero i at = none
pool_destroy_thd_func (ℕ.suc tries) i at =
    let rest = pool_destroy_thd_func tries (ℕ.suc i) at in
    if (pool_destroy (at i).0 (at i).1).2 then some i else rest

-- The loop of `node_resource_destroy`, from the oldest pool on. The result of `pool_destroy` is not
-- used: a pool with a lent connection is forgotten with its sockets.
unfoldable pub destroy_pools : Store → List (Key × Pool) → Store
unfolding pool_destroy
destroy_pools store [] = store
destroy_pools store ((key, pool) ∷ rest) = (pool_destroy (destroy_pools store rest) pool).0

unfoldable pub node_resource_destroy : Nodes → Nodes
unfolding destroy_pools
node_resource_destroy nodes = record nodes {
  table = [];
  store = destroy_pools nodes.store nodes.table;
}
