-- ===== src/Resource/Sync.antt =====
-- The pools and the services stay in step.
use ddmframework.ConnPool.{Pool}
use ddmframework.Common.{
  ℕ, ◌≤◌, ◌≡◌, ap, ◌∙◌, sym, Bool, true, false, not, ◌&&◌, ◌||◌, List, Option, none, some, arith,
  str_eq, str_eq_iff, Key, Bool-cases, bool_ext, Option-cases, inl, inr, table_find, table_add,
  IsTable, table_find-add, table_find-delete, table_add-IsTable, table_delete-IsTable,
}
use ddmframework.ConnPool.Lifecycle.{pool_init_lem}
use ddmframework.ServiceResource.{
  Services, service_key, node_key, uses, add_node_key, delete_node_key,
}
use ddmframework.ServiceResource.Members.{
  serves, IsServices, serves-add_node_key, serves-delete_node_key, add_node_key-IsServices,
  delete_node_key-IsServices, uses_of_serves, serves_of_uses,
}
use ddmframework.NodeResource.{PoolConfig, Nodes, node_resource_add, node_resource_delete}
use ddmframework.Resource.{Resources, resource_add, resource_delete}

unfoldable pub is_some {ℓ} : {A : Type ℓ} → Option A → Bool
is_some none = false
is_some (some a) = true

-- The table of pools holds exactly the nodes that provide some service.
pub record InStep (r : Resources) : Type 0 where
  pub services : IsServices r.services
  pub nodes : IsTable r.nodes.table
  pub same : (node : Key) → is_some (table_find node r.nodes.table) ≡ uses node r.services

module _ (services : Services) (key node n : Key) (v : IsServices services) where
  uses-add : uses n (add_node_key services key node) ≡ (uses n services || str_eq node n)
  uses-add = bool_ext _ _ forth (λ h. elim (Bool-cases (uses n services)) [
    | inl old ↦
        let (k, e) = serves_of_uses services n v.table old in
        uses_of_serves after k n (ground (arith, serves-add_node_key services key node k n v))
    | inr new ↦
        uses_of_serves after key n
          (ground (arith, serves-add_node_key services key node key n v, str_eq_iff key key))
  ])
    where
      after : Services
      after = add_node_key services key node

      forth : uses n after ≡ true → (uses n services || str_eq node n) ≡ true
      forth h =
          let (k, e) =
            serves_of_uses after n (add_node_key-IsServices services key node v).table h in
          ground (arith, uses_of_serves services k n, serves-add_node_key services key node k n v)

  -- A deletion brings no node into use.
  uses-delete-le : uses n (delete_node_key services key node) ≡ true → uses n services ≡ true
  uses-delete-le h =
      let (k, e) = serves_of_uses _ n (delete_node_key-IsServices services key node v).table h in
      ground (arith, uses_of_serves services k n, serves-delete_node_key services key node k n v)

  uses-delete : str_eq node n ≡ false → uses n (delete_node_key services key node) ≡ uses n services
  uses-delete ne = bool_ext _ _ uses-delete-le (λ h.
      let (k, e) = serves_of_uses services n v.table h in
      uses_of_serves _ k n (ground (arith, serves-delete_node_key services key node k n v)))

-- A key that is not in the table yet hides no other.
other :
    (key n : Key) (pool old : Pool) (table : List (Key × Pool))
    → table_find key table ≡ none
    → table_find n table ≡ some old
    → table_find n (table_add key pool table) ≡ some old
other key n pool old table fresh there =
    ground (arith, table_find-add key n pool table, str_eq_iff key n, fresh, there)

-- What adding a node does to the table of pools: a pool is there afterwards, and the others stay.
node_resource_add_lem :
    (config : PoolConfig) (nodes : Nodes) (host : List ℕ) (port : ℕ)
    → config.init_conn_num ≤ config.max_conn_num
    → IsTable nodes.table
    → (nodes' : Nodes) × (node_resource_add config nodes host port ≡ some nodes')
      × IsTable nodes'.table
      × ((n : Key)
          → is_some (table_find n nodes'.table)
            ≡ (is_some (table_find n nodes.table) || str_eq (node_key host port) n))
      × ((n : Key) (pool : Pool)
          → table_find n nodes.table ≡ some pool
          → table_find n nodes'.table ≡ some pool)
unfolding node_resource_add is_some
node_resource_add_lem config nodes host port fits u =
    elim (Option-cases (table_find (node_key host port) nodes.table)) [
      | inr (pool, e) ↦ (
        nodes,
        rw (e, node_resource_add),
        u,
        λ n. ground (arith, str_eq_iff (node_key host port) n),
        λ n old there. there,
      )
      | inl e ↦
          let (store, pool, run, _, _, _, _) =
            pool_init_lem nodes.store host port config.timeout_secs config.init_conn_num
              config.min_conn_num config.max_conn_num config.max_idle_secs fits in
          (
            record nodes { table = table_add (node_key host port) pool nodes.table; store = store },
            rw (e, node_resource_add, run),
            table_add-IsTable _ pool nodes.table e u,
            λ n. ground (arith, table_find-add (node_key host port) n pool nodes.table),
            λ n old there. other (node_key host port) n pool old nodes.table e there,
          )
    ]

-- Adding an instance of a service makes it a provider of that service and changes no other service;
-- it does not fault, the pools of the nodes that are known keep their state, and the pools stay in
-- step with the services. A new pool's first connections do not exceed its maximum.
pub resource_add-InStep :
    (config : PoolConfig) (r : Resources) (group service version host : List ℕ) (port : ℕ)
    → config.init_conn_num ≤ config.max_conn_num
    → InStep r
    → (r' : Resources) × (resource_add config r group service version host port ≡ some r')
      × InStep r'
      × ((k n : Key)
          → serves k n r'.services ≡ (
              serves k n r.services
              || (str_eq (service_key group service version) k && str_eq (node_key host port) n)))
      × ((n : Key) (pool : Pool)
          → table_find n r.nodes.table ≡ some pool
          → table_find n r'.nodes.table ≡ some pool)
unfolding resource_add
resource_add-InStep config r group service version host port fits v =
    let key = service_key group service version in
    let node = node_key host port in
    let (nodes', run, table, found, kept) =
      node_resource_add_lem config r.nodes host port fits v.nodes in
    (
      record { nodes = nodes'; services = add_node_key r.services key node },
      rw (run, resource_add),
      record {
        services = add_node_key-IsServices r.services key node v.services;
        nodes = table;
        same = λ n.
            found n
            ∙ ap (λ b. b || str_eq node n) (v.same n)
            ∙ sym (uses-add r.services key node n v.services);
      },
      λ k n. serves-add_node_key r.services key node k n v.services,
      kept,
    )

-- The table of pools after the nodes of a deletion.
node_after_delete :
    (nodes : Nodes) (host : List ℕ) (port : ℕ) (started : Bool)
    → IsTable nodes.table
    → let nodes' = node_resource_delete nodes host port started in
      IsTable nodes'.table
      × ((n : Key)
          → is_some (table_find n nodes'.table)
            ≡ (is_some (table_find n nodes.table) && not (str_eq (node_key host port) n)))
unfolding node_resource_delete is_some
node_after_delete nodes host port started u =
    let key = node_key host port in
    elim (Option-cases (table_find key nodes.table)) [
      | inl e ↦ rw (e, node_resource_delete) (u, λ n. ground (arith, str_eq_iff key n))
      | inr (pool, e) ↦
          rw (e, node_resource_delete)
            (
              table_delete-IsTable key nodes.table u,
              λ n. ground (arith, table_find-delete key n nodes.table u),
            )
    ]

-- Deleting an instance of a service takes the node out of the providers of that service and
-- changes no other service; a pool is dropped exactly when its node provides nothing any more, so
-- the pools stay in step with the services.
pub resource_delete-InStep :
    (r : Resources) (group service version host : List ℕ) (port : ℕ) (started : Bool)
    → InStep r
    → let r' = resource_delete r group service version host port started in
      InStep r'
      × ((k n : Key)
          → serves k n r'.services ≡ (
              serves k n r.services
              && not
                  (str_eq (service_key group service version) k && str_eq (node_key host port) n)))
unfolding resource_delete is_some
resource_delete-InStep r group service version host port started v =
    let key = service_key group service version in
    let node = node_key host port in
    let services' = delete_node_key r.services key node in
    let (table, found) = node_after_delete r.nodes host port started v.nodes in
    let kept : (n : Key) → str_eq node n ≡ false → uses n services' ≡ uses n r.services =
      λ n. uses-delete r.services key node n v.services in
    (
      elim (Bool-cases (uses node services')) [
        | inl used ↦
            rw (used, resource_delete)
              (record {
                services = delete_node_key-IsServices r.services key node v.services;
                nodes = v.nodes;
                same = λ n. ground (
                  arith,
                  v.same n,
                  kept n,
                  uses-delete-le r.services key node n v.services,
                  str_eq_iff node n,
                );
              })
        | inr unused ↦
            rw (unused, resource_delete)
              (record {
                services = delete_node_key-IsServices r.services key node v.services;
                nodes = table;
                same = λ n. ground (arith, found n, v.same n, kept n, str_eq_iff node n);
              })
      ],
      λ k n. serves-delete_node_key r.services key node k n v.services,
    )
