-- ===== src/Invoke/Kept.antt =====
-- soaagent/invoke_stub.c: what the changes of the registry do to the pools that are there.
use ddmframework.Common.{
  ℕ, suc, ◌≤◌, ◌≡◌, refl, ◌⊎◌, inl, inr, Bool, Bool-cases, List, [], ◌∷◌, Option, some,
  Option-cases, arith, str_eq, Key, IsTable, table_find, table_find-add, table_find-delete,
  table_add, table_add-IsTable, table_delete-IsTable,
}
use ddmframework.ConnPool.Invariant.{Inv-later}
use ddmframework.ConnPool.Lifecycle.{pool_init_lem}
use ddmframework.ConnPool.Memory.{pool_init-next}
use ddmframework.ServiceConf.{
  RegisterInfo, Status, normal, added, deleted, RegisterMapping, diff_register_info,
  register_mapping_find,
}
use ddmframework.ServiceResource.{
  node_key, service_resource_pool_is_used, service_resource_delete, service_resource_add,
}
use ddmframework.NodeResource.{PoolConfig, Nodes, node_resource_add, node_resource_delete}
use ddmframework.Resource.{Resources, resource_add, resource_delete}
use ddmframework.Invoke.{notify_change, notify_changes, changes_of, reconcile}
use ddmframework.Invoke.Invocation.{PoolsSound}

Status-cases : (status : Status) → (status ≡ normal) ⊎ ((status ≡ added) ⊎ (status ≡ deleted))
Status-cases normal = inl refl
Status-cases added = inr (inl refl)
Status-cases deleted = inr (inr refl)

-- The pools are a table, and each has its invariant.
pub record Pooled (nodes : Nodes) : Type 0 where
  pub table : IsTable nodes.table
  pub sound : PoolsSound nodes

module _ (config : PoolConfig) (fits : config.init_conn_num ≤ config.max_conn_num) where
  node_resource_add-Pooled :
      (nodes : Nodes) (host : List ℕ) (port : ℕ) (nodes' : Nodes)
      → Pooled nodes
      → node_resource_add config nodes host port ≡ some nodes'
      → Pooled nodes'
  unfolding node_resource_add
  node_resource_add-Pooled nodes host port nodes' v e =
      elim (Option-cases (table_find (node_key host port) nodes.table)) [
        | inr (pool, f) ↦
            let same : nodes ≡ nodes' = cc (rw (f, node_resource_add) at e) in rw⁻¹ same v
        | inl f ↦
            let (store, pool, run, inv, _, _, _) =
              pool_init_lem nodes.store host port config.timeout_secs config.init_conn_num
                config.min_conn_num config.max_conn_num config.max_idle_secs fits in
            let same : record nodes {
              table = table_add (node_key host port) pool nodes.table;
              store = store;
            }
                ≡ nodes' =
              cc (rw (f, run, node_resource_add) at e) in
            rw⁻¹ same (record {
              table = table_add-IsTable _ pool nodes.table f v.table;
              sound = record {
                pools = λ k p g. elim (Bool-cases (str_eq (node_key host port) k)) [
                  | inl hit ↦
                      let here : pool ≡ p =
                        ground (arith, table_find-add (node_key host port) k pool nodes.table) in
                      rw⁻¹ here inv
                  | inr miss ↦
                      Inv-later
                        (v.sound.pools k p
                          (ground (arith, table_find-add (node_key host port) k pool nodes.table)))
                        (pool_init-next nodes.store host port config.timeout_secs
                          config.init_conn_num config.min_conn_num config.max_conn_num
                          config.max_idle_secs store pool run)
                ];
              };
            })
      ]

  node_resource_delete-Pooled :
      (nodes : Nodes) (host : List ℕ) (port : ℕ) (started : Bool)
      → Pooled nodes
      → Pooled (node_resource_delete nodes host port started)
  unfolding node_resource_delete
  node_resource_delete-Pooled nodes host port started v =
      elim (Option-cases (table_find (node_key host port) nodes.table)) [
        | inl f ↦ rw (f, node_resource_delete) v
        | inr (pool, f) ↦
            rw (f, node_resource_delete)
              (record {
                table = table_delete-IsTable _ nodes.table v.table;
                sound = record {
                  pools = λ k p e. v.sound.pools k p (
                      ground (arith, table_find-delete (node_key host port) k nodes.table v.table));
                };
              })
      ]

  resource_delete-Pooled :
      (r : Resources) (group service version host : List ℕ) (port : ℕ) (started : Bool)
      → Pooled r.nodes
      → Pooled (resource_delete r group service version host port started).nodes
  unfolding resource_delete
  resource_delete-Pooled r group service version host port started v =
      let services = service_resource_delete r.services group service version host port in
      elim (Bool-cases (service_resource_pool_is_used services host port)) [
        | inl used ↦ rw (used, resource_delete) v
        | inr free ↦
            rw (free, resource_delete) (node_resource_delete-Pooled r.nodes host port started v)
      ]

  notify_change-Pooled :
      (started : Bool) (r : Resources) (p : RegisterInfo) (r' : Resources)
      → Pooled r.nodes
      → notify_change config started r p ≡ some r'
      → Pooled r'.nodes
  unfolding notify_change resource_add resource_delete
  notify_change-Pooled started r p r' v e = elim (Status-cases p.status) [
    | inl normal_e ↦ let same : r ≡ r' = cc (rw (normal_e, notify_change) at e) in rw⁻¹ same v
    | inr (inl added_e) ↦
        elim (Option-cases (node_resource_add config r.nodes p.host_value p.port_value)) [
          | inl f ↦ absurd (cc (rw (added_e, f, notify_change, resource_add) at e))
          | inr (nodes, f) ↦
              let same : record {
                nodes = nodes;
                services =
                    service_resource_add r.services p.srv_info.group_value p.srv_info.service_value
                      p.srv_info.version_value p.host_value p.port_value;
              }
                  ≡ r' =
                cc (rw (added_e, f, notify_change, resource_add) at e) in
              rw⁻¹ same (node_resource_add-Pooled r.nodes p.host_value p.port_value nodes v f)
        ]
    | inr (inr deleted_e) ↦
        let same : resource_delete r p.srv_info.group_value p.srv_info.service_value
              p.srv_info.version_value p.host_value p.port_value started
            ≡ r' =
          cc (rw (deleted_e, notify_change) at e) in
        rw⁻¹ same (
          resource_delete-Pooled r p.srv_info.group_value p.srv_info.service_value
            p.srv_info.version_value p.host_value p.port_value started v)
  ]

  notify_changes-Pooled :
      (started : ℕ → Bool) (i : ℕ) (r : Resources) (diff : List RegisterInfo) (r' : Resources)
      → Pooled r.nodes
      → notify_changes config started i r diff ≡ some r'
      → Pooled r'.nodes
  unfolding notify_changes
  notify_changes-Pooled started i r [] r' v e = let same : r ≡ r' = cc in rw⁻¹ same v
  notify_changes-Pooled started i r (p ∷ diff) r' v e =
      elim (Option-cases (notify_change config (started i) r p)) [
        | inl f ↦ absurd (cc (rw (f, notify_changes) at e))
        | inr (later, f) ↦
            notify_changes-Pooled started (suc i) later diff r'
              (notify_change-Pooled (started i) r p later v f) (rw (f, notify_changes) at e)
      ]

  pub reconcile-Pooled :
      (started : ℕ → Bool) (r : Resources) (mapping : RegisterMapping) (node_group : Key)
      (remote : Option (List RegisterInfo)) (r' : Resources) (mapping' : RegisterMapping)
      → Pooled r.nodes
      → reconcile config started r mapping node_group remote ≡ some (r', mapping')
      → Pooled r'.nodes
  unfolding reconcile
  reconcile-Pooled started r mapping node_group remote r' mapping' v e =
      elim (Option-cases (
        notify_changes config started 0 r
          (changes_of (diff_register_info (register_mapping_find mapping node_group) remote)))) [
            | inl f ↦ absurd (cc (rw (f, reconcile) at e))
            | inr (later, f) ↦
                let same : later ≡ r' = cc (rw (f, reconcile) at e) in
                rw⁻¹ same (
                  notify_changes-Pooled started 0 r
                    (changes_of
                      (diff_register_info (register_mapping_find mapping node_group) remote))
                    later v f)
          ]
