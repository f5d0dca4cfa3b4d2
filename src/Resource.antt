-- ===== src/Resource.antt =====
-- soaagent/resource_mgt.c: `resource_add` and `resource_delete`, which keep the table of pools in
-- step with the table of services. Both are called under the lock `global_modify_resource_lock` of
-- soaagent/invoke_stub.c, so they do not overlap.
pub mod Sync
mod Examples
use ddmframework.Common.{ℕ, Bool, List, Option, none, some, if◌then◌else◌}
use ddmframework.ServiceResource.{
  Services, service_resource_add, service_resource_delete, service_resource_pool_is_used,
}
use ddmframework.NodeResource.{PoolConfig, Nodes, node_resource_add, node_resource_delete}

pub record Resources : Type 0 where
  pub nodes : Nodes
  pub services : Services

unfoldable pub resource_add :
    PoolConfig → Resources → (group service version host : List ℕ) → ℕ → Option Resources
unfolding node_resource_add service_resource_add
resource_add config r group service version host port =
    elim (node_resource_add config r.nodes host port) [
      | none ↦ none
      | some nodes ↦ some (record {
        nodes = nodes;
        services = service_resource_add r.services group service version host port;
      })
    ]

unfoldable pub resource_delete :
    Resources → (group service version host : List ℕ) → ℕ → (started : Bool) → Resources
unfolding node_resource_delete service_resource_delete service_resource_pool_is_used
resource_delete r group service version host port started =
    let services = service_resource_delete r.services group service version host port in
    record {
      nodes =
          if service_resource_pool_is_used services host port
          then r.nodes
          else node_resource_delete r.nodes host port started;
      services = services;
    }
