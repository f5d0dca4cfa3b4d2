-- ===== src/Invoke.antt =====
-- soaagent/invoke_stub.c: `notify_change`, and the part of `children_change_func_impl` that follows
-- the parsing of the registrations. It runs under `global_modify_resource_lock`.
pub mod Registry
pub mod Agent
pub mod Parsing
pub mod Refinement
pub mod Call
pub mod Exchange
pub mod Service
pub mod Invocation
pub mod Refresh
pub mod Examples
pub mod RefreshExamples
pub mod CallExamples
pub mod Kept
pub mod Life
pub mod Shutdown
mod ShutdownExamples
use ddmframework.Common.{ℕ, suc, Bool, List, [], ◌∷◌, Option, none, some, Key}
use ddmframework.ServiceConf.{
  RegisterInfo, normal, added, deleted, RegisterMapping, diff_register_info, register_mapping_find,
  register_mapping_put,
}
use ddmframework.NodeResource.{PoolConfig}
use ddmframework.Resource.{Resources, resource_add, resource_delete}

-- `started` says whether the thread that destroys a dropped pool can be created; `none` is a fault.
unfoldable pub notify_change : PoolConfig → Bool → Resources → RegisterInfo → Option Resources
unfolding resource_add resource_delete
notify_change config started r p = elim p.status [
  | deleted ↦ some (
      resource_delete r p.srv_info.group_value p.srv_info.service_value p.srv_info.version_value
        p.host_value p.port_value started)
  | added ↦
      resource_add config r p.srv_info.group_value p.srv_info.service_value p.srv_info.version_value
        p.host_value p.port_value
  | normal ↦ some r
]

-- The loop over the differences. The i-th thread is created when `started i` is true.
unfoldable pub notify_changes :
    PoolConfig → (ℕ → Bool) → ℕ → Resources → List RegisterInfo → Option Resources
unfolding notify_change
notify_changes config started i r [] = some r
notify_changes config started i r (p ∷ diff) = elim (notify_change config (started i) r p) [
  | none ↦ none
  | some r' ↦ notify_changes config started (suc i) r' diff
]

-- `if (diff_reg_info_arr)`.
unfoldable pub changes_of : Option (List RegisterInfo) → List RegisterInfo
changes_of none = []
changes_of (some diff) = diff

unfoldable pub reconcile :
    PoolConfig
    → (ℕ → Bool)
    → Resources
    → RegisterMapping
    → (node_group : Key) (remote : Option (List RegisterInfo))
    → Option (Resources × RegisterMapping)
unfolding notify_changes changes_of diff_register_info register_mapping_find register_mapping_put
reconcile config started r mapping node_group remote =
    elim (notify_changes config started 0 r
      (changes_of (diff_register_info (register_mapping_find mapping node_group) remote))) [
        | none ↦ none
        | some r' ↦ some (r', register_mapping_put mapping node_group remote)
      ]
