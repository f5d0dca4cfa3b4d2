-- ===== src/Invoke/Refinement.antt =====
-- The agent against the registry: what the tables know is what the last registrations of each group
-- name, after any sequence of changes.
use ddmframework.Common.{
  ℕ, ◌<◌, ◌≡◌, true, List, [], ◌∷◌, Option, none, some, str_eq, if◌then◌else◌, Key, All, length,
}
use ddmframework.ServiceConf.{RegisterInfo, register_mapping_find, provider_key_len}
use ddmframework.ServiceConf.Diff.{members, changes}
use ddmframework.Resource.Sync.{InStep}
use ddmframework.Invoke.Registry.{IsFit, known}
use ddmframework.Invoke.Agent.{Agent, World, children_change_func_impl}
use ddmframework.Invoke.Parsing.{group_key, IsFairNode, listed}

-- The registry as the agent was told of it: the children of each group.
abbrev pub View : Type 0
View = Key → List (List ℕ)

-- A change of the children of a group.
abbrev pub Change : Type 0
Change = Key × List (List ℕ)

abbrev pub seen_after : View → Change → View
seen_after view (group, node_names) k = if str_eq group k then node_names else view k

-- The tables and the mapping show a view.
pub record Shows (w : World) (a : Agent) (view : View) : Type 0 where
  pub in_step : InStep a.resources
  pub fit : (k : Key) → All IsFit (changes (register_mapping_find a.mapping k))
  pub seen :
      (k : Key) (q : RegisterInfo)
      → members (register_mapping_find a.mapping k) q ≡ listed w a.service_filters (view k) q
  pub own :
      (k : Key) (q : RegisterInfo) → listed w a.service_filters (view k) q ≡ true → group_key q ≡ k
  pub served :
      (q : RegisterInfo)
      → IsFit q
      → known q a.resources ≡ listed w a.service_filters (view (group_key q)) q

-- A change that the agent can take: its key fits its field, and its registrations are fair.
abbrev pub IsFairChange : World → Change → Type 0
IsFairChange w (group, node_names) =
    (length group < provider_key_len) × All (IsFairNode w group) node_names

-- The changes of the registry, one after the other.
unfoldable pub run_changes : World → Agent → List Change → Option Agent
run_changes w a [] = some a
run_changes w a ((group, node_names) ∷ rest) =
    elim (children_change_func_impl w a group node_names) [
      | none ↦ none
      | some a' ↦ run_changes w a' rest
    ]

unfoldable pub seen_after_all : View → List Change → View
seen_after_all view [] = view
seen_after_all view (change ∷ rest) = seen_after_all (seen_after view change) rest
