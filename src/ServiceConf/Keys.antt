-- ===== src/ServiceConf/Keys.antt =====
-- The keys of nodes and services tell them apart.
use ddmframework.Common.{
  ◌↔◌, ℕ, ◌-◌, ◌≤◌, ◌<◌, ◌≡◌, refl, ◌∙◌, sym, ◌≢◌, List, [], ◌∷◌, ◌++◌, arith, length,
  length-append, take_self, All,
}
use ddmframework.Decimal.{print, print_injective, IsDigit, length-print}
use ddmframework.ServiceConf.{
  separator, node_key_len, service_key_len, field_host_len, field_group_len, field_service_len,
  field_version_len, node_resource_construct_key, service_resource_construct_key,
}

-- A text that does not hold the separator.
abbrev pub IsPlain : List ℕ → Type 0
IsPlain = All (λ c. c ≢ separator)

IsDigit-IsPlain : (ds : List ℕ) → All IsDigit ds → IsPlain ds
IsDigit-IsPlain [] h = tt
IsDigit-IsPlain (d ∷ ds) h = (omega arith, IsDigit-IsPlain ds h.1)

-- Two texts that are cut at their first separator have the same halves.
split_unique :
    (xs ys us vs : List ℕ)
    → IsPlain xs
    → IsPlain us
    → xs ++ separator ∷ ys ≡ us ++ separator ∷ vs
    → (xs ≡ us) × (ys ≡ vs)
split_unique [] ys [] vs p q e = (refl, ground arith)
split_unique [] ys (u ∷ us) vs p q e = absurd (q.0 (ground arith))
split_unique (x ∷ xs) ys [] vs p q e = absurd (p.0 (ground arith))
split_unique (x ∷ xs) ys (u ∷ us) vs p q e = ground (arith, split_unique xs ys us vs p.1 q.1)

-- A host that fits its field, and a port of TCP.
abbrev pub IsNode : List ℕ → ℕ → Type 0
IsNode host port = IsPlain host × (length host < field_host_len) × (port < 65536)

length-node_key :
    (host : List ℕ) (port : ℕ)
    → IsNode host port
    → length (host ++ separator ∷ print port) ≤ node_key_len - 1
length-node_key host port h =
    omega (arith, length-append host (separator ∷ print port), length-print 4 port (omega arith))

-- The key of a node is not cut off, and different nodes have different keys.
pub node_resource_construct_key_injective :
    (h₁ h₂ : List ℕ) (p₁ p₂ : ℕ)
    → IsNode h₁ p₁
    → IsNode h₂ p₂
    → node_resource_construct_key h₁ p₁ node_key_len
      ≡ node_resource_construct_key h₂ p₂ node_key_len
    → (h₁ ≡ h₂) × (p₁ ≡ p₂)
unfolding node_resource_construct_key
node_resource_construct_key_injective h₁ h₂ p₁ p₂ v₁ v₂ e =
    let whole₁ = take_self _ _ (length-node_key h₁ p₁ v₁) in
    let whole₂ = take_self _ _ (length-node_key h₂ p₂ v₂) in
    let (hosts, ports) =
      split_unique h₁ (print p₁) h₂ (print p₂) v₁.0 v₂.0 (sym whole₁ ∙ e ∙ whole₂) in
    (hosts, print_injective p₁ p₂ ports)

-- The fields of a service as the padded structures hold them.
abbrev pub IsService : (group service version : List ℕ) → Type 0
IsService group service version =
    IsPlain group
    × IsPlain service
    × (length group < field_group_len)
    × (length service < field_service_len)
    × (length version < field_version_len)

length-service_key :
    (group service version : List ℕ)
    → IsService group service version
    → length (group ++ separator ∷ (service ++ separator ∷ version)) ≤ service_key_len - 1
length-service_key group service version h = omega (
  arith,
  length-append group (separator ∷ (service ++ separator ∷ version)),
  length-append service (separator ∷ version),
)

pub service_resource_construct_key_injective :
    (g₁ s₁ v₁ g₂ s₂ v₂ : List ℕ)
    → IsService g₁ s₁ v₁
    → IsService g₂ s₂ v₂
    → service_resource_construct_key g₁ s₁ v₁ service_key_len
      ≡ service_resource_construct_key g₂ s₂ v₂ service_key_len
    → (g₁ ≡ g₂) × (s₁ ≡ s₂) × (v₁ ≡ v₂)
unfolding service_resource_construct_key
service_resource_construct_key_injective g₁ s₁ v₁ g₂ s₂ v₂ h₁ h₂ e =
    let whole₁ = take_self _ _ (length-service_key g₁ s₁ v₁ h₁) in
    let whole₂ = take_self _ _ (length-service_key g₂ s₂ v₂ h₂) in
    let (groups, rest) = split_unique g₁ _ g₂ _ h₁.0 h₂.0 (sym whole₁ ∙ e ∙ whole₂) in
    let (services, versions) = split_unique s₁ v₁ s₂ v₂ h₁.1 h₂.1 rest in
    (groups, services, versions)

-- The keys of two services are their group, name and version with a separator between them, not cut
-- off, and they are equal exactly when the services are. The groups and the names hold no separator,
-- and the three texts are shorter than their fields.
pub service_resource_construct_key_lem :
    (g₁ s₁ v₁ g₂ s₂ v₂ : List ℕ)
    → IsService g₁ s₁ v₁
    → IsService g₂ s₂ v₂
    → let key = λ (g s v : List ℕ). service_resource_construct_key g s v service_key_len in
      (key g₁ s₁ v₁ ≡ g₁ ++ b'#' ∷ (s₁ ++ b'#' ∷ v₁))
      × (key g₂ s₂ v₂ ≡ g₂ ++ b'#' ∷ (s₂ ++ b'#' ∷ v₂))
      × ((key g₁ s₁ v₁ ≡ key g₂ s₂ v₂) ↔ ((g₁ ≡ g₂) × (s₁ ≡ s₂) × (v₁ ≡ v₂)))
unfolding service_resource_construct_key
service_resource_construct_key_lem g₁ s₁ v₁ g₂ s₂ v₂ h₁ h₂ = (
  take_self _ _ (length-service_key g₁ s₁ v₁ h₁),
  take_self _ _ (length-service_key g₂ s₂ v₂ h₂),
  (
    service_resource_construct_key_injective g₁ s₁ v₁ g₂ s₂ v₂ h₁ h₂,
    λ (groups, services, versions). rw (groups, services, versions) refl,
  ),
)
