-- ===== src/Invoke/Registry.antt =====
-- The providers that the tables serve are those of the registry.
use ddmframework.Common.{
  if◌then◌else◌, ℕ, suc, ◌≤◌, ◌<◌, ◌≡◌, refl, ap, ◌∙◌, inl, inr, Bool, true, not, ◌&&◌, ◌||◌, List,
  [], ◌∷◌, ◌++◌, Option, none, some, arith, str_eq, str_eq_iff, Bool-cases, bool_ext, and_eq_true,
  Key, All, All-append, length,
}
use ddmframework.ServiceConf.{
  RegisterInfo, Status, normal, added, deleted, with_status, same_service, same_register,
  find_register_info, copy_register_info, push_missing, diff_register_info, RegisterMapping,
  register_mapping_find, register_mapping_put, provider_key_len,
}
use ddmframework.ServiceConf.Keys.{
  IsNode, IsService, node_resource_construct_key_injective,
  service_resource_construct_key_injective,
}
use ddmframework.ServiceConf.Diff.{
  change, apply_diff, members, changes, diff_register_info_any, same_register_iff,
}
use ddmframework.ServiceConf.Mapping.{register_mapping_find-put}
use ddmframework.ServiceResource.{service_key, node_key}
use ddmframework.ServiceResource.Members.{serves}
use ddmframework.NodeResource.{PoolConfig}
use ddmframework.Resource.{Resources, resource_delete}
use ddmframework.Resource.Sync.{InStep, resource_add-InStep, resource_delete-InStep}
use ddmframework.Invoke.{notify_change, notify_changes, changes_of, reconcile}

-- The fields of an instance as `register_info_padding` leaves them, free of the separator.
abbrev pub IsFit : RegisterInfo → Type 0
IsFit p =
    IsService p.srv_info.group_value p.srv_info.service_value p.srv_info.version_value
    × IsNode p.host_value p.port_value

abbrev key_of : RegisterInfo → Key
key_of p = service_key p.srv_info.group_value p.srv_info.service_value p.srv_info.version_value

abbrev node_of : RegisterInfo → Key
node_of p = node_key p.host_value p.port_value

-- Whether the tables know an instance.
unfoldable pub known : RegisterInfo → Resources → Bool
known p r = serves (key_of p) (node_of p) r.services

same_fields :
    (p q : RegisterInfo)
    → p.srv_info.group_value ≡ q.srv_info.group_value
    → p.srv_info.service_value ≡ q.srv_info.service_value
    → p.srv_info.version_value ≡ q.srv_info.version_value
    → p.host_value ≡ q.host_value
    → p.port_value ≡ q.port_value
    → same_register p q ≡ true
unfolding same_register same_service
same_fields p q g s v host port = ground (
  arith,
  str_eq_iff p.srv_info.group_value q.srv_info.group_value,
  str_eq_iff p.srv_info.service_value q.srv_info.service_value,
  str_eq_iff p.srv_info.version_value q.srv_info.version_value,
  str_eq_iff p.host_value q.host_value,
)

same_keys :
    (p q : RegisterInfo)
    → IsFit p
    → IsFit q
    → (str_eq (key_of p) (key_of q) && str_eq (node_of p) (node_of q)) ≡ same_register p q
same_keys p q fp fq =
    bool_ext _ _
      (λ h.
        let (hk, hn) = and_eq_true _ _ h in
        let (g, s, v) =
          service_resource_construct_key_injective _ _ _ _ _ _ fp.0 fq.0 ((str_eq_iff _ _).0 hk) in
        let (host, port) =
          node_resource_construct_key_injective _ _ _ _ fp.1 fq.1 ((str_eq_iff _ _).0 hn) in
        same_fields p q g s v host port)
      (λ h.
        let e = (same_register_iff p q).0 h in
        rw
          (
            (str_eq_iff (key_of p) (key_of q)).1 (ap key_of e),
            (str_eq_iff (node_of p) (node_of q)).1 (ap node_of e),
          )
          refl)

-- One change.
change_by :
    (status : Status) (config : PoolConfig) (started : Bool) (r : Resources) (p : RegisterInfo)
    → p.status ≡ status
    → config.init_conn_num ≤ config.max_conn_num
    → InStep r
    → IsFit p
    → (r' : Resources) × (notify_change config started r p ≡ some r')
      × InStep r'
      × ((q : RegisterInfo) → IsFit q → known q r' ≡ change status (known q r) (same_register p q))
unfolding known change notify_change
change_by normal config started r p e fits v fp = (r, rw (e, notify_change) refl, v, λ q fq. refl)
change_by added config started r p e fits v fp =
    let (r', run, v', after, _) =
      resource_add-InStep config r p.srv_info.group_value p.srv_info.service_value
        p.srv_info.version_value p.host_value p.port_value fits v in
    (
      r',
      rw (e, notify_change) run,
      v',
      λ q fq. after (key_of q) (node_of q) ∙ ap (λ b. known q r || b) (same_keys p q fp fq),
    )
change_by deleted config started r p e fits v fp =
    let (v', after) =
      resource_delete-InStep r p.srv_info.group_value p.srv_info.service_value
        p.srv_info.version_value p.host_value p.port_value started v in
    (
      resource_delete r p.srv_info.group_value p.srv_info.service_value p.srv_info.version_value
          p.host_value p.port_value started,
      rw (e, notify_change) refl,
      v',
      λ q fq. after (key_of q) (node_of q) ∙ ap (λ b. known q r && not b) (same_keys p q fp fq),
    )

-- The changes see the set of instances pointwise.
apply_diff-pointwise :
    (diff : List RegisterInfo) (set other : RegisterInfo → Bool) (q : RegisterInfo)
    → set q ≡ other q
    → apply_diff diff set q ≡ apply_diff diff other q
unfolding apply_diff
apply_diff-pointwise [] set other q e = e
apply_diff-pointwise (p ∷ diff) set other q e =
    apply_diff-pointwise diff _ _ q (ap (λ b. change p.status b (same_register p q)) e)

notify_changes_lem :
    (config : PoolConfig) (started : ℕ → Bool) (i : ℕ) (r : Resources) (diff : List RegisterInfo)
    → config.init_conn_num ≤ config.max_conn_num
    → InStep r
    → All IsFit diff
    → (r' : Resources) × (notify_changes config started i r diff ≡ some r')
      × InStep r'
      × ((q : RegisterInfo) → IsFit q → known q r' ≡ apply_diff diff (λ s. known s r) q)
unfolding notify_changes apply_diff
notify_changes_lem config started i r [] fits v h = (r, refl, v, λ q fq. refl)
notify_changes_lem config started i r (p ∷ diff) fits v (fp, h) =
    let (r', run, v', one) = change_by p.status config (started i) r p refl fits v fp in
    let (r'', runs, v'', rest) = notify_changes_lem config started (suc i) r' diff fits v' h in
    (
      r'',
      rw (run, notify_changes) runs,
      v'',
      λ q fq.
          rest q fq
          ∙ apply_diff-pointwise diff (λ s. known s r')
              (λ s. change p.status (known s r) (same_register p s)) q (one q fq),
    )

copy-IsFit :
    (src dest : List RegisterInfo) (s : Status)
    → All IsFit src
    → All IsFit dest
    → All IsFit (copy_register_info src dest s)
unfolding copy_register_info
copy-IsFit [] dest s hs hd = hd
copy-IsFit (p ∷ src) dest s (hp, hs) hd =
    copy-IsFit src (dest ++ with_status s p ∷ []) s hs
      (All-append IsFit dest (with_status s p ∷ []) hd (hp, tt))

push_missing-IsFit :
    (array other result : List RegisterInfo) (s : Status)
    → All IsFit array
    → All IsFit result
    → All IsFit (push_missing array other result s)
unfolding push_missing
push_missing-IsFit [] other result s ha hr = hr
push_missing-IsFit (p ∷ array) other result s (hp, ha) hr =
    elim (Bool-cases (find_register_info other p)) [
      | inl e ↦ rw e (push_missing-IsFit array other result s ha hr)
      | inr e ↦ rw e (
          push_missing-IsFit array other (result ++ with_status s p ∷ []) s ha
            (All-append IsFit result (with_status s p ∷ []) hr (hp, tt)))
    ]

diff-IsFit :
    (left right : Option (List RegisterInfo))
    → All IsFit (changes left)
    → All IsFit (changes right)
    → All IsFit (changes (diff_register_info left right))
unfolding diff_register_info
diff-IsFit none none hl hr = tt
diff-IsFit (some left) none hl hr = copy-IsFit left [] deleted hl tt
diff-IsFit none (some right) hl hr = copy-IsFit right [] added hr tt
diff-IsFit (some left) (some right) hl hr =
    push_missing-IsFit right left (push_missing left right [] deleted) added hr
      (push_missing-IsFit left right [] deleted hl tt)

changes_of_lem : (diff : Option (List RegisterInfo)) → changes_of diff ≡ changes diff
unfolding changes_of
changes_of_lem none = refl
changes_of_lem (some diff) = refl

-- The tables after a change of one group, as far as the arrays go.
pub reconcile-All :
    (config : PoolConfig) (started : ℕ → Bool) (r : Resources) (mapping : RegisterMapping)
    (node_group : Key) (remote : Option (List RegisterInfo))
    → config.init_conn_num ≤ config.max_conn_num
    → InStep r
    → All IsFit (changes (register_mapping_find mapping node_group))
    → All IsFit (changes remote)
    → (r' : Resources) × (reconcile config started r mapping node_group remote
        ≡ some (r', register_mapping_put mapping node_group remote))
      × InStep r'
      × ((q : RegisterInfo)
          → IsFit q
          → known q r' ≡ (
              if members (register_mapping_find mapping node_group) q
              then members remote q && known q r
              else members remote q || known q r))
unfolding reconcile
reconcile-All config started r mapping node_group remote fits v hl hr =
    let local = register_mapping_find mapping node_group in
    let diff = changes (diff_register_info local remote) in
    let (r', run, v', after) =
      notify_changes_lem config started 0 r diff fits v (diff-IsFit local remote hl hr) in
    (
      r',
      rw (changes_of_lem (diff_register_info local remote), run, reconcile) refl,
      v',
      λ q fq. after q fq ∙ diff_register_info_any local remote (λ s. known s r) q,
    )

-- When the registrations of a group change, the tables follow: the call does not fault and keeps
-- the pools in step with the services. An instance that the last registrations named is known
-- afterwards exactly if the new ones name it and it was known; one that they did not name, exactly
-- if the new ones name it or it was known. The new registrations are what the mapping holds for the
-- group, if its key fits. The fields of the instances hold no separator, and the configured pools
-- start below their maximum.
reconcile_lem :
    (config : PoolConfig) (started : ℕ → Bool) (r : Resources) (mapping : RegisterMapping)
    (node_group : Key) (remote : Option (List RegisterInfo)) (q : RegisterInfo)
    → config.init_conn_num ≤ config.max_conn_num
    → InStep r
    → All IsFit (changes (register_mapping_find mapping node_group))
    → All IsFit (changes remote)
    → length node_group < provider_key_len
    → IsFit q
    → (r' : Resources) × (mapping' : RegisterMapping) × (reconcile config started r mapping
          node_group remote
        ≡ some (r', mapping'))
      × InStep r'
      × (known q r' ≡ (
          if members (register_mapping_find mapping node_group) q
          then members remote q && known q r
          else members remote q || known q r))
      × (register_mapping_find mapping' node_group ≡ remote)
reconcile_lem config started r mapping node_group remote q fits v hl hr short fq =
    let (r', run, v', after) =
      reconcile-All config started r mapping node_group remote fits v hl hr in
    (
      r',
      register_mapping_put mapping node_group remote,
      run,
      v',
      after q fq,
      register_mapping_find-put mapping node_group node_group remote short
          ∙ rw ((str_eq_iff node_group node_group).1 refl) refl,
    )
