-- ===== src/Invoke/Parsing.antt =====
-- What `children_change_func_impl` reads from the children of a group.
use ddmframework.Common.{
  str_eq_iff, ℕ, zero, suc, ◌≤◌, ◌<◌, ◌≡◌, ◌≢◌, refl, sym, ap, ◌∙◌, inl, inr, Bool, true, false,
  ◌&&◌, ◌||◌, List, [], ◌∷◌, Option, none, some, arith, Bool-cases, or_cases, Key, All, All-append,
  length-take, take,
}
use ddmframework.Url.{url_decode}
use ddmframework.ServiceConf.{
  ServiceInfo, RegisterInfo, register_info_padding, separator, service_filter_padding,
  service_filter_match, find_register_info, provider_construct_key,
}
use ddmframework.ServiceConf.Keys.{IsPlain}
use ddmframework.ServiceConf.Diff.{members, changes}
use ddmframework.ServiceConf.Registration.{
  is_instance, is_declared, Document, unparsable, malformed, registration, padded, push_new,
  push_services, new_array, parse_node_register_info, names, find-push_services, new_array-members,
}
use ddmframework.Invoke.Registry.{IsFit}
use ddmframework.Invoke.Agent.{World, parse_nodes, max_node_path_len}

-- The group of an instance, as the key under which zookeeper holds it.
abbrev pub group_key : RegisterInfo → Key
group_key q = provider_construct_key q.srv_info.group_value max_node_path_len

-- A registration under a group is its own, and its fields hold no separator; a text that is no
-- registration does no harm.
abbrev IsFair : Key → Document → Type 0
IsFair node_group unparsable = Unit
IsFair node_group malformed = 1 ≤ 0
IsFair node_group (registration host port group services) =
    IsPlain host
    × (port < 65536)
    × IsPlain group
    × All (λ s. IsPlain s.0) services
    × (provider_construct_key (take 49 group) max_node_path_len ≡ node_group)

abbrev pub IsFairNode : World → Key → List ℕ → Type 0
IsFairNode w node_group node_value = IsFair node_group (w.cjson (url_decode node_value))

-- What a document and the children of a group name.
unfoldable pub shown : List ServiceInfo → Document → RegisterInfo → Bool
shown filters unparsable q = false
shown filters malformed q = false
shown filters (registration host port group services) q = names filters group host port services q

unfoldable pub listed : World → List ServiceInfo → List (List ℕ) → RegisterInfo → Bool
listed w filters [] q = false
listed w filters (v ∷ node_names) q =
    shown filters (w.cjson (url_decode v)) q || listed w filters node_names q

take-All : (P : ℕ → Type 0) (n : ℕ) (xs : List ℕ) → All P xs → All P (take n xs)
take-All P zero xs h = tt
take-All P (suc n) [] h = tt
take-All P (suc n) (x ∷ xs) (hx, h) = (hx, take-All P n xs h)

padded-IsFit :
    (group service version host : List ℕ) (port : ℕ)
    → IsPlain group
    → IsPlain service
    → IsPlain host
    → port < 65536
    → IsFit (padded group service version host port)
unfolding padded register_info_padding service_filter_padding
padded-IsFit group service version host port hg hs hh hp = (
  (
    take-All (λ c. c ≢ separator) 49 group hg,
    take-All (λ c. c ≢ separator) 29 service hs,
    omega (arith, length-take 49 group),
    omega (arith, length-take 29 service),
    omega (arith, length-take 19 version),
  ),
  (take-All (λ c. c ≢ separator) 19 host hh, omega (arith, length-take 19 host), hp),
)

push_new-IsFit :
    (filters : List ServiceInfo) (result : List RegisterInfo) (p : RegisterInfo)
    → All IsFit result
    → IsFit p
    → All IsFit (push_new filters result p)
unfolding push_new
push_new-IsFit filters result p hr hp = elim (Bool-cases (service_filter_match filters p)) [
  | inr e ↦ rw e hr
  | inl e ↦ elim (Bool-cases (find_register_info result p)) [
    | inl old ↦ rw (e, old) hr
    | inr new ↦ rw (e, new) (All-append IsFit result (p ∷ []) hr (hp, tt))
  ]
]

push_services-IsFit :
    (filters : List ServiceInfo) (group host : List ℕ) (port : ℕ)
    (services : List (List ℕ × List ℕ)) (result : List RegisterInfo)
    → IsPlain group
    → IsPlain host
    → port < 65536
    → All (λ s. IsPlain s.0) services
    → All IsFit result
    → All IsFit (push_services filters group host port services result)
unfolding push_services
push_services-IsFit filters group host port [] result hg hh hp hs hr = hr
push_services-IsFit filters group host port ((service, version) ∷ rest) result hg hh hp (h, hs) hr =
    push_services-IsFit filters group host port rest
      (push_new filters result (padded group service version host port)) hg hh hp hs
      (push_new-IsFit filters result (padded group service version host port) hr
        (padded-IsFit group service version host port hg h hh hp))

new_array-IsFit :
    (result : Option (List RegisterInfo))
    → All IsFit (changes result)
    → All IsFit (new_array result)
unfolding new_array
new_array-IsFit none h = tt
new_array-IsFit (some result) h = h

-- One document, if it is fair.
parse_one :
    (w : World) (node_group : Key) (filters : List ServiceInfo)
    (result : Option (List RegisterInfo)) (content : List ℕ) (doc : Document)
    → w.cjson content ≡ doc
    → IsFair node_group doc
    → All IsFit (changes result)
    → (result' : Option (List RegisterInfo)) × (status : Bool) × (parse_node_register_info w.cjson
          filters result content
        ≡ some (result', status))
      × All IsFit (changes result')
      × ((q : RegisterInfo) → members result' q ≡ (members result q || shown filters doc q))
unfolding parse_node_register_info shown
parse_one w node_group filters result content unparsable e fair hr =
    (result, false, rw (e, parse_node_register_info) refl, hr, λ q. ground arith)
parse_one w node_group filters result content malformed e fair hr = absurd (omega arith)
parse_one w node_group filters result content (registration host port group services) e
      (hh, hp, hg, hs, own) hr =
    (
      some (push_services filters group host port services (new_array result)),
      true,
      rw (e, parse_node_register_info) refl,
      push_services-IsFit filters group host port services (new_array result) hg hh hp hs
          (new_array-IsFit result hr),
      λ q.
          find-push_services filters group host port services (new_array result) q
          ∙ ap (λ b. b || names filters group host port services q) (new_array-members result q),
    )

-- All children of a group.
pub parse_nodes_lem :
    (w : World) (node_group : Key) (filters : List ServiceInfo) (node_names : List (List ℕ))
    (result : Option (List RegisterInfo))
    → All (IsFairNode w node_group) node_names
    → All IsFit (changes result)
    → (remote : Option (List RegisterInfo)) × (parse_nodes w filters result node_names
        ≡ some remote)
      × All IsFit (changes remote)
      × ((q : RegisterInfo)
          → members remote q ≡ (members result q || listed w filters node_names q))
unfolding parse_nodes listed
parse_nodes_lem w node_group filters [] result h hr = (result, refl, hr, λ q. ground arith)
parse_nodes_lem w node_group filters (v ∷ node_names) result (fair, h) hr =
    let (one, status, run, ho, found) =
      parse_one w node_group filters result (url_decode v) (w.cjson (url_decode v)) refl fair hr in
    let (remote, runs, hm, rest) = parse_nodes_lem w node_group filters node_names one h ho in
    (remote, rw (run, parse_nodes) runs, hm, λ q. ground (arith, rest q, found q))

-- What a fair registration names belongs to its group.
names-own :
    (filters : List ServiceInfo) (group host : List ℕ) (port : ℕ)
    (services : List (List ℕ × List ℕ)) (q : RegisterInfo)
    → names filters group host port services q ≡ true
    → q.srv_info.group_value ≡ take 49 group
unfolding names is_instance
names-own filters group host port [] q h = cc
names-own filters group host port ((service, version) ∷ rest) q h =
    elim (or_cases
      (is_instance group host port (service, version) q && is_declared filters q.srv_info)
      (names filters group host port rest q) h) [
        | inl here ↦
            sym ((str_eq_iff (take 49 group) q.srv_info.group_value).0 (ground (arith, here)))
        | inr later ↦ names-own filters group host port rest q later
      ]

shown-own :
    (node_group : Key) (filters : List ServiceInfo) (doc : Document) (q : RegisterInfo)
    → IsFair node_group doc
    → shown filters doc q ≡ true
    → group_key q ≡ node_group
unfolding shown
shown-own node_group filters unparsable q fair e = cc
shown-own node_group filters malformed q fair e = cc
shown-own node_group filters (registration host port group services) q (hh, hp, hg, hs, own) e =
    ap (λ (g : List ℕ). provider_construct_key g max_node_path_len)
      (names-own filters group host port services q e)
    ∙ own

pub listed-own :
    (w : World) (node_group : Key) (filters : List ServiceInfo) (node_names : List (List ℕ))
    (q : RegisterInfo)
    → All (IsFairNode w node_group) node_names
    → listed w filters node_names q ≡ true
    → group_key q ≡ node_group
unfolding listed shown
listed-own w node_group filters [] q h e = cc
listed-own w node_group filters (v ∷ node_names) q (fair, h) e =
    elim (or_cases (shown filters (w.cjson (url_decode v)) q) (listed w filters node_names q) e) [
      | inl here ↦ shown-own node_group filters (w.cjson (url_decode v)) q fair here
      | inr later ↦ listed-own w node_group filters node_names q h later
    ]
