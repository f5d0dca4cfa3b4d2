-- ===== src/ServiceConf/Registration.antt =====
-- soaagent/service_conf.c: `parse_node_register_info`. What cJSON makes of a text is a parameter.
use ddmframework.Conn.{snprintf_s}
use ddmframework.Common.{
  str_eq, take, ◌==◌, ℕ, ◌≡◌, refl, ap, ◌∙◌, Bool, true, false, not, ◌&&◌, ◌||◌, List, [], ◌∷◌,
  ◌++◌, Option, none, some, arith, if◌then◌else◌, Bool-cases, inl, inr,
}
use ddmframework.ServiceConf.{
  service_filter_find, same_service, service_filter_padding, ServiceInfo, RegisterInfo, normal,
  register_info_padding, service_filter_match, same_register, find_register_info,
}
use ddmframework.ServiceConf.Diff.{same_register_iff, find-same, members}

-- A text is no JSON, or lacks a field that the code follows, or registers the services of a node,
-- each a name with a version.
pub data Document : Type 0 where
  unparsable : Document
  malformed : Document
  registration :
      (host : List ℕ) (port : ℕ) (group : List ℕ) (services : List (List ℕ × List ℕ)) → Document

-- The local variable `reg_info`, whose `status` is set and whose other fields are padded.
unfoldable pub padded : (group service version host : List ℕ) → ℕ → RegisterInfo
unfolding register_info_padding
padded group service version host port =
    register_info_padding
      (record {
        srv_info = record { group_value = []; service_value = []; version_value = [] };
        host_value = [];
        port_value = 0;
        status = normal;
      })
      group service version host port

unfoldable pub push_new : List ServiceInfo → List RegisterInfo → RegisterInfo → List RegisterInfo
unfolding service_filter_match find_register_info
push_new filters result reg_info =
    if service_filter_match filters reg_info
    then (if not (find_register_info result reg_info) then result ++ reg_info ∷ [] else result)
    else result

-- The loop over the services.
unfoldable pub push_services :
    List ServiceInfo
    → (group host : List ℕ) → ℕ
    → List (List ℕ × List ℕ)
    → List RegisterInfo
    → List RegisterInfo
unfolding push_new padded
push_services filters group host port [] result = result
push_services filters group host port ((service, version) ∷ rest) result =
    push_services filters group host port rest
      (push_new filters result (padded group service version host port))

unfoldable pub new_array : Option (List RegisterInfo) → List RegisterInfo
new_array none = []
new_array (some result) = result

-- The flag is false for the result -1; `none` is a NULL that is followed.
unfoldable pub parse_node_register_info :
    (List ℕ → Document)
    → List ServiceInfo
    → Option (List RegisterInfo)
    → List ℕ
    → Option (Option (List RegisterInfo) × Bool)
unfolding push_services new_array
parse_node_register_info cjson filters result content = elim (cjson content) [
  | unparsable ↦ some (result, false)
  | malformed ↦ none
  | registration host port group services ↦
      some (some (push_services filters group host port services (new_array result)), true)
]

-- Whether a service is among those that are declared: the same group, name and version.
unfoldable pub is_declared : List ServiceInfo → ServiceInfo → Bool
is_declared [] s = false
is_declared (declared ∷ filters) s =
    (str_eq declared.group_value s.group_value
      && str_eq declared.service_value s.service_value
      && str_eq declared.version_value s.version_value)
    || is_declared filters s

-- Whether an instance is the one that a node registers for a service: each text is cut off at the
-- length of its field.
unfoldable pub is_instance : (group host : List ℕ) → ℕ → List ℕ × List ℕ → RegisterInfo → Bool
is_instance group host port (service, version) q =
    str_eq (take 49 group) q.srv_info.group_value
    && str_eq (take 29 service) q.srv_info.service_value
    && str_eq (take 19 version) q.srv_info.version_value
    && str_eq (take 19 host) q.host_value
    && (port == q.port_value)

-- Whether a registration names an instance of a declared service.
unfoldable pub names :
    List ServiceInfo → (group host : List ℕ) → ℕ → List (List ℕ × List ℕ) → RegisterInfo → Bool
names filters group host port [] q = false
names filters group host port (service ∷ rest) q =
    (is_instance group host port service q && is_declared filters q.srv_info)
    || names filters group host port rest q

pub find-is_declared :
    (filters : List ServiceInfo) (s : ServiceInfo)
    → service_filter_find filters s ≡ is_declared filters s
unfolding service_filter_find same_service is_declared
find-is_declared [] s = refl
find-is_declared (declared ∷ filters) s = ground (arith, find-is_declared filters s)

match-is_declared :
    (filters : List ServiceInfo) (q : RegisterInfo)
    → service_filter_match filters q ≡ is_declared filters q.srv_info
unfolding service_filter_match
match-is_declared filters q = find-is_declared filters q.srv_info

same-is_instance :
    (group host : List ℕ) (port : ℕ) (service version : List ℕ) (q : RegisterInfo)
    → same_register (padded group service version host port) q
      ≡ is_instance group host port (service, version) q
unfolding same_register same_service padded register_info_padding service_filter_padding snprintf_s
    is_instance
same-is_instance group host port service version q = ground arith

match-same :
    (filters : List ServiceInfo) (p q : RegisterInfo)
    → same_register p q ≡ true
    → service_filter_match filters p ≡ service_filter_match filters q
unfolding service_filter_match
match-same filters p q e =
    ap (λ (r : RegisterInfo). service_filter_find filters r.srv_info) ((same_register_iff p q).0 e)

-- What is pushed for a service is an instance of a declared service.
pushed-is_declared :
    (filters : List ServiceInfo) (group host : List ℕ) (port : ℕ) (service version : List ℕ)
    (q : RegisterInfo)
    → let p = padded group service version host port in
      (service_filter_match filters p && same_register p q)
      ≡ (is_instance group host port (service, version) q && is_declared filters q.srv_info)
pushed-is_declared filters group host port service version q =
    let p = padded group service version host port in
    let same = same-is_instance group host port service version q in
    elim (Bool-cases (same_register p q)) [
      | inl e ↦ ground (arith, same, e, match-same filters p q e, match-is_declared filters q)
      | inr e ↦ ground (arith, same, e)
    ]

find-append :
    (xs ys : List RegisterInfo) (q : RegisterInfo)
    → find_register_info (xs ++ ys) q ≡ (find_register_info xs q || find_register_info ys q)
unfolding find_register_info
find-append [] ys q = refl
find-append (x ∷ xs) ys q = ground (arith, find-append xs ys q)

find-push_new :
    (filters : List ServiceInfo) (result : List RegisterInfo) (p q : RegisterInfo)
    → find_register_info (push_new filters result p) q
      ≡ (find_register_info result q || (service_filter_match filters p && same_register p q))
unfolding push_new find_register_info
find-push_new filters result p q = elim (Bool-cases (same_register p q)) [
  | inl e ↦ ground (arith, find-append result (p ∷ []) q, find-same result p q e)
  | inr e ↦ ground (arith, find-append result (p ∷ []) q)
]

pub find-push_services :
    (filters : List ServiceInfo) (group host : List ℕ) (port : ℕ)
    (services : List (List ℕ × List ℕ)) (result : List RegisterInfo) (q : RegisterInfo)
    → find_register_info (push_services filters group host port services result) q
      ≡ (find_register_info result q || names filters group host port services q)
unfolding push_services names
find-push_services filters group host port [] result q = ground arith
find-push_services filters group host port ((service, version) ∷ rest) result q = ground (
  arith,
  find-push_services filters group host port rest
      (push_new filters result (padded group service version host port)) q,
  find-push_new filters result (padded group service version host port) q,
  pushed-is_declared filters group host port service version q,
)

pub new_array-members :
    (result : Option (List RegisterInfo)) (q : RegisterInfo)
    → find_register_info (new_array result) q ≡ members result q
unfolding new_array find_register_info
new_array-members none q = refl
new_array-members (some result) q = refl

-- A registration that cJSON can read and that lacks no item adds to the array, which may be NULL,
-- exactly the instances that it names and whose services are declared: its group, its host and the
-- names and versions of its services, each cut off at the length of its field, with its port.
pub parse_node_register_info_lem :
    (cjson : List ℕ → Document) (filters : List ServiceInfo) (result : Option (List RegisterInfo))
    (content host : List ℕ) (port : ℕ) (group : List ℕ) (services : List (List ℕ × List ℕ))
    → cjson content ≡ registration host port group services
    → (after : List RegisterInfo) × (parse_node_register_info cjson filters result content
        ≡ some (some after, true))
      × ((q : RegisterInfo)
          → members (some after) q ≡ (members result q || names filters group host port services q))
unfolding parse_node_register_info
parse_node_register_info_lem cjson filters result content host port group services e = (
  push_services filters group host port services (new_array result),
  rw (e, parse_node_register_info) refl,
  λ q.
      find-push_services filters group host port services (new_array result) q
      ∙ ap (λ b. b || names filters group host port services q) (new_array-members result q),
)
