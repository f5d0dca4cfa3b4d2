-- ===== src/ServiceConf.antt =====
-- soaagent/service_conf.c and service_conf.h: the keys, the filter of declared services, and the
-- registered instances of services with their differences. A `UT_array` is a list, NULL is `none`.
-- A port is an `int` that is not negative.
pub mod Keys
pub mod Diff
pub mod Mapping
pub mod Registration
mod Examples
use ddmframework.Common.{
  ℕ, ◌-◌, ◌+◌, Bool, true, false, ◌&&◌, ◌||◌, List, [], ◌∷◌, ◌++◌, map, Option, none, some, str_eq,
  ◌==◌, if◌then◌else◌, take, Key, table_find, table_add, table_update,
}
use ddmframework.Decimal.{print}
use ddmframework.Url.{codes}
use ddmframework.Conn.{snprintf_s}

abbrev pub field_host_len : ℕ
field_host_len = 20

abbrev pub field_group_len : ℕ
field_group_len = 50

abbrev pub field_service_len : ℕ
field_service_len = 30

abbrev pub field_version_len : ℕ
field_version_len = 20

abbrev pub service_key_len : ℕ
service_key_len = field_group_len + field_service_len + field_version_len

abbrev pub node_key_len : ℕ
node_key_len = field_host_len + 6

abbrev pub provider_key_len : ℕ
provider_key_len = field_group_len + 10

-- KEY_SEPARATOR
abbrev pub separator : ℕ
separator = b'#'

unfoldable pub node_resource_construct_key : List ℕ → ℕ → (len : ℕ) → Key
node_resource_construct_key host port len = snprintf_s len (host ++ separator ∷ print port)

unfoldable pub service_resource_construct_key : (group service version : List ℕ) (len : ℕ) → Key
service_resource_construct_key group service version len =
    snprintf_s len (group ++ separator ∷ (service ++ separator ∷ version))

unfoldable pub provider_construct_key : List ℕ → (len : ℕ) → Key
provider_construct_key group len = snprintf_s len (b'/' ∷ (group ++ codes "/providers"))

pub record ServiceInfo : Type 0 where
  pub group_value : List ℕ
  pub service_value : List ℕ
  pub version_value : List ℕ

-- 0 means normal, 1 means add, -1 means delete.
pub data Status : Type 0 where
  normal added deleted : Status

pub record RegisterInfo : Type 0 where
  pub srv_info : ServiceInfo
  pub host_value : List ℕ
  pub port_value : ℕ
  pub status : Status

unfoldable pub service_filter_padding : (group service version : List ℕ) → ServiceInfo
service_filter_padding group service version = record {
  group_value = snprintf_s field_group_len group;
  service_value = snprintf_s field_service_len service;
  version_value = snprintf_s field_version_len version;
}

unfoldable pub same_service : ServiceInfo → ServiceInfo → Bool
same_service p srv_info =
    str_eq p.group_value srv_info.group_value
    && str_eq p.service_value srv_info.service_value
    && str_eq p.version_value srv_info.version_value

unfoldable pub service_filter_find : List ServiceInfo → ServiceInfo → Bool
unfolding same_service
service_filter_find [] srv_info = false
service_filter_find (p ∷ filters) srv_info =
    same_service p srv_info || service_filter_find filters srv_info

unfoldable pub service_filter_add : List ServiceInfo → ServiceInfo → List ServiceInfo
unfolding service_filter_find
service_filter_add filters srv_info =
    if service_filter_find filters srv_info then filters else filters ++ srv_info ∷ []

unfoldable pub register_info_padding :
    RegisterInfo → (group service version host : List ℕ) → ℕ → RegisterInfo
unfolding service_filter_padding
register_info_padding reg_info group service version host port = record reg_info {
  srv_info = service_filter_padding group service version;
  host_value = snprintf_s field_host_len host;
  port_value = port;
}

unfoldable pub service_filter_match : List ServiceInfo → RegisterInfo → Bool
unfolding service_filter_find
service_filter_match filters reg_info = service_filter_find filters reg_info.srv_info

-- Two instances are the same whatever their status.
unfoldable pub same_register : RegisterInfo → RegisterInfo → Bool
unfolding same_service
same_register p reg_info =
    same_service p.srv_info reg_info.srv_info
    && str_eq p.host_value reg_info.host_value
    && (p.port_value == reg_info.port_value)

unfoldable pub find_register_info : List RegisterInfo → RegisterInfo → Bool
find_register_info [] reg_info = false
find_register_info (p ∷ result) reg_info =
    same_register p reg_info || find_register_info result reg_info

abbrev pub with_status : Status → RegisterInfo → RegisterInfo
with_status status p = record p { status = status }

unfoldable pub copy_register_info :
    List RegisterInfo → List RegisterInfo → Status → List RegisterInfo
copy_register_info [] dest status = dest
copy_register_info (p ∷ src) dest status =
    copy_register_info src (dest ++ with_status status p ∷ []) status

-- One loop of `diff_register_info`: the instances that the other array lacks, with a status.
unfoldable pub push_missing :
    List RegisterInfo → List RegisterInfo → List RegisterInfo → Status → List RegisterInfo
push_missing [] other result status = result
push_missing (p ∷ array) other result status =
    push_missing array other
      (if find_register_info other p then result else result ++ with_status status p ∷ []) status

unfoldable pub diff_register_info :
    Option (List RegisterInfo) → Option (List RegisterInfo) → Option (List RegisterInfo)
unfolding copy_register_info push_missing
diff_register_info none none = none
diff_register_info (some left) none = some (copy_register_info left [] deleted)
diff_register_info none (some right) = some (copy_register_info right [] added)
diff_register_info (some left) (some right) =
    some (push_missing right left (push_missing left right [] deleted) added)

-- The table from provider keys to arrays; an array may be NULL.
abbrev pub RegisterMapping : Type 0
RegisterMapping = List (Key × Option (List RegisterInfo))

unfoldable pub register_mapping_find_item :
    RegisterMapping → Key → Option (Option (List RegisterInfo))
register_mapping_find_item mapping provider_key = table_find provider_key mapping

unfoldable pub register_mapping_find : RegisterMapping → Key → Option (List RegisterInfo)
unfolding register_mapping_find_item
register_mapping_find mapping provider_key =
    elim (register_mapping_find_item mapping provider_key) [
      | some info_array ↦ info_array
      | none ↦ none
    ]

unfoldable pub register_mapping_put :
    RegisterMapping → Key → Option (List RegisterInfo) → RegisterMapping
unfolding register_mapping_find_item
register_mapping_put mapping provider_key info_array =
    elim (register_mapping_find_item mapping provider_key) [
      | some _ ↦ table_update provider_key info_array mapping
      | none ↦ table_add (snprintf_s provider_key_len provider_key) info_array mapping
    ]
