-- ===== src/ServiceConf/Examples.antt =====
-- Tests of the keys, and the theorems on keys and differences at concrete inputs.
use ddmframework.Common.{◌↔◌, ◌++◌, true, List, ◌||◌, ℕ, ◌≡◌, refl, [], ◌∷◌, none, some, arith, Key}
use ddmframework.Decimal.{print}
use ddmframework.Url.{codes}
use ddmframework.ServiceConf.{
  service_resource_construct_key, service_key_len, ServiceInfo, RegisterInfo, normal, node_key_len,
  node_resource_construct_key, provider_construct_key, diff_register_info,
}
use ddmframework.ServiceConf.Keys.{service_resource_construct_key_lem}
use ddmframework.ServiceConf.Registration.{
  Document, registration, parse_node_register_info, names, parse_node_register_info_lem,
}
use ddmframework.ServiceConf.Diff.{apply_diff, changes, members, diff_register_info_lem}

node_key_test :
    node_resource_construct_key (codes "10.0.0.1") 8080 node_key_len ≡ codes "10.0.0.1#8080"
unfolding node_resource_construct_key print
node_key_test = refl

service_resource_construct_key_lem_example :
    let key = λ (g s v : List ℕ). service_resource_construct_key g s v service_key_len in
    (key (codes "pay") (codes "bill") (codes "1.0")
      ≡ codes "pay" ++ b'#' ∷ (codes "bill" ++ b'#' ∷ codes "1.0"))
    × (key (codes "pay") (codes "bil") (codes "l1.0")
        ≡ codes "pay" ++ b'#' ∷ (codes "bil" ++ b'#' ∷ codes "l1.0"))
    × ((key (codes "pay") (codes "bill") (codes "1.0")
          ≡ key (codes "pay") (codes "bil") (codes "l1.0"))
        ↔ ((codes "pay" ≡ codes "pay")
            × (codes "bill" ≡ codes "bil")
            × (codes "1.0" ≡ codes "l1.0")))
service_resource_construct_key_lem_example =
    service_resource_construct_key_lem (codes "pay") (codes "bill") (codes "1.0") (codes "pay")
      (codes "bil") (codes "l1.0") (omega arith, omega arith, omega arith, omega arith, omega arith)
      (omega arith, omega arith, omega arith, omega arith, omega arith)

abbrev instance_at : ℕ → RegisterInfo
instance_at port = record {
  srv_info = record {
    group_value = codes "pay";
    service_value = codes "bill";
    version_value = codes "1.0";
  };
  host_value = codes "10.0.0.1";
  port_value = port;
  status = normal;
}

-- A group of 49 letters, the longest that its field holds.
abbrev long_key : Key
long_key = codes "/ggggggggggggggggggggggggggggggggggggggggggggggggg/providers"

long_key_test :
    provider_construct_key (codes "ggggggggggggggggggggggggggggggggggggggggggggggggg") 100
    ≡ long_key
unfolding provider_construct_key
long_key_test = refl

-- From ports 80 and 81 to ports 81 and 82.
diff_register_info_lem_example :
    apply_diff
      (changes (
        diff_register_info
          (some (instance_at 80 ∷ instance_at 81 ∷ []))
          (some (instance_at 81 ∷ instance_at 82 ∷ []))))
      (members (some (instance_at 80 ∷ instance_at 81 ∷ [])))
      (instance_at 80)
    ≡ members (some (instance_at 81 ∷ instance_at 82 ∷ [])) (instance_at 80)
diff_register_info_lem_example =
    diff_register_info_lem (some (instance_at 80 ∷ instance_at 81 ∷ []))
      (some (instance_at 81 ∷ instance_at 82 ∷ [])) (instance_at 80)

-- A registration of one service, in its own encoding.
abbrev reader : List ℕ → Document
reader content = registration (codes "10.0.0.1") 80 (codes "pay") ((codes "bill", codes "1.0") ∷ [])

abbrev declared : List ServiceInfo
declared =
    record { group_value = codes "pay"; service_value = codes "bill"; version_value = codes "1.0" }
    ∷ []

parse_node_register_info_lem_example :
    (after : List RegisterInfo) × (parse_node_register_info reader declared none (codes "node")
      ≡ some (some after, true))
    × ((q : RegisterInfo)
        → members (some after) q ≡ (
            members none q
            || names declared
                (codes "pay")
                (codes "10.0.0.1")
                80
                ((codes "bill", codes "1.0") ∷ [])
                q))
parse_node_register_info_lem_example =
    parse_node_register_info_lem reader declared none (codes "node") (codes "10.0.0.1") 80
      (codes "pay") ((codes "bill", codes "1.0") ∷ []) refl
