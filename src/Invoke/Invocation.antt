-- ===== src/Invoke/Invocation.antt =====
-- soaagent/invoke_stub.c: `invoke_service` on the tables.
use ddmframework.Common.{
  ℕ, ◌≤◌, ◌≡◌, ◌≢◌, refl, sym, ap, ◌∙◌, List, some, arith, inl, inr, Key, has, str_eq, str_eq_iff,
  bool_ext, Bool-cases, Option-cases, table_find, table_update, table_find-update,
  table_update-IsTable,
}
use ddmframework.Clock.{Timeval}
use ddmframework.Conn.{Store}
use ddmframework.ConnPool.{Pool}
use ddmframework.ConnPool.Invariant.{Inv, Inv-later}
use ddmframework.StringArray.{StringArray, Next, null, found, out_of_range, string_array_next}
use ddmframework.StringArray.RoundRobin.{string_array_next_range}
use ddmframework.ServiceResource.{
  Services, service_key, uses, service_resource_get, service_resource_require_node_key,
}
use ddmframework.ServiceResource.Members.{serves, IsServices, uses_of_serves, serves_of_uses}
use ddmframework.NodeResource.{Nodes, node_resource_get_by_key}
use ddmframework.Resource.{Resources}
use ddmframework.Resource.Sync.{InStep, is_some}
use ddmframework.Invoke.Call.{
  call_chosen, Peer, Outcome, not_invoked, call_on_node, copy_node_key, invoke_service,
}
use ddmframework.Invoke.Service.{call_on_pool_lem}

-- Every pool of the table has its invariant.
pub record PoolsSound (nodes : Nodes) : Type 0 where
  pub pools :
      (key : Key) (pool : Pool) → table_find key nodes.table ≡ some pool → Inv nodes.store pool

next_strs : (a : StringArray) → (string_array_next a).0.strs ≡ a.strs
unfolding string_array_next
next_strs a = ground arith

-- Handing a node key out changes no provider.
module _ (services : Services) (key : Key) (item item' : StringArray) (v : IsServices services)
    (at : table_find key services ≡ some item) (same : item'.strs ≡ item.strs) where
  serves-turned : (k n : Key) → serves k n (table_update key item' services) ≡ serves k n services
  unfolding serves
  serves-turned k n = elim (Bool-cases (str_eq key k)) [
    | inl e ↦
        let here : table_find k services ≡ some item =
          ap (λ (j : Key). table_find j services) (sym ((str_eq_iff key k).0 e)) ∙ at in
        let there : table_find k (table_update key item' services) ≡ some item' =
          table_find-update key k item' item services at ∙ rw e refl in
        rw (here, there, serves) (ap (has n) same)
    | inr e ↦
        let there : table_find k (table_update key item' services) ≡ table_find k services =
          table_find-update key k item' item services at ∙ rw e refl in
        rw (there, serves) refl
  ]

  turned-IsServices : IsServices (table_update key item' services)
  turned-IsServices = record {
    table = table_update-IsTable key item' services v.table;
    items = λ k other e. elim (Bool-cases (str_eq key k)) [
      | inl hit ↦
          ground (arith, table_find-update key k item' item services at, v.items key item at)
      | inr miss ↦ v.items k other (ground (arith, table_find-update key k item' item services at))
    ];
  }

  uses-turned : (n : Key) → uses n (table_update key item' services) ≡ uses n services
  uses-turned n =
      bool_ext _ _
        (λ h.
          let (k, e) =
            serves_of_uses (table_update key item' services) n turned-IsServices.table h in
          uses_of_serves services k n (sym (serves-turned k n) ∙ e))
        (λ h.
          let (k, e) = serves_of_uses services n v.table h in
          uses_of_serves (table_update key item' services) k n (serves-turned k n ∙ e))

-- One pool of the table is replaced; the store has grown.
module _ (nodes : Nodes) (node : Key) (pool pool' : Pool) (st : Store) (v : PoolsSound nodes)
    (at : table_find node nodes.table ≡ some pool) (sound : Inv st pool')
    (grown : nodes.store.next_conn ≤ st.next_conn) where
  replaced-PoolsSound :
      PoolsSound (record nodes { table = table_update node pool' nodes.table; store = st })
  replaced-PoolsSound = record {
    pools = λ k p e. elim (Bool-cases (str_eq node k)) [
      | inl hit ↦
          let here : table_find k (table_update node pool' nodes.table) ≡ some pool' =
            table_find-update node k pool' pool nodes.table at ∙ rw hit refl in
          let same : pool' ≡ p = cc (here, e) in rw⁻¹ same sound
      | inr miss ↦
          let there : table_find k (table_update node pool' nodes.table)
              ≡ table_find k nodes.table =
            table_find-update node k pool' pool nodes.table at ∙ rw miss refl in
          Inv-later (v.pools k p (sym there ∙ e)) grown
    ];
  }

  replaced-known :
      (k : Key)
      → is_some (table_find k (table_update node pool' nodes.table))
        ≡ is_some (table_find k nodes.table)
  unfolding is_some
  replaced-known k = elim (Bool-cases (str_eq node k)) [
    | inl hit ↦
        let here : table_find k nodes.table ≡ some pool =
          ap (λ (j : Key). table_find j nodes.table) (sym ((str_eq_iff node k).0 hit)) ∙ at in
        let there : table_find k (table_update node pool' nodes.table) ≡ some pool' =
          table_find-update node k pool' pool nodes.table at ∙ rw hit refl in
        rw (here, there) refl
    | inr miss ↦
        let there : table_find k (table_update node pool' nodes.table) ≡ table_find k nodes.table =
          table_find-update node k pool' pool nodes.table at ∙ rw miss refl in
        rw there refl
  ]

-- `invoke_service` from the node key on.
call_on_node_lem :
    (peer : ℕ → Peer) (now : Timeval) (r : Resources) (counter : ℕ) (node : Key) (req_body : List ℕ)
    → InStep r
    → PoolsSound r.nodes
    → (counter' : ℕ) × (r' : Resources) × (outcome : Outcome) × (call_on_node peer now r counter
          node req_body
        ≡ some (counter', r', outcome))
      × InStep r'
      × PoolsSound r'.nodes
      × (r'.services ≡ r.services)
unfolding call_on_node node_resource_get_by_key
call_on_node_lem peer now r counter node req_body v sound =
    elim (Option-cases (table_find node r.nodes.table)) [
      | inl e ↦ (counter, r, not_invoked, rw (e, call_on_node) refl, v, sound, refl)
      | inr (pool, e) ↦
          let (counter', st, pool', outcome, run, inv, grown, back, ends) =
            call_on_pool_lem peer now counter req_body (sound.pools node pool e) in
          (
            counter',
            record r {
              nodes = record r.nodes { table = table_update node pool' r.nodes.table; store = st };
            },
            outcome,
            rw (e, run, call_on_node) refl,
            record {
              services = v.services;
              nodes = table_update-IsTable node pool' r.nodes.table v.nodes;
              same = λ n. replaced-known r.nodes node pool pool' st sound e inv grown n ∙ v.same n;
            },
            replaced-PoolsSound r.nodes node pool pool' st sound e inv grown,
            refl,
          )
    ]

-- What the choice of a node key leaves of the tables.
require_node_key_lem :
    (r : Resources) (group service version : List ℕ)
    → InStep r
    → (services : Services) × (next : Next) × (service_resource_require_node_key r.services group
          service version
        ≡ (services, next))
      × (next ≢ out_of_range)
      × InStep (record r { services = services })
      × ((k n : Key) → serves k n services ≡ serves k n r.services)
unfolding service_resource_require_node_key service_resource_get
require_node_key_lem r group service version v =
    let key = service_key group service version in
    elim (Option-cases (table_find key r.services)) [
      | inl e ↦ (
        r.services,
        null,
        rw (e, service_resource_require_node_key, service_resource_get) refl,
        (λ h. cc),
        v,
        λ k n. refl,
      )
      | inr (item, e) ↦
          let item' = (string_array_next item).0 in
          (
            table_update key item' r.services,
            (string_array_next item).1,
            rw (e, service_resource_require_node_key, service_resource_get) refl,
            (string_array_next_range item).0,
            record {
              services = turned-IsServices r.services key item item' v.services e (next_strs item);
              nodes = v.nodes;
              same = λ n.
                  v.same n
                  ∙ sym (uses-turned r.services key item item' v.services e (next_strs item) n);
            },
            serves-turned r.services key item item' v.services e (next_strs item),
          )
    ]

-- A call of a service, whatever its peer and the kernel do, does not fault: no node key is read out
-- of range and no list of connections breaks. The pools keep their invariants and stay in step with
-- the services, and each service keeps its providers.
pub invoke_service_lem :
    (peer : ℕ → Peer) (now : Timeval) (r : Resources) (counter : ℕ)
    (group service version req_body : List ℕ)
    → InStep r
    → PoolsSound r.nodes
    → (counter' : ℕ) × (r' : Resources) × (outcome : Outcome) × (invoke_service peer now r counter
          group service version req_body
        ≡ some (counter', r', outcome))
      × InStep r'
      × PoolsSound r'.nodes
      × ((k n : Key) → serves k n r'.services ≡ serves k n r.services)
unfolding invoke_service call_chosen
invoke_service_lem peer now r counter group service version req_body v sound =
    let (services, next, chosen, in_range, v', same) =
      require_node_key_lem r group service version v in
    by_choice services next chosen in_range v' same
  where
    by_choice :
        (services : Services) (next : Next)
        → service_resource_require_node_key r.services group service version ≡ (services, next)
        → next ≢ out_of_range
        → InStep (record r { services = services })
        → ((k n : Key) → serves k n services ≡ serves k n r.services)
        → (counter' : ℕ) × (r' : Resources) × (outcome : Outcome) × (invoke_service peer now r
              counter group service version req_body
            ≡ some (counter', r', outcome))
          × InStep r'
          × PoolsSound r'.nodes
          × ((k n : Key) → serves k n r'.services ≡ serves k n r.services)
    by_choice services null chosen in_range v' same = (
      counter,
      record r { services = services },
      not_invoked,
      ap (call_chosen peer now r counter req_body) chosen ∙ refl,
      v',
      sound,
      same,
    )
    by_choice services (found key) chosen in_range v' same =
        let (counter', r', outcome, run, v'', sound', kept) =
          call_on_node_lem peer now (record r { services = services }) counter (copy_node_key key)
            req_body v' sound in
        (
          counter',
          r',
          outcome,
          ap (call_chosen peer now r counter req_body) chosen ∙ run,
          v'',
          sound',
          λ k n. ap (λ (t : Services). serves k n t) kept ∙ same k n,
        )
    by_choice services out_of_range chosen in_range v' same = absurd (in_range refl)
