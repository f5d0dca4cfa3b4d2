-- ===== src/Invoke/Shutdown.antt =====
-- soaagent/invoke_stub.c: the end of the stub, with the destroy functions of the tables in
-- soaagent/resource_mgt.c and soaagent/service_conf.c.
use ddmframework.Common.{
  Option, none, some, remove, count-remove, ◌≤◌, ◌<◌, ℕ, ◌+◌, ◌≡◌, refl, ap, ◌∙◌, inl, inr, Bool,
  true, false, List, [], ◌∷◌, ◌++◌, arith, Key, List-cases, count, count-append,
}
use ddmframework.Conn.{Store}
use ddmframework.ConnPool.{Pool, pool_destroy}
use ddmframework.ConnPool.Sockets.{
  fds, OwnsSockets, pool_destroy_lem, fds-pool_destroy, pool_destroy_lent,
}
use ddmframework.ServiceConf.{ServiceInfo, RegisterMapping}
use ddmframework.ServiceResource.{Services}
use ddmframework.NodeResource.{Nodes, destroy_pools, node_resource_destroy}
use ddmframework.Invoke.Agent.{Agent}

unfoldable pub service_resource_destroy : Services → Services
service_resource_destroy services = []

unfoldable pub register_mapping_destroy : RegisterMapping → RegisterMapping
register_mapping_destroy mapping = []

unfoldable pub service_filter_destroy : List ServiceInfo → List ServiceInfo
service_filter_destroy filters = []

-- soaagent/zk_handle.c: the descriptors that are open after `zookeeper_close`, a parameter, has
-- closed the session and the code its log file, if one was opened.
unfoldable pub fini_zk_handle : (List ℕ → List ℕ) → (log_file : Option ℕ) → List ℕ → List ℕ
fini_zk_handle zookeeper_close none open_fds = zookeeper_close open_fds
fini_zk_handle zookeeper_close (some log_file) open_fds = remove log_file (zookeeper_close open_fds)

-- The nodes after the end of the session.
unfoldable pub close_session : (List ℕ → List ℕ) → (log_file : Option ℕ) → Nodes → Nodes
unfolding fini_zk_handle
close_session zookeeper_close log_file nodes = record nodes {
  store = record nodes.store {
    open_fds = fini_zk_handle zookeeper_close log_file nodes.store.open_fds;
  };
}

-- The flag is `g_inited`.
unfoldable pub invoke_stub_destroy :
    (List ℕ → List ℕ) → (log_file : Option ℕ) → Agent × Bool → Agent × Bool
unfolding node_resource_destroy service_resource_destroy register_mapping_destroy
    service_filter_destroy close_session
invoke_stub_destroy zookeeper_close log_file (a, false) = (a, false)
invoke_stub_destroy zookeeper_close log_file (a, true) = (
  record a {
    resources = record {
      nodes = node_resource_destroy (close_session zookeeper_close log_file a.resources.nodes);
      services = service_resource_destroy a.resources.services;
    };
    mapping = register_mapping_destroy a.mapping;
    service_filters = service_filter_destroy a.service_filters;
    watchers = [];
  },
  false,
)

-- The idle connections of a pool in which nothing is lent.
unfoldable pub closable : Pool → List ℕ
closable pool = elim pool.used_conn_list [ [] ↦ pool.unused_conn_list | c ∷ lent ↦ [] ]

unfoldable pub all_closable : List (Key × Pool) → List ℕ
unfolding closable
all_closable [] = []
all_closable ((key, pool) ∷ rest) = closable pool ++ all_closable rest

fds-append : (st : Store) (ps qs : List ℕ) → fds st (ps ++ qs) ≡ fds st ps ++ fds st qs
unfolding fds
fds-append st [] qs = refl
fds-append st (p ∷ ps) qs = ap (◌∷◌ (st.conns p).sock_fd) (fds-append st ps qs)

closable_idle : (pool : Pool) → pool.used_conn_list ≡ [] → closable pool ≡ pool.unused_conn_list
unfolding closable
closable_idle pool e = rw e refl

closable_lent :
    (pool : Pool) (c : ℕ) (cs : List ℕ) → pool.used_conn_list ≡ c ∷ cs → closable pool ≡ []
unfolding closable
closable_lent pool c cs e = rw e refl

pool_destroy_closes :
    (st : Store) (pool : Pool) (fd : ℕ)
    → OwnsSockets st (closable pool)
    → count fd (pool_destroy st pool).0.open_fds + count fd (fds st (closable pool))
      ≡ count fd st.open_fds
unfolding fds count
pool_destroy_closes st pool fd own = elim (List-cases pool.used_conn_list) [
  | inl e ↦
      let own' : OwnsSockets st pool.unused_conn_list = rw (closable_idle pool e) at own in
      rw (closable_idle pool e) (((pool_destroy_lem st pool own').1 (ground (arith, e))).2 fd)
  | inr (c, cs, e) ↦
      rw (closable_lent pool c cs e, pool_destroy_lent st pool (ground (arith, e))) (omega arith)
]

fds-destroy_pools :
    (st : Store) (table : List (Key × Pool)) (ps : List ℕ)
    → fds (destroy_pools st table) ps ≡ fds st ps
unfolding destroy_pools
fds-destroy_pools st [] ps = refl
fds-destroy_pools st ((key, pool) ∷ rest) ps =
    fds-pool_destroy (destroy_pools st rest) pool ps ∙ fds-destroy_pools st rest ps

destroy_pools_lem :
    (st : Store) (table : List (Key × Pool)) (fd : ℕ)
    → OwnsSockets st (all_closable table)
    → count fd (destroy_pools st table).open_fds + count fd (fds st (all_closable table))
      ≡ count fd st.open_fds
unfolding destroy_pools all_closable count fds
destroy_pools_lem st [] fd own = omega arith
destroy_pools_lem st ((key, pool) ∷ rest) fd own =
    let split : (g : ℕ)
        → count g (fds st (closable pool ++ all_closable rest))
          ≡ count g (fds st (closable pool)) + count g (fds st (all_closable rest)) =
      λ g.
        rw (fds-append st (closable pool) (all_closable rest))
          (count-append g (fds st (closable pool)) (fds st (all_closable rest))) in
    let owns_rest : OwnsSockets st (all_closable rest) = λ g. omega (arith, split g, own g) in
    let later : (g : ℕ)
        → count g (destroy_pools st rest).open_fds + count g (fds st (all_closable rest))
          ≡ count g st.open_fds =
      λ g. destroy_pools_lem st rest g owns_rest in
    let one = pool_destroy_closes (destroy_pools st rest) pool fd λ g.
      rw (fds-destroy_pools st rest (closable pool)) (omega (arith, split g, own g, later g)) in
    omega (arith, split fd, later fd, rw (fds-destroy_pools st rest (closable pool)) at one)

-- The log file of the session, if it was opened.
unfoldable pub log_fds : Option ℕ → List ℕ
log_fds none = []
log_fds (some log_file) = log_file ∷ []

fini_zk_handle_lem :
    (zookeeper_close : List ℕ → List ℕ) (log_file : Option ℕ) (session open_fds : List ℕ)
    → ((g : ℕ) → count g (zookeeper_close open_fds) + count g session ≡ count g open_fds)
    → ((g : ℕ) → count g (log_fds log_file) + count g session ≤ count g open_fds)
    → (fd : ℕ)
    → count fd (fini_zk_handle zookeeper_close log_file open_fds)
        + (count fd (log_fds log_file) + count fd session)
      ≡ count fd open_fds
unfolding fini_zk_handle log_fds count
fini_zk_handle_lem zookeeper_close none session open_fds closes own fd = omega (arith, closes fd)
fini_zk_handle_lem zookeeper_close (some log_file) session open_fds closes own fd =
    let there : 0 < count log_file (zookeeper_close open_fds) =
      ground (arith, closes log_file, own log_file) in
    ground (arith, closes fd, count-remove fd log_file (zookeeper_close open_fds) there)

fds-conns :
    (st : Store) (open_fds ps : List ℕ) → fds (record st { open_fds = open_fds }) ps ≡ fds st ps
unfolding fds
fds-conns st open_fds [] = refl
fds-conns st open_fds (p ∷ ps) = ap (◌∷◌ (st.conns p).sock_fd) (fds-conns st open_fds ps)

-- `invoke_stub_destroy` leaves an agent without pools, services, registrations and declarations,
-- that is not ready any more, and a second call changes nothing. It closes exactly the sockets of
-- the session of zookeeper, the log file of that session, if it was opened, and the sockets of the
-- idle connections of the pools in which nothing is lent: every other descriptor stays open. What
-- it closes is open and no descriptor is two of these, and `zookeeper_close` closes the sockets of
-- the session and no others.
pub invoke_stub_destroy_lem :
    (zookeeper_close : List ℕ → List ℕ) (log_file : Option ℕ) (session : List ℕ) (a : Agent)
    (fd : ℕ)
    → let st = a.resources.nodes.store in
      let idle = fds st (all_closable a.resources.nodes.table) in
      ((g : ℕ) → count g (zookeeper_close st.open_fds) + count g session ≡ count g st.open_fds)
      → ((g : ℕ)
          → count g idle + (count g (log_fds log_file) + count g session) ≤ count g st.open_fds)
      → (a' : Agent) × (invoke_stub_destroy zookeeper_close log_file (a, true) ≡ (a', false))
        × (invoke_stub_destroy zookeeper_close log_file (a', false) ≡ (a', false))
        × (a'.resources.nodes.table ≡ [])
        × (a'.resources.services ≡ [])
        × (a'.mapping ≡ [])
        × (a'.service_filters ≡ [])
        × (a'.watchers ≡ [])
        × (count fd a'.resources.nodes.store.open_fds
              + (count fd idle + (count fd (log_fds log_file) + count fd session))
            ≡ count fd st.open_fds)
unfolding invoke_stub_destroy node_resource_destroy close_session
invoke_stub_destroy_lem zookeeper_close log_file session a fd closes own =
    let st = a.resources.nodes.store in
    let table = a.resources.nodes.table in
    let left = fini_zk_handle zookeeper_close log_file st.open_fds in
    let ended = record st { open_fds = left } in
    let fini : (g : ℕ)
        → count g left + (count g (log_fds log_file) + count g session) ≡ count g st.open_fds =
      fini_zk_handle_lem zookeeper_close log_file session st.open_fds closes
        (λ g. omega (arith, own g)) in
    let same = fds-conns st left (all_closable table) in
    let owns : OwnsSockets ended (all_closable table) =
      λ g. rw same (omega (arith, own g, fini g)) in
    let pools = rw same at (destroy_pools_lem ended table fd owns) in
    (
      (invoke_stub_destroy zookeeper_close log_file (a, true)).0,
      refl,
      refl,
      refl,
      refl,
      refl,
      refl,
      refl,
      omega (arith, pools, fini fd),
    )
