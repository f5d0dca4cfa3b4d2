-- ===== src/Resource/Examples.antt =====
-- The theorems on resources where one service has one provider.
use ddmframework.ConnPool.{Pool}
use ddmframework.Common.{
  ◌≡◌, refl, true, false, not, ◌&&◌, ◌||◌, [], some, arith, str_eq, Key, table_find,
}
use ddmframework.Url.{codes}
use ddmframework.Clock.{Timeval}
use ddmframework.Conn.{Conn}
use ddmframework.ServiceResource.{service_key, node_key, uses}
use ddmframework.ServiceResource.Members.{serves}
use ddmframework.NodeResource.{PoolConfig}
use ddmframework.Resource.{Resources, resource_add, resource_delete}
use ddmframework.Resource.Sync.{InStep, is_some, resource_add-InStep, resource_delete-InStep}

abbrev config : PoolConfig
config = record {
  timeout_secs = 3;
  init_conn_num = 1;
  min_conn_num = 1;
  max_conn_num = 4;
  max_idle_secs = 60;
}

abbrev clock : Timeval
clock = record { tv_sec = 100; tv_usec = 0 }

abbrev blank : Conn
blank = record {
  sock_fd = 0;
  host = [];
  port = 0;
  timeout_secs = 0;
  last_used_time = clock;
  last_check_time = clock;
  connected = false;
  error_occured = false;
}

abbrev no_resources : Resources
no_resources = record {
  nodes = record {
    table = [];
    store = record {
      conns = λ p. blank;
      next_conn = 0;
      attempt = λ i. record { fd = i; accepted = true; at = clock };
      attempts = 0;
      open_fds = [];
    };
    leaving = [];
  };
  services = [];
}

no_resources-InStep : InStep no_resources
unfolding table_find is_some uses
no_resources-InStep = record {
  services = record { table = tt; items = λ key item e. absurd (cc) };
  nodes = tt;
  same = λ node. refl;
}

resource_add-InStep_example :
    (r : Resources) × (resource_add config no_resources
        (codes "pay")
        (codes "bill")
        (codes "1.0")
        (codes "10.0.0.1")
        80
      ≡ some r)
    × InStep r
    × ((k n : Key)
        → serves k n r.services ≡ (
            serves k n []
            || (str_eq (service_key (codes "pay") (codes "bill") (codes "1.0")) k
                && str_eq (node_key (codes "10.0.0.1") 80) n)))
    × ((n : Key) (pool : Pool)
        → table_find n no_resources.nodes.table ≡ some pool
        → table_find n r.nodes.table ≡ some pool)
resource_add-InStep_example =
    resource_add-InStep config no_resources (codes "pay") (codes "bill") (codes "1.0")
      (codes "10.0.0.1") 80 (omega arith) no_resources-InStep

-- The resources after that addition.
abbrev one_provider : Resources
one_provider = resource_add-InStep_example.0

resource_delete-InStep_example :
    let r' =
      resource_delete one_provider
        (codes "pay")
        (codes "bill")
        (codes "1.0")
        (codes "10.0.0.1")
        80
        true in
    InStep r'
    × ((k n : Key)
        → serves k n r'.services ≡ (
            serves k n one_provider.services
            && not (
                str_eq (service_key (codes "pay") (codes "bill") (codes "1.0")) k
                && str_eq (node_key (codes "10.0.0.1") 80) n)))
resource_delete-InStep_example =
    resource_delete-InStep one_provider (codes "pay") (codes "bill") (codes "1.0")
      (codes "10.0.0.1") 80 true resource_add-InStep_example.2
