-- ===== src/Invoke/Examples.antt =====
-- The theorem on changed registrations: a group that was unknown gets its first provider.
use ddmframework.ServiceConf.Registration.{registration}
use ddmframework.Invoke.Agent.{Agent, World}
use ddmframework.Common.{◌≡◌, refl, true, false, [], ◌∷◌, none, table_find}
use ddmframework.Url.{codes}
use ddmframework.Clock.{Timeval}
use ddmframework.Conn.{Conn}
use ddmframework.ServiceConf.{provider_construct_key, RegisterInfo, normal, register_mapping_find}
use ddmframework.ServiceResource.{uses}
use ddmframework.NodeResource.{PoolConfig}
use ddmframework.Resource.{Resources}
use ddmframework.Resource.Sync.{InStep, is_some}

abbrev config : PoolConfig
config = record {
  timeout_secs = 3;
  init_conn_num = 1;
  min_conn_num = 1;
  max_conn_num = 4;
  max_idle_secs = 60;
}

abbrev clock : Timeval
clock = record { tv_sec = 100; tv_usec = 0 }

abbrev blank : Conn
blank = record {
  sock_fd = 0;
  host = [];
  port = 0;
  timeout_secs = 0;
  last_used_time = clock;
  last_check_time = clock;
  connected = false;
  error_occured = false;
}

abbrev pub no_resources : Resources
no_resources = record {
  nodes = record {
    table = [];
    store = record {
      conns = λ p. blank;
      next_conn = 0;
      attempt = λ i. record { fd = i; accepted = true; at = clock };
      attempts = 0;
      open_fds = [];
    };
    leaving = [];
  };
  services = [];
}

pub no_resources-InStep : InStep no_resources
unfolding table_find is_some uses
no_resources-InStep = record {
  services = record { table = tt; items = λ key item e. absurd (cc) };
  nodes = tt;
  same = λ node. refl;
}

abbrev provider : RegisterInfo
provider = record {
  srv_info = record {
    group_value = codes "pay";
    service_value = codes "bill";
    version_value = codes "1.0";
  };
  host_value = codes "10.0.0.1";
  port_value = 80;
  status = normal;
}

nothing_seen : register_mapping_find [] (codes "/pay/providers") ≡ none
unfolding register_mapping_find table_find
nothing_seen = refl

-- A world in which every child registers that provider.
abbrev pub world : World
world = record {
  moves = λ n. false;
  cjson = λ content.
      registration (codes "10.0.0.1") 80 (codes "pay") ((codes "bill", codes "1.0") ∷ []);
  config = config;
  started = λ i. true;
}

abbrev pub new_agent : Agent
new_agent = record {
  resources = no_resources;
  mapping = [];
  service_filters = provider.srv_info ∷ [];
  watchers = [];
  watchers_block = 0;
  config_file_last_modified = 0;
}

pub pay_key : provider_construct_key (codes "pay") 10852 ≡ codes "/pay/providers"
unfolding provider_construct_key
pay_key = refl
