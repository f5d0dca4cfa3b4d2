-- ===== src/Invoke/ShutdownExamples.antt =====
-- The theorem on the end of the stub, at an agent with two pools, one with a lent connection.
use ddmframework.Common.{ℕ, ◌≤◌, some, ◌+◌, ◌≡◌, refl, true, false, [], ◌∷◌, arith, count, remove}
use ddmframework.Url.{codes}
use ddmframework.ConnPool.Sockets.{fds}
use ddmframework.ConnPool.Examples.{store, pool}
use ddmframework.Invoke.Agent.{Agent}
use ddmframework.Invoke.Shutdown.{
  log_fds, all_closable, closable, invoke_stub_destroy, invoke_stub_destroy_lem,
}

abbrev two_pools : Agent
two_pools = record {
  resources = record {
    nodes = record {
      table =
          (codes "10.0.0.2#80", pool (0 ∷ []) (2 ∷ []))
          ∷ (codes "10.0.0.1#80", pool (1 ∷ []) [])
          ∷ [];
      store = store true;
      leaving = [];
    };
    services = [];
  };
  mapping = [];
  service_filters = [];
  watchers = codes "/pay/providers" ∷ [];
  watchers_block = 0;
  config_file_last_modified = 7;
}

-- The session's socket is 30, and its log file 31.
abbrev serving : Agent
serving = record two_pools {
  resources = record two_pools.resources {
    nodes = record two_pools.resources.nodes {
      store = record (store true) { open_fds = 30 ∷ 31 ∷ (store true).open_fds };
    };
  };
}

-- The connection that is idle beside a lent one stays open.
closes_test :
    (invoke_stub_destroy (remove 30) (some 31) (serving, true)).0.resources.nodes.store.open_fds
    ≡ 10 ∷ 12 ∷ []
unfolding invoke_stub_destroy remove
closes_test = refl

owns :
    (g : ℕ)
    → count g (fds serving.resources.nodes.store (all_closable serving.resources.nodes.table))
        + (count g (log_fds (some 31)) + count g (30 ∷ []))
      ≤ count g serving.resources.nodes.store.open_fds
unfolding count fds all_closable closable log_fds
owns g = ground arith

closes :
    (g : ℕ)
    → count g (remove 30 serving.resources.nodes.store.open_fds) + count g (30 ∷ [])
      ≡ count g serving.resources.nodes.store.open_fds
unfolding count remove
closes g = ground arith

invoke_stub_destroy_lem_example :
    (a' : Agent) × (invoke_stub_destroy (remove 30) (some 31) (serving, true) ≡ (a', false))
    × (invoke_stub_destroy (remove 30) (some 31) (a', false) ≡ (a', false))
    × (a'.resources.nodes.table ≡ [])
    × (a'.resources.services ≡ [])
    × (a'.mapping ≡ [])
    × (a'.service_filters ≡ [])
    × (a'.watchers ≡ [])
    × (count 11 a'.resources.nodes.store.open_fds
          + (count 11
                (fds serving.resources.nodes.store (all_closable serving.resources.nodes.table))
              + (count 11 (log_fds (some 31)) + count 11 (30 ∷ [])))
        ≡ count 11 serving.resources.nodes.store.open_fds)
invoke_stub_destroy_lem_example =
    invoke_stub_destroy_lem (remove 30) (some 31) (30 ∷ []) serving 11 closes owns
