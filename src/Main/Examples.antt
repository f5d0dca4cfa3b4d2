-- ===== src/Main/Examples.antt =====
-- The theorems on the start and the signals, with a configuration that gives every item.
use ddmframework.Common.{
  ℕ, ◌≡◌, refl, true, false, List, [], ◌∷◌, Option, none, some, Key, map, str_eq, if◌then◌else◌,
}
use ddmframework.Url.{codes}
use ddmframework.ConnPool.{pool_init}
use ddmframework.Invoke.Agent.{Context, Agent, child_event, connected}
use ddmframework.ConnPool.Examples.{clock}
use ddmframework.Invoke.CallExamples.{answers}
use ddmframework.Server.Startup.{Running, first_acceptor}
use ddmframework.Invoke.Examples.{world, new_agent, no_resources}
use ddmframework.Invoke.RefreshExamples.{file, children}
use ddmframework.Directories.Examples.{table_system, Paths, make, there, is_some}
use ddmframework.Server.ServedExamples.{all_well}
use ddmframework.Main.Daemon.{limit, in_child}
use ddmframework.Main.{
  Surroundings, blocked_signals, started_thread, wrote_pid, config_opt, help_opt, main, exited,
  faulted, serves, Ending, Run, sigusr2,
}
use ddmframework.Main.Lifetime.{accepted, Happening, called, signalled, announced}

-- A dictionary with an address; every other item is the default.
abbrev items : Key → Option (List ℕ)
items name =
    if str_eq (codes "server:unix_sock_path") name then some (codes "127.0.0.1:88") else none

abbrev around : Surroundings
around = record {
  load = λ path. some items;
  home = some (codes "/opt");
  daemon = record {
    getrlimit = some (limit 256);
    first_fork = in_child;
    sigaction = true;
    second_fork = in_child;
    chdir = λ cwd. true;
  };
  zlog_init = λ path. true;
  zlog_category = true;
  pthread_sigmask = true;
  signal_thread = true;
  pid = 42;
  zookeeper_init = λ addrs. true;
  zoo_exists = λ path. true;
  checker_thread = true;
  store = no_resources.nodes.store;
  children = children;
  declarations = λ path. file;
  server = all_well;
}

-- The agent serves: the thread for signals, the checker of the pools and ten workers have started.
serves_test :
    (main table_system world around [] (config_opt (codes "core.conf") ∷ [])).0
    ≡ blocked_signals
      ∷ started_thread
      ∷ wrote_pid (codes "./logs/soa_proxy.pid")
      ∷ started_thread
      ∷ map {A = ℕ} (λ i. started_thread) (0 ∷ 1 ∷ 2 ∷ 3 ∷ 4 ∷ 5 ∷ 6 ∷ 7 ∷ 8 ∷ 9 ∷ [])
unfolding main make there is_some str_eq pool_init
serves_test = refl

help_test :
    main table_system world around [] (config_opt (codes "core.conf") ∷ help_opt ∷ [])
    ≡ ([], exited)
unfolding main
help_test = refl

abbrev no_workers : Running
no_workers = record { acceptor = first_acceptor 0; workers = [] }

-- The parts of a run that serves.
unfoldable agent_of : Ending table_system world around → Agent
agent_of (serves fs a running) = a
agent_of exited = new_agent
agent_of faulted = new_agent

unfoldable files_of : Ending table_system world around → Paths
files_of (serves fs a running) = fs
files_of exited = []
files_of faulted = []

unfoldable running_of : Ending table_system world around → Running
running_of (serves fs a running) = running
running_of exited = no_workers
running_of faulted = no_workers

abbrev the_run : Run table_system world around
the_run = main table_system world around [] (config_opt (codes "core.conf") ∷ [])

abbrev first_context : Context
first_context = record { block = 0; index = 0 }

-- A child of the group, a call, a connection, and the signal that asks for a refresh.
abbrev a_day : List Happening
a_day =
    announced children file false child_event connected first_context
    ∷ called answers (clock 200) 7 (codes "pay") (codes "bill") (codes "1.0") (codes "x")
    ∷ accepted (some 9)
    ∷ signalled children file sigusr2
    ∷ []
