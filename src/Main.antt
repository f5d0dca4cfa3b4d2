-- ===== src/Main.antt =====
-- soaagent/main.c: the command line, the start of the agent and its signals, with `config_init` of
-- soaagent/conf.c, `log_init` of soaagent/log.c, and `invoke_stub_init` of soaagent/invoke_stub.c with
-- what it starts. The C library, iniparser, zlog, zookeeper and the system are parameters.
pub mod Daemon
pub mod Order
pub mod Start
pub mod Signals
pub mod Lifetime
mod Examples
use ddmframework.Common.{
  ℕ, Bool, true, false, not, List, [], ◌∷◌, ◌++◌, Option, none, some, Key, map, if◌then◌else◌,
}
use ddmframework.Url.{codes}
use ddmframework.Conn.{Store, snprintf_s}
use ddmframework.Decimal.{print}
use ddmframework.Config.{path_max}
use ddmframework.Config.Substitute.{Substituted, wrote, overrun, unfinished, get_config_item}
use ddmframework.ServiceConf.{ServiceInfo, RegisterMapping}
use ddmframework.NodeResource.{Nodes}
use ddmframework.ServiceResource.{Services}
use ddmframework.Invoke.Agent.{Agent, World, ConfigFile, watch_declared_services}
use ddmframework.Directories.{FileSystem, write_pid, make_sure_dir}
use ddmframework.Server.Startup.{
  Answers, Running, Launch, launched, launch_failed, launch_fault, server_startup_multibase,
}
use ddmframework.Main.Daemon.{DaemonAnswers, daemonize}

-- What `getopt` gives, one after the other; another option is its answer to an unknown one.
pub data Opt : Type 0 where
  config_opt : List ℕ → Opt
  daemon_opt : Opt
  help_opt : Opt
  other_opt : Opt

pub data CommandLine : Type 0 where
  wants_help : CommandLine
  wants_start : (is_daemon : Bool) → (config_file_path : Key) → CommandLine

-- An empty path is one that was not given.
unfoldable pub end_of_options : Bool → Key → CommandLine
end_of_options is_daemon [] = wants_help
end_of_options is_daemon (c ∷ path) = wants_start is_daemon (c ∷ path)

-- The loop over the options, which stops at `-h`. No option at all leaves the path empty too.
unfoldable pub read_options : (is_daemon : Bool) → (config_file_path : Key) → List Opt → CommandLine
unfolding end_of_options
read_options is_daemon path [] = end_of_options is_daemon path
read_options is_daemon path (config_opt optarg ∷ opts) =
    read_options is_daemon (snprintf_s path_max optarg) opts
read_options is_daemon path (daemon_opt ∷ opts) = read_options true path opts
read_options is_daemon path (help_opt ∷ opts) = wants_help
read_options is_daemon path (other_opt ∷ opts) = read_options is_daemon path opts

-- What is found when the agent starts.
pub record Surroundings : Type 0 where
  -- `iniparser_load`, with what `iniparser_getstring` finds afterwards, and `getenv`
  pub load : Key → Option (Key → Option (List ℕ))
  pub home : Option (List ℕ)
  pub daemon : DaemonAnswers
  pub zlog_init : Key → Bool
  pub zlog_category : Bool
  pub pthread_sigmask : Bool
  pub signal_thread : Bool
  pub pid : ℕ
  pub zookeeper_init : List ℕ → Bool
  pub zoo_exists : Key → Bool
  pub checker_thread : Bool
  pub store : Store
  pub children : Key → Option (List (List ℕ))
  pub declarations : Key → ConfigFile
  pub server : Answers

-- The events of the start whose order matters.
pub data Event : Type 0 where
  blocked_signals : Event
  started_thread : Event
  wrote_pid : Key → Event

-- `none` is the result -1.
unfoldable pub config_init :
    (Key → Option (Key → Option (List ℕ))) → Key → Option (Key → Option (List ℕ))
config_init load config_file_path = load config_file_path

-- The first call; the flag is true for the result 0.
unfoldable pub log_init : (zlog_init : Key → Bool) → (zlog_category : Bool) → Key → Bool
log_init zlog_init zlog_category config_file_path =
    if zlog_init config_file_path then zlog_category else false

-- The table of pools, and the thread that checks them.
unfoldable pub node_resource_init : Store → (checker_thread : Bool) → Option Nodes
node_resource_init store false = none
node_resource_init store true = some (record { table = []; store = store; leaving = [] })

abbrev pub service_resource_init : Services
service_resource_init = []

abbrev pub register_mapping_init : RegisterMapping
register_mapping_init = []

abbrev pub service_filter_init : List ServiceInfo
service_filter_init = []

-- The agent before it has read any declaration.
unfoldable pub first_agent : Nodes → Agent
first_agent nodes = record {
  resources = record { nodes = nodes; services = service_resource_init };
  mapping = register_mapping_init;
  service_filters = service_filter_init;
  watchers = [];
  watchers_block = 0;
  config_file_last_modified = 0;
}

-- How `invoke_stub_init` ends: not at all, with -1, or with 0.
pub data Stub : Type 0 where
  stub_fault : Stub
  stub_failed : Stub
  stub_ready : Agent → Stub

unfoldable pub stub_of : Option (Agent × Bool) → Stub
stub_of none = stub_fault
stub_of (some (a, false)) = stub_failed
stub_of (some (a, true)) = stub_ready a

module _ (sys : FileSystem) (w : World) (around : Surroundings) where
  open sys use {Fs}

  -- The directory of the log of zookeeper's library, a session, and a look at the root.
  unfoldable pub init_zk_handle : Fs → (zk_addrs : List ℕ) → Fs × Bool
  unfolding make_sure_dir print
  init_zk_handle fs zk_addrs =
      let (fs', made) = make_sure_dir sys fs (
        some (snprintf_s path_max (codes "/tmp/soa/zkc." ++ (print around.pid ++ codes ".log")))) in
      if not made
      then (fs', false)
      else if not (around.zookeeper_init zk_addrs)
      then (fs', false)
      else (fs', around.zoo_exists (codes "/"))

  -- After the session has been opened.
  unfoldable pub init_resources : (config_file_path : Key) → List Event × Stub
  unfolding node_resource_init first_agent watch_declared_services stub_of
  init_resources config_file_path = elim (node_resource_init around.store around.checker_thread) [
    | none ↦ ([], stub_failed)
    | some nodes ↦ (
      started_thread ∷ [],
      stub_of (
          watch_declared_services w around.children (around.declarations config_file_path)
            (first_agent nodes) true),
    )
  ]

  unfoldable pub invoke_stub_init :
      Fs → (zk_addrs : List ℕ) → (config_file_path : Key) → Fs × (List Event × Stub)
  unfolding init_zk_handle init_resources
  invoke_stub_init fs zk_addrs config_file_path =
      let (fs', ready) = init_zk_handle fs (snprintf_s 4_096 zk_addrs) in
      if ready then (fs', init_resources config_file_path) else (fs', ([], stub_failed))

  -- How `main` ends: by `exit(0)`, not at all, or in the main loop of the server.
  pub data Ending : Type 0 where
    exited : Ending
    faulted : Ending
    serves : Fs → Agent → Running → Ending

  abbrev pub Run : Type 0
  Run = List Event × Ending

  -- What follows events.
  unfoldable pub after : List Event → Run → Run
  after events (more, ending) = (events ++ more, ending)

  -- What follows an item of the configuration.
  unfoldable pub with_item : Substituted → (List ℕ → Run) → Run
  with_item (wrote text) go = go text
  with_item overrun go = ([], faulted)
  with_item unfinished go = ([], faulted)

  -- The threads of a start of the server that fails are left out.
  unfoldable pub serve : Fs → Agent → Launch → Run
  serve fs a (launched running) =
      (map (λ worker. started_thread) running.workers, serves fs a running)
  serve fs a launch_failed = ([], exited)
  serve fs a launch_fault = ([], faulted)

  -- The rest of `main`, from the last part to the first. `items` is the dictionary. The results of
  -- `make_sure_dir` and `write_pid` are not used.
  unfoldable pub start_server : Fs → (items : Key → Option (List ℕ)) → Agent → Run
  unfolding with_item serve get_config_item make_sure_dir server_startup_multibase
  start_server fs items a =
      with_item
        (get_config_item (items (codes "server:unix_sock_path")) around.home path_max
          (codes "/tmp/sock_proxy.sock"))
        λ unix_sock_path. serve (make_sure_dir sys fs (some unix_sock_path)).0 a (
          server_startup_multibase around.server (items (codes "server:thread_num")) unix_sock_path)

  unfoldable pub with_stub : (items : Key → Option (List ℕ)) → Fs × (List Event × Stub) → Run
  unfolding start_server after
  with_stub items (fs, (events, stub_fault)) = after events ([], faulted)
  with_stub items (fs, (events, stub_failed)) = after events ([], exited)
  with_stub items (fs, (events, stub_ready a)) = after events (start_server fs items a)

  unfoldable pub start_stub : Fs → (items : Key → Option (List ℕ)) → Run
  unfolding with_item with_stub invoke_stub_init
  start_stub fs items =
      with_item
        (get_config_item (items (codes "server:services_declare_file")) around.home path_max
          (codes "./conf/declares.json"))
        λ services_declare_file_path.
          with_item
            (get_config_item (items (codes "server:zk_addrs")) around.home 256
              (codes "127.0.0.1:2181"))
            λ zk_addrs. with_stub items (invoke_stub_init fs zk_addrs services_declare_file_path)

  unfoldable pub start_pid : Fs → (items : Key → Option (List ℕ)) → Run
  unfolding with_item start_stub write_pid
  start_pid fs items =
      with_item
        (get_config_item (items (codes "server:pid_file")) around.home path_max
          (codes "./logs/soa_proxy.pid"))
        λ pid_file_path.
          after (wrote_pid pid_file_path ∷ [])
            (start_stub (write_pid sys fs around.pid pid_file_path).0 items)

  unfoldable pub start_signals : Fs → (items : Key → Option (List ℕ)) → Run
  unfolding start_pid
  start_signals fs items =
      if not around.pthread_sigmask
      then ([], exited)
      else if not around.signal_thread
      then (blocked_signals ∷ [], exited)
      else after (blocked_signals ∷ started_thread ∷ []) (start_pid fs items)

  unfoldable pub start_log : Fs → (items : Key → Option (List ℕ)) → Run
  unfolding start_signals log_init
  start_log fs items =
      with_item
        (get_config_item (items (codes "log:config_file")) around.home path_max
          (codes "./conf/log.conf"))
        λ config_file_path.
          if log_init around.zlog_init around.zlog_category config_file_path
          then start_signals fs items
          else ([], exited)

  -- `daemonize`, if it was asked for.
  unfoldable pub start_daemon : Fs → (items : Key → Option (List ℕ)) → (is_daemon : Bool) → Run
  unfolding start_log daemonize
  start_daemon fs items is_daemon =
      with_item (get_config_item (items (codes "server:cwd")) around.home path_max (codes "/tmp"))
        λ cwd_path.
          if is_daemon
          then elim (daemonize around.daemon cwd_path) [
            | none ↦ ([], exited)
            | some detached ↦ start_log fs items
          ]
          else start_log fs items

  unfoldable pub start : Fs → CommandLine → Run
  unfolding start_daemon config_init
  start fs wants_help = ([], exited)
  start fs (wants_start is_daemon config_file_path) =
      elim (config_init around.load config_file_path) [
        | none ↦ ([], exited)
        | some items ↦ start_daemon fs items is_daemon
      ]

  unfoldable pub main : Fs → List Opt → Run
  unfolding start read_options
  main fs opts = start fs (read_options false [] opts)

-- The signals that the handler asks for, and SIGPIPE, which it passes over.
pub data Signal : Type 0 where
  sigterm : Signal
  sigusr1 : Signal
  sigusr2 : Signal
  sigpipe : Signal

-- What the thread waits for: SIGUSR1, SIGUSR2 and SIGPIPE.
unfoldable pub is_awaited : Signal → Bool
is_awaited sigterm = false
is_awaited sigusr1 = true
is_awaited sigusr2 = true
is_awaited sigpipe = true

module _ (w : World) where
  unfoldable pub refresh_declared_services :
      (Key → Option (List (List ℕ))) → ConfigFile → Agent → Option (Agent × Bool)
  unfolding watch_declared_services
  refresh_declared_services children file a = watch_declared_services w children file a false

  -- `none` is a fault, and `some none` is `exit(0)`. SIGUSR1 only prints the state.
  unfoldable pub sig_handle :
      (Key → Option (List (List ℕ))) → ConfigFile → Agent → Signal → Option (Option Agent)
  unfolding refresh_declared_services
  sig_handle children file a sigterm = some none
  sig_handle children file a sigusr1 = some (some a)
  sig_handle children file a sigusr2 = elim (refresh_declared_services children file a) [
    | none ↦ none
    | some (a', ok) ↦ some (some a')
  ]
  sig_handle children file a sigpipe = some (some a)

  -- The loop of the thread over what `sigwaitinfo` gives, an error or a signal, with the file and
  -- the answers of zookeeper at that time.
  unfoldable pub signal_handle_thread_func :
      Agent
      → List ((Key → Option (List (List ℕ))) × ConfigFile × Option Signal)
      → Option (Option Agent)
  unfolding sig_handle
  signal_handle_thread_func a [] = some (some a)
  signal_handle_thread_func a ((children, file, none) ∷ later) = signal_handle_thread_func a later
  signal_handle_thread_func a ((children, file, some signo) ∷ later) =
      elim (sig_handle children file a signo) [
        | none ↦ none
        | some none ↦ some none
        | some (some a') ↦ signal_handle_thread_func a' later
      ]
