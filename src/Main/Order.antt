-- ===== src/Main/Order.antt =====
-- soaagent/main.c: the order of the start, and what holds when it ends.
use ddmframework.Common.{
  ℕ, ◌<◌, ◌≡◌, ◌≢◌, refl, inl, inr, Bool, true, false, ◌&&◌, List, [], ◌∷◌, ◌++◌, Option, none,
  arith, Key, map, length,
}
use ddmframework.Url.{codes}
use ddmframework.Config.{path_max, get_config_item_int}
use ddmframework.Config.Substitute.{get_config_item}
use ddmframework.Config.Delivery.{configured, get_config_item_lem}
use ddmframework.Invoke.Agent.{Agent, World}
use ddmframework.Invoke.Life.{Alive}
use ddmframework.Directories.{FileSystem}
use ddmframework.Server.Startup.{
  WorkerInfo, Launch, launched, launch_failed, launch_fault, server_startup_multibase,
}
use ddmframework.Server.Served.{launched-Inv, launch_fault-none}
use ddmframework.Main.{
  Surroundings, Event, blocked_signals, started_thread, wrote_pid, Stub, stub_fault, stub_failed,
  stub_ready, Ending, exited, faulted, serves, Run, after, with_item, serve,
}

-- No thread is started before the signals are blocked, which threads inherit.
unfoldable pub threads_inherit : (blocked : Bool) → List Event → Bool
threads_inherit blocked [] = true
threads_inherit blocked (blocked_signals ∷ events) = threads_inherit true events
threads_inherit blocked (started_thread ∷ events) = blocked && threads_inherit blocked events
threads_inherit blocked (wrote_pid path ∷ events) = threads_inherit blocked events

all_threads :
    (workers : List WorkerInfo)
    → threads_inherit true (map (λ worker. started_thread) workers) ≡ true
unfolding threads_inherit
all_threads [] = refl
all_threads (w_info ∷ workers) = all_threads workers

module _ (sys : FileSystem) (w : World) (around : Surroundings) where
  open sys use {Fs}

  -- A text of the configuration fits its buffer.
  abbrev pub Fits : Option (List ℕ) → (len : ℕ) → (default_value : List ℕ) → Type 0
  Fits value len default_value = length (configured value around.home default_value) < len

  abbrev pub ItemsFit : (items : Key → Option (List ℕ)) → Type 0
  ItemsFit items =
      Fits (items (codes "server:cwd")) path_max (codes "/tmp")
      × Fits (items (codes "log:config_file")) path_max (codes "./conf/log.conf")
      × Fits (items (codes "server:pid_file")) path_max (codes "./logs/soa_proxy.pid")
      × Fits (items (codes "server:services_declare_file")) path_max (codes "./conf/declares.json")
      × Fits (items (codes "server:zk_addrs")) 256 (codes "127.0.0.1:2181")
      × Fits (items (codes "server:unix_sock_path")) path_max (codes "/tmp/sock_proxy.sock")
      × (get_config_item_int (items (codes "server:thread_num")) 10 ≢ none)

  -- The agent has ended, or it serves and is well.
  abbrev pub EndsWell : Ending sys w around → Type 0
  EndsWell exited = Unit {0}
  EndsWell faulted = ⊥
  EndsWell (serves fs a running) =
      Alive a × (running.acceptor.global_worker_num ≡ length running.workers)

  abbrev pub Well : (blocked : Bool) → Run sys w around → Type 0
  Well blocked (events, ending) = (threads_inherit blocked events ≡ true) × EndsWell ending

  pub with_item-Well :
      (blocked : Bool) (value : Option (List ℕ)) (len : ℕ) (default_value : List ℕ)
      (go : List ℕ → Run sys w around)
      → Fits value len default_value
      → ((text : List ℕ) → Well blocked (go text))
      → Well blocked
          (with_item sys w around (get_config_item value around.home len default_value) go)
  unfolding with_item
  with_item-Well blocked value len default_value go fits well =
      elim (get_config_item_lem value around.home len default_value (omega arith)) [
        | inl (text, e, short, same) ↦ rw (e, with_item) (well text)
        | inr (e, long) ↦ absurd (omega arith)
      ]

  pub exits : (blocked : Bool) → Well blocked ([], exited)
  unfolding threads_inherit
  exits blocked = (refl, tt)

  -- Threads that start when the signals are blocked.
  after-threads :
      (run : Run sys w around)
      → Well true run
      → Well true (after sys w around (started_thread ∷ []) run)
  unfolding after threads_inherit
  after-threads (events, ending) h = h

  pub serve-Well :
      (fs : Fs) (a : Agent) (value : Option (List ℕ)) (listen_addr : List ℕ) (launch : Launch)
      → server_startup_multibase around.server value listen_addr ≡ launch
      → get_config_item_int value 10 ≢ none
      → Alive a
      → Well true (serve sys w around fs a launch)
  unfolding serve
  serve-Well fs a value listen_addr (launched running) e number sound = (
    all_threads running.workers,
    (sound, (launched-Inv around.server value listen_addr running e).total),
  )
  serve-Well fs a value listen_addr launch_failed e number sound = exits true
  serve-Well fs a value listen_addr launch_fault e number sound =
      absurd (number (launch_fault-none around.server value listen_addr e))

  -- What `invoke_stub_init` leaves.
  abbrev pub StubWell : List Event × Stub → Type 0
  StubWell (events, stub_fault) = ⊥
  StubWell (events, stub_failed) = threads_inherit true events ≡ true
  StubWell (events, stub_ready a) = (threads_inherit true events ≡ true) × Alive a

  threads_inherit-append :
      (events more : List Event)
      → threads_inherit true events ≡ true
      → threads_inherit true more ≡ true
      → threads_inherit true (events ++ more) ≡ true
  unfolding threads_inherit
  threads_inherit-append [] more h k = k
  threads_inherit-append (blocked_signals ∷ events) more h k =
      threads_inherit-append events more h k
  threads_inherit-append (started_thread ∷ events) more h k = threads_inherit-append events more h k
  threads_inherit-append (wrote_pid path ∷ events) more h k = threads_inherit-append events more h k

  pub after-Well :
      (events : List Event) (run : Run sys w around)
      → threads_inherit true events ≡ true
      → Well true run
      → Well true (after sys w around events run)
  unfolding after
  after-Well events (more, ending) h (k, well) = (threads_inherit-append events more h k, well)

  -- The signals are blocked, then the thread that handles them starts.
  pub blocks :
      (run : Run sys w around)
      → Well true run
      → Well false (after sys w around (blocked_signals ∷ started_thread ∷ []) run)
  unfolding after threads_inherit
  blocks (events, ending) h = h
