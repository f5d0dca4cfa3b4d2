-- ===== src/Server/Startup.antt =====
-- soaagent/server.c: the start of the server with its workers, and a worker that takes a connection
-- from the main thread. What the system and libevent answer is a parameter.
use ddmframework.Common.{
  ℕ, zero, suc, ◌^◌, Bool, true, false, not, List, [], ◌∷◌, ◌++◌, Option, none, some, ltb, leb,
  if◌then◌else◌,
}
use ddmframework.Url.{codes}
use ddmframework.Conn.{snprintf_s}
use ddmframework.Decimal.{print}
use ddmframework.Config.{parse_addr, get_config_item_int}
use ddmframework.Server.{Session, Evbuffer, Acceptor}

-- `clients` are the connections that are registered in the event base of the worker, and `taken` is
-- how many descriptors the kernel has handed out from its pipe.
pub record WorkerInfo : Type 0 where
  pub thread_name : List ℕ
  pub notify_receive_fd : ℕ
  pub notify_send_fd : ℕ
  pub running : Bool
  pub clients : List ℕ
  pub taken : ℕ

-- What the calls of the start answer; those for a worker are numbered from 0.
pub record Answers : Type 0 where
  pub event_base_new : Bool
  pub bind : Bool
  pub listen : Bool
  pub malloc : ℕ → Bool
  pub socketpair : ℕ → Option (ℕ × ℕ)
  pub worker_base_new : ℕ → Bool
  pub pthread_create : ℕ → Bool

-- `%02d`
unfoldable pub print2 : ℕ → List ℕ
unfolding print
print2 n = if ltb n 10 then b'0' ∷ print n else print n

-- A worker with the event for its notifications; `none` is the result -1.
unfoldable pub set_up_worker : Answers → ℕ → Option WorkerInfo
unfolding print2
set_up_worker answers i = if not (answers.malloc i) then none else elim (answers.socketpair i) [
  | none ↦ none
  | some (receive, send) ↦
      if answers.worker_base_new i
      then some (record {
        thread_name = snprintf_s 20 (codes "worker-" ++ print2 i);
        notify_receive_fd = receive;
        notify_send_fd = send;
        running = false;
        clients = [];
        taken = 0;
      })
      else none
]

-- The loop over the workers from the i-th on.
unfoldable pub set_up_workers : Answers → (i left : ℕ) → Option (List WorkerInfo)
unfolding set_up_worker
set_up_workers answers i zero = some []
set_up_workers answers i (suc left) = elim (set_up_worker answers i) [
  | none ↦ none
  | some w_info ↦ elim (set_up_workers answers (suc i) left) [
    | none ↦ none
    | some list ↦ some (w_info ∷ list)
  ]
]

unfoldable pub start_workers : Answers → ℕ → List WorkerInfo → Option (List WorkerInfo)
start_workers answers i [] = some []
start_workers answers i (w_info ∷ list) =
    let rest = start_workers answers (suc i) list in
    if answers.pthread_create i
    then elim rest [
      | none ↦ none
      | some started ↦ some (record w_info { running = true } ∷ started)
    ]
    else none

-- The main thread and the workers.
pub record Running : Type 0 where
  pub acceptor : Acceptor
  pub workers : List WorkerInfo

abbrev pub first_acceptor : ℕ → Acceptor
first_acceptor thread_num = record {
  global_worker_num = thread_num;
  global_cycle_counter = 0;
  notified = [];
  closed = [];
}

-- The number has 32 bits, and is negative from 2^31 on. `some` is the start of the main loop.
unfoldable pub tcp_server_startup_with_multibase : Answers → (thread_num : ℕ) → Option Running
unfolding set_up_workers start_workers
tcp_server_startup_with_multibase answers thread_num =
    if leb (2 ^ 31) thread_num
    then none
    else if not answers.event_base_new
    then none
    else if not answers.bind
    then none
    else if not answers.listen
    then none
    else elim (set_up_workers answers 0 thread_num) [
      | none ↦ none
      | some list ↦ elim (start_workers answers 0 list) [
        | none ↦ none
        | some workers ↦ some (record { acceptor = first_acceptor thread_num; workers = workers })
      ]
    ]

-- How the start ends: with the main loop, with -1, or with a fault in the configuration.
pub data Launch : Type 0 where
  launched : Running → Launch
  launch_failed : Launch
  launch_fault : Launch

unfoldable pub launch : Option Running → Launch
launch none = launch_failed
launch (some running) = launched running

-- `value` is what iniparser finds for the number of the workers.
unfoldable pub server_startup_multibase :
    Answers → (value : Option (List ℕ)) → (listen_addr : List ℕ) → Launch
unfolding parse_addr get_config_item_int tcp_server_startup_with_multibase launch
server_startup_multibase answers value listen_addr = elim (parse_addr listen_addr 20) [
  | none ↦ launch_failed
  | some address ↦ elim (get_config_item_int value 10) [
    | none ↦ launch_fault
    | some thread_num ↦ launch (tcp_server_startup_with_multibase answers thread_num)
  ]
]

-- `none` is a `recv` that gives nothing.
unfoldable pub do_handle_notify : WorkerInfo → (received : Option ℕ) → WorkerInfo
do_handle_notify w_info none = w_info
do_handle_notify w_info (some fd) = record w_info { clients = w_info.clients ++ fd ∷ [] }

-- Whatever the event, the connection is closed.
unfoldable pub errorcb : {ev : Evbuffer} → Session ev → Session ev
errorcb s = record s { is_open = false }
