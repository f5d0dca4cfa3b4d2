-- ===== src/Main/Lifetime.antt =====
-- The agent while it serves (soaagent/main.c, soaagent/invoke_stub.c): calls of clients, signals and
-- events of zookeeper, one after the other in any order.
use ddmframework.Server.{Acceptor, do_accept}
use ddmframework.Common.{ℕ, ◌≤◌, ◌≡◌, true, List, [], ◌∷◌, Option, none, some, Key, Bool}
use ddmframework.Clock.{Timeval}
use ddmframework.Invoke.Agent.{
  Context, Agent, World, ConfigFile, EventType, SessionState, my_zk_watcher_marshal,
}
use ddmframework.Invoke.Call.{Peer, invoke_service}
use ddmframework.Invoke.Refresh.{IsWholeFile, IsFairAnswer}
use ddmframework.Invoke.Life.{IsCurrent, Alive}
use ddmframework.Main.{Signal, is_awaited, sig_handle}

-- A call with the answers of its peer, the time and the counter of identifiers; a signal that the
-- thread fetches; an event of zookeeper; an `accept`. Signals and events come with zookeeper's
-- answers and the file of declarations at that time.
pub data Happening : Type 0 where
  called :
      (peer : ℕ → Peer)
      → (now : Timeval) → (counter : ℕ) → (group service version req_body : List ℕ) → Happening
  signalled : (Key → Option (List (List ℕ))) → ConfigFile → Signal → Happening
  announced :
      (Key → Option (List (List ℕ)))
      → ConfigFile
      → (reconnected : Bool) → EventType
      → SessionState
      → (context : Context) → Happening
  accepted : (answer : Option ℕ) → Happening

-- The agent, and the main thread of its server.
abbrev pub Serving : Type 0
Serving = Agent × Acceptor

-- `none` is a fault or the end of the process.
unfoldable pub happen : World → Serving → Happening → Option Serving
unfolding invoke_service sig_handle my_zk_watcher_marshal do_accept
happen w (a, acceptor) (called peer now counter group service version req_body) =
    elim (invoke_service peer now a.resources counter group service version req_body) [
      | none ↦ none
      | some (counter', resources, outcome) ↦ some (record a { resources = resources }, acceptor)
    ]
happen w (a, acceptor) (signalled children file signo) = elim (sig_handle w children file a signo) [
  | none ↦ none
  | some none ↦ none
  | some (some a') ↦ some (a', acceptor)
]
happen w (a, acceptor) (announced children file reconnected type state context) =
    elim (my_zk_watcher_marshal w children file reconnected a type state context) [
      | none ↦ none
      | some a' ↦ some (a', acceptor)
    ]
happen w (a, acceptor) (accepted answer) = elim (do_accept acceptor answer) [
  | none ↦ none
  | some acceptor' ↦ some (a, acceptor')
]

unfoldable pub live : World → Serving → List Happening → Option Serving
unfolding happen
live w s [] = some s
live w s (happening ∷ later) = elim (happen w s happening) [
  | none ↦ none
  | some s' ↦ live w s' later
]

-- The thread fetches only what it waits for, a file has every item that is read, and the pointer of
-- an event on children is still good.
abbrev pub IsFairHappening : World → Agent → Happening → Type 0
IsFairHappening w a (called peer now counter group service version req_body) = Unit {0}
IsFairHappening w a (signalled children file signo) =
    IsFairAnswer w children × IsWholeFile file × (is_awaited signo ≡ true)
IsFairHappening w a (announced children file reconnected type state context) =
    IsFairAnswer w children × IsWholeFile file × IsCurrent a type context
IsFairHappening w a (accepted answer) = Unit {0}

-- Each happening is fair when its turn comes.
unfoldable pub IsFairLife : World → Serving → List Happening → Type 0
IsFairLife w s [] = Unit {0}
IsFairLife w s (happening ∷ later) =
    IsFairHappening w s.0 happening
    × ((s' : Serving) → happen w s happening ≡ some s' → IsFairLife w s' later)

module _ (w : World) (init_fits : w.config.init_conn_num ≤ w.config.max_conn_num) where
  -- What holds while the agent serves.
  abbrev Lives : Serving → Type 0
  Lives s = Alive s.0 × (1 ≤ s.1.global_worker_num)
