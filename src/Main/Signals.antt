-- ===== src/Main/Signals.antt =====
-- soaagent/main.c: the thread that handles signals, over any sequence of them.
use ddmframework.Common.{ℕ, ◌≤◌, ◌≡◌, true, not, ◌||◌, List, Option, none, some, Key}
use ddmframework.ServiceConf.{ServiceInfo}
use ddmframework.ServiceConf.Registration.{is_declared}
use ddmframework.Invoke.Agent.{Agent, World, ConfigFile}
use ddmframework.Invoke.Refresh.{Sound, IsFairAnswer, IsWholeFile}
use ddmframework.Main.{Signal, is_awaited}

-- What `sigwaitinfo` gives, with zookeeper's answers and the file of declarations at that time.
abbrev pub Fetched : Type 0
Fetched = (Key → Option (List (List ℕ))) × ConfigFile × Option Signal

-- The thread fetches only what it waits for.
abbrev pub Awaited : Option Signal → Type 0
Awaited none = Unit {0}
Awaited (some signo) = is_awaited signo ≡ true

abbrev pub IsFair : World → Fetched → Type 0
IsFair w (children, file, signo) = (IsFairAnswer w children × IsWholeFile file) × Awaited signo

-- A service that was declared is declared.
abbrev pub StillDeclared : (a a' : Agent) → ServiceInfo → Type 0
StillDeclared a a' s =
    (not (is_declared a.service_filters s) || is_declared a'.service_filters s) ≡ true

module _ (w : World) (init_fits : w.config.init_conn_num ≤ w.config.max_conn_num) where
  -- The agent goes on after a signal.
  abbrev GoesOn : (result : Option (Option Agent)) → Agent → ServiceInfo → Type 0
  GoesOn result a s = (a' : Agent) × (result ≡ some (some a')) × Sound a' × StillDeclared a a' s
