-- ===== src/Main/Daemon.antt =====
-- soaagent/util.c: `daemonize`. What the calls of the system answer is a parameter.
use ddmframework.Common.{ℕ, Bool, true, false, not, Option, none, some, Key, if◌then◌else◌}

-- What a `fork` gives: an error, or the number of the child, or 0 in the child.
pub data Fork : Type 0 where
  fork_failed : Fork
  in_parent : Fork
  in_child : Fork

-- `rlim_max`, which may be RLIM_INFINITY.
pub data Limit : Type 0 where
  limit : ℕ → Limit
  infinity : Limit

pub record DaemonAnswers : Type 0 where
  pub getrlimit : Option Limit
  pub first_fork : Fork
  pub sigaction : Bool
  pub second_fork : Fork
  pub chdir : Key → Bool

-- What the process that goes on has of it: `closed` descriptors from 0 on were closed before 0, 1
-- and 2 were opened on /dev/null.
pub record Detached : Type 0 where
  pub umask : ℕ
  pub cwd : Key
  pub closed : ℕ

unfoldable pub descriptors : Limit → ℕ
descriptors (limit n) = n
descriptors infinity = 1_024

-- Whether the process goes on after a `fork`.
unfoldable pub goes_on : Fork → Bool
goes_on fork_failed = false
goes_on in_parent = false
goes_on in_child = true

-- `none` is an `exit(0)`.
unfoldable pub daemonize : DaemonAnswers → (cwd : Key) → Option Detached
unfolding descriptors goes_on
daemonize answers cwd = elim answers.getrlimit [
  | none ↦ none
  | some rlim_max ↦
      if not (goes_on answers.first_fork)
      then none
      else if not answers.sigaction
      then none
      else if not (goes_on answers.second_fork)
      then none
      else if answers.chdir cwd
      then some (record { umask = 0; cwd = cwd; closed = descriptors rlim_max })
      else none
]
