-- ===== src/ConnPool.antt =====
-- soaagent/conn_pool.c and conn_pool.h: a pool of TCP connections to one node. Its two linked
-- lists are lists of addresses of the store of Conn.antt. Every operation runs under the lock of
-- its pool, so it is one step. `none` is a fault: a read through NULL, or a linked list that has
-- been made cyclic. The numbers of the configuration are not negative.
pub mod Invariant
pub mod Operations
pub mod Lifecycle
pub mod History
pub mod Sockets
pub mod Memory
pub mod Examples
use ddmframework.Common.{
  ℕ, zero, suc, ◌+◌, ◌-◌, ◌*◌, Bool, true, false, List, [], ◌∷◌, Option, none, some, ltb, ◌==◌,
  ◌&&◌, if◌then◌else◌, length, ll_append, ll_delete,
}
use ddmframework.Clock.{Timeval}
use ddmframework.Conn.{
  Conn, Store, host_name_len, snprintf_s, write_conn, malloc_conn, conn_init, conn_connect,
  conn_disconnect, conn_is_idle_timeout,
}
use mathlib.Core.Option

pub record Pool : Type 0 where
  pub unused_conn_list : List ℕ
  pub used_conn_list : List ℕ
  pub inited : Bool
  pub host : List ℕ
  pub port : ℕ
  pub timeout_secs : ℕ
  pub init_conn_num : ℕ
  pub min_conn_num : ℕ
  pub max_conn_num : ℕ
  pub max_idle_secs : ℕ

infixl 5 ◌>>=◌
abbrev ◌>>=◌ : {A B : Type 0} → Option A → (A → Option B) → Option B
none >>= f = none
some a >>= f = f a

-- LL_COUNT of the two lists.
unfoldable pub pool_get_idle_conn_num : Pool → ℕ
pool_get_idle_conn_num pool = length pool.unused_conn_list

unfoldable pub pool_get_used_conn_num : Pool → ℕ
pool_get_used_conn_num pool = length pool.used_conn_list

unfoldable pub pool_get_total_conn_num : Pool → ℕ
unfolding pool_get_idle_conn_num pool_get_used_conn_num
pool_get_total_conn_num pool = pool_get_idle_conn_num pool + pool_get_used_conn_num pool

-- `malloc`, `conn_init` and `conn_connect`; a connection that cannot connect is freed.
unfoldable pub open_conn : Store → Pool → Store × Option ℕ
unfolding malloc_conn conn_init conn_connect
open_conn st pool =
    let (st, conn) = malloc_conn st in
    let (st, ok) = conn_connect (conn_init st conn pool.host pool.port pool.timeout_secs) conn in
    if ok then (st, some conn) else (st, none)

-- The loop of `pool_init` over the `n` connections that are still to be opened.
unfoldable pub fill : ℕ → Store → Pool → Option (Store × Pool)
unfolding open_conn ll_append
fill zero st pool = some (st, pool)
fill (suc n) st pool =
    let (st', opened) = open_conn st pool in
    elim opened [
      | none ↦ fill n st' pool
      | some conn ↦ elim (ll_append pool.unused_conn_list conn) [
        | none ↦ none
        | some unused ↦ fill n st' (record pool { unused_conn_list = unused })
      ]
    ]

-- The fields that `pool_init` sets before its loop.
abbrev pub empty_pool :
    List ℕ → (port timeoutsecs init_conn_num min_conn_num max_conn_num max_idle_secs : ℕ) → Pool
empty_pool host port timeoutsecs init_conn_num min_conn_num max_conn_num max_idle_secs = record {
  unused_conn_list = [];
  used_conn_list = [];
  inited = false;
  host = snprintf_s host_name_len host;
  port = port;
  timeout_secs = timeoutsecs;
  init_conn_num = init_conn_num;
  min_conn_num = min_conn_num;
  max_conn_num = max_conn_num;
  max_idle_secs = max_idle_secs;
}

unfoldable pub pool_init :
    Store
    → List ℕ
    → (port timeoutsecs init_conn_num min_conn_num max_conn_num max_idle_secs : ℕ)
    → Option (Store × Pool)
unfolding fill
pool_init st host port timeoutsecs init_conn_num min_conn_num max_conn_num max_idle_secs = do
  let start = empty_pool host port timeoutsecs init_conn_num min_conn_num max_conn_num max_idle_secs
  (st', pool) ← fill init_conn_num st start
  some (st', record pool { inited = true })

-- The first idle connection moves to the end of the used ones; without one a new connection is
-- opened while the pool is below its maximum. NULL is `none`.
pub require_idle : Store → Pool → ℕ → Option (Store × Pool × Option ℕ)
unfolding ll_append ll_delete
require_idle st pool conn = do
  unused ← ll_delete pool.unused_conn_list conn
  used ← ll_append pool.used_conn_list conn
  some (st, record pool { unused_conn_list = unused; used_conn_list = used }, some conn)

pub require_new : Store → Pool → Option (Store × Pool × Option ℕ)
unfolding open_conn ll_append
require_new st pool =
    let (st', opened) = open_conn st pool in
    elim opened [
      | none ↦ some (st', pool, none)
      | some conn ↦ do
        used ← ll_append pool.used_conn_list conn
        some (st', record pool { used_conn_list = used }, some conn)
    ]

unfoldable pub pool_require_connection : Store → Pool → Option (Store × Pool × Option ℕ)
unfolding require_idle require_new pool_get_used_conn_num pool_get_idle_conn_num
pool_require_connection st pool = elim pool.unused_conn_list [
  | conn ∷ _ ↦ require_idle st pool conn
  | [] ↦
      if ltb (pool_get_used_conn_num pool + pool_get_idle_conn_num pool) pool.max_conn_num
      then require_new st pool
      else some (st, pool, none)
]

-- `now` is the time that `get_now_time` reads.
unfoldable pub pool_release_connection :
    Store → Pool → Option ℕ → Bool → Timeval → Option (Store × Pool)
unfolding ll_append ll_delete write_conn
pool_release_connection st pool none release_as_normal now = some (st, pool)
pool_release_connection st pool (some conn) release_as_normal now = do
  used ← ll_delete pool.used_conn_list conn
  unused ← ll_append pool.unused_conn_list conn
  let c = st.conns conn
  let c' =
      if release_as_normal
      then record c { last_used_time = now }
      else record c { error_occured = true }
  some (write_conn st conn c', record pool { unused_conn_list = unused; used_conn_list = used })

-- The loop over the idle connections: the first that is past the limit is closed, and no other.
unfoldable pub first_expired : Store → Timeval → ℕ → List ℕ → Option ℕ
unfolding conn_is_idle_timeout
first_expired st now limit [] = none
first_expired st now limit (elt ∷ rest) =
    if conn_is_idle_timeout (st.conns elt) now limit
    then some elt
    else first_expired st now limit rest

close_idle : Store → Pool → Option ℕ → Option (Store × Pool)
unfolding ll_delete conn_disconnect
close_idle st pool none = some (st, pool)
close_idle st pool (some elt) = do
  unused ← ll_delete pool.unused_conn_list elt
  some ((conn_disconnect st elt).0, record pool { unused_conn_list = unused })

unfoldable pub pool_check : Store → Pool → Timeval → Option (Store × Pool)
unfolding close_idle first_expired pool_get_used_conn_num pool_get_idle_conn_num
pool_check st pool now =
    if pool_get_used_conn_num pool == 0 && ltb pool.min_conn_num (pool_get_idle_conn_num pool)
    then close_idle st pool (first_expired st now (pool.max_idle_secs * 2) pool.unused_conn_list)
    else some (st, pool)

-- The flag is false for the result -1. Each item is unlinked, disconnected and freed.
close_all : Store → List ℕ → Store
unfolding conn_disconnect
close_all st [] = st
close_all st (elt ∷ rest) = close_all (conn_disconnect st elt).0 rest

unfoldable pub pool_destroy : Store → Pool → Store × Pool × Bool
unfolding close_all pool_get_used_conn_num
pool_destroy st pool =
    if ltb 0 (pool_get_used_conn_num pool)
    then (st, pool, false)
    else (close_all st pool.unused_conn_list, record pool { unused_conn_list = [] }, true)
