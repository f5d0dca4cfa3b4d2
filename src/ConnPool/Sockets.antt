-- ===== src/ConnPool/Sockets.antt =====
-- The sockets that the pool opens and closes.
use ddmframework.Common.{
  ℕ, zero, suc, ◌∙◌, ◌+◌, ◌≤◌, ◌<◌, ◌≡◌, refl, true, false, List, [], ◌∷◌, Option, none, some,
  arith, count, count-remove, length, if◌then◌else◌, ◌==◌,
}
use ddmframework.Conn.{Store, conn_disconnect}
use ddmframework.ConnPool.{
  Pool, open_conn, pool_require_connection, close_all, pool_destroy, pool_get_used_conn_num,
}

-- The sockets of some connections.
unfoldable pub fds : Store → List ℕ → List ℕ
fds st [] = []
fds st (p ∷ ps) = (st.conns p).sock_fd ∷ fds st ps

disconnect_fds : (st : Store) (c : ℕ) (ps : List ℕ) → fds (conn_disconnect st c).0 ps ≡ fds st ps
unfolding fds conn_disconnect
disconnect_fds st c [] = refl
disconnect_fds st c (p ∷ ps) = ground (arith, disconnect_fds st c ps)

disconnect_open :
    (st : Store) (c fd : ℕ)
    → 0 < count (st.conns c).sock_fd st.open_fds
    → count fd (conn_disconnect st c).0.open_fds + (if (st.conns c).sock_fd == fd then 1 else 0)
      ≡ count fd st.open_fds
unfolding conn_disconnect
disconnect_open st c fd h = count-remove fd (st.conns c).sock_fd st.open_fds h

-- The connections own their sockets: each is open, and no two share one.
abbrev pub OwnsSockets : Store → List ℕ → Type 0
OwnsSockets st ps = (fd : ℕ) → count fd (fds st ps) ≤ count fd st.open_fds

close_all_open :
    (st : Store) (ps : List ℕ)
    → OwnsSockets st ps
    → (fd : ℕ) → count fd (close_all st ps).open_fds + count fd (fds st ps) ≡ count fd st.open_fds
unfolding close_all fds count
close_all_open st [] own fd = omega arith
close_all_open st (p ∷ ps) own fd =
    let open_p : 0 < count (st.conns p).sock_fd st.open_fds =
      ground (arith, own (st.conns p).sock_fd) in
    let st' = (conn_disconnect st p).0 in
    let own' : OwnsSockets st' ps =
      λ g. ground (arith, disconnect_fds st p ps, disconnect_open st p g open_p, own g) in
    ground
      (arith, close_all_open st' ps own' fd, disconnect_fds st p ps, disconnect_open st p fd open_p)

-- `pool_destroy` refuses while a connection is lent, and changes nothing. Otherwise it empties the
-- pool and closes exactly the sockets of the idle connections.
pub pool_destroy_lem :
    (st : Store) (pool : Pool)
    → OwnsSockets st pool.unused_conn_list
    → let (st', pool', done) = pool_destroy st pool in
      (0 < length pool.used_conn_list → (st' ≡ st) × (pool' ≡ pool) × (done ≡ false))
      × (length pool.used_conn_list ≡ 0
          → (done ≡ true)
            × (pool'.unused_conn_list ≡ [])
            × ((fd : ℕ)
                → count fd st'.open_fds + count fd (fds st pool.unused_conn_list)
                  ≡ count fd st.open_fds))
unfolding pool_destroy pool_get_used_conn_num
pool_destroy_lem st pool own = (
  λ lent. (ground arith, ground arith, ground arith),
  λ free. (
    ground arith,
    ground arith,
    λ fd. ground (arith, close_all_open st pool.unused_conn_list own fd),
  ),
)

fds-close_all : (st : Store) (cs ps : List ℕ) → fds (close_all st cs) ps ≡ fds st ps
unfolding close_all
fds-close_all st [] ps = refl
fds-close_all st (c ∷ cs) ps = fds-close_all (conn_disconnect st c).0 cs ps ∙ disconnect_fds st c ps

pub fds-pool_destroy :
    (st : Store) (pool : Pool) (ps : List ℕ) → fds (pool_destroy st pool).0 ps ≡ fds st ps
unfolding pool_destroy
fds-pool_destroy st pool ps = ground (arith, fds-close_all st pool.unused_conn_list ps)

pub pool_destroy_lent :
    (st : Store) (pool : Pool) → 0 < length pool.used_conn_list → (pool_destroy st pool).0 ≡ st
unfolding pool_destroy pool_get_used_conn_num
pool_destroy_lent st pool lent = ground arith

-- `n` calls of `pool_require_connection`, one after the other; `none` if one faults.
pub require_times : ℕ → Store → Pool → Option (Store × Pool)
require_times zero st pool = some (st, pool)
require_times (suc n) st pool = elim (pool_require_connection st pool) [
  | none ↦ none
  | some (st', pool', _) ↦ require_times n st' pool'
]

refused_once :
    (st : Store) (pool : Pool)
    → pool.unused_conn_list ≡ []
    → length pool.used_conn_list < pool.max_conn_num
    → (st.attempt st.attempts).accepted ≡ false
    → (st' : Store) × (pool_require_connection st pool ≡ some (st', pool, none))
      × (st'.attempt ≡ st.attempt)
      × (length st'.open_fds ≡ suc (length st.open_fds))
unfolding pool_require_connection open_conn
refused_once st pool empty room refused =
    ((open_conn st pool).0, ground arith, ground arith, ground arith)

-- While a node refuses connections, each request leaves one more socket open: the pool is as it
-- was, so no connection of it owns the socket and nothing will close it.
require_times-leaks :
    (n : ℕ) (st : Store) (pool : Pool)
    → pool.unused_conn_list ≡ []
    → length pool.used_conn_list < pool.max_conn_num
    → ((i : ℕ) → (st.attempt i).accepted ≡ false)
    → (st' : Store) × (require_times n st pool ≡ some (st', pool))
      × (length st'.open_fds ≡ length st.open_fds + n)
unfolding require_times
require_times-leaks zero st pool empty room refused = (st, refl, omega arith)
require_times-leaks (suc n) st pool empty room refused =
    let (st', run, same, more) = refused_once st pool empty room (refused st.attempts) in
    let (st'', rest, total) =
      require_times-leaks n st' pool empty room (λ i. rw same (refused i)) in
    (st'', rw (run, require_times) rest, omega arith)
