-- ===== src/ConnPool/Examples.antt =====
-- Tests of the pool, and its theorems at a pool of three connections, one of them lent.
use ddmframework.Common.{
  ℕ, ◌+◌, ◌≡◌, refl, ◌≢◌, Bool, true, false, List, [], ◌∷◌, Option, none, some, arith, count, ◌↔◌,
}
use ddmframework.Clock.{Timeval}
use ddmframework.Conn.{Conn, Store}
use ddmframework.ConnPool.{
  Pool, pool_init, pool_require_connection, pool_release_connection, pool_check,
}
use ddmframework.ConnPool.Invariant.{Inv}
use ddmframework.ConnPool.Operations.{
  Lends, IsExhausted, released, pool_require_connection_lem, pool_release_connection_lem,
}
use ddmframework.ConnPool.Lifecycle.{Checked, pool_check_lem}
use ddmframework.ConnPool.History.{Reach, here, next, require, Reach-Inv}

abbrev pub clock : ℕ → Timeval
clock s = record { tv_sec = s; tv_usec = 0 }

abbrev idle_conn : ℕ → Conn
idle_conn fd = record {
  sock_fd = fd;
  host = [];
  port = 80;
  timeout_secs = 3;
  last_used_time = clock 100;
  last_check_time = clock 100;
  connected = true;
  error_occured = false;
}

abbrev pub store : Bool → Store
store accepts = record {
  conns = λ p. idle_conn (p + 10);
  next_conn = 3;
  attempt = λ i. record { fd = i + 20; accepted = accepts; at = clock 100 };
  attempts = 0;
  open_fds = 10 ∷ 11 ∷ 12 ∷ [];
}

abbrev pub pool : List ℕ → List ℕ → Pool
pool unused used = record {
  unused_conn_list = unused;
  used_conn_list = used;
  inited = true;
  host = [];
  port = 80;
  timeout_secs = 3;
  init_conn_num = 1;
  min_conn_num = 1;
  max_conn_num = 6;
  max_idle_secs = 60;
}

init_runs :
    pool_init (store true) [] 80 3 0 1 6 60
    ≡ some (store true, record (pool [] []) { init_conn_num = 0 })
unfolding pool_init
init_runs = refl

lends :
    pool_require_connection (store true) (pool (0 ∷ 1 ∷ []) (2 ∷ []))
    ≡ some (store true, pool (1 ∷ []) (2 ∷ 0 ∷ []), some 0)
unfolding pool_require_connection
lends = refl

keeps_lent :
    pool_check (store true) (pool (0 ∷ 1 ∷ []) (2 ∷ [])) (clock 10_000)
    ≡ some (store true, pool (0 ∷ 1 ∷ []) (2 ∷ []))
unfolding pool_check
keeps_lent = refl

pub lent_Inv : Inv (store true) (pool (0 ∷ 1 ∷ []) (2 ∷ []))
unfolding count
lent_Inv = record {
  once = λ p. ground arith;
  allocated = λ p h. ground arith;
  bounded = omega arith;
}

idle_Inv : Inv (store true) (pool (0 ∷ 1 ∷ []) [])
unfolding count
idle_Inv = record {
  once = λ p. ground arith;
  allocated = λ p h. ground arith;
  bounded = omega arith;
}

pool_require_connection_example :
    (st' : Store) × (pool' : Pool) × (r : Option ℕ) × (pool_require_connection
        (store true)
        (pool (0 ∷ 1 ∷ []) (2 ∷ []))
      ≡ some (st', pool', r))
    × Inv st' pool'
    × Lends (pool (0 ∷ 1 ∷ []) (2 ∷ [])) pool' r
    × ((r ≡ none) ↔ IsExhausted (store true) (pool (0 ∷ 1 ∷ []) (2 ∷ [])))
pool_require_connection_example = pool_require_connection_lem lent_Inv

pool_release_connection_example :
    (st' : Store) × (pool' : Pool) × (pool_release_connection
        (store true)
        (pool (0 ∷ 1 ∷ []) (2 ∷ []))
        (some 2)
        true
        (clock 7)
      ≡ some (st', pool'))
    × Inv st' pool'
    × (pool'.unused_conn_list ≡ 0 ∷ 1 ∷ 2 ∷ [])
    × (count 2 pool'.used_conn_list ≡ 0)
    × ((p : ℕ) → p ≢ 2 → count p pool'.used_conn_list ≡ count p (2 ∷ []))
    × (true ≡ true → (st'.conns 2).last_used_time ≡ clock 7)
    × (true ≡ false → (st'.conns 2).error_occured ≡ true)
    × ((p : ℕ) → p ≢ 2 → st'.conns p ≡ (store true).conns p)
pool_release_connection_example =
    pool_release_connection_lem 2 true (clock 7) lent_Inv (unfold count in omega arith)

pool_check_example :
    (st' : Store) × (pool' : Pool) × (pool_check (store true) (pool (0 ∷ 1 ∷ []) []) (clock 10_000)
      ≡ some (st', pool'))
    × Inv st' pool'
    × Checked (store true) (pool (0 ∷ 1 ∷ []) []) (clock 10_000) st' pool'
pool_check_example = pool_check_lem (clock 10_000) idle_Inv

lent_again :
    Reach (store true) (pool (0 ∷ 1 ∷ []) (2 ∷ [])) (store true) (pool (1 ∷ []) (2 ∷ 0 ∷ []))
unfolding pool_require_connection
lent_again = next here (require (some 0) refl)

Reach-Inv_example : Inv (store true) (pool (1 ∷ []) (2 ∷ 0 ∷ []))
Reach-Inv_example = Reach-Inv lent_Inv lent_again

released_once :
    pool_release_connection (store true) (pool (0 ∷ 1 ∷ []) (2 ∷ [])) (some 2) true (clock 7)
    ≡ some (released (store true) 2 true (clock 7), pool (0 ∷ 1 ∷ 2 ∷ []) [])
unfolding pool_release_connection released
released_once = refl
