-- ===== src/ConnPool/Memory.antt =====
-- The operations of the pool allocate connections and never take a free address back.
use ddmframework.Common.{
  sym, ◌∙◌, ℕ, zero, suc, List, ◌≤◌, ◌≡◌, true, Option, some, arith, ll_append, ll_delete,
  Option-cases, inl, inr,
}
use ddmframework.Clock.{Timeval}
use ddmframework.Conn.{Store, write_conn}
use ddmframework.ConnPool.{
  Pool, open_conn, fill, empty_pool, pool_init, require_idle, require_new, pool_require_connection,
  pool_release_connection,
}
use ddmframework.ConnPool.Operations.{open_conn_lem, require_cases}

require_idle-next :
    (st : Store) (pool : Pool) (c : ℕ) (st' : Store) (pool' : Pool) (r : Option ℕ)
    → require_idle st pool c ≡ some (st', pool', r)
    → st.next_conn ≤ st'.next_conn
unfolding require_idle
require_idle-next st pool c st' pool' r e =
    elim (Option-cases (ll_delete pool.unused_conn_list c)) [
      | inl d ↦ ground arith
      | inr (unused, d) ↦ elim (Option-cases (ll_append pool.used_conn_list c)) [
        | inl a ↦ ground arith
        | inr (used, a) ↦ ground arith
      ]
    ]

require_new-next :
    (st : Store) (pool : Pool) (st' : Store) (pool' : Pool) (r : Option ℕ)
    → require_new st pool ≡ some (st', pool', r)
    → st.next_conn ≤ st'.next_conn
unfolding require_new
require_new-next st pool st' pool' r e = elim (Option-cases (open_conn st pool).1) [
  | inl d ↦ ground (arith, open_conn_lem st pool)
  | inr (c, d) ↦ elim (Option-cases (ll_append pool.used_conn_list c)) [
    | inl a ↦ ground arith
    | inr (used, a) ↦ ground (arith, open_conn_lem st pool)
  ]
]

pub pool_require_connection-next :
    (st : Store) (pool : Pool) (st' : Store) (pool' : Pool) (r : Option ℕ)
    → pool_require_connection st pool ≡ some (st', pool', r)
    → st.next_conn ≤ st'.next_conn
pool_require_connection-next st pool st' pool' r e = elim (require_cases st pool) [
  | inl (c, rest, list, run) ↦ require_idle-next st pool c st' pool' r (sym run ∙ e)
  | inr (inl (empty, room, run)) ↦ require_new-next st pool st' pool' r (sym run ∙ e)
  | inr (inr (empty, full, run)) ↦ ground arith
]

pub pool_release_connection-next :
    (st : Store) (pool : Pool) (c : ℕ) (now : Timeval) (st' : Store) (pool' : Pool)
    → pool_release_connection st pool (some c) true now ≡ some (st', pool')
    → st'.next_conn ≡ st.next_conn
unfolding pool_release_connection write_conn
pool_release_connection-next st pool c now st' pool' e =
    elim (Option-cases (ll_delete pool.used_conn_list c)) [
      | inl d ↦ ground arith
      | inr (unused, d) ↦ elim (Option-cases (ll_append pool.unused_conn_list c)) [
        | inl a ↦ ground arith
        | inr (used, a) ↦ ground arith
      ]
    ]

fill-next :
    (n : ℕ) (st : Store) (pool : Pool) (st' : Store) (pool' : Pool)
    → fill n st pool ≡ some (st', pool')
    → st.next_conn ≤ st'.next_conn
unfolding fill
fill-next zero st pool st' pool' e = ground arith
fill-next (suc n) st pool st' pool' e =
    let later = (open_conn st pool).0 in
    elim (Option-cases (open_conn st pool).1) [
      | inl d ↦
          omega (arith, open_conn_lem st pool, fill-next n later pool st' pool' (rw (d, fill) at e))
      | inr (c, d) ↦ elim (Option-cases (ll_append pool.unused_conn_list c)) [
        | inl a ↦ absurd (cc (rw (d, a, fill) at e))
        | inr (unused, a) ↦ omega (
          arith,
          open_conn_lem st pool,
          fill-next n later (record pool { unused_conn_list = unused }) st' pool'
              (rw (d, a, fill) at e),
        )
      ]
    ]

pub pool_init-next :
    (st : Store) (host : List ℕ) (port timeoutsecs initial least most idle_secs : ℕ) (st' : Store)
    (pool : Pool)
    → pool_init st host port timeoutsecs initial least most idle_secs ≡ some (st', pool)
    → st.next_conn ≤ st'.next_conn
unfolding pool_init
pool_init-next st host port timeoutsecs initial least most idle_secs st' pool e =
    let start = empty_pool host port timeoutsecs initial least most idle_secs in
    elim (Option-cases (fill initial st start)) [
      | inl f ↦ absurd (cc (rw (f, pool_init) at e))
      | inr ((st'', filled), f) ↦
          ground (arith, fill-next initial st start st'' filled f, rw (f, pool_init) at e)
    ]
