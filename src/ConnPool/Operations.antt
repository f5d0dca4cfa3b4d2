-- ===== src/ConnPool/Operations.antt =====
-- The operations of the pool run without a fault and keep its invariant.
use ddmframework.Common.{
  ℕ, suc, ◌+◌, ◌≤◌, ◌<◌, ◌≡◌, refl, ap, ◌≢◌, ◌↔◌, Bool, true, false, List, [], ◌∷◌, ◌++◌, Option,
  none, some, arith, count, remove, count-append, count-remove, ll_append_fresh, ll_delete_member,
  length, Bool-cases, List-cases, ltb, inl, inr, ◌⊎◌,
}
use ddmframework.Clock.{Timeval}
use ddmframework.Conn.{Store, write_conn}
use ddmframework.ConnPool.{
  Pool, open_conn, require_idle, require_new, pool_require_connection, pool_release_connection,
}
use ddmframework.ConnPool.Invariant.{
  Inv, Inv-later, add_used-Inv, lend-Inv, give_back-Inv, fresh_unused, fresh_used,
}

-- What `open_conn` does to the store, and what it returns.
pub open_conn_lem :
    (st : Store) (pool : Pool)
    → let (st', opened) = open_conn st pool in
      (st'.next_conn ≡ suc st.next_conn)
      × (((opened ≡ none) × ((st.attempt st.attempts).accepted ≡ false))
          ⊎ ((opened ≡ some st.next_conn) × ((st.attempt st.attempts).accepted ≡ true)))
unfolding open_conn
open_conn_lem st pool = ground arith

-- The connection that a call handed out was lent to nobody and is lent to its caller alone, and
-- no other connection has moved; with NULL the lists are as they were.
abbrev pub Lends : Pool → Pool → Option ℕ → Type 0
Lends pool pool' none = pool' ≡ pool
Lends pool pool' (some c) =
    (count c pool.used_conn_list ≡ 0)
    × (count c pool'.used_conn_list ≡ 1)
    × (count c pool'.unused_conn_list ≡ 0)
    × ((p : ℕ)
        → p ≢ c
        → (count p pool'.unused_conn_list ≡ count p pool.unused_conn_list)
          × (count p pool'.used_conn_list ≡ count p pool.used_conn_list))

require_idle_lem :
    {st : Store} {pool : Pool} (c : ℕ)
    → Inv st pool
    → 0 < count c pool.unused_conn_list
    → (pool' : Pool) × (require_idle st pool c ≡ some (st, pool', some c))
      × Inv st pool'
      × Lends pool pool' (some c)
unfolding require_idle count
require_idle_lem {st} {pool} c v h =
    let out : count c pool.used_conn_list ≡ 0 = omega (arith, v.once c) in
    (
      record pool {
        unused_conn_list = remove c pool.unused_conn_list;
        used_conn_list = pool.used_conn_list ++ c ∷ [];
      },
      rw (ll_delete_member _ _ h, ll_append_fresh _ _ out),
      lend-Inv v c h,
      (
        out,
        ground (arith, count-append c pool.used_conn_list (c ∷ [])),
        ground (arith, v.once c, count-remove c c pool.unused_conn_list),
        λ p ne. (
          ground (arith, count-remove p c pool.unused_conn_list),
          ground (arith, count-append p pool.used_conn_list (c ∷ [])),
        ),
      ),
    )

require_new_lem :
    {st : Store} {pool : Pool}
    → Inv st pool
    → length pool.unused_conn_list + length pool.used_conn_list < pool.max_conn_num
    → (st' : Store) × (pool' : Pool) × (r : Option ℕ) × (require_new st pool ≡ some (st', pool', r))
      × Inv st' pool'
      × Lends pool pool' r
      × ((r ≡ none) ↔ ((st.attempt st.attempts).accepted ≡ false))
unfolding require_new count
require_new_lem {st} {pool} v room = elim (open_conn_lem st pool).1 [
  | inl (failed, refused) ↦ (
    (open_conn st pool).0,
    pool,
    none,
    rw failed,
    Inv-later v (omega (arith, open_conn_lem st pool)),
    refl,
    (λ _. refused, λ _. refl),
  )
  | inr (opened, accepted) ↦
      let c = st.next_conn in
      (
        (open_conn st pool).0,
        record pool { used_conn_list = pool.used_conn_list ++ c ∷ [] },
        some c,
        rw (opened, ll_append_fresh _ _ (fresh_used v)),
        add_used-Inv v _ (open_conn_lem st pool).0 room,
        (
          fresh_used v,
          ground (arith, fresh_used v, count-append c pool.used_conn_list (c ∷ [])),
          fresh_unused v,
          λ p ne. (refl, ground (arith, count-append p pool.used_conn_list (c ∷ []))),
        ),
        (λ e. cc, λ e. cc),
      )
]

-- When a call may return NULL: no connection is idle, and either the pool is full or the node
-- refuses a new connection.
abbrev pub IsExhausted : Store → Pool → Type 0
IsExhausted st pool =
    (pool.unused_conn_list ≡ [])
    × ((pool.max_conn_num ≤ length pool.used_conn_list)
        ⊎ ((st.attempt st.attempts).accepted ≡ false))

-- How `pool_require_connection` branches.
pub require_cases :
    (st : Store) (pool : Pool)
    → ((c : ℕ) × (rest : List ℕ) × (pool.unused_conn_list ≡ c ∷ rest)
        × (pool_require_connection st pool ≡ require_idle st pool c))
      ⊎ ((pool.unused_conn_list ≡ [])
          × (length pool.used_conn_list < pool.max_conn_num)
          × (pool_require_connection st pool ≡ require_new st pool))
      ⊎ ((pool.unused_conn_list ≡ [])
          × (pool.max_conn_num ≤ length pool.used_conn_list)
          × (pool_require_connection st pool ≡ some (st, pool, none)))
unfolding pool_require_connection
require_cases st pool = elim (List-cases pool.unused_conn_list) [
  | inr (c, rest, e) ↦ inl (c, rest, e, ground arith)
  | inl e ↦ elim (Bool-cases (ltb (length pool.used_conn_list + 0) pool.max_conn_num)) [
    | inl room ↦ inr (inl (e, ground arith, ground arith))
    | inr full ↦ inr (inr (e, ground arith, ground arith))
  ]
]

-- `pool_require_connection` never faults and keeps the invariant, so the pool never exceeds its
-- maximum; it lends its caller a connection that nobody else holds, and returns NULL exactly when
-- no connection is idle and the pool is full or the node refuses a new connection.
pub pool_require_connection_lem :
    {st : Store} {pool : Pool}
    → Inv st pool
    → (st' : Store) × (pool' : Pool) × (r : Option ℕ) × (pool_require_connection st pool
        ≡ some (st', pool', r))
      × Inv st' pool'
      × Lends pool pool' r
      × ((r ≡ none) ↔ IsExhausted st pool)
unfolding count
pool_require_connection_lem {st} {pool} v = elim (require_cases st pool) [
  | inl (c, rest, e, run) ↦
      let (pool', idle, v', lends) = require_idle_lem c v (rw e (ground arith)) in
      (st, pool', some c, rw run idle, v', lends, (λ h. cc, λ (empty, _). cc (e, empty)))
  | inr (inl (empty, room, run)) ↦
      let (st', pool', r, new, v', lends, refused) =
        require_new_lem v (omega (arith, ap length empty)) in
      (
        st',
        pool',
        r,
        rw run new,
        v',
        lends,
        (
          λ h. (empty, inr (refused.0 h)),
          λ (_, why). elim why [
            | inl full ↦ absurd (omega arith)
            | inr no_answer ↦ refused.1 no_answer
          ],
        ),
      )
  | inr (inr (empty, full, run)) ↦
      (st, pool, none, run, v, refl, (λ _. (empty, inl full), λ _. refl))
]

-- The store after a release.
unfoldable pub released : Store → ℕ → Bool → Timeval → Store
unfolding write_conn
released st c true now = write_conn st c (record (st.conns c) { last_used_time = now })
released st c false now = write_conn st c (record (st.conns c) { error_occured = true })

release_run :
    (st : Store) (pool : Pool) (c : ℕ) (as_normal : Bool) (now : Timeval)
    → 0 < count c pool.used_conn_list
    → count c pool.unused_conn_list ≡ 0
    → pool_release_connection st pool (some c) as_normal now
      ≡ some (
        released st c as_normal now,
        record pool {
          unused_conn_list = pool.unused_conn_list ++ c ∷ [];
          used_conn_list = remove c pool.used_conn_list;
        },
      )
unfolding pool_release_connection released
release_run st pool c true now held out = rw (ll_delete_member _ _ held, ll_append_fresh _ _ out)
release_run st pool c false now held out = rw (ll_delete_member _ _ held, ll_append_fresh _ _ out)

-- A connection that its caller holds comes back to the end of the idle list without a fault, and
-- the invariant is kept; the other lent connections stay lent. After a normal release the time of
-- its last use is `now`, otherwise it is marked as failed; no other connection changes.
pub pool_release_connection_lem :
    {st : Store} {pool : Pool} (c : ℕ) (as_normal : Bool) (now : Timeval)
    → Inv st pool
    → 0 < count c pool.used_conn_list
    → (st' : Store) × (pool' : Pool) × (pool_release_connection st pool (some c) as_normal now
        ≡ some (st', pool'))
      × Inv st' pool'
      × (pool'.unused_conn_list ≡ pool.unused_conn_list ++ c ∷ [])
      × (count c pool'.used_conn_list ≡ 0)
      × ((p : ℕ) → p ≢ c → count p pool'.used_conn_list ≡ count p pool.used_conn_list)
      × (as_normal ≡ true → (st'.conns c).last_used_time ≡ now)
      × (as_normal ≡ false → (st'.conns c).error_occured ≡ true)
      × ((p : ℕ) → p ≢ c → st'.conns p ≡ st.conns p)
unfolding released
pool_release_connection_lem {st} {pool} c as_normal now v held =
    let used = pool.used_conn_list in
    let out : count c pool.unused_conn_list ≡ 0 = omega (arith, v.once c) in
    (
      released st c as_normal now,
      _,
      release_run st pool c as_normal now held out,
      give_back-Inv v _ c (ground arith) held,
      refl,
      ground (arith, v.once c, count-remove c c used),
      λ p ne. ground (arith, count-remove p c used),
      λ e. rw e (ground arith),
      λ e. rw e (ground arith),
      λ p ne. ground arith,
    )
