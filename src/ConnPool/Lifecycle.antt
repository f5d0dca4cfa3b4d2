-- ===== src/ConnPool/Lifecycle.antt =====
-- `pool_init`, `pool_check` and `pool_destroy`.
use ddmframework.Common.{
  ◌/◌, ◌%◌, ◌^◌, ◌-◌, ℕ, zero, suc, ◌+◌, ◌*◌, ◌≤◌, ◌<◌, ◌≡◌, refl, ap₂, Bool, true, false, List, [],
  ◌∷◌, ◌++◌, none, some, arith, count, remove, All, ltb, ◌==◌, ◌&&◌, if◌then◌else◌, length-remove,
  length-append, ll_append_fresh, ll_delete_member, length, Option-cases, Bool-cases, inl, inr, ◌⊎◌,
}
use ddmframework.Clock.{millis, get_time_difference, Timeval}
use ddmframework.Conn.{Conn, Attempt, Store, conn_disconnect, conn_is_idle_timeout}
use ddmframework.ConnPool.{
  Pool, open_conn, fill, empty_pool, pool_init, first_expired, close_idle, pool_check,
  pool_get_used_conn_num, pool_get_idle_conn_num,
}
use ddmframework.ConnPool.Invariant.{Inv, Inv-later, add_unused-Inv, close-Inv, fresh_unused}
use ddmframework.ConnPool.Operations.{open_conn_lem}

-- The milliseconds between the last use of a connection and a time, in 32 bits.
unfoldable pub idle_millis : Conn → Timeval → ℕ
idle_millis conn now =
    ((now.tv_sec * 1000 + now.tv_usec / 1000)
      + 2 ^ 32
      - (conn.last_used_time.tv_sec * 1000 + conn.last_used_time.tv_usec / 1000) % 2 ^ 32)
    % 2 ^ 32

-- A connection was unused for longer than a number of seconds, of 32 bits in milliseconds.
abbrev pub IsUnused : Store → Timeval → (seconds : ℕ) → ℕ → Type 0
IsUnused st now seconds p = seconds * 1000 % 2 ^ 32 < idle_millis (st.conns p) now

abbrev pub IsUsed : Store → Timeval → (seconds : ℕ) → ℕ → Type 0
IsUsed st now seconds p = idle_millis (st.conns p) now ≤ seconds * 1000 % 2 ^ 32

timeout_iff :
    (conn : Conn) (now : Timeval) (seconds : ℕ)
    → conn_is_idle_timeout conn now seconds ≡ ltb (seconds * 1000 % 2 ^ 32) (idle_millis conn now)
unfolding conn_is_idle_timeout get_time_difference millis idle_millis
timeout_iff conn now seconds = refl

first_expired-some :
    (st : Store) (now : Timeval) (limit c : ℕ) (xs : List ℕ)
    → first_expired st now limit xs ≡ some c
    → (0 < count c xs) × IsUnused st now limit c
unfolding first_expired count
first_expired-some st now limit c [] e = cc
first_expired-some st now limit c (x ∷ xs) e =
    ground (arith, first_expired-some st now limit c xs, timeout_iff (st.conns x) now limit)

first_expired-none :
    (st : Store) (now : Timeval) (limit : ℕ) (xs : List ℕ)
    → first_expired st now limit xs ≡ none
    → All (λ p. IsUsed st now limit p) xs
unfolding first_expired
first_expired-none st now limit [] e = tt
first_expired-none st now limit (x ∷ xs) e =
    ground (arith, first_expired-none st now limit xs, timeout_iff (st.conns x) now limit)

-- What a check may do to a pool: close one connection, or nothing.
pub data Checked (st : Store) (pool : Pool) (now : Timeval) (st' : Store) (pool' : Pool)
    : Type 0 where
  closed :
      (c : ℕ)
      → length pool.used_conn_list ≡ 0
      → 0 < count c pool.unused_conn_list
      → IsUnused st now (pool.max_idle_secs * 2) c
      → pool' ≡ record pool { unused_conn_list = remove c pool.unused_conn_list }
      → pool.min_conn_num ≤ length pool'.unused_conn_list
      → suc (length pool'.unused_conn_list) ≡ length pool.unused_conn_list
      → st' ≡ (conn_disconnect st c).0
      → Checked st pool now st' pool'
  kept :
      pool' ≡ pool
      → st' ≡ st
      → ((0 < length pool.used_conn_list)
          ⊎ (length pool.unused_conn_list ≤ pool.min_conn_num)
          ⊎ All (λ p. IsUsed st now (pool.max_idle_secs * 2) p) pool.unused_conn_list)
      → Checked st pool now st' pool'

check_test : Pool → Bool
check_test pool =
    pool_get_used_conn_num pool == 0 && ltb pool.min_conn_num (pool_get_idle_conn_num pool)

check_test-true :
    (pool : Pool)
    → check_test pool ≡ true
    → (length pool.used_conn_list ≡ 0) × (pool.min_conn_num < length pool.unused_conn_list)
unfolding check_test pool_get_used_conn_num pool_get_idle_conn_num
check_test-true pool e = ground arith

check_test-false :
    (pool : Pool)
    → check_test pool ≡ false
    → (0 < length pool.used_conn_list) ⊎ (length pool.unused_conn_list ≤ pool.min_conn_num)
unfolding check_test pool_get_used_conn_num pool_get_idle_conn_num
check_test-false pool e = ground arith

check_run :
    (st : Store) (pool : Pool) (now : Timeval)
    → pool_check st pool now ≡ (
        if check_test pool
        then close_idle st pool
            (first_expired st now (pool.max_idle_secs * 2) pool.unused_conn_list)
        else some (st, pool))
unfolding pool_check check_test
check_run st pool now = refl

close_idle_lem :
    (st : Store) (pool : Pool) (c : ℕ)
    → 0 < count c pool.unused_conn_list
    → close_idle st pool (some c)
      ≡ some (
        (conn_disconnect st c).0,
        record pool { unused_conn_list = remove c pool.unused_conn_list },
      )
unfolding close_idle
close_idle_lem st pool c h = rw (ll_delete_member _ _ h)

disconnect_next : (st : Store) (c : ℕ) → (conn_disconnect st c).0.next_conn ≡ st.next_conn
unfolding conn_disconnect
disconnect_next st c = refl

-- `pool_check` keeps the invariant and never faults. It closes at most one connection, only while
-- none is lent and more than the minimum are idle, only one whose last use is more than twice the
-- allowed time ago, both in milliseconds of 32 bits, and if there is such a one it closes one;
-- otherwise it changes nothing.
pub pool_check_lem :
    {st : Store} {pool : Pool} (now : Timeval)
    → Inv st pool
    → (st' : Store) × (pool' : Pool) × (pool_check st pool now ≡ some (st', pool'))
      × Inv st' pool'
      × Checked st pool now st' pool'
unfolding close_idle
pool_check_lem {st} {pool} now v = elim (Bool-cases (check_test pool)) [
  | inr no_check ↦ (
    st,
    pool,
    rw (check_run st pool now, no_check),
    v,
    kept refl refl
        elim (check_test-false pool no_check) [ inl lent ↦ inl lent | inr few ↦ inr (inl few) ],
  )
  | inl check ↦
      elim (Option-cases (first_expired st now (pool.max_idle_secs * 2) pool.unused_conn_list)) [
        | inl fresh ↦ (
          st,
          pool,
          rw (check_run st pool now, check, fresh),
          v,
          kept refl refl (inr (inr (first_expired-none _ _ _ _ fresh))),
        )
        | inr (c, old) ↦
            let (here, expired) = first_expired-some st now _ c pool.unused_conn_list old in
            let (idle, above) = check_test-true pool check in
            let left = length-remove c pool.unused_conn_list here in
            (
              (conn_disconnect st c).0,
              record pool { unused_conn_list = remove c pool.unused_conn_list },
              rw (check_run st pool now, check, old) (close_idle_lem st pool c here),
              close-Inv v _ c (disconnect_next st c) here,
              closed c idle here expired refl (omega arith) left refl,
            )
      ]
]

-- How many of the `n` answers from the `i`-th on accept a connection.
pub accepted_of : (ℕ → Attempt) → ℕ → ℕ → ℕ
accepted_of attempt i zero = 0
accepted_of attempt i (suc n) =
    (if (attempt i).accepted then 1 else 0) + accepted_of attempt (suc i) n

open_conn_net :
    (st : Store) (pool : Pool)
    → let st' = (open_conn st pool).0 in
      (st'.attempts ≡ suc st.attempts) × (st'.attempt ≡ st.attempt)
unfolding open_conn
open_conn_net st pool = ground arith

accepted_later :
    (st : Store) (pool : Pool) (n : ℕ)
    → let st' = (open_conn st pool).0 in
      accepted_of st'.attempt st'.attempts n ≡ accepted_of st.attempt (suc st.attempts) n
accepted_later st pool n =
    let net = open_conn_net st pool in ap₂ (λ f i. accepted_of f i n) net.1 net.0

fill-none :
    (n : ℕ) (st : Store) (pool : Pool)
    → (open_conn st pool).1 ≡ none
    → fill (suc n) st pool ≡ fill n (open_conn st pool).0 pool
unfolding fill
fill-none n st pool e = rw e

fill-some :
    (n : ℕ) (st : Store) (pool : Pool) (c : ℕ)
    → (open_conn st pool).1 ≡ some c
    → count c pool.unused_conn_list ≡ 0
    → fill (suc n) st pool
      ≡ fill n
          (open_conn st pool).0
          (record pool { unused_conn_list = pool.unused_conn_list ++ c ∷ [] })
unfolding fill
fill-some n st pool c e fresh = rw (e, ll_append_fresh _ _ fresh)

fill_lem :
    (n : ℕ) (st : Store) (pool : Pool)
    → Inv st pool
    → length pool.unused_conn_list + length pool.used_conn_list + n ≤ pool.max_conn_num
    → (st' : Store) × (xs : List ℕ) × (fill n st pool
        ≡ some (st', record pool { unused_conn_list = xs }))
      × Inv st' (record pool { unused_conn_list = xs })
      × (length xs ≡ length pool.unused_conn_list + accepted_of st.attempt st.attempts n)
unfolding accepted_of
fill_lem zero st pool v room = (st, pool.unused_conn_list, unfold fill in refl, v, omega arith)
fill_lem (suc n) st pool v room = elim (open_conn_lem st pool).1 [
  | inl (failed, refused) ↦
      let later = Inv-later v (omega (arith, open_conn_lem st pool)) in
      let (st', xs, run, v', more) = fill_lem n (open_conn st pool).0 pool later (omega arith) in
      (
        st',
        xs,
        rw (fill-none n st pool failed) run,
        v',
        rw refused (omega (arith, more, accepted_later st pool n)),
      )
  | inr (opened, accepted) ↦
      let longer = pool.unused_conn_list ++ st.next_conn ∷ [] in
      let added = add_unused-Inv v (open_conn st pool).0 (open_conn_lem st pool).0 (omega arith) in
      let len = length-append pool.unused_conn_list (st.next_conn ∷ []) in
      let (st', xs, run, v', more) =
        fill_lem n (open_conn st pool).0 (record pool { unused_conn_list = longer }) added
          (omega arith) in
      (
        st',
        xs,
        rw (fill-some n st pool _ opened (fresh_unused v)) run,
        v',
        rw accepted (omega (arith, more, len, accepted_later st pool n)),
      )
]

-- The pool before its first connection.
empty_Inv :
    (st : Store) (pool : Pool) → pool.unused_conn_list ≡ [] → pool.used_conn_list ≡ [] → Inv st pool
unfolding count
empty_Inv st pool e f = record {
  once = λ p. ground arith;
  allocated = λ p h. ground arith;
  bounded = ground arith;
}

-- A pool whose first connections do not exceed its maximum starts with its invariant, marked as
-- ready, with nothing lent, and with one idle connection for each connection that the node
-- accepted.
pub pool_init_lem :
    (st : Store) (host : List ℕ) (port timeoutsecs initial least most idle_secs : ℕ)
    → initial ≤ most
    → (st' : Store) × (pool : Pool) × (pool_init st host port timeoutsecs initial least most
          idle_secs
        ≡ some (st', pool))
      × Inv st' pool
      × (pool.inited ≡ true)
      × (pool.used_conn_list ≡ [])
      × (length pool.unused_conn_list ≡ accepted_of st.attempt st.attempts initial)
unfolding pool_init
pool_init_lem st host port timeoutsecs initial least most idle_secs fits =
    let start = empty_pool host port timeoutsecs initial least most idle_secs in
    let (st', xs, run, v, len) =
      fill_lem initial st start (empty_Inv st start refl refl) (omega arith) in
    (
      st',
      record start { unused_conn_list = xs; inited = true },
      rw run refl,
      record { once = v.once; allocated = v.allocated; bounded = v.bounded },
      refl,
      refl,
      omega (arith, len),
    )
