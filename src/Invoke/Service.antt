-- ===== src/Invoke/Service.antt =====
-- soaagent/invoke_stub.c: `invoke_service` on the pool of its node.
use ddmframework.Common.{
  ℕ, ◌≤◌, ◌≡◌, ◌≢◌, ◌↔◌, refl, sym, ap, ◌∙◌, true, List, Option, none, some, arith, inl, inr, ◌⊎◌,
  count, ◌==◌, ==_iff, Bool-cases,
}
use ddmframework.Clock.{Timeval, next_identifier}
use ddmframework.Conn.{Store}
use ddmframework.ConnPool.{Pool, pool_require_connection}
use ddmframework.ConnPool.Invariant.{Inv, Inv-later}
use ddmframework.ConnPool.Operations.{
  Lends, IsExhausted, pool_require_connection_lem, pool_release_connection_lem,
}
use ddmframework.ConnPool.Memory.{pool_require_connection-next, pool_release_connection-next}
use ddmframework.Invoke.Call.{
  Exchange, answered, unanswered, hanging, Peer, retry_times, call_tries, Outcome, invoked,
  not_invoked, in_progress, give_back, call_on_pool,
}
use ddmframework.Invoke.Exchange.{verdict, call_tries_lem}

unfoldable pub outcome_of : Exchange → Outcome
outcome_of (answered body) = invoked body
outcome_of unanswered = not_invoked
outcome_of hanging = in_progress

-- The connections that are lent are those of before, unless the call still waits.
abbrev pub GivesBack : Pool → Pool → Outcome → Type 0
GivesBack pool pool' in_progress = Unit {0}
GivesBack pool pool' (invoked body) =
    (p : ℕ) → count p pool'.used_conn_list ≡ count p pool.used_conn_list
GivesBack pool pool' not_invoked =
    (p : ℕ) → count p pool'.used_conn_list ≡ count p pool.used_conn_list

same_counts :
    (c : ℕ) (before lent after : List ℕ)
    → count c before ≡ 0
    → ((p : ℕ) → p ≢ c → count p lent ≡ count p before)
    → count c after ≡ 0
    → ((p : ℕ) → p ≢ c → count p after ≡ count p lent)
    → (p : ℕ) → count p after ≡ count p before
same_counts c before lent after free others out kept p = elim (Bool-cases (p == c)) [
  | inl e ↦
      ap (λ (n : ℕ). count n after) ((==_iff p c).0 e)
      ∙ out
      ∙ sym free
      ∙ ap (λ (n : ℕ). count n before) (sym ((==_iff p c).0 e))
  | inr e ↦
      let ne : p ≢ c = λ (same : p ≡ c). cc (e, (==_iff p c).1 same) in kept p ne ∙ others p ne
]

-- A lent connection comes back, whatever the tries came to.
give_back_lem :
    {st : Store} (pool lent : Pool) (c : ℕ) (now : Timeval) (e : Exchange)
    → Inv st lent
    → count c pool.used_conn_list ≡ 0
    → count c lent.used_conn_list ≡ 1
    → ((p : ℕ) → p ≢ c → count p lent.used_conn_list ≡ count p pool.used_conn_list)
    → (st' : Store) × (pool' : Pool) × (give_back lent c now (st, e)
        ≡ some (st', pool', outcome_of e))
      × Inv st' pool'
      × (st'.next_conn ≡ st.next_conn)
      × GivesBack pool pool' (outcome_of e)
unfolding give_back outcome_of
give_back_lem {st} pool lent c now hanging v free held others = (st, lent, refl, v, refl, tt)
give_back_lem {st} pool lent c now (answered body) v free held others =
    let (st', pool', run, v', idle, out, kept, t, f, rest) =
      pool_release_connection_lem c true now v (omega arith) in
    (
      st',
      pool',
      rw (run, give_back) refl,
      v',
      pool_release_connection-next st lent c now st' pool' run,
      same_counts c pool.used_conn_list lent.used_conn_list pool'.used_conn_list free others out
          kept,
    )
give_back_lem {st} pool lent c now unanswered v free held others =
    let (st', pool', run, v', idle, out, kept, t, f, rest) =
      pool_release_connection_lem c true now v (omega arith) in
    (
      st',
      pool',
      rw (run, give_back) refl,
      v',
      pool_release_connection-next st lent c now st' pool' run,
      same_counts c pool.used_conn_list lent.used_conn_list pool'.used_conn_list free others out
          kept,
    )

-- How a call ends: -1 at once where the pool cannot lend a connection, and what the tries come to
-- otherwise.
abbrev pub Ends :
    (ℕ → Peer) → Store → Pool → (counter : ℕ) (req_body : List ℕ) (counter' : ℕ) → Outcome → Type 0
Ends peer st pool counter req_body counter' outcome =
    (IsExhausted st pool × (counter' ≡ counter) × (outcome ≡ not_invoked))
    ⊎ ((counter' ≡ next_identifier counter)
        × (outcome ≡ outcome_of (verdict peer (next_identifier counter) req_body)))

-- A call on the pool of its node does not fault and keeps the invariant of the pool. It fails at
-- once, without a new identifier, only where no connection is idle and the pool is full or the node
-- refuses; otherwise it ends with the first response that is valid among two tries. No connection
-- is lost: when the call has ended, with or without a response, the same ones are lent as before.
pub call_on_pool_lem :
    {st : Store} {pool : Pool} (peer : ℕ → Peer) (now : Timeval) (counter : ℕ) (req_body : List ℕ)
    → Inv st pool
    → (counter' : ℕ) × (st' : Store) × (pool' : Pool) × (outcome : Outcome) × (call_on_pool peer now
          st pool counter req_body
        ≡ some (counter', st', pool', outcome))
      × Inv st' pool'
      × (st.next_conn ≤ st'.next_conn)
      × GivesBack pool pool' outcome
      × Ends peer st pool counter req_body counter' outcome
unfolding call_on_pool
call_on_pool_lem {st} {pool} peer now counter req_body v =
    let (st1, lent, r, run, v1, lends, null_iff) = pool_require_connection_lem v in
    by_result st1 lent r run v1 lends null_iff
  where
    by_result :
        (st1 : Store) (lent : Pool) (r : Option ℕ)
        → pool_require_connection st pool ≡ some (st1, lent, r)
        → Inv st1 lent
        → Lends pool lent r
        → ((r ≡ none) ↔ IsExhausted st pool)
        → (counter' : ℕ) × (st' : Store) × (pool' : Pool) × (outcome : Outcome) × (call_on_pool peer
              now st pool counter req_body
            ≡ some (counter', st', pool', outcome))
          × Inv st' pool'
          × (st.next_conn ≤ st'.next_conn)
          × GivesBack pool pool' outcome
          × Ends peer st pool counter req_body counter' outcome
    by_result st1 lent none run v1 lends null_iff = (
      counter,
      st1,
      lent,
      not_invoked,
      rw (run, call_on_pool) refl,
      v1,
      pool_require_connection-next st pool st1 lent none run,
      λ p. ap (λ (q : Pool). count p q.used_conn_list) lends,
      inl (null_iff.0 refl, refl, refl),
    )
    by_result st1 lent (some c) run v1 (free, held, idle, others) null_iff =
        let identifier = next_identifier counter in
        let tried = call_tries retry_times peer 0 st1 c identifier req_body in
        let (ended, next) = call_tries_lem peer st1 c identifier req_body in
        let (st2, pool2, back, v2, next2, same) =
          give_back_lem pool lent c now tried.1
            (Inv-later {st = st1} {st' = tried.0} v1 (omega (arith, next))) free held
            (λ p ne. (others p ne).1) in
        (
          identifier,
          st2,
          pool2,
          outcome_of tried.1,
          rw (run, call_on_pool) (rw back refl),
          v2,
          omega (arith, next, next2, pool_require_connection-next st pool st1 lent (some c) run),
          same,
          inr (refl, ap outcome_of ended),
        )
