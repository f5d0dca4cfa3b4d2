-- ===== src/ConnPool/History.antt =====
-- A pool over time: its clients, the checker thread and the other pools take turns.
use ddmframework.Common.{
  ℕ, ◌≤◌, ◌<◌, ◌≡◌, ap, subst, Bool, true, List, [], ◌∷◌, ◌++◌, Option, none, some, arith, count,
  mem, count-append, mem-count, ll_append, ll_delete, Bool-cases, Option-cases, inl, inr,
}
use ddmframework.Clock.{Timeval}
use ddmframework.Conn.{Store}
use ddmframework.ConnPool.{Pool, pool_require_connection, pool_release_connection, pool_check}
use ddmframework.ConnPool.Invariant.{Inv, Inv-later}
use ddmframework.ConnPool.Operations.{pool_require_connection_lem, pool_release_connection_lem}
use ddmframework.ConnPool.Lifecycle.{pool_check_lem}

-- One step of a pool. A client releases only a connection that it was lent. The rest of the process
-- may change connections and allocate new ones.
pub data Step (st : Store) (pool : Pool) (st' : Store) (pool' : Pool) : Type 0 where
  require :
      (r : Option ℕ)
      → pool_require_connection st pool ≡ some (st', pool', r)
      → Step st pool st' pool'
  release :
      (c : ℕ) (as_normal : Bool) (now : Timeval)
      → 0 < count c pool.used_conn_list
      → pool_release_connection st pool (some c) as_normal now ≡ some (st', pool')
      → Step st pool st' pool'
  check : (now : Timeval) → pool_check st pool now ≡ some (st', pool') → Step st pool st' pool'
  elsewhere : st.next_conn ≤ st'.next_conn → pool' ≡ pool → Step st pool st' pool'

pub data Reach (st : Store) (pool : Pool) : Store → Pool → Type 0 where
  here : Reach st pool st pool
  next :
      {st₁ st₂ : Store} {pool₁ pool₂ : Pool}
      → Reach st pool st₁ pool₁
      → Step st₁ pool₁ st₂ pool₂
      → Reach st pool st₂ pool₂

-- Two results of one run are one.
same_result {ℓ} : {A : Type ℓ} {o : Option A} {a b : A} → o ≡ some a → o ≡ some b → a ≡ b
same_result p q = cc

Step-Inv :
    {st st' : Store} {pool pool' : Pool} → Step st pool st' pool' → Inv st pool → Inv st' pool'
Step-Inv (require r e) v =
    let (s, p, r', run, v', _, _) = pool_require_connection_lem v in
    subst (λ (t : Store × Pool × Option ℕ). Inv t.0 t.1) (same_result run e) v'
Step-Inv (release c as_normal now held e) v =
    let (s, p, run, v', _, _, _, _, _, _) = pool_release_connection_lem c as_normal now v held in
    subst (λ (t : Store × Pool). Inv t.0 t.1) (same_result run e) v'
Step-Inv (check now e) v =
    let (s, p, run, v', _) = pool_check_lem now v in
    subst (λ (t : Store × Pool). Inv t.0 t.1) (same_result run e) v'
Step-Inv (elsewhere h e) v = rw e (Inv-later v h)

-- Whatever the clients, the checker and the other pools do to a pool, in any order, a connection is
-- idle or lent to one client but never both, and the pool never exceeds its maximum.
pub Reach-Inv :
    {st : Store} {pool : Pool} {st' : Store} {pool' : Pool}
    → Inv st pool
    → Reach st pool st' pool'
    → Inv st' pool'
Reach-Inv v here = v
Reach-Inv v (next r s) = Step-Inv s (Reach-Inv v r)

mem_of_count : (c : ℕ) (xs : List ℕ) → 0 < count c xs → mem c xs ≡ true
mem_of_count c xs h = elim (Bool-cases (mem c xs)) [
  | inl e ↦ e
  | inr e ↦ absurd (omega (arith, mem-count c xs e))
]

ll_append_member : (xs : List ℕ) (c : ℕ) → 0 < count c xs → ll_append xs c ≡ none
unfolding ll_append
ll_append_member xs c h = rw (mem_of_count c xs h)

release_idle :
    (st : Store) (pool : Pool) (c : ℕ) (as_normal : Bool) (now : Timeval)
    → 0 < count c pool.unused_conn_list
    → pool_release_connection st pool (some c) as_normal now ≡ none
unfolding pool_release_connection
release_idle st pool c as_normal now h = elim (Option-cases (ll_delete pool.used_conn_list c)) [
  | inl e ↦ rw e
  | inr (used, e) ↦ rw (e, ll_append_member pool.unused_conn_list c h)
]

count-snoc : (c : ℕ) (xs : List ℕ) → 0 < count c (xs ++ c ∷ [])
unfolding count
count-snoc c xs = ground (arith, count-append c xs (c ∷ []))

-- A connection that is released twice in a row destroys the list of idle connections: the second
-- call either reads through NULL or makes the list cyclic.
pool_release_connection_twice :
    {st : Store} {pool : Pool} (c : ℕ) (n₁ n₂ : Bool) (t₁ t₂ : Timeval) {st' : Store} {pool' : Pool}
    → Inv st pool
    → 0 < count c pool.used_conn_list
    → pool_release_connection st pool (some c) n₁ t₁ ≡ some (st', pool')
    → pool_release_connection st' pool' (some c) n₂ t₂ ≡ none
pool_release_connection_twice c n₁ n₂ t₁ t₂ v held e =
    let (s, p, run, _, unused, _, _, _, _, _) = pool_release_connection_lem c n₁ t₁ v held in
    let same = ap (λ (t : Store × Pool). t.1) (same_result run e) in
    let idle : 0 < count c p.unused_conn_list = rw unused (count-snoc c _) in
    release_idle _ _ c n₂ t₂ (subst (λ (q : Pool). 0 < count c q.unused_conn_list) same idle)
