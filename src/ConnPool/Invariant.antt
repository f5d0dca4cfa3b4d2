-- ===== src/ConnPool/Invariant.antt =====
-- What holds of a pool between its operations: a connection is in one of the two lists and once,
-- it lies in memory, and the pool is not above its maximum.
use ddmframework.Common.{
  ℕ, suc, ◌+◌, ◌≤◌, ◌<◌, ◌≡◌, [], ◌∷◌, ◌++◌, arith, count, remove, count-append, count-remove,
  length-remove, length-append, length,
}
use ddmframework.Conn.{Store}
use ddmframework.ConnPool.{Pool}

pub record Inv (st : Store) (pool : Pool) : Type 0 where
  pub once : (p : ℕ) → count p pool.unused_conn_list + count p pool.used_conn_list ≤ 1
  pub allocated :
      (p : ℕ) → st.next_conn ≤ p → count p pool.unused_conn_list + count p pool.used_conn_list ≡ 0
  pub bounded : length pool.unused_conn_list + length pool.used_conn_list ≤ pool.max_conn_num

-- The store matters to the invariant by its next free address only.
pub Inv-later :
    {st st' : Store} {pool : Pool} → Inv st pool → st.next_conn ≤ st'.next_conn → Inv st' pool
Inv-later v h = record {
  once = v.once;
  allocated = λ p le. v.allocated p (omega arith);
  bounded = v.bounded;
}

module _ {st : Store} {pool : Pool} (v : Inv st pool) where
  -- A new connection is in neither list.
  pub fresh_unused : count st.next_conn pool.unused_conn_list ≡ 0
  fresh_unused = omega (arith, v.allocated st.next_conn (omega arith))

  pub fresh_used : count st.next_conn pool.used_conn_list ≡ 0
  fresh_used = omega (arith, v.allocated st.next_conn (omega arith))

  -- The lists after a new connection has been put at the end of one.
  pub add_unused-Inv :
      (st' : Store)
      → st'.next_conn ≡ suc st.next_conn
      → length pool.unused_conn_list + length pool.used_conn_list < pool.max_conn_num
      → Inv st' (record pool { unused_conn_list = pool.unused_conn_list ++ st.next_conn ∷ [] })
  unfolding count
  add_unused-Inv st' e room = record {
    once = λ p. ground (
      arith,
      v.once p,
      fresh_unused,
      fresh_used,
      count-append p pool.unused_conn_list (st.next_conn ∷ []),
    );
    allocated = λ p le. ground (
      arith,
      v.allocated p (omega arith),
      count-append p pool.unused_conn_list (st.next_conn ∷ []),
    );
    bounded = omega (arith, length-append pool.unused_conn_list (st.next_conn ∷ []));
  }

  pub add_used-Inv :
      (st' : Store)
      → st'.next_conn ≡ suc st.next_conn
      → length pool.unused_conn_list + length pool.used_conn_list < pool.max_conn_num
      → Inv st' (record pool { used_conn_list = pool.used_conn_list ++ st.next_conn ∷ [] })
  unfolding count
  add_used-Inv st' e room = record {
    once = λ p. ground (
      arith,
      v.once p,
      fresh_unused,
      fresh_used,
      count-append p pool.used_conn_list (st.next_conn ∷ []),
    );
    allocated = λ p le. ground (
      arith,
      v.allocated p (omega arith),
      count-append p pool.used_conn_list (st.next_conn ∷ []),
    );
    bounded = omega (arith, length-append pool.used_conn_list (st.next_conn ∷ []));
  }

  -- The lists after a connection has moved from one to the end of the other.
  pub lend-Inv :
      (c : ℕ)
      → 0 < count c pool.unused_conn_list
      → Inv st (record pool {
        unused_conn_list = remove c pool.unused_conn_list;
        used_conn_list = pool.used_conn_list ++ c ∷ [];
      })
  unfolding count
  lend-Inv c h = record {
    once = λ p. ground (
      arith,
      v.once p,
      count-remove p c pool.unused_conn_list,
      count-append p pool.used_conn_list (c ∷ []),
    );
    allocated = λ p le. ground (
      arith,
      v.allocated p le,
      count-remove p c pool.unused_conn_list,
      count-append p pool.used_conn_list (c ∷ []),
    );
    bounded = omega (
      arith,
      v.bounded,
      length-remove c pool.unused_conn_list h,
      length-append pool.used_conn_list (c ∷ []),
    );
  }

  pub give_back-Inv :
      (st' : Store) (c : ℕ)
      → st'.next_conn ≡ st.next_conn
      → 0 < count c pool.used_conn_list
      → Inv st' (record pool {
        unused_conn_list = pool.unused_conn_list ++ c ∷ [];
        used_conn_list = remove c pool.used_conn_list;
      })
  unfolding count
  give_back-Inv st' c e h = record {
    once = λ p. ground (
      arith,
      v.once p,
      count-remove p c pool.used_conn_list,
      count-append p pool.unused_conn_list (c ∷ []),
    );
    allocated = λ p le. ground (
      arith,
      v.allocated p (omega arith),
      count-remove p c pool.used_conn_list,
      count-append p pool.unused_conn_list (c ∷ []),
    );
    bounded = omega (
      arith,
      v.bounded,
      length-remove c pool.used_conn_list h,
      length-append pool.unused_conn_list (c ∷ []),
    );
  }

  -- The lists after an idle connection has been taken out.
  pub close-Inv :
      (st' : Store) (c : ℕ)
      → st'.next_conn ≡ st.next_conn
      → 0 < count c pool.unused_conn_list
      → Inv st' (record pool { unused_conn_list = remove c pool.unused_conn_list })
  close-Inv st' c e h = record {
    once = λ p. ground (arith, v.once p, count-remove p c pool.unused_conn_list);
    allocated =
        λ p le. ground (arith, v.allocated p (omega arith), count-remove p c pool.unused_conn_list);
    bounded = omega (arith, v.bounded, length-remove c pool.unused_conn_list h);
  }
