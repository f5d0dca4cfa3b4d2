-- ===== src/Zookeeper/Enode.antt =====
-- soaagent/zk_handle.c: `make_sure_enode` on a path of names.
use ddmframework.Common.{
  str_eq_iff, ℕ, suc, zero, ◌+◌, ◌≤◌, ◌<◌, ◌≡◌, ◌≢◌, refl, ap, ◌∙◌, true, false, List, [], ◌∷◌,
  ◌++◌, append_assoc, Option, none, some, arith, inl, inr, Key, str_eq, Bool-cases, length,
  length-append, take, drop, leb, ◌==◌, get_or, All,
}
use ddmframework.Paths.{last_slash, NoSlash}
use ddmframework.Zookeeper.{
  IsName, NodeType, ephemeral_node, Zookeeper, ZookeeperLaws, IsParent, create_node,
  make_sure_node_path, make_sure_enode,
}
use ddmframework.Zookeeper.Nodes.{slashed, below, make_sure_all, make_sure_loop_lem}
use ddmframework.Zookeeper.Created.{AllFree, make_sure_all_lem, length-below-le, str_eq_refl}

later_byte :
    (i m : ℕ) (path : List ℕ)
    → NoSlash (drop (suc i) path)
    → i < m
    → m < length path
    → get_or path m 0 ≢ b'/'
later_byte i m [] h im ml = absurd (omega arith)
later_byte i zero (c ∷ path) h im ml = absurd (omega arith)
later_byte (suc i) (suc m) (c ∷ path) h im ml = later_byte i m path h (omega arith) (omega arith)
later_byte zero (suc zero) (c ∷ []) h im ml = absurd (omega arith)
later_byte zero (suc zero) (c ∷ d ∷ path) (ne, h) im ml = ne
later_byte zero (suc (suc m)) (c ∷ []) h im ml = absurd (omega arith)
later_byte zero (suc (suc m)) (c ∷ d ∷ path) (ne, h) im ml =
    later_byte zero (suc m) (d ∷ path) h (omega arith) (omega arith)

last_slash-at :
    (n i : ℕ) (path : List ℕ)
    → get_or path i 0 ≡ b'/'
    → NoSlash (drop (suc i) path)
    → i < n
    → n ≤ length path
    → last_slash n path ≡ some i
unfolding last_slash
last_slash-at zero i path at h lt le = absurd (omega arith)
last_slash-at (suc n) i path at h lt le = elim (Bool-cases (n == i)) [
  | inl e ↦
      let same : n ≡ i = ground arith in
      rw (ap (λ (j : ℕ). get_or path j 0) same ∙ at) (ap some same)
  | inr e ↦
      rw (not_here (get_or path n 0) (later_byte i n path h (ground arith) (omega arith)))
        (last_slash-at n i path at h (ground arith) (omega arith))
]
  where
    not_here : (c : ℕ) → c ≢ b'/' → (c == b'/') ≡ false
    not_here c ne = ground arith

at_dir : (dir leaf : Key) → get_or (dir ++ b'/' ∷ leaf) (length dir) 0 ≡ b'/'
at_dir [] leaf = refl
at_dir (c ∷ dir) leaf = at_dir dir leaf

after_dir : (dir leaf : Key) → drop (suc (length dir)) (dir ++ b'/' ∷ leaf) ≡ leaf
after_dir [] leaf = refl
after_dir (c ∷ dir) leaf = after_dir dir leaf

upto_dir : (dir leaf : Key) → take (suc (length dir)) (dir ++ b'/' ∷ leaf) ≡ dir ++ b'/' ∷ []
upto_dir [] leaf = refl
upto_dir (c ∷ dir) leaf = ap (◌∷◌ c) (upto_dir dir leaf)

last_slash-dir :
    (dir leaf : Key)
    → NoSlash leaf
    → last_slash (length (dir ++ b'/' ∷ leaf)) (dir ++ b'/' ∷ leaf) ≡ some (length dir)
last_slash-dir dir leaf h =
    last_slash-at (length (dir ++ b'/' ∷ leaf)) (length dir) (dir ++ b'/' ∷ leaf) (at_dir dir leaf)
      (rw (after_dir dir leaf) h) (omega (arith, length-append dir (b'/' ∷ leaf))) (omega arith)

below-slashed :
    (dir : Key) (names : List Key) → below dir names ++ b'/' ∷ [] ≡ dir ++ b'/' ∷ slashed names
unfolding below slashed
below-slashed dir [] = refl
below-slashed dir (name ∷ names) =
    below-slashed (dir ++ b'/' ∷ name) names ∙ append_assoc dir (b'/' ∷ name) (b'/' ∷ slashed names)

shorter : (path p : Key) → length p < length path → str_eq path p ≡ false
shorter path p h = elim (Bool-cases (str_eq path p)) [
  | inl e ↦ absurd (omega (arith, h, ap length ((str_eq_iff path p).0 e)))
  | inr e ↦ e
]

IsParent-kept :
    (after before : Key → Option NodeType) (dir : Key)
    → after dir ≡ before dir
    → IsParent before dir
    → IsParent after dir
IsParent-kept after before [] same h = tt
IsParent-kept after before (c ∷ dir) same h = same ∙ h

length-slashed : (name : Key) (names : List Key) → 1 ≤ length (slashed (name ∷ names))
unfolding slashed
length-slashed name names = omega (arith, length-append name (b'/' ∷ slashed names))

module _ (zk : Zookeeper) where
  enode_below :
      (st : zk.Zk) (path : Key) (value : Option (List ℕ)) (n : ℕ)
      → last_slash (length path) path ≡ some n
      → 1 ≤ n
      → make_sure_enode zk st path value
        ≡ create_node zk (make_sure_node_path zk st (take (suc n) path)).0 path value ephemeral_node
  unfolding make_sure_enode
  enode_below st path value zero e h = absurd (omega arith)
  enode_below st path value (suc n) e h = rw (e, make_sure_enode) refl

  make_sure_node_path_lem :
      (st : zk.Zk) (names : List Key)
      → All IsName names
      → 1 ≤ length (slashed names)
      → make_sure_node_path zk st (b'/' ∷ slashed names) ≡ (make_sure_all zk st [] names, true)
  unfolding make_sure_node_path
  make_sure_node_path_lem st names v h =
      rw (enough (slashed names) h) (ap (λ x. (x, true)) (make_sure_loop_lem zk st [] names v))
    where
      enough : (s : List ℕ) → 1 ≤ length s → leb (length (b'/' ∷ s)) 1 ≡ false
      enough s le = ground arith

  -- `make_sure_enode` of a path of names: all nodes above it are made sure of, and it is created
  -- with no children, so that it goes with its session.
  pub make_sure_enode_lem :
      (laws : ZookeeperLaws zk) (st : zk.Zk) (name : Key) (names : List Key) (leaf : Key)
      (value : Option (List ℕ))
      → All IsName (name ∷ names)
      → IsName leaf
      → AllFree zk laws st [] (name ∷ names)
      → laws.node st (below [] (name ∷ names) ++ b'/' ∷ leaf) ≡ none
      → (st' : zk.Zk) × (make_sure_enode zk st (below [] (name ∷ names) ++ b'/' ∷ leaf) value
          ≡ (st', true))
        × (laws.node st' (below [] (name ∷ names) ++ b'/' ∷ leaf) ≡ some ephemeral_node)
        × IsParent (laws.node st') (below [] (name ∷ names))
  unfolding create_node below
  make_sure_enode_lem laws st name names leaf value v leaf_name frees fresh =
      let dir = below [] (name ∷ names) in
      let path = dir ++ b'/' ∷ leaf in
      let size : length path ≡ length dir + 1 + length leaf =
        omega (arith, length-append dir (b'/' ∷ leaf)) in
      let (parent, same) = make_sure_all_lem zk laws st [] (name ∷ names) v tt frees in
      let st1 = make_sure_all zk st [] (name ∷ names) in
      let (ok, after) =
        laws.created st1 dir leaf value ephemeral_node leaf_name parent
          (same path (omega (arith, size)) ∙ fresh) in
      let above : (make_sure_node_path zk st (take (suc (length dir)) path)).0 ≡ st1 =
        ap (λ x. (make_sure_node_path zk st x).0)
          (upto_dir dir leaf ∙ below-slashed [] (name ∷ names))
        ∙ ap (λ r. r.0) (make_sure_node_path_lem st (name ∷ names) v (length-slashed name names)) in
      (
        (zk.zoo_create st1 path value ephemeral_node).0,
        enode_below st path value (length dir) (last_slash-dir dir leaf leaf_name.0)
              (omega (arith, length-below-le (b'/' ∷ name) names))
            ∙ ap (λ x. create_node zk x path value ephemeral_node) above
            ∙ ap (λ b. ((zk.zoo_create st1 path value ephemeral_node).0, b)) ok,
        after path ∙ rw (str_eq_refl path) refl,
        IsParent-kept (laws.node (zk.zoo_create st1 path value ephemeral_node).0) (laws.node st1)
            dir (after dir ∙ rw (shorter path dir (omega (arith, size))) refl) parent,
      )
