-- ===== src/Zookeeper/Created.antt =====
-- soaagent/zk_handle.c: which nodes there are after `make_sure_enode`.
use ddmframework.Common.{
  ◌+◌, ◌≤◌, ◌<◌, ◌≡◌, refl, sym, ap, ◌∙◌, true, false, List, [], ◌∷◌, ◌++◌, Option, none, some,
  arith, inl, inr, ◌⊎◌, Key, str_eq, str_eq_iff, Bool-cases, length, length-append, if◌then◌else◌,
  All,
}
use ddmframework.Zookeeper.{
  IsName, NodeType, normal_node, Zookeeper, ZookeeperLaws, IsParent, is_there, exist_node,
  create_node, make_sure_node,
}
use ddmframework.Zookeeper.Nodes.{below, make_sure_all}

-- No node, or one that may have children.
abbrev pub IsFree : Option NodeType → Type 0
IsFree found = (found ≡ none) ⊎ (found ≡ some normal_node)

length-below : (dir name : Key) → length (dir ++ b'/' ∷ name) ≡ length dir + 1 + length name
length-below dir name = omega (arith, length-append dir (b'/' ∷ name))

pub length-below-le : (dir : Key) (names : List Key) → length dir ≤ length (below dir names)
unfolding below
length-below-le dir [] = omega arith
length-below-le dir (name ∷ names) =
    omega (arith, length-below dir name, length-below-le (dir ++ b'/' ∷ name) names)

IsParent-below :
    (node : Key → Option NodeType) (dir name : Key)
    → node (dir ++ b'/' ∷ name) ≡ some normal_node
    → IsParent node (dir ++ b'/' ∷ name)
IsParent-below node [] name h = h
IsParent-below node (c ∷ dir) name h = h

longer : (path p : Key) → length path < length p → str_eq path p ≡ false
longer path p h = elim (Bool-cases (str_eq path p)) [
  | inl e ↦ absurd (omega (arith, h, ap length ((str_eq_iff path p).0 e)))
  | inr e ↦ e
]

pub str_eq_refl : (p : Key) → str_eq p p ≡ true
str_eq_refl p = (str_eq_iff p p).1 refl

module _ (zk : Zookeeper) (laws : ZookeeperLaws zk) where
  -- One node is made sure of.
  make_sure_node_lem :
      (st : zk.Zk) (dir name : Key)
      → IsName name
      → IsParent (laws.node st) dir
      → IsFree (laws.node st (dir ++ b'/' ∷ name))
      → (p : Key)
      → laws.node (make_sure_node zk st (dir ++ b'/' ∷ name)) p
        ≡ (if str_eq (dir ++ b'/' ∷ name) p then some normal_node else laws.node st p)
  unfolding make_sure_node exist_node create_node is_there
  make_sure_node_lem st dir name v parent (inl free) p =
      let path = dir ++ b'/' ∷ name in
      rw (laws.exists st path)
        (rw free ((laws.created st dir name none normal_node v parent free).1 p))
  make_sure_node_lem st dir name v parent (inr there) p =
      let path = dir ++ b'/' ∷ name in
      rw (laws.exists st path) (
        rw there (elim (Bool-cases (str_eq path p)) [
          | inl e ↦ rw e (ap (laws.node st) (sym ((str_eq_iff path p).0 e)) ∙ there)
          | inr e ↦ rw e refl
        ]))

  -- The nodes of a path that the loop makes sure of.
  abbrev pub AllFree : zk.Zk → Key → List Key → Type 0
  AllFree st dir [] = Unit
  AllFree st dir (name ∷ names) =
      IsFree (laws.node st (dir ++ b'/' ∷ name)) × AllFree st (dir ++ b'/' ∷ name) names

  IsFree-after :
      (st : zk.Zk) (dir name p : Key)
      → IsName name
      → IsParent (laws.node st) dir
      → IsFree (laws.node st (dir ++ b'/' ∷ name))
      → IsFree (laws.node st p)
      → IsFree (laws.node (make_sure_node zk st (dir ++ b'/' ∷ name)) p)
  IsFree-after st dir name p v parent free other =
      let after = make_sure_node_lem st dir name v parent free p in
      elim (Bool-cases (str_eq (dir ++ b'/' ∷ name) p)) [
        | inl e ↦ inr (after ∙ rw e refl)
        | inr e ↦
            let same : laws.node (make_sure_node zk st (dir ++ b'/' ∷ name)) p ≡ laws.node st p =
              after ∙ rw e refl in
            rw same other
      ]

  AllFree-after :
      (st : zk.Zk) (dir name at : Key) (names : List Key)
      → IsName name
      → IsParent (laws.node st) dir
      → IsFree (laws.node st (dir ++ b'/' ∷ name))
      → AllFree st at names
      → AllFree (make_sure_node zk st (dir ++ b'/' ∷ name)) at names
  AllFree-after st dir name at [] v parent free h = tt
  AllFree-after st dir name at (n ∷ names) v parent free (h, hs) = (
    IsFree-after st dir name (at ++ b'/' ∷ n) v parent free h,
    AllFree-after st dir name (at ++ b'/' ∷ n) names v parent free hs,
  )

  -- Then the last node may have children, and nothing below it has changed.
  pub make_sure_all_lem :
      (st : zk.Zk) (dir : Key) (names : List Key)
      → All IsName names
      → IsParent (laws.node st) dir
      → AllFree st dir names
      → IsParent (laws.node (make_sure_all zk st dir names)) (below dir names)
        × ((p : Key)
            → length (below dir names) < length p
            → laws.node (make_sure_all zk st dir names) p ≡ laws.node st p)
  unfolding make_sure_all below
  make_sure_all_lem st dir [] v parent free = (parent, λ p h. refl)
  make_sure_all_lem st dir (name ∷ names) (v, vs) parent (free, frees) =
      let path = dir ++ b'/' ∷ name in
      let after = make_sure_node_lem st dir name v parent free in
      let (at_end, same) =
        make_sure_all_lem (make_sure_node zk st path) path names vs
          (IsParent-below (laws.node (make_sure_node zk st path)) dir name
            (after path ∙ rw (str_eq_refl path) refl))
          (AllFree-after st dir name path names v parent free frees) in
      (
        at_end,
        λ p h.
            same p h
            ∙ after p
            ∙ rw (longer path p (omega (arith, h, length-below-le path names))) refl,
      )
