-- ===== src/Zookeeper.antt =====
-- soaagent/zk_handle.c (soaregister/zk_handle.c is the same but for one line that prints): nodes of
-- zookeeper, with the nodes above them. The functions of the zookeeper client are a parameter.
pub mod Nodes
pub mod Created
pub mod Enode
use ddmframework.Common.{
  ◌≢◌, All, ℕ, suc, zero, ◌+◌, ◌≤◌, ◌≡◌, Bool, true, false, List, [], ◌∷◌, ◌++◌, Option, none, some,
  Key, str_eq, length, take, drop, leb, ◌==◌, if◌then◌else◌,
}
use ddmframework.Url.{codes}
use ddmframework.Paths.{last_slash, NoSlash}

-- node_type
pub data NodeType : Type 0 where
  normal_node : NodeType
  ephemeral_node : NodeType

-- The client: what the service holds, and three of its functions, each with whether it gives ZOK.
pub record Zookeeper : Type 1 where
  pub Zk : Type 0
  pub zoo_exists : Zk → Key → Bool
  pub zoo_create : Zk → Key → Option (List ℕ) → NodeType → Zk × Bool
  pub zoo_delete : Zk → Key → Zk × Bool

module _ (zk : Zookeeper) where
  unfoldable pub exist_node : zk.Zk → Key → Bool
  exist_node st path = zk.zoo_exists st path

  -- The flag is true for the result 0, here and below.
  unfoldable pub create_node : zk.Zk → Key → Option (List ℕ) → NodeType → zk.Zk × Bool
  create_node st path value type = zk.zoo_create st path value type

  unfoldable pub delete_node : zk.Zk → Key → zk.Zk × Bool
  delete_node st path = zk.zoo_delete st path

  unfoldable pub make_sure_node : zk.Zk → Key → zk.Zk
  unfolding exist_node create_node
  make_sure_node st path =
      if exist_node st path then st else (create_node st path none normal_node).0

  -- The loop: `done` ends at `str_ptr`, `comp` has been searched for a slash in vain, and two slashes
  -- with nothing between them end it.
  unfoldable pub make_sure_loop : zk.Zk → (done comp rest : List ℕ) → zk.Zk
  unfolding make_sure_node
  make_sure_loop st done comp [] = st
  make_sure_loop st done [] (c ∷ rest) =
      let later = make_sure_loop st done (c ∷ []) rest in if c == b'/' then st else later
  make_sure_loop st done (d ∷ comp) (c ∷ rest) =
      let path = done ++ d ∷ comp in
      let created = make_sure_loop (make_sure_node st path) (path ++ b'/' ∷ []) [] rest in
      let later = make_sure_loop st done ((d ∷ comp) ++ c ∷ []) rest in
      if c == b'/' then created else later

  unfoldable pub make_sure_node_path : zk.Zk → (path : List ℕ) → zk.Zk × Bool
  unfolding make_sure_loop
  make_sure_node_path st path =
      if leb (length path) 1
      then (st, false)
      else (make_sure_loop st (take 1 path) [] (drop 1 path), true)

  unfoldable pub make_sure_enode : zk.Zk → (path : Key) → (value : Option (List ℕ)) → zk.Zk × Bool
  unfolding make_sure_node_path create_node last_slash
  make_sure_enode st path value = elim (last_slash (length path) path) [
    | none ↦ (st, false)
    | some zero ↦ (st, false)
    | some (suc delim) ↦
        create_node (make_sure_node_path st (take (suc (suc delim)) path)).0 path value
          ephemeral_node
  ]

-- The root, or a node that may have children.
abbrev pub IsParent : (Key → Option NodeType) → Key → Type 0
IsParent node [] = Unit
IsParent node (c ∷ dir) = node (c ∷ dir) ≡ some normal_node

unfoldable pub is_there : Option NodeType → Bool
is_there none = false
is_there (some type) = true

-- A name that zookeeper accepts, among those of printable ASCII.
abbrev pub IsName : List ℕ → Type 0
IsName name =
    NoSlash name
    × (1 ≤ length name)
    × All (λ (c : ℕ). (32 ≤ c) × (c ≤ 126)) name
    × (name ≢ codes ".")
    × (name ≢ codes "..")

-- What zookeeper documents, for a connection that holds: which nodes there are, and that a node is
-- created where there is none below a node that may have children.
pub record ZookeeperLaws (zk : Zookeeper) : Type 0 where
  pub node : zk.Zk → Key → Option NodeType
  pub exists : (st : zk.Zk) (path : Key) → zk.zoo_exists st path ≡ is_there (node st path)
  pub created :
      (st : zk.Zk) (dir name : Key) (value : Option (List ℕ)) (type : NodeType)
      → IsName name
      → IsParent (node st) dir
      → node st (dir ++ b'/' ∷ name) ≡ none
      → ((zk.zoo_create st (dir ++ b'/' ∷ name) value type).1 ≡ true)
        × ((p : Key)
            → node (zk.zoo_create st (dir ++ b'/' ∷ name) value type).0 p
              ≡ (if str_eq (dir ++ b'/' ∷ name) p then some type else node st p))
