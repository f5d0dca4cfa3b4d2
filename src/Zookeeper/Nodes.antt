-- ===== src/Zookeeper/Nodes.antt =====
-- soaagent/zk_handle.c: `make_sure_node_path` and `make_sure_enode` on a path of names.
use ddmframework.Common.{
  ℕ, ◌≡◌, ◌≢◌, refl, sym, ap, ◌∙◌, false, List, [], ◌∷◌, ◌++◌, append_assoc, append-nil, arith, Key,
  ◌==◌, All,
}
use ddmframework.Paths.{NoSlash}
use ddmframework.Zookeeper.{IsName, Zookeeper, make_sure_node, make_sure_loop}

-- The text of a path below a directory, and the directory it leads to.
unfoldable pub slashed : List Key → List ℕ
slashed [] = []
slashed (name ∷ names) = name ++ b'/' ∷ slashed names

unfoldable pub below : Key → List Key → Key
below dir [] = dir
below dir (name ∷ names) = below (dir ++ b'/' ∷ name) names

not_slash : (c : ℕ) → c ≢ b'/' → (c == b'/') ≡ false
not_slash c ne = ground arith

module _ (zk : Zookeeper) where
  unfoldable pub make_sure_all : zk.Zk → Key → List Key → zk.Zk
  unfolding make_sure_node
  make_sure_all st dir [] = st
  make_sure_all st dir (name ∷ names) =
      make_sure_all (make_sure_node zk st (dir ++ b'/' ∷ name)) (dir ++ b'/' ∷ name) names

  loop_first :
      (st : zk.Zk) (done : List ℕ) (c : ℕ) (rest : List ℕ)
      → c ≢ b'/'
      → make_sure_loop zk st done [] (c ∷ rest) ≡ make_sure_loop zk st done (c ∷ []) rest
  unfolding make_sure_loop
  loop_first st done c rest ne = rw (not_slash c ne) refl

  loop_next :
      (st : zk.Zk) (done : List ℕ) (d : ℕ) (comp : List ℕ) (c : ℕ) (rest : List ℕ)
      → c ≢ b'/'
      → make_sure_loop zk st done (d ∷ comp) (c ∷ rest)
        ≡ make_sure_loop zk st done (d ∷ (comp ++ c ∷ [])) rest
  unfolding make_sure_loop
  loop_next st done d comp c rest ne = rw (not_slash c ne) refl

  loop_slash :
      (st : zk.Zk) (done : List ℕ) (d : ℕ) (comp rest : List ℕ)
      → make_sure_loop zk st done (d ∷ comp) (b'/' ∷ rest)
        ≡ make_sure_loop zk
            (make_sure_node zk st (done ++ d ∷ comp))
            (done ++ d ∷ comp ++ b'/' ∷ [])
            []
            rest
  unfolding make_sure_loop
  loop_slash st done d comp rest = refl

  -- The search for the next slash.
  loop_scan :
      (st : zk.Zk) (done : List ℕ) (d : ℕ) (comp name rest : List ℕ)
      → NoSlash name
      → make_sure_loop zk st done (d ∷ comp) (name ++ rest)
        ≡ make_sure_loop zk st done (d ∷ (comp ++ name)) rest
  loop_scan st done d comp [] rest h =
      ap (λ x. make_sure_loop zk st done (d ∷ x) rest) (sym (append-nil comp))
  loop_scan st done d comp (c ∷ name) rest (ne, h) =
      loop_next st done d comp c (name ++ rest) ne
      ∙ loop_scan st done d (comp ++ c ∷ []) name rest h
      ∙ ap (λ x. make_sure_loop zk st done (d ∷ x) rest) (append_assoc comp (c ∷ []) name)

  -- The loop makes sure of one node after the other.
  pub make_sure_loop_lem :
      (st : zk.Zk) (dir : Key) (names : List Key)
      → All IsName names
      → make_sure_loop zk st (dir ++ b'/' ∷ []) [] (slashed names) ≡ make_sure_all st dir names
  unfolding slashed make_sure_all make_sure_loop
  make_sure_loop_lem st dir [] h = refl
  make_sure_loop_lem st dir ([] ∷ names) ((no_slash, some_byte, printable, not_dot, not_dots), h) =
      absurd (omega arith)
  make_sure_loop_lem st dir ((c ∷ name) ∷ names)
        (((ne, no_slash), some_byte, printable, not_dot, not_dots), h) =
      loop_first st (dir ++ b'/' ∷ []) c (name ++ b'/' ∷ slashed names) ne
      ∙ loop_scan st (dir ++ b'/' ∷ []) c [] name (b'/' ∷ slashed names) no_slash
      ∙ loop_slash st (dir ++ b'/' ∷ []) c name (slashed names)
      ∙ ap (λ x. make_sure_loop zk (make_sure_node zk st x) (x ++ b'/' ∷ []) [] (slashed names))
          (append_assoc dir (b'/' ∷ []) (c ∷ name))
      ∙ make_sure_loop_lem (make_sure_node zk st (dir ++ b'/' ∷ (c ∷ name)))
          (dir ++ b'/' ∷ (c ∷ name)) names h
