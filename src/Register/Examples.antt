-- ===== src/Register/Examples.antt =====
-- The theorem on announcements, with a table for zookeeper that holds the node of the group.
use ddmframework.Conn.{c_str}
use ddmframework.Url.Names.{length-url_encode-le}
use ddmframework.Common.{
  ℕ, ◌≡◌, refl, true, false, List, [], ◌∷◌, ◌++◌, none, some, arith, inl, inr, Key, str_eq, length,
  ◌<◌, table_find-add, table_find, table_add,
}
use ddmframework.Url.{codes, url_decode}
use ddmframework.Paths.{NoSlash}
use ddmframework.Zookeeper.{
  IsName, NodeType, normal_node, ephemeral_node, is_there, Zookeeper, ZookeeperLaws,
}
use ddmframework.Invoke.Agent.{session_event, expired_session, max_node_path_len}
use ddmframework.Register.{Provider, node_path, provider_stub_init, my_zk_watcher_marshal}
use ddmframework.Register.Announcement.{providers, announces}

abbrev pub tables : Zookeeper
tables = record {
  Zk = List (Key × NodeType);
  zoo_exists = λ st path. is_there (table_find path st);
  zoo_create = λ st path value type. (table_add path type st, true);
  zoo_delete = λ st path. (st, false);
}

abbrev pub tables-ZookeeperLaws : ZookeeperLaws tables
tables-ZookeeperLaws = record {
  node = λ st path. table_find path st;
  exists = λ st path. refl;
  created = λ st dir name value type accepted parent free.
      (refl, λ p. table_find-add (dir ++ b'/' ∷ name) p type st);
}

abbrev pub session : List (Key × NodeType)
session = (codes "/pay", normal_node) ∷ []

abbrev pub provider : Provider tables
provider = record { session = []; node_value = []; g_inited = false }

pub short : length (node_path (codes "pay") (codes "{a}")) < max_node_path_len
unfolding node_path
short = omega (arith, length-url_encode-le (codes "{a}"))

pub at_pay : table_find (codes "/pay") session ≡ some normal_node
unfolding table_find str_eq
at_pay = refl

pub no_providers : table_find (providers (codes "pay")) session ≡ none
unfolding table_find str_eq
no_providers = refl

pub not_yet : table_find (node_path (codes "pay") (codes "{a}")) session ≡ none
unfolding table_find str_eq node_path
not_yet = refl

pub pay-IsName : IsName (codes "pay")
pay-IsName = (
  (omega arith, (omega arith, (omega arith, tt))),
  omega arith,
  ((omega arith, omega arith), ((omega arith, omega arith), ((omega arith, omega arith), tt))),
  (λ e. cc),
  (λ e. cc),
)

-- A file that holds a NUL.
cut : c_str (codes "{a}" ++ 0 ∷ 7 ∷ []) ≡ codes "{a}"
unfolding c_str
cut = refl

announces_example :
    (st : List (Key × NodeType)) × (provider_stub_init tables
        (λ text. some (some (codes "pay")))
        (some (codes "{a}" ++ 0 ∷ 7 ∷ []))
        (some session)
        provider
      ≡ some (
        record {
          session = st;
          node_value = node_path (codes "pay") (codes "{a}");
          g_inited = true;
        },
        true,
      ))
    × (my_zk_watcher_marshal tables
          (λ text. some (some (codes "pay")))
          (some (codes "{a}" ++ 0 ∷ 7 ∷ []))
          (some session)
          provider
          session_event
          expired_session
        ≡ some (record {
          session = st;
          node_value = node_path (codes "pay") (codes "{a}");
          g_inited = false;
        }))
    × (table_find (node_path (codes "pay") (codes "{a}")) st ≡ some ephemeral_node)
    × (name : List ℕ) × (node_path (codes "pay") (codes "{a}")
        ≡ providers (codes "pay") ++ b'/' ∷ name)
    × NoSlash name
    × (url_decode name ≡ codes "{a}")
announces_example =
    announces tables tables-ZookeeperLaws (λ text. some (some (codes "pay"))) provider session
      (codes "pay") (codes "{a}" ++ 0 ∷ 7 ∷ []) (codes "{a}") cut refl pay-IsName (omega arith)
      (omega arith, (omega arith, (omega arith, tt))) ((λ e. cc), (λ e. cc)) short
      (inr at_pay, inl no_providers) not_yet
