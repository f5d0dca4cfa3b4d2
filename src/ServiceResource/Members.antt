-- ===== src/ServiceResource/Members.antt =====
-- The table of services as a relation between services and nodes.
use ddmframework.Common.{
  ◌≡◌, refl, ap, subst, ◌≢◌, Bool, true, false, not, ◌&&◌, ◌||◌, List, [], ◌∷◌, Option, none, some,
  arith, str_eq, str_eq_iff, Key, has, NoDup, length, ◌==◌, if◌then◌else◌, List-cases, Bool-cases,
  table_find, table_delete, IsTable, table_find-add, table_find-delete, table_find-update,
  table_add-IsTable, table_delete-IsTable, table_update-IsTable, Option-cases, inl, inr,
}
use ddmframework.StringArray.{
  StringArray, string_array_init, string_array_add, string_array_delete, string_array_size,
}
use ddmframework.StringArray.Members.{
  string_array_add_lem, string_array_delete_lem, string_array_find-has, is_found,
}
use ddmframework.ServiceResource.{Services, add_node_key, delete_node_key, uses}

-- Whether a service is provided by a node.
unfoldable pub serves : Key → Key → Services → Bool
serves key node services = elim (table_find key services) [
  | some item ↦ has node item.strs
  | none ↦ false
]

-- The keys of the services differ, and each service has nodes, all different.
pub record IsServices (services : Services) : Type 0 where
  pub table : IsTable services
  pub items :
      (key : Key) (item : StringArray)
      → table_find key services ≡ some item
      → NoDup item.strs × (item.strs ≢ [])

abbrev added : Key → StringArray
added node = string_array_add string_array_init node

added_strs : (node : Key) → (added node).strs ≡ node ∷ []
unfolding string_array_init string_array_add
added_strs node = refl

-- Adding a node to a service adds that one fact.
pub serves-add_node_key :
    (services : Services) (key node k n : Key)
    → IsServices services
    → serves k n (add_node_key services key node)
      ≡ (serves k n services || (str_eq key k && str_eq node n))
unfolding serves add_node_key has
serves-add_node_key services key node k n v = elim (Option-cases (table_find key services)) [
  | inl e ↦
      rw (e, add_node_key)
        (ground
          (arith, table_find-add key k (added node) services, added_strs node, str_eq_iff key k))
  | inr (item, e) ↦
      rw (e, add_node_key)
        (ground (
          arith,
          table_find-update key k (string_array_add item node) item services e,
          string_array_add_lem item node n (v.items key item e).0,
          str_eq_iff key k,
        ))
]

-- What every item of a table satisfies.
abbrev IsGood : StringArray → Type 0
IsGood item = NoDup item.strs × (item.strs ≢ [])

not_empty : (n : Key) (xs : List Key) → has n xs ≡ true → xs ≢ []
unfolding has
not_empty n [] h = cc
not_empty n (x ∷ xs) h = λ e. cc

-- An item that is found after one item was written is that item or an old one.
IsGood-found :
    (b : Bool) (written item : StringArray) (o : Option StringArray)
    → IsGood written
    → (o ≡ some item → IsGood item)
    → (if b then some written else o) ≡ some item
    → IsGood item
IsGood-found true written item o g old e = let same : written ≡ item = cc in subst IsGood same g
IsGood-found false written item o g old e = old e

added-IsGood : (node : Key) → IsGood (added node)
unfolding has
added-IsGood node = rw (added_strs node) ((refl, tt), λ e. cc)

string_array_add-IsGood :
    (item : StringArray) (node : Key) → IsGood item → IsGood (string_array_add item node)
string_array_add-IsGood item node g =
    let (mine, distinct, _) = string_array_add_lem item node node g.0 in
    (distinct, not_empty node _ (ground (arith, mine, str_eq_iff node node)))

item_after_add :
    (services : Services) (key node k : Key) (item : StringArray)
    → IsServices services
    → table_find k (add_node_key services key node) ≡ some item
    → IsGood item
unfolding add_node_key
item_after_add services key node k item v h = elim (Option-cases (table_find key services)) [
  | inl e ↦
      IsGood-found (str_eq key k) (added node) item _ (added-IsGood node) (v.items k item)
        (rw (e, add_node_key, table_find-add key k (added node) services) at h)
  | inr (old, e) ↦
      IsGood-found (str_eq key k) (string_array_add old node) item _
        (string_array_add-IsGood old node (v.items key old e)) (v.items k item)
        (rw (e, add_node_key, table_find-update key k (string_array_add old node) old services e) at
          h)
]

pub add_node_key-IsServices :
    (services : Services) (key node : Key)
    → IsServices services
    → IsServices (add_node_key services key node)
unfolding add_node_key
add_node_key-IsServices services key node v = record {
  table = elim (Option-cases (table_find key services)) [
    | inl e ↦ rw (e, add_node_key) (table_add-IsTable key (added node) services e v.table)
    | inr (old, e) ↦ rw (e, add_node_key) (table_update-IsTable key _ services v.table)
  ];
  items = λ k item h. item_after_add services key node k item v h;
}

size_zero : (a : StringArray) (n : Key) → (string_array_size a == 0) ≡ true → has n a.strs ≡ false
unfolding string_array_size has
size_zero a n e = elim (List-cases a.strs) [
  | inl empty ↦ ground arith
  | inr (x, rest, full) ↦ ground arith
]

size_pos : (a : StringArray) → (string_array_size a == 0) ≡ false → a.strs ≢ []
unfolding string_array_size
size_pos a e empty = absurd (ground (arith, ap length empty))

-- Deleting a node from a service removes that one fact.
pub serves-delete_node_key :
    (services : Services) (key node k n : Key)
    → IsServices services
    → serves k n (delete_node_key services key node)
      ≡ (serves k n services && not (str_eq key k && str_eq node n))
unfolding serves delete_node_key
serves-delete_node_key services key node k n v = elim (Option-cases (table_find key services)) [
  | inl e ↦ rw (e, delete_node_key) (ground (arith, str_eq_iff key k))
  | inr (item, e) ↦
      let rest = (string_array_delete item node).0 in
      elim (Bool-cases (string_array_size rest == 0)) [
        | inl gone ↦
            rw (e, delete_node_key, gone)
              (ground (
                arith,
                table_find-delete key k services v.table,
                string_array_delete_lem item node n (v.items key item e).0,
                size_zero rest n gone,
                str_eq_iff key k,
              ))
        | inr left ↦
            rw (e, delete_node_key, left)
              (ground (
                arith,
                table_find-update key k rest item services e,
                string_array_delete_lem item node n (v.items key item e).0,
                str_eq_iff key k,
              ))
      ]
]

IsTable-found :
    (key k : Key) (services : Services) (item : StringArray)
    → IsServices services
    → table_find k (table_delete key services) ≡ some item
    → IsGood item
IsTable-found key k services item v h =
    v.items k item (ground (arith, table_find-delete key k services v.table))

item_after_delete :
    (services : Services) (key node k : Key) (item : StringArray)
    → IsServices services
    → table_find k (delete_node_key services key node) ≡ some item
    → IsGood item
unfolding delete_node_key
item_after_delete services key node k item v h = elim (Option-cases (table_find key services)) [
  | inl e ↦ v.items k item (rw (e, delete_node_key) at h)
  | inr (old, e) ↦
      let rest = (string_array_delete old node).0 in
      elim (Bool-cases (string_array_size rest == 0)) [
        | inl gone ↦ IsTable-found key k services item v (rw (e, delete_node_key, gone) at h)
        | inr left ↦
            let good : IsGood rest = (
              (string_array_delete_lem old node node (v.items key old e).0).1,
              size_pos rest left,
            ) in
            IsGood-found (str_eq key k) rest item _ good (v.items k item)
              (rw (e, delete_node_key, left, table_find-update key k rest old services e) at h)
      ]
]

pub delete_node_key-IsServices :
    (services : Services) (key node : Key)
    → IsServices services
    → IsServices (delete_node_key services key node)
unfolding delete_node_key
delete_node_key-IsServices services key node v = record {
  table = elim (Option-cases (table_find key services)) [
    | inl e ↦ rw (e, delete_node_key) v.table
    | inr (old, e) ↦
        let rest = (string_array_delete old node).0 in
        elim (Bool-cases (string_array_size rest == 0)) [
          | inl gone ↦ rw (e, delete_node_key, gone) (table_delete-IsTable key services v.table)
          | inr left ↦
              rw (e, delete_node_key, left) (table_update-IsTable key rest services v.table)
        ]
  ];
  items = λ k item h. item_after_delete services key node k item v h;
}

-- A node is in use exactly when it provides some service.
uses-cons :
    (node k : Key) (item : StringArray) (services : Services)
    → uses node ((k, item) ∷ services) ≡ (has node item.strs || uses node services)
unfolding uses is_found
uses-cons node k item services = ground (arith, string_array_find-has item node)

pub uses_of_serves :
    (services : Services) (k n : Key) → serves k n services ≡ true → uses n services ≡ true
unfolding serves table_find
uses_of_serves [] k n h = cc
uses_of_serves ((j, item) ∷ services) k n h =
    rw (uses-cons n j item services) (ground (arith, uses_of_serves services k n))

pub serves_of_uses :
    (services : Services) (n : Key)
    → IsTable services
    → uses n services ≡ true
    → (k : Key) × (serves k n services ≡ true)
unfolding serves table_find uses
serves_of_uses [] n u h = cc
serves_of_uses ((j, item) ∷ services) n u h = elim (Bool-cases (has n item.strs)) [
  | inl mine ↦ (j, ground (arith, str_eq_iff j j))
  | inr other ↦
      let (k, e) = serves_of_uses services n u.1 (ground (arith, uses-cons n j item services)) in
      (k, ground (arith, str_eq_iff j k, u.0))
]
