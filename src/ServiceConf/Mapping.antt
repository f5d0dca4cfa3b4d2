-- ===== src/ServiceConf/Mapping.antt =====
-- The mapping from provider keys to the arrays that were last seen there.
use ddmframework.Common.{
  ◌-◌, ◌≤◌, ◌<◌, ◌≡◌, refl, false, ap, List, [], ◌∷◌, Bool-cases, Option, none, some, arith, length,
  length-take, take_self, Key, str_eq, str_eq_iff, if◌then◌else◌, table_find, table_find-add,
  table_find-update, Option-cases, inl, inr,
}
use ddmframework.Conn.{snprintf_s}
use ddmframework.ServiceConf.{
  RegisterInfo, RegisterMapping, provider_key_len, register_mapping_find, register_mapping_put,
}

find-put_short :
    (m : RegisterMapping) (k j : Key) (v : Option (List RegisterInfo))
    → length k < provider_key_len
    → table_find j (register_mapping_put m k v) ≡ (if str_eq k j then some v else table_find j m)
unfolding register_mapping_put
find-put_short m k j v h = elim (Option-cases (table_find k m)) [
  | inl e ↦
      rw (e, register_mapping_put)
        (rw (take_self (provider_key_len - 1) k (omega arith)) (table_find-add k j v m))
  | inr (w, e) ↦ rw (e, register_mapping_put) (table_find-update k j v w m e)
]

-- A key that fits its field, PROVIDER_KEY_LEN bytes with the NUL, is found again; the other keys
-- keep their arrays.
pub register_mapping_find-put :
    (m : RegisterMapping) (k j : Key) (v : Option (List RegisterInfo))
    → length k < provider_key_len
    → register_mapping_find (register_mapping_put m k v) j
      ≡ (if str_eq k j then v else register_mapping_find m j)
unfolding register_mapping_find
register_mapping_find-put m k j v h = ground (arith, find-put_short m k j v h)

-- The mapping after some arrays have been put, the first one first.
pub put_all : RegisterMapping → List (Key × Option (List RegisterInfo)) → RegisterMapping
put_all m [] = m
put_all m ((k, v) ∷ puts) = put_all (register_mapping_put m k v) puts

cut_ne :
    (k j : Key) → provider_key_len ≤ length j → str_eq (snprintf_s provider_key_len k) j ≡ false
cut_ne k j h = elim (Bool-cases (str_eq (snprintf_s provider_key_len k) j)) [
  | inr e ↦ e
  | inl e ↦
      let same = ap length ((str_eq_iff _ j).0 e) in
      absurd (omega (arith, same, length-take (provider_key_len - 1) k))
]

find-put_long :
    (m : RegisterMapping) (k j : Key) (v : Option (List RegisterInfo))
    → provider_key_len ≤ length j
    → table_find j m ≡ none
    → table_find j (register_mapping_put m k v) ≡ none
unfolding register_mapping_put
find-put_long m k j v h e = elim (Option-cases (table_find k m)) [
  | inl f ↦
      rw (f, register_mapping_put)
        (rw (table_find-add (snprintf_s provider_key_len k) j v m, cut_ne k j h) e)
  | inr (w, f) ↦
      rw (f, register_mapping_put)
        (rw (table_find-update k j v w m f) (ground (arith, str_eq_iff k j)))
]

find-put_all_long :
    (m : RegisterMapping) (puts : List (Key × Option (List RegisterInfo))) (j : Key)
    → provider_key_len ≤ length j
    → table_find j m ≡ none
    → table_find j (put_all m puts) ≡ none
unfolding put_all
find-put_all_long m [] j h e = e
find-put_all_long m ((k, v) ∷ puts) j h e =
    find-put_all_long (register_mapping_put m k v) puts j h (find-put_long m k j v h e)

-- A key of PROVIDER_KEY_LEN bytes or more is stored cut off, so it is never found, whatever has
-- been put: what was last seen of its group is forgotten at once.
register_mapping_find-put_all_long :
    (puts : List (Key × Option (List RegisterInfo))) (j : Key)
    → provider_key_len ≤ length j
    → register_mapping_find (put_all [] puts) j ≡ none
unfolding register_mapping_find
register_mapping_find-put_all_long puts j h =
    rw (find-put_all_long [] puts j h (unfold table_find in refl), register_mapping_find)
