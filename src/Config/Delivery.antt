-- ===== src/Config/Delivery.antt =====
-- soaagent/util.c, soaagent/conf.c: what `substitute` and `get_config_item` leave in the buffer.
use native.Mathlib.Nat.{zero-add}
use ddmframework.Common.{
  ℕ, suc, ◌+◌, ◌-◌, ◌≤◌, ◌<◌, ◌≡◌, ◌≢◌, refl, ◌∙◌, ◌⊎◌, Bool-cases, inl, inr, List, [], ◌∷◌, ◌++◌,
  Option, none, some, arith, length, length-append, length-take, take, take_self, ltb, ◌==◌,
}
use ddmframework.Conn.{snprintf_s}
use ddmframework.Config.Substitute.{
  Substituted, wrote, overrun, copy_rest, substitute, agent_home, get_config_item,
}
use ddmframework.Config.Replacing.{replaced, substitute_loop_lem}

-- How a text gets into a buffer of `len` bytes: whole if it fits, and never with its NUL past the
-- end; otherwise it is cut off, or the call overruns.
abbrev pub Delivers : Substituted → (len : ℕ) → (text : List ℕ) → Type 0
Delivers result len text =
    ((t : List ℕ) × (result ≡ wrote t) × (length t < len) × ((t ≡ text) ⊎ (len ≤ length text)))
    ⊎ ((result ≡ overrun) × (len ≤ length text))

copy_rest_lem :
    (out : List ℕ) (left : ℕ) (pi : List ℕ) (len : ℕ) (text : List ℕ)
    → length out + left ≡ len
    → (len ≤ length text) ⊎ ((out ++ pi ≡ text) × (length pi < left))
    → Delivers (copy_rest (some (out, left, pi))) len text
unfolding copy_rest
copy_rest_lem out left pi len text same (inr (whole, fits)) =
    inl (out ++ pi, ground arith, omega (arith, length-append out pi), inl whole)
copy_rest_lem out left pi len text same (inl full) = elim (Bool-cases (ltb (length pi) left)) [
  | inl fits ↦ inl (out ++ pi, rw fits refl, ground (arith, length-append out pi), inr full)
  | inr cut ↦ elim (Bool-cases (left == 0)) [
    | inl spent ↦ inr (rw cut (rw spent refl), full)
    | inr some_left ↦ inl (
      out ++ take (left - 1) pi,
      rw cut (rw some_left refl),
      ground (arith, length-append out (take (left - 1) pi), length-take (left - 1) pi),
      inr full,
    )
  ]
]

substitute_lem :
    (input : List ℕ) (len : ℕ) (src dst : List ℕ)
    → src ≢ []
    → Delivers (substitute input len src dst) len (replaced src dst input)
unfolding substitute
substitute_lem input len [] dst ne = absurd (ne refl)
substitute_lem input len (x ∷ xs) dst ne =
    let (o, l, p, run, kept, done) =
      substitute_loop_lem x xs dst (suc (length input)) [] len input (omega arith) in
    rw run (
      copy_rest_lem o l p len (replaced (x ∷ xs) dst input) (kept ∙ zero-add len)
        (elim done [ inl full ↦ inl full | inr whole ↦ inr whole ]))

snprintf_s_lem : (len : ℕ) (s : List ℕ) → 1 ≤ len → Delivers (wrote (snprintf_s len s)) len s
snprintf_s_lem len s h = inl (
  snprintf_s len s,
  refl,
  omega (arith, length-take (len - 1) s),
  elim (Bool-cases (ltb (length s) len)) [
    | inl fits ↦ inl (take_self (len - 1) s (ground arith))
    | inr cut ↦ inr (ground arith)
  ],
)

-- The text that an item stands for.
abbrev pub configured : (value home : Option (List ℕ)) → (default_value : List ℕ) → List ℕ
configured none home default_value = default_value
configured (some s) none default_value = s
configured (some s) (some proxy_home_value) default_value = replaced agent_home proxy_home_value s

-- `get_config_item` always ends. The buffer, which is not empty, then holds the configured value
-- with every `${AGENT_HOME}` replaced by the home of the agent, if that is set, or the default if
-- there is no value, whenever that text fits; it holds a NUL-terminated text in every case, unless
-- the call overruns, which it does only where the text does not fit.
pub get_config_item_lem :
    (value home : Option (List ℕ)) (len : ℕ) (default_value : List ℕ)
    → 1 ≤ len
    → Delivers
        (get_config_item value home len default_value)
        len
        (configured value home default_value)
unfolding get_config_item
get_config_item_lem none home len default_value h = snprintf_s_lem len default_value h
get_config_item_lem (some s) none len default_value h = snprintf_s_lem len s h
get_config_item_lem (some s) (some proxy_home_value) len default_value h =
    substitute_lem s len agent_home proxy_home_value (cc)
