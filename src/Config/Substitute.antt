-- ===== src/Config/Substitute.antt =====
-- soaagent/util.c: `substitute`, and soaagent/conf.c: `get_config_item`, which puts the home of the
-- agent into a configured path. What iniparser and `getenv` find are parameters.
use ddmframework.Common.{
  ℕ, zero, suc, ◌+◌, ◌-◌, Bool, true, false, ◌&&◌, List, [], ◌∷◌, ◌++◌, Option, none, some, length,
  take, drop, ltb, ◌==◌, if◌then◌else◌,
}
use mathlib.Core.Option
use ddmframework.Url.{codes}
use ddmframework.Conn.{snprintf_s}

unfoldable pub is_prefix : List ℕ → List ℕ → Bool
is_prefix [] s = true
is_prefix (x ∷ xs) [] = false
is_prefix (x ∷ xs) (c ∷ s) = (x == c) && is_prefix xs s

-- `strstr`: the offset of the first occurrence.
unfoldable pub strstr : List ℕ → (wanted : List ℕ) → Option ℕ
strstr [] wanted = if is_prefix wanted [] then some 0 else none
strstr (c ∷ s) wanted =
    let rest = Option.map suc (strstr s wanted) in if is_prefix wanted (c ∷ s) then some 0 else rest

-- How a call ends: with the text in the buffer, by a `memcpy` of a negative length, or not.
pub data Substituted : Type 0 where
  wrote : List ℕ → Substituted
  overrun : Substituted
  unfinished : Substituted

-- What the loop leaves: the text that is written, the bytes that are left of the buffer, and the
-- input that is left. `none` means that the fuel ran out.
abbrev pub Progress : Type 0
Progress = Option (List ℕ × ℕ × List ℕ)

unfoldable pub substitute_loop :
    (fuel : ℕ) → (src dst : List ℕ) → (out : List ℕ) → (left : ℕ) → (pi : List ℕ) → Progress
unfolding strstr
substitute_loop zero src dst out left pi = none
substitute_loop (suc fuel) src dst out left pi = elim (strstr pi src) [
  | none ↦ some (out, left, pi)
  | some len ↦
      let rest =
        substitute_loop fuel src dst (out ++ (take len pi ++ dst)) (left - len - length dst)
          (drop (len + length src) pi) in
      if ltb left (len + length dst) then some (out, left, pi) else rest
]

-- The rest of the input, cut to what is left of the buffer; with nothing left the length is -1.
unfoldable pub copy_rest : Progress → Substituted
copy_rest none = unfinished
copy_rest (some (out, left, pi)) =
    if ltb (length pi) left
    then wrote (out ++ pi)
    else if left == 0
    then overrun
    else wrote (out ++ take (left - 1) pi)

-- One round for each byte of the input, and one more, are enough.
unfoldable pub substitute : (input : List ℕ) → (output_len : ℕ) → (src dst : List ℕ) → Substituted
unfolding substitute_loop copy_rest is_prefix
substitute input output_len src dst =
    copy_rest (substitute_loop (suc (length input)) src dst [] output_len input)

abbrev pub agent_home : List ℕ
agent_home = codes "${AGENT_HOME}"

unfoldable pub get_config_item :
    (value home : Option (List ℕ)) → (len : ℕ) → (default_value : List ℕ) → Substituted
unfolding substitute
get_config_item none home len default_value = wrote (snprintf_s len default_value)
get_config_item (some s) none len default_value = wrote (snprintf_s len s)
get_config_item (some s) (some proxy_home_value) len default_value =
    substitute s len agent_home proxy_home_value
