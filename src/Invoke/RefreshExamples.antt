-- ===== src/Invoke/RefreshExamples.antt =====
-- The theorem on refreshes: a file declares one service, which one child of its group provides.
use ddmframework.Common.{
  ℕ, ◌≡◌, ◌<◌, refl, Bool, true, false, List, [], ◌∷◌, Option, none, some, arith, Key, str_eq,
  str_eq_iff, All, length, table_find, if◌then◌else◌,
}
use ddmframework.Url.{codes}
use ddmframework.ServiceConf.{register_mapping_find, provider_key_len, provider_construct_key}
use ddmframework.Invoke.Agent.{ConfigFile}
use ddmframework.Invoke.Parsing.{IsFairNode}
use ddmframework.Invoke.Refresh.{Sound, IsFairAnswer, IsWholeFile}
use ddmframework.Invoke.Examples.{world, new_agent, no_resources-InStep, pay_key}

abbrev pub file : ConfigFile
file = record {
  exists = true;
  modified_before = 5;
  content = some (codes "[]");
  modified_after = 5;
  declarations = λ text.
      some ((some (codes "pay"), some ((some (codes "bill"), some (codes "1.0")) ∷ [])) ∷ []);
}

abbrev pub children : Key → Option (List (List ℕ))
children k = if str_eq (codes "/pay/providers") k then some (codes "a" ∷ []) else none

pay-fair :
    (length (codes "/pay/providers") < provider_key_len)
    × All (IsFairNode world (codes "/pay/providers")) (codes "a" ∷ [])
pay-fair = (omega arith, ((omega arith, omega arith, omega arith, omega arith, pay_key), tt))

same_nodes :
    (b : Bool) (xs ys : List (List ℕ))
    → (if b then some xs else none) ≡ some ys
    → (b ≡ true) × (xs ≡ ys)
same_nodes true xs ys e = (refl, cc)
same_nodes false xs ys e = absurd (cc)

pub children-fair : IsFairAnswer world children
children-fair k node_names e =
    let (hit, same) =
      same_nodes (str_eq (codes "/pay/providers") k) (codes "a" ∷ []) node_names e in
    rw⁻¹ (same, (str_eq_iff (codes "/pay/providers") k).0 hit) pay-fair

pub new_agent-Sound : Sound new_agent
unfolding register_mapping_find table_find
new_agent-Sound = record { in_step = no_resources-InStep; fit = λ k. tt }

some_injective {ℓ} : {A : Type ℓ} (x y : A) → some x ≡ some y → x ≡ y
some_injective x y e = cc

pub file-whole : IsWholeFile file
unfolding provider_construct_key
file-whole buffer root content parsed = rw⁻¹ (some_injective _ root parsed) ((refl, (tt, tt)), tt)
