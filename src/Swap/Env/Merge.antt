-- ===== src/Swap/Env/Merge.antt =====
-- src/swap.rs: the precedence of `merged_env`.
use llmtune.Prelude.{
  ◌≡◌, ◌∙◌, refl, ap, Option, none, some, [], ◌∷◌, Text, Map, codes, text_eq, text_eq_iff, get,
  insert, get-insert, if◌then◌else◌, arith, or_else, IsMap, get-Above, inl, inr, Bool-cases, subst,
}
use llmtune.Swap.Env.{with_ld, overlay, merged_env}

-- The overlay gives its own value where it has one.
pub get-overlay :
    (j : Text) (m env : Map Text)
    → IsMap env
    → get j (overlay m env) ≡ or_else (get j env) (get j m)
unfolding overlay get
get-overlay j m [] h = refl
get-overlay j m ((k, v) ∷ env) (above, h) = elim (Bool-cases (text_eq k j)) [
  | inl same ↦ rw same (
      get-overlay j (insert k v m) env h
      ∙ rw (subst (λ i. get i env ≡ none) ((text_eq_iff k j).0 same) (get-Above k env above))
          (get-insert j k v m ∙ rw same))
  | inr other ↦ rw other (
      get-overlay j (insert k v m) env h ∙ ap (or_else (get j env)) (get-insert j k v m ∙ rw other))
]

get-with_ld :
    (j : Text) (base : Map Text) (ld : Option Text)
    → get j (with_ld base ld)
      ≡ or_else (if text_eq (codes "LD_LIBRARY_PATH") j then ld else none) (get j base)
get-with_ld j base none = ground arith
get-with_ld j base (some ld) = get-insert j (codes "LD_LIBRARY_PATH") ld base ∙ ground arith

-- A variable's value in the merged environment is the profile's; where the profile does not set
-- it, the resolved library path if it is `LD_LIBRARY_PATH` and there is one; else the unit's own.
pub merged_env_precedence :
    (j : Text) (base : Map Text) (ld : Option Text) (profile_env : Map Text)
    → IsMap profile_env
    → get j (merged_env base ld profile_env)
      ≡ or_else
          (get j profile_env)
          (or_else (if text_eq (codes "LD_LIBRARY_PATH") j then ld else none) (get j base))
unfolding merged_env
merged_env_precedence j base ld profile_env h =
    get-overlay j (with_ld base ld) profile_env h
    ∙ ap (or_else (get j profile_env)) (get-with_ld j base ld)
