-- ===== src/Tests/ProfileRuns.antt =====
-- The choice of a profile, and the launch of a missing build.
use llmtune.Prelude.{◌≡◌, refl, Bool, false, none, some, List, [], ◌∷◌, codes, contains}
use llmtune.Build.{Fs}
use llmtune.Profile.{Profile, validate, resolve, launch, default_id}
use llmtune.Profile.Choice.{IsChoice, resolve-IsChoice, resolve_total}
use llmtune.Profile.Missing.{launch_missing}

abbrev fallback : Profile
fallback = record {
  id = default_id;
  arch_match = [];
  quant_match = [];
  build = some (codes "vulkan");
  bin = codes "llama-server";
  ld_path = none;
  env = [];
  flags = [];
}

abbrev gated : Profile
gated = record fallback {
  id = codes "ternary";
  arch_match = codes "qwen35" ∷ [];
  quant_match = codes "Q2_0" ∷ [];
}

abbrev set : List Profile
set = gated ∷ fallback ∷ []

abbrev bare : Fs
bare = record { is_file = λ p. false; is_dir = λ p. false; canonicalize = λ p. none }

resolve-IsChoice_example : IsChoice (codes "qwen35moe") (codes "q2_0") set (gated, false)
unfolding resolve
resolve-IsChoice_example =
    resolve-IsChoice set (codes "Qwen35moe") (some (codes "Q2_0")) (gated, false) refl

resolve_total_example :
    (r : Profile × Bool) × (resolve set (codes "llama") (some (codes "Q4_K")) ≡ some r)
unfolding validate
resolve_total_example = resolve_total set (codes "llama") (some (codes "Q4_K")) refl

launch_missing_example : contains (launch bare [] fallback).0 (codes "/") ≡ false
unfolding launch
launch_missing_example = launch_missing bare [] (codes "vulkan") fallback refl (λ e. cc) refl
