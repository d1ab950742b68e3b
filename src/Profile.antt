-- ===== src/Profile.antt =====
-- src/profile.rs: launch profiles, the check of a profile set, and the choice of a profile.
pub mod Choice
pub mod Missing
use llmtune.Prelude.{
  Bool, true, false, ◌&&◌, ◌||◌, Option, none, some, List, [], ◌∷◌, ◌++◌, Text, Map, codes, text_eq,
  starts_with, to_lowercase, file_name, any, find, is_empty, or_else, Outcome, ok, err,
  if◌then◌else◌,
}
use llmtune.Build.{Fs, current_bin, current_dir}

pub record Profile : Type 0 where
  pub id : Text
  pub arch_match : List Text
  pub quant_match : List Text
  pub build : Option Text
  pub bin : Text
  pub ld_path : Option Text
  pub env : Map Text
  pub flags : Text

-- `unwrap_or_default`
abbrev text_or_empty : Option Text → Text
text_or_empty none = []
text_or_empty (some s) = s

-- `file_name` of a profile's `bin`, or `llama-server` where it has none.
abbrev pub bin_file : Option Text → Text
bin_file none = codes "llama-server"
bin_file (some s) = s

-- `launch` once the build's name is known and `current_bin` has answered.
abbrev launch_build : Profile → Option Text → Text → Option Text → Text × Option Text
launch_build p dir binfile none = (binfile, p.ld_path)
launch_build p dir binfile (some path) = (path, or_else dir p.ld_path)

abbrev launch_from : Fs → Text → Profile → Option Text → Text × Option Text
launch_from fs state_dir p none = (p.bin, p.ld_path)
launch_from fs state_dir p (some []) = (p.bin, p.ld_path)
launch_from fs state_dir p (some (c ∷ name)) =
    let binfile = bin_file (file_name p.bin) in
    launch_build p (current_dir fs state_dir (c ∷ name)) binfile
      (current_bin fs state_dir (c ∷ name) binfile)

unfoldable pub launch : Fs → Text → Profile → Text × Option Text
unfolding current_bin current_dir file_name
launch fs state_dir p = launch_from fs state_dir p p.build

abbrev pub default_id : Text
default_id = codes "_default"

unfoldable pub is_default : Profile → Bool
unfolding text_eq
is_default p = text_eq p.id default_id

unfoldable pub validate : List Profile → Outcome (Unit {0})
unfolding is_default
validate profiles =
    if is_empty profiles
    then err (codes "no profiles defined - check ~/.config/llmtune/profiles.toml")
    else if any is_default profiles
    then ok tt
    else err (
        codes "profiles must include a `_default` entry (fallback for unknown architectures) "
        ++ codes "- check ~/.config/llmtune/profiles.toml")

unfoldable pub arch_ok : Text → Profile → Bool
unfolding starts_with to_lowercase
arch_ok a p = any (λ m. starts_with a (to_lowercase m)) p.arch_match

unfoldable pub quant_ok : Text → Profile → Bool
unfolding starts_with to_lowercase
quant_ok q p = is_empty p.quant_match || any (λ m. starts_with q (to_lowercase m)) p.quant_match

-- The loop of `resolve`: the first profile but `_default` that matches.
unfoldable pub first_match : Text → Text → List Profile → Option Profile
unfolding is_default arch_ok quant_ok
first_match a q [] = none
first_match a q (p ∷ ps) =
    let rest = first_match a q ps in
    if is_default p
    then rest
    else if arch_ok a p
    then (if quant_ok q p then some p else rest)
    else rest

abbrev found : Option Profile → Option Profile → Option (Profile × Bool)
found (some p) def = some (p, false)
found none none = none
found none (some def) = some (def, true)

-- `none` is the panic of `expect` on a set with no `_default`.
unfoldable pub resolve : List Profile → Text → Option Text → Option (Profile × Bool)
unfolding first_match
resolve profiles arch quant =
    found (first_match (to_lowercase arch) (to_lowercase (text_or_empty quant)) profiles)
      (find is_default profiles)
