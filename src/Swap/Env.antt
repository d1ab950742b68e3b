-- ===== src/Swap/Env.antt =====
-- src/swap.rs: the drop-in that is written for a launch, and the environment that it declares.
pub mod Split
pub mod Reading
pub mod Parsing
pub mod RoundTrip
pub mod Merge
unfoldable pub use Split.{parse_unit_env}
use llmtune.Prelude.{
  ℕ, ◌==◌, Bool, true, false, not, ◌&&◌, ◌||◌, Option, none, some, List, [], ◌∷◌, ◌++◌, Text, Map,
  codes, text_eq, to_lowercase, starts_with, strip_prefix, is_whitespace, insert, lines, trim,
  split_once, newline, parent, show, any, if◌then◌else◌,
}
use llmtune.Profile.{Profile}

abbrev with_ld : Map Text → Option Text → Map Text
with_ld m none = m
with_ld m (some ld) = insert (codes "LD_LIBRARY_PATH") ld m

-- The loop that puts the profile's variables over `m`.
unfoldable pub overlay : Map Text → Map Text → Map Text
overlay m [] = m
overlay m ((k, v) ∷ env) = overlay (insert k v m) env

unfoldable pub merged_env : Map Text → Option Text → Map Text → Map Text
unfolding overlay
merged_env base ld profile_env = overlay (with_ld base ld) profile_env

unfoldable pub env_line : Text → Text → Text
unfolding is_whitespace
env_line k v =
    if any is_whitespace v
    then codes "Environment=\"" ++ (k ++ (b'=' ∷ (v ++ codes "\"\n")))
    else codes "Environment=" ++ (k ++ (b'=' ∷ (v ++ codes "\n")))

-- The loop of `render_dropin` over the merged environment.
unfoldable pub env_lines : Map Text → Text
unfolding env_line
env_lines [] = []
env_lines ((k, v) ∷ m) = env_line k v ++ env_lines m

abbrev pub marker_line : Text
marker_line = codes "# AUTO-GENERATED by llmtune [model-select]. Per-arch launch. Do not edit.\n"

abbrev pub working_directory : Option Text → Text
working_directory none = []
working_directory (some dir) = codes "WorkingDirectory=" ++ (dir ++ codes "\n")

-- The lines behind the environment.
unfoldable pub exec_lines : Text → Text → Text → Text → ℕ → Text
unfolding parent show
exec_lines bin flags model_path host port =
    working_directory (parent model_path)
    ++ (codes "ExecStart=\n"
        ++ (codes "ExecStart=stdbuf -oL -eL \""
            ++ (bin
                ++ (codes "\" -m \""
                    ++ (model_path
                        ++ (codes "\" --host "
                            ++ (host
                                ++ (codes " --port "
                                    ++ (show port ++ (codes " " ++ (flags ++ codes "\n")))))))))))

unfoldable pub render_dropin :
    Profile → Text → Option Text → Text → Text → Text → ℕ → Map Text → Text
unfolding merged_env env_lines exec_lines
render_dropin profile bin ld flags model_path host port base_env =
    marker_line
    ++ (codes "[Service]\n"
        ++ (codes "Environment=\n"
            ++ (env_lines (merged_env base_env ld profile.env)
                ++ exec_lines bin flags model_path host port)))
