-- ===== src/Build.antt =====
-- src/build.rs: managed builds, and where the current version of one is found.
-- The file system is read through `Fs`; the state directory is an argument.
pub mod Slug
pub mod Versions
pub mod Install
pub mod Newest
pub mod Gc
pub mod Kept
pub mod Live
pub mod Back
use llmtune.Prelude.{Bool, Option, none, some, Text, codes, path_join, if◌then◌else◌}

-- What `std::fs` answers about paths.
pub record Fs : Type 0 where
  pub is_file : Text → Bool
  pub is_dir : Text → Bool
  pub canonicalize : Text → Option Text

unfoldable pub builds_root : Text → Text
unfolding path_join
builds_root state_dir = path_join state_dir (codes "builds")

unfoldable pub name_dir : Text → Text → Text
unfolding builds_root
name_dir state_dir name = path_join (builds_root state_dir) name

unfoldable pub current_bin : Fs → Text → Text → Text → Option Text
unfolding name_dir
current_bin fs state_dir name bin =
    let p = path_join (path_join (name_dir state_dir name) (codes "current")) bin in
    if fs.is_file p then some p else none

-- `.filter(|p| p.is_dir())`
abbrev only_dir : Fs → Option Text → Option Text
only_dir fs none = none
only_dir fs (some p) = if fs.is_dir p then some p else none

unfoldable pub current_dir : Fs → Text → Text → Option Text
unfolding name_dir
current_dir fs state_dir name =
    only_dir fs (fs.canonicalize (path_join (name_dir state_dir name) (codes "current")))
