-- ===== src/Prelude/Paths.antt =====
-- `std::path` on texts: a path is its components between slashes. Components `.` do not occur.
use Prim.Native.Nat.{ℕ}
use mathlib.Core.List.{[], ◌∷◌, ◌++◌}
use mathlib.Core.Option.{Option, none, some}
use llmtune.Prelude.Tests.{◌==◌, if◌then◌else◌}
use llmtune.Prelude.Texts.{Text, codes, text_eq}

abbrev pub slash : ℕ
slash = b'/'

-- `Path::join` with a relative second path.
unfoldable pub path_join : Text → Text → Text
path_join [] q = q
path_join p q = p ++ slash ∷ q

abbrev pub keep_slash : ℕ → Text → Text
keep_slash c [] = if c == slash then [] else c ∷ []
keep_slash c (d ∷ s) = c ∷ d ∷ s

-- The path without its trailing slashes, the root's own slash included.
unfoldable pub trim_slashes : Text → Text
trim_slashes [] = []
trim_slashes (c ∷ s) = keep_slash c (trim_slashes s)

abbrev pub place : ℕ → Text × Text → Text × Text
place c ([], file) = if c == slash then (c ∷ [], file) else ([], c ∷ file)
place c (d ∷ dir, file) = (c ∷ d ∷ dir, file)

-- What stands up to the last slash, that slash included, and what stands behind it.
unfoldable pub split_last : Text → Text × Text
split_last [] = ([], [])
split_last (c ∷ s) = place c (split_last s)

-- The root keeps its slash.
abbrev pub or_root : Text → Text
or_root [] = slash ∷ []
or_root (c ∷ s) = c ∷ s

-- `Path::parent` of a path that holds a component, by what stands up to its last slash.
abbrev pub parent_of : Text → Text
parent_of [] = []
parent_of (c ∷ dir) = or_root (trim_slashes (c ∷ dir))

abbrev pub parent_trimmed : Text → Option Text
parent_trimmed [] = none
parent_trimmed (c ∷ s) = some (parent_of (split_last (c ∷ s)).0)

unfoldable pub parent : Text → Option Text
unfolding split_last trim_slashes
parent p = parent_trimmed (trim_slashes p)

abbrev pub real_name : Text → Option Text
real_name [] = none
real_name (c ∷ s) = if text_eq (c ∷ s) (codes "..") then none else some (c ∷ s)

-- `Path::file_name`: `..` has none.
unfoldable pub file_name : Text → Option Text
unfolding split_last trim_slashes text_eq
file_name p = real_name (split_last (trim_slashes p)).1
