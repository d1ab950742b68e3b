-- ===== src/Swap/Mounts.antt =====
-- src/swap.rs: whether the unit directory under /etc can be written.
pub mod Innermost
use llmtune.Prelude.{
  ℕ, ◌+◌, leb, ltb, ◌==◌, Bool, true, false, not, ◌&&◌, ◌||◌, Option, none, some, List, [], ◌∷◌,
  Text, codes, text_eq, starts_with, lines, split_whitespace, filter, any, slash, is_empty,
  if◌then◌else◌,
}
use llmtune.Swap.Flags.{replace}
use llmtune.Swap.Dropins.{etc_unit_dir}

-- The pieces between the separators, and those behind a piece that has begun.
abbrev into_first : ℕ → List Text → List Text
into_first c [] = (c ∷ []) ∷ []
into_first c (piece ∷ pieces) = (c ∷ piece) ∷ pieces

-- `split` at a character; there is one piece at least.
unfoldable pub split : ℕ → Text → List Text
split sep [] = [] ∷ []
split sep (c ∷ s) =
    let pieces = split sep s in if c == sep then [] ∷ pieces else into_first c pieces

abbrev is_name : Text → Bool
is_name piece = not (is_empty piece) && not (text_eq piece (codes "."))

-- `Path::components`: empty pieces and `.` are dropped, but a `.` that begins the path.
unfoldable pub components : Text → List Text
unfolding split text_eq
components [] = []
components (c ∷ p) =
    if c == slash
    then codes "/" ∷ filter is_name (split slash p)
    else elim (split slash (c ∷ p)) [ [] ↦ [] | ◌∷◌ first rest ↦ first ∷ filter is_name rest ]

unfoldable pub begins : List Text → List Text → Bool
unfolding text_eq
begins xs [] = true
begins [] (y ∷ ys) = false
begins (x ∷ xs) (y ∷ ys) = text_eq x y && begins xs ys

-- `Path::starts_with`
unfoldable pub path_starts_with : Text → Text → Bool
unfolding components begins
path_starts_with path base = begins (components path) (components base)

-- `str::len`, in bytes of UTF-8.
abbrev utf8_width : ℕ → ℕ
utf8_width c = if ltb c 128 then 1 else if ltb c 2048 then 2 else if ltb c 65_536 then 3 else 4

unfoldable pub byte_length : Text → ℕ
byte_length [] = 0
byte_length (c ∷ s) = utf8_width c + byte_length s

-- The mount point and the options of a line with four fields or more.
abbrev fields : List Text → Option (Text × Text)
fields (dev ∷ mp ∷ fs ∷ opts ∷ rest) = some (mp, opts)
fields _ = none

unfoldable pub unescaped : Text → Text
unfolding replace
unescaped mp = replace (replace mp (codes "\\040") (codes " ")) (codes "\\011") (9 ∷ [])

abbrev keep_mount : Text → Option (Text × Text) → List (ℕ × Bool) → List (ℕ × Bool)
keep_mount path none rest = rest
keep_mount path (some (mp, opts)) rest =
    if path_starts_with path (unescaped mp)
    then (byte_length (unescaped mp), any (λ o. text_eq o (codes "ro")) (split b',' opts)) ∷ rest
    else rest

-- The mounts that contain the path, in order: the length of each mount point, and whether it is
-- read-only.
unfoldable pub containing : Text → List Text → List (ℕ × Bool)
unfolding path_starts_with unescaped byte_length split text_eq split_whitespace
containing path [] = []
containing path (line ∷ rest) =
    keep_mount path (fields (split_whitespace line)) (containing path rest)

-- The update of `best` for a mount that contains the path.
abbrev pub better : Option (ℕ × Bool) → ℕ × Bool → Option (ℕ × Bool)
better none m = some m
better (some b) m = if leb b.0 m.0 then some m else some b

unfoldable pub best_mount : Option (ℕ × Bool) → List (ℕ × Bool) → Option (ℕ × Bool)
best_mount best [] = best
best_mount best (m ∷ ms) = best_mount (better best m) ms

abbrev is_ro : Option (ℕ × Bool) → Bool
is_ro none = false
is_ro (some m) = m.1

unfoldable pub mounted_ro : Text → Text → Bool
unfolding best_mount containing lines
mounted_ro mounts path = is_ro (best_mount none (containing path (lines mounts)))

abbrev in_store : Option Text → Bool
in_store none = false
in_store (some c) = path_starts_with c (codes "/nix/store")

unfoldable pub etc_units_writable_from : Bool → Option Text → Text → Bool
unfolding mounted_ro path_starts_with
etc_units_writable_from nixos_marker canon mounts =
    if nixos_marker
    then false
    else if in_store canon
    then false
    else not (mounted_ro mounts etc_unit_dir)
