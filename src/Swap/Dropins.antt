-- ===== src/Swap/Dropins.antt =====
-- src/swap.rs: the drop-ins of a unit that are found, and the name of the one that is written.
-- `read_dir` lists a directory's files with the content that `read_dropin` gives.
pub mod Last
pub mod Wins
use llmtune.Prelude.{
  ℕ, Bool, true, false, not, ◌||◌, Option, none, some, List, [], ◌∷◌, ◌++◌, Text, codes, text_eq,
  text_lt, contains, map, is_empty, if◌then◌else◌,
}

abbrev pub etc_unit_dir : Text
etc_unit_dir = codes "/etc/systemd/system"

abbrev pub run_unit_dir : Text
run_unit_dir = codes "/run/systemd/system"

-- The directories with whether llmtune can write there; `etc_writable` chooses the install
-- directory. The roots are fixed, so that of a directory decides.
unfoldable pub scan_dirs : Bool → Text → List (Text × Bool)
scan_dirs etc_writable unit =
    map (λ (r : Text × Bool). (r.0 ++ (codes "/" ++ (unit ++ codes ".d")), r.1))
      ((etc_unit_dir, etc_writable)
        ∷ (run_unit_dir, true)
        ∷ (codes "/usr/lib/systemd/system", false)
        ∷ (codes "/lib/systemd/system", false)
        ∷ [])

abbrev pub with_char : ℕ → Option Text → Option Text
with_char c none = none
with_char c (some s) = some (c ∷ s)

unfoldable pub strip_suffix : Text → Text → Option Text
unfolding text_eq
strip_suffix [] p = if text_eq [] p then some [] else none
strip_suffix (c ∷ s) p =
    let rest = with_char c (strip_suffix s p) in if text_eq (c ∷ s) p then some [] else rest

abbrev pub conf : Text
conf = codes ".conf"

abbrev pub is_stem : Option Text → Bool
is_stem none = false
is_stem (some stem) = not (is_empty stem)

-- `extension() == Some("conf")`: a name that is only `.conf` has no extension.
unfoldable pub has_conf_extension : Text → Bool
unfolding strip_suffix
has_conf_extension name = is_stem (strip_suffix name conf)

-- A file of a drop-in directory.
pub record Dropin : Type 0 where
  pub dir : Text
  pub name : Text
  pub content : Text

-- What a scan found: llmtune's own drop-ins, and the names of the others.
pub record Found : Type 0 where
  pub ours : List Dropin
  pub foreign : List Text

abbrev nothing_found : Found
nothing_found = record { ours = []; foreign = [] }

-- One file of `scan_dropins`: whether its extension is `conf`, and whether its content is ours.
abbrev pub add_file : Bool → Bool → Dropin → Found → Found
add_file false own p rest = rest
add_file true true p rest = record { ours = p ∷ rest.ours; foreign = rest.foreign }
add_file true false p rest = record { ours = rest.ours; foreign = p.name ∷ rest.foreign }

-- One directory of `collect_dropins_in`: what stands in a read-only one counts as foreign.
abbrev pub add_dir : Bool → Found → Found → Found
add_dir true found rest = record {
  ours = found.ours ++ rest.ours;
  foreign = found.foreign ++ rest.foreign;
}
add_dir false found rest = record {
  ours = rest.ours;
  foreign = map (λ p. p.name) found.ours ++ (found.foreign ++ rest.foreign);
}

module _ (is_ours : Text → Bool) where
  -- The loop of `scan_dropins` over a directory's files.
  unfoldable pub scan_files : Text → List (Text × Text) → Found
  unfolding has_conf_extension
  scan_files dir [] = nothing_found
  scan_files dir ((name, content) ∷ files) =
      add_file (has_conf_extension name) (is_ours content)
        (record { dir = dir; name = name; content = content }) (scan_files dir files)

  unfoldable pub collect_dropins_in : (Text → List (Text × Text)) → List (Text × Bool) → Found
  unfolding scan_files
  collect_dropins_in read_dir [] = nothing_found
  collect_dropins_in read_dir ((d, writable) ∷ dirs) =
      add_dir writable (scan_files d (read_dir d)) (collect_dropins_in read_dir dirs)

abbrev pub marker : Text
marker = codes "AUTO-GENERATED by llmtune [model-select]"

unfoldable pub collect_dropins : Bool → (Text → List (Text × Text)) → Text → Found
unfolding collect_dropins_in scan_dirs contains
collect_dropins etc_writable read_dir unit =
    collect_dropins_in (λ t. contains t marker) read_dir (scan_dirs etc_writable unit)

abbrev pub larger : Text → Option Text → Text
larger f none = f
larger f (some m) = if text_lt m f then f else m

-- `iter().max()`
unfoldable pub max_text : List Text → Option Text
unfolding text_lt
max_text [] = none
max_text (f ∷ fs) = some (larger f (max_text fs))

abbrev pub base_name : Text
base_name = codes "zzzzzz-llmtune.conf"

abbrev pub stem_or : Option Text → Text → Text
stem_or none name = name
stem_or (some stem) name = stem

abbrev pub name_above : Option Text → Text
name_above none = base_name
name_above (some m) =
    if not (text_lt m base_name)
    then stem_or (strip_suffix m conf) m ++ codes "z-llmtune.conf"
    else base_name

unfoldable pub winning_name : List Text → Text
unfolding max_text strip_suffix text_lt
winning_name foreign = name_above (max_text foreign)
