-- ===== src/Swap/Env/Split.antt =====
-- src/swap.rs: `split_quoted` and `parse_unit_env`.
use llmtune.Prelude.{
  ℕ, ◌==◌, Bool, false, not, ◌||◌, Option, none, some, List, [], ◌∷◌, ◌++◌, Text, Map, codes,
  text_eq, to_lowercase, starts_with, strip_prefix, is_whitespace, insert, lines, trim, split_once,
  if◌then◌else◌,
}

-- A word that has been read, unless it is empty.
abbrev pub flush : Text → List Text → List Text
flush [] out = out
flush (c ∷ cur) out = (c ∷ cur) ∷ out

-- The loop of `split_quoted`: the open quote, the word being read, the characters left.
unfoldable pub split_quoted_from : Option ℕ → Text → Text → List Text
unfolding is_whitespace
split_quoted_from quote cur [] = flush cur []
split_quoted_from (some q) cur (c ∷ s) =
    let close = split_quoted_from none cur s in
    let keep = split_quoted_from (some q) (cur ++ c ∷ []) s in if c == q then close else keep
split_quoted_from none cur (c ∷ s) =
    let opened = split_quoted_from (some c) cur s in
    let next = split_quoted_from none [] s in
    let keep = split_quoted_from none (cur ++ c ∷ []) s in
    if c == b'"' || c == b'\'' then opened else if is_whitespace c then flush cur next else keep

unfoldable pub split_quoted : Text → List Text
unfolding split_quoted_from
split_quoted s = split_quoted_from none [] s

-- One token of an `Environment=` line.
abbrev pub assign : Option (Text × Text) → Map Text → Map Text
assign none env = env
assign (some ([], v)) env = env
assign (some (c ∷ k, v)) env = insert (c ∷ k) v env

unfoldable pub assign_all : List Text → Map Text → Map Text
unfolding split_once insert
assign_all [] env = env
assign_all (tok ∷ toks) env = assign_all toks (assign (split_once b'=' tok) env)

-- What an `Environment=` line with the trimmed rest does.
abbrev pub env_assignment : Text → Map Text → Map Text
env_assignment [] env = []
env_assignment (c ∷ rest) env = assign_all (split_quoted (c ∷ rest)) env

abbrev pub service_line : Option Text → Map Text → Map Text
service_line none env = env
service_line (some rest) env = env_assignment (trim rest) env

-- The body of the loop, on a trimmed line: whether `[Service]` is open, and the variables so far.
unfoldable pub unit_line : Text → Bool × Map Text → Bool × Map Text
unfolding assign_all split_quoted text_eq to_lowercase starts_with strip_prefix trim
unit_line line (in_service, env) =
    if starts_with line (codes "[")
    then (text_eq (to_lowercase line) (codes "[service]"), env)
    else if not in_service || (starts_with line (codes "#") || starts_with line (codes ";"))
    then (in_service, env)
    else (in_service, service_line (strip_prefix line (codes "Environment=")) env)

unfoldable pub unit_lines : List Text → Bool × Map Text → Bool × Map Text
unfolding unit_line
unit_lines [] s = s
unit_lines (raw ∷ rest) s = unit_lines rest (unit_line (trim raw) s)

unfoldable pub parse_unit_env : Text → Map Text
unfolding unit_lines lines
parse_unit_env text = (unit_lines (lines text) (false, [])).1
