-- ===== src/Nodeops/Bind.antt =====
-- src/nodeops.rs: `parse_bind`, the host and port of a URL.
use llmtune.Prelude.{
  ℕ, zero, suc, ◌==◌, Option, none, some, [], ◌∷◌, Text, codes, length, read_digits, strip_prefix,
  is_empty, slash, if◌then◌else◌,
}

abbrev stripped : Option Text → Text → Text
stripped none s = s
stripped (some rest) s = rest

-- `trim_start_matches`: the prefix is taken off as often as it stands there. The first argument
-- bounds how often; a text holds no more prefixes than characters.
unfoldable pub trim_matches : ℕ → Text → Text → Text
unfolding strip_prefix
trim_matches zero p s = s
trim_matches (suc fuel) p s = elim (strip_prefix s p) [
  | none ↦ s
  | some rest ↦ trim_matches fuel p rest
]

unfoldable pub trim_start_matches : Text → Text → Text
unfolding trim_matches
trim_start_matches p s = trim_matches (length s) p s

-- What stands before the first `c`: the first piece of `split(c)`.
unfoldable pub before : ℕ → Text → Text
before c [] = []
before c (d ∷ s) = let rest = before c s in if d == c then [] else d ∷ rest

abbrev after_first : ℕ → ℕ → Text → Option (Text × Text) → Option (Text × Text)
after_first c d s none = if d == c then some ([], s) else none
after_first c d s (some (l, r)) = some (d ∷ l, r)

-- The text before and behind the last `c`.
unfoldable pub rsplit_once : ℕ → Text → Option (Text × Text)
rsplit_once c [] = none
rsplit_once c (d ∷ s) = after_first c d s (rsplit_once c s)

-- `parse::<u16>`: one plus sign may stand before the digits.
unfoldable pub parse_u16 : Text → Option ℕ
unfolding read_digits
parse_u16 [] = none
parse_u16 (c ∷ s) =
    if c == b'+'
    then (if is_empty s then none else read_digits 65_535 0 s)
    else read_digits 65_535 0 (c ∷ s)

abbrev default_bind : Text × ℕ
default_bind = (codes "127.0.0.1", 8080)

abbrev pub bind_of : Text → Option ℕ → Text × ℕ
bind_of h none = default_bind
bind_of h (some port) = (h, port)

abbrev pub bind_parts : Option (Text × Text) → Text × ℕ
bind_parts none = default_bind
bind_parts (some (h, p)) = bind_of h (parse_u16 p)

unfoldable pub parse_bind : Text → Text × ℕ
unfolding trim_start_matches before rsplit_once parse_u16
parse_bind url =
    let s = trim_start_matches (codes "https://") (trim_start_matches (codes "http://") url) in
    bind_parts (rsplit_once b':' (before slash s))
