-- ===== src/Swap/Env/Parsing.antt =====
-- src/swap.rs: `parse_unit_env` reads back the environment that `render_dropin` writes.
use llmtune.Prelude.{
  ℕ, ◌==◌, ◌≡◌, ◌∙◌, refl, ap, Bool, true, false, List, [], ◌∷◌, ◌++◌, append_assoc, Text, Map,
  codes, insert, is_whitespace, drop_cr, lines, trim, newline, arith, inl, inr, Bool-cases, Lacks,
  lacks_sound, Lacks-append, any,
}
use llmtune.Swap.Env.{env_line}
use llmtune.Swap.Env.Split.{split_quoted, assign, assign_all, env_assignment, unit_line, unit_lines}
use llmtune.Swap.Env.Reading.{
  is_quote, lines-line, drop_cr-keep, drop_cr-last, trim_keep, trim_last, split_quoted_from-word,
  split_quoted_from-quoted, split_once-key,
}

-- The name of a variable: not empty, with no blank, no quote and no `=`.
pub record IsName (k : Text) : Type 0 where
  pub nonempty : (c : ℕ) × (s : Text) × (k ≡ c ∷ s)
  pub no_blank : Lacks is_whitespace k
  pub no_quote : Lacks is_quote k
  pub no_equals : Lacks (λ c. c == b'=') k

-- A variable that one line of a unit can carry.
abbrev pub IsEntry : Text × Text → Type 0
IsEntry (k, v) = IsName k × Lacks is_quote v × Lacks (λ c. c == newline) v

no_double : (s : Text) → Lacks is_quote s → Lacks (λ c. c == b'"') s
no_double [] h = tt
no_double (c ∷ s) h = (ground arith, no_double s h.1)

-- Where the entry's text is read: a token with its `=` assigns the variable.
assign_token :
    (c : ℕ) (k v : Text) (env : Map Text)
    → Lacks (λ d. d == b'=') (c ∷ k)
    → assign_all ((c ∷ k ++ b'=' ∷ v) ∷ []) env ≡ insert (c ∷ k) v env
unfolding assign_all
assign_token c k v env h = ap (λ o. assign o env) (split_once-key b'=' (c ∷ k) v h)

one_token :
    (c : ℕ) (k v : Text) (env : Map Text)
    → Lacks (λ d. d == b'=') (c ∷ k)
    → (toks : List Text) → toks ≡ (c ∷ k ++ b'=' ∷ v) ∷ []
    → assign_all toks env ≡ insert (c ∷ k) v env
one_token c k v env h toks e = ap (λ l. assign_all l env) e ∙ assign_token c k v env h

bare_token :
    (c : ℕ) (k v : Text) (env : Map Text)
    → IsName (c ∷ k)
    → Lacks is_whitespace v
    → Lacks is_quote v
    → env_assignment (trim (c ∷ k ++ b'=' ∷ v)) env ≡ insert (c ∷ k) v env
unfolding split_quoted
bare_token c k v env name vb vq =
    let s : Text = c ∷ k ++ b'=' ∷ v in
    let blank : Lacks is_whitespace s =
      Lacks-append is_whitespace (c ∷ k) _ name.no_blank (unfold is_whitespace in refl, vb) in
    let quote : Lacks is_quote s = Lacks-append is_quote (c ∷ k) _ name.no_quote (refl, vq) in
    ap (λ t. env_assignment t env) (trim_keep s blank)
    ∙ one_token c k v env name.no_equals _ (split_quoted_from-word [] s blank quote)

quoted_token :
    (c : ℕ) (k v : Text) (env : Map Text)
    → IsName (c ∷ k)
    → Lacks is_quote v
    → env_assignment (trim (b'"' ∷ (c ∷ k ++ b'=' ∷ v) ++ b'"' ∷ [])) env ≡ insert (c ∷ k) v env
unfolding split_quoted
quoted_token c k v env name vq =
    let s : Text = c ∷ k ++ b'=' ∷ v in
    let quote : Lacks is_quote s = Lacks-append is_quote (c ∷ k) _ name.no_quote (refl, vq) in
    ap (λ t. env_assignment t env)
      (trim_last b'"' s b'"' (unfold is_whitespace in refl) (unfold is_whitespace in refl))
    ∙ one_token c k v env name.no_equals _ (split_quoted_from-quoted b'"' [] s (no_double s quote))

-- The two forms of a line, without their line feed.
abbrev bare_line : Text → Text → Text
bare_line k v = codes "Environment=" ++ (k ++ b'=' ∷ v)

abbrev quoted_line : Text → Text → Text
quoted_line k v = codes "Environment=\"" ++ ((k ++ b'=' ∷ v) ++ b'"' ∷ [])

bare_line_raw :
    (c : ℕ) (k v : Text)
    → IsName (c ∷ k)
    → Lacks is_whitespace v
    → trim (drop_cr (bare_line (c ∷ k) v)) ≡ bare_line (c ∷ k) v
bare_line_raw c k v name vb =
    let blank : Lacks is_whitespace (bare_line (c ∷ k) v) =
      Lacks-append is_whitespace (codes "Environment=") (c ∷ k ++ b'=' ∷ v)
        (lacks_sound is_whitespace (codes "Environment=") (unfold is_whitespace in refl))
        (Lacks-append is_whitespace (c ∷ k) (b'=' ∷ v) name.no_blank
          (unfold is_whitespace in refl, vb)) in
    ap trim (drop_cr-keep _ blank) ∙ trim_keep _ blank

quoted_line_raw : (k v : Text) → trim (drop_cr (quoted_line k v)) ≡ quoted_line k v
quoted_line_raw k v =
    ap trim (drop_cr-last (codes "Environment=\"" ++ (k ++ b'=' ∷ v)) b'"' refl)
    ∙ trim_last b'E' (codes "nvironment=\"" ++ (k ++ b'=' ∷ v)) b'"' (unfold is_whitespace in refl)
        (unfold is_whitespace in refl)

bare_unit_line :
    (c : ℕ) (k v : Text) (env : Map Text)
    → IsName (c ∷ k)
    → Lacks is_whitespace v
    → Lacks is_quote v
    → unit_line (bare_line (c ∷ k) v) (true, env) ≡ (true, insert (c ∷ k) v env)
unfolding unit_line
bare_unit_line c k v env name vb vq = ap (λ m. (true, m)) (bare_token c k v env name vb vq)

quoted_unit_line :
    (c : ℕ) (k v : Text) (env : Map Text)
    → IsName (c ∷ k)
    → Lacks is_quote v
    → unit_line (quoted_line (c ∷ k) v) (true, env) ≡ (true, insert (c ∷ k) v env)
unfolding unit_line
quoted_unit_line c k v env name vq = ap (λ m. (true, m)) (quoted_token c k v env name vq)

-- A first line that holds no line feed, and what it does to the state.
pub first_line :
    (line rest : Text) (s t : Bool × Map Text)
    → Lacks (λ c. c == newline) line
    → unit_line (trim (drop_cr line)) s ≡ t
    → unit_lines (lines (line ++ newline ∷ rest)) s ≡ unit_lines (lines rest) t
unfolding unit_lines
first_line line rest s t h e =
    ap (λ l. unit_lines l s) (lines-line line rest h) ∙ ap (unit_lines (lines rest)) e

any-Lacks : (p : ℕ → Bool) (s : Text) → any p s ≡ false → Lacks p s
any-Lacks p [] h = tt
any-Lacks p (c ∷ s) h = (ground arith, any-Lacks p s (ground arith))

abbrev pub is_newline : ℕ → Bool
is_newline c = c == newline

blank-newline : (s : Text) → Lacks is_whitespace s → Lacks is_newline s
blank-newline [] h = tt
blank-newline (c ∷ s) h = ((unfold is_whitespace in ground arith), blank-newline s h.1)

bare_line-Lacks :
    (c : ℕ) (k v : Text)
    → IsName (c ∷ k)
    → Lacks is_newline v
    → Lacks is_newline (bare_line (c ∷ k) v)
bare_line-Lacks c k v name vn =
    Lacks-append is_newline (codes "Environment=") (c ∷ k ++ b'=' ∷ v)
      (lacks_sound is_newline (codes "Environment=") refl)
      (Lacks-append is_newline (c ∷ k) (b'=' ∷ v) (blank-newline (c ∷ k) name.no_blank) (refl, vn))

quoted_line-Lacks :
    (c : ℕ) (k v : Text)
    → IsName (c ∷ k)
    → Lacks is_newline v
    → Lacks is_newline (quoted_line (c ∷ k) v)
quoted_line-Lacks c k v name vn =
    Lacks-append is_newline (codes "Environment=\"") ((c ∷ k ++ b'=' ∷ v) ++ b'"' ∷ [])
      (lacks_sound is_newline (codes "Environment=\"") refl)
      (Lacks-append is_newline (c ∷ k ++ b'=' ∷ v) (b'"' ∷ [])
        (Lacks-append is_newline (c ∷ k) (b'=' ∷ v) (blank-newline (c ∷ k) name.no_blank)
          (refl, vn))
        (refl, tt))

-- One line of the environment is read as the assignment of its variable.
pub env_line_reads :
    (c : ℕ) (k v rest : Text) (env : Map Text)
    → IsEntry (c ∷ k, v)
    → unit_lines (lines (env_line (c ∷ k) v ++ rest)) (true, env)
      ≡ unit_lines (lines rest) (true, insert (c ∷ k) v env)
unfolding env_line
env_line_reads c k v rest env (name, vq, vn) = elim (Bool-cases (any is_whitespace v)) [
  | inl blank ↦ rw blank (
      ap (λ t. unit_lines (lines t) (true, env)) (simp append_assoc)
      ∙ first_line (quoted_line (c ∷ k) v) rest _ _ (quoted_line-Lacks c k v name vn) (
          ap (λ l. unit_line l (true, env)) (quoted_line_raw (c ∷ k) v)
          ∙ quoted_unit_line c k v env name vq))
  | inr bare ↦ rw bare (
      ap (λ t. unit_lines (lines t) (true, env)) (simp append_assoc)
      ∙ first_line (bare_line (c ∷ k) v) rest _ _ (bare_line-Lacks c k v name vn) (
          ap (λ l. unit_line l (true, env))
            (bare_line_raw c k v name (any-Lacks is_whitespace v bare))
          ∙ bare_unit_line c k v env name (any-Lacks is_whitespace v bare) vq))
]
