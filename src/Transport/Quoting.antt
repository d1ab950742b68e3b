-- ===== src/Transport/Quoting.antt =====
-- src/transport.rs: the remote shell takes a quoted command line apart into the same words.
use llmtune.Prelude.{
  ℕ, ◌==◌, ◌≡◌, ◌∙◌, refl, sym, ap, true, false, not, ◌&&◌, Option, none, some, List, [], ◌∷◌, ◌++◌,
  append_assoc, append-nil, Text, codes, join, map, all, is_empty, arith, ==_iff, Bool-cases, inl,
  inr, if◌then◌else◌,
}
use llmtune.Config.{Node}
use llmtune.Swap.Flags.{replace, replace_from}
use llmtune.Transport.{is_plain, sh_quote, ssh_options, ssh_argv, with_user, host_or_local}
use llmtune.Transport.Shell.{
  is_special, outside, quoted, begun, word_before, shell_from, shell_words,
}

-- The characters that the program leaves unquoted mean nothing to the shell.
plain_ordinary : (c : ℕ) → is_plain c ≡ true → is_special c ≡ false
unfolding is_plain
plain_ordinary c h = ground arith

-- A plain character is added to the word.
plain_step :
    (c : ℕ) (cur : Option Text) (s : Text)
    → is_plain c ≡ true
    → shell_from outside cur (c ∷ s) ≡ shell_from outside (some (begun cur ++ c ∷ [])) s
unfolding shell_from is_plain
plain_step c cur s h = ground (arith, plain_ordinary c h)

quoted_step :
    (c : ℕ) (w s : Text)
    → (c == b'\'') ≡ false
    → shell_from quoted (some w) (c ∷ s) ≡ shell_from quoted (some (w ++ c ∷ [])) s
unfolding shell_from
quoted_step c w s h = rw h refl

-- The text with each quote written as `'\''`.
unfoldable body : Text → Text
body [] = []
body (c ∷ s) = let rest = body s in if c == b'\'' then codes "'\\''" ++ rest else c ∷ rest

replace-body : (s : Text) → replace s (codes "'") (codes "'\\''") ≡ body s
unfolding replace replace_from body
replace-body [] = refl
replace-body (c ∷ s) = elim (Bool-cases (c == b'\'')) [
  | inl quote ↦ rw quote (ap (λ t. codes "'\\''" ++ t) (replace-body s))
  | inr other ↦ rw other (ap (λ t. c ∷ t) (replace-body s))
]

plain_words :
    (t w s : Text)
    → all is_plain t ≡ true
    → shell_from outside (some w) (t ++ s) ≡ shell_from outside (some (w ++ t)) s
plain_words [] w s h = ap (λ v. shell_from outside (some v) s) (sym (append-nil w))
plain_words (c ∷ t) w s h =
    plain_step c (some w) (t ++ s) (ground arith)
    ∙ plain_words t (w ++ c ∷ []) s (ground arith)
    ∙ ap (λ v. shell_from outside (some v) s) (append_assoc w (c ∷ []) t)

escaped_quote :
    (w s : Text)
    → shell_from quoted (some w) (codes "'\\''" ++ s) ≡ shell_from quoted (some (w ++ b'\'' ∷ [])) s
unfolding shell_from
escaped_quote w s = refl

body_words :
    (t w s : Text) → shell_from quoted (some w) (body t ++ s) ≡ shell_from quoted (some (w ++ t)) s
unfolding body
body_words [] w s = ap (λ v. shell_from quoted (some v) s) (sym (append-nil w))
body_words (c ∷ t) w s = elim (Bool-cases (c == b'\'')) [
  | inl quote ↦ rw quote (
      escaped_quote w (body t ++ s)
      ∙ body_words t (w ++ b'\'' ∷ []) s
      ∙ ap (λ v. shell_from quoted (some v) s)
          (append_assoc w (b'\'' ∷ []) t ∙ ap (λ d. w ++ d ∷ t) (sym ((==_iff c b'\'').0 quote))))
  | inr other ↦ rw other (
      quoted_step c w (body t ++ s) other
      ∙ body_words t (w ++ c ∷ []) s
      ∙ ap (λ v. shell_from quoted (some v) s) (append_assoc w (c ∷ []) t))
]

closed : (w s : Text) → shell_from quoted (some w) (b'\'' ∷ s) ≡ shell_from outside (some w) s
unfolding shell_from
closed w s = refl

opened : (s : Text) → shell_from outside none (b'\'' ∷ s) ≡ shell_from quoted (some []) s
unfolding shell_from
opened s = refl

plain_quote :
    (t s : Text)
    → not (is_empty t) && all is_plain t ≡ true
    → shell_from outside none (t ++ s) ≡ shell_from outside (some t) s
plain_quote [] s h = cc
plain_quote (c ∷ t) s h =
    plain_step c none (t ++ s) (ground arith) ∙ plain_words t (c ∷ []) s (ground arith)

-- The shell reads a quoted argument as one word.
quote_words :
    (t s : Text) → shell_from outside none (sh_quote t ++ s) ≡ shell_from outside (some t) s
unfolding sh_quote
quote_words t s = elim (Bool-cases (not (is_empty t) && all is_plain t)) [
  | inl safe ↦ rw safe (plain_quote t s safe)
  | inr other ↦ rw other (
      ap (λ b. shell_from outside none (b'\'' ∷ b ++ s)) (ap (λ b. b ++ codes "'") (replace-body t))
      ∙ opened ((body t ++ codes "'") ++ s)
      ∙ ap (shell_from quoted (some [])) (append_assoc (body t) (codes "'") s)
      ∙ body_words t [] (codes "'" ++ s)
      ∙ closed t s)
]

blank_step :
    (t s : Text)
    → shell_from outside (some t) (32 ∷ s) ≡ word_before (some t) (shell_from outside none s)
unfolding shell_from
blank_step t s = refl

-- The remote shell splits quoted arguments, joined by blanks, into the arguments.
shell_words-join :
    (args : List Text) → shell_words (join (codes " ") (map sh_quote args)) ≡ some args
unfolding shell_words join
shell_words-join [] = unfold shell_from in refl
shell_words-join (t ∷ []) =
    ap (shell_from outside none) (sym (append-nil (sh_quote t))) ∙ quote_words t [] ∙ last t
  where
    last : (t : Text) → shell_from outside (some t) [] ≡ some (t ∷ [])
    last t = unfold shell_from in refl
shell_words-join (t ∷ u ∷ args) =
    quote_words t (codes " " ++ join (codes " ") (map sh_quote (u ∷ args)))
    ∙ blank_step t (join (codes " ") (map sh_quote (u ∷ args)))
    ∙ ap (word_before (some t)) (shell_words-join (u ∷ args))

-- Whatever the arguments hold, blanks, quotes and line feeds included: behind the options, `--` and
-- the target, `ssh` is given words which, joined by blanks as `ssh` joins them, the remote shell
-- splits into `llmtune --json node` and exactly the arguments.
pub ssh_argv-words :
    (strict : Option Text) (node : Node) (args : List Text)
    → (words : List Text) × (ssh_argv strict node args
        ≡ ssh_options strict node
          ++ (codes "--" ∷ with_user node.ssh_user (host_or_local node.host) ∷ words))
      × (shell_words (join (codes " ") words)
          ≡ some (codes "llmtune" ∷ codes "--json" ∷ codes "node" ∷ args))
unfolding ssh_argv
ssh_argv-words strict node args = (
  codes "llmtune" ∷ codes "--json" ∷ codes "node" ∷ map sh_quote args,
  refl,
  ap (λ ws. shell_words (join (codes " ") ws)) (quoted_prefix (map sh_quote args))
      ∙ shell_words-join (codes "llmtune" ∷ codes "--json" ∷ codes "node" ∷ args),
)
  where
    quoted_prefix :
        (ws : List Text)
        → codes "llmtune" ∷ codes "--json" ∷ codes "node" ∷ ws
          ≡ sh_quote (codes "llmtune") ∷ sh_quote (codes "--json") ∷ sh_quote (codes "node") ∷ ws
    quoted_prefix ws = unfold sh_quote is_plain in refl
