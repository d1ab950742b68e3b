-- ===== src/Swap/Env/Reading.antt =====
-- src/swap.rs: how the reading loops of `parse_unit_env` take the lines that `render_dropin` writes.
use llmtune.Prelude.{
  ℕ, ◌==◌, ==_iff, ◌≡◌, ◌∙◌, refl, sym, ap, Bool, false, ◌||◌, none, some, [], ◌∷◌, ◌++◌,
  append_assoc, append-nil, Text, is_whitespace, keep_end, with_first, drop_cr, lines, lines_from,
  trim, trim_start, trim_end, split_once, newline, Lacks, arith,
}
use llmtune.Swap.Env.Split.{flush, split_quoted_from}

abbrev pub is_quote : ℕ → Bool
is_quote c = c == b'"' || c == b'\''

lines_from-line :
    (cur s rest : Text)
    → Lacks (λ c. c == newline) s
    → lines_from cur (s ++ newline ∷ rest) ≡ drop_cr (cur ++ s) ∷ lines_from [] rest
unfolding lines_from
lines_from-line [] [] rest h = refl
lines_from-line (d ∷ cur) [] rest h = rw append-nil
lines_from-line [] (c ∷ s) rest h = rw h.0 (lines_from-line (c ∷ []) s rest h.1)
lines_from-line (d ∷ cur) (c ∷ s) rest h = rw h.0 (
    lines_from-line ((d ∷ cur) ++ c ∷ []) s rest h.1
    ∙ ap (λ l. drop_cr l ∷ lines_from [] rest) (append_assoc (d ∷ cur) (c ∷ []) s))

-- A text that ends in a line feed is its first line and the others.
pub lines-line :
    (s rest : Text)
    → Lacks (λ c. c == newline) s
    → lines (s ++ newline ∷ rest) ≡ drop_cr s ∷ lines rest
unfolding lines
lines-line s rest h = lines_from-line [] s rest h

pub drop_cr-keep : (s : Text) → Lacks is_whitespace s → drop_cr s ≡ s
unfolding drop_cr is_whitespace
drop_cr-keep [] h = refl
drop_cr-keep (c ∷ []) h = ground arith
drop_cr-keep (c ∷ d ∷ s) h = ap (λ t. c ∷ t) (drop_cr-keep (d ∷ s) h.1)

-- A last character that is no carriage return stays.
pub drop_cr-last : (s : Text) (c : ℕ) → (c == 13) ≡ false → drop_cr (s ++ c ∷ []) ≡ s ++ c ∷ []
unfolding drop_cr
drop_cr-last [] c h = rw h
drop_cr-last (a ∷ []) c h = rw h
drop_cr-last (a ∷ b ∷ s) c h = ap (λ t. a ∷ t) (drop_cr-last (b ∷ s) c h)

pub trim_end-cons : (c : ℕ) (s : Text) → is_whitespace c ≡ false → trim_end (c ∷ s) ≡ c ∷ trim_end s
unfolding trim_end
trim_end-cons c s h = keep_end-cons (trim_end s)
  where
    keep_end-cons : (t : Text) → keep_end c t ≡ c ∷ t
    keep_end-cons [] = rw h
    keep_end-cons (d ∷ t) = refl

pub trim_end-keep : (s : Text) → Lacks is_whitespace s → trim_end s ≡ s
unfolding trim_end
trim_end-keep [] h = refl
trim_end-keep (c ∷ s) h = trim_end-cons c s h.0 ∙ ap (λ t. c ∷ t) (trim_end-keep s h.1)

pub trim_end-last :
    (s : Text) (c : ℕ) → is_whitespace c ≡ false → trim_end (s ++ c ∷ []) ≡ s ++ c ∷ []
unfolding trim_end
trim_end-last [] c h = rw h
trim_end-last (a ∷ []) c h = rw h
trim_end-last (a ∷ b ∷ s) c h = ap (keep_end a) (trim_end-last (b ∷ s) c h)

pub trim_keep : (s : Text) → Lacks is_whitespace s → trim s ≡ s
unfolding trim trim_start
trim_keep [] h = trim_end-keep [] h
trim_keep (c ∷ s) h = rw h.0 (trim_end-keep (c ∷ s) h)

-- A text between two characters that are no blanks.
pub trim_last :
    (a : ℕ) (s : Text) (c : ℕ)
    → is_whitespace a ≡ false
    → is_whitespace c ≡ false
    → trim (a ∷ s ++ c ∷ []) ≡ a ∷ s ++ c ∷ []
unfolding trim trim_start
trim_last a s c h k = rw h (trim_end-last (a ∷ s) c k)

pub drop_cr-cons : (c : ℕ) (s : Text) → (c == 13) ≡ false → drop_cr (c ∷ s) ≡ c ∷ drop_cr s
unfolding drop_cr
drop_cr-cons c [] h = rw h
drop_cr-cons c (d ∷ s) h = refl

-- A word with neither blanks nor quotes is one token.
pub split_quoted_from-word :
    (cur s : Text)
    → Lacks is_whitespace s
    → Lacks is_quote s
    → split_quoted_from none cur s ≡ flush (cur ++ s) []
unfolding split_quoted_from
split_quoted_from-word cur [] h k = rw append-nil
split_quoted_from-word cur (c ∷ s) h k =
    rw (k.0, h.0)
      (split_quoted_from-word (cur ++ c ∷ []) s h.1 k.1
        ∙ ap (λ t. flush t []) (append_assoc cur (c ∷ []) s))

-- Inside quotes all is kept up to the closing quote.
pub split_quoted_from-quoted :
    (q : ℕ) (cur s : Text)
    → Lacks (λ c. c == q) s
    → split_quoted_from (some q) cur (s ++ q ∷ []) ≡ flush (cur ++ s) []
unfolding split_quoted_from
split_quoted_from-quoted q cur [] h =
    rw ((==_iff q q).1 refl) (ap (λ t. flush t []) (sym (append-nil cur)))
split_quoted_from-quoted q cur (c ∷ s) h = rw h.0 (
    split_quoted_from-quoted q (cur ++ c ∷ []) s h.1
    ∙ ap (λ t. flush t []) (append_assoc cur (c ∷ []) s))

pub split_once-key :
    (c : ℕ) (k v : Text) → Lacks (λ d. d == c) k → split_once c (k ++ c ∷ v) ≡ some (k, v)
unfolding split_once
split_once-key c [] v h = rw ((==_iff c c).1 refl)
split_once-key c (d ∷ k) v h = rw h.0 (ap (with_first d) (split_once-key c k v h.1))
