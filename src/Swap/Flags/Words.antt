-- ===== src/Swap/Flags/Words.antt =====
-- The words of a text, and the text of words: `split_whitespace` and `join(" ")`.
use llmtune.Prelude.{
  ℕ, ◌≡◌, ◌∙◌, refl, sym, ap, List, [], ◌∷◌, ◌++◌, append_assoc, append-nil, Text, codes,
  is_whitespace, words_from, split_whitespace, join, All, Lacks, Lacks-append, inl, inr, Bool-cases,
}

-- A word is not empty and holds no blank.
abbrev pub IsWord : Text → Type 0
IsWord [] = ⊥
IsWord (c ∷ s) = Lacks is_whitespace (c ∷ s)

words_from-IsWord : (cur s : Text) → Lacks is_whitespace cur → All IsWord (words_from cur s)
unfolding words_from
words_from-IsWord [] [] h = tt
words_from-IsWord (d ∷ cur) [] h = (h, tt)
words_from-IsWord [] (c ∷ s) h = elim (Bool-cases (is_whitespace c)) [
  | inl blank ↦ rw blank (words_from-IsWord [] s tt)
  | inr mark ↦ rw mark (words_from-IsWord (c ∷ []) s (mark, tt))
]
words_from-IsWord (d ∷ cur) (c ∷ s) h = elim (Bool-cases (is_whitespace c)) [
  | inl blank ↦ rw blank (h, words_from-IsWord [] s tt)
  | inr mark ↦ rw mark (
      words_from-IsWord (d ∷ cur ++ c ∷ []) s
        (Lacks-append is_whitespace (d ∷ cur) (c ∷ []) h (mark, tt)))
]

-- `split_whitespace` yields words.
pub split_whitespace-IsWord : (s : Text) → All IsWord (split_whitespace s)
unfolding split_whitespace
split_whitespace-IsWord s = words_from-IsWord [] s tt

-- The rest of a word is read onto the word.
words_from-word :
    (d : ℕ) (cur w rest : Text)
    → Lacks is_whitespace w
    → words_from (d ∷ cur) (w ++ rest) ≡ words_from (d ∷ cur ++ w) rest
unfolding words_from
words_from-word d cur [] rest h = rw append-nil
words_from-word d cur (c ∷ w) rest h = rw h.0 (
    words_from-word d (cur ++ c ∷ []) w rest h.1
    ∙ ap (λ t. words_from (d ∷ t) rest) (append_assoc cur (c ∷ []) w))

words_from-first : (w rest : Text) → IsWord w → words_from [] (w ++ rest) ≡ words_from w rest
unfolding words_from
words_from-first [] rest h = absurd h
words_from-first (c ∷ w) rest h = rw h.0 (words_from-word c [] w rest h.1)

words_from-last : (w : Text) → IsWord w → words_from w [] ≡ w ∷ []
unfolding words_from
words_from-last [] h = absurd h
words_from-last (c ∷ w) h = refl

words_from-space : (w rest : Text) → IsWord w → words_from w (b' ' ∷ rest) ≡ w ∷ words_from [] rest
unfolding words_from is_whitespace
words_from-space [] rest h = absurd h
words_from-space (c ∷ w) rest h = refl

-- Words joined by spaces are split into the same words.
pub split_whitespace-join :
    (ws : List Text) → All IsWord ws → split_whitespace (join (codes " ") ws) ≡ ws
unfolding split_whitespace join
split_whitespace-join [] h = unfold words_from in refl
split_whitespace-join (w ∷ []) h =
    ap (words_from []) (sym (append-nil w)) ∙ words_from-first w [] h.0 ∙ words_from-last w h.0
split_whitespace-join (w ∷ v ∷ ws) h =
    words_from-first w (codes " " ++ join (codes " ") (v ∷ ws)) h.0
    ∙ words_from-space w (join (codes " ") (v ∷ ws)) h.0
    ∙ ap (λ l. w ∷ l) (split_whitespace-join (v ∷ ws) h.1)
