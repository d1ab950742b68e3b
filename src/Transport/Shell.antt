-- ===== src/Transport/Shell.antt =====
-- How a POSIX shell splits a command line into words: a description that takes nothing from the
-- program. It refuses a character that means something to the shell and is not quoted.
use llmtune.Prelude.{
  ℕ, ◌==◌, ltb, ◌||◌, Bool, Option, none, some, List, [], ◌∷◌, ◌++◌, Text, codes, any,
  if◌then◌else◌,
}

-- What a shell does not take for itself where it is not quoted: the operators `|&;<>()`, the
-- expansions `$`, the back quote, `*?[]~` and `{}!^`, the comment sign, the double quote, the
-- control characters, and, to be on the safe side, all that is not ASCII. `=` and `%` are letters
-- to it in an argument.
abbrev pub is_special : ℕ → Bool
is_special c = ltb c 33 || ltb 126 c || any (λ d. d == c) (codes "|&;<>()$`*?[]~{}!^#\"'\\")

pub data Mode : Type 0 where
  outside quoted escaped : Mode

-- A word that has begun, if one has.
abbrev pub begun : Option Text → Text
begun none = []
begun (some w) = w

abbrev pub word_before : Option Text → Option (List Text) → Option (List Text)
word_before none rest = rest
word_before (some w) none = none
word_before (some w) (some ws) = some (w ∷ ws)

unfoldable pub shell_from : Mode → Option Text → Text → Option (List Text)
shell_from outside cur [] = word_before cur (some [])
shell_from quoted cur [] = none
shell_from escaped cur [] = none
shell_from outside cur (c ∷ s) =
    let blank = word_before cur (shell_from outside none s) in
    let quote = shell_from quoted (some (begun cur)) s in
    let escape = shell_from escaped (some (begun cur)) s in
    let more = shell_from outside (some (begun cur ++ c ∷ [])) s in
    if c == 32
    then blank
    else if c == b'\''
    then quote
    else if c == b'\\'
    then escape
    else if is_special c
    then none
    else more
shell_from quoted cur (c ∷ s) =
    let close = shell_from outside cur s in
    let more = shell_from quoted (some (begun cur ++ c ∷ [])) s in
    if c == b'\'' then close else more
shell_from escaped cur (c ∷ s) = shell_from outside (some (begun cur ++ c ∷ [])) s

unfoldable pub shell_words : Text → Option (List Text)
unfolding shell_from
shell_words s = shell_from outside none s
