-- ===== src/Swap/Flags.antt =====
-- src/swap.rs: `adjust_flags` and `strip_mtp_flags`.
pub mod Words
pub mod Mtp
pub mod Guard
use llmtune.Prelude.{
  ℕ, zero, suc, ltb, ◌==◌, Bool, true, false, not, ◌&&◌, ◌||◌, Option, none, some, List, [], ◌∷◌,
  ◌++◌, Text, codes, text_eq, to_lowercase, starts_with, contains, split_whitespace, join, length,
  drop, if◌then◌else◌,
}
use llmtune.Model.{Model}
use llmtune.Profile.{Profile}

-- `str::replace` by a pattern that is not empty; `skip` characters of the last match are left.
unfoldable pub replace_from : Text → Text → ℕ → Text → Text
unfolding starts_with
replace_from from to skip [] = []
replace_from from to zero (c ∷ s) =
    let hit = to ++ replace_from from to (length (drop 1 from)) s in
    let miss = c ∷ replace_from from to zero s in if starts_with (c ∷ s) from then hit else miss
replace_from from to (suc skip) (c ∷ s) = replace_from from to skip s

unfoldable pub replace : Text → Text → Text → Text
unfolding replace_from
replace s from to = replace_from from to zero s

unfoldable pub is_mtp_flag : Text → Bool
unfolding text_eq starts_with
is_mtp_flag t = text_eq t (codes "--spec-type") || starts_with t (codes "--spec-draft")

unfoldable pub is_flag : Text → Bool
unfolding starts_with
is_flag t = starts_with t (codes "-")

-- The `while` loop over the tokens.
unfoldable pub strip_tokens : List Text → List Text
unfolding is_mtp_flag is_flag
strip_tokens [] = []
strip_tokens (t ∷ []) = if is_mtp_flag t then [] else t ∷ []
strip_tokens (t ∷ n ∷ toks) =
    let past_value = strip_tokens toks in
    let past_flag = strip_tokens (n ∷ toks) in
    if is_mtp_flag t then (if is_flag n then past_flag else past_value) else t ∷ past_flag

unfoldable pub strip_mtp_flags : Text → Text
unfolding strip_tokens split_whitespace join
strip_mtp_flags flags = join (codes " ") (strip_tokens (split_whitespace flags))

abbrev pub big_context : Text
big_context = codes "-c 98304"

abbrev pub safe_context : Text
safe_context = codes "-c 32768"

-- The condition of the memory guard.
unfoldable pub is_oversized : Model → Text → Bool
unfolding to_lowercase starts_with contains
is_oversized model flags =
    let a = to_lowercase model.arch in
    starts_with a (codes "qwen35")
    && (not (starts_with a (codes "qwen35moe"))
        && (ltb 9_000_000_000 model.size_bytes && contains flags big_context))

unfoldable pub adjust_flags : Profile → Model → Text
unfolding is_oversized replace strip_mtp_flags
adjust_flags profile model =
    let flags =
      if is_oversized model profile.flags
      then replace profile.flags big_context safe_context
      else profile.flags in
    if not model.has_mtp then strip_mtp_flags flags else flags
