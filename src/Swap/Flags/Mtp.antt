-- ===== src/Swap/Flags/Mtp.antt =====
-- src/swap.rs: which words `strip_mtp_flags` takes away.
use llmtune.Prelude.{
  ◌≡◌, ◌∙◌, refl, sym, ap, subst, Bool, true, false, not, ◌&&◌, ◌||◌, Option, none, some, List, [],
  ◌∷◌, Text, codes, text_eq, starts_with, All, split_whitespace, arith, if◌then◌else◌, inl, inr,
  Bool-cases,
}
use llmtune.Model.{Model}
use llmtune.Profile.{Profile}
use llmtune.Swap.Flags.{is_mtp_flag, is_flag, strip_tokens, strip_mtp_flags, adjust_flags}
use llmtune.Swap.Flags.Guard.{IsGuarded, is_big_dense, guarded_flags, guarded_flags-IsGuarded}
use llmtune.Swap.Flags.Words.{IsWord, split_whitespace-IsWord, split_whitespace-join}

abbrev pub HasNoMtp : List Text → Type 0
HasNoMtp toks = All (λ t. is_mtp_flag t ≡ false) toks

-- A flag that asks for speculative decoding.
abbrev pub asks_mtp : Text → Bool
asks_mtp t = text_eq t (codes "--spec-type") || starts_with t (codes "--spec-draft")

-- A word goes where it is such a flag, or stands right behind one and is no flag itself.
abbrev pub goes : Option Text → Text → Bool
goes none t = asks_mtp t
goes (some before) t = asks_mtp t || asks_mtp before && not (starts_with t (codes "-"))

-- The words that stay, each judged by itself and the word before it.
unfoldable pub survivors : Option Text → List Text → List Text
unfolding text_eq starts_with
survivors before [] = []
survivors before (t ∷ ts) =
    let rest = survivors (some t) ts in if goes before t then rest else t ∷ rest

strip_tokens-HasNoMtp : (toks : List Text) → HasNoMtp (strip_tokens toks)
unfolding strip_tokens
strip_tokens-HasNoMtp [] = tt
strip_tokens-HasNoMtp (t ∷ []) = elim (Bool-cases (is_mtp_flag t)) [
  | inl mtp ↦ rw mtp tt
  | inr other ↦ rw other (other, tt)
]
strip_tokens-HasNoMtp (t ∷ n ∷ toks) = elim (Bool-cases (is_mtp_flag t)) [
  | inl mtp ↦ elim (Bool-cases (is_flag n)) [
    | inl flag ↦ rw (mtp, flag) (strip_tokens-HasNoMtp (n ∷ toks))
    | inr value ↦ rw (mtp, value) (strip_tokens-HasNoMtp toks)
  ]
  | inr other ↦ rw other (other, strip_tokens-HasNoMtp (n ∷ toks))
]

-- Where there is no MTP flag nothing is stripped.
pub strip_tokens-id : (toks : List Text) → HasNoMtp toks → strip_tokens toks ≡ toks
unfolding strip_tokens
strip_tokens-id [] h = refl
strip_tokens-id (t ∷ []) h = rw h.0
strip_tokens-id (t ∷ n ∷ toks) h = rw h.0 (ap (λ l. t ∷ l) (strip_tokens-id (n ∷ toks) h.1))

-- A word that is no flag asks for nothing.
value-asks : (t : Text) → starts_with t (codes "-") ≡ false → asks_mtp t ≡ false
unfolding starts_with text_eq
value-asks [] h = refl
value-asks (c ∷ t) h = ground arith

strip_tokens-step :
    (t n : Text) (toks : List Text)
    → strip_tokens (t ∷ n ∷ toks) ≡ (
        if asks_mtp t
        then (if starts_with n (codes "-") then strip_tokens (n ∷ toks) else strip_tokens toks)
        else t ∷ strip_tokens (n ∷ toks))
unfolding strip_tokens is_mtp_flag is_flag
strip_tokens-step t n toks = refl

survivors-step :
    (before : Option Text) (t : Text) (ts : List Text)
    → survivors before (t ∷ ts)
      ≡ (if goes before t then survivors (some t) ts else t ∷ survivors (some t) ts)
unfolding survivors
survivors-step before t ts = refl

-- Only whether the first word goes depends on the word before it.
survivors-as :
    (before : Option Text) (t : Text) (ts : List Text)
    → goes before t ≡ asks_mtp t
    → survivors before (t ∷ ts) ≡ survivors none (t ∷ ts)
survivors-as before t ts h =
    survivors-step before t ts
    ∙ ap (λ b. if b then survivors (some t) ts else t ∷ survivors (some t) ts) h
    ∙ sym (survivors-step none t ts)

-- A word that asks for nothing is nothing to the next one, and a flag goes by itself only.
survivors-quiet :
    (t : Text) (ts : List Text) → asks_mtp t ≡ false → survivors (some t) ts ≡ survivors none ts
survivors-quiet t [] h = unfold survivors in refl
survivors-quiet t (n ∷ ts) h =
    survivors-as (some t) n ts (go (asks_mtp t) (asks_mtp n) (not (starts_with n (codes "-"))) h)
  where
    go : (b a f : Bool) → b ≡ false → (a || b && f) ≡ a
    go b a f h = ground arith

survivors-flag :
    (t n : Text) (ts : List Text)
    → starts_with n (codes "-") ≡ true
    → survivors (some t) (n ∷ ts) ≡ survivors none (n ∷ ts)
survivors-flag t n ts h =
    survivors-as (some t) n ts (go (asks_mtp n) (asks_mtp t) (starts_with n (codes "-")) h)
  where
    go : (a b f : Bool) → f ≡ true → (a || b && not f) ≡ a
    go a b f h = ground arith

survivors-value :
    (t n : Text) (ts : List Text)
    → asks_mtp t ≡ true
    → starts_with n (codes "-") ≡ false
    → survivors (some t) (n ∷ ts) ≡ survivors none ts
survivors-value t n ts h k =
    survivors-step (some t) n ts
    ∙ ap (λ b. if b then survivors (some n) ts else n ∷ survivors (some n) ts)
        (go (asks_mtp n) (asks_mtp t) (starts_with n (codes "-")) h k)
    ∙ survivors-quiet n ts (value-asks n k)
  where
    go : (a b f : Bool) → b ≡ true → f ≡ false → (a || b && not f) ≡ true
    go a b f h k = ground arith

-- The loop keeps the words that stay.
strip_tokens-survivors : (toks : List Text) → strip_tokens toks ≡ survivors none toks
strip_tokens-survivors [] = unfold strip_tokens survivors in refl
strip_tokens-survivors (t ∷ []) = unfold strip_tokens is_mtp_flag survivors in refl
strip_tokens-survivors (t ∷ n ∷ toks) =
    strip_tokens-step t n toks
    ∙ elim (Bool-cases (asks_mtp t)) [
      | inl mtp ↦ elim (Bool-cases (starts_with n (codes "-"))) [
        | inl flag ↦
            rw (mtp, flag) (strip_tokens-survivors (n ∷ toks) ∙ sym (survivors-flag t n toks flag))
        | inr value ↦
            rw (mtp, value) (strip_tokens-survivors toks ∙ sym (survivors-value t n toks mtp value))
      ]
      | inr other ↦ rw other (
          ap (λ l. t ∷ l)
            (strip_tokens-survivors (n ∷ toks) ∙ sym (survivors-quiet t (n ∷ toks) other)))
    ]
    ∙ sym (survivors-step none t (n ∷ toks))

All-strip {ℓ} : (P : Text → Type ℓ) (toks : List Text) → All P toks → All P (strip_tokens toks)
unfolding strip_tokens
All-strip P [] h = tt
All-strip P (t ∷ []) h = elim (Bool-cases (is_mtp_flag t)) [
  | inl mtp ↦ rw mtp tt
  | inr other ↦ rw other h
]
All-strip P (t ∷ n ∷ toks) h = elim (Bool-cases (is_mtp_flag t)) [
  | inl mtp ↦ elim (Bool-cases (is_flag n)) [
    | inl flag ↦ rw (mtp, flag) (All-strip P (n ∷ toks) h.1)
    | inr value ↦ rw (mtp, value) (All-strip P toks h.1.1)
  ]
  | inr other ↦ rw other (h.0, All-strip P (n ∷ toks) h.1)
]

-- The words of the stripped text are the stripped words.
strip_words :
    (flags : Text)
    → split_whitespace (strip_mtp_flags flags) ≡ strip_tokens (split_whitespace flags)
unfolding strip_mtp_flags
strip_words flags =
    split_whitespace-join _
      (All-strip IsWord (split_whitespace flags) (split_whitespace-IsWord flags))

adjust_flags-words :
    (profile : Profile) (model : Model)
    → model.has_mtp ≡ false
    → split_whitespace (adjust_flags profile model)
      ≡ strip_tokens (split_whitespace (guarded_flags profile model))
unfolding adjust_flags
adjust_flags-words profile model h = rw h (strip_words (guarded_flags profile model))

-- For a model without MTP layers the words of the adjusted flags are those of the memory-guarded
-- flags, in their order, less each `--spec-type` and each flag that starts with `--spec-draft`, and
-- less the word behind such a flag where that word does not start with `-`; so no such flag is left.
-- The memory-guarded flags are the profile's with each `-c 98304` written as `-c 32768` where the
-- model is a dense qwen35 of more than 9,000,000,000 bytes, and else the profile's.
pub adjust_flags_no_mtp :
    (profile : Profile) (model : Model)
    → model.has_mtp ≡ false
    → (guarded : Text) × IsGuarded (is_big_dense model) profile.flags guarded
      × (split_whitespace (adjust_flags profile model) ≡ survivors none (split_whitespace guarded))
      × HasNoMtp (split_whitespace (adjust_flags profile model))
adjust_flags_no_mtp profile model h = (
  guarded_flags profile model,
  guarded_flags-IsGuarded profile model,
  adjust_flags-words profile model h ∙ strip_tokens-survivors _,
  subst HasNoMtp (sym (adjust_flags-words profile model h)) (strip_tokens-HasNoMtp _),
)
