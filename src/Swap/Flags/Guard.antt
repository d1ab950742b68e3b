-- ===== src/Swap/Flags/Guard.antt =====
-- src/swap.rs: the memory guard of `adjust_flags`.
use llmtune.Prelude.{
  ℕ, zero, suc, ◌==◌, ==_iff, ltb, ◌≡◌, ◌∙◌, refl, sym, ap, subst, Bool, true, false, not, ◌&&◌,
  ◌||◌, drop, [], ◌∷◌, ◌++◌, to_lowercase, if◌then◌else◌, Text, codes, lacks_sound, Lacks,
  starts_with, contains, arith, inl, inr, Bool-cases, length,
}
use llmtune.Model.{Model}
use llmtune.Profile.{Profile}
use llmtune.Swap.Flags.{
  replace_from, replace, adjust_flags, is_oversized, big_context, safe_context,
}

abbrev LacksDash : Text → Type 0
LacksDash g = Lacks (λ c. c == b'-') g

-- One character of the loop: at a match the replacement is written, else the character.
replace-hit :
    (from to : Text) (c : ℕ) (s : Text)
    → starts_with (c ∷ s) from ≡ true
    → replace_from from to zero (c ∷ s) ≡ to ++ replace_from from to (length (drop 1 from)) s
unfolding replace_from
replace-hit from to c s h = rw h

replace-miss :
    (from to : Text) (c : ℕ) (s : Text)
    → starts_with (c ∷ s) from ≡ false
    → replace_from from to zero (c ∷ s) ≡ c ∷ replace_from from to zero s
unfolding replace_from
replace-miss from to c s h = rw h

abbrev replaced : ℕ → Text → Text
replaced skip s = replace_from big_context safe_context skip s

no_dash : (d : ℕ) (g t : Text) → LacksDash (d ∷ g) → starts_with (b'-' ∷ t) (d ∷ g) ≡ false
unfolding starts_with
no_dash d g t h = ground arith

starts_with-cons : (c d : ℕ) (s g : Text) → starts_with (c ∷ s) (d ∷ g) ≡ c == d && starts_with s g
unfolding starts_with
starts_with-cons c d s g = refl

-- A prefix with no dash stands in the replaced text only where it stands in the text.
prefix_back :
    (g s : Text) → LacksDash g → starts_with (replaced zero s) g ≡ true → starts_with s g ≡ true
prefix_back [] s h k = unfold starts_with in ground arith
prefix_back (d ∷ g) [] h k = unfold replace_from in k
prefix_back (d ∷ g) (c ∷ s) h k = elim (Bool-cases (starts_with (c ∷ s) big_context)) [
  | inl hit ↦ cc (
    no_dash d g _ h,
    subst (λ t. starts_with t (d ∷ g) ≡ true) (replace-hit big_context safe_context c s hit) k,
  )
  | inr miss ↦ ground (
    arith,
    starts_with-cons c d s g,
    starts_with-cons c d (replaced zero s) g,
    prefix_back g s h.1,
    subst (λ t. starts_with t (d ∷ g) ≡ true) (replace-miss big_context safe_context c s miss) k,
  )
]

-- Neither the replacement nor what follows it holds the replaced text again.
contains-safe :
    (t : Text) → contains t big_context ≡ false → contains (safe_context ++ t) big_context ≡ false
unfolding contains
contains-safe t h = h

contains-cons : (c : ℕ) (s p : Text) → contains (c ∷ s) p ≡ starts_with (c ∷ s) p || contains s p
unfolding contains
contains-cons c s p = refl

-- Behind a character that begins no match, the replaced text begins none either.
still-miss :
    (c : ℕ) (s : Text)
    → starts_with (c ∷ s) big_context ≡ false
    → starts_with (c ∷ replaced zero s) big_context ≡ false
still-miss c s miss =
    let g : Text = codes "c 98304" in
    ground (
      arith,
      starts_with-cons c b'-' s g,
      starts_with-cons c b'-' (replaced zero s) g,
      prefix_back g s (lacks_sound (λ d. d == b'-') g refl),
    )

replace-skip : (skip c : ℕ) (s : Text) → replaced (suc skip) (c ∷ s) ≡ replaced skip s
unfolding replace_from
replace-skip skip c s = refl

contains-replaced : (skip : ℕ) (s : Text) → contains (replaced skip s) big_context ≡ false
contains-replaced skip [] = unfold contains replace_from in refl
contains-replaced (suc skip) (c ∷ s) =
    ap (λ t. contains t big_context) (replace-skip skip c s) ∙ contains-replaced skip s
contains-replaced zero (c ∷ s) = elim (Bool-cases (starts_with (c ∷ s) big_context)) [
  | inl hit ↦
      rw (replace-hit big_context safe_context c s hit) (contains-safe _ (contains-replaced 7 s))
  | inr miss ↦ rw (replace-miss big_context safe_context c s miss) (
      contains-cons c (replaced zero s) big_context
      ∙ ground (arith, still-miss c s miss, contains-replaced zero s))
]

starts_with-split : (s p : Text) → starts_with s p ≡ true → s ≡ p ++ drop (length p) s
unfolding starts_with
starts_with-split s [] h = refl
starts_with-split [] (d ∷ p) h = cc
starts_with-split (c ∷ s) (d ∷ p) h = elim (Bool-cases (c == d)) [
  | inl same ↦
      ap (λ a. a ∷ s) ((==_iff c d).0 same)
      ∙ ap (λ l. d ∷ l) (starts_with-split s p (ground (arith, h, same)))
  | inr other ↦ ground (arith, h, other)
]

-- The second text is the first with each `-c 98304`, from the left, written as `-c 32768`.
pub data IsShrunk : Text → Text → Type 0 where
  at_end : IsShrunk [] []
  shrunk : {s t : Text} → IsShrunk s t → IsShrunk (codes "-c 98304" ++ s) (codes "-c 32768" ++ t)
  kept :
      {c : ℕ} {s t : Text}
      → starts_with (c ∷ s) (codes "-c 98304") ≡ false
      → IsShrunk s t
      → IsShrunk (c ∷ s) (c ∷ t)

replaced-IsShrunk : (skip : ℕ) (s : Text) → IsShrunk (drop skip s) (replaced skip s)
replaced-IsShrunk zero [] = unfold replace_from in at_end
replaced-IsShrunk (suc skip) [] = unfold replace_from in at_end
replaced-IsShrunk (suc skip) (c ∷ s) =
    subst (IsShrunk (drop skip s)) (sym (replace-skip skip c s)) (replaced-IsShrunk skip s)
replaced-IsShrunk zero (c ∷ s) = elim (Bool-cases (starts_with (c ∷ s) big_context)) [
  | inl hit ↦ subst (IsShrunk (c ∷ s)) (sym (replace-hit big_context safe_context c s hit)) (
      subst (λ u. IsShrunk u (safe_context ++ replaced 7 s))
        (sym (starts_with-split (c ∷ s) big_context hit)) (shrunk (replaced-IsShrunk 7 s)))
  | inr miss ↦
      subst (IsShrunk (c ∷ s)) (sym (replace-miss big_context safe_context c s miss))
        (kept miss (replaced-IsShrunk zero s))
]

-- Where there is nothing to shrink, the text is itself.
IsShrunk-same : (s : Text) → contains s big_context ≡ false → IsShrunk s s
IsShrunk-same [] h = at_end
IsShrunk-same (c ∷ s) h =
    kept (ground (arith, contains-cons c s big_context))
      (IsShrunk-same s (ground (arith, contains-cons c s big_context)))

-- A dense qwen35 of more than 9,000,000,000 bytes.
abbrev pub is_big_dense : Model → Bool
is_big_dense model =
    let arch = to_lowercase model.arch in
    starts_with arch (codes "qwen35")
    && (not (starts_with arch (codes "qwen35moe")) && ltb 9_000_000_000 model.size_bytes)

-- The flags behind the guard: shrunk for a big dense model, and for all others the same.
abbrev pub IsGuarded : Bool → Text → Text → Type 0
IsGuarded true flags guarded = IsShrunk flags guarded
IsGuarded false flags guarded = guarded ≡ flags

-- The flags before the MTP step of `adjust_flags`.
abbrev pub guarded_flags : Profile → Model → Text
guarded_flags profile model =
    if is_oversized model profile.flags
    then replace profile.flags big_context safe_context
    else profile.flags

is_oversized_lem :
    (model : Model) (flags : Text)
    → is_oversized model flags ≡ is_big_dense model && contains flags big_context
unfolding is_oversized
is_oversized_lem model flags = ground arith

IsGuarded-by :
    (dense : Bool) (flags : Text)
    → IsGuarded dense flags (
        if dense && contains flags big_context
        then replace flags big_context safe_context
        else flags)
IsGuarded-by false flags = refl
IsGuarded-by true flags = elim (Bool-cases (contains flags big_context)) [
  | inl big ↦ rw big (unfold replace in replaced-IsShrunk zero flags)
  | inr none_big ↦ rw none_big (IsShrunk-same flags none_big)
]

pub guarded_flags-IsGuarded :
    (profile : Profile) (model : Model)
    → IsGuarded (is_big_dense model) profile.flags (guarded_flags profile model)
guarded_flags-IsGuarded profile model =
    subst
      (λ b.
        IsGuarded (is_big_dense model) profile.flags
          (if b then replace profile.flags big_context safe_context else profile.flags))
      (sym (is_oversized_lem model profile.flags)) (IsGuarded-by (is_big_dense model) profile.flags)

guarded_flags-contains :
    (profile : Profile) (model : Model)
    → contains (guarded_flags profile model) big_context
      ≡ not (is_oversized model profile.flags) && contains profile.flags big_context
unfolding replace
guarded_flags-contains profile model = elim (Bool-cases (is_oversized model profile.flags)) [
  | inl guarded ↦ rw guarded (contains-replaced zero profile.flags)
  | inr free ↦ rw free refl
]

adjust_flags-guarded :
    (profile : Profile) (model : Model)
    → model.has_mtp ≡ true
    → adjust_flags profile model ≡ guarded_flags profile model
unfolding adjust_flags
adjust_flags-guarded profile model mtp = rw mtp refl

-- For a model with MTP layers, whose flags are not stripped. Where it is a qwen35 by its lower-cased
-- architecture, no qwen35moe, and has more than 9,000,000,000 bytes, the adjusted flags are the
-- profile's with each `-c 98304`, from the left, written as `-c 32768`, and no `-c 98304` is left in
-- them. For every other model they are the profile's flags.
pub adjust_flags_guard :
    (profile : Profile) (model : Model)
    → model.has_mtp ≡ true
    → IsGuarded (is_big_dense model) profile.flags (adjust_flags profile model)
      × (contains (adjust_flags profile model) (codes "-c 98304")
          ≡ not (is_big_dense model) && contains profile.flags (codes "-c 98304"))
adjust_flags_guard profile model mtp = rw (adjust_flags-guarded profile model mtp) (
  guarded_flags-IsGuarded profile model,
  guarded_flags-contains profile model ∙ ground (arith, is_oversized_lem model profile.flags),
)
