-- ===== src/Nodeops/Matching.antt =====
-- src/nodeops.rs: what it is for a name to hold the query, and for one model alone to do so.
use llmtune.Prelude.{
  ℕ, ==_iff, ◌≡◌, ◌∙◌, refl, sym, ap, subst, Bool, true, false, ◌&&◌, List, [], ◌∷◌, ◌++◌, Text,
  is_empty, all, filter, starts_with, contains, to_lowercase, trim, trim_start, trim_end, keep_end,
  is_whitespace, All, arith, Bool-cases, inl, inr,
}
use mathlib.Core.Logic.{◌↔◌}
use mathlib.Core.Bool.{false≢true}

-- The text stands somewhere in the other.
abbrev pub IsPart : Text → Text → Type 0
IsPart q s = (before : Text) × (after : Text) × (s ≡ before ++ (q ++ after))

starts_with-part : (s p : Text) → starts_with s p ≡ true → (after : Text) × (s ≡ p ++ after)
unfolding starts_with
starts_with-part s [] h = (s, refl)
starts_with-part [] (d ∷ p) h = cc
starts_with-part (c ∷ s) (d ∷ p) h =
    let same : c ≡ d = (==_iff c d).0 (ground (arith, h)) in
    let (after, e) = starts_with-part s p (ground (arith, h)) in
    (after, ap (λ a. a ∷ s) same ∙ ap (λ l. d ∷ l) e)

starts_with-append : (p after : Text) → starts_with (p ++ after) p ≡ true
unfolding starts_with
starts_with-append [] after = refl
starts_with-append (d ∷ p) after = ground (arith, starts_with-append p after)

contains-IsPart : (s q : Text) → contains s q ≡ true → IsPart q s
unfolding contains
contains-IsPart [] q h = let (after, e) = starts_with-part [] q h in ([], after, e)
contains-IsPart (c ∷ s) q h = elim (Bool-cases (starts_with (c ∷ s) q)) [
  | inl here_is ↦ let (after, e) = starts_with-part (c ∷ s) q here_is in ([], after, e)
  | inr later ↦
      let (before, after, e) = contains-IsPart s q (ground (arith, h, later)) in
      (c ∷ before, after, ap (λ l. c ∷ l) e)
]

contains-append : (before q after : Text) → contains (before ++ (q ++ after)) q ≡ true
unfolding contains
contains-append [] q after = at_once (q ++ after) (starts_with-append q after)
  where
    at_once : (s : Text) → starts_with s q ≡ true → contains s q ≡ true
    at_once [] h = h
    at_once (c ∷ s) h = ground (arith, h)
contains-append (c ∷ before) q after = ground (arith, contains-append before q after)

pub contains_iff : (s q : Text) → (contains s q ≡ true) ↔ IsPart q s
contains_iff s q = (
  contains-IsPart s q,
  (λ (before, after, e). subst (λ t. contains t q ≡ true) (sym e) (contains-append before q after)),
)

-- White space at the ends decides nothing.
trim_start-blank : (s : Text) → all is_whitespace (trim_start s) ≡ all is_whitespace s
unfolding trim_start
trim_start-blank [] = refl
trim_start-blank (c ∷ s) = elim (Bool-cases (is_whitespace c)) [
  | inl blank ↦ rw blank (trim_start-blank s)
  | inr other ↦ rw other (ap (λ b. b && all is_whitespace s) other)
]

keep_end-blank : (c : ℕ) (s : Text) → is_empty (keep_end c s) ≡ is_whitespace c && is_empty s
keep_end-blank c [] = ground arith
keep_end-blank c (d ∷ s) = ground arith

trim_end-blank : (s : Text) → is_empty (trim_end s) ≡ all is_whitespace s
unfolding trim_end
trim_end-blank [] = refl
trim_end-blank (c ∷ s) =
    keep_end-blank c (trim_end s) ∙ ap (λ b. is_whitespace c && b) (trim_end-blank s)

-- A query is blank where it holds white space only.
pub query-blank : (q : Text) → is_empty (to_lowercase (trim q)) ≡ all is_whitespace q
unfolding trim
query-blank q = lower (trim_end (trim_start q)) ∙ trim_end-blank (trim_start q) ∙ trim_start-blank q
  where
    lower : (s : Text) → is_empty (to_lowercase s) ≡ is_empty s
    lower [] = unfold to_lowercase in refl
    lower (c ∷ s) = unfold to_lowercase in refl

-- `m` stands once in the list, and of all items it alone has the property.
abbrev pub IsOnly : {A : Type 0} → (A → Type 0) → List A → A → Type 0
IsOnly {A} P xs m =
    (before : List A) × (after : List A) × (xs ≡ before ++ m ∷ after)
    × P m
    × All (λ x. ¬ (P x)) before
    × All (λ x. ¬ (P x)) after

module _ {A : Type 0} (p : A → Bool) (P : A → Type 0) (p-iff : (x : A) → (p x ≡ true) ↔ P x) where
  filter-hit : (x : A) (xs : List A) → p x ≡ true → filter p (x ∷ xs) ≡ x ∷ filter p xs
  filter-hit x xs e = rw e

  filter-miss : (x : A) (xs : List A) → p x ≡ false → filter p (x ∷ xs) ≡ filter p xs
  filter-miss x xs e = rw e

  lacks-none : (x : A) → p x ≡ false → ¬ (P x)
  lacks-none x lacks q = false≢true (sym lacks ∙ (p-iff x).1 q)

  none-lacks : (x : A) (b : Bool) → p x ≡ b → ¬ (P x) → b ≡ false
  none-lacks x true e lacks = absurd (lacks ((p-iff x).0 e))
  none-lacks x false e lacks = refl

  filter-none : (xs : List A) → filter p xs ≡ [] → All (λ x. ¬ (P x)) xs
  filter-none [] h = tt
  filter-none (x ∷ xs) h = elim (Bool-cases (p x)) [
    | inl has ↦ cc (filter-hit x xs has, h)
    | inr lacks ↦ (lacks-none x lacks, filter-none xs (sym (filter-miss x xs lacks) ∙ h))
  ]

  none-filter : (xs : List A) → All (λ x. ¬ (P x)) xs → filter p xs ≡ []
  none-filter [] h = refl
  none-filter (x ∷ xs) (lacks, h) =
      filter-miss x xs (none-lacks x (p x) refl lacks) ∙ none-filter xs h

  filter-IsOnly : (xs : List A) (m : A) → filter p xs ≡ m ∷ [] → IsOnly P xs m
  filter-IsOnly [] m h = cc
  filter-IsOnly (x ∷ xs) m h = elim (Bool-cases (p x)) [
    | inl has ↦
        let e : x ∷ filter p xs ≡ m ∷ [] = sym (filter-hit x xs has) ∙ h in
        let same : x ≡ m = cc (e) in
        ([], xs, ap (λ y. y ∷ xs) same, subst P same ((p-iff x).0 has), tt, filter-none xs (cc (e)))
    | inr lacks ↦
        let (before, after, e, has, lack, lacks_after) =
          filter-IsOnly xs m (sym (filter-miss x xs lacks) ∙ h) in
        (x ∷ before, after, ap (λ l. x ∷ l) e, has, (lacks-none x lacks, lack), lacks_after)
  ]

  only-filter :
      (before after : List A) (m : A)
      → P m
      → All (λ x. ¬ (P x)) before
      → All (λ x. ¬ (P x)) after
      → filter p (before ++ m ∷ after) ≡ m ∷ []
  only-filter [] after m has h k =
      filter-hit m after ((p-iff m).1 has) ∙ ap (λ l. m ∷ l) (none-filter after k)
  only-filter (x ∷ before) after m has (lacks, h) k =
      filter-miss x (before ++ m ∷ after) (none-lacks x (p x) refl lacks)
      ∙ only-filter before after m has h k

  pub filter_iff : (xs : List A) (m : A) → (filter p xs ≡ m ∷ []) ↔ IsOnly P xs m
  filter_iff xs m = (
    filter-IsOnly xs m,
    (λ (before, after, e, has, h, k). ap (filter p) e ∙ only-filter before after m has h k),
  )
