-- ===== src/Profile/Choice.antt =====
-- src/profile.rs: which profile `resolve` chooses.
use llmtune.Prelude.{
  ◌≡◌, ◌∙◌, refl, sym, ap, subst, Bool, true, false, not, ◌&&◌, ◌||◌, Option, none, some, List, [],
  ◌∷◌, ◌++◌, Text, All, find, any, ok, to_lowercase, arith, inl, inr, Bool-cases,
}
use llmtune.Profile.{
  Profile, is_default, validate, arch_ok, quant_ok, first_match, resolve, found, text_or_empty,
}

-- What the loop tests of a profile, on the lower-case architecture and quantization.
abbrev pub matches : Text → Text → Profile → Bool
matches a q p = not (is_default p) && (arch_ok a p && quant_ok q p)

abbrev pub NoMatch : Text → Text → List Profile → Type 0
NoMatch a q ps = All (λ p. matches a q p ≡ false) ps

-- `p` is the first item of the list that satisfies the test.
pub record IsFirst (test : Profile → Bool) (ps : List Profile) (p : Profile) : Type 0 where
  pub before : List Profile
  pub after : List Profile
  pub splits : ps ≡ before ++ p ∷ after
  pub none_before : All (λ r. test r ≡ false) before
  pub holds : test p ≡ true

module _ (test : Profile → Bool) where
  find-hit : (r : Profile) (ps : List Profile) → test r ≡ true → find test (r ∷ ps) ≡ some r
  find-hit r ps h = rw h

  find-miss : (r : Profile) (ps : List Profile) → test r ≡ false → find test (r ∷ ps) ≡ find test ps
  find-miss r ps h = rw h

  IsFirst-here :
      (r p : Profile) (ps : List Profile) → test r ≡ true → r ≡ p → IsFirst test (r ∷ ps) p
  IsFirst-here r p ps h e = record {
    before = [];
    after = ps;
    splits = ap (λ x. x ∷ ps) e;
    none_before = tt;
    holds = subst (λ x. test x ≡ true) e h;
  }

  IsFirst-there :
      (r : Profile) (ps : List Profile) (p : Profile)
      → test r ≡ false
      → IsFirst test ps p
      → IsFirst test (r ∷ ps) p
  IsFirst-there r ps p miss f = record {
    before = r ∷ f.before;
    after = f.after;
    splits = ap (λ l. r ∷ l) f.splits;
    none_before = (miss, f.none_before);
    holds = f.holds;
  }

  find-IsFirst : (ps : List Profile) (p : Profile) → find test ps ≡ some p → IsFirst test ps p
  find-IsFirst [] p h = cc
  find-IsFirst (r ∷ ps) p h = elim (Bool-cases (test r)) [
    | inl hit ↦ IsFirst-here r p ps hit (cc (find-hit r ps hit))
    | inr miss ↦ IsFirst-there r ps p miss (find-IsFirst ps p (sym (find-miss r ps miss) ∙ h))
  ]

  find-none : (ps : List Profile) → find test ps ≡ none → All (λ p. test p ≡ false) ps
  find-none [] h = tt
  find-none (r ∷ ps) h = elim (Bool-cases (test r)) [
    | inl hit ↦ cc (find-hit r ps hit)
    | inr miss ↦ (miss, find-none ps (sym (find-miss r ps miss) ∙ h))
  ]

  find-some : (ps : List Profile) → any test ps ≡ true → (p : Profile) × (find test ps ≡ some p)
  find-some [] h = cc
  find-some (r ∷ ps) h = elim (Bool-cases (test r)) [
    | inl hit ↦ (r, find-hit r ps hit)
    | inr miss ↦
        let (p, e) = find-some ps (subst (λ b. (b || any test ps) ≡ true) miss h) in
        (p, find-miss r ps miss ∙ e)
  ]

-- The loop is the search for the first profile that matches.
first_match-find : (a q : Text) (ps : List Profile) → first_match a q ps ≡ find (matches a q) ps
unfolding first_match
first_match-find a q [] = refl
first_match-find a q (p ∷ ps) = ground (arith, first_match-find a q ps)

-- What the result of `resolve` says of the profiles.
abbrev pub IsChoice : Text → Text → List Profile → Profile × Bool → Type 0
IsChoice a q ps (p, false) = IsFirst (matches a q) ps p
IsChoice a q ps (p, true) = All (λ r. matches a q r ≡ false) ps × IsFirst is_default ps p

found-IsChoice :
    (a q : Text) (ps : List Profile) (m d : Option Profile)
    → first_match a q ps ≡ m
    → find is_default ps ≡ d
    → (r : Profile × Bool) → found m d ≡ some r
    → IsChoice a q ps r
found-IsChoice a q ps (some p) d em ed r h =
    subst (IsChoice a q ps) {x = (p, false)} {y = r} (cc)
      (find-IsFirst (matches a q) ps p (sym (first_match-find a q ps) ∙ em))
found-IsChoice a q ps none none em ed r h = cc
found-IsChoice a q ps none (some p) em ed r h =
    subst (IsChoice a q ps) {x = (p, true)} {y = r} (cc) (
      find-none (matches a q) ps (sym (first_match-find a q ps) ∙ em),
      find-IsFirst is_default ps p ed,
    )

-- A profile that is returned as no default is the first in the file that is not `_default` and
-- matches the architecture and the quantization. One that is returned as the default is the first
-- with that id, and no profile matches.
pub resolve-IsChoice :
    (ps : List Profile) (arch : Text) (quant : Option Text) (r : Profile × Bool)
    → resolve ps arch quant ≡ some r
    → IsChoice (to_lowercase arch) (to_lowercase (text_or_empty quant)) ps r
unfolding resolve
resolve-IsChoice ps arch quant r h =
    found-IsChoice (to_lowercase arch) (to_lowercase (text_or_empty quant)) ps _ _ refl refl r h

validate-any : (ps : List Profile) → validate ps ≡ ok tt → any is_default ps ≡ true
unfolding validate
validate-any [] h = cc
validate-any (p ∷ ps) h = elim (Bool-cases (any is_default (p ∷ ps))) [
  | inl some_default ↦ some_default
  | inr no_default ↦ ground arith
]

found-some :
    (m d : Option Profile) (p : Profile) → d ≡ some p → (r : Profile × Bool) × (found m d ≡ some r)
found-some (some q) d p e = ((q, false), refl)
found-some none d p e = ((p, true), ap (found none) e)

-- After `validate` accepts a set of profiles, `resolve` never panics on it.
pub resolve_total :
    (ps : List Profile) (arch : Text) (quant : Option Text)
    → validate ps ≡ ok tt
    → (r : Profile × Bool) × (resolve ps arch quant ≡ some r)
unfolding resolve
resolve_total ps arch quant valid =
    let (p, e) = find-some is_default ps (validate-any ps valid) in found-some _ _ p e
