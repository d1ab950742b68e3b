-- ===== src/Build/Kept.antt =====
-- src/build.rs: `activate` and `gc` keep what `current` points at.
use llmtune.Prelude.{
  ℕ, ◌≡◌, ◌∙◌, refl, sym, ap, subst, Bool, true, false, not, Option, none, some, List, [], ◌∷◌,
  Outcome, ok, err, Text, text_eq, text_eq_iff, filter, All, arith, Bool-cases, inl, inr,
  if◌then◌else◌,
}
use llmtune.Swap.Seams.{and_then}
use llmtune.Build.Versions.{
  Version, Tree, Disk, has_bins, find_version, is_current, what_is_left, put_left, remove_version,
  remove_versions, flip_current, ledger_save, written, linked, same_texts, to_set, installed_slugs,
  ledger_touch, is_kept, gc, activate,
}

-- The version is there, with all its binaries.
abbrev pub IsComplete : List Text → Text → List Version → Type 0
IsComplete bins c vs = (v : Version) × (find_version c vs ≡ some v) × (has_bins v.bins bins ≡ true)

-- What `current` points at is complete.
abbrev pub IsLive : List Text → Tree → Type 0
IsLive bins t = (c : Text) → t.current ≡ some c → IsComplete bins c t.versions

pub text_ne_sym : (s t : Text) → text_eq s t ≡ false → text_eq t s ≡ false
text_ne_sym s t h = ground (arith, text_eq_iff s t, text_eq_iff t s)

module _ (disk : Disk) where
  find-put_left :
      (s c : Text) (o : Option (List Text)) (vs : List Version)
      → text_eq s c ≡ false
      → find_version c (put_left (what_is_left s o) vs) ≡ find_version c vs
  unfolding find_version
  find-put_left s c none vs h = refl
  find-put_left s c (some files) vs h = rw h refl

  pub find-remove_version :
      (s c : Text) (vs : List Version)
      → text_eq s c ≡ false
      → find_version c (remove_version disk s vs) ≡ find_version c vs
  unfolding remove_version
  find-remove_version s c [] h = refl
  find-remove_version s c (v ∷ vs) h = elim (Bool-cases (text_eq v.slug s)) [
    | inl same ↦ rw same (
        find-put_left s c (disk.left s) (remove_version disk s vs) h
        ∙ find-remove_version s c vs h
        ∙ sym (
            find_skip v c vs
              (subst (λ n. text_eq n c ≡ false) (sym ((text_eq_iff v.slug s).0 same)) h)))
    | inr other ↦
        rw other (find_cong v c (remove_version disk s vs) vs (find-remove_version s c vs h))
  ]
    where
      find_skip :
          (v : Version) (c : Text) (vs : List Version)
          → text_eq v.slug c ≡ false
          → find_version c (v ∷ vs) ≡ find_version c vs
      find_skip v c vs e = unfold find_version in rw e refl

      find_cong :
          (v : Version) (c : Text) (ws vs : List Version)
          → find_version c ws ≡ find_version c vs
          → find_version c (v ∷ ws) ≡ find_version c (v ∷ vs)
      find_cong v c ws vs e =
          unfold find_version in ap (λ o. if text_eq v.slug c then some v else o) e

  find-remove_versions :
      (ss : List Text) (c : Text) (vs : List Version)
      → All (λ s. text_eq s c ≡ false) ss
      → find_version c (remove_versions disk ss vs) ≡ find_version c vs
  unfolding remove_versions
  find-remove_versions [] c vs h = refl
  find-remove_versions (s ∷ ss) c vs (e, h) =
      find-remove_versions ss c (remove_version disk s vs) h ∙ find-remove_version s c vs e

  kept_current :
      (retain : ℕ) (t : Tree) (s : Text)
      → is_kept retain t s ≡ false
      → is_current t.current s ≡ false
  unfolding is_kept
  kept_current retain t s h = ground arith

  -- What is not kept is not current.
  not_current :
      (retain : ℕ) (t : Tree) (c : Text) (ss : List Text)
      → t.current ≡ some c
      → All (λ s. text_eq s c ≡ false) (filter (λ s. not (is_kept retain t s)) ss)
  not_current retain t c [] h = tt
  not_current retain t c (s ∷ ss) h = elim (Bool-cases (is_kept retain t s)) [
    | inl kept ↦ rw kept (not_current retain t c ss h)
    | inr gone ↦ rw gone (other s gone, not_current retain t c ss h)
  ]
    where
      other : (s : Text) → is_kept retain t s ≡ false → text_eq s c ≡ false
      other s gone =
          text_ne_sym c s (subst (λ o. is_current o s ≡ false) h (kept_current retain t s gone))

  module _ (bins : List Text) where
    ledger_save-IsLive :
        (order : List Text) (t : Tree) → IsLive bins t → IsLive bins (ledger_save disk order t).1
    unfolding ledger_save
    ledger_save-IsLive order t h = go (disk.write_ledger order)
      where
        go : (r : Outcome (Unit {0})) → IsLive bins (written disk order t r).1
        go (ok x) = h
        go (err e) = h

    gc-IsLive : (retain : ℕ) (t : Tree) → IsLive bins t → IsLive bins (gc disk retain t).1
    unfolding gc
    gc-IsLive retain t h = saved (same_texts (filter (is_kept retain t) t.ledger) t.ledger)
      where
        t₁ : Tree
        t₁ = record t {
          versions =
              remove_versions disk
                (filter (λ s. not (is_kept retain t s)) (to_set (installed_slugs t.versions)))
                t.versions;
        }

        live : IsLive bins t₁
        live c e =
            let (v, f, all_there) = h c e in
            (
              v,
              find-remove_versions
                    (filter (λ s. not (is_kept retain t s)) (to_set (installed_slugs t.versions))) c
                    t.versions (not_current retain t c (to_set (installed_slugs t.versions)) e)
                  ∙ f,
              all_there,
            )

        saved :
            (b : Bool)
            → IsLive bins
                (if b
                  then (ok tt, t₁)
                  else ledger_save disk (filter (is_kept retain t) t.ledger) t₁).1
        saved true = live
        saved false = ledger_save-IsLive (filter (is_kept retain t) t.ledger) t₁ live

    then-IsLive :
        (r : Outcome (Unit {0}) × Tree) (k : Tree → Outcome (Unit {0}) × Tree)
        → IsLive bins r.1
        → ((t : Tree) → IsLive bins t → IsLive bins (k t).1)
        → IsLive bins (and_then r k).1
    then-IsLive (ok x, t) k h hk = hk t h
    then-IsLive (err e, t) k h hk = h

    flip_current-IsLive :
        (s : Text) (t : Tree)
        → IsLive bins t
        → IsComplete bins s t.versions
        → IsLive bins (flip_current disk s t).1
    unfolding flip_current
    flip_current-IsLive s t h complete = go (disk.link s)
      where
        named : (c : Text) → some s ≡ some c → s ≡ c
        named c e = cc

        go : (r : Outcome (Unit {0})) → IsLive bins (linked disk s t r).1
        go (ok x) = λ c e. subst (λ n. IsComplete bins n t.versions) (named c e) complete
        go (err e) = h

    ledger_touch-IsLive :
        (s : Text) (t : Tree) → IsLive bins t → IsLive bins (ledger_touch disk s t).1
    unfolding ledger_touch
    ledger_touch-IsLive s t h = ledger_save-IsLive _ t h

    pub activate-IsLive :
        (retain : ℕ) (s : Text) (t : Tree)
        → IsLive bins t
        → IsComplete bins s t.versions
        → IsLive bins (activate disk retain s t).1
    unfolding activate
    activate-IsLive retain s t h complete =
        then-IsLive (flip_current disk s t) _ (flip_current-IsLive s t h complete) (λ t₁ h₁.
          then-IsLive (ledger_touch disk s t₁) (gc disk retain) (ledger_touch-IsLive s t₁ h₁)
            (gc-IsLive retain))
