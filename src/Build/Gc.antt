-- ===== src/Build/Gc.antt =====
-- src/build.rs: which versions `gc` removes, and which one `rollback` takes.
use llmtune.Prelude.{
  ℕ, ◌≡◌, ◌∙◌, refl, sym, ap, subst, Bool, true, false, not, ◌&&◌, ◌||◌, Option, none, some, List,
  [], ◌∷◌, Outcome, ok, err, Text, text_eq, text_eq_iff, text_eq_refl, filter, map, member, arith,
  Bool-cases, inl, inr, if◌then◌else◌,
}
use Prim.Native.Nat.{max}
use llmtune.Build.Versions.{
  Version, Tree, Disk, find_version, what_is_left, put_left, remove_version, remove_versions,
  same_texts, ledger_save, written, is_kept, is_current, gc, is_visible, installed_slugs,
  insert_text, to_set,
}
use llmtune.Build.Newest.{is_recent, is_recent-same, member-newest}
use llmtune.Build.Kept.{find-remove_version}

member-insert_text :
    (s k : Text) (m : List Text) → member s (insert_text k m) ≡ text_eq k s || member s m
unfolding member insert_text
member-insert_text s k [] = refl
member-insert_text s k (j ∷ m) =
    ground (arith, text_eq_iff j k, text_eq_iff k s, text_eq_iff j s, member-insert_text s k m)

-- The items of a set are those of the list.
pub member-to_set : (s : Text) (xs : List Text) → member s (to_set xs) ≡ member s xs
unfolding member to_set
member-to_set s [] = refl
member-to_set s (x ∷ xs) =
    member-insert_text s x (to_set xs) ∙ ap (λ b. text_eq x s || b) (member-to_set s xs)

module _ (p : Text → Bool) where
  member-if :
      (s x : Text) (xs : List Text) (b : Bool)
      → member s (if b then x ∷ xs else xs) ≡ (b && text_eq x s) || member s xs
  unfolding member
  member-if s x xs true = refl
  member-if s x xs false = refl

  pub member-filter : (s : Text) (xs : List Text) → member s (filter p xs) ≡ p s && member s xs
  unfolding member
  member-filter s [] = ground arith
  member-filter s (x ∷ xs) = member-if s x (filter p xs) (p x) ∙ elim (Bool-cases (text_eq x s)) [
    | inl same ↦
        let e : p x ≡ p s = ap p ((text_eq_iff x s).0 same) in ground (arith, e, member-filter s xs)
    | inr other ↦ ground (arith, member-filter s xs)
  ]

abbrev is_there : Option Version → Bool
is_there none = false
is_there (some v) = true

member-slugs :
    (s : Text) (vs : List Version) → member s (map (λ v. v.slug) vs) ≡ is_there (find_version s vs)
unfolding member find_version
member-slugs s [] = refl
member-slugs s (v ∷ vs) = elim (Bool-cases (text_eq v.slug s)) [
  | inl same ↦ rw same refl
  | inr other ↦ rw other (member-slugs s vs)
]

-- A version stands under the name, and the name can be a version's.
abbrev pub is_installed : Tree → Text → Bool
is_installed t s = is_visible s && is_there (find_version s t.versions)

member-installed :
    (t : Tree) (s : Text) → member s (to_set (installed_slugs t.versions)) ≡ is_installed t s
unfolding installed_slugs
member-installed t s =
    member-to_set s _
    ∙ member-filter is_visible s _
    ∙ ap (λ b. is_visible s && b) (member-slugs s t.versions)

is_kept_lem :
    (retain : ℕ) (t : Tree) (s : Text)
    → is_kept retain t s
      ≡ is_recent (is_installed t) (max retain 1) s t.ledger || is_current t.current s
unfolding is_kept
is_kept_lem retain t s =
    ap (λ b. b || is_current t.current s)
      (member-newest (λ x. member x (to_set (installed_slugs t.versions))) (max retain 1) s t.ledger
        ∙ is_recent-same _ (is_installed t) (max retain 1) s t.ledger (member-installed t))

-- What stays of a version that is removed.
abbrev pub or_left : Disk → Text → Bool → Option Version → Option Version
or_left disk s gone none = none
or_left disk s gone (some v) = if gone then what_is_left s (disk.left s) else some v

module _ (disk : Disk) where
  nothing_left : (s : Text) (o : Option Version) → disk.left s ≡ none → or_left disk s true o ≡ none
  nothing_left s none h = refl
  nothing_left s (some v) h = ap (what_is_left s) h

  find-put_self :
      (s : Text) (ws : List Version) (o : Option (List Text))
      → (o ≡ none → find_version s ws ≡ none)
      → find_version s (put_left (what_is_left s o) ws) ≡ what_is_left s o
  unfolding find_version
  find-put_self s ws none h = h refl
  find-put_self s ws (some files) h = rw (text_eq_refl s) refl

  find_self :
      (s : Text) (vs : List Version)
      → find_version s (remove_version disk s vs) ≡ or_left disk s true (find_version s vs)
  unfolding remove_version
  find_self s [] = unfold find_version in refl
  find_self s (v ∷ vs) = elim (Bool-cases (text_eq v.slug s)) [
    | inl same ↦ rw same (
        find-put_self s (remove_version disk s vs) (disk.left s)
          (λ h. find_self s vs ∙ nothing_left s (find_version s vs) h)
        ∙ sym (ap (or_left disk s true) (found_first v s vs same)))
    | inr other ↦ rw other (
        passed v s (remove_version disk s vs) other
        ∙ find_self s vs
        ∙ sym (ap (or_left disk s true) (passed v s vs other)))
  ]
    where
      found_first :
          (v : Version) (s : Text) (vs : List Version)
          → text_eq v.slug s ≡ true
          → find_version s (v ∷ vs) ≡ some v
      found_first v s vs e = unfold find_version in rw e refl

      passed :
          (v : Version) (s : Text) (vs : List Version)
          → text_eq v.slug s ≡ false
          → find_version s (v ∷ vs) ≡ find_version s vs
      passed v s vs e = unfold find_version in rw e refl

  or_left-kept : (c : Text) (o : Option Version) → or_left disk c false o ≡ o
  or_left-kept c none = refl
  or_left-kept c (some v) = refl

  find-removed :
      (s c : Text) (vs : List Version)
      → find_version c (remove_version disk s vs) ≡ or_left disk c (text_eq s c) (find_version c vs)
  find-removed s c vs = elim (Bool-cases (text_eq s c)) [
    | inl same ↦ rw same (
        subst
          (λ n. find_version n (remove_version disk s vs) ≡ or_left disk n true (find_version n vs))
          ((text_eq_iff s c).0 same) (find_self s vs))
    | inr other ↦
        rw other (find-remove_version disk s c vs other ∙ sym (or_left-kept c (find_version c vs)))
  ]

  -- To remove twice is to remove once.
  or_left-twice :
      (c : Text) (a b : Bool) (o : Option Version)
      → or_left disk c b (or_left disk c a o) ≡ or_left disk c (a || b) o
  or_left-twice c a b none = refl
  or_left-twice c true b (some v) = again b (disk.left c) refl
    where
      again :
          (b : Bool) (l : Option (List Text))
          → disk.left c ≡ l
          → or_left disk c b (what_is_left c l) ≡ what_is_left c l
      again b none h = refl
      again true (some files) h = ap (what_is_left c) h
      again false (some files) h = refl
  or_left-twice c false b (some v) = refl

  find-removed_all :
      (ss : List Text) (c : Text) (vs : List Version)
      → find_version c (remove_versions disk ss vs)
        ≡ or_left disk c (member c ss) (find_version c vs)
  unfolding remove_versions member
  find-removed_all [] c vs = sym (or_left-kept c (find_version c vs))
  find-removed_all (s ∷ ss) c vs =
      find-removed_all ss c (remove_version disk s vs)
      ∙ ap (or_left disk c (member c ss)) (find-removed s c vs)
      ∙ or_left-twice c (text_eq s c) (member c ss) (find_version c vs)

  ledger_save-versions :
      (order : List Text) (t : Tree) → (ledger_save disk order t).1.versions ≡ t.versions
  unfolding ledger_save
  ledger_save-versions order t = go (disk.write_ledger order)
    where
      go : (r : Outcome (Unit {0})) → (written disk order t r).1.versions ≡ t.versions
      go (ok x) = refl
      go (err e) = refl

  gone-there :
      (retain : ℕ) (t : Tree) (s : Text)
      → member s (filter (λ x. not (is_kept retain t x)) (to_set (installed_slugs t.versions)))
        ≡ not (is_kept retain t s) && (is_visible s && is_there (find_version s t.versions))
  gone-there retain t s =
      member-filter (λ x. not (is_kept retain t x)) s _
      ∙ ap (λ b. not (is_kept retain t s) && b) (member-installed t s)

  or_left-there :
      (c : Text) (a b : Bool) (o : Option Version)
      → or_left disk c (a && (b && is_there o)) o ≡ or_left disk c (a && b) o
  or_left-there c a b none = refl
  or_left-there c true true (some v) = refl
  or_left-there c true false (some v) = refl
  or_left-there c false b (some v) = refl

  gc-versions :
      (retain : ℕ) (t : Tree)
      → (gc disk retain t).1.versions
        ≡ remove_versions disk
            (filter (λ x. not (is_kept retain t x)) (to_set (installed_slugs t.versions)))
            t.versions
  unfolding gc
  gc-versions retain t = go (same_texts (filter (is_kept retain t) t.ledger) t.ledger)
    where
      t₁ : Tree
      t₁ = record t {
        versions =
            remove_versions disk
              (filter (λ s. not (is_kept retain t s)) (to_set (installed_slugs t.versions)))
              t.versions;
      }

      go :
          (b : Bool)
          → (if b
              then (ok tt, t₁)
              else ledger_save disk (filter (is_kept retain t) t.ledger) t₁).1.versions
            ≡ t₁.versions
      go true = refl
      go false = ledger_save-versions (filter (is_kept retain t) t.ledger) t₁

  -- After `gc`, whatever the disk refuses: a version is what it was where it is the current one, or
  -- stands in the ledger, which is in the order of the installs, as an installed entry behind which
  -- fewer installed ones stand than `retain`, or than one where `retain` is 0; or where its name is
  -- no version's (`current`, or with a dot in front). Else it is what its removal left, which is
  -- nothing where the removal succeeds.
  pub gc_removes :
      (retain : ℕ) (t : Tree) (s : Text)
      → let keeps =
          is_recent (is_installed t) (max retain 1) s t.ledger || is_current t.current s in
        find_version s (gc disk retain t).1.versions
        ≡ or_left disk s (not keeps && is_visible s) (find_version s t.versions)
  gc_removes retain t s =
      ap (find_version s) (gc-versions retain t)
      ∙ find-removed_all
          (filter (λ x. not (is_kept retain t x)) (to_set (installed_slugs t.versions))) s
          t.versions
      ∙ ap (λ b. or_left disk s b (find_version s t.versions)) (gone-there retain t s)
      ∙ or_left-there s (not (is_kept retain t s)) (is_visible s) (find_version s t.versions)
      ∙ ap (λ b. or_left disk s (not b && is_visible s) (find_version s t.versions))
          (is_kept_lem retain t s)
