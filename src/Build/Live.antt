-- ===== src/Build/Live.antt =====
-- src/build.rs: `current` always points at a complete version.
use llmtune.Prelude.{
  ℕ, ◌≡◌, ◌∙◌, refl, sym, subst, Bool, true, false, not, Option, none, some, List, [], ◌∷◌, Outcome,
  ok, err, Text, text_eq, text_eq_iff, text_eq_refl, filter, find, is_empty, trim, arith,
  Bool-cases, inl, inr, if◌then◌else◌,
}
use llmtune.Build.Slug.{slug}
use llmtune.Build.Versions.{
  BuildSpec, Version, Tree, Disk, Builder, InstallOutcome, has_bins, find_version, is_current,
}
use llmtune.Build.Install.{
  reuse, move_in, placed, produced, build_new, with_dir, resolved, install, activated, is_complete,
}
use llmtune.Build.Kept.{IsComplete, IsLive, activate-IsLive, find-remove_version}

module _ (disk : Disk) (builder : Builder) (spec : BuildSpec) (retain : ℕ) where
  abbrev Live : Outcome InstallOutcome × Tree → Type 0
  Live r = IsLive spec.out_bins r.1

  module _ (commit s : Text) (previous : Option Text) where
    activated-Live :
        (out : InstallOutcome) (r : Outcome (Unit {0}) × Tree)
        → IsLive spec.out_bins r.1
        → Live (activated disk builder spec retain commit s previous out r)
    activated-Live out (ok x, t) h = h
    activated-Live out (err e, t) h = h

    if-Live :
        (b : Bool) (x y : Outcome InstallOutcome × Tree)
        → (b ≡ true → Live x)
        → (b ≡ false → Live y)
        → Live (if b then x else y)
    if-Live true x y h g = h refl
    if-Live false x y h g = g refl

    reuse-Live :
        (files : List Text) (t : Tree)
        → IsLive spec.out_bins t
        → IsComplete spec.out_bins s t.versions
        → Live (reuse disk builder spec retain commit s previous files t)
    unfolding reuse
    reuse-Live files t h complete =
        if-Live (is_current t.current s) _ _ (λ e. h)
          (λ e. activated-Live _ _ (activate-IsLive disk spec.out_bins retain s t h complete))

    -- The version `s` is put in the place of what stood there.
    find-placed :
        (c : Text) (v : Version) (vs : List Version)
        → text_eq v.slug c ≡ false
        → find_version c (v ∷ filter (λ w. not (text_eq w.slug v.slug)) vs) ≡ find_version c vs
    unfolding find_version
    find-placed c v vs h = rw h (rest vs)
      where
        rest :
            (vs : List Version)
            → find (λ w. text_eq w.slug c) (filter (λ w. not (text_eq w.slug v.slug)) vs)
              ≡ find (λ w. text_eq w.slug c) vs
        rest [] = refl
        rest (w ∷ vs) =
            ground (
              arith,
              text_eq_iff w.slug v.slug,
              text_eq_iff w.slug c,
              text_eq_iff v.slug c,
              rest vs,
            )

    -- A version that is not complete is not the current one.
    incomplete_other :
        (t : Tree)
        → IsLive spec.out_bins t
        → is_complete (find_version s t.versions) spec.out_bins ≡ false
        → (c : Text) → t.current ≡ some c
        → text_eq s c ≡ false
    incomplete_other t h g c e = elim (Bool-cases (text_eq s c)) [
      | inr other ↦ other
      | inl same ↦
          let (v, f, all_there) =
            subst (λ n. IsComplete spec.out_bins n t.versions) (sym ((text_eq_iff s c).0 same))
              (h c e) in
          cc (g, complete_now v (find_version s t.versions) f all_there)
    ]
      where
        complete_now :
            (v : Version) (o : Option Version)
            → o ≡ some v
            → has_bins v.bins spec.out_bins ≡ true
            → is_complete o spec.out_bins ≡ true
        complete_now v none f a = cc
        complete_now v (some w) f a = subst (λ u. is_complete u spec.out_bins ≡ true) (sym f) a

    placed-Live :
        (files : List Text) (r : Outcome (Unit {0})) (t : Tree)
        → has_bins files spec.out_bins ≡ true
        → IsLive spec.out_bins t
        → ((c : Text) → t.current ≡ some c → text_eq s c ≡ false)
        → Live (placed disk builder spec retain commit s previous files r t)
    placed-Live files (err e) t all_there h other = h
    placed-Live files (ok x) t all_there h other =
        activated-Live _ _
          (activate-IsLive disk spec.out_bins retain s _ live (new, found, all_there))
      where
        new : Version
        new = record { slug = s; bins = files }

        vs : List Version
        vs = new ∷ filter (λ v. not (text_eq v.slug s)) t.versions

        found : find_version s vs ≡ some new
        found = unfold find_version in rw (text_eq_refl s) refl

        live : IsLive spec.out_bins (record t { versions = vs })
        live c e = let (v, f, a) = h c e in (v, find-placed c new t.versions (other c e) ∙ f, a)

    move_in-Live :
        (files : List Text) (t : Tree)
        → IsLive spec.out_bins t
        → ((c : Text) → t.current ≡ some c → text_eq s c ≡ false)
        → Live (move_in disk builder spec retain commit s previous files t)
    unfolding move_in
    move_in-Live files t h other =
        if-Live (not (has_bins files spec.out_bins)) _ _ (λ e. h)
          (λ e.
            placed-Live files _ _ (ground arith)
              (λ c k.
                let (v, f, a) = h c k in
                (v, find-remove_version disk s c t.versions (other c k) ∙ f, a))
              other)

    produced-Live :
        (r : Outcome (List Text)) (t : Tree)
        → IsLive spec.out_bins t
        → ((c : Text) → t.current ≡ some c → text_eq s c ≡ false)
        → Live (produced disk builder spec retain commit s previous r t)
    produced-Live (err e) t h other = h
    produced-Live (ok files) t h other = move_in-Live files t h other

    build_new-Live :
        (r : Outcome (Unit {0})) (t : Tree)
        → IsLive spec.out_bins t
        → ((c : Text) → t.current ≡ some c → text_eq s c ≡ false)
        → Live (build_new disk builder spec retain commit s previous r t)
    build_new-Live (err e) t h other = h
    build_new-Live (ok x) t h other = produced-Live (builder.produce spec commit) t h other

    IsComplete-there :
        (vs : List Version)
        → is_complete (find_version s vs) spec.out_bins ≡ true
        → IsComplete spec.out_bins s vs
    IsComplete-there vs h = go (find_version s vs) refl h
      where
        go :
            (o : Option Version)
            → find_version s vs ≡ o
            → is_complete o spec.out_bins ≡ true
            → IsComplete spec.out_bins s vs
        go none e h = cc
        go (some v) e h = (v, e, h)

    with_dir-Live :
        (r : Outcome (Unit {0})) (t : Tree)
        → IsLive spec.out_bins t
        → Live (with_dir disk builder spec retain commit s previous r t)
    with_dir-Live (err e) t h = h
    with_dir-Live (ok x) t h =
        if-Live (is_complete (find_version s t.versions) spec.out_bins) _ _
          (λ e. reuse-Live _ t h (IsComplete-there t.versions e))
          (λ e. build_new-Live disk.make_stage t h (incomplete_other t h e))

  resolved-Live :
      (r : Outcome Text) (t : Tree)
      → IsLive spec.out_bins t
      → Live (resolved disk builder spec retain r t)
  resolved-Live (err e) t h = h
  resolved-Live (ok commit) t h =
      if-Live [] [] none (is_empty (trim commit)) _ _ (λ e. h)
        (λ e. with_dir-Live commit (slug commit) t.current disk.make_dir t h)

  -- Whatever the disk refuses, whatever the builder produces, and whatever a removal leaves behind:
  -- an install, from a tree whose `current` points at a version with all the recipe's binaries or
  -- at nothing, leaves such a tree, with an outcome or with an error.
  pub install-IsLive :
      (locked : Bool) (t : Tree)
      → IsLive spec.out_bins t
      → IsLive spec.out_bins (install disk builder spec retain locked t).1
  unfolding install
  install-IsLive false t h = h
  install-IsLive true t h = resolved-Live (builder.resolve_ref spec) t h
