-- ===== src/Swap/Systemd/Owned.antt =====
-- src/swap.rs: which files `SystemdActuator::stage` changes.
use llmtune.Prelude.{
  ◌≡◌, ◌∙◌, refl, ◌⊎◌, inl, inr, true, false, Option, some, List, [], ◌∷◌, Outcome, ok, err, Text,
  codes, ◌++◌, text_eq, contains, All, Any, here, there, arith, Bool-cases,
}
use llmtune.Swap.Dropins.{Dropin, marker}
use llmtune.Swap.Dropins.Wins.{collect_dropins_own}
use llmtune.Swap.Systemd.{
  Root, IsRoot, Staged, file, found_in, target, is_at, backup_dir, backed_up, clear_own,
  remove_dropins, write_own, written, noted, stage,
}
use llmtune.Swap.Systemd.Restored.{moved}
use llmtune.Swap.Systemd.Names.{found_in-All}

module _ {W : Type 0} (root : Root W) (laws : IsRoot root) (dir name : Text) where
  AtOne : List Dropin → Type 0
  AtOne ps = Any (λ p. is_at (p.dir, p.name) dir name ≡ true) ps

  remove_dropins-keeps :
      (ps : List Dropin) (w : W)
      → (file root (remove_dropins root ps w) dir name ≡ file root w dir name) ⊎ AtOne ps
  unfolding remove_dropins AtOne
  remove_dropins-keeps [] w = inl refl
  remove_dropins-keeps (p ∷ ps) w = elim (Bool-cases (is_at (p.dir, p.name) dir name)) [
    | inl there_is ↦ inr (here there_is)
    | inr elsewhere ↦ elim (remove_dropins-keeps ps (root.remove p.dir p.name w).1) [
      | inl same ↦ inl (same ∙ laws.remove_keeps (p.dir, p.name) w dir name elsewhere)
      | inr one ↦ inr (there one)
    ]
  ]

  clear_own-keeps :
      (unit : Text) (ps : List Dropin) (w : W) (st : Staged)
      → text_eq backup_dir dir ≡ false
      → (file root (clear_own root unit ps (w, st)).0 dir name ≡ file root w dir name) ⊎ AtOne ps
  clear_own-keeps unit [] w st apart = inl refl
  clear_own-keeps unit (p ∷ ps) w st apart =
      elim (remove_dropins-keeps (p ∷ ps) (backed_up root unit p w)) [
        | inl same ↦ inl (
            same
            ∙ laws.write_keeps (backup_dir, unit ++ codes ".dropin.prev") p.content _ dir name
                (ground arith)
            ∙ laws.mkdir_keeps backup_dir w dir name)
        | inr one ↦ inr one
      ]

  -- The file is there and carries the marker of a model choice.
  abbrev pub IsOwn : Option Text → Type 0
  IsOwn o = (c : Text) × (o ≡ some c) × (contains c marker ≡ true)

  AtOne-IsOwn :
      (ps : List Dropin) (w : W)
      → All (λ p. file root w p.dir p.name ≡ some p.content) ps
      → All (λ p. contains p.content marker ≡ true) ps
      → AtOne ps
      → IsOwn (file root w dir name)
  unfolding AtOne
  AtOne-IsOwn [] w held marked one = elim one [ ]
  AtOne-IsOwn (p ∷ ps) w (held, helds) (marked, markeds) (here there_is) =
      (p.content, moved root laws dir name (p.dir, p.name) w (some p.content) there_is held, marked)
  AtOne-IsOwn (p ∷ ps) w (held, helds) (marked, markeds) (there one) =
      AtOne-IsOwn ps w helds markeds one

  write_own-keeps :
      (path : Text × Text) (dropin : Text) (s : W × Staged)
      → is_at path dir name ≡ false
      → file root (write_own root path dropin s).1.0 dir name ≡ file root s.0 dir name
  write_own-keeps path dropin (w, st) elsewhere =
      go (root.mkdir path.0 w) (laws.mkdir_keeps path.0 w dir name)
    where
      note :
          (r : Outcome (Unit {0}) × W)
          → file root r.1 dir name ≡ file root w dir name
          → file root (noted root path st r).1.0 dir name ≡ file root w dir name
      note (err e, v) h = h
      note (ok x, v) h = h

      go :
          (m : Outcome (Unit {0}) × W)
          → file root m.1 dir name ≡ file root w dir name
          → file root (written root path dropin st m).1.0 dir name ≡ file root w dir name
      go (err e, v) h = h
      go (ok x, v) h =
          note (root.write path.0 path.1 dropin v)
            (laws.write_keeps path dropin v dir name elsewhere ∙ h)

  -- A stage, whether it succeeds or fails, leaves every file as it was that is neither in the
  -- directory of the backups nor the drop-in to be written, and does not carry the marker of a model
  -- choice.
  pub stage-IsOwn :
      (unit dropin : Text) (w : W) (st : Staged)
      → text_eq backup_dir dir ≡ false
      → is_at (target root unit w) dir name ≡ false
      → (file root (stage root unit dropin (w, st)).1.0 dir name ≡ file root w dir name)
        ⊎ IsOwn (file root w dir name)
  unfolding stage
  stage-IsOwn unit dropin w st apart elsewhere =
      elim (clear_own-keeps unit (found_in root unit w).ours w st apart) [
        | inl same ↦ inl (
            write_own-keeps (target root unit w) dropin
              (clear_own root unit (found_in root unit w).ours (w, st)) elsewhere
            ∙ same)
        | inr one ↦ inr (
            AtOne-IsOwn (found_in root unit w).ours w (found_in-All root laws w unit)
              (collect_dropins_own (root.etc_writable w) (root.read_dir w) unit) one)
      ]
