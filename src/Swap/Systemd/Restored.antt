-- ===== src/Swap/Systemd/Restored.antt =====
-- src/swap.rs: a rollback behind a stage brings the files back.
use llmtune.Prelude.{
  ◌≡◌, ◌∙◌, refl, sym, ap, subst, ◌⊎◌, inl, inr, Bool, true, false, ◌&&◌, Option, none, some, List,
  [], ◌∷◌, ◌≤◌, Outcome, ok, err, is_ok, Text, codes, ◌++◌, text_eq, text_eq_iff, length, All, Any,
  here, there, arith, Bool-cases,
}
use mathlib.Core.Bool.{false≢true}
use llmtune.Swap.Dropins.{Dropin}
use llmtune.Swap.Systemd.{
  Root, IsRoot, Staged, fresh, file, found_in, target, is_at, backup_dir, backed_up, clear_own,
  remove_dropins, write_own, written, noted, remove_wrote, unwritten, stage, rollback,
}
use llmtune.Swap.Systemd.Names.{target-cases, found_in-All}

at-same :
    (path : Text × Text) (dir name : Text)
    → is_at path dir name ≡ true
    → (path.0 ≡ dir) × (path.1 ≡ name)
at-same path dir name h =
    ((text_eq_iff path.0 dir).0 (ground arith), (text_eq_iff path.1 name).0 (ground arith))

module _ {W : Type 0} (root : Root W) (laws : IsRoot root) (dir name : Text) where
  -- What stands at the path that was changed, where the change is known for the path itself.
  pub moved :
      (path : Text × Text) (w : W) (o : Option Text)
      → is_at path dir name ≡ true
      → file root w path.0 path.1 ≡ o
      → file root w dir name ≡ o
  moved path w o h k =
      let (d, n) = at-same path dir name h in
      subst (λ e. file root w e name ≡ o) d (subst (λ m. file root w path.0 m ≡ o) n k)

  module _ (path : Text × Text) (dropin : Text) (prior : Option Text) where
    -- The file is as it was, or it is the one that a failing stage has named.
    abbrev IsUndone : Bool → Option Text → Type 0
    IsUndone staged now = (now ≡ prior) ⊎ ((staged ≡ false) × (is_at path dir name ≡ true))

    -- Nothing is written yet.
    abbrev unwritten_yet : Option Dropin → Staged
    unwritten_yet removed = record { wrote = none; removed_self = removed }

    -- The drop-in that was staged is removed again.
    abbrev removing : Outcome (Unit {0}) × (W × Staged) → Outcome (Unit {0}) × W
    removing s = remove_wrote root s.1.1.wrote s.1.0

    noted-IsUndone :
        (removed : Option Dropin) (r : Outcome (Unit {0}) × W)
        → (is_at path dir name ≡ true → prior ≡ none)
        → (is_at path dir name ≡ false → file root r.1 dir name ≡ prior)
        → is_ok (removing (noted root path (unwritten_yet removed) r)).0 ≡ true
        → IsUndone
            (is_ok (noted root path (unwritten_yet removed) r).0)
            (file root (removing (noted root path (unwritten_yet removed) r)).1 dir name)
    noted-IsUndone removed (err e, w) free kept done = elim (Bool-cases (is_at path dir name)) [
      | inl there_is ↦ inr (refl, there_is)
      | inr elsewhere ↦ inl (kept elsewhere)
    ]
    noted-IsUndone removed (ok x, w) free kept done = elim (Bool-cases (is_at path dir name)) [
      | inl there_is ↦
          inl (moved path _ none there_is (laws.remove_removes path w done) ∙ sym (free there_is))
      | inr elsewhere ↦ inl (laws.remove_keeps path w dir name elsewhere ∙ kept elsewhere)
    ]

    written-IsUndone :
        (removed : Option Dropin) (m : Outcome (Unit {0}) × W)
        → (is_at path dir name ≡ true → prior ≡ none)
        → file root m.1 dir name ≡ prior
        → is_ok (removing (written root path dropin (unwritten_yet removed) m)).0 ≡ true
        → IsUndone
            (is_ok (written root path dropin (unwritten_yet removed) m).0)
            (file root (removing (written root path dropin (unwritten_yet removed) m)).1 dir name)
    written-IsUndone removed (err e, w) free kept done = inl kept
    written-IsUndone removed (ok x, w) free kept done =
        noted-IsUndone removed (root.write path.0 path.1 dropin w) free
          (λ elsewhere. laws.write_keeps path dropin w dir name elsewhere ∙ kept) done

    write_own-IsUndone :
        (removed : Option Dropin) (w : W)
        → (is_at path dir name ≡ true → prior ≡ none)
        → file root w dir name ≡ prior
        → is_ok (removing (write_own root path dropin (w, unwritten_yet removed))).0 ≡ true
        → IsUndone (is_ok (write_own root path dropin (w, unwritten_yet removed)).0) (
            file root (removing (write_own root path dropin (w, unwritten_yet removed))).1 dir name)
    write_own-IsUndone removed w free kept done =
        written-IsUndone removed (root.mkdir path.0 w) free
          (laws.mkdir_keeps path.0 w dir name ∙ kept) done

    -- What was removed is still to be put back.
    pub write_own-removed :
        (removed : Option Dropin) (w : W)
        → (write_own root path dropin (w, unwritten_yet removed)).1.1.removed_self ≡ removed
    write_own-removed removed w = go (root.mkdir path.0 w)
      where
        noted_keeps :
            (r : Outcome (Unit {0}) × W)
            → (noted root path (unwritten_yet removed) r).1.1.removed_self ≡ removed
        noted_keeps (err e, w) = refl
        noted_keeps (ok x, w) = refl

        go :
            (m : Outcome (Unit {0}) × W)
            → (written root path dropin (unwritten_yet removed) m).1.1.removed_self ≡ removed
        go (err e, w) = refl
        go (ok x, w) = noted_keeps (root.write path.0 path.1 dropin w)

    -- The rollback, by what was removed.
    nothing_back :
        (staged : Bool) (m : Outcome (Unit {0}) × W)
        → (is_ok m.0 ≡ true → IsUndone staged (file root m.1 dir name))
        → is_ok (unwritten root none m).0 ≡ true
        → IsUndone staged (file root (unwritten root none m).1.0 dir name)
    nothing_back staged (err e, w) h done = cc
    nothing_back staged (ok x, w) h done = h refl

    one_back :
        (p : Dropin) (staged : Bool) (m : Outcome (Unit {0}) × W)
        → (is_at (p.dir, p.name) dir name ≡ true → some p.content ≡ prior)
        → (is_at (p.dir, p.name) dir name ≡ false
            → is_ok m.0 ≡ true
            → IsUndone staged (file root m.1 dir name))
        → is_ok (unwritten root (some p) m).0 ≡ true
        → IsUndone staged (file root (unwritten root (some p) m).1.0 dir name)
    one_back p staged (err e, w) own h done = cc
    one_back p staged (ok x, w) own h done = elim (Bool-cases (is_at (p.dir, p.name) dir name)) [
      | inl there_is ↦ inl (
          moved (p.dir, p.name) _ (some p.content) there_is
            (laws.write_writes (p.dir, p.name) p.content w done)
          ∙ own there_is)
      | inr elsewhere ↦
          subst (IsUndone staged)
            (sym (laws.write_keeps (p.dir, p.name) p.content w dir name elsewhere))
            (h elsewhere refl)
    ]

  module _ (unit dropin : Text) (w : W) where
    abbrev prior : Option Text
    prior = file root w dir name

    -- A stage that found these own drop-ins, and its rollback.
    abbrev staged : List Dropin → Outcome (Unit {0}) × (W × Staged)
    staged ps = write_own root (target root unit w) dropin (clear_own root unit ps (w, fresh))

    abbrev undone : List Dropin → Outcome (Unit {0}) × (W × Staged)
    undone ps =
        unwritten root (staged ps).1.1.removed_self
          (remove_wrote root (staged ps).1.1.wrote (staged ps).1.0)

    pub cleared_keeps :
        (p : Dropin)
        → text_eq backup_dir dir ≡ false
        → is_at (p.dir, p.name) dir name ≡ false
        → file root (root.remove p.dir p.name (backed_up root unit p w)).1 dir name ≡ prior
    cleared_keeps p apart elsewhere =
        laws.remove_keeps (p.dir, p.name) (backed_up root unit p w) dir name elsewhere
        ∙ laws.write_keeps (backup_dir, unit ++ codes ".dropin.prev") p.content _ dir name
            (ground arith)
        ∙ laws.mkdir_keeps backup_dir w dir name

    missed :
        (path : Text × Text) (ps : List Dropin)
        → All (λ p. is_at (p.dir, p.name) dir name ≡ false) ps
        → Any (λ p. (p.dir ≡ path.0) × (p.name ≡ path.1)) ps
        → is_at path dir name ≡ false
    missed path [] elsewhere a = elim a [ ]
    missed path (p ∷ ps) (here_not, rest) (here (d, n)) =
        ap (λ m. text_eq path.0 dir && text_eq m name) (sym n)
        ∙ ap (λ e. text_eq e dir && text_eq p.name name) (sym d)
        ∙ here_not
    missed path (p ∷ ps) (here_not, rest) (there a) = missed path ps rest a

    -- Where the drop-in is written, and no own one was removed, no file stood.
    pub free_target :
        (ps : List Dropin)
        → (found_in root unit w).ours ≡ ps
        → All (λ p. is_at (p.dir, p.name) dir name ≡ false) ps
        → is_at (target root unit w) dir name ≡ true
        → prior ≡ none
    free_target ps found elsewhere there_is = elim (target-cases root unit w) [
      | inl nothing ↦ moved (target root unit w) w none there_is nothing
      | inr own ↦ absurd (
          false≢true (
            sym (
              missed (target root unit w) ps elsewhere (
                subst
                  (Any (λ p. (p.dir ≡ (target root unit w).0) × (p.name ≡ (target root unit w).1)))
                  found own))
            ∙ there_is))
    ]

    pub held_here :
        (p : Dropin)
        → (found_in root unit w).ours ≡ p ∷ []
        → is_at (p.dir, p.name) dir name ≡ true
        → some p.content ≡ prior
    held_here p found there_is = sym (
        moved (p.dir, p.name) w (some p.content) there_is
          (subst (All (λ q. file root w q.dir q.name ≡ some q.content)) found
            (found_in-All root laws w unit)).0)

    undone-IsUndone :
        (ps : List Dropin)
        → (found_in root unit w).ours ≡ ps
        → length ps ≤ 1
        → text_eq backup_dir dir ≡ false
        → is_ok (undone ps).0 ≡ true
        → IsUndone
            (target root unit w)
            dropin
            prior
            (is_ok (staged ps).0)
            (file root (undone ps).1.0 dir name)
    undone-IsUndone [] found few apart done =
        subst
          (λ o.
            is_ok (unwritten root o (removing (target root unit w) dropin prior (staged []))).0
              ≡ true
            → IsUndone (target root unit w) dropin prior (is_ok (staged []).0) (
                file root
                  (unwritten root o (removing (target root unit w) dropin prior (staged []))).1.0
                  dir name))
          (sym (write_own-removed (target root unit w) dropin prior none w))
          (nothing_back (target root unit w) dropin prior (is_ok (staged []).0) _ (
            write_own-IsUndone (target root unit w) dropin prior none w (free_target [] found tt)
              refl))
          done
    undone-IsUndone (p ∷ []) found few apart done =
        subst
          (λ o.
            is_ok
                (unwritten root o (removing (target root unit w) dropin prior (staged (p ∷ [])))).0
              ≡ true
            → IsUndone (target root unit w) dropin prior (is_ok (staged (p ∷ [])).0) (
                file root
                  (unwritten root o
                    (removing (target root unit w) dropin prior (staged (p ∷ [])))).1.0
                  dir name))
          (sym (write_own-removed (target root unit w) dropin prior (some p) _))
          (one_back (target root unit w) dropin prior p (is_ok (staged (p ∷ [])).0) _
            (held_here p found)
            (λ elsewhere ran.
              write_own-IsUndone (target root unit w) dropin prior (some p) _
                (free_target (p ∷ []) found (elsewhere, tt))
                (unfold remove_dropins in cleared_keeps p apart elsewhere) ran))
          done
    undone-IsUndone (p ∷ q ∷ ps) found few apart done = absurd (omega (arith, few))

    -- The promise of `Actuator::rollback`, kept by the actuator of systemd on a machine whose file
    -- commands change the file they name: where one own drop-in stood at most, a stage, whether it
    -- succeeds or fails, and a rollback that succeeds leave every file outside the directory of the
    -- backups as it was; save the file that a failing stage was to write, which may hold a part.
    pub stage-rollback :
        length (found_in root unit w).ours ≤ 1
        → text_eq backup_dir dir ≡ false
        → is_ok (rollback root unit (stage root unit dropin (w, fresh)).1).0 ≡ true
        → (file root (rollback root unit (stage root unit dropin (w, fresh)).1).1.0 dir name
            ≡ file root w dir name)
          ⊎ ((is_ok (stage root unit dropin (w, fresh)).0 ≡ false)
              × (is_at (target root unit w) dir name ≡ true))
    unfolding rollback stage
    stage-rollback few apart done = undone-IsUndone (found_in root unit w).ours refl few apart done
