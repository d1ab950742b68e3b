-- ===== src/Swap/Systemd/Ready.antt =====
-- src/swap.rs: from which states of `SystemdActuator` a rollback brings a file back.
use llmtune.Prelude.{
  ◌≡◌, ◌∙◌, refl, sym, subst, Bool, true, false, Option, none, some, List, [], ◌∷◌, ◌≤◌, Outcome,
  ok, err, is_ok, Text, text_eq, length, arith,
}
use llmtune.Swap.Dropins.{Dropin}
use llmtune.Swap.Systemd.{
  Root, IsRoot, Staged, fresh, file, found_in, target, is_at, backup_dir, clear_own, remove_dropins,
  write_own, written, noted, remove_wrote, unwritten, stage,
}
use llmtune.Swap.Systemd.Restored.{moved, write_own-removed, cleared_keeps, free_target, held_here}

module _ (dir name : Text) (prior : Option Text) where
  -- The file that stood there, where the drop-in was written at its place or elsewhere.
  abbrev IsFree : Bool → Option Text → Type 0
  IsFree true now = prior ≡ none
  IsFree false now = now ≡ prior

  abbrev IsRemovable : Option (Text × Text) → Option Text → Type 0
  IsRemovable none now = now ≡ prior
  IsRemovable (some path) now = IsFree (is_at path dir name) now

  abbrev IsHeld : Bool → Dropin → Option (Text × Text) → Option Text → Type 0
  IsHeld true p wrote now = some p.content ≡ prior
  IsHeld false p wrote now = IsRemovable wrote now

  abbrev IsBackable : Option Dropin → Option (Text × Text) → Option Text → Type 0
  IsBackable none wrote now = IsRemovable wrote now
  IsBackable (some p) wrote now = IsHeld (is_at (p.dir, p.name) dir name) p wrote now

  -- What is noted brings the file back: it was removed and is held, or it is what it was behind
  -- the removal of the drop-in that was written.
  abbrev pub IsReady : Option Text × Staged → Type 0
  IsReady (now, st) = IsBackable st.removed_self st.wrote now

module _ {W : Type 0} (root : Root W) (laws : IsRoot root) (dir name : Text) where
  -- What is looked at: the file, and what the actuator has noted.
  abbrev pub view : W × Staged → Option Text × Staged
  view (w, st) = (file root w dir name, st)

  remove_wrote-at :
      (prior : Option Text) (path : Text × Text) (w : W) (b : Bool)
      → is_at path dir name ≡ b
      → IsFree dir name prior b (file root w dir name)
      → is_ok (root.remove path.0 path.1 w).0 ≡ true
      → file root (root.remove path.0 path.1 w).1 dir name ≡ prior
  remove_wrote-at prior path w true e h done =
      moved root laws dir name path _ none e (laws.remove_removes path w done) ∙ sym h
  remove_wrote-at prior path w false e h done = laws.remove_keeps path w dir name e ∙ h

  remove_wrote-back :
      (prior : Option Text) (wrote : Option (Text × Text)) (w : W)
      → IsRemovable dir name prior wrote (file root w dir name)
      → is_ok (remove_wrote root wrote w).0 ≡ true
      → file root (remove_wrote root wrote w).1 dir name ≡ prior
  remove_wrote-back prior none w h done = h
  remove_wrote-back prior (some path) w h done =
      remove_wrote-at prior path w (is_at path dir name) refl h done

  held_back :
      (prior : Option Text) (p : Dropin) (wrote : Option (Text × Text)) (w : W)
      (m : Outcome (Unit {0}) × W) (b : Bool)
      → is_at (p.dir, p.name) dir name ≡ b
      → IsHeld dir name prior b p wrote (file root w dir name)
      → (IsRemovable dir name prior wrote (file root w dir name)
          → is_ok m.0 ≡ true
          → file root m.1 dir name ≡ prior)
      → is_ok (unwritten root (some p) m).0 ≡ true
      → file root (unwritten root (some p) m).1.0 dir name ≡ prior
  held_back prior p wrote w (err e, v) b at_p h back done = cc
  held_back prior p wrote w (ok x, v) true at_p h back done =
      moved root laws dir name (p.dir, p.name) _ (some p.content) at_p
        (laws.write_writes (p.dir, p.name) p.content v done)
      ∙ h
  held_back prior p wrote w (ok x, v) false at_p h back done =
      laws.write_keeps (p.dir, p.name) p.content v dir name at_p ∙ back h refl

  none_back :
      (prior : Option Text) (m : Outcome (Unit {0}) × W)
      → (is_ok m.0 ≡ true → file root m.1 dir name ≡ prior)
      → is_ok (unwritten root none m).0 ≡ true
      → file root (unwritten root none m).1.0 dir name ≡ prior
  none_back prior (err e, v) back done = cc
  none_back prior (ok x, v) back done = back refl

  -- A rollback that succeeds brings the file back, from every state that is ready for it.
  pub rollback-ready :
      (prior : Option Text) (unit : Text) (w : W) (wrote : Option (Text × Text))
      (removed : Option Dropin)
      → IsBackable dir name prior removed wrote (file root w dir name)
      → is_ok (unwritten root removed (remove_wrote root wrote w)).0 ≡ true
      → file root (unwritten root removed (remove_wrote root wrote w)).1.0 dir name ≡ prior
  rollback-ready prior unit w wrote none h done =
      none_back prior (remove_wrote root wrote w) (remove_wrote-back prior wrote w h) done
  rollback-ready prior unit w wrote (some p) h done =
      held_back prior p wrote w (remove_wrote root wrote w) (is_at (p.dir, p.name) dir name) refl h
        (remove_wrote-back prior wrote w) done

  module _ (path : Text × Text) (dropin : Text) (prior : Option Text)
      (removed : Option Dropin) where
    abbrev st₀ : Staged
    st₀ = record { wrote = none; removed_self = removed }

    IsFree-at :
        (now : Option Text) (b : Bool)
        → (b ≡ true → prior ≡ none)
        → (b ≡ false → now ≡ prior)
        → IsFree dir name prior b now
    IsFree-at now true free kept = free refl
    IsFree-at now false free kept = kept refl

    noted-IsRemovable :
        (r : Outcome (Unit {0}) × W)
        → (is_at path dir name ≡ true → prior ≡ none)
        → (is_at path dir name ≡ false → file root r.1 dir name ≡ prior)
        → (is_ok (noted root path st₀ r).0 ≡ false → is_at path dir name ≡ false)
        → let s = (noted root path st₀ r).1 in
          IsRemovable dir name prior s.1.wrote (file root s.0 dir name)
    noted-IsRemovable (err e, w) free kept apart = kept (apart refl)
    noted-IsRemovable (ok x, w) free kept apart =
        IsFree-at (file root w dir name) (is_at path dir name) free kept

    written-IsRemovable :
        (m : Outcome (Unit {0}) × W)
        → (is_at path dir name ≡ true → prior ≡ none)
        → file root m.1 dir name ≡ prior
        → (is_ok (written root path dropin st₀ m).0 ≡ false → is_at path dir name ≡ false)
        → let s = (written root path dropin st₀ m).1 in
          IsRemovable dir name prior s.1.wrote (file root s.0 dir name)
    written-IsRemovable (err e, w) free kept apart = kept
    written-IsRemovable (ok x, w) free kept apart =
        noted-IsRemovable (root.write path.0 path.1 dropin w) free
          (λ elsewhere. laws.write_keeps path dropin w dir name elsewhere ∙ kept) apart

    write_own-IsRemovable :
        (w : W)
        → (is_at path dir name ≡ true → prior ≡ none)
        → file root w dir name ≡ prior
        → (is_ok (write_own root path dropin (w, st₀)).0 ≡ false → is_at path dir name ≡ false)
        → let s = (write_own root path dropin (w, st₀)).1 in
          IsRemovable dir name prior s.1.wrote (file root s.0 dir name)
    write_own-IsRemovable w free kept apart =
        written-IsRemovable (root.mkdir path.0 w) free (laws.mkdir_keeps path.0 w dir name ∙ kept)
          apart

  module _ (unit dropin : Text) (w : W) where
    abbrev prior : Option Text
    prior = file root w dir name

    abbrev staged : List Dropin → Outcome (Unit {0}) × (W × Staged)
    staged ps = write_own root (target root unit w) dropin (clear_own root unit ps (w, fresh))

    -- What is noted of the one that was removed.
    held :
        (p : Dropin) (wrote : Option (Text × Text)) (now : Option Text) (b : Bool)
        → (b ≡ true → some p.content ≡ prior)
        → (b ≡ false → IsRemovable dir name prior wrote now)
        → IsHeld dir name prior b p wrote now
    held p wrote now true own other = own refl
    held p wrote now false own other = other refl

    staged-IsReady :
        (ps : List Dropin)
        → (found_in root unit w).ours ≡ ps
        → length ps ≤ 1
        → text_eq backup_dir dir ≡ false
        → (is_ok (staged ps).0 ≡ false → is_at (target root unit w) dir name ≡ false)
        → IsReady dir name prior (view (staged ps).1)
    unfolding remove_dropins
    staged-IsReady [] found few apart fine =
        subst
          (λ o.
            IsBackable dir name prior o (staged []).1.1.wrote (file root (staged []).1.0 dir name))
          (sym (write_own-removed root laws dir name (target root unit w) dropin prior none w))
          (write_own-IsRemovable (target root unit w) dropin prior none w
            (free_target root laws dir name unit dropin w [] found tt) refl fine)
    staged-IsReady (p ∷ []) found few apart fine =
        subst
          (λ o.
            IsBackable dir name prior o (staged (p ∷ [])).1.1.wrote
              (file root (staged (p ∷ [])).1.0 dir name))
          (sym (write_own-removed root laws dir name (target root unit w) dropin prior (some p) _))
          (held p _ _ (is_at (p.dir, p.name) dir name)
            (held_here root laws dir name unit dropin w p found)
            (λ elsewhere.
              write_own-IsRemovable (target root unit w) dropin prior (some p) _
                (free_target root laws dir name unit dropin w (p ∷ []) found (elsewhere, tt))
                (cleared_keeps root laws dir name unit dropin w p apart elsewhere) fine))
    staged-IsReady (p ∷ q ∷ ps) found few apart fine = absurd (omega (arith, few))

    -- A stage leaves a state that is ready for the rollback, save for the file that it failed to
    -- write.
    pub stage-IsReady :
        length (found_in root unit w).ours ≤ 1
        → text_eq backup_dir dir ≡ false
        → (is_ok (stage root unit dropin (w, fresh)).0 ≡ false
            → is_at (target root unit w) dir name ≡ false)
        → IsReady dir name prior (view (stage root unit dropin (w, fresh)).1)
    unfolding stage
    stage-IsReady few apart fine = staged-IsReady (found_in root unit w).ours refl few apart fine

    -- A stage that succeeds has written the drop-in at its place.
    write_own-writes :
        (s : W × Staged)
        → is_ok (write_own root (target root unit w) dropin s).0 ≡ true
        → is_at (target root unit w) dir name ≡ true
        → file root (write_own root (target root unit w) dropin s).1.0 dir name ≡ some dropin
    write_own-writes (v, st) done there_is = go (root.mkdir (target root unit w).0 v) done
      where
        note :
            (r : Outcome (Unit {0}) × W)
            → (is_ok r.0 ≡ true → file root r.1 dir name ≡ some dropin)
            → is_ok (noted root (target root unit w) st r).0 ≡ true
            → file root (noted root (target root unit w) st r).1.0 dir name ≡ some dropin
        note (err e, v) h k = cc
        note (ok x, v) h k = h refl

        go :
            (m : Outcome (Unit {0}) × W)
            → is_ok (written root (target root unit w) dropin st m).0 ≡ true
            → file root (written root (target root unit w) dropin st m).1.0 dir name ≡ some dropin
        go (err e, v) h = cc
        go (ok x, v) h =
            note (root.write (target root unit w).0 (target root unit w).1 dropin v)
              (λ k.
                moved root laws dir name (target root unit w) _ (some dropin) there_is
                  (laws.write_writes (target root unit w) dropin v k))
              h

    pub stage-writes :
        is_ok (stage root unit dropin (w, fresh)).0 ≡ true
        → is_at (target root unit w) dir name ≡ true
        → file root (stage root unit dropin (w, fresh)).1.0 dir name ≡ some dropin
    unfolding stage
    stage-writes done there_is =
        write_own-writes (clear_own root unit (found_in root unit w).ours (w, fresh)) done there_is
