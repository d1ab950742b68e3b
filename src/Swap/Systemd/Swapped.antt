-- ===== src/Swap/Systemd/Swapped.antt =====
-- src/swap.rs: what a swap over `SystemdActuator` does to the files of the machine.
use llmtune.Prelude.{
  ℕ, ◌≤◌, ◌≡◌, ◌∙◌, refl, ap, subst, ◌⊎◌, inl, inr, Bool, true, false, Option, some, List, [], ◌∷◌,
  Outcome, ok, err, is_ok, Text, codes, text_eq, length, Bool-cases,
}
use llmtune.Build.{Fs}
use llmtune.Model.{Model}
use llmtune.Profile.{Profile}
use llmtune.Swap.Seams.{Health, Clock, SwapOpts, and_then}
use llmtune.Swap.Contract.{Contract}
use llmtune.Swap.Core.{SwapOutcome, serves, swap, swap_dropin}
use llmtune.Swap.Core.Restores.{swap_reverted, swap_done, done-staged}
use llmtune.Swap.Systemd.{
  Root, IsRoot, Staged, fresh, file, found_in, target, is_at, backup_dir, stage, rollback, commit,
  reload_restart, systemd_actuator,
}
use llmtune.Swap.Systemd.Ready.{IsReady, view, rollback-ready, stage-IsReady, stage-writes}
use llmtune.Swap.Systemd.Owned.{IsOwn, stage-IsOwn}

-- The probes and the clock beside the fields of the actuator, which they do not see.
abbrev pub probes_beside : {W : Type 0} → Health W → Health (W × Staged)
probes_beside health = record {
  healthy = λ s. let (b, w) = health.healthy s.0 in (b, (w, s.1));
  served = λ s. let (o, w) = health.served s.0 in (o, (w, s.1));
  warm = λ s. (health.warm s.0, s.1);
}

abbrev pub clock_beside : {W : Type 0} → Clock W → Clock (W × Staged)
clock_beside clock = record { sleep = λ t s. (clock.sleep t s.0, s.1); now = λ s. clock.now s.0 }

-- `systemctl`, the probes and the passing of time change no file.
pub record IsQuiet {W : Type 0} (root : Root W) (health : Health W) (clock : Clock W) : Type 0 where
  pub systemctl_keeps :
      (args : List Text) (w : W) (dir name : Text)
      → file root (root.systemctl args w).1 dir name ≡ file root w dir name
  pub healthy_keeps :
      (w : W) (dir name : Text) → file root (health.healthy w).1 dir name ≡ file root w dir name
  pub served_keeps :
      (w : W) (dir name : Text) → file root (health.served w).1 dir name ≡ file root w dir name
  pub warm_keeps :
      (w : W) (dir name : Text) → file root (health.warm w) dir name ≡ file root w dir name
  pub sleep_keeps :
      (t : ℕ) (w : W) (dir name : Text)
      → file root (clock.sleep t w) dir name ≡ file root w dir name

module _ {W : Type 0} {root : Root W} {health : Health W} {clock : Clock W} (laws : IsRoot root)
    (quiet : IsQuiet root health clock) (dir name : Text) where
  with_noted :
      (o p : Option Text) (st : Staged) → o ≡ p → ◌≡◌ {A = Option Text × Staged} (o, st) (p, st)
  with_noted o p st e = ap (λ q. (q, st)) e

  reload_restart-file :
      (unit : Text) (w : W) (st : Staged)
      → view root laws dir name (reload_restart root unit (w, st)).1
        ≡ view root laws dir name (w, st)
  unfolding reload_restart
  reload_restart-file unit w st =
      with_noted _ _ st (reloaded (root.systemctl _ w) (systemctl_same _ w))
    where
      systemctl_same :
          (args : List Text) (v : W)
          → file root (root.systemctl args v).1 dir name ≡ file root v dir name
      systemctl_same args v = quiet.systemctl_keeps args v dir name

      reloaded :
          (m : Outcome (Unit {0}) × W)
          → file root m.1 dir name ≡ file root w dir name
          → file root
              (and_then m (λ w₁.
                let (_, w₂) = root.systemctl (codes "reset-failed" ∷ unit ∷ []) w₁ in
                root.systemctl (codes "restart" ∷ unit ∷ []) w₂)).1
              dir
              name
            ≡ file root w dir name
      reloaded (err e, v) h = h
      reloaded (ok x, v) h = systemctl_same _ _ ∙ systemctl_same _ v ∙ h

  -- One swap over the actuator of systemd, for one file.
  actuator-Contract :
      (prior : Option Text)
      → Contract
          (systemd_actuator root)
          (probes_beside health)
          (clock_beside clock)
          (view root laws dir name)
          (λ d. d.0)
          (IsReady dir name prior)
          prior
  unfolding systemd_actuator rollback commit
  actuator-Contract prior = record {
    rollback_restores = λ unit s ready done.
        rollback-ready root laws dir name prior unit s.0 s.1.wrote s.1.removed_self ready done;
    restart_keeps = λ unit s. reload_restart-file unit s.0 s.1;
    commit_keeps = λ s. refl;
    healthy_keeps = λ s. with_noted _ _ s.1 (quiet.healthy_keeps s.0 dir name);
    served_keeps = λ s. with_noted _ _ s.1 (quiet.served_keeps s.0 dir name);
    warm_keeps = λ s. with_noted _ _ s.1 (quiet.warm_keeps s.0 dir name);
    sleep_keeps = λ t s. with_noted _ _ s.1 (quiet.sleep_keeps t s.0 dir name);
  }

module _ {W : Type 0} {root : Root W} {health : Health W} {clock : Clock W} (laws : IsRoot root)
    (quiet : IsQuiet root health clock) (dir name : Text) (fs : Fs) (state_dir unit : Text)
    (model : Model) (profile : Profile) (flags : Text) (opts : SwapOpts) where
  -- A swap by a new actuator, and the machine behind its first question, which server runs.
  abbrev pub swapped : W → Outcome SwapOutcome × (W × Staged)
  swapped w =
      swap (systemd_actuator root) (probes_beside health) (clock_beside clock) fs state_dir unit
        model profile flags opts (w, fresh)

  abbrev pub asked : W → W
  asked w = (health.served w).1

  abbrev pub staged : W → Outcome (Unit {0}) × (W × Staged)
  staged w = stage root unit (swap_dropin fs state_dir model profile flags opts) (asked w, fresh)

  -- A swap by a new `SystemdActuator`, on a machine whose file commands change the file they name and
  -- whose probes change none, where at most one own drop-in stands: when it returns an outcome that
  -- is not done and says that it reverted, every file outside the directory of the backups is as it
  -- was before the swap; save, where staging failed, the file that it was to write, which may hold a
  -- part.
  pub swap_restores :
      (w : W) (o : SwapOutcome)
      → length (found_in root unit (asked w)).ours ≤ 1
      → text_eq backup_dir dir ≡ false
      → (swapped w).0 ≡ ok o
      → o.done ≡ false
      → o.reverted ≡ true
      → (file root (swapped w).1.0 dir name ≡ file root w dir name)
        ⊎ ((is_ok (staged w).0 ≡ false) × (is_at (target root unit (asked w)) dir name ≡ true))
  unfolding systemd_actuator
  swap_restores w o few apart returned undone reverted = elim (Bool-cases (is_ok (staged w).0)) [
    | inl fine ↦ inl (restored (λ p. cc (fine, p)))
    | inr failed ↦ elim (Bool-cases (is_at (target root unit (asked w)) dir name)) [
      | inl there_is ↦ inr (failed, there_is)
      | inr elsewhere ↦ inl (restored (λ p. elsewhere))
    ]
  ]
    where
      restored :
          (is_ok (staged w).0 ≡ false → is_at (target root unit (asked w)) dir name ≡ false)
          → file root (swapped w).1.0 dir name ≡ file root w dir name
      restored fine =
          swap_reverted (actuator-Contract laws quiet dir name (file root (asked w) dir name)) fs
            state_dir unit model profile flags opts (w, fresh) o
            (stage-IsReady root laws dir name unit _ (asked w) few apart fine) returned undone
            reverted
          ∙ quiet.served_keeps w dir name

  -- What stands at a file behind a swap that is done: at the place of the drop-in, the drop-in; and
  -- elsewhere what stood there, if it did not carry the marker of a model choice.
  abbrev pub IsInstalled : Bool → Text → Option Text → Option Text → Type 0
  IsInstalled true dropin before after = after ≡ some dropin
  IsInstalled false dropin before after = (after ≡ before) ⊎ IsOwn root laws dir name before

  -- A swap by a new `SystemdActuator`, on a machine whose file commands change the file they name and
  -- whose probes change none, where at most one own drop-in stands: when it was to a model that was
  -- not served, and returns an outcome that is done, the rendered drop-in stands at the name that
  -- was chosen for it, and every other file outside the directory of the backups is as it was, or
  -- carried the marker of a model choice before.
  pub swap_installs :
      (w : W) (o : SwapOutcome)
      → length (found_in root unit (asked w)).ours ≤ 1
      → text_eq backup_dir dir ≡ false
      → serves (health.served w).0 model.name ≡ false
      → (swapped w).0 ≡ ok o
      → o.done ≡ true
      → IsInstalled
          (is_at (target root unit (asked w)) dir name)
          (swap_dropin fs state_dir model profile flags opts)
          (file root w dir name)
          (file root (swapped w).1.0 dir name)
  unfolding systemd_actuator
  swap_installs w o few apart other returned done =
      at_file (is_at (target root unit (asked w)) dir name) refl
    where
      contract :
          Contract
            (systemd_actuator root)
            (probes_beside health)
            (clock_beside clock)
            (view root laws dir name)
            (λ d. d.0)
            (IsReady dir name (file root (asked w) dir name))
            (file root (asked w) dir name)
      contract = actuator-Contract laws quiet dir name (file root (asked w) dir name)

      fine : is_ok (staged w).0 ≡ true
      fine =
          done-staged contract fs state_dir unit model profile flags opts (w, fresh) o other
            returned done

      kept : file root (swapped w).1.0 dir name ≡ file root (staged w).1.0 dir name
      kept =
          swap_done contract fs state_dir unit model profile flags opts (w, fresh) o
            (stage-IsReady root laws dir name unit _ (asked w) few apart (λ p. cc (fine, p))) other
            returned done

      at_file :
          (b : Bool)
          → is_at (target root unit (asked w)) dir name ≡ b
          → IsInstalled b
              (swap_dropin fs state_dir model profile flags opts)
              (file root w dir name)
              (file root (swapped w).1.0 dir name)
      at_file true there_is = kept ∙ stage-writes root laws dir name unit _ (asked w) fine there_is
      at_file false elsewhere =
          elim (stage-IsOwn root laws dir name unit _ (asked w) fresh apart elsewhere) [
            | inl same ↦ inl (kept ∙ same ∙ quiet.served_keeps w dir name)
            | inr own ↦ inr (subst (IsOwn root laws dir name) (quiet.served_keeps w dir name) own)
          ]
