-- ===== src/Swap/Contract.antt =====
-- src/swap.rs: what the comments on `Actuator` promise of one attempt to change the configuration, and
-- that the probes only look.
use llmtune.Prelude.{
  ℕ, zero, suc, ◌+◌, ltb, ◌≡◌, refl, Bool, true, false, is_ok, Text, if◌then◌else◌, ◌∙◌,
}
use llmtune.Swap.Seams.{Actuator, Health, Clock, SwapOpts, poll_from, poll_health, after_probe}

-- One attempt to change the configuration, on a machine that is looked at by `view`: `config` is what
-- the configuration is read from, `Ready` says that the rollback of this attempt, where it succeeds,
-- brings `before` back. Only the actuator changes what is looked at, and a restart does not.
pub record Contract {W D C : Type 0} (act : Actuator W) (health : Health W) (clock : Clock W)
    (view : W → D) (config : D → C) (Ready : D → Type 0) (before : C) : Type 0 where
  pub rollback_restores :
      (unit : Text) (w : W)
      → Ready (view w)
      → is_ok (act.rollback unit w).0 ≡ true
      → config (view (act.rollback unit w).1) ≡ before
  pub restart_keeps : (unit : Text) (w : W) → view (act.reload_restart unit w).1 ≡ view w
  pub commit_keeps : (w : W) → config (view (act.commit w).1) ≡ config (view w)
  pub healthy_keeps : (w : W) → view (health.healthy w).1 ≡ view w
  pub served_keeps : (w : W) → view (health.served w).1 ≡ view w
  pub warm_keeps : (w : W) → view (health.warm w) ≡ view w
  pub sleep_keeps : (t : ℕ) (w : W) → view (clock.sleep t w) ≡ view w

-- What the probe and the sleep keep, the whole loop keeps.
module _ {W D : Type 0} (clock : Clock W) (probe : W → Bool × W) (view : W → D)
    (probe_keeps : (w : W) → view (probe w).1 ≡ view w)
    (sleep_keeps : (t : ℕ) (w : W) → view (clock.sleep t w) ≡ view w) (attempts interval : ℕ) where
  keeps_if : (b : Bool) (w : W) → view (if b then clock.sleep interval w else w) ≡ view w
  keeps_if true w = sleep_keeps interval w
  keeps_if false w = refl

  after_probe_keeps :
      (i : ℕ) (rest : W → Bool × W)
      → ((w : W) → view (rest w).1 ≡ view w)
      → (r : Bool × W) → view (after_probe clock probe attempts interval i rest r).1 ≡ view r.1
  after_probe_keeps i rest keeps (true, w) = refl
  after_probe_keeps i rest keeps (false, w) = keeps _ ∙ keeps_if (ltb (i + 1) attempts) w

  pub poll_from_keeps :
      (i left : ℕ) (w : W) → view (poll_from clock probe attempts interval i left w).1 ≡ view w
  unfolding poll_from
  poll_from_keeps i zero w = refl
  poll_from_keeps i (suc left) w =
      after_probe_keeps i (poll_from clock probe attempts interval (i + 1) left)
        (poll_from_keeps (i + 1) left) (probe w)
      ∙ probe_keeps w

module _ {W D C : Type 0} {act : Actuator W} {health : Health W} {clock : Clock W} {view : W → D}
    {config : D → C} {Ready : D → Type 0} {before : C}
    (contract : Contract act health clock view config Ready before) where
  open contract use {healthy_keeps, sleep_keeps}

  pub poll_keeps : (opts : SwapOpts) (w : W) → view (poll_health clock health opts w).1 ≡ view w
  unfolding poll_health
  poll_keeps opts w =
      poll_from_keeps clock health.healthy view healthy_keeps sleep_keeps opts.health_attempts
        opts.health_interval 0 opts.health_attempts w
