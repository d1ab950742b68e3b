-- ===== src/Swap/Core/Revert.antt =====
-- src/swap.rs: what a swap leaves as the configuration, over an actuator that keeps its contract.
use llmtune.Prelude.{
  ℕ, ◌≡◌, ◌∙◌, refl, sym, ap, subst, Bool, true, false, Option, none, some, Outcome, ok, err, is_ok,
  Text, if◌then◌else◌, text_eq, Bool-cases, inl, inr,
}
use llmtune.Model.{Model}
use llmtune.Swap.Seams.{Actuator, Health, Clock, SwapOpts, and_then, poll_health}
use llmtune.Swap.Contract.{Contract, poll_keeps}
use llmtune.Swap.Core.{
  SwapOutcome, revert, install, after_refusal, after_other_model, finish, committed,
  after_failed_poll, verify, after_poll, after_install,
}

-- The configuration `c` that an attempt to go from `before` to `after` leaves, by its outcome.
abbrev pub Leaves : {C : Type 0} → C → C → C → Outcome SwapOutcome → Type 0
Leaves before after c (err e) = c ≡ after
Leaves before after c (ok o) =
    (o.done ≡ true → c ≡ after) × (o.done ≡ false → o.reverted ≡ true → c ≡ before)

-- The same of a result and the machine behind it.
abbrev pub Ends : {W C : Type 0} → (W → C) → C → C → Outcome SwapOutcome × W → Type 0
Ends config before after out = Leaves before after (config out.1) out.0

module _ {W D C : Type 0} {act : Actuator W} {health : Health W} {clock : Clock W} {view : W → D}
    {config : D → C} {Ready : D → Type 0} {before : C}
    (contract : Contract act health clock view config Ready before) where
  open contract use {rollback_restores, restart_keeps, commit_keeps, served_keeps, warm_keeps}

  abbrev now : W → C
  now w = config (view w)

  -- A revert that is reported done has restored what was there.
  and_then-restores :
      (unit : Text) (r : Outcome (Unit {0}) × W)
      → (is_ok r.0 ≡ true → now r.1 ≡ before)
      → is_ok (and_then r (act.reload_restart unit)).0 ≡ true
      → now (and_then r (act.reload_restart unit)).1 ≡ before
  and_then-restores unit (ok x, w) h done = ap config (restart_keeps unit w) ∙ h refl
  and_then-restores unit (err e, w) h done = cc

  revert-restores :
      (unit : Text) (w : W)
      → Ready (view w)
      → is_ok (revert act health clock unit w).0 ≡ true
      → now (revert act health clock unit w).1 ≡ before
  unfolding revert
  revert-restores unit w h =
      and_then-restores unit (act.rollback unit w) (rollback_restores unit w h)

  -- A stage from which a rollback restores, and then the restart.
  and_then-ready :
      (unit : Text) (r : Outcome (Unit {0}) × W)
      → Ready (view r.1)
      → let out = and_then r (act.reload_restart unit) in
        Ready (view out.1) × (is_ok out.0 ≡ true → now out.1 ≡ now r.1)
  and_then-ready unit (ok x, w) h =
      (subst Ready (sym (restart_keeps unit w)) h, (λ _. ap config (restart_keeps unit w)))
  and_then-ready unit (err e, w) h = (h, (λ p. cc))

  pub install-ready :
      (unit dropin : Text) (w : W)
      → Ready (view (act.stage unit dropin w).1)
      → let out = install act health clock unit dropin w in
        Ready (view out.1) × (is_ok out.0 ≡ true → now out.1 ≡ now (act.stage unit dropin w).1)
  unfolding install
  install-ready unit dropin w h = and_then-ready unit (act.stage unit dropin w) h

  module _ (unit : Text) (model : Model) (opts : SwapOpts) (start : ℕ) (from : Option Text) where
    after_refusal-Leaves :
        (e : Text) (w : W) (after : C)
        → Ready (view w)
        → Ends now before after (after_refusal act health clock unit model opts start from e w)
    unfolding after_refusal
    after_refusal-Leaves e w after h = (
      (λ p. cc),
      (λ _ good. ap config (poll_keeps contract opts _) ∙ revert-restores unit w h good),
    )

    after_other_model-Leaves :
        (s : Text) (w : W) (after : C)
        → Ready (view w)
        → Ends now before after (after_other_model act health clock unit model opts start from s w)
    unfolding after_other_model
    after_other_model-Leaves s w after h = (
      (λ p. cc),
      (λ _ good. ap config (poll_keeps contract opts _) ∙ revert-restores unit w h good),
    )

    committed-Leaves :
        (r : Outcome (Unit {0}) × W) (after : C)
        → now r.1 ≡ after
        → Ends now before after (committed act health clock unit model opts start from r)
    committed-Leaves (ok x, w) after h = ((λ _. h), (λ p. cc))
    committed-Leaves (err e, w) after h = h

    warm_if_keeps : (b : Bool) (w : W) → now (if b then health.warm w else w) ≡ now w
    warm_if_keeps true w = ap config (warm_keeps w)
    warm_if_keeps false w = refl

    finish-Leaves :
        (w : W) (after : C)
        → now w ≡ after
        → Ends now before after (finish act health clock unit model opts start from w)
    unfolding finish
    finish-Leaves w after h =
        committed-Leaves _ after (commit_keeps _ ∙ warm_if_keeps opts.prewarm w ∙ h)

    verify-Leaves :
        (r : Option Text × W) (after : C)
        → Ready (view r.1)
        → now r.1 ≡ after
        → Ends now before after (verify act health clock unit model opts start from r)
    unfolding verify
    verify-Leaves (none, w) after h k = finish-Leaves w after k
    verify-Leaves (some s, w) after h k = elim (Bool-cases (text_eq s model.name)) [
      | inl same ↦ rw same (finish-Leaves w after k)
      | inr other ↦ rw other (after_other_model-Leaves s w after h)
    ]

    after_failed_poll-Leaves :
        (b : Bool) (w : W) (after : C)
        → (b ≡ true → now w ≡ before)
        → Ends now before after (after_failed_poll act health clock unit model opts start from b w)
    after_failed_poll-Leaves true w after h =
        ((λ p. cc), (λ _ _. ap config (served_keeps w) ∙ h refl))
    after_failed_poll-Leaves false w after h = ((λ p. cc), (λ _ p. cc))

    after_poll-Leaves :
        (r : Bool × W) (after : C)
        → Ready (view r.1)
        → now r.1 ≡ after
        → Ends now before after (after_poll act health clock unit model opts start from r)
    unfolding after_poll
    after_poll-Leaves (true, w) after h k =
        verify-Leaves (health.served w) after (subst Ready (sym (served_keeps w)) h)
          (ap config (served_keeps w) ∙ k)
    after_poll-Leaves (false, w) after h k =
        after_failed_poll-Leaves (is_ok (revert act health clock unit w).0) _ after
          (λ good. ap config (poll_keeps contract opts _) ∙ revert-restores unit w h good)

    pub after_install-Leaves :
        (r : Outcome (Unit {0}) × W) (after : C)
        → Ready (view r.1)
        → (is_ok r.0 ≡ true → now r.1 ≡ after)
        → Ends now before after (after_install act health clock unit model opts start from r)
    unfolding after_install
    after_install-Leaves (err e, w) after h k = after_refusal-Leaves e w after h
    after_install-Leaves (ok x, w) after h k =
        after_poll-Leaves (poll_health clock health opts w) after
          (subst Ready (sym (poll_keeps contract opts w)) h)
          (ap config (poll_keeps contract opts w) ∙ k refl)
