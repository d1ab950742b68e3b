-- ===== src/Swap/Core/Names.antt =====
-- src/swap.rs: every outcome of `swap` names the model that was asked for.
use llmtune.Prelude.{
  ◌≡◌, refl, Bool, true, false, not, Option, none, some, Outcome, ok, err, Text, text_eq, contains,
  codes, if◌then◌else◌, ℕ,
}
use llmtune.Build.{Fs}
use llmtune.Model.{Model}
use llmtune.Profile.{Profile, launch}
use llmtune.Swap.Seams.{Actuator, Health, Clock, SwapOpts, poll_health}
use llmtune.Swap.Core.{
  SwapOutcome, serves, committed, finish, verify, after_other_model, after_failed_poll,
  after_failed_load, after_poll, after_refusal, after_install, swap_from, swap,
}

-- The outcome is about the model of that name.
abbrev pub Names : Text → Outcome SwapOutcome → Type 0
Names name (ok o) = o.to ≡ name
Names name (err e) = Unit

if-Names :
    {W : Type 0} (name : Text) (b : Bool) (x y : Outcome SwapOutcome × W)
    → Names name x.0
    → Names name y.0
    → Names name (if b then x else y).0
if-Names name true x y h g = h
if-Names name false x y h g = g

module _ {W : Type 0} (act : Actuator W) (health : Health W) (clock : Clock W) where
  module _ (unit : Text) (model : Model) (opts : SwapOpts) (start : ℕ) (from : Option Text) where
    committed-Names :
        (r : Outcome (Unit {0}) × W)
        → Names model.name (committed act health clock unit model opts start from r).0
    committed-Names (ok x, w) = refl
    committed-Names (err e, w) = tt

    verify-Names :
        (r : Option Text × W)
        → Names model.name (verify act health clock unit model opts start from r).0
    unfolding verify finish after_other_model
    verify-Names (none, w) = committed-Names _
    verify-Names (some s, w) =
        if-Names model.name (not (text_eq s model.name)) _ _ refl (committed-Names _)

    failed-Names :
        (b : Bool) (w : W)
        → Names model.name (after_failed_poll act health clock unit model opts start from b w).0
    failed-Names true w = refl
    failed-Names false w = refl

    after_poll-Names :
        (r : Bool × W)
        → Names model.name (after_poll act health clock unit model opts start from r).0
    unfolding after_poll after_failed_load
    after_poll-Names (true, w) = verify-Names (health.served w)
    after_poll-Names (false, w) = failed-Names _ _

    after_install-Names :
        (r : Outcome (Unit {0}) × W)
        → Names model.name (after_install act health clock unit model opts start from r).0
    unfolding after_install after_refusal
    after_install-Names (err e, w) = refl
    after_install-Names (ok x, w) = after_poll-Names (poll_health clock health opts w)

  pub swap-Names :
      (fs : Fs) (state_dir unit : Text) (model : Model) (profile : Profile) (flags : Text)
      (opts : SwapOpts) (w : W)
      → Names model.name (swap act health clock fs state_dir unit model profile flags opts w).0
  unfolding swap swap_from
  swap-Names fs state_dir unit model profile flags opts w =
      if-Names model.name (serves (health.served w).0 model.name) _ _ refl (
        if-Names model.name (not (contains (launch fs state_dir profile).0 (codes "/"))) _ _ tt
          (after_install-Names unit model opts (clock.now w) (health.served w).0 _))
