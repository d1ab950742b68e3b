-- ===== src/Swap/Core/Restores.antt =====
-- src/swap.rs: what `swap` leaves as the configuration.
use llmtune.Prelude.{
  ◌≡◌, refl, ap, subst, Bool, true, false, Outcome, ok, err, is_ok, Text, Bool-cases, codes,
  contains, inl, inr,
}
use llmtune.Build.{Fs}
use llmtune.Model.{Model}
use llmtune.Profile.{Profile, launch}
use llmtune.Swap.Seams.{Actuator, Health, Clock, SwapOpts, and_then}
use llmtune.Swap.Contract.{Contract}
use llmtune.Swap.Core.{
  SwapOutcome, serves, already_served, no_binary, install, after_refusal, after_install, swap,
  swap_dropin,
}
use llmtune.Swap.Core.Revert.{Leaves, Ends, install-ready, after_install-Leaves}

module _ {W D C : Type 0} {act : Actuator W} {health : Health W} {clock : Clock W} {view : W → D}
    {config : D → C} {Ready : D → Type 0} {before : C}
    (contract : Contract act health clock view config Ready before) (fs : Fs) (state_dir : Text)
    (unit : Text) (model : Model) (profile : Profile) (flags : Text) (opts : SwapOpts) where
  abbrev runs : W → Outcome SwapOutcome × W
  runs w = swap act health clock fs state_dir unit model profile flags opts w

  -- Whether the profile's launch names a path.
  abbrev launchable : Bool
  launchable = contains (launch fs state_dir profile).0 (codes "/")

  -- The machine that the stage is run on, and what it leaves.
  abbrev pub after_stage : W → Outcome (Unit {0}) × W
  after_stage w =
      act.stage unit (swap_dropin fs state_dir model profile flags opts) (health.served w).1

  swap-Ends :
      (w : W)
      → serves (health.served w).0 model.name ≡ false
      → launchable ≡ true
      → Ready (view (after_stage w).1)
      → Ends (λ v. config (view v)) before (config (view (after_stage w).1)) (runs w)
  unfolding swap
  swap-Ends w other path ready =
      rw (other, path)
        (let (still, writes) =
            install-ready contract unit (swap_dropin fs state_dir model profile flags opts)
              (health.served w).1 ready in
          after_install-Leaves contract unit model opts (clock.now w) (health.served w).0 _ _ still
            writes)

  -- A swap that finds the model already served asks once, and changes nothing else.
  pub swap_served :
      (w : W)
      → serves (health.served w).0 model.name ≡ true
      → runs w ≡ (ok (already_served (health.served w).0 model.name), (health.served w).1)
  unfolding swap
  swap_served w same = rw same

  pub swap_no_binary :
      (w : W)
      → serves (health.served w).0 model.name ≡ false
      → launchable ≡ false
      → runs w ≡ (err (no_binary profile), (health.served w).1)
  unfolding swap
  swap_no_binary w other bare = rw (other, bare)

  Ends-at :
      {after : C} (w : W) (o : SwapOutcome)
      → (runs w).0 ≡ ok o
      → Ends (λ v. config (view v)) before after (runs w)
      → Leaves before after (config (view (runs w).1)) (ok o)
  Ends-at {after} w o returned ends =
      subst (Leaves before after (config (view (runs w).1))) returned ends

  -- A swap whose stage is refused is not done.
  abbrev is_done : Outcome SwapOutcome → Bool
  is_done (ok o) = o.done
  is_done (err e) = false

  refused-undone :
      (w : W) (r : Outcome (Unit {0}) × W)
      → is_ok r.0 ≡ false
      → is_done
          (after_install act health clock unit model opts
            (clock.now w)
            (health.served w).0
            (and_then r (act.reload_restart unit))).0
        ≡ false
  unfolding after_install after_refusal
  refused-undone w (ok x, v) h = cc
  refused-undone w (err e, v) h = refl

  swap-refused :
      (w : W)
      → serves (health.served w).0 model.name ≡ false
      → launchable ≡ true
      → is_ok (after_stage w).0 ≡ false
      → is_done (runs w).0 ≡ false
  unfolding swap install
  swap-refused w other path refused = rw (other, path) (refused-undone w (after_stage w) refused)

  -- A swap that is done has staged.
  pub done-staged :
      (w : W) (o : SwapOutcome)
      → serves (health.served w).0 model.name ≡ false
      → (runs w).0 ≡ ok o
      → o.done ≡ true
      → is_ok (after_stage w).0 ≡ true
  done-staged w o other returned done = elim (Bool-cases (is_ok (after_stage w).0)) [
    | inl staged ↦ staged
    | inr refused ↦ elim (Bool-cases launchable) [
      | inl path ↦ cc (swap-refused w other path refused, ap is_done returned)
      | inr bare ↦ cc (swap_no_binary w other bare)
    ]
  ]

  pub swap_reverted :
      (w : W) (o : SwapOutcome)
      → Ready (view (after_stage w).1)
      → (runs w).0 ≡ ok o
      → o.done ≡ false
      → o.reverted ≡ true
      → config (view (runs w).1) ≡ before
  swap_reverted w o ready returned undone reverted =
      elim (Bool-cases (serves (health.served w).0 model.name)) [
        | inl same ↦ cc (swap_served w same)
        | inr other ↦ elim (Bool-cases launchable) [
          | inl path ↦ (Ends-at w o returned (swap-Ends w other path ready)).1 undone reverted
          | inr bare ↦ cc (swap_no_binary w other bare)
        ]
      ]

  pub swap_done :
      (w : W) (o : SwapOutcome)
      → Ready (view (after_stage w).1)
      → serves (health.served w).0 model.name ≡ false
      → (runs w).0 ≡ ok o
      → o.done ≡ true
      → config (view (runs w).1) ≡ config (view (after_stage w).1)
  swap_done w o ready other returned done = elim (Bool-cases launchable) [
    | inl path ↦ (Ends-at w o returned (swap-Ends w other path ready)).0 done
    | inr bare ↦ cc (swap_no_binary w other bare)
  ]
