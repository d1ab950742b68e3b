-- ===== src/Swap/Core/Calls.antt =====
-- src/swap.rs: the order in which `swap` calls its actuator, whatever the calls and probes answer.
use llmtune.Prelude.{
  ℕ, ◌≡◌, ◌∙◌, refl, sym, ap, subst, append_assoc, ◌⊎◌, inl, inr, Bool, true, false, Option, none,
  some, List, [], ◌∷◌, ◌++◌, Outcome, ok, err, is_ok, Text, Bool-cases, contains, codes,
  if◌then◌else◌, text_eq,
}
use llmtune.Build.{Fs}
use llmtune.Model.{Model}
use llmtune.Profile.{Profile, launch}
use llmtune.Swap.Seams.{Actuator, Health, Clock, SwapOpts, and_then, poll_health}
use llmtune.Swap.Contract.{poll_from_keeps}
use llmtune.Swap.Core.{
  SwapOutcome, serves, revert, install, after_refusal, after_other_model, finish, committed,
  after_failed_poll, verify, after_poll, after_install, swap, swap_dropin,
}

-- A call of the actuator, with whether it succeeded.
pub data Call : Type 0 where
  stage rollback commit restart : Bool → Call

-- A machine with a record of the actuator's calls, the last one at the end.
abbrev pub Logged : Type 0 → Type 0
Logged W = W × List Call

abbrev note :
    {W : Type 0}
    → (Bool → Call)
    → List Call
    → Outcome (Unit {0}) × W
    → Outcome (Unit {0}) × Logged W
note c calls (r, w) = (r, (w, calls ++ c (is_ok r) ∷ []))

abbrev seen : {W A : Type 0} → List Call → A × W → A × Logged W
seen calls (a, w) = (a, (w, calls))

abbrev pub logged_actuator : {W : Type 0} → Actuator W → Actuator (Logged W)
logged_actuator act = record {
  stage = λ unit dropin s. note stage s.1 (act.stage unit dropin s.0);
  rollback = λ unit s. note rollback s.1 (act.rollback unit s.0);
  commit = λ s. note commit s.1 (act.commit s.0);
  reload_restart = λ unit s. note restart s.1 (act.reload_restart unit s.0);
}

abbrev pub logged_health : {W : Type 0} → Health W → Health (Logged W)
logged_health health = record {
  healthy = λ s. seen s.1 (health.healthy s.0);
  served = λ s. seen s.1 (health.served s.0);
  warm = λ s. (health.warm s.0, s.1);
}

abbrev pub logged_clock : {W : Type 0} → Clock W → Clock (Logged W)
logged_clock clock = record { sleep = λ t s. (clock.sleep t s.0, s.1); now = λ s. clock.now s.0 }

-- The calls of an attempt: staging, and the restart where, and only where, staging succeeded.
abbrev pub Installs : List Call → Type 0
Installs calls = (calls ≡ stage false ∷ []) ⊎ ((b : Bool) × (calls ≡ stage true ∷ restart b ∷ []))

-- `before` and then a revert: a rollback, and a restart where, and only where, it succeeded. It has
-- reverted where both did.
abbrev pub Reverts : Bool → List Call → List Call → Type 0
Reverts reverted before calls =
    (calls ≡ before ++ rollback true ∷ restart reverted ∷ [])
    ⊎ (reverted ≡ false) × (calls ≡ before ++ rollback false ∷ [])

-- What a swap has called that had something to install and a binary to launch.
abbrev pub IsAttempt : Outcome SwapOutcome → List Call → Type 0
IsAttempt (err e) calls = calls ≡ stage true ∷ restart true ∷ commit false ∷ []
IsAttempt (ok o) calls =
    (o.done ≡ true) × (calls ≡ stage true ∷ restart true ∷ commit true ∷ [])
    ⊎ (o.done ≡ false) × ((before : List Call) × Installs before × Reverts o.reverted before calls)

-- What a swap has called when it returns, by whether the model was served already and whether the
-- launch names a path.
abbrev pub IsLegal : Bool → Bool → Outcome SwapOutcome → List Call → Type 0
IsLegal true path (ok o) calls = (o.done ≡ true) × (calls ≡ [])
IsLegal true path (err e) calls = ⊥
IsLegal false false (ok o) calls = ⊥
IsLegal false false (err e) calls = calls ≡ []
IsLegal false true r calls = IsAttempt r calls

module _ {W : Type 0} (actuator : Actuator W) (probes : Health W) (time : Clock W) where
  abbrev act : Actuator (Logged W)
  act = logged_actuator actuator

  abbrev health : Health (Logged W)
  health = logged_health probes

  abbrev clock : Clock (Logged W)
  clock = logged_clock time

  poll_log : (opts : SwapOpts) (s : Logged W) → (poll_health clock health opts s).1.1 ≡ s.1
  unfolding poll_health
  poll_log opts s =
      poll_from_keeps clock health.healthy (λ t. t.1) (λ t. refl) (λ n t. refl) opts.health_attempts
        opts.health_interval 0 opts.health_attempts s

  revert_note :
      (unit : Text) (calls : List Call) (r : Outcome (Unit {0}) × W)
      → let out = and_then (note rollback calls r) (act.reload_restart unit) in
        Reverts (is_ok out.0) calls out.1.1
  revert_note unit calls (ok x, w) = inl (append_assoc calls (rollback true ∷ []) (restart _ ∷ []))
  revert_note unit calls (err e, w) = inr (refl, refl)

  revert_calls :
      (unit : Text) (s : Logged W)
      → Reverts (is_ok (revert act health clock unit s).0) s.1 (revert act health clock unit s).1.1
  unfolding revert
  revert_calls unit s = revert_note unit s.1 (actuator.rollback unit s.0)

  install_note :
      (unit : Text) (r : Outcome (Unit {0}) × W)
      → let out = and_then (note stage [] r) (act.reload_restart unit) in
        Installs out.1.1 × (is_ok out.0 ≡ true → out.1.1 ≡ stage true ∷ restart true ∷ [])
  install_note unit (ok x, w) = (inr (_, refl), (λ p. ap (λ b. stage true ∷ restart b ∷ []) p))
  install_note unit (err e, w) = (inl refl, (λ p. cc))

  install_calls :
      (unit dropin : Text) (w : W)
      → let out = install act health clock unit dropin (w, []) in
        Installs out.1.1 × (is_ok out.0 ≡ true → out.1.1 ≡ stage true ∷ restart true ∷ [])
  unfolding install
  install_calls unit dropin w = install_note unit (actuator.stage unit dropin w)

  module _ (unit : Text) (model : Model) (opts : SwapOpts) (start : ℕ) (from : Option Text) where
    -- An outcome that is not done, on a machine where the revert has run.
    undone-IsAttempt :
        (s : Logged W)
        → Installs s.1
        → let out = revert act health clock unit s in
          (calls : List Call)
          → calls ≡ out.1.1
          → (before : List Call) × Installs before × Reverts (is_ok out.0) before calls
    undone-IsAttempt s h calls e = (
      s.1,
      h,
      subst (Reverts (is_ok (revert act health clock unit s).0) s.1) (sym e) (revert_calls unit s),
    )

    after_refusal-IsAttempt :
        (e : Text) (s : Logged W)
        → Installs s.1
        → let out = after_refusal act health clock unit model opts start from e s in
          IsAttempt out.0 out.1.1
    unfolding after_refusal
    after_refusal-IsAttempt e s h = inr (refl, undone-IsAttempt s h _ (poll_log opts _))

    after_other_model-IsAttempt :
        (t : Text) (s : Logged W)
        → Installs s.1
        → let out = after_other_model act health clock unit model opts start from t s in
          IsAttempt out.0 out.1.1
    unfolding after_other_model
    after_other_model-IsAttempt t s h = inr (refl, undone-IsAttempt s h _ (poll_log opts _))

    committed-note :
        (calls : List Call) (r : Outcome (Unit {0}) × W)
        → calls ≡ stage true ∷ restart true ∷ []
        → let out = committed act health clock unit model opts start from (note commit calls r) in
          IsAttempt out.0 out.1.1
    committed-note calls (ok x, w) h = inl (refl, ap (λ l. l ++ commit true ∷ []) h)
    committed-note calls (err e, w) h = ap (λ l. l ++ commit false ∷ []) h

    warm_if_log : (b : Bool) (s : Logged W) → (if b then health.warm s else s).1 ≡ s.1
    warm_if_log true s = refl
    warm_if_log false s = refl

    finish-IsAttempt :
        (s : Logged W)
        → s.1 ≡ stage true ∷ restart true ∷ []
        → let out = finish act health clock unit model opts start from s in IsAttempt out.0 out.1.1
    unfolding finish
    finish-IsAttempt s h = committed-note _ _ (warm_if_log opts.prewarm s ∙ h)

    verify-IsAttempt :
        (r : Option Text × Logged W)
        → r.1.1 ≡ stage true ∷ restart true ∷ []
        → let out = verify act health clock unit model opts start from r in IsAttempt out.0 out.1.1
    unfolding verify
    verify-IsAttempt (none, s) h = finish-IsAttempt s h
    verify-IsAttempt (some t, s) h = elim (Bool-cases (text_eq t model.name)) [
      | inl same ↦ rw same (finish-IsAttempt s h)
      | inr other ↦ rw other (after_other_model-IsAttempt t s (inr (true, h)))
    ]

    after_failed_poll-IsAttempt :
        (b : Bool) (s : Logged W)
        → ((before : List Call) × Installs before × Reverts b before s.1)
        → let out = after_failed_poll act health clock unit model opts start from b s in
          IsAttempt out.0 out.1.1
    after_failed_poll-IsAttempt true s h = inr (refl, h)
    after_failed_poll-IsAttempt false s h = inr (refl, h)

    after_poll-IsAttempt :
        (r : Bool × Logged W)
        → r.1.1 ≡ stage true ∷ restart true ∷ []
        → let out = after_poll act health clock unit model opts start from r in
          IsAttempt out.0 out.1.1
    unfolding after_poll
    after_poll-IsAttempt (true, s) h = verify-IsAttempt (health.served s) h
    after_poll-IsAttempt (false, s) h =
        after_failed_poll-IsAttempt (is_ok (revert act health clock unit s).0) _
          (undone-IsAttempt s (inr (true, h)) _ (poll_log opts _))

    after_install-IsAttempt :
        (r : Outcome (Unit {0}) × Logged W)
        → Installs r.1.1
        → (is_ok r.0 ≡ true → r.1.1 ≡ stage true ∷ restart true ∷ [])
        → let out = after_install act health clock unit model opts start from r in
          IsAttempt out.0 out.1.1
    unfolding after_install
    after_install-IsAttempt (err e, s) h k = after_refusal-IsAttempt e s h
    after_install-IsAttempt (ok x, s) h k =
        after_poll-IsAttempt (poll_health clock health opts s) (poll_log opts s ∙ k refl)

  -- Whatever the actuator and the probes answer, a swap calls the actuator in one of these orders.
  -- Where the model is served already: nothing, and the outcome is done. Where it is not, and the
  -- launch names no path: nothing, and an error. Otherwise it stages, and restarts where staging
  -- succeeded. Where both succeeded it may then commit: the outcome is done where the commit
  -- succeeded, and an error where it was refused. In all other cases the outcome is not done, and
  -- it has rolled back, restarted again where the rollback succeeded, and says that it reverted
  -- exactly where both succeeded. So an outcome that is not done has never committed, and one that
  -- is done has never rolled back.
  pub swap_calls :
      (fs : Fs) (state_dir unit : Text) (model : Model) (profile : Profile) (flags : Text)
      (opts : SwapOpts) (w : W)
      → let out = swap act health clock fs state_dir unit model profile flags opts (w, []) in
        IsLegal
          (serves (probes.served w).0 model.name)
          (contains (launch fs state_dir profile).0 (codes "/"))
          out.0
          out.1.1
  unfolding swap
  swap_calls fs state_dir unit model profile flags opts w =
      elim (Bool-cases (serves (probes.served w).0 model.name)) [
        | inl same ↦ rw same (refl, refl)
        | inr other ↦ elim (Bool-cases (contains (launch fs state_dir profile).0 (codes "/"))) [
          | inl path ↦
              rw (other, path)
                (let (installs, whole) =
                    install_calls unit (swap_dropin fs state_dir model profile flags opts)
                      (probes.served w).1 in
                  after_install-IsAttempt unit model opts (time.now w) (probes.served w).0 _
                    installs whole)
          | inr bare ↦ rw (other, bare) refl
        ]
      ]
