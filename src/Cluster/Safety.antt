-- ===== src/Cluster/Safety.antt =====
-- src/cluster.rs: a cluster never half-forms. Every worker that `up` started is stopped unless the
-- cluster is up.
use llmtune.Prelude.{
  ℕ, ◌≡◌, ◌∙◌, refl, ap, ◌⊎◌, inl, inr, Bool, true, false, List, [], Outcome, ok, err, Text,
  if◌then◌else◌,
}
use llmtune.Build.{Fs}
use llmtune.Config.{Node}
use llmtune.Model.{Model}
use llmtune.Profile.{Profile}
use llmtune.Swap.Seams.{Actuator, Health, Clock, SwapOpts, and_then, poll_health}
use llmtune.Swap.Contract.{poll_from_keeps}
use llmtune.Swap.Core.{install, revert}
use llmtune.Cluster.Up.{
  ClusterOutcome, WorkerCtl, Console, start_workers, accept_workers, head_committed, head_rolled,
  head_polled, head_installed, after_accepts, after_starts, up,
}
use llmtune.Cluster.Tally.{
  Tally, same, tally_workers, tally_console, tally_actuator, tally_health, tally_clock, counts,
}
use llmtune.Cluster.Started.{Started, torn_down, start_workers-Started, accept_workers-Started}

-- What may have been started and stopped when `up` returns.
abbrev pub IsWhole :
    {W : Type 0} → Actuator W → List Node → Outcome ClusterOutcome → List Node × List Node → Type 0
IsWhole act workers (ok o) (started, ended) =
    (o.formed ≡ true) × (started ≡ workers) × (ended ≡ []) ⊎ (o.formed ≡ false) × (ended ≡ started)
IsWhole {W} act workers (err e) (started, ended) =
    (ended ≡ started) ⊎ ((w : W) × ((act.commit w).0 ≡ err e) × (started ≡ workers) × (ended ≡ []))

module _ {W : Type 0} (workers_ctl : WorkerCtl W) (consoles : Console W) (clocks : Clock W) where
  abbrev console : Console (Tally W)
  console = tally_console consoles

  abbrev clock : Clock (Tally W)
  clock = tally_clock clocks

  abbrev wctl : WorkerCtl (Tally W)
  wctl = tally_workers workers_ctl

  counts-poll_health :
      (healths : Health W) (opts : SwapOpts) (s : Tally W)
      → counts (poll_health clock (tally_health healths) opts s).1 ≡ counts s
  unfolding poll_health
  counts-poll_health healths opts s =
      poll_from_keeps clock (tally_health healths).healthy counts (λ t. refl) (λ d t. refl)
        opts.health_attempts opts.health_interval 0 opts.health_attempts s

  -- A chain of two calls of the head's actuator.
  counts-and_then :
      (s : Tally W) (r : Outcome (Unit {0}) × W) (k : Tally W → Outcome (Unit {0}) × Tally W)
      → ((t : Tally W) → counts (k t).1 ≡ counts t)
      → counts (and_then (same s r) k).1 ≡ counts s
  counts-and_then s (ok x, w) k h = h (w, s.1, s.2)
  counts-and_then s (err e, w) k h = refl

  module _ (actuator : Actuator W) (healths : Health W) (fs : Fs) (state_dir : Text)
      (cluster_name head_unit : Text) (model : Model) (profile : Profile) (workers : List Node)
      (port : ℕ) (rpc_bin bind : Text) (opts : SwapOpts) where
    abbrev act : Actuator (Tally W)
    act = tally_actuator actuator

    abbrev health : Health (Tally W)
    health = tally_health healths

    abbrev Whole : Outcome ClusterOutcome × Tally W → Type 0
    Whole out = IsWhole actuator workers out.0 (counts out.1)

    counts-revert : (s : Tally W) → counts (revert act health clock head_unit s).1 ≡ counts s
    unfolding revert
    counts-revert s = counts-and_then s (actuator.rollback head_unit s.0) _ (λ t. refl)

    counts-install :
        (dropin : Text) (s : Tally W)
        → counts (install act health clock head_unit dropin s).1 ≡ counts s
    unfolding install
    counts-install dropin s = counts-and_then s (actuator.stage head_unit dropin s.0) _ (λ t. refl)

    head_rolled-Whole :
        (r : Outcome (Unit {0}) × Tally W)
        → counts r.1 ≡ (workers, [])
        → Whole (
            head_rolled wctl console clock act health fs state_dir cluster_name head_unit model
              profile workers port rpc_bin bind opts r)
    head_rolled-Whole (ok x, s) e =
        inr (refl, torn_down workers_ctl consoles clocks workers port s e)
    head_rolled-Whole (err m, s) e = inl (torn_down workers_ctl consoles clocks workers port s e)

    head_committed-Whole :
        (s : Tally W)
        → counts s ≡ (workers, [])
        → (w : W) (r : Outcome (Unit {0}) × W) → (actuator.commit w) ≡ r
        → Whole (
            head_committed wctl console clock act health fs state_dir cluster_name head_unit model
              profile workers port rpc_bin bind opts
              (same s r))
    head_committed-Whole s e w (ok x, v) h = inl (refl, ap (λ c. c.0) e, ap (λ c. c.1) e)
    head_committed-Whole s e w (err m, v) h =
        inr (w, ap (λ r. r.0) h, ap (λ c. c.0) e, ap (λ c. c.1) e)

    counts-warm_if : (b : Bool) (s : Tally W) → counts (if b then health.warm s else s) ≡ counts s
    counts-warm_if true s = refl
    counts-warm_if false s = refl

    head_polled-Whole :
        (r : Bool × Tally W)
        → counts r.1 ≡ (workers, [])
        → Whole (
            head_polled wctl console clock act health fs state_dir cluster_name head_unit model
              profile workers port rpc_bin bind opts r)
    unfolding head_polled
    head_polled-Whole (true, s) e =
        head_committed-Whole (if opts.prewarm then health.warm s else s)
          (counts-warm_if opts.prewarm s ∙ e) _ _ refl
    head_polled-Whole (false, s) e =
        head_rolled-Whole (revert act health clock head_unit s) (counts-revert s ∙ e)

    head_installed-Whole :
        (r : Outcome (Unit {0}) × Tally W)
        → counts r.1 ≡ (workers, [])
        → Whole (
            head_installed wctl console clock act health fs state_dir cluster_name head_unit model
              profile workers port rpc_bin bind opts r)
    unfolding head_installed
    head_installed-Whole (err m, s) e = inl (torn_down workers_ctl consoles clocks workers port s e)
    head_installed-Whole (ok x, s) e =
        head_polled-Whole (poll_health clock health opts s) (counts-poll_health healths opts s ∙ e)

    after_accepts-Whole :
        (r : Outcome (Unit {0}) × Tally W)
        → Started workers_ctl consoles clocks workers r
        → Whole (
            after_accepts wctl console clock act health fs state_dir cluster_name head_unit model
              profile workers port rpc_bin bind opts r)
    unfolding after_accepts
    after_accepts-Whole (err m, s) e = inr (refl, e)
    after_accepts-Whole (ok x, s) e = head_installed-Whole _ (counts-install _ s ∙ e)

    after_starts-Whole :
        (r : Outcome (Unit {0}) × Tally W)
        → Started workers_ctl consoles clocks workers r
        → Whole (
            after_starts wctl console clock act health fs state_dir cluster_name head_unit model
              profile workers port rpc_bin bind opts r)
    unfolding after_starts
    after_starts-Whole (err m, s) e = inr (refl, e)
    after_starts-Whole (ok x, s) e =
        after_accepts-Whole (accept_workers wctl console clock workers port opts workers s)
          (accept_workers-Started workers_ctl consoles clocks workers port opts workers s e)

    -- Whatever the workers, the actuator and the probes answer: where `up` reports a cluster that
    -- formed, all workers were started, in order, and none was told to stop. Where it reports one
    -- that did not form, the workers that were told to stop are those that started, in order. So
    -- too where it returns an error, unless a commit gave that error: then all were started and
    -- none was told to stop.
    pub up-IsWhole :
        (w : W)
        → let out =
            up wctl console clock act health fs state_dir cluster_name head_unit model profile
              workers port rpc_bin bind opts
              (w, [], []) in
          IsWhole actuator workers out.0 (out.1.1, out.1.2)
    unfolding up
    up-IsWhole w =
        after_starts-Whole
          (start_workers wctl console clock port rpc_bin bind [] workers (w, [], []))
          (start_workers-Started workers_ctl consoles clocks port rpc_bin bind [] workers workers
            refl (w, [], []) refl)
