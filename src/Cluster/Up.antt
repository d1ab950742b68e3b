-- ===== src/Cluster/Up.antt =====
-- src/cluster.rs: `teardown`, `poll_accept` and `up`.
use llmtune.Prelude.{
  ℕ, Bool, true, false, List, [], ◌∷◌, ◌++◌, Outcome, ok, err, Text, codes, map, show, length,
  if◌then◌else◌,
}
use llmtune.Build.{Fs}
use llmtune.Config.{Node}
use llmtune.Model.{Model}
use llmtune.Profile.{Profile, launch}
use llmtune.Swap.Seams.{Actuator, Health, Clock, SwapOpts, poll, poll_health}
use llmtune.Swap.Core.{install, revert}
use llmtune.Swap.Env.{render_dropin}
use llmtune.Swap.Flags.{adjust_flags}
use llmtune.Cluster.Parity.{worker_endpoint, inject_rpc}

pub record ClusterOutcome : Type 0 where
  pub name : Text
  pub formed : Bool
  pub reverted : Bool
  pub model : Text
  pub workers_up : List Text
  pub detail : Text

-- `trait WorkerCtl`
pub record WorkerCtl (W : Type 0) : Type 0 where
  pub start : Node → ℕ → Text → Text → W → Outcome (Unit {0}) × W
  pub stop : Node → ℕ → W → Outcome (Unit {0}) × W
  pub accepting : Node → ℕ → W → Bool × W

-- `eprintln`
pub record Console (W : Type 0) : Type 0 where
  pub eprint : Text → W → W

abbrev pub node_name : Node → Text
node_name n = n.name

abbrev pub with_failure : Text → Outcome (Unit {0}) → List (Text × Text) → List (Text × Text)
with_failure name (ok x) failed = failed
with_failure name (err e) failed = (name, e) ∷ failed

abbrev pub warning : ℕ → Text × Text → Text
warning port (name, e) =
    codes "WARNING: could not stop rpc-server on worker `"
    ++ (name
        ++ (codes "` ("
            ++ (e
                ++ (codes
                      ") - an UNAUTHENTICATED rpc-server may still be running there (stop it: `systemctl stop llmtune-rpc-"
                    ++ (show port ++ codes "` on the worker)")))))

module _ {W : Type 0} (wctl : WorkerCtl W) (console : Console W) (clock : Clock W) where
  unfoldable pub teardown : List Node → ℕ → W → List (Text × Text) × W
  teardown [] port w = ([], w)
  teardown (n ∷ nodes) port w =
      let (r, w₁) = wctl.stop n port w in
      let (failed, w₂) = teardown nodes port w₁ in (with_failure n.name r failed, w₂)

  unfoldable pub warn_all : ℕ → List (Text × Text) → W → W
  unfolding show
  warn_all port [] w = w
  warn_all port (f ∷ failed) w = warn_all port failed (console.eprint (warning port f) w)

  unfoldable pub teardown_warn : List Node → ℕ → W → W
  unfolding teardown warn_all
  teardown_warn nodes port w = let (failed, w₁) = teardown nodes port w in warn_all port failed w₁

  unfoldable pub poll_accept : Node → ℕ → SwapOpts → W → Bool × W
  unfolding poll
  poll_accept n port opts w =
      poll clock (wctl.accepting n port) opts.health_attempts opts.health_interval w

  module _ (port : ℕ) (rpc_bin bind : Text) where
    -- What follows the start of `n`, after the workers `before`; `rest` starts the others.
    abbrev pub after_start :
        List Node
        → Node
        → (W → Outcome (Unit {0}) × W)
        → Outcome (Unit {0}) × W
        → Outcome (Unit {0}) × W
    after_start before n rest (ok x, w) = rest w
    after_start before n rest (err e, w) = (
      err (codes "worker `" ++ (n.name ++ (codes "` failed to start rpc-server: " ++ e))),
      teardown_warn before port w,
    )

    -- Step 1 of `up`; the error is the detail of the failure.
    unfoldable pub start_workers : List Node → List Node → W → Outcome (Unit {0}) × W
    unfolding teardown_warn
    start_workers before [] w = (ok tt, w)
    start_workers before (n ∷ nodes) w =
        after_start before n (start_workers (before ++ n ∷ []) nodes)
          (wctl.start n port rpc_bin bind w)

  module _ (workers : List Node) (port : ℕ) (opts : SwapOpts) where
    abbrev pub after_accept :
        Node → (W → Outcome (Unit {0}) × W) → Bool × W → Outcome (Unit {0}) × W
    after_accept n rest (true, w) = rest w
    after_accept n rest (false, w) = (
      err (
          codes "worker `"
          ++ (n.name
              ++ (codes "` ("
                  ++ (worker_endpoint n port ++ codes ") never accepted on its RPC port")))),
      teardown_warn workers port w,
    )

    -- Step 2 of `up`, on the workers that are left.
    unfoldable pub accept_workers : List Node → W → Outcome (Unit {0}) × W
    unfolding teardown_warn poll_accept worker_endpoint
    accept_workers [] w = (ok tt, w)
    accept_workers (n ∷ nodes) w = after_accept n (accept_workers nodes) (poll_accept n port opts w)

  module _ (act : Actuator W) (health : Health W) (fs : Fs) (state_dir : Text)
      (cluster_name head_unit : Text) (model : Model) (profile : Profile) (workers : List Node)
      (port : ℕ) (rpc_bin bind : Text) (opts : SwapOpts) where
    abbrev pub failure : Text → ClusterOutcome
    failure detail = record {
      name = cluster_name;
      formed = false;
      reverted = true;
      model = model.name;
      workers_up = [];
      detail = detail;
    }

    abbrev pub success : ClusterOutcome
    success = record {
      name = cluster_name;
      formed = true;
      reverted = false;
      model = model.name;
      workers_up = map node_name workers;
      detail =
          codes "cluster `"
          ++ (cluster_name
              ++ (codes "` up: head serving `"
                  ++ (model.name
                      ++ (codes "` across " ++ (show (length workers) ++ codes " worker(s)")))));
    }

    -- The drop-in of step 3.
    unfoldable pub head_dropin : Text
    unfolding launch render_dropin adjust_flags inject_rpc worker_endpoint
    head_dropin =
        let (bin, ld) = launch fs state_dir profile in
        render_dropin profile bin ld
          (inject_rpc (adjust_flags profile model) (map (λ n. worker_endpoint n port) workers))
          model.path opts.host opts.port opts.base_env

    abbrev pub head_committed : Outcome (Unit {0}) × W → Outcome ClusterOutcome × W
    head_committed (ok x, w) = (ok success, w)
    head_committed (err e, w) = (err e, w)

    abbrev pub head_rolled : Outcome (Unit {0}) × W → Outcome ClusterOutcome × W
    head_rolled (err e, w) = (err e, teardown_warn workers port w)
    head_rolled (ok x, w) = (
      ok (
          failure (
            codes "head failed to come up serving `"
            ++ (model.name
                ++ (codes "` - reverted head and stopped "
                    ++ (show (length workers) ++ codes " worker(s)"))))),
      teardown_warn workers port w,
    )

    unfoldable pub head_polled : Bool × W → Outcome ClusterOutcome × W
    unfolding revert teardown_warn show
    head_polled (true, w) = head_committed (act.commit (if opts.prewarm then health.warm w else w))
    head_polled (false, w) = head_rolled (revert act health clock head_unit w)

    unfoldable pub head_installed : Outcome (Unit {0}) × W → Outcome ClusterOutcome × W
    unfolding head_polled poll_health teardown_warn
    head_installed (err e, w) = (err e, teardown_warn workers port w)
    head_installed (ok x, w) = head_polled (poll_health clock health opts w)

    unfoldable pub after_accepts : Outcome (Unit {0}) × W → Outcome ClusterOutcome × W
    unfolding head_installed install head_dropin
    after_accepts (err detail, w) = (ok (failure detail), w)
    after_accepts (ok x, w) = head_installed (install act health clock head_unit head_dropin w)

    unfoldable pub after_starts : Outcome (Unit {0}) × W → Outcome ClusterOutcome × W
    unfolding after_accepts accept_workers
    after_starts (err detail, w) = (ok (failure detail), w)
    after_starts (ok x, w) = after_accepts (accept_workers workers port opts workers w)

    unfoldable pub up : W → Outcome ClusterOutcome × W
    unfolding after_starts start_workers
    up w = after_starts (start_workers port rpc_bin bind [] workers w)
