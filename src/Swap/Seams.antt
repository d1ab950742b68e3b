-- ===== src/Swap/Seams.antt =====
-- src/swap.rs: the seams of a swap, `Actuator` and `Health`, and the polling of a probe.
-- `W` is the machine and all that surrounds it: each call may change it.
use llmtune.Prelude.{
  ℕ, zero, suc, ◌+◌, ltb, Bool, true, false, Option, Outcome, ok, err, Text, Map, if◌then◌else◌,
}

-- `trait Actuator`
pub record Actuator (W : Type 0) : Type 0 where
  pub stage : Text → Text → W → Outcome (Unit {0}) × W
  pub rollback : Text → W → Outcome (Unit {0}) × W
  pub commit : W → Outcome (Unit {0}) × W
  pub reload_restart : Text → W → Outcome (Unit {0}) × W

-- `trait Health`
pub record Health (W : Type 0) : Type 0 where
  pub healthy : W → Bool × W
  pub served : W → Option Text × W
  pub warm : W → W

-- `thread::sleep` and `Instant::now`, in nanoseconds.
pub record Clock (W : Type 0) : Type 0 where
  pub sleep : ℕ → W → W
  pub now : W → ℕ

pub record SwapOpts : Type 0 where
  pub host : Text
  pub port : ℕ
  pub health_attempts : ℕ
  pub health_interval : ℕ
  pub prewarm : Bool
  pub base_env : Map Text

-- `a.and_then(|()| b)` where both act on the machine.
abbrev pub and_then :
    {W : Type 0} → Outcome (Unit {0}) × W → (W → Outcome (Unit {0}) × W) → Outcome (Unit {0}) × W
and_then (ok x, w) k = k w
and_then (err e, w) k = (err e, w)

module _ {W : Type 0} (clock : Clock W) (probe : W → Bool × W) (attempts interval : ℕ) where
  -- What follows the probe of round `i`; `rest` is the next round.
  abbrev pub after_probe : ℕ → (W → Bool × W) → Bool × W → Bool × W
  after_probe i rest (true, w) = (true, w)
  after_probe i rest (false, w) = rest (if ltb (i + 1) attempts then clock.sleep interval w else w)

  -- The rounds `i`, `i + 1`, … of the loop, of which the second argument are left.
  unfoldable pub poll_from : ℕ → ℕ → W → Bool × W
  poll_from i zero w = (false, w)
  poll_from i (suc left) w = after_probe i (poll_from (i + 1) left) (probe w)

  unfoldable pub poll : W → Bool × W
  unfolding poll_from
  poll w = poll_from 0 attempts w

unfoldable pub poll_health : {W : Type 0} → Clock W → Health W → SwapOpts → W → Bool × W
unfolding poll
poll_health clock health opts w =
    poll clock health.healthy opts.health_attempts opts.health_interval w
