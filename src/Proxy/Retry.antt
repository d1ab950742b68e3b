-- ===== src/Proxy/Retry.antt =====
-- src/proxy.rs: what the `Retry-After` of a held request is worth.
use llmtune.Prelude.{
  ℕ, ◌+◌, ◌*◌, ◌-◌, ◌≤◌, ◌<◌, ltb, ◌≡◌, ◌∙◌, refl, sym, ap, Bool, true, false, Option, none, some,
  arith, Bool-cases, inl, inr,
}
use Prim.Native.Nat.{max}
use llmtune.Proxy.Gate.{
  GateDecision, proceed, busy, hold_for, GateState, gate_decision, hold_decision, elapsed, as_secs,
}

abbrev second : ℕ
second = 1_000_000_000

seconds_of : GateDecision → ℕ
seconds_of proceed = 0
seconds_of busy = 0
seconds_of (hold_for s) = s

-- What a hold says: how long is left, in seconds.
hold_left :
    (past hold secs : ℕ)
    → hold_decision (some past) hold ≡ hold_for secs
    → (past < hold) × (secs ≡ max (as_secs (hold - past)) 1)
unfolding seconds_of
hold_left past hold secs h = elim (Bool-cases (ltb past hold)) [
  | inl early ↦ (ground arith, sym (ap seconds_of h) ∙ ap seconds_of (early_held early))
  | inr late ↦ cc (late_open late)
]
  where
    early_held :
        ltb past hold ≡ true
        → hold_decision (some past) hold ≡ hold_for (max (as_secs (hold - past)) 1)
    early_held e = rw e

    late_open : ltb past hold ≡ false → hold_decision (some past) hold ≡ proceed
    late_open e = rw e

-- No one is told to wait for zero seconds.
pub hold_positive :
    (swapping : Bool) (since : Option ℕ) (hold secs : ℕ)
    → gate_decision swapping since hold ≡ hold_for secs
    → 1 ≤ secs
unfolding gate_decision
hold_positive true since hold secs h = cc
hold_positive false none hold secs h = cc
hold_positive false (some past) hold secs h =
    let (early, e) = hold_left past hold secs h in omega arith

pub proceeds_open :
    (swapping : Bool) (since : Option ℕ) (hold : ℕ)
    → gate_decision swapping since hold ≡ proceed
    → swapping ≡ false
unfolding gate_decision
proceeds_open true since hold h = cc
proceeds_open false since hold h = refl

passed : (past hold : ℕ) → hold ≤ past → hold_decision (some past) hold ≡ proceed
passed past hold h = elim (Bool-cases (ltb past hold)) [
  | inl early ↦ ground arith
  | inr late ↦ rw late
]

long_enough :
    (past hold later : ℕ)
    → past + (max (as_secs (hold - past)) 1 + 1) * second ≤ later
    → hold ≤ later
long_enough past hold later h = omega arith

-- A request that is held is told to wait for one second or more; and where no worker is let
-- through meanwhile, a request that comes more than a second after that wait is let through.
pub gate_retry :
    (hold now later secs done_at : ℕ) (g : GateState)
    → g.swapping ≡ false
    → g.last_swap_done ≡ some done_at
    → done_at ≤ now
    → gate_decision g.swapping (elapsed now g.last_swap_done) hold ≡ hold_for secs
    → now + (secs + 1) * second ≤ later
    → (1 ≤ secs) × (gate_decision g.swapping (elapsed later g.last_swap_done) hold ≡ proceed)
unfolding gate_decision
gate_retry hold now later secs done_at g off last h held wait =
    let (early, e) = hold_left (now - done_at) hold secs (sym (at now) ∙ held) in
    (
      omega arith,
      at later
          ∙ passed (later - done_at) hold
              (long_enough (now - done_at) hold (later - done_at) (omega arith)),
    )
  where
    at :
        (t : ℕ)
        → gate_decision g.swapping (elapsed t g.last_swap_done) hold
          ≡ hold_decision (some (t - done_at)) hold
    at t = rw (off, last)
