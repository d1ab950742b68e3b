-- ===== src/Proxy/Gate.antt =====
-- src/proxy.rs: `gate_decision` and `SwapGate`. Durations and instants are in nanoseconds; each method
-- of the gate runs under its lock, so it is one step.
use llmtune.Prelude.{ℕ, ◌-◌, ◌/◌, ltb, Bool, true, false, Option, none, some, if◌then◌else◌}
use Prim.Native.Nat.{max}

pub data GateDecision : Type 0 where
  proceed : GateDecision
  busy : GateDecision
  hold_for : ℕ → GateDecision

-- `Duration::as_secs`
abbrev pub as_secs : ℕ → ℕ
as_secs d = d / 1_000_000_000

abbrev pub hold_decision : Option ℕ → ℕ → GateDecision
hold_decision none hold = proceed
hold_decision (some elapsed) hold =
    if ltb elapsed hold then hold_for (max (as_secs (hold - elapsed)) 1) else proceed

unfoldable pub gate_decision : Bool → Option ℕ → ℕ → GateDecision
gate_decision true since_last_swap hold = busy
gate_decision false since_last_swap hold = hold_decision since_last_swap hold

pub record GateState : Type 0 where
  pub swapping : Bool
  pub last_swap_done : Option ℕ

-- `SwapGate::new`
abbrev pub new_gate : GateState
new_gate = record { swapping = false; last_swap_done = none }

-- `Instant::elapsed` at `now`
abbrev pub elapsed : ℕ → Option ℕ → Option ℕ
elapsed now none = none
elapsed now (some t) = some (now - t)

abbrev pub is_proceed : GateDecision → Bool
is_proceed proceed = true
is_proceed busy = false
is_proceed (hold_for secs) = false

unfoldable pub begin_swap : ℕ → ℕ → GateState → GateDecision × GateState
unfolding gate_decision
begin_swap hold now st =
    let d = gate_decision st.swapping (elapsed now st.last_swap_done) hold in
    (d, if is_proceed d then record st { swapping = true } else st)

unfoldable pub finish_swap : ℕ → GateState → GateState
finish_swap now st = record st { swapping = false; last_swap_done = some now }
