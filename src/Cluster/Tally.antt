-- ===== src/Cluster/Tally.antt =====
-- src/cluster.rs: a machine that counts the workers `up` starts and stops, around any other.
use llmtune.Prelude.{List, [], ◌∷◌, ◌++◌, Outcome, ok, err}
use llmtune.Config.{Node}
use llmtune.Swap.Seams.{Actuator, Health, Clock}
use llmtune.Cluster.Up.{WorkerCtl, Console}

-- A machine with the workers that started, and those that were told to stop.
abbrev pub Tally : Type 0 → Type 0
Tally W = W × List Node × List Node

abbrev pub same : {W A : Type 0} → Tally W → A × W → A × Tally W
same s (a, w) = (a, (w, s.1, s.2))

abbrev pub moved : {W : Type 0} → Tally W → W → Tally W
moved s w = (w, s.1, s.2)

abbrev pub if_started :
    {W : Type 0} → Node → Tally W → Outcome (Unit {0}) × W → Outcome (Unit {0}) × Tally W
if_started n s (ok x, w) = (ok x, (w, s.1 ++ n ∷ [], s.2))
if_started n s (err e, w) = (err e, (w, s.1, s.2))

abbrev pub stopped :
    {W : Type 0} → Node → Tally W → Outcome (Unit {0}) × W → Outcome (Unit {0}) × Tally W
stopped n s (r, w) = (r, (w, s.1, s.2 ++ n ∷ []))

abbrev pub tally_workers : {W : Type 0} → WorkerCtl W → WorkerCtl (Tally W)
tally_workers c = record {
  start = λ n port bin bind s. if_started n s (c.start n port bin bind s.0);
  stop = λ n port s. stopped n s (c.stop n port s.0);
  accepting = λ n port s. same s (c.accepting n port s.0);
}

abbrev pub tally_console : {W : Type 0} → Console W → Console (Tally W)
tally_console c = record { eprint = λ t s. moved s (c.eprint t s.0) }

abbrev pub tally_actuator : {W : Type 0} → Actuator W → Actuator (Tally W)
tally_actuator a = record {
  stage = λ u d s. same s (a.stage u d s.0);
  rollback = λ u s. same s (a.rollback u s.0);
  commit = λ s. same s (a.commit s.0);
  reload_restart = λ u s. same s (a.reload_restart u s.0);
}

abbrev pub tally_health : {W : Type 0} → Health W → Health (Tally W)
tally_health h = record {
  healthy = λ s. same s (h.healthy s.0);
  served = λ s. same s (h.served s.0);
  warm = λ s. moved s (h.warm s.0);
}

abbrev pub tally_clock : {W : Type 0} → Clock W → Clock (Tally W)
tally_clock c = record { sleep = λ t s. moved s (c.sleep t s.0); now = λ s. c.now s.0 }

abbrev pub counts : {W : Type 0} → Tally W → List Node × List Node
counts s = (s.1, s.2)
