-- ===== src/Tests/ClusterRuns.antt =====
-- Clusters of two workers on a small machine.
use llmtune.Prelude.{
  refl, ◌≡◌, true, Option, none, some, List, [], ◌∷◌, ok, Text, codes, text_eq, All, Any, err,
  if◌then◌else◌,
}
use mathlib.Core.Logic.{◌↔◌}
use llmtune.Config.{Node, agent}
use llmtune.Swap.Seams.{Actuator, Health, Clock}
use llmtune.Cluster.Parity.{matched, mismatch, check_parity, check_parity_exact, is_skewed}
use llmtune.Swap.Clear.{Shell}
use llmtune.Cluster.Down.{
  down, asked_workers, asked_console, asked_clock, asked_shell, IsDown, down-IsDown,
}
use llmtune.Cluster.Up.{WorkerCtl, Console, up}
use llmtune.Cluster.Tally.{tally_workers, tally_console, tally_clock, tally_actuator, tally_health}
use llmtune.Cluster.Safety.{IsWhole, up-IsWhole}
use llmtune.Tests.SwapRuns.{no_files, qwen, plain, opts}

abbrev node : Text → Node
node name = record {
  name = name;
  host = none;
  transport = agent;
  ssh_user = none;
  ssh_key = none;
  models_dir = codes "/models";
  llama_unit = codes "llama-server.service";
  llama_url = codes "http://127.0.0.1:8080";
  power_cmd = none;
}

-- The worker `b` starts, and never accepts.
abbrev two_workers : WorkerCtl (Unit {0})
two_workers = record {
  start = λ n port bin bind w. (ok tt, w);
  stop = λ n port w. (ok tt, w);
  accepting = λ n port w. (text_eq n.name (codes "a"), w);
}

abbrev quiet : Console (Unit {0})
quiet = record { eprint = λ t w. w }

abbrev still : Clock (Unit {0})
still = record { sleep = λ t w. w; now = λ w. 0 }

abbrev willing : Actuator (Unit {0})
willing = record {
  stage = λ unit d w. (ok tt, w);
  rollback = λ unit w. (ok tt, w);
  commit = λ w. (ok tt, w);
  reload_restart = λ unit w. (ok tt, w);
}

abbrev well : Health (Unit {0})
well = record { healthy = λ w. (true, w); served = λ w. (none, w); warm = λ w. w }

abbrev pair : List Node
pair = node (codes "a") ∷ node (codes "b") ∷ []

up-IsWhole_example :
    let out =
      up
        (tally_workers two_workers)
        (tally_console quiet)
        (tally_clock still)
        (tally_actuator willing)
        (tally_health well)
        no_files
        []
        (codes "duo")
        (codes "llama-server.service")
        qwen
        plain
        pair
        50_052
        (codes "/opt/rpc-server")
        (codes "0.0.0.0")
        opts
        (tt, [], []) in
    IsWhole willing pair out.0 (out.1.1, out.1.2)
up-IsWhole_example =
    up-IsWhole two_workers quiet still willing well no_files [] (codes "duo")
      (codes "llama-server.service") qwen plain pair 50_052 (codes "/opt/rpc-server")
      (codes "0.0.0.0") opts tt

abbrev versions : List (Text × Option Text)
versions = (codes "a", some (codes "b1")) ∷ (codes "b", none) ∷ (codes "c", some (codes "b2")) ∷ []

check_parity_exact_example :
    ((check_parity (codes "vulkan") (some (codes "b1")) versions ≡ matched)
      ↔ All (λ w. w.1 ≡ some (codes "b1")) versions)
    × (((detail : Text) × (check_parity (codes "vulkan") (some (codes "b1")) versions
            ≡ mismatch detail))
        ↔ Any (λ w. is_skewed (codes "b1") w ≡ true) versions)
check_parity_exact_example = check_parity_exact (codes "vulkan") (codes "b1") versions

-- The worker `b` cannot be reached.
abbrev half_deaf : WorkerCtl (Unit {0})
half_deaf = record two_workers {
  stop = λ n port w. (if text_eq n.name (codes "b") then err (codes "unreachable") else ok tt, w);
}

abbrev bare_shell : Shell (Unit {0})
bare_shell = record {
  sudo = λ args w. (ok tt, w);
  read_dir = λ w dir. [];
  etc_writable = λ w. true;
}

down_reports :
    (down half_deaf quiet still bare_shell (codes "llama.service") pair 50_052 tt).0
    ≡ ok ((codes "b", codes "unreachable") ∷ [])
unfolding down text_eq
down_reports = refl

down-IsDown_example :
    let out =
      down
        (asked_workers half_deaf)
        (asked_console quiet)
        (asked_clock still)
        (asked_shell bare_shell)
        (codes "llama.service")
        pair
        50_052
        (tt, []) in
    IsDown pair out.0 out.1.1
down-IsDown_example =
    down-IsDown half_deaf quiet still bare_shell (codes "llama.service") pair 50_052 tt
