-- ===== src/Tests/ProxyRuns.antt =====
-- Loads and proxy requests on a small machine, and the gate under three workers.
use llmtune.Prelude.{
  Text, ◌++◌, ◌==◌, slash, show, lacks_sound, ◌+◌, ◌≤◌, ◌≡◌, refl, true, false, none, some, [], ◌∷◌,
  ok, codes, all, is_whitespace, arith,
}
use mathlib.Core.Logic.{◌↔◌}
use llmtune.Config.{Node, agent}
use llmtune.Profile.{Profile, default_id}
use llmtune.Nodeops.Lookup.{resolve_model}
use llmtune.Nodeops.Bind.{parse_bind}
use llmtune.Nodeops.Urls.{parse_bind-url}
use llmtune.Nodeops.Load.{Station, load, remember}
use llmtune.Nodeops.Loads.{IsLoad, HoldsQuery, load-IsLoad, resolve_model-ok}
use llmtune.Nodeops.Matching.{IsOnly}
use llmtune.Proxy.Gate.{GateState, proceed, gate_decision, elapsed}
use llmtune.Proxy.Exclusion.{
  Shared, start, request, release, inside, IsSpaced, at_start, waited, requested, released,
  gate_exclusive,
}
use llmtune.Proxy.Retry.{gate_retry}
use llmtune.Proxy.Ensure.{ensure_served}
use llmtune.Proxy.Answers.{IsAnswer, ensure_served-IsAnswer}
use llmtune.Tests.SwapRuns.{Rig, rig_actuator, rig_health, rig_clock, roomy, no_files, qwen, plain}

abbrev only_default : Profile
only_default = record plain { id = default_id }

abbrev small_station : Station Rig
small_station = record {
  lock_gpu = λ w. (true, w);
  unlock_gpu = λ w. w;
  discover = λ dir w. ok (qwen ∷ []);
  read_profiles = λ w. ok (only_default ∷ []);
  overrides = λ w. [];
  api_key = λ w. none;
  write_api_key_file = λ unit k w. (ok (codes "/run/key"), w);
  bind_host = λ w. codes "127.0.0.1";
  unit_base_env = λ unit w. [];
  fs = no_files;
  state_dir = [];
  actuator = rig_actuator;
  health = rig_health;
  clock = rig_clock;
  set_served_model = λ name w. record w { serving = some name };
  cluster_active = λ w. false;
  clear_active = λ w. w;
}

abbrev pub head : Node
head = record {
  name = codes "head";
  host = none;
  transport = agent;
  ssh_user = none;
  ssh_key = none;
  models_dir = codes "/models";
  llama_unit = codes "llama-server.service";
  llama_url = codes "http://127.0.0.1:8080";
  power_cmd = none;
}

load_runs : (load small_station head (codes " QWEN ") roomy).1.serving ≡ some (codes "qwen.gguf")
unfolding load remember
load_runs = refl

load-IsLoad_example :
    IsLoad
      (resolve_model (ok (qwen ∷ [])) (codes "/models") (codes " QWEN "))
      (load small_station head (codes " QWEN ") roomy).0
load-IsLoad_example = load-IsLoad small_station head (codes " QWEN ") roomy

resolve_model-ok_example :
    (resolve_model (ok (qwen ∷ [])) (codes "/models") (codes "wen") ≡ ok qwen) ↔ (
      (all is_whitespace (codes "wen") ≡ false)
      × IsOnly (HoldsQuery (codes "wen")) (qwen ∷ []) qwen)
resolve_model-ok_example = resolve_model-ok (qwen ∷ []) (codes "/models") (codes "wen") qwen

abbrev cooling : GateState
cooling = record { swapping = false; last_swap_done = some 1_000_000_000 }

ensure_served-IsAnswer_example :
    IsAnswer small_station
      (resolve_model (ok (qwen ∷ [])) (codes "/models") (codes "qwen"))
      cooling
      (ensure_served small_station head 30_000_000_000 (codes "qwen") roomy cooling)
ensure_served-IsAnswer_example =
    ensure_served-IsAnswer small_station head 30_000_000_000 (codes "qwen") roomy cooling

-- Of a hold of 30 s, 28.5 s are left; the request is told to come back after 28 s.
gate_retry_example :
    (1 ≤ 28)
    × (gate_decision false (elapsed 31_500_000_000 (some 1_000_000_000)) 30_000_000_000 ≡ proceed)
unfolding gate_decision
gate_retry_example =
    gate_retry 30_000_000_000 2_500_000_000 31_500_000_000 28 1_000_000_000 cooling refl refl
      (omega arith) refl (omega arith)

-- One worker is let in, another is refused, the first finishes, and a third one waits for the hold.
abbrev crowd : Shared
unfolding request release
crowd = request 10 (record (release (request 10 (request 10 start))) {
  now = (release (request 10 (request 10 start))).now + 12;
})

gate_exclusive_example : (inside crowd.log ≤ 1) × IsSpaced 10 crowd.log
unfolding request release
gate_exclusive_example =
    gate_exclusive 10 crowd
      (requested _ (waited _ 12 (released _ (omega arith) (requested _ (requested _ at_start)))))

abbrev fe80 : Text
fe80 = codes "[fe80::1]"

parse_bind-url_example : parse_bind (codes "http://" ++ (fe80 ++ b':' ∷ show 8081)) ≡ (fe80, 8081)
parse_bind-url_example =
    parse_bind-url fe80 8081 (lacks_sound (λ c. c == slash) fe80 refl) (omega arith)
