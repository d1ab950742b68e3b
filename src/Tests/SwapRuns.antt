-- ===== src/Tests/SwapRuns.antt =====
-- Swaps on a small machine.
use llmtune.Prelude.{
  ◌≡◌, refl, Bool, true, false, Option, none, some, [], ◌∷◌, Outcome, ok, err, Text, codes,
  contains,
}
use llmtune.Build.{Fs}
use llmtune.Model.{Model}
use llmtune.Profile.{Profile}
use llmtune.Swap.Seams.{Actuator, Health, Clock, SwapOpts}
use llmtune.Swap.Core.{SwapOutcome, swap}
use llmtune.Swap.Core.Calls.{IsLegal, logged_actuator, logged_health, logged_clock, swap_calls}

-- A machine with one drop-in; `fits` says whether the server comes up.
pub record Rig : Type 0 where
  pub dropin : Text
  pub kept : Option Text
  pub serving : Option Text
  pub fits : Bool

abbrev put_back : Option Text → Rig → Rig
put_back none w = w
put_back (some c) w = record w { dropin = c; kept = none }

abbrev pub rig_actuator : Actuator Rig
rig_actuator = record {
  stage = λ unit d w. (ok tt, record w { dropin = d; kept = some w.dropin });
  rollback = λ unit w. (ok tt, put_back w.kept w);
  commit = λ w. (ok tt, record w { kept = none });
  reload_restart = λ unit w. (ok tt, w);
}

abbrev pub rig_health : Health Rig
rig_health = record { healthy = λ w. (w.fits, w); served = λ w. (w.serving, w); warm = λ w. w }

abbrev pub rig_clock : Clock Rig
rig_clock = record { sleep = λ t w. w; now = λ w. 0 }

abbrev pub no_files : Fs
no_files = record { is_file = λ p. false; is_dir = λ p. false; canonicalize = λ p. none }

abbrev pub qwen : Model
qwen = record {
  path = codes "/models/qwen.gguf";
  name = codes "qwen.gguf";
  arch = codes "qwen35";
  params = none;
  quant = none;
  size_bytes = 9_500_000_000;
  ctx_max = none;
  has_mtp = false;
}

abbrev pub plain : Profile
plain = record {
  id = codes "qwen35";
  arch_match = codes "qwen35" ∷ [];
  quant_match = [];
  build = none;
  bin = codes "/opt/llama-server";
  ld_path = none;
  env = [];
  flags = codes "-ngl 99";
}

abbrev pub opts : SwapOpts
opts = record {
  host = codes "127.0.0.1";
  port = 8080;
  health_attempts = 3;
  health_interval = 5;
  prewarm = true;
  base_env = [];
}

abbrev unit : Text
unit = codes "llama-server.service"

abbrev attempt : Rig → Outcome SwapOutcome × Rig
attempt w = swap rig_actuator rig_health rig_clock no_files [] unit qwen plain plain.flags opts w

abbrev pub blank : SwapOutcome
blank = record { from = none; to = []; done = false; reverted = false; elapsed = 0; detail = [] }

abbrev pub the : Outcome SwapOutcome → SwapOutcome
the (ok o) = o
the (err e) = blank

abbrev pub too_big : Rig
too_big = record { dropin = codes "old"; kept = none; serving = none; fits = false }

abbrev pub roomy : Rig
roomy = record too_big { fits = true }

-- The server does not come up, and the old drop-in is back.
put_back_again : (attempt too_big).1.dropin ≡ codes "old"
unfolding swap
put_back_again = refl

swap_calls_example :
    let out =
      swap
        (logged_actuator rig_actuator)
        (logged_health rig_health)
        (logged_clock rig_clock)
        no_files
        []
        unit
        qwen
        plain
        plain.flags
        opts
        (too_big, []) in
    IsLegal false true out.0 out.1.1
unfolding swap contains
swap_calls_example =
    swap_calls rig_actuator rig_health rig_clock no_files [] unit qwen plain plain.flags opts
      too_big
