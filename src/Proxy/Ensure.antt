-- ===== src/Proxy/Ensure.antt =====
-- src/proxy.rs: `ensure_served`, on the machine and the gate as one state. Other workers may ask the
-- gate while a load runs; they are refused then.
use llmtune.Prelude.{
  ℕ, Bool, Option, none, some, Outcome, ok, err, Text, codes, ◌++◌, show, if◌then◌else◌,
}
use llmtune.Config.{Node}
use llmtune.Model.{Model}
use llmtune.Swap.Core.{SwapOutcome, serves}
use llmtune.Nodeops.Lookup.{resolve_model}
use llmtune.Nodeops.Load.{Station, Loaded, load}
use llmtune.Proxy.Gate.{GateDecision, proceed, busy, hold_for, GateState, begin_swap, finish_swap}

pub record Refuse : Type 0 where
  pub code : ℕ
  pub retry_after : Option ℕ
  pub client : Text
  pub log : Text

-- The result of `ensure_served`: the name of the served model, or what to answer instead.
pub data Answer : Type 0 where
  served : Text → Answer
  refused : Refuse → Answer

abbrev unresolved : Text → Text → Refuse
unresolved requested e = record {
  code = 503;
  retry_after = none;
  client = codes "could not resolve model `" ++ (requested ++ codes "`");
  log = codes "could not resolve `" ++ (requested ++ (codes "`: " ++ e));
}

abbrev in_progress : Refuse
in_progress = record {
  code = 503;
  retry_after = some 2;
  client = codes "a model swap is already in progress - retry shortly";
  log = codes "a model swap is already in progress - retry shortly";
}

abbrev hold_message : ℕ → Text
hold_message secs =
    codes "swap-thrash guard: a model swap ran recently; retry in "
    ++ (show secs ++ codes "s (or request the currently served model)")

abbrev held : ℕ → Refuse
held secs = record {
  code = 503;
  retry_after = some secs;
  client = hold_message secs;
  log = hold_message secs;
}

abbrev not_loaded : Text → Text → Refuse
not_loaded name detail = record {
  code = 503;
  retry_after = none;
  client = codes "could not load `" ++ (name ++ codes "` - see the proxy log");
  log = codes "could not load `" ++ (name ++ (codes "`: " ++ detail));
}

module _ {W : Type 0} (env : Station W) (node : Node) (hold : ℕ) where
  abbrev pub load_answer : Model → Outcome (SwapOutcome × Bool × Bool) → Answer
  load_answer m (err e) = refused (not_loaded m.name e)
  load_answer m (ok (o, used, adjusted)) =
      if o.done then served m.name else refused (not_loaded m.name o.detail)

  -- The load ended, and the gate is released; `none` is a panic.
  abbrev pub after_load : Model → GateState → Loaded × W → Option Answer × W × GateState
  after_load m g (none, w) = (none, w, g)
  after_load m g (some r, w) = (some (load_answer m r), w, finish_swap (env.clock.now w) g)

  unfoldable pub after_begin : Model → W → GateDecision × GateState → Option Answer × W × GateState
  unfolding load finish_swap show
  after_begin m w (busy, g) = (some (refused in_progress), w, g)
  after_begin m w (hold_for secs, g) = (some (refused (held secs)), w, g)
  after_begin m w (proceed, g) = after_load m g (load env node m.name w)

  unfoldable pub after_resolve :
      Text → Outcome Model → W → GateState → Option Answer × W × GateState
  unfolding after_begin begin_swap
  after_resolve requested (err e) w g = (some (refused (unresolved requested e)), w, g)
  after_resolve requested (ok m) w g =
      let (name, w₁) = env.health.served w in
      if serves name m.name
      then (some (served m.name), w₁, g)
      else after_begin m w₁ (begin_swap hold (env.clock.now w₁) g)

  unfoldable pub ensure_served : Text → W → GateState → Option Answer × W × GateState
  unfolding after_resolve resolve_model
  ensure_served requested w g =
      after_resolve requested
        (resolve_model (env.discover node.models_dir w) node.models_dir requested) w g
