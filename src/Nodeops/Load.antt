-- ===== src/Nodeops/Load.antt =====
-- src/nodeops.rs: `load`, which swaps a node to the model that a query names.
use llmtune.Prelude.{
  Bool, true, false, not, ◌&&◌, Option, none, some, List, ◌++◌, Outcome, ok, err, Text, Map, codes,
  text_eq, get, if◌then◌else◌,
}
use llmtune.Build.{Fs}
use llmtune.Config.{Node}
use llmtune.Model.{Model, is_chat_model}
use llmtune.Profile.{Profile, validate, resolve}
use llmtune.Swap.Seams.{Actuator, Health, Clock, SwapOpts}
use llmtune.Swap.Core.{SwapOutcome, swap}
use llmtune.Swap.Flags.{adjust_flags}
use llmtune.Nodeops.Lookup.{resolve_model}
use llmtune.Nodeops.Bind.{parse_bind}

-- What surrounds a load: the lock of the GPU, the files it reads and writes, and the server.
-- `lock_gpu` says whether the lock was taken.
pub record Station (W : Type 0) : Type 0 where
  pub lock_gpu : W → Bool × W
  pub unlock_gpu : W → W
  pub discover : Text → W → Outcome (List Model)
  pub read_profiles : W → Outcome (List Profile)
  pub overrides : W → Map Text
  pub api_key : W → Option Text
  pub write_api_key_file : Text → Text → W → Outcome Text × W
  pub bind_host : W → Text
  pub unit_base_env : Text → W → Map Text
  pub fs : Fs
  pub state_dir : Text
  pub actuator : Actuator W
  pub health : Health W
  pub clock : Clock W
  pub set_served_model : Text → W → W
  pub cluster_active : W → Bool
  pub clear_active : W → W

-- The outcome, whether the default profile was used, and whether the flags were adjusted. `none` is
-- a panic.
abbrev pub Loaded : Type 0
Loaded = Option (Outcome (SwapOutcome × Bool × Bool))

abbrev pub gpu_busy : Text
gpu_busy =
    codes "the GPU is busy (a swap or benchmark is already running on this node) "
    ++ codes "- refusing to swap"

abbrev not_chat : Text → Text
not_chat name =
    codes "`" ++ (name ++ codes "` looks like an embedding/rerank model - refusing to serve it")

abbrev is_none : Option Text → Bool
is_none none = true
is_none (some s) = false

abbrev override_or : Option Text → Text → Text
override_or none flags = flags
override_or (some flags) d = flags

module _ {W : Type 0} (env : Station W) (node : Node) where
  -- What is kept of a model that is served.
  unfoldable pub remember : Text → W → W
  remember name w =
      let w₁ = env.set_served_model name w in
      if env.cluster_active w₁ then env.clear_active w₁ else w₁

  abbrev pub swap_opts : W → SwapOpts
  swap_opts w = record {
    host = env.bind_host w;
    port = (parse_bind node.llama_url).1;
    health_attempts = 24;
    health_interval = 5_000_000_000;
    prewarm = true;
    base_env = env.unit_base_env node.llama_unit w;
  }

  module _ (m : Model) where
    abbrev pub after_swap : Bool → Bool → Outcome SwapOutcome × W → Loaded × W
    after_swap used adjusted (err e, w) = (some (err e), w)
    after_swap used adjusted (ok o, w) =
        (some (ok (o, used, adjusted)), if o.done then remember m.name w else w)

    module _ (prof : Profile) (used adjusted : Bool) where
      unfoldable pub start_swap : Text → W → Loaded × W
      unfolding swap
      start_swap flags w = after_swap used adjusted (
          swap env.actuator env.health env.clock env.fs env.state_dir node.llama_unit m prof flags
            (swap_opts w) w)

      abbrev pub keyed : Text → Outcome Text × W → Loaded × W
      keyed flags (err e, w) = (some (err e), w)
      keyed flags (ok path, w) = start_swap (flags ++ (codes " --api-key-file " ++ path)) w

      abbrev pub with_key : Text → Option Text → W → Loaded × W
      with_key flags none w = start_swap flags w
      with_key flags (some k) w = keyed flags (env.write_api_key_file node.llama_unit k w)

    -- The profile is chosen; a per-model override is used as it stands.
    unfoldable pub after_choice : Option (Profile × Bool) → W → Loaded × W
    unfolding get adjust_flags start_swap text_eq
    after_choice none w = (none, w)
    after_choice (some (prof, used)) w =
        let override = get m.name (env.overrides w) in
        let adjusted = adjust_flags prof m in
        with_key prof used (is_none override && not (text_eq adjusted prof.flags))
          (override_or override adjusted) (env.api_key w) w

    abbrev pub after_validate : List Profile → Outcome (Unit {0}) → W → Loaded × W
    after_validate profiles (err e) w = (some (err e), w)
    after_validate profiles (ok x) w = after_choice (resolve profiles m.arch m.quant) w

    abbrev pub after_profiles : Outcome (List Profile) → W → Loaded × W
    after_profiles (err e) w = (some (err e), w)
    after_profiles (ok profiles) w = after_validate profiles (validate profiles) w

  abbrev pub after_lookup : Outcome Model → W → Loaded × W
  after_lookup (err e) w = (some (err e), w)
  after_lookup (ok m) w =
      if not (is_chat_model m.name)
      then (some (err (not_chat m.name)), w)
      else after_profiles m (env.read_profiles w) w

  abbrev pub unlocked : Loaded × W → Loaded × W
  unlocked (r, w) = (r, env.unlock_gpu w)

  abbrev pub after_lock : Text → Bool × W → Loaded × W
  after_lock query (false, w) = (some (err gpu_busy), w)
  after_lock query (true, w) =
      unlocked
        (after_lookup (resolve_model (env.discover node.models_dir w) node.models_dir query) w)

  unfoldable pub load : Text → W → Loaded × W
  unfolding resolve_model is_chat_model validate resolve after_choice
  load query w = after_lock query (env.lock_gpu w)
