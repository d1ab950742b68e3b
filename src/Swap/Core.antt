-- ===== src/Swap/Core.antt =====
-- src/swap.rs: `swap`, the guarded change of the served model.
pub mod Revert
pub mod Restores
pub mod Calls
pub mod Names
use llmtune.Prelude.{
  ℕ, zero, ◌-◌, Bool, true, false, not, Option, none, some, List, [], ◌∷◌, ◌++◌, Outcome, ok, err,
  is_ok, Text, Map, codes, text_eq, contains, show, if◌then◌else◌,
}
use llmtune.Build.{Fs}
use llmtune.Model.{Model}
use llmtune.Profile.{Profile, launch}
use llmtune.Swap.Seams.{Actuator, Health, Clock, SwapOpts, and_then, poll_health}
use llmtune.Swap.Env.{render_dropin}

-- The elapsed time is kept in nanoseconds.
pub record SwapOutcome : Type 0 where
  pub from : Option Text
  pub to : Text
  pub done : Bool
  pub reverted : Bool
  pub elapsed : ℕ
  pub detail : Text

abbrev pub serves : Option Text → Text → Bool
serves none name = false
serves (some s) name = text_eq s name

abbrev text_or : Option Text → Text → Text
text_or none d = d
text_or (some s) d = s

abbrev pub already_served : Option Text → Text → SwapOutcome
already_served from name = record {
  from = from;
  to = name;
  done = true;
  reverted = false;
  elapsed = 0;
  detail = codes "`" ++ (name ++ codes "` is already served");
}

-- A profile whose build is not installed launches a bare name.
abbrev pub no_binary : Profile → Text
no_binary profile =
    let build = text_or profile.build (codes "?") in
    codes "profile `"
    ++ (profile.id
        ++ (codes "` can't resolve a llama-server binary: build `"
            ++ (build
                ++ (codes "` is not installed. Install it (`llmtune build install "
                    ++ (build
                        ++ (codes
                              "`), or point the profile at an existing binary (`llmtune profile set "
                            ++ (profile.id ++ codes " --bin /path/to/llama-server`).")))))))

abbrev pub stranded : Text
stranded = codes " AND the revert failed - the node may be stranded"

abbrev pub staging_detail : Text → Bool → Text
staging_detail e true =
    codes "staging/restart failed (" ++ (e ++ codes "); reverted to the previous model")
staging_detail e false = codes "staging/restart failed (" ++ (e ++ (codes ")" ++ stranded))

abbrev pub not_taken_detail : Text → Text → Bool → Text
not_taken_detail s name reverted =
    codes "swap did not take - server still serves `"
    ++ (s
        ++ (codes "`, not `"
            ++ (name
                ++ (codes "` (a competing systemd drop-in is overriding llmtune's)"
                    ++ (if reverted then codes "; reverted" else stranded)))))

abbrev failed_why : Model → Text
failed_why model =
    codes "`"
    ++ (model.name
        ++ (codes "` ["
            ++ (model.arch
                ++ codes "] FAILED to load (arch/quant unsupported, or did not fit memory)")))

abbrev pub loaded_detail : Model → SwapOpts → Text
loaded_detail model opts =
    codes "loaded `"
    ++ (model.name
        ++ (codes "` ["
            ++ (model.arch
                ++ (codes "], serving on " ++ (opts.host ++ (codes ":" ++ show opts.port))))))

-- The drop-in for the resolved launch.
unfoldable pub swap_dropin : Fs → Text → Model → Profile → Text → SwapOpts → Text
unfolding launch render_dropin
swap_dropin fs state_dir model profile flags opts =
    let (bin, ld) = launch fs state_dir profile in
    render_dropin profile bin ld flags model.path opts.host opts.port opts.base_env

module _ {W : Type 0} (act : Actuator W) (health : Health W) (clock : Clock W) where
  -- `rollback` and then `reload_restart`.
  unfoldable pub revert : Text → W → Outcome (Unit {0}) × W
  revert unit w = and_then (act.rollback unit w) (act.reload_restart unit)

  -- `stage` and then `reload_restart`.
  unfoldable pub install : Text → Text → W → Outcome (Unit {0}) × W
  install unit dropin w = and_then (act.stage unit dropin w) (act.reload_restart unit)

  module _ (unit : Text) (model : Model) (opts : SwapOpts) (start : ℕ) (from : Option Text) where
    abbrev outcome : Bool → Bool → Text → W → SwapOutcome
    outcome done reverted detail w = record {
      from = from;
      to = model.name;
      done = done;
      reverted = reverted;
      elapsed = clock.now w - start;
      detail = detail;
    }

    -- Staging or restarting was refused with `e`.
    unfoldable pub after_refusal : Text → W → Outcome SwapOutcome × W
    unfolding revert poll_health
    after_refusal e w =
        let (r, w₁) = revert unit w in
        let (_, w₂) = poll_health clock health opts w₁ in
        (ok (outcome false (is_ok r) (staging_detail e (is_ok r)) w₂), w₂)

    -- The server is healthy and reports `s`, another model.
    unfoldable pub after_other_model : Text → W → Outcome SwapOutcome × W
    unfolding revert poll_health
    after_other_model s w =
        let (r, w₁) = revert unit w in
        let (_, w₂) = poll_health clock health opts w₁ in
        (ok (outcome false (is_ok r) (not_taken_detail s model.name (is_ok r)) w₂), w₂)

    abbrev pub committed : Outcome (Unit {0}) × W → Outcome SwapOutcome × W
    committed (ok x, w) = (ok (outcome true false (loaded_detail model opts) w), w)
    committed (err e, w) = (err e, w)

    -- The server is healthy and does not report another model.
    unfoldable pub finish : W → Outcome SwapOutcome × W
    finish w = committed (act.commit (if opts.prewarm then health.warm w else w))

    -- `served` on the healthy server.
    unfoldable pub verify : Option Text × W → Outcome SwapOutcome × W
    unfolding after_other_model finish
    verify (none, w) = finish w
    verify (some s, w) = if not (text_eq s model.name) then after_other_model s w else finish w

    -- The detail of a load that failed; after a revert it names what is served again.
    abbrev pub after_failed_poll : Bool → W → Outcome SwapOutcome × W
    after_failed_poll true w =
        let (prev, w₁) = health.served w in
        (
          ok (
              outcome false true
                (failed_why model
                  ++ (codes " - reverted to `" ++ (text_or prev (codes "unknown") ++ codes "`")))
                w₁),
          w₁,
        )
    after_failed_poll false w = (ok (outcome false false (failed_why model ++ stranded) w), w)

    -- The server never became healthy.
    unfoldable pub after_failed_load : W → Outcome SwapOutcome × W
    unfolding revert poll_health
    after_failed_load w =
        let (r, w₁) = revert unit w in
        let (_, w₂) = poll_health clock health opts w₁ in after_failed_poll (is_ok r) w₂

    unfoldable pub after_poll : Bool × W → Outcome SwapOutcome × W
    unfolding verify after_failed_load
    after_poll (true, w) = verify (health.served w)
    after_poll (false, w) = after_failed_load w

    unfoldable pub after_install : Outcome (Unit {0}) × W → Outcome SwapOutcome × W
    unfolding after_refusal after_poll poll_health
    after_install (err e, w) = after_refusal e w
    after_install (ok x, w) = after_poll (poll_health clock health opts w)

  module _ (fs : Fs) (state_dir : Text) where
    -- `swap` behind the question what is served.
    unfoldable pub swap_from :
        Text → Model → Profile → Text → SwapOpts → ℕ → Option Text × W → Outcome SwapOutcome × W
    unfolding install after_install swap_dropin launch text_eq contains
    swap_from unit model profile flags opts start (from, w) =
        if serves from model.name
        then (ok (already_served from model.name), w)
        else if not (contains (launch fs state_dir profile).0 (codes "/"))
        then (err (no_binary profile), w)
        else after_install unit model opts start from
            (install unit (swap_dropin fs state_dir model profile flags opts) w)

    unfoldable pub swap : Text → Model → Profile → Text → SwapOpts → W → Outcome SwapOutcome × W
    unfolding swap_from
    swap unit model profile flags opts w =
        swap_from unit model profile flags opts (clock.now w) (health.served w)
