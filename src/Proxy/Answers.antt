-- ===== src/Proxy/Answers.antt =====
-- src/proxy.rs: the answers of `ensure_served`, and how it leaves the gate.
use llmtune.Prelude.{
  ℕ, ◌≤◌, ◌≡◌, refl, ◌⊎◌, inl, inr, Bool, true, false, Option, none, some, Outcome, ok, err, Text,
  if◌then◌else◌, arith, Bool-cases,
}
use llmtune.Config.{Node}
use llmtune.Model.{Model}
use llmtune.Swap.Core.{SwapOutcome, serves}
use llmtune.Nodeops.Lookup.{resolve_model}
use llmtune.Nodeops.Load.{Station, Loaded, load}
use llmtune.Nodeops.Loads.{IsLoad, load-IsLoad}
use llmtune.Proxy.Gate.{
  GateDecision, proceed, busy, hold_for, GateState, gate_decision, begin_swap, finish_swap, elapsed,
  is_proceed,
}
use llmtune.Proxy.Retry.{hold_positive, proceeds_open}
use llmtune.Proxy.Ensure.{
  Answer, served, refused, load_answer, after_load, after_begin, after_resolve, ensure_served,
}

abbrev IsDelay : Option ℕ → Type 0
IsDelay none = Unit
IsDelay (some secs) = 1 ≤ secs

-- A name that is served is the one found; a refusal is a 503, with no delay of zero seconds.
abbrev AnswersTo : Outcome Model → Answer → Type 0
AnswersTo found (served name) = (m : Model) × (found ≡ ok m) × (name ≡ m.name)
AnswersTo found (refused r) = (r.code ≡ 503) × IsDelay r.retry_after

-- The gate is as before, or it was open and has been released now.
abbrev IsReleased : ℕ → GateState → GateState → Type 0
IsReleased now g h =
    (h ≡ g) ⊎ ((g.swapping ≡ false) × (h.swapping ≡ false) × (h.last_swap_done ≡ some now))

abbrev pub IsAnswer :
    {W : Type 0} → Station W → Outcome Model → GateState → Option Answer × W × GateState → Type 0
IsAnswer env found g (none, w, h) = ⊥
IsAnswer env found g (some a, w, h) = AnswersTo found a × IsReleased (env.clock.now w) g h

module _ {W : Type 0} (env : Station W) (node : Node) (hold : ℕ) where
  load_answer-AnswersTo :
      (m : Model) (r : Outcome (SwapOutcome × Bool × Bool))
      → AnswersTo (ok m) (load_answer env node hold m r)
  load_answer-AnswersTo m (err e) = (refl, tt)
  load_answer-AnswersTo m (ok (o, used, adjusted)) = elim (Bool-cases o.done) [
    | inl done ↦ rw done (m, refl, refl)
    | inr undone ↦ rw undone (refl, tt)
  ]

  after_load-IsAnswer :
      (m : Model) (g h : GateState) (found : Outcome Model) (r : Loaded × W)
      → g.swapping ≡ false
      → IsLoad found r.0
      → IsAnswer env (ok m) g (after_load env node hold m h r)
  unfolding finish_swap
  after_load-IsAnswer m g h found (none, w) off l = l
  after_load-IsAnswer m g h found (some r, w) off l =
      (load_answer-AnswersTo m r, inr (off, refl, refl))

  after_begin-IsAnswer :
      (m : Model) (w : W) (g : GateState) (d : GateDecision)
      → gate_decision g.swapping (elapsed (env.clock.now w) g.last_swap_done) hold ≡ d
      → IsAnswer env (ok m) g (
          after_begin env node hold m w
            (d, if is_proceed d then record g { swapping = true } else g))
  unfolding after_begin
  after_begin-IsAnswer m w g busy e = ((refl, omega arith), inl refl)
  after_begin-IsAnswer m w g (hold_for secs) e =
      ((refl, hold_positive g.swapping _ hold secs e), inl refl)
  after_begin-IsAnswer m w g proceed e =
      after_load-IsAnswer m g _ _ (load env node m.name w) (proceeds_open g.swapping _ hold e)
        (load-IsLoad env node m.name w)

  after_resolve-IsAnswer :
      (requested : Text) (found : Outcome Model) (w : W) (g : GateState)
      → IsAnswer env found g (after_resolve env node hold requested found w g)
  unfolding after_resolve begin_swap
  after_resolve-IsAnswer requested (err e) w g = ((refl, tt), inl refl)
  after_resolve-IsAnswer requested (ok m) w g =
      elim (Bool-cases (serves (env.health.served w).0 m.name)) [
        | inl same ↦ rw same ((m, refl, refl), inl refl)
        | inr other ↦ rw other (after_begin-IsAnswer m (env.health.served w).1 g _ refl)
      ]

  -- Whatever the machine does, `ensure_served` answers without a panic. Where it says that a model
  -- is served, that is the model that the request named. Every refusal is a 503, and none asks for
  -- a retry after zero seconds. And it leaves the gate as it was, or else found it open and has
  -- released it, with the hold counted from then: no answer leaves the gate taken.
  pub ensure_served-IsAnswer :
      (requested : Text) (w : W) (g : GateState)
      → IsAnswer env
          (resolve_model (env.discover node.models_dir w) node.models_dir requested)
          g
          (ensure_served env node hold requested w g)
  unfolding ensure_served
  ensure_served-IsAnswer requested w g = after_resolve-IsAnswer requested _ w g
