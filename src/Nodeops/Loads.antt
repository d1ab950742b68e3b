-- ===== src/Nodeops/Loads.antt =====
-- src/nodeops.rs: what `load` and `resolve_model` answer.
use llmtune.Prelude.{
  ◌≡◌, refl, subst, Bool, true, false, Option, none, some, List, [], ◌∷◌, Outcome, ok, err, Text,
  is_empty, all, is_whitespace, filter, if◌then◌else◌, Bool-cases, inl, inr, trim, to_lowercase,
}
use mathlib.Core.Logic.{◌↔◌}
use llmtune.Config.{Node}
use llmtune.Model.{Model, is_chat_model}
use llmtune.Profile.{Profile, validate}
use llmtune.Profile.Choice.{resolve_total}
use llmtune.Swap.Core.{SwapOutcome}
use llmtune.Swap.Core.Names.{Names, swap-Names}
use llmtune.Nodeops.Lookup.{resolve_model, matches, the_one, blank_query}
use llmtune.Nodeops.Matching.{IsPart, IsOnly, contains_iff, query-blank, filter_iff}
use llmtune.Nodeops.Load.{
  Station, Loaded, start_swap, keyed, with_key, after_swap, after_choice, after_validate,
  after_profiles, after_lookup, after_lock, load, swap_opts,
}

the_one-ok :
    (query models_dir : Text) (ms : List Model) (m : Model)
    → (the_one query models_dir ms ≡ ok m) ↔ (ms ≡ m ∷ [])
the_one-ok query models_dir [] m = ((λ h. cc), (λ h. cc))
the_one-ok query models_dir (n ∷ []) m = ((λ h. cc), (λ h. cc))
the_one-ok query models_dir (n ∷ p ∷ ms) m = ((λ h. cc), (λ h. cc))

-- The name of the model holds the query, letter case and the white space around the query aside.
abbrev pub HoldsQuery : Text → Model → Type 0
HoldsQuery query m = IsPart (to_lowercase (trim query)) (to_lowercase m.name)

-- A query names a model exactly where the query does not hold white space only, and that model
-- stands once among those that were discovered and is the only one of them in whose lower-cased name
-- the trimmed and lower-cased query stands as a part.
pub resolve_model-ok :
    (models : List Model) (models_dir query : Text) (m : Model)
    → (resolve_model (ok models) models_dir query ≡ ok m)
      ↔ ((all is_whitespace query ≡ false) × IsOnly (HoldsQuery query) models m)
unfolding resolve_model
resolve_model-ok models models_dir query m =
    subst
      (λ b.
        ((if is_empty (to_lowercase (trim query))
            then err blank_query
            else the_one query models_dir (filter (matches (to_lowercase (trim query))) models))
          ≡ ok m)
        ↔ ((b ≡ false) × IsOnly (HoldsQuery query) models m))
      (query-blank query) (go (is_empty (to_lowercase (trim query))))
  where
    one :
        (filter (matches (to_lowercase (trim query))) models ≡ m ∷ [])
        ↔ IsOnly (HoldsQuery query) models m
    one =
        filter_iff (matches (to_lowercase (trim query))) (HoldsQuery query)
          (λ n. contains_iff (to_lowercase n.name) (to_lowercase (trim query))) models m

    go :
        (b : Bool)
        → ((if b
              then err blank_query
              else the_one query models_dir (filter (matches (to_lowercase (trim query))) models))
            ≡ ok m)
          ↔ ((b ≡ false) × IsOnly (HoldsQuery query) models m)
    go true = ((λ h. cc), (λ h. cc))
    go false =
        let (to, back) = the_one-ok query models_dir _ m in
        ((λ h. (refl, one.0 (to h))), (λ h. back (one.1 h.1)))

-- The load has not panicked, and an outcome is about the chat model that was found.
abbrev pub IsLoad : Outcome Model → Loaded → Type 0
IsLoad found none = ⊥
IsLoad found (some (err e)) = Unit
IsLoad found (some (ok (o, used, adjusted))) =
    (m : Model) × (found ≡ ok m) × (is_chat_model m.name ≡ true) × (o.to ≡ m.name)

-- The load of `m` has not panicked, and an outcome is about it.
Loads : Model → Loaded → Type 0
Loads m none = ⊥
Loads m (some (err e)) = Unit
Loads m (some (ok (o, used, adjusted))) = o.to ≡ m.name

module _ {W : Type 0} (env : Station W) (node : Node) where
  module _ (m : Model) where
    after_swap-Loads :
        (used adjusted : Bool) (r : Outcome SwapOutcome × W)
        → Names m.name r.0
        → Loads m (after_swap env node m used adjusted r).0
    unfolding Loads
    after_swap-Loads used adjusted (ok o, w) h = h
    after_swap-Loads used adjusted (err e, w) h = tt

    module _ (prof : Profile) (used adjusted : Bool) where
      start_swap-Loads :
          (flags : Text) (w : W) → Loads m (start_swap env node m prof used adjusted flags w).0
      unfolding start_swap
      start_swap-Loads flags w = after_swap-Loads used adjusted _ (
          swap-Names env.actuator env.health env.clock env.fs env.state_dir node.llama_unit m prof
            flags (swap_opts env node w) w)

      keyed-Loads :
          (flags : Text) (r : Outcome Text × W)
          → Loads m (keyed env node m prof used adjusted flags r).0
      unfolding Loads
      keyed-Loads flags (err e, w) = tt
      keyed-Loads flags (ok path, w) = start_swap-Loads _ w

      with_key-Loads :
          (flags : Text) (k : Option Text) (w : W)
          → Loads m (with_key env node m prof used adjusted flags k w).0
      with_key-Loads flags none w = start_swap-Loads flags w
      with_key-Loads flags (some k) w =
          keyed-Loads flags (env.write_api_key_file node.llama_unit k w)

    after_choice-Loads :
        (choice : Option (Profile × Bool)) (r : Profile × Bool) (w : W)
        → choice ≡ some r
        → Loads m (after_choice env node m choice w).0
    unfolding after_choice
    after_choice-Loads none r w h = cc
    after_choice-Loads (some (prof, used)) r w h = with_key-Loads prof used _ _ (env.api_key w) w

    after_validate-Loads :
        (profiles : List Profile) (v : Outcome (Unit {0})) (w : W)
        → validate profiles ≡ v
        → Loads m (after_validate env node m profiles v w).0
    unfolding Loads
    after_validate-Loads profiles (err e) w h = tt
    after_validate-Loads profiles (ok x) w h =
        let (r, e) = resolve_total profiles m.arch m.quant h in after_choice-Loads _ r w e

    after_profiles-Loads :
        (ps : Outcome (List Profile)) (w : W) → Loads m (after_profiles env node m ps w).0
    unfolding Loads
    after_profiles-Loads (err e) w = tt
    after_profiles-Loads (ok profiles) w = after_validate-Loads profiles (validate profiles) w refl

    Loads-IsLoad : (r : Loaded) → is_chat_model m.name ≡ true → Loads m r → IsLoad (ok m) r
    unfolding Loads
    Loads-IsLoad none chat h = h
    Loads-IsLoad (some (err e)) chat h = tt
    Loads-IsLoad (some (ok (o, used, adjusted))) chat h = (m, refl, chat, h)

  after_lookup-IsLoad :
      (found : Outcome Model) (w : W) → IsLoad found (after_lookup env node found w).0
  after_lookup-IsLoad (err e) w = tt
  after_lookup-IsLoad (ok m) w = elim (Bool-cases (is_chat_model m.name)) [
    | inl chat ↦ rw chat (Loads-IsLoad m _ chat (after_profiles-Loads m (env.read_profiles w) w))
    | inr other ↦ rw other tt
  ]

  after_lock-IsLoad :
      (query : Text) (r : Bool × W)
      → IsLoad
          (resolve_model (env.discover node.models_dir r.1) node.models_dir query)
          (after_lock env node query r).0
  after_lock-IsLoad query (false, w) = tt
  after_lock-IsLoad query (true, w) = after_lookup-IsLoad _ w

  -- Whatever the files, the actuator and the probes answer, a load does not panic; and where it
  -- returns an outcome, the query named a chat model among those discovered once the lock was
  -- taken, and the outcome is about that model.
  pub load-IsLoad :
      (query : Text) (w : W)
      → IsLoad
          (resolve_model (env.discover node.models_dir (env.lock_gpu w).1) node.models_dir query)
          (load env node query w).0
  unfolding load
  load-IsLoad query w = after_lock-IsLoad query (env.lock_gpu w)
