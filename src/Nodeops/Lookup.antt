-- ===== src/Nodeops/Lookup.antt =====
-- src/nodeops.rs: `resolve_model`, on the models that were discovered.
use llmtune.Prelude.{
  Bool, List, [], ◌∷◌, ◌++◌, Outcome, ok, err, Text, codes, join, map, take, filter, is_empty,
  contains, to_lowercase, trim, if◌then◌else◌,
}
use llmtune.Model.{Model}

abbrev pub blank_query : Text
blank_query = codes "provide a model name or substring to match (got a blank query)"

abbrev pub matches : Text → Model → Bool
matches q m = contains (to_lowercase m.name) q

abbrev model_name : Model → Text
model_name m = m.name

abbrev no_match : Text → Text → Text
no_match query models_dir = codes "no model matches `" ++ (query ++ (codes "` in " ++ models_dir))

abbrev ambiguous : Text → List Model → Text
ambiguous query ms =
    codes "ambiguous `"
    ++ (query ++ (codes "` - matches: " ++ join (codes ", ") (map model_name (take 8 ms))))

-- The choice among the models that match.
abbrev pub the_one : Text → Text → List Model → Outcome Model
the_one query models_dir [] = err (no_match query models_dir)
the_one query models_dir (m ∷ []) = ok m
the_one query models_dir (m ∷ n ∷ ms) = err (ambiguous query (m ∷ n ∷ ms))

abbrev pub among : Text → Text → Text → Outcome (List Model) → Outcome Model
among q query models_dir (err e) = err e
among q query models_dir (ok models) = the_one query models_dir (filter (matches q) models)

-- `resolve_model` where `discovered` is what `discover` returns on the node's directory.
unfoldable pub resolve_model : Outcome (List Model) → Text → Text → Outcome Model
unfolding trim to_lowercase contains join
resolve_model discovered models_dir query =
    let q = to_lowercase (trim query) in
    if is_empty q then err blank_query else among q query models_dir discovered
