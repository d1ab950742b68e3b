-- ===== src/Build/Install.antt =====
-- src/build.rs: `install` and `rollback`.
use llmtune.Prelude.{
  ℕ, Bool, true, false, not, ◌&&◌, Option, none, some, List, [], ◌∷◌, ◌++◌, Outcome, ok, err, Text,
  codes, text_eq, find, filter, is_empty, trim, join, or_else, member, if◌then◌else◌,
}
use mathlib.Core.List.{reverse}
use llmtune.Build.Slug.{slug}
use llmtune.Build.Versions.{
  BuildSpec, Version, Tree, Disk, Builder, Action, built, already_current, switched, InstallOutcome,
  RollbackOutcome, has_bins, has_rpc, find_version, installed_slugs, to_set, is_current,
  remove_version, flip_current, activate,
}

abbrev pub build_busy : Text
build_busy = codes "another build is in progress - try again when it finishes"

abbrev unresolved_ref : BuildSpec → Text
unresolved_ref spec =
    codes "could not resolve ref `"
    ++ (spec.git_ref ++ (codes "` for build `" ++ (spec.name ++ codes "`")))

abbrev missing_bins : BuildSpec → List Text → Text
missing_bins spec files =
    codes "build `"
    ++ (spec.name
        ++ (codes "` finished but is missing binaries: "
            ++ (join (codes ", ") (filter (λ b. not (member b files)) spec.out_bins)
                ++ codes " - check cmake_flags / out_bins")))

abbrev pub is_complete : Option Version → List Text → Bool
is_complete none out_bins = false
is_complete (some v) out_bins = has_bins v.bins out_bins

abbrev pub files_of : Option Version → List Text
files_of none = []
files_of (some v) = v.bins

module _ (disk : Disk) (builder : Builder) (spec : BuildSpec) (retain : ℕ) where
  module _ (commit s : Text) (previous : Option Text) where
    abbrev installed_as : Action → List Text → InstallOutcome
    installed_as action files = record {
      name = spec.name;
      commit = commit;
      slug = s;
      action = action;
      previous = previous;
      rpc_present = has_rpc files;
    }

    abbrev pub activated :
        InstallOutcome → Outcome (Unit {0}) × Tree → Outcome InstallOutcome × Tree
    activated out (ok x, t) = (ok out, t)
    activated out (err e, t) = (err e, t)

    -- The version is there, with all its binaries.
    unfoldable pub reuse : List Text → Tree → Outcome InstallOutcome × Tree
    unfolding activate has_rpc text_eq
    reuse files t =
        if is_current t.current s
        then (ok (installed_as already_current files), t)
        else activated (installed_as switched files) (activate disk retain s t)

    abbrev pub placed : List Text → Outcome (Unit {0}) → Tree → Outcome InstallOutcome × Tree
    placed files (err e) t = (err e, t)
    placed files (ok x) t = activated (installed_as built files) (
        activate disk retain s (record t {
          versions =
              record { slug = s; bins = files } ∷ filter (λ v. not (text_eq v.slug s)) t.versions;
        }))

    -- The staging directory holds `files`.
    unfoldable pub move_in : List Text → Tree → Outcome InstallOutcome × Tree
    unfolding activate has_bins has_rpc remove_version find_version join member text_eq
    move_in files t =
        if not (has_bins files spec.out_bins)
        then (err (missing_bins spec files), t)
        else (let t₁ : Tree = record t { versions = remove_version disk s t.versions } in
            placed files (disk.place s (find_version s t₁.versions)) t₁)

    abbrev pub produced : Outcome (List Text) → Tree → Outcome InstallOutcome × Tree
    produced (err e) t = (err e, t)
    produced (ok files) t = move_in files t

    abbrev pub build_new : Outcome (Unit {0}) → Tree → Outcome InstallOutcome × Tree
    build_new (err e) t = (err e, t)
    build_new (ok x) t = produced (builder.produce spec commit) t

    abbrev pub with_dir : Outcome (Unit {0}) → Tree → Outcome InstallOutcome × Tree
    with_dir (err e) t = (err e, t)
    with_dir (ok x) t =
        let v = find_version s t.versions in
        if is_complete v spec.out_bins then reuse (files_of v) t else build_new disk.make_stage t

  abbrev pub resolved : Outcome Text → Tree → Outcome InstallOutcome × Tree
  resolved (err e) t = (err e, t)
  resolved (ok commit) t =
      if is_empty (trim commit)
      then (err (unresolved_ref spec), t)
      else with_dir commit (slug commit) t.current disk.make_dir t

  -- `install`, where `locked` says whether the lock of the builds was taken.
  unfoldable pub install : Bool → Tree → Outcome InstallOutcome × Tree
  unfolding slug trim reuse move_in find_version has_bins
  install false t = (err build_busy, t)
  install true t = resolved (builder.resolve_ref spec) t

abbrev pub is_other : Option Text → Text → Bool
is_other cur s = not (is_current cur s)

-- The version that `rollback` chooses.
unfoldable pub rollback_target : Tree → Option Text
unfolding member to_set installed_slugs text_eq
rollback_target t =
    let installed = to_set (installed_slugs t.versions) in
    or_else (find (λ s. is_other t.current s && member s installed) (reverse t.ledger))
      (find (is_other t.current) installed)

abbrev nothing_prior : Text → Text
nothing_prior name = codes "no prior version of build `" ++ (name ++ codes "` to roll back to")

abbrev pub rolled :
    Text → Option Text → Text → Outcome (Unit {0}) × Tree → Outcome RollbackOutcome × Tree
rolled name from to (err e, t) = (err e, t)
rolled name from to (ok x, t) = (ok (record { name = name; from = from; to = to }), t)

abbrev pub roll_to : Disk → Text → Option Text → Tree → Outcome RollbackOutcome × Tree
roll_to disk name none t = (err (nothing_prior name), t)
roll_to disk name (some to) t = rolled name t.current to (flip_current disk to t)

unfoldable pub rollback : Disk → Text → Bool → Tree → Outcome RollbackOutcome × Tree
unfolding rollback_target flip_current
rollback disk name false t = (err build_busy, t)
rollback disk name true t = roll_to disk name (rollback_target t) t
