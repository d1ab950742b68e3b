-- ===== src/Build/Versions.antt =====
-- src/build.rs: the versions of one managed build on disk, `install`, `rollback` and `gc`.
-- A build's directory is its version directories, what `current` points at, and the ledger, read as
-- the empty list where it cannot be read. What the disk refuses is an argument, `Disk`. The directory
-- that an outcome names is the one of its slug. No commit has the name `current`, which is the link's.
use llmtune.Prelude.{
  ℕ, Bool, true, false, not, ◌&&◌, ◌||◌, Option, none, some, List, [], ◌∷◌, ◌++◌, Outcome, ok, err,
  Text, codes, text_eq, text_lt, starts_with, all, find, filter, take, map, member, if◌then◌else◌,
}
use Prim.Native.Nat.{max}
use mathlib.Core.List.{reverse}
use llmtune.Swap.Seams.{and_then}

pub record BuildSpec : Type 0 where
  pub name : Text
  pub git_url : Text
  pub git_ref : Text
  pub cmake_flags : Text
  pub out_bins : List Text

-- A version directory with the names of its files.
pub record Version : Type 0 where
  pub slug : Text
  pub bins : List Text

pub record Tree : Type 0 where
  pub versions : List Version
  pub current : Option Text
  pub ledger : List Text

-- The answers of the file system. `left` is what stays of a directory that is removed; `place` is
-- the rename of the staging directory to a version that holds the given files, if it is there.
pub record Disk : Type 0 where
  pub make_dir : Outcome (Unit {0})
  pub make_stage : Outcome (Unit {0})
  pub link : Text → Outcome (Unit {0})
  pub place : Text → Option Version → Outcome (Unit {0})
  pub write_ledger : List Text → Outcome (Unit {0})
  pub left : Text → Option (List Text)

-- `trait Builder`; `produce` fills the staging directory with files.
pub record Builder : Type 0 where
  pub resolve_ref : BuildSpec → Outcome Text
  pub produce : BuildSpec → Text → Outcome (List Text)

pub data Action : Type 0 where
  built already_current switched : Action

pub record InstallOutcome : Type 0 where
  pub name : Text
  pub commit : Text
  pub slug : Text
  pub action : Action
  pub previous : Option Text
  pub rpc_present : Bool

pub record RollbackOutcome : Type 0 where
  pub name : Text
  pub from : Option Text
  pub to : Text

unfoldable pub has_bins : List Text → List Text → Bool
unfolding member
has_bins files out_bins = all (λ b. member b files) out_bins

unfoldable pub has_rpc : List Text → Bool
unfolding member
has_rpc files = member (codes "ggml-rpc-server") files || member (codes "rpc-server") files

-- The version directory of that name.
unfoldable pub find_version : Text → List Version → Option Version
unfolding text_eq
find_version s vs = find (λ v. text_eq v.slug s) vs

-- What `installed_slugs` takes for a version.
unfoldable pub is_visible : Text → Bool
unfolding text_eq starts_with
is_visible n = not (text_eq n (codes "current")) && not (starts_with n (codes "."))

unfoldable pub installed_slugs : List Version → List Text
unfolding is_visible
installed_slugs vs = filter is_visible (map (λ v. v.slug) vs)

-- A `BTreeSet` is a list in strictly increasing order.
unfoldable pub insert_text : Text → List Text → List Text
unfolding text_eq text_lt
insert_text s [] = s ∷ []
insert_text s (t ∷ ts) =
    let rest = insert_text s ts in
    if text_eq t s then t ∷ ts else if text_lt s t then s ∷ t ∷ ts else t ∷ rest

unfoldable pub to_set : List Text → List Text
unfolding insert_text
to_set [] = []
to_set (s ∷ ss) = insert_text s (to_set ss)

abbrev pub is_current : Option Text → Text → Bool
is_current none s = false
is_current (some c) s = text_eq c s

abbrev pub what_is_left : Text → Option (List Text) → Option Version
what_is_left s none = none
what_is_left s (some files) = some (record { slug = s; bins = files })

abbrev pub put_left : Option Version → List Version → List Version
put_left none vs = vs
put_left (some v) vs = v ∷ vs

-- What `gc` keeps: the newest installed entries of the ledger, and the current version.
unfoldable pub is_kept : ℕ → Tree → Text → Bool
unfolding member to_set installed_slugs
is_kept retain t s =
    let installed = to_set (installed_slugs t.versions) in
    member s (take (max retain 1) (filter (λ x. member x installed) (reverse t.ledger)))
    || is_current t.current s

abbrev pub same_texts : List Text → List Text → Bool
same_texts [] [] = true
same_texts [] (y ∷ ys) = false
same_texts (x ∷ xs) [] = false
same_texts (x ∷ xs) (y ∷ ys) = text_eq x y && same_texts xs ys

module _ (disk : Disk) where
  -- `remove_dir_all` of a version.
  unfoldable pub remove_version : Text → List Version → List Version
  unfolding text_eq
  remove_version s [] = []
  remove_version s (v ∷ vs) =
      let rest = remove_version s vs in
      if text_eq v.slug s then put_left (what_is_left s (disk.left s)) rest else v ∷ rest

  unfoldable pub remove_versions : List Text → List Version → List Version
  unfolding remove_version
  remove_versions [] vs = vs
  remove_versions (s ∷ ss) vs = remove_versions ss (remove_version s vs)

  abbrev pub linked : Text → Tree → Outcome (Unit {0}) → Outcome (Unit {0}) × Tree
  linked s t (ok x) = (ok tt, record t { current = some s })
  linked s t (err e) = (err e, t)

  unfoldable pub flip_current : Text → Tree → Outcome (Unit {0}) × Tree
  flip_current s t = linked s t (disk.link s)

  abbrev pub written : List Text → Tree → Outcome (Unit {0}) → Outcome (Unit {0}) × Tree
  written order t (ok x) = (ok tt, record t { ledger = order })
  written order t (err e) = (err e, t)

  unfoldable pub ledger_save : List Text → Tree → Outcome (Unit {0}) × Tree
  ledger_save order t = written order t (disk.write_ledger order)

  unfoldable pub ledger_touch : Text → Tree → Outcome (Unit {0}) × Tree
  unfolding ledger_save text_eq
  ledger_touch s t = ledger_save (filter (λ x. not (text_eq x s)) t.ledger ++ s ∷ []) t

  unfoldable pub gc : ℕ → Tree → Outcome (Unit {0}) × Tree
  unfolding is_kept remove_versions ledger_save to_set installed_slugs text_eq
  gc retain t =
      let gone = filter (λ s. not (is_kept retain t s)) (to_set (installed_slugs t.versions)) in
      let t₁ : Tree = record t { versions = remove_versions gone t.versions } in
      let pruned = filter (is_kept retain t) t.ledger in
      if same_texts pruned t.ledger then (ok tt, t₁) else ledger_save pruned t₁

  -- `flip_current`, `ledger_touch` and `gc`, each if the one before succeeds.
  unfoldable pub activate : ℕ → Text → Tree → Outcome (Unit {0}) × Tree
  unfolding flip_current ledger_touch gc
  activate retain s t = and_then (flip_current s t) (λ t₁. and_then (ledger_touch s t₁) (gc retain))
