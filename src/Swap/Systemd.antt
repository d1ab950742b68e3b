-- ===== src/Swap/Systemd.antt =====
-- src/swap.rs: `SystemdActuator`, which drives a real service by a drop-in.
-- `Root` is the machine as its commands change it; `write` is `sudo_tee_secret`, `remove` is `rm -f`.
-- The content that is kept for a rollback is the one that the scan has read.
pub mod Names
pub mod Restored
pub mod Ready
pub mod Owned
pub mod Swapped
use llmtune.Prelude.{
  Bool, true, false, ◌&&◌, Option, none, some, List, [], ◌∷◌, ◌++◌, ◌≡◌, Outcome, ok, err, is_ok,
  Text, codes, text_eq, get, All, if◌then◌else◌,
}
use llmtune.Swap.Seams.{Actuator, and_then}
use llmtune.Swap.Dropins.{Dropin, Found, collect_dropins, winning_name, etc_unit_dir, run_unit_dir}

pub record Root (W : Type 0) : Type 0 where
  pub mkdir : Text → W → Outcome (Unit {0}) × W
  pub write : Text → Text → Text → W → Outcome (Unit {0}) × W
  pub remove : Text → Text → W → Outcome (Unit {0}) × W
  pub systemctl : List Text → W → Outcome (Unit {0}) × W
  pub read_dir : W → Text → List (Text × Text)
  pub etc_writable : W → Bool

-- The fields of `SystemdActuator`: the drop-in that was written, and the first one that was removed.
pub record Staged : Type 0 where
  pub wrote : Option (Text × Text)
  pub removed_self : Option Dropin

abbrev pub fresh : Staged
fresh = record { wrote = none; removed_self = none }

abbrev pub backup_dir : Text
backup_dir = codes "/var/lib/llmtune/backups"

-- `dropin_dir`
abbrev pub dropin_dir : Bool → Text → Text
dropin_dir etc_writable unit =
    (if etc_writable then etc_unit_dir else run_unit_dir) ++ (codes "/" ++ (unit ++ codes ".d"))

module _ {W : Type 0} (root : Root W) where
  -- `rm -f` on each; what it answers is not looked at.
  unfoldable pub remove_dropins : List Dropin → W → W
  remove_dropins [] w = w
  remove_dropins (p ∷ ps) w = remove_dropins ps (root.remove p.dir p.name w).1

  abbrev pub backed_up : Text → Dropin → W → W
  backed_up unit p w =
      let (_, w₁) = root.mkdir backup_dir w in
      let (_, w₂) = root.write backup_dir (unit ++ codes ".dropin.prev") p.content w₁ in w₂

  -- All own drop-ins are removed, and the first is kept for a rollback.
  abbrev pub clear_own : Text → List Dropin → W × Staged → W × Staged
  clear_own unit [] (w, st) = (w, st)
  clear_own unit (p ∷ ps) (w, st) =
      (remove_dropins (p ∷ ps) (backed_up unit p w), record st { removed_self = some p })

  abbrev pub noted :
      Text × Text → Staged → Outcome (Unit {0}) × W → Outcome (Unit {0}) × (W × Staged)
  noted path st (err e, w) = (err e, (w, st))
  noted path st (ok x, w) = (ok x, (w, record st { wrote = some path }))

  abbrev pub written :
      Text × Text → Text → Staged → Outcome (Unit {0}) × W → Outcome (Unit {0}) × (W × Staged)
  written path dropin st (err e, w) = (err e, (w, st))
  written path dropin st (ok x, w) = noted path st (root.write path.0 path.1 dropin w)

  abbrev pub write_own : Text × Text → Text → W × Staged → Outcome (Unit {0}) × (W × Staged)
  write_own path dropin (w, st) = written path dropin st (root.mkdir path.0 w)

  abbrev pub found_in : Text → W → Found
  found_in unit w = collect_dropins (root.etc_writable w) (root.read_dir w) unit

  -- Where the drop-in goes.
  abbrev pub target : Text → W → Text × Text
  target unit w = (dropin_dir (root.etc_writable w) unit, winning_name (found_in unit w).foreign)

  unfoldable pub stage : Text → Text → W × Staged → Outcome (Unit {0}) × (W × Staged)
  unfolding collect_dropins winning_name remove_dropins
  stage unit dropin (w, st) =
      write_own (target unit w) dropin (clear_own unit (found_in unit w).ours (w, st))

  abbrev pub remove_wrote : Option (Text × Text) → W → Outcome (Unit {0}) × W
  remove_wrote none w = (ok tt, w)
  remove_wrote (some path) w = root.remove path.0 path.1 w

  abbrev pub put_back : Option Dropin → W → Outcome (Unit {0}) × W
  put_back none w = (ok tt, w)
  put_back (some p) w = root.write p.dir p.name p.content w

  -- What was written is forgotten before its removal is tried, and so is what was removed.
  abbrev pub unwritten : Option Dropin → Outcome (Unit {0}) × W → Outcome (Unit {0}) × (W × Staged)
  unwritten removed (err e, w) = (err e, (w, record { wrote = none; removed_self = removed }))
  unwritten removed (ok x, w) = let (r, w₁) = put_back removed w in (r, (w₁, fresh))

  unfoldable pub rollback : Text → W × Staged → Outcome (Unit {0}) × (W × Staged)
  rollback unit (w, st) = unwritten st.removed_self (remove_wrote st.wrote w)

  unfoldable pub commit : W × Staged → Outcome (Unit {0}) × (W × Staged)
  commit (w, st) = (ok tt, (w, record st { removed_self = none }))

  -- `daemon-reload`, `reset-failed`, whose failure is ignored, and `restart`.
  abbrev restarted : Text → W → Outcome (Unit {0}) × W
  restarted unit w = and_then (root.systemctl (codes "daemon-reload" ∷ []) w) (λ w₁.
      let (_, w₂) = root.systemctl (codes "reset-failed" ∷ unit ∷ []) w₁ in
      root.systemctl (codes "restart" ∷ unit ∷ []) w₂)

  unfoldable pub reload_restart : Text → W × Staged → Outcome (Unit {0}) × (W × Staged)
  reload_restart unit (w, st) = let (r, w₁) = restarted unit w in (r, (w₁, st))

  unfoldable pub systemd_actuator : Actuator (W × Staged)
  unfolding stage rollback commit reload_restart
  systemd_actuator = record {
    stage = stage;
    rollback = rollback;
    commit = commit;
    reload_restart = reload_restart;
  }

  -- The content of a file.
  abbrev pub file : W → Text → Text → Option Text
  file w dir name = get name (root.read_dir w dir)

abbrev pub is_at : Text × Text → Text → Text → Bool
is_at path dir name = text_eq path.0 dir && text_eq path.1 name

-- What the file commands do to files: they change the one that is named, the way they should where
-- they succeed. The file that a write which fails has named may hold anything.
pub record IsRoot {W : Type 0} (root : Root W) : Type 0 where
  pub distinct_names :
      (w : W) (dir : Text)
      → All (λ f. get f.0 (root.read_dir w dir) ≡ some f.1) (root.read_dir w dir)
  pub mkdir_keeps :
      (made : Text) (w : W) (dir name : Text)
      → file root (root.mkdir made w).1 dir name ≡ file root w dir name
  pub write_keeps :
      (path : Text × Text) (content : Text) (w : W) (dir name : Text)
      → is_at path dir name ≡ false
      → file root (root.write path.0 path.1 content w).1 dir name ≡ file root w dir name
  pub write_writes :
      (path : Text × Text) (content : Text) (w : W)
      → is_ok (root.write path.0 path.1 content w).0 ≡ true
      → file root (root.write path.0 path.1 content w).1 path.0 path.1 ≡ some content
  pub remove_keeps :
      (path : Text × Text) (w : W) (dir name : Text)
      → is_at path dir name ≡ false
      → file root (root.remove path.0 path.1 w).1 dir name ≡ file root w dir name
  pub remove_removes :
      (path : Text × Text) (w : W)
      → is_ok (root.remove path.0 path.1 w).0 ≡ true
      → file root (root.remove path.0 path.1 w).1 path.0 path.1 ≡ none
