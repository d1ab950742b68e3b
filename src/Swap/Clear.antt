-- ===== src/Swap/Clear.antt =====
-- src/swap.rs: `clear_dropin`, which takes every drop-in of llmtune off a unit.
use llmtune.Prelude.{Bool, List, [], ◌∷◌, Outcome, ok, Text, codes, contains, path_join}
use llmtune.Swap.Seams.{and_then}
use llmtune.Swap.Dropins.{Dropin, collect_dropins_in, scan_dirs}

-- `sudo` runs a privileged command; `read_dir` and `etc_writable` look at the machine's directories.
pub record Shell (W : Type 0) : Type 0 where
  pub sudo : List Text → W → Outcome (Unit {0}) × W
  pub read_dir : W → Text → List (Text × Text)
  pub etc_writable : W → Bool

abbrev pub llmtune_prefix : Text
llmtune_prefix = codes "AUTO-GENERATED by llmtune"

module _ {W : Type 0} (shell : Shell W) where
  unfoldable pub dropins_of : Text → W → List Dropin
  unfolding collect_dropins_in scan_dirs contains
  dropins_of unit w =
      let found =
        collect_dropins_in (λ t. contains t llmtune_prefix) (shell.read_dir w)
          (scan_dirs (shell.etc_writable w) unit) in
      found.ours

  -- The loop that removes the drop-ins; the first failure ends it.
  unfoldable pub remove_all : List Dropin → W → Outcome (Unit {0}) × W
  unfolding path_join
  remove_all [] w = (ok tt, w)
  remove_all (p ∷ ps) w =
      and_then (shell.sudo (codes "rm" ∷ codes "-f" ∷ path_join p.dir p.name ∷ []) w)
        (remove_all ps)

  -- `daemon-reload`, `reset-failed`, whose failure is ignored, and `restart`.
  unfoldable pub restart_base : Text → W → Outcome (Unit {0}) × W
  restart_base unit w =
      and_then (shell.sudo (codes "systemctl" ∷ codes "daemon-reload" ∷ []) w) (λ w₁.
        let (_, w₂) = shell.sudo (codes "systemctl" ∷ codes "reset-failed" ∷ unit ∷ []) w₁ in
        shell.sudo (codes "systemctl" ∷ codes "restart" ∷ unit ∷ []) w₂)

  unfoldable pub clear_dropin : Text → W → Outcome (Unit {0}) × W
  unfolding dropins_of remove_all restart_base
  clear_dropin unit w = and_then (remove_all (dropins_of unit w) w) (restart_base unit)
