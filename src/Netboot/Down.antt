-- ===== src/Netboot/Down.antt =====
-- src/netboot_server.rs: `down` where a record of `up` is there. What it prints is left out, and so
-- is the list of what it left alone; whether the exports file exists is an argument. The command
-- ends in an error where `failed` is not empty.
use llmtune.Prelude.{
  Bool, true, false, ◌&&◌, Option, none, some, List, [], ◌∷◌, ◌++◌, Outcome, ok, err, Text, codes,
  text_eq, path_join, if◌then◌else◌,
}
use mathlib.Core.List.{reverse}
use llmtune.Swap.Seams.{and_then}
use llmtune.Config.Netboot.{Netboot}
use llmtune.Netboot.Record.{UpState, owns_nothing}
use llmtune.Netboot.Open.{Backend, ufw, firewalld, nftables, no_firewall, Host}
use llmtune.Netboot.Close.{Closing, note_undone, remove_firewall}

unfoldable pub parse_backend : Text → Option Backend
unfolding text_eq
parse_backend s =
    if text_eq s (codes "ufw")
    then some ufw
    else if text_eq s (codes "firewalld")
    then some firewalld
    else if text_eq s (codes "nftables")
    then some nftables
    else if text_eq s (codes "none")
    then some no_firewall
    else none

abbrev models_exports : Text
models_exports = codes "/etc/exports.d/llmtune-models.exports"

abbrev note_failed : Text → Closing → Closing
note_failed why c = record c { failed = c.failed ++ why ∷ [] }

-- Nothing is owned, at the record's own firewall.
abbrev pub empty_record : UpState → UpState
empty_record st = record {
  version = 1;
  firewall_backend = st.firewall_backend;
  fw_added = [];
  nft_table_added = false;
  exports_file_added = false;
  started = [];
  enabled = [];
}

module _ {W : Type 0} (host : Host W) where
  abbrev pub close_rules : Netboot → Option Backend → UpState → W × Closing → W × Closing
  close_rules nb none st s = s
  close_rules nb (some b) st s = remove_firewall host nb b st s

  abbrev pub exports_removed : Closing → Outcome (Unit {0}) × W → W × Closing
  exports_removed c (ok x, w) = (w, note_undone (codes "exports drop-in " ++ models_exports) c)
  exports_removed c (err e, w) =
      let kept =
        note_failed (codes "exports drop-in " ++ (models_exports ++ (codes ": " ++ e))) c in
      (w, record kept { residual = record kept.residual { exports_file_added = true } })

  abbrev pub remove_exports : Bool → W × Closing → W × Closing
  remove_exports false s = s
  remove_exports true (w, c) = exports_removed c (
      and_then (host.sudo (codes "rm" ∷ codes "-f" ∷ models_exports ∷ []) w)
        (host.sudo (codes "exportfs" ∷ codes "-ra" ∷ [])))

  abbrev pub stopped : Text → Closing → Outcome (Unit {0}) × W → W × Closing
  stopped svc c (ok x, w) = (w, note_undone (codes "stopped " ++ svc) c)
  stopped svc c (err e, w) =
      let kept = note_failed (codes "stop " ++ (svc ++ (codes ": " ++ e))) c in
      (
        w,
        record kept {
          residual = record kept.residual { started = kept.residual.started ++ svc ∷ [] };
        },
      )

  unfoldable pub stop_services : List Text → W × Closing → W × Closing
  stop_services [] s = s
  stop_services (svc ∷ svcs) (w, c) =
      stop_services svcs (stopped svc c (host.sudo (codes "systemctl" ∷ codes "stop" ∷ svc ∷ []) w))

  abbrev pub disabled : Text → Closing → Outcome (Unit {0}) × W → W × Closing
  disabled svc c (ok x, w) = (w, c)
  disabled svc c (err e, w) =
      let kept = note_failed (codes "disable " ++ svc) c in
      (
        w,
        record kept {
          residual = record kept.residual { enabled = kept.residual.enabled ++ svc ∷ [] };
        },
      )

  unfoldable pub disable_services : List Text → W × Closing → W × Closing
  disable_services [] s = s
  disable_services (svc ∷ svcs) (w, c) =
      disable_services svcs
        (disabled svc c (host.sudo (codes "systemctl" ∷ codes "disable" ∷ svc ∷ []) w))

  abbrev pub closing_of : Closing → Outcome (Unit {0}) × W → Outcome Closing × W
  closing_of c (ok x, w) = (ok c, w)
  closing_of c (err e, w) = (err e, w)

  -- The record is deleted where nothing is owned any more, and rewritten else.
  abbrev pub settle : Netboot → W × Closing → Outcome Closing × W
  settle nb (w, c) = closing_of c (
      if owns_nothing c.residual
      then host.sudo (codes "rm" ∷ codes "-f" ∷ path_join nb.work_dir (codes "up-state.toml") ∷ [])
          w
      else host.save c.residual w)

  -- What the phases before the record leave.
  abbrev pub phases : Netboot → Bool → UpState → W → W × Closing
  phases nb exports_exist st w = disable_services st.enabled (
      stop_services (reverse st.started) (
        remove_exports (st.exports_file_added && exports_exist) (
          close_rules nb (parse_backend st.firewall_backend) st
            (w, record { undone = []; residual = empty_record st; failed = [] }))))

  unfoldable pub down_recorded : Netboot → Bool → UpState → W → Outcome Closing × W
  unfolding parse_backend remove_firewall stop_services disable_services owns_nothing path_join
  down_recorded nb exports_exist st w = settle nb (phases nb exports_exist st w)
