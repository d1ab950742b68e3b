-- ===== src/Netboot/Kept.antt =====
-- src/netboot_server.rs: `down` closes every port of the record, or leaves it in the record on disk.
use llmtune.Prelude.{
  ◌≡◌, ◌⊎◌, Bool, true, false, List, [], ◌∷◌, Outcome, is_ok, Text, codes, member, path_join,
}
use llmtune.Config.Netboot.{Netboot}
use llmtune.Netboot.Record.{UpState}
use llmtune.Netboot.Open.{Host}
use llmtune.Netboot.Close.{Closing}
use llmtune.Netboot.Closed.{IsClosing}

-- A save that succeeds has written the record, one that fails has left the record that was there,
-- and neither opens a port.
pub record IsSaving {W : Type 0} (host : Host W) (live : W → Text → Bool) (recorded : W → List Text)
    : Type 0 where
  pub save_records :
      (st : UpState) (w : W)
      → is_ok (host.save st w).0 ≡ true
      → recorded (host.save st w).1 ≡ st.fw_added
  pub save_refused :
      (st : UpState) (w : W)
      → is_ok (host.save st w).0 ≡ false
      → recorded (host.save st w).1 ≡ recorded w
  pub save_opens_none :
      (st : UpState) (w : W) (t : Text) → live w t ≡ false → live (host.save st w).1 t ≡ false

module _ {W : Type 0} {host : Host W} {live : W → Text → Bool} {recorded : W → List Text}
    (nb : Netboot) (laws : IsClosing host nb.lan_cidr live) (saving : IsSaving host live recorded)
    (t : Text) where
  -- Closed, or named by the record on disk; or `down` fails, with the record on disk as the phases
  -- before its rewriting, which ended in `before`, left it.
  abbrev pub IsSettled : W → Outcome Closing × W → Type 0
  IsSettled before out =
      (live out.1 t ≡ false)
      ⊎ (member t (recorded out.1) ≡ true)
      ⊎ ((is_ok out.0 ≡ false) × (recorded out.1 ≡ recorded before))

  remove_record : List Text
  remove_record = codes "rm" ∷ codes "-f" ∷ path_join nb.work_dir (codes "up-state.toml") ∷ []
