-- ===== src/Netboot/Recorded.antt =====
-- src/netboot_server.rs: the record names what was opened, wherever the phase ends.
use llmtune.Prelude.{
  ◌≡◌, Bool, true, false, ◌||◌, List, ◌++◌, Outcome, is_ok, Text, codes, text_eq, member,
}
use llmtune.Config.Netboot.{Netboot}
use llmtune.Netboot.Ports.{PortRule, token}
use llmtune.Netboot.Record.{UpState}
use llmtune.Netboot.Open.{Backend, Host, add_argv, reload_argv, nft_argv, chain_argv}

-- The record on disk beside the one in hand: the same on a disk that takes every record, and on any
-- other disk an initial part of it.
abbrev pub IsOnDisk : Bool → List Text → List Text → Type 0
IsOnDisk true saved own = saved ≡ own
IsOnDisk false saved own = (missing : List Text) × (own ≡ saved ++ missing)

-- What the commands do to the ports that the firewall lets in, `live` by their tokens, and to the
-- record on disk. A command that adds a rule adds that one or fails and adds none; a save writes the
-- record or fails and leaves the one that was there, and on a disk of which `takes` holds it never
-- fails. The ports of firewalld are those of its permanent configuration, which `--permanent`
-- changes and a reload brings into effect.
pub record IsHost {W : Type 0} (host : Host W) (cidr : Text) (live : W → Text → Bool)
    (recorded : W → List Text) (takes : Bool) : Type 0 where
  pub adds :
      (backend : Backend) (r : PortRule) (w : W) (t : Text)
      → is_ok (host.sudo (add_argv backend cidr r) w).0 ≡ true
      → live (host.sudo (add_argv backend cidr r) w).1 t ≡ text_eq (token r) t || live w t
  pub refuses :
      (backend : Backend) (r : PortRule) (w : W) (t : Text)
      → is_ok (host.sudo (add_argv backend cidr r) w).0 ≡ false
      → live (host.sudo (add_argv backend cidr r) w).1 t ≡ live w t
  pub reload_keeps : (w : W) (t : Text) → live (host.sudo reload_argv w).1 t ≡ live w t
  pub table_keeps :
      (w : W) (t : Text)
      → live (host.sudo (nft_argv (codes "add") (codes "table")) w).1 t ≡ live w t
  pub chain_keeps : (w : W) (t : Text) → live (host.sudo chain_argv w).1 t ≡ live w t
  pub sudo_keeps_record : (argv : List Text) (w : W) → recorded (host.sudo argv w).1 ≡ recorded w
  pub save_records :
      (st : UpState) (w : W)
      → is_ok (host.save st w).0 ≡ true
      → recorded (host.save st w).1 ≡ st.fw_added
  pub save_refused :
      (st : UpState) (w : W)
      → is_ok (host.save st w).0 ≡ false
      → recorded (host.save st w).1 ≡ recorded w
  pub save_takes : (st : UpState) (w : W) → takes ≡ true → is_ok (host.save st w).0 ≡ true
  pub save_keeps : (st : UpState) (w : W) (t : Text) → live (host.save st w).1 t ≡ live w t

module _ {W : Type 0} {host : Host W} {cidr : Text} {live : W → Text → Bool}
    {recorded : W → List Text} {takes : Bool} (laws : IsHost host cidr live recorded takes)
    (t : Text) where
  -- `new` was opened between the two states, and is recorded behind what was.
  abbrev pub IsRecorded : W → UpState → W → UpState → List Text → Type 0
  IsRecorded w st w₁ st₁ new =
      (st₁.fw_added ≡ st.fw_added ++ new)
      × IsOnDisk takes (recorded w₁) st₁.fw_added
      × (live w₁ t ≡ member t new || live w t)

  abbrev pub AreRecorded : W → UpState → Outcome (Unit {0}) × (W × UpState) → Type 0
  AreRecorded w st r = (new : List Text) × IsRecorded w st r.1.0 r.1.1 new

  -- What a phase keeps, from every state whose record is saved.
  abbrev Records : (W × UpState → Outcome (Unit {0}) × (W × UpState)) → Type 0
  Records next =
      (w : W) (st : UpState)
      → IsOnDisk takes (recorded w) st.fw_added
      → AreRecorded w st (next (w, st))
