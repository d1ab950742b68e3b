-- ===== src/Netboot/Reach.antt =====
-- src/netboot_server.rs: `diagnose`, which judges the evidence that the server can be reached, and
-- `parse_probe_output`, which reads the part of it that comes from another host.
use llmtune.Prelude.{
  ℕ, ◌≡◌, refl, Bool, true, false, not, ◌&&◌, ◌==◌, ◌∙◌, Option, none, some, List, [], ◌∷◌, ◌++◌,
  Text, codes, text_eq, show, join, map, filter, find, all, any, is_empty, lines, trim, split_once,
  arith, Bool-cases, inl, inr, if◌then◌else◌,
}
use llmtune.Nodeops.Bind.{parse_u16}
use llmtune.Netboot.Open.{Backend, ufw, firewalld, nftables, no_firewall}

pub record PortCheck : Type 0 where
  pub port : ℕ
  pub ok : Bool

pub record ReachReport : Type 0 where
  pub local : List PortCheck
  pub remote_host : Option Text
  pub remote : List PortCheck
  pub busy : List (ℕ × Text)

pub data Verdict : Type 0 where
  reachable local_only_unproven : Verdict
  interference not_listening : List ℕ → Verdict
  port_in_use : List (ℕ × Text) → Verdict

abbrev pub ports_of : List PortCheck → List ℕ
ports_of cs = map (λ c. c.port) cs

-- The ports that do not answer.
abbrev pub dead : List PortCheck → List ℕ
dead cs = ports_of (filter (λ c. not c.ok) cs)

abbrev found_owner : Option (ℕ × Text) → List (ℕ × Text) → List (ℕ × Text)
found_owner none rest = rest
found_owner (some o) rest = o ∷ rest

-- The dead ports that something else holds, with what it is.
unfoldable pub owners : List (ℕ × Text) → List ℕ → List (ℕ × Text)
owners busy [] = []
owners busy (p ∷ ps) = found_owner (find (λ b. b.0 == p) busy) (owners busy ps)

unfoldable pub fmt_ports : List ℕ → Text
unfolding show join
fmt_ports ps = join (codes ", ") (map (λ p. codes ":" ++ show p) ps)

abbrev owner_label : ℕ × Text → Text
owner_label o = codes ":" ++ (show o.0 ++ (codes " (" ++ (o.1 ++ codes ")")))

abbrev in_use : List (ℕ × Text) → Text
in_use owned =
    join (codes ", ") (map owner_label owned)
    ++ codes
        " already in use by another process - set a different `http_port` in [netboot] (fleet.toml), re-run `netboot init --apply`, then `netboot up`"

abbrev service_down : List ℕ → Text
service_down ps =
    codes "not listening on "
    ++ (fmt_ports ps
        ++ codes
            " even locally - a service is down (check `systemctl status llmtune-netboot.service nfs-server`), not a firewall problem")

abbrev unproven : Text
unproven =
    codes
      "listening locally, but NO off-host proof: localhost reachability does NOT prove LAN reachability (a firewall drops LAN SYNs pre-accept with zero log while local curl works). Register an ssh node (`netboot nodes --register`) or probe from another host: curl http://<server_ip>:<port>/boot.ipxe"

abbrev hint : Backend → Text
hint ufw = codes "check `ufw status` for the llmtune-netboot rules"
hint firewalld = codes "check `firewall-cmd --list-rich-rules`"
hint nftables =
    codes
      "another nft table's hook chain is likely dropping - an accept in llmtune's table cannot override a drop elsewhere; inspect `nft list ruleset`"
hint no_firewall =
    codes
      "no firewall backend was detected, yet the LAN cannot connect - check for an unmanaged filter (iptables? a NIC-level ACL?)"

abbrev host_or_unknown : Option Text → Text
host_or_unknown none = codes "?"
host_or_unknown (some h) = h

abbrev blocked : List ℕ → Option Text → Backend → Text
blocked ps host b =
    codes "INTERFERING FIREWALL: listening locally but "
    ++ (fmt_ports ps
        ++ (codes " unreachable from "
            ++ (host_or_unknown host
                ++ (codes " (SYN dropped pre-accept - this never shows in the HTTP log); "
                    ++ hint b))))

abbrev all_open : List ℕ → Option Text → Text
all_open ps host =
    codes "reachable from "
    ++ (host_or_unknown host ++ (codes ": " ++ (fmt_ports ps ++ codes " all open off-host")))

unfoldable pub diagnose : ReachReport → Backend → Verdict × Text
unfolding owners fmt_ports show join
diagnose r b =
    let dead_local = dead r.local in
    let owned = owners r.busy dead_local in
    let far = dead r.remote in
    if not (is_empty dead_local)
    then (if not (is_empty owned)
        then (port_in_use owned, in_use owned)
        else (not_listening dead_local, service_down dead_local))
    else if is_empty r.remote
    then (local_only_unproven, unproven)
    else if not (is_empty far)
    then (interference far, blocked far r.remote_host b)
    else (reachable, all_open (ports_of r.remote) r.remote_host)

abbrev checked_port : Option ℕ → Bool → Option PortCheck
checked_port none up = none
checked_port (some p) up = some (record { port = p; ok = up })

abbrev probe_line : Option (Text × Text) → Option PortCheck
probe_line none = none
probe_line (some (p, verdict)) =
    if text_eq verdict (codes "open")
    then checked_port (parse_u16 p) true
    else if text_eq verdict (codes "closed")
    then checked_port (parse_u16 p) false
    else none

abbrev with_check : Option PortCheck → List PortCheck → List PortCheck
with_check none cs = cs
with_check (some c) cs = c ∷ cs

unfoldable pub probe_lines : List Text → List PortCheck
unfolding parse_u16 split_once trim text_eq
probe_lines [] = []
probe_lines (l ∷ ls) = with_check (probe_line (split_once 32 (trim l))) (probe_lines ls)

-- A line that is none of the probe's is skipped.
unfoldable pub parse_probe_output : Text → List PortCheck
unfolding probe_lines lines
parse_probe_output out = probe_lines (lines out)

-- What a verdict says.
abbrev pub is_proof : Verdict → Bool
is_proof reachable = true
is_proof v = false

abbrev pub is_unproven : Verdict → Bool
is_unproven local_only_unproven = true
is_unproven v = false

abbrev pub blames_firewall : Verdict → Bool
blames_firewall (interference ps) = true
blames_firewall v = false

-- A service is down.
abbrev pub blames_service : Verdict → Bool
blames_service (not_listening ps) = true
blames_service v = false

-- The configuration names a port that another process has.
abbrev pub blames_owner : Verdict → Bool
blames_owner (port_in_use os) = true
blames_owner v = false

-- The evidence names a process on the port.
abbrev pub is_held : List (ℕ × Text) → ℕ → Bool
is_held busy p = any (λ b. b.0 == p) busy

-- A port that does not answer is held by another process.
abbrev pub is_taken : List (ℕ × Text) → List PortCheck → Bool
is_taken busy cs = any (λ c. not c.ok && is_held busy c.port) cs

abbrev pub alive : List PortCheck → Bool
alive cs = all (λ c. c.ok) cs

dead-alive : (cs : List PortCheck) → is_empty (dead cs) ≡ alive cs
dead-alive [] = refl
dead-alive (c ∷ cs) = elim (Bool-cases c.ok) [
  | inl up ↦ rw up (dead-alive cs)
  | inr down ↦ rw down refl
]

taken-dead :
    (busy : List (ℕ × Text)) (cs : List PortCheck) → alive cs ≡ true → is_taken busy cs ≡ false
taken-dead busy [] h = refl
taken-dead busy (c ∷ cs) h = ground (arith, taken-dead busy cs)

found_owner-held :
    (p : ℕ) (busy rest : List (ℕ × Text))
    → is_empty (found_owner (find (λ b. b.0 == p) busy) rest)
      ≡ not (is_held busy p) && is_empty rest
found_owner-held p [] rest = ground arith
found_owner-held p (b ∷ busy) rest = elim (Bool-cases (b.0 == p)) [
  | inl same ↦ rw same refl
  | inr other ↦ rw other (found_owner-held p busy rest)
]

owners-taken :
    (busy : List (ℕ × Text)) (cs : List PortCheck)
    → is_empty (owners busy (dead cs)) ≡ not (is_taken busy cs)
unfolding owners
owners-taken busy [] = refl
owners-taken busy (c ∷ cs) = elim (Bool-cases c.ok) [
  | inl up ↦ rw up (owners-taken busy cs)
  | inr down ↦
      rw down (
        found_owner-held c.port busy (owners busy (dead cs)) ∙ ground (arith, owners-taken busy cs))
]

-- Which of the five verdicts it is, exactly: reachability is proven where every local port answers
-- and another host has looked and every port it looked at answered; it is unproven where all local
-- ones answer and no other host has looked; a firewall is blamed where all local ones answer and
-- another host saw one that does not; another process is blamed where the evidence has it on a
-- local port that does not answer; and a service is blamed where a local port does not answer and
-- none that does not is held by another process.
pub diagnose-verdict :
    (r : ReachReport) (b : Backend)
    → let v = (diagnose r b).0 in
      (is_proof v ≡ alive r.local && (not (is_empty r.remote) && alive r.remote))
      × (is_unproven v ≡ alive r.local && is_empty r.remote)
      × (blames_firewall v ≡ alive r.local && (not (is_empty r.remote) && not (alive r.remote)))
      × (blames_owner v ≡ is_taken r.busy r.local)
      × (blames_service v ≡ not (alive r.local) && not (is_taken r.busy r.local))
unfolding diagnose
diagnose-verdict r b = elim (Bool-cases (is_empty (dead r.local))) [
  | inl none_dead ↦ elim (Bool-cases (is_empty r.remote)) [
    | inl nobody ↦
        rw (none_dead, nobody)
          (ground (arith, dead-alive r.local, taken-dead r.busy r.local, none_dead, nobody))
    | inr somebody ↦ elim (Bool-cases (is_empty (dead r.remote))) [
      | inl all_far ↦
          rw (none_dead, somebody, all_far)
            (ground (
              arith,
              dead-alive r.local,
              taken-dead r.busy r.local,
              dead-alive r.remote,
              none_dead,
              somebody,
              all_far,
            ))
      | inr some_far ↦
          rw (none_dead, somebody, some_far)
            (ground (
              arith,
              dead-alive r.local,
              taken-dead r.busy r.local,
              dead-alive r.remote,
              none_dead,
              somebody,
              some_far,
            ))
    ]
  ]
  | inr some_dead ↦ elim (Bool-cases (is_empty (owners r.busy (dead r.local)))) [
    | inl unowned ↦
        rw (some_dead, unowned)
          (ground (arith, dead-alive r.local, owners-taken r.busy r.local, some_dead))
    | inr owned ↦
        rw (some_dead, owned)
          (ground (arith, dead-alive r.local, owners-taken r.busy r.local, some_dead))
  ]
]
