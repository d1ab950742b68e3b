-- ===== src/Tests/NetbootRuns.antt =====
-- The boot server on a machine that filters by ufw, and its record.
use llmtune.Prelude.{
  ◌≡◌, refl, Bool, true, false, not, ◌&&◌, ◌||◌, some, List, [], ◌∷◌, ◌++◌, Outcome, ok, err, Text,
  codes, text_eq, filter, is_empty, member, arith,
}
use llmtune.Netboot.Ports.{PortRule, tcp, udp, token, parse_rule_token}
use llmtune.Netboot.Record.{UpState, merge_prior, owns_nothing, merge_prior-owns}
use llmtune.Netboot.Tokens.{parse_rule_token-token}
use llmtune.Netboot.Open.{ufw, Host, open_firewall}
use llmtune.Netboot.Reach.{
  ReachReport, interference, port_in_use, diagnose, parse_probe_output, is_proof, is_unproven,
  blames_firewall, blames_service, blames_owner, is_taken, alive, diagnose-verdict,
}
use llmtune.Tests.ConfigRuns.{netboot}

-- The open ports, and the ports of the record.
abbrev Machine : Type 0
Machine = List Text × List Text

abbrev opened : Bool → Text → Machine → Outcome (Unit {0}) × Machine
opened true t (live, saved) = (ok tt, (t ∷ live, saved))
opened false t w = (err (codes "refused"), w)

-- Only ufw is there.
abbrev is_ufw : List Text → Bool
is_ufw [] = false
is_ufw (a ∷ args) = text_eq a (codes "ufw")

abbrev ufw_token : List Text → Text
ufw_token (a ∷ b ∷ c ∷ d ∷ e ∷ f ∷ g ∷ port ∷ h ∷ proto ∷ args) = port ++ (codes "/" ++ proto)
ufw_token args = []

unfoldable ufw_host : Host Machine
unfolding text_eq
ufw_host = record {
  sudo = λ argv. opened (is_ufw argv) (ufw_token argv);
  query = λ argv w. [];
  save = λ st w. (ok tt, (w.0, st.fw_added));
}

abbrev is_live : Machine → Text → Bool
is_live w t = member t w.0

abbrev on_disk : Machine → List Text
on_disk w = w.1

abbrev nothing_up : UpState
nothing_up = record {
  version = 1;
  firewall_backend = codes "ufw";
  fw_added = [];
  nft_table_added = false;
  exports_file_added = false;
  started = [];
  enabled = [];
}

abbrev once_up : UpState
once_up = record nothing_up { fw_added = codes "8090/tcp" ∷ []; started = codes "nfs-server" ∷ [] }

ports_opened : (open_firewall ufw_host netboot ufw (([], []), nothing_up)).1.0 ≡ (
  codes "111/udp" ∷ codes "111/tcp" ∷ codes "2049/tcp" ∷ codes "8090/tcp" ∷ [],
  codes "8090/tcp" ∷ codes "2049/tcp" ∷ codes "111/tcp" ∷ codes "111/udp" ∷ [],
)
unfolding ufw_host open_firewall
ports_opened = refl

merge_prior-owns_example :
    (member (codes "8090/tcp") (merge_prior nothing_up once_up).fw_added
      ≡ member (codes "8090/tcp") nothing_up.fw_added || member (codes "8090/tcp") once_up.fw_added)
    × (member (codes "8090/tcp") (merge_prior nothing_up once_up).started
        ≡ member (codes "8090/tcp") nothing_up.started || member (codes "8090/tcp") once_up.started)
    × (member (codes "8090/tcp") (merge_prior nothing_up once_up).enabled
        ≡ member (codes "8090/tcp") nothing_up.enabled || member (codes "8090/tcp") once_up.enabled)
    × ((merge_prior nothing_up once_up).nft_table_added
        ≡ nothing_up.nft_table_added || once_up.nft_table_added)
    × ((merge_prior nothing_up once_up).exports_file_added
        ≡ nothing_up.exports_file_added || once_up.exports_file_added)
    × (owns_nothing (merge_prior nothing_up once_up)
        ≡ owns_nothing nothing_up && owns_nothing once_up)
merge_prior-owns_example = merge_prior-owns nothing_up once_up (codes "8090/tcp")

abbrev bind_udp : PortRule
bind_udp = record { port = 111; proto = udp; what = codes "rpcbind" }

parse_rule_token-token_example :
    parse_rule_token (token bind_udp) ≡ some (record bind_udp { what = [] })
parse_rule_token-token_example = parse_rule_token-token bind_udp (omega arith)

-- A machine on which ufw closes ports, and nothing else is run.
abbrev closed : Bool → Text → Machine → Outcome (Unit {0}) × Machine
closed true t (live, saved) = (ok tt, (filter (λ x. not (text_eq x t)) live, saved))
closed false t w = (err (codes "refused"), w)

abbrev deleted_token : List Text → Text
deleted_token (a ∷ b ∷ c ∷ d ∷ e ∷ f ∷ g ∷ h ∷ port ∷ i ∷ proto ∷ args) =
    port ++ (codes "/" ++ proto)
deleted_token args = []

unfoldable closing_host : Host Machine
unfolding text_eq
closing_host = record {
  sudo = λ argv. closed (is_ufw argv) (deleted_token argv);
  query = λ argv w. [];
  save = λ st w. (ok tt, (w.0, st.fw_added));
}

abbrev one_port : PortRule
one_port = record { port = 8090; proto = tcp; what = [] }

-- All ports answer here, and NFS does not answer from another host.
abbrev seen : ReachReport
seen = record {
  local = record { port = 8090; ok = true } ∷ record { port = 2049; ok = true } ∷ [];
  remote_host = some (codes "board");
  remote = parse_probe_output (codes "8090 open\nnoise\n2049 closed\n");
  busy = [];
}

blocked_port : (diagnose seen ufw).0 ≡ interference (2049 ∷ [])
unfolding diagnose parse_probe_output
blocked_port = refl

-- Another process holds the port of the server.
taken_port :
    (diagnose
      (record seen {
        local = record { port = 8090; ok = false } ∷ [];
        busy = (8090, codes "caddy") ∷ [];
      })
      ufw).0
    ≡ port_in_use ((8090, codes "caddy") ∷ [])
unfolding diagnose parse_probe_output
taken_port = refl

diagnose-verdict_example :
    let v = (diagnose seen ufw).0 in
    (is_proof v ≡ alive seen.local && (not (is_empty seen.remote) && alive seen.remote))
    × (is_unproven v ≡ alive seen.local && is_empty seen.remote)
    × (blames_firewall v
        ≡ alive seen.local && (not (is_empty seen.remote) && not (alive seen.remote)))
    × (blames_owner v ≡ is_taken seen.busy seen.local)
    × (blames_service v ≡ not (alive seen.local) && not (is_taken seen.busy seen.local))
diagnose-verdict_example = diagnose-verdict seen ufw
