-- ===== src/Netboot/Open.antt =====
-- src/netboot_server.rs: opening the ports on the firewall that filters, and closing them again.
-- `Host` is the machine: `query` is `priv_output`, which only looks, with the empty text where it
-- fails, and `save` is `save_state`.
use llmtune.Prelude.{
  Bool, true, false, not, List, [], ◌∷◌, ◌++◌, Outcome, ok, err, Text, codes, text_eq, lines,
  split_whitespace, any, if◌then◌else◌,
}
use llmtune.Config.Netboot.{Netboot}
use llmtune.Build.Versions.{same_texts}
use llmtune.Netboot.Ports.{
  PortRule, token, required_ports, ufw_allow_argv, ufw_rule_present, firewalld_rich_rule,
  firewalld_rule_present, nft_add_rule_argv, nft_rule_present, nft_table,
}
use llmtune.Netboot.Record.{UpState}

pub data Backend : Type 0 where
  ufw firewalld nftables no_firewall : Backend

pub record Host (W : Type 0) : Type 0 where
  pub sudo : List Text → W → Outcome (Unit {0}) × W
  pub query : List Text → W → Text
  pub save : UpState → W → Outcome (Unit {0}) × W

-- The command that opens one port.
unfoldable pub add_argv : Backend → Text → PortRule → List Text
unfolding ufw_allow_argv firewalld_rich_rule nft_add_rule_argv
add_argv ufw cidr r = ufw_allow_argv cidr r
add_argv firewalld cidr r =
    codes "firewall-cmd"
    ∷ codes "--permanent"
    ∷ (codes "--add-rich-rule=" ++ firewalld_rich_rule cidr r)
    ∷ []
add_argv nftables cidr r = nft_add_rule_argv cidr r
add_argv no_firewall cidr r = []

-- Whether a listing shows the port as open already.
unfoldable pub is_present : Backend → Text → Text → PortRule → Bool
unfolding ufw_rule_present firewalld_rule_present firewalld_rich_rule nft_rule_present
is_present ufw listing cidr r = ufw_rule_present listing cidr r
is_present firewalld listing cidr r = firewalld_rule_present listing (firewalld_rich_rule cidr r)
is_present nftables listing cidr r = nft_rule_present listing cidr r
is_present no_firewall listing cidr r = true

abbrev pub add_context : Backend → Text
add_context ufw = codes "ufw allow "
add_context firewalld = codes "firewalld add "
add_context nftables = codes "nft add "
add_context no_firewall = []

abbrev pub reload_argv : List Text
reload_argv = codes "firewall-cmd" ∷ codes "--reload" ∷ []

abbrev pub nft_argv : Text → Text → List Text
nft_argv verb what = codes "nft" ∷ verb ∷ what ∷ codes "inet" ∷ nft_table ∷ []

abbrev pub chain_argv : List Text
chain_argv =
    nft_argv (codes "add") (codes "chain")
    ++ (codes "input" ∷ codes "{ type filter hook input priority -10 ; policy accept ; }" ∷ [])

module _ {W : Type 0} (host : Host W) where
  -- A save that fails is only warned about.
  abbrev pub checkpoint : UpState → W → W
  checkpoint st w = (host.save st w).1

  abbrev pub after_add :
      Backend
      → PortRule
      → (W × UpState → Outcome (Unit {0}) × (W × UpState))
      → UpState
      → Outcome (Unit {0}) × W
      → Outcome (Unit {0}) × (W × UpState)
  after_add backend r next st (err e, w) =
      (err (add_context backend ++ (token r ++ (codes ": " ++ e))), (w, st))
  after_add backend r next st (ok x, w) =
      let st₁ : UpState = record st { fw_added = st.fw_added ++ token r ∷ [] } in
      next (checkpoint st₁ w, st₁)

  -- The loop over the rules; the listing is the one from before it.
  unfoldable pub add_rules :
      Backend → Text → Text → List PortRule → W × UpState → Outcome (Unit {0}) × (W × UpState)
  unfolding add_argv is_present token
  add_rules backend listing cidr [] s = (ok tt, s)
  add_rules backend listing cidr (r ∷ rs) (w, st) =
      let next = add_rules backend listing cidr rs in
      if is_present backend listing cidr r
      then next (w, st)
      else after_add backend r next st (host.sudo (add_argv backend cidr r) w)

  -- A command whose failure ends the phase.
  abbrev pub ran :
      Text
      → (W × UpState → Outcome (Unit {0}) × (W × UpState))
      → UpState
      → Outcome (Unit {0}) × W
      → Outcome (Unit {0}) × (W × UpState)
  ran context next st (err e, w) = (err (context ++ e), (w, st))
  ran context next st (ok x, w) = next (w, st)

  abbrev pub reload_if :
      Bool → Outcome (Unit {0}) × (W × UpState) → Outcome (Unit {0}) × (W × UpState)
  reload_if changed (err e, s) = (err e, s)
  reload_if false (ok x, s) = (ok x, s)
  reload_if true (ok x, (w, st)) =
      ran (codes "firewall-cmd --reload: ") (λ s. (ok tt, s)) st (host.sudo reload_argv w)

  -- The rules of llmtune's own table.
  abbrev pub in_table : Netboot → W × UpState → Outcome (Unit {0}) × (W × UpState)
  in_table nb (w, st) =
      add_rules nftables (host.query (nft_argv (codes "list") (codes "table")) w) nb.lan_cidr
        (required_ports nb) (w, st)

  abbrev pub table_noted : Netboot → W × UpState → Outcome (Unit {0}) × (W × UpState)
  table_noted nb (w, st) =
      let st₁ : UpState = record st { nft_table_added = true } in
      in_table nb (checkpoint st₁ w, st₁)

  abbrev pub with_chain : Netboot → W × UpState → Outcome (Unit {0}) × (W × UpState)
  with_chain nb (w, st) = ran [] (table_noted nb) st (host.sudo chain_argv w)

  abbrev pub with_table : Netboot → W × UpState → Outcome (Unit {0}) × (W × UpState)
  with_table nb (w, st) =
      ran [] (with_chain nb) st (host.sudo (nft_argv (codes "add") (codes "table")) w)

  abbrev pub table_existed : Text → Bool
  table_existed tables =
      any (λ l. same_texts (split_whitespace l) (codes "table" ∷ codes "inet" ∷ nft_table ∷ []))
        (lines tables)

  abbrev pub ufw_status : W → Text
  ufw_status w = host.query (codes "ufw" ∷ codes "status" ∷ []) w

  abbrev pub rich_rules : W → Text
  rich_rules w = host.query (codes "firewall-cmd" ∷ codes "--list-rich-rules" ∷ []) w

  abbrev pub nft_tables : W → Text
  nft_tables w = host.query (codes "nft" ∷ codes "list" ∷ codes "tables" ∷ []) w

  -- Whether a rule was added to firewalld.
  abbrev pub rich_changed : Netboot → W → Bool
  rich_changed nb w =
      any (λ r. not (is_present firewalld (rich_rules w) nb.lan_cidr r)) (required_ports nb)

  unfoldable pub open_firewall :
      Netboot → Backend → W × UpState → Outcome (Unit {0}) × (W × UpState)
  unfolding add_rules required_ports is_present lines split_whitespace text_eq
  open_firewall nb no_firewall s = (ok tt, s)
  open_firewall nb ufw (w, st) =
      add_rules ufw (ufw_status w) nb.lan_cidr (required_ports nb) (w, st)
  open_firewall nb firewalld (w, st) =
      reload_if (rich_changed nb w)
        (add_rules firewalld (rich_rules w) nb.lan_cidr (required_ports nb) (w, st))
  open_firewall nb nftables (w, st) =
      if table_existed (nft_tables w) then in_table nb (w, st) else with_table nb (w, st)
