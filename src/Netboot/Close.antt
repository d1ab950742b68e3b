-- ===== src/Netboot/Close.antt =====
-- src/netboot_server.rs: `remove_firewall`, which closes what the record names.
use llmtune.Prelude.{
  Bool, true, false, not, Option, none, some, List, [], ◌∷◌, ◌++◌, Outcome, ok, err, Text, codes,
  is_empty, if◌then◌else◌,
}
use llmtune.Config.Netboot.{Netboot}
use llmtune.Netboot.Ports.{
  PortRule, parse_rule_token, ufw_delete_argv, firewalld_rich_rule, nft_table,
}
use llmtune.Netboot.Record.{UpState}
use llmtune.Netboot.Open.{
  Backend, ufw, firewalld, nftables, no_firewall, Host, reload_argv, nft_argv,
}

-- What `down` reports, and what stays owned.
pub record Closing : Type 0 where
  pub undone : List Text
  pub residual : UpState
  pub failed : List Text

-- The command that closes one port.
unfoldable pub remove_argv : Backend → Text → PortRule → List Text
unfolding ufw_delete_argv firewalld_rich_rule
remove_argv ufw cidr r = ufw_delete_argv cidr r
remove_argv firewalld cidr r =
    codes "firewall-cmd"
    ∷ codes "--permanent"
    ∷ (codes "--remove-rich-rule=" ++ firewalld_rich_rule cidr r)
    ∷ []
remove_argv nftables cidr r = []
remove_argv no_firewall cidr r = []

abbrev pub rule_label : Backend → Text → Text
rule_label firewalld tok = codes "firewalld rule " ++ tok
rule_label b tok = codes "ufw rule " ++ tok

abbrev pub keep_rules : List Text → Text → Closing → Closing
keep_rules toks why c = record {
  undone = c.undone;
  residual = record c.residual { fw_added = c.residual.fw_added ++ toks };
  failed = c.failed ++ why ∷ [];
}

abbrev pub note_undone : Text → Closing → Closing
note_undone what c = record c { undone = c.undone ++ what ∷ [] }

module _ {W : Type 0} (host : Host W) where
  -- The flag says whether a rule was removed.
  abbrev pub removed :
      Backend → Text → Text → Bool → Closing → Outcome (Unit {0}) × W → Bool × (W × Closing)
  removed b cidr tok changed c (ok x, w) =
      (true, (w, note_undone (rule_label b tok ++ (codes " from " ++ cidr)) c))
  removed b cidr tok changed c (err e, w) =
      (changed, (w, keep_rules (tok ∷ []) (rule_label b tok ++ (codes ": " ++ e)) c))

  -- A token that is none of a rule is kept.
  abbrev pub remove_rule :
      Backend → Text → Text → Option PortRule → Bool × (W × Closing) → Bool × (W × Closing)
  remove_rule b cidr tok none (changed, (w, c)) =
      (changed, (w, keep_rules (tok ∷ []) (rule_label b tok ++ codes " (unparseable token)") c))
  remove_rule b cidr tok (some r) (changed, (w, c)) =
      removed b cidr tok changed c (host.sudo (remove_argv b cidr r) w)

  unfoldable pub remove_rules :
      Backend → Text → List Text → Bool × (W × Closing) → Bool × (W × Closing)
  unfolding parse_rule_token remove_argv
  remove_rules b cidr [] s = s
  remove_rules b cidr (tok ∷ toks) s =
      remove_rules b cidr toks (remove_rule b cidr tok (parse_rule_token tok) s)

  abbrev pub reload_noted : Closing → Outcome (Unit {0}) × W → W × Closing
  reload_noted c (ok x, w) = (w, c)
  reload_noted c (err e, w) = (
    w,
    record c {
      failed =
          c.failed
          ++ codes
              "firewall-cmd --reload (permanent rules removed; runtime not reloaded - run `sudo firewall-cmd --reload`)"
            ∷ [];
    },
  )

  abbrev pub reloaded : Bool × (W × Closing) → W × Closing
  reloaded (false, s) = s
  reloaded (true, (w, c)) = reload_noted c (host.sudo reload_argv w)

  abbrev pub table_deleted : UpState → Closing → Outcome (Unit {0}) × W → W × Closing
  table_deleted st c (ok x, w) =
      (w, note_undone (codes "nft table " ++ (nft_table ++ codes " (whole table was ours)")) c)
  table_deleted st c (err e, w) =
      let kept =
        keep_rules st.fw_added (codes "nft table " ++ (nft_table ++ (codes ": " ++ e))) c in
      (w, record kept { residual = record kept.residual { nft_table_added = true } })

  abbrev pub table_flushed : UpState → Closing → Outcome (Unit {0}) × W → W × Closing
  table_flushed st c (ok x, w) =
      (w, note_undone (codes "flushed llmtune's nft table " ++ nft_table) c)
  table_flushed st c (err e, w) =
      (w, keep_rules st.fw_added (codes "nft flush " ++ (nft_table ++ (codes ": " ++ e))) c)

  unfoldable pub remove_firewall : Netboot → Backend → UpState → W × Closing → W × Closing
  unfolding remove_rules
  remove_firewall nb no_firewall st s = s
  remove_firewall nb ufw st s = (remove_rules ufw nb.lan_cidr st.fw_added (false, s)).1
  remove_firewall nb firewalld st s =
      reloaded (remove_rules firewalld nb.lan_cidr st.fw_added (false, s))
  remove_firewall nb nftables st (w, c) =
      if st.nft_table_added
      then table_deleted st c (host.sudo (nft_argv (codes "delete") (codes "table")) w)
      else if not (is_empty st.fw_added)
      then table_flushed st c (host.sudo (nft_argv (codes "flush") (codes "table")) w)
      else (w, c)
