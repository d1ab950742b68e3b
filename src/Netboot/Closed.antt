-- ===== src/Netboot/Closed.antt =====
-- src/netboot_server.rs: a port that the record names is closed, or stays in the record.
use llmtune.Prelude.{
  ◌≤◌, ◌≡◌, refl, sym, subst, ◌⊎◌, inl, inr, Bool, true, false, not, Option, none, some, List, [],
  ◌∷◌, ◌++◌, Outcome, ok, err, is_ok, Text, text_eq, text_eq_iff, text_eq_refl, member, codes,
  is_empty, arith, Bool-cases,
}
use llmtune.Config.Netboot.{Netboot}
use llmtune.Netboot.Ports.{PortRule, token, parse_rule_token}
use llmtune.Netboot.Tokens.{parse_rule_token-token}
use llmtune.Netboot.Record.{UpState, member-append}
use llmtune.Netboot.Open.{
  Backend, ufw, firewalld, nftables, no_firewall, Host, reload_argv, nft_argv,
}
use llmtune.Netboot.Close.{
  Closing, remove_argv, removed, remove_rule, remove_rules, reload_noted, reloaded, table_deleted,
  table_flushed, remove_firewall,
}

-- What the commands that close ports do: one that succeeds closes its port, and none opens any.
-- The ports of firewalld are those of its permanent configuration, which `--permanent` changes and a
-- reload brings into effect.
pub record IsClosing {W : Type 0} (host : Host W) (cidr : Text) (live : W → Text → Bool)
    : Type 0 where
  pub removes :
      (b : Backend) (r : PortRule) (w : W)
      → is_ok (host.sudo (remove_argv b cidr r) w).0 ≡ true
      → live (host.sudo (remove_argv b cidr r) w).1 (token r) ≡ false
  pub opens_none :
      (argv : List Text) (w : W) (t : Text) → live w t ≡ false → live (host.sudo argv w).1 t ≡ false
  pub deletes :
      (w : W) (t : Text)
      → is_ok (host.sudo (nft_argv (codes "delete") (codes "table")) w).0 ≡ true
      → live (host.sudo (nft_argv (codes "delete") (codes "table")) w).1 t ≡ false
  pub flushes :
      (w : W) (t : Text)
      → is_ok (host.sudo (nft_argv (codes "flush") (codes "table")) w).0 ≡ true
      → live (host.sudo (nft_argv (codes "flush") (codes "table")) w).1 t ≡ false

abbrev pub filters : Backend → Bool
filters no_firewall = false
filters b = true

module _ {W : Type 0} {host : Host W} {cidr : Text} {live : W → Text → Bool} where
  module _ (laws : IsClosing host cidr live) (t : Text) where
    -- The port is closed, or still owned.
    abbrev pub IsClosed : W → Closing → Type 0
    IsClosed w c = (live w t ≡ false) ⊎ (member t c.residual.fw_added ≡ true)

    kept_more : (toks more : List Text) → member t toks ≡ true → member t (toks ++ more) ≡ true
    kept_more toks more h = ground (arith, member-append t toks more)

    kept_new : (toks more : List Text) → member t more ≡ true → member t (toks ++ more) ≡ true
    kept_new toks more h = ground (arith, member-append t toks more)

    removed-later :
        (b : Backend) (tok : Text) (changed : Bool) (w : W) (c : Closing)
        (m : Outcome (Unit {0}) × W)
        → (live w t ≡ false → live m.1 t ≡ false)
        → IsClosed w c
        → let s = removed host b cidr tok changed c m in IsClosed s.1.0 s.1.1
    removed-later b tok changed w c (ok x, w₁) stays (inl gone) = inl (stays gone)
    removed-later b tok changed w c (ok x, w₁) stays (inr kept) = inr kept
    removed-later b tok changed w c (err e, w₁) stays (inl gone) = inl (stays gone)
    removed-later b tok changed w c (err e, w₁) stays (inr kept) =
        inr (kept_more c.residual.fw_added (tok ∷ []) kept)

    remove_rule-later :
        (b : Backend) (tok : Text) (o : Option PortRule) (changed : Bool) (w : W) (c : Closing)
        → IsClosed w c
        → let s = remove_rule host b cidr tok o (changed, (w, c)) in IsClosed s.1.0 s.1.1
    remove_rule-later b tok none changed w c (inl gone) = inl gone
    remove_rule-later b tok none changed w c (inr kept) =
        inr (kept_more c.residual.fw_added (tok ∷ []) kept)
    remove_rule-later b tok (some r) changed w c h =
        removed-later b tok changed w c (host.sudo (remove_argv b cidr r) w)
          (laws.opens_none (remove_argv b cidr r) w t) h

    remove_rules-later :
        (b : Backend) (toks : List Text) (s : Bool × (W × Closing))
        → IsClosed s.1.0 s.1.1
        → let d = remove_rules host b cidr toks s in IsClosed d.1.0 d.1.1
    unfolding remove_rules
    remove_rules-later b [] s h = h
    remove_rules-later b (tok ∷ toks) (changed, (w, c)) h =
        remove_rules-later b toks
          (remove_rule host b cidr tok (parse_rule_token tok) (changed, (w, c)))
          (remove_rule-later b tok (parse_rule_token tok) changed w c h)

    reloaded-later :
        (s : Bool × (W × Closing))
        → IsClosed s.1.0 s.1.1
        → let d = reloaded host s in IsClosed d.0 d.1
    reloaded-later (false, s) h = h
    reloaded-later (true, (w, c)) h =
        noted (host.sudo reload_argv w) (laws.opens_none reload_argv w t) h
      where
        noted :
            (m : Outcome (Unit {0}) × W)
            → (live w t ≡ false → live m.1 t ≡ false)
            → IsClosed w c
            → let d = reload_noted host c m in IsClosed d.0 d.1
        noted (ok x, w₁) stays (inl gone) = inl (stays gone)
        noted (ok x, w₁) stays (inr kept) = inr kept
        noted (err e, w₁) stays (inl gone) = inl (stays gone)
        noted (err e, w₁) stays (inr kept) = inr kept

  module _ (laws : IsClosing host cidr live) (r : PortRule) (small : r.port ≤ 65_535) where
    removed-now :
        (b : Backend) (changed : Bool) (c : Closing) (m : Outcome (Unit {0}) × W)
        → (is_ok m.0 ≡ true → live m.1 (token r) ≡ false)
        → let s = removed host b cidr (token r) changed c m in IsClosed laws (token r) s.1.0 s.1.1
    removed-now b changed c (ok x, w) gone = inl (gone refl)
    removed-now b changed c (err e, w) gone =
        inr (kept_new laws (token r) c.residual.fw_added (token r ∷ []) itself)
      where
        itself : member (token r) (token r ∷ []) ≡ true
        itself = unfold member in ground (arith, text_eq_refl (token r))

    -- The token of the rule is read back as the rule, whose removal is tried.
    remove_rule-now :
        (b : Backend) (changed : Bool) (w : W) (c : Closing)
        → let s =
            remove_rule host b cidr (token r) (parse_rule_token (token r)) (changed, (w, c)) in
          IsClosed laws (token r) s.1.0 s.1.1
    remove_rule-now b changed w c =
        subst
          (λ o.
            let s = remove_rule host b cidr (token r) o (changed, (w, c)) in
            IsClosed laws (token r) s.1.0 s.1.1)
          (sym (parse_rule_token-token r small))
          (removed-now b changed c (host.sudo (remove_argv b cidr (record r { what = [] })) w)
            (λ done. unfold token in laws.removes b (record r { what = [] }) w done))

    remove_rules-IsClosed :
        (b : Backend) (toks : List Text) (s : Bool × (W × Closing))
        → member (token r) toks ≡ true
        → let d = remove_rules host b cidr toks s in IsClosed laws (token r) d.1.0 d.1.1
    unfolding remove_rules member
    remove_rules-IsClosed b [] s h = cc
    remove_rules-IsClosed b (tok ∷ toks) (changed, (w, c)) h =
        elim (Bool-cases (text_eq tok (token r))) [
          | inl same ↦ remove_rules-later laws (token r) b toks _ (
              subst
                (λ k.
                  let s = remove_rule host b cidr k (parse_rule_token k) (changed, (w, c)) in
                  IsClosed laws (token r) s.1.0 s.1.1)
                (sym ((text_eq_iff tok (token r)).0 same)) (remove_rule-now b changed w c))
          | inr other ↦
              remove_rules-IsClosed b toks
                (remove_rule host b cidr tok (parse_rule_token tok) (changed, (w, c)))
                (ground arith)
        ]

    table_deleted-IsClosed :
        (st : UpState) (c : Closing) (m : Outcome (Unit {0}) × W)
        → (is_ok m.0 ≡ true → live m.1 (token r) ≡ false)
        → member (token r) st.fw_added ≡ true
        → let d = table_deleted host st c m in IsClosed laws (token r) d.0 d.1
    table_deleted-IsClosed st c (ok x, w) gone owned = inl (gone refl)
    table_deleted-IsClosed st c (err e, w) gone owned =
        inr (kept_new laws (token r) c.residual.fw_added st.fw_added owned)

    table_flushed-IsClosed :
        (st : UpState) (c : Closing) (m : Outcome (Unit {0}) × W)
        → (is_ok m.0 ≡ true → live m.1 (token r) ≡ false)
        → member (token r) st.fw_added ≡ true
        → let d = table_flushed host st c m in IsClosed laws (token r) d.0 d.1
    table_flushed-IsClosed st c (ok x, w) gone owned = inl (gone refl)
    table_flushed-IsClosed st c (err e, w) gone owned =
        inr (kept_new laws (token r) c.residual.fw_added st.fw_added owned)

some_owned : (t : Text) (ts : List Text) → member t ts ≡ true → not (is_empty ts) ≡ true
unfolding member
some_owned t [] h = cc
some_owned t (x ∷ ts) h = refl

-- On a firewall that filters: the port of every rule that the record names is closed by `down`, or
-- its token stays in the residual record, so that a later run can try again.
pub remove_firewall-IsClosed :
    {W : Type 0} {host : Host W} {live : W → Text → Bool} (nb : Netboot)
    (laws : IsClosing host nb.lan_cidr live) (r : PortRule) (b : Backend) (st : UpState) (w : W)
    (c : Closing)
    → r.port ≤ 65_535
    → filters b ≡ true
    → member (token r) st.fw_added ≡ true
    → let d = remove_firewall host nb b st (w, c) in IsClosed laws (token r) d.0 d.1
unfolding remove_firewall
remove_firewall-IsClosed nb laws r no_firewall st w c small h owned = cc
remove_firewall-IsClosed nb laws r ufw st w c small h owned =
    remove_rules-IsClosed laws r small ufw st.fw_added (false, (w, c)) owned
remove_firewall-IsClosed {W} {host} nb laws r firewalld st w c small h owned =
    reloaded-later laws (token r)
      (remove_rules host firewalld nb.lan_cidr st.fw_added (false, (w, c)))
      (remove_rules-IsClosed laws r small firewalld st.fw_added (false, (w, c)) owned)
remove_firewall-IsClosed {W} {host} nb laws r nftables st w c small h owned =
    elim (Bool-cases st.nft_table_added) [
      | inl ours ↦ rw ours (
          table_deleted-IsClosed laws r small st c
            (host.sudo (nft_argv (codes "delete") (codes "table")) w) (laws.deletes w (token r))
            owned)
      | inr not_ours ↦
          rw (not_ours, some_owned (token r) st.fw_added owned)
            (table_flushed-IsClosed laws r small st c
              (host.sudo (nft_argv (codes "flush") (codes "table")) w) (laws.flushes w (token r))
              owned)
    ]
