-- ===== src/Netboot/Tokens.antt =====
-- src/netboot_server.rs: the token of a rule, read back.
use llmtune.Prelude.{
  ℕ, ◌≤◌, ◌≡◌, ◌∙◌, refl, ap, true, some, [], ◌∷◌, ◌++◌, ◌==◌, Text, show, split_once, with_first,
  slash, text_eq, Lacks, arith,
}
use llmtune.Nodeops.Urls.{parse_u16-show, show-AreDigits, AreDigits-Lacks}
use llmtune.Netboot.Ports.{
  Proto, tcp, udp, proto_name, proto_of, PortRule, token, rule_of, token_parts, parse_rule_token,
}

split_once-Lacks :
    (c : ℕ) (s t : Text) → Lacks (λ d. d == c) s → split_once c (s ++ c ∷ t) ≡ some (s, t)
unfolding split_once
split_once-Lacks c [] t h = rw (self c) refl
  where
    self : (c : ℕ) → (c == c) ≡ true
    self c = ground arith
split_once-Lacks c (d ∷ s) t (h, rest) = rw h (ap (with_first d) (split_once-Lacks c s t rest))

proto_of-name : (p : Proto) → proto_of (proto_name p) ≡ some p
proto_of-name tcp = unfold text_eq in refl
proto_of-name udp = unfold text_eq in refl

-- A rule that the record names is found again from its token, for every port of 16 bits; what it
-- carries, which the token leaves out, comes back empty.
pub parse_rule_token-token :
    (r : PortRule) → r.port ≤ 65_535 → parse_rule_token (token r) ≡ some (record r { what = [] })
unfolding parse_rule_token token
parse_rule_token-token r h =
    ap token_parts (
      split_once-Lacks slash (show r.port) (proto_name r.proto)
        (AreDigits-Lacks slash (show r.port) refl (show-AreDigits r.port)))
    ∙ ap (λ o. rule_of o (proto_of (proto_name r.proto))) (parse_u16-show r.port h)
    ∙ ap (rule_of (some r.port)) (proto_of-name r.proto)
