-- ===== src/Netboot/Ports.antt =====
-- src/netboot_server.rs: the ports of the boot server, and how each firewall writes and lists a rule.
use llmtune.Prelude.{
  ℕ, Bool, false, ◌&&◌, ◌||◌, Option, none, some, List, [], ◌∷◌, ◌++◌, Text, codes, text_eq, show,
  lines, split_whitespace, join, split_once, to_lowercase, trim, any, member, take, drop,
  if◌then◌else◌,
}
use llmtune.Config.Netboot.{Netboot}
use llmtune.Nodeops.Bind.{parse_u16}

pub data Proto : Type 0 where
  tcp udp : Proto

abbrev pub proto_name : Proto → Text
proto_name tcp = codes "tcp"
proto_name udp = codes "udp"

pub record PortRule : Type 0 where
  pub port : ℕ
  pub proto : Proto
  pub what : Text

-- As the record names a rule, `8090/tcp`.
unfoldable pub token : PortRule → Text
unfolding show
token r = show r.port ++ (codes "/" ++ proto_name r.proto)

abbrev pub rule : ℕ → Proto → Text → PortRule
rule port proto what = record { port = port; proto = proto; what = what }

unfoldable pub required_ports : Netboot → List PortRule
required_ports nb =
    rule nb.http_port tcp (codes "http artifacts (boot.ipxe/vmlinuz/initrd)")
    ∷ rule 2049 tcp (codes "nfsd (model library)")
    ∷ rule 111 tcp (codes "rpcbind")
    ∷ rule 111 udp (codes "rpcbind")
    ∷ (if nb.dnsmasq
        then rule 67 udp (codes "proxyDHCP")
          ∷ rule 69 udp (codes "tftp (ipxe.efi)")
          ∷ rule 4011 udp (codes "proxyDHCP (PXE alt)")
          ∷ []
        else [])

abbrev pub proto_of : Text → Option Proto
proto_of s =
    if text_eq s (codes "tcp") then some tcp else if text_eq s (codes "udp") then some udp else none

abbrev pub rule_of : Option ℕ → Option Proto → Option PortRule
rule_of none proto = none
rule_of (some port) none = none
rule_of (some port) (some proto) = some (rule port proto [])

abbrev pub token_parts : Option (Text × Text) → Option PortRule
token_parts none = none
token_parts (some (p, proto)) = rule_of (parse_u16 p) (proto_of proto)

unfoldable pub parse_rule_token : Text → Option PortRule
unfolding split_once parse_u16 text_eq
parse_rule_token tok = token_parts (split_once b'/' tok)

unfoldable pub ufw_allow_argv : Text → PortRule → List Text
unfolding show
ufw_allow_argv cidr r =
    codes "ufw"
    ∷ codes "allow"
    ∷ codes "from"
    ∷ cidr
    ∷ codes "to"
    ∷ codes "any"
    ∷ codes "port"
    ∷ show r.port
    ∷ codes "proto"
    ∷ proto_name r.proto
    ∷ codes "comment"
    ∷ codes "llmtune-netboot"
    ∷ []

unfoldable pub ufw_active : Text → Bool
unfolding lines to_lowercase trim text_eq
ufw_active status =
    any (λ l. text_eq (to_lowercase (trim l)) (codes "status: active")) (lines status)

abbrev is_first : Text → List Text → Bool
is_first t [] = false
is_first t (f ∷ fs) = text_eq f t

-- A rule without a protocol covers both.
unfoldable pub ufw_rule_present : Text → Text → PortRule → Bool
unfolding lines split_whitespace member token
ufw_rule_present status cidr r =
    any
      (λ l.
        let f = split_whitespace l in
        (is_first (token r) f || is_first (show r.port) f)
        && member (codes "ALLOW") f
        && member cidr f)
      (lines status)

unfoldable pub firewalld_rich_rule : Text → PortRule → Text
unfolding show
firewalld_rich_rule cidr r =
    codes "rule family=\"ipv4\" source address=\""
    ++ (cidr
        ++ (codes "\" port port=\""
            ++ (show r.port
                ++ (codes "\" protocol=\"" ++ (proto_name r.proto ++ codes "\" accept")))))

-- A line with single blanks between its words.
unfoldable pub normal : Text → Text
unfolding split_whitespace join
normal s = join (codes " ") (split_whitespace s)

unfoldable pub firewalld_rule_present : Text → Text → Bool
unfolding lines normal text_eq
firewalld_rule_present list wanted = any (λ l. text_eq (normal l) (normal wanted)) (lines list)

unfoldable pub nft_rule_needle : Text → PortRule → Text
unfolding show
nft_rule_needle cidr r =
    codes "ip saddr "
    ++ (cidr
        ++ (codes " "
            ++ (proto_name r.proto ++ (codes " dport " ++ (show r.port ++ codes " accept")))))

abbrev pub nft_table : Text
nft_table = codes "llmtune_netboot"

unfoldable pub nft_add_rule_argv : Text → PortRule → List Text
unfolding show
nft_add_rule_argv cidr r =
    codes "nft"
    ∷ codes "add"
    ∷ codes "rule"
    ∷ codes "inet"
    ∷ nft_table
    ∷ codes "input"
    ∷ codes "ip"
    ∷ codes "saddr"
    ∷ cidr
    ∷ proto_name r.proto
    ∷ codes "dport"
    ∷ show r.port
    ∷ codes "accept"
    ∷ []

unfoldable pub nft_rule_present : Text → Text → PortRule → Bool
unfolding lines normal nft_rule_needle text_eq
nft_rule_present listing cidr r =
    any (λ l. text_eq (normal l) (nft_rule_needle cidr r)) (lines listing)

-- `ufw_allow_argv` without its comment, and with `delete` in second place.
unfoldable pub ufw_delete_argv : Text → PortRule → List Text
unfolding ufw_allow_argv
ufw_delete_argv cidr r = codes "ufw" ∷ codes "delete" ∷ drop 1 (take 10 (ufw_allow_argv cidr r))
