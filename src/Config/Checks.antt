-- ===== src/Config/Checks.antt =====
-- src/config.rs: the tests of `resolve_netboot_with` on single values, and their messages.
use llmtune.Prelude.{
  ℕ, Bool, true, false, not, ◌&&◌, ◌||◌, Option, none, some, [], ◌∷◌, ◌++◌, leb, Text, codes,
  text_eq, starts_with, contains, ◌==◌, trim, split_once, all, any, is_empty, read_digits,
  if◌then◌else◌,
}
use llmtune.Build.Slug.{is_alphanumeric}
use llmtune.Config.Address.{parse_v4}

-- `unwrap_or`
abbrev pub or {ℓ} : {A : Type ℓ} → Option A → A → A
or none a = a
or (some b) a = b

unfoldable pub safe_token : Text → Bool
unfolding starts_with
safe_token s =
    not (is_empty s)
    && not (starts_with s (codes "-"))
    && all (λ c. is_alphanumeric c || any (λ d. d == c) (codes ".:_-")) s

unfoldable pub safe_abs_path : Text → Bool
unfolding starts_with contains
safe_abs_path s =
    starts_with s (codes "/")
    && not (contains s (codes ".."))
    && not (any (λ c. c == 10) s)
    && not (any (λ c. c == 0) s)
    && not (any (λ c. c == 13) s)

-- An empty value counts as absent.
abbrev pub explicit : Option Text → Option Text
explicit none = none
explicit (some s) = if is_empty s then none else some s

abbrev pub is_v4 : Option ℕ → Bool
is_v4 none = false
is_v4 (some ip) = true

-- `parse::<u8>`, which allows a plus sign, up to 32.
abbrev pub is_prefix_len : Option ℕ → Bool
is_prefix_len none = false
is_prefix_len (some n) = leb n 32

unfoldable pub parse_u8 : Text → Option ℕ
unfolding read_digits
parse_u8 [] = none
parse_u8 (c ∷ s) =
    if c == b'+'
    then (if is_empty s then none else read_digits 255 0 s)
    else read_digits 255 0 (c ∷ s)

abbrev pub cidr_parts : Option (Text × Text) → Bool
cidr_parts none = false
cidr_parts (some (ip, len)) = is_v4 (parse_v4 ip) && is_prefix_len (parse_u8 len)

-- `<ipv4>/<prefix>`
unfoldable pub is_cidr : Text → Bool
unfolding split_once parse_v4 parse_u8
is_cidr s = cidr_parts (split_once b'/' s)

unfoldable pub is_oc_profile : Text → Bool
unfolding text_eq
is_oc_profile s =
    text_eq s (codes "eco") || text_eq s (codes "balanced") || text_eq s (codes "performance")

unfoldable pub is_nix_cmd : Text → Bool
unfolding starts_with contains
is_nix_cmd s = not (
    is_empty s
    || starts_with s (codes "-")
    || contains s (codes "..")
    || not (all (λ c. is_alphanumeric c || any (λ d. d == c) (codes "/._-")) s))

unfoldable pub is_variant : Text → Bool
is_variant s = all (λ c. is_alphanumeric c || any (λ d. d == c) (codes "_-")) s

-- A value that is not set is fine.
abbrev pub safe_or_none : Option Text → Bool
safe_or_none none = true
safe_or_none (some p) = safe_abs_path p

-- The variant without its blanks; an empty one is absent.
abbrev pub trimmed : Option Text → Option Text
trimmed none = none
trimmed (some v) = explicit (some (trim v))

abbrev pub variant_or_none : Option Text → Bool
variant_or_none none = true
variant_or_none (some v) = is_variant v

abbrev pub bad : Text → Text → Text → Text
bad what v why = codes "netboot: " ++ (what ++ (codes " '" ++ (v ++ (codes "'" ++ why))))

abbrev pub no_interface : Text
no_interface =
    codes
      "netboot: interface not set and auto-detection failed (no default route) - set interface = \"<nic>\" under [netboot]"

abbrev pub no_server_ip : Text
no_server_ip =
    codes
      "netboot: server_ip not set and auto-detection failed (no default route) - set server_ip = \"<lan ipv4>\" under [netboot]"

abbrev pub absolute : Text
absolute = codes " must be an absolute path (no '..', no newlines)"

abbrev pub bad_path : Text × Text → Text
bad_path p = bad p.0 p.1 absolute

abbrev pub bad_oui : Text → Text
bad_oui o = bad (codes "invalid mac_oui") o []

abbrev pub value : Option Text → Text
value none = []
value (some v) = v
