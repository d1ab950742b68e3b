-- ===== src/Config/Safe.antt =====
-- src/config.rs: what an accepted netboot section guarantees of its values.
use llmtune.Prelude.{
  ℕ, ◌≡◌, refl, sym, ap, subst, Bool, true, not, ◌&&◌, ◌||◌, Option, List, [], ◌∷◌, ◌==◌, leb, ok,
  or_bail, and_next-ok, require-ok, or_bail-ok, require_all-ok, Text, codes, to_lowercase, lower,
  starts_with, map, All, all, any, arith,
}
use llmtune.Build.Slug.{is_alphanumeric}
use llmtune.Config.Raw.{NetbootCfg}
use llmtune.Config.Address.{parse_v4}
use llmtune.Config.Checks.{
  is_v4, is_cidr, safe_token, safe_abs_path, safe_or_none, is_oc_profile, is_nix_cmd,
  variant_or_none, no_interface, no_server_ip, bad_path, bad_oui,
}
use llmtune.Config.Netboot.{
  Netboot, DetectedNet, checked, checked_late, filled, paths_of, with_interface, with_server_ip,
  with_address, interface_or, server_ip_or, resolve_netboot_with,
}

pub record IsSafe (r : Netboot) : Type 0 where
  pub interface : safe_token r.interface ≡ true
  pub server_ip : is_v4 (parse_v4 r.server_ip) ≡ true
  pub subnet : is_v4 (parse_v4 r.subnet) ≡ true
  pub prefix_len : leb r.prefix_len 32 ≡ true
  pub paths :
      All
        (λ p. safe_abs_path p ≡ true)
        (r.rootfs ∷ r.tftp_root ∷ r.kernel ∷ r.initrd ∷ r.leases ∷ r.models_dir ∷ r.work_dir
          ∷ r.images_dir ∷ [])
  pub options : All (λ o. safe_or_none o ≡ true) (r.iso ∷ r.ssh_pubkey ∷ r.flake ∷ [])
  pub oc_profile : is_oc_profile r.oc_profile ≡ true
  pub mac_ouis : All (λ o. safe_token o ≡ true) r.mac_ouis
  pub hostname_prefix : safe_token r.hostname_prefix ≡ true
  pub lan_cidr : is_cidr r.lan_cidr ≡ true
  pub ttm_gtt_gb : leb 1 r.ttm_gtt_gb && leb r.ttm_gtt_gb 16 ≡ true
  pub nix_cmd : is_nix_cmd r.nix_cmd ≡ true
  pub image_variant : variant_or_none r.image_variant ≡ true

abbrev is_token_char : ℕ → Bool
is_token_char c = is_alphanumeric c || any (λ d. d == c) (codes ".:_-")

lower_token : (c : ℕ) → is_token_char c ≡ true → is_token_char (lower c) ≡ true
unfolding lower
lower_token c h = ground arith

all-to_lowercase :
    (s : Text) → all is_token_char s ≡ true → all is_token_char (to_lowercase s) ≡ true
unfolding to_lowercase
all-to_lowercase [] h = refl
all-to_lowercase (c ∷ s) h = ground (arith, lower_token c, all-to_lowercase s)

-- A token stays one in lower case.
safe_token-to_lowercase : (s : Text) → safe_token s ≡ true → safe_token (to_lowercase s) ≡ true
unfolding safe_token to_lowercase
safe_token-to_lowercase [] h = h
safe_token-to_lowercase (c ∷ s) h =
    and_both (not_dash c s (ground arith)) (ground (arith, lower_token c, all-to_lowercase s))
  where
    and_both : {a b : Bool} → a ≡ true → b ≡ true → (a && b) ≡ true
    and_both {a} {b} h k = ground arith

    not_dash :
        (c : ℕ) (s : Text)
        → not (starts_with (c ∷ s) (codes "-")) ≡ true
        → not (starts_with (lower c ∷ to_lowercase s) (codes "-")) ≡ true
    not_dash c s h = unfold starts_with lower in ground arith

All-map :
    (f : Text → Text) (P : Text → Type 0) (xs : List Text)
    → ((x : Text) → P x → P (f x))
    → All P xs
    → All P (map f xs)
All-map f P [] k h = tt
All-map f P (x ∷ xs) k (first, rest) = (k x first, All-map f P xs k rest)

module _ (detect : Option DetectedNet) (default_leases : Text) (n : NetbootCfg) where
  abbrev IsSafeLate : Netboot → Type 0
  IsSafeLate r =
      (safe_abs_path r.models_dir ≡ true)
      × (safe_or_none r.iso ≡ true)
      × (safe_or_none r.ssh_pubkey ≡ true)
      × (safe_abs_path r.work_dir ≡ true)
      × (leb 1 r.ttm_gtt_gb && leb r.ttm_gtt_gb 16 ≡ true)
      × (safe_or_none r.flake ≡ true)
      × (is_nix_cmd r.nix_cmd ≡ true)
      × (variant_or_none r.image_variant ≡ true)
      × (safe_abs_path r.images_dir ≡ true)

  checked_late-ok :
      (r out : Netboot) → checked_late detect default_leases n r ≡ ok out → IsSafeLate r × (r ≡ out)
  unfolding checked_late
  checked_late-ok r out h =
      let (a, h₁) = require-ok _ _ _ out h in
      let (b, h₂) = require-ok _ _ _ out h₁ in
      let (c, h₃) = require-ok _ _ _ out h₂ in
      let (d, h₄) = require-ok _ _ _ out h₃ in
      let (e, h₅) = require-ok _ _ _ out h₄ in
      let (f, h₆) = require-ok _ _ _ out h₅ in
      let (g, h₇) = require-ok _ _ _ out h₆ in
      let (i, h₈) = require-ok _ _ _ out h₇ in
      let (j, h₉) = require-ok _ _ _ out h₈ in ((a, b, c, d, e, f, g, i, j), cc)

  abbrev IsAddressed : Netboot → Type 0
  IsAddressed r =
      (safe_token r.interface ≡ true)
      × (is_v4 (parse_v4 r.server_ip) ≡ true)
      × (is_v4 (parse_v4 r.subnet) ≡ true)
      × (leb r.prefix_len 32 ≡ true)

  checked-IsSafe :
      (r out : Netboot)
      → r.mac_ouis ≡ map to_lowercase n.mac_ouis
      → IsAddressed r
      → checked detect default_leases n r ≡ ok out
      → IsSafe out
  unfolding checked
  checked-IsSafe r out ouis (i, s, b, p) h =
      let (own, h₁) =
        require_all-ok (λ (p : Text × Text). safe_abs_path p.1) bad_path
          (paths_of detect default_leases n r) _ out h in
      let (profile, h₂) = require-ok _ _ _ out h₁ in
      let (macs, h₃) = require_all-ok safe_token bad_oui n.mac_ouis _ out h₂ in
      let (prefix, h₄) = require-ok _ _ _ out h₃ in
      let (cidr, h₅) = require-ok _ _ _ out h₄ in
      let ((models, iso, key, work, gtt, flake, nix, variant, images), same) =
        checked_late-ok r out h₅ in
      subst IsSafe same (record {
        interface = i;
        server_ip = s;
        subnet = b;
        prefix_len = p;
        paths = (
          own.0,
          (own.1.0, (own.1.1.0, (own.1.1.1.0, (own.1.1.1.1.0, (models, (work, (images, tt))))))),
        );
        options = (iso, (key, (flake, tt)));
        oc_profile = profile;
        mac_ouis = subst (All (λ o. safe_token o ≡ true)) (sym ouis) (
            All-map to_lowercase (λ o. safe_token o ≡ true) n.mac_ouis safe_token-to_lowercase
              macs);
        hostname_prefix = prefix;
        lan_cidr = cidr;
        ttm_gtt_gb = gtt;
        nix_cmd = nix;
        image_variant = variant;
      })

  with_address-IsSafe :
      (interface server_ip : Text) (ip : ℕ) (out : Netboot)
      → (safe_token interface ≡ true) × (is_v4 (parse_v4 server_ip) ≡ true)
      → with_address detect default_leases n interface server_ip ip ≡ ok out
      → IsSafe out
  with_address-IsSafe interface server_ip ip out (i, s) h =
      let (p, h₁) = require-ok _ _ _ out h in
      let (b, h₂) = require-ok _ _ _ out h₁ in
      checked-IsSafe (filled detect default_leases n interface server_ip _) out refl (i, s, b, p) h₂

  with_server_ip-IsSafe :
      (interface server_ip : Text) (out : Netboot)
      → safe_token interface ≡ true
      → with_server_ip detect default_leases n interface server_ip ≡ ok out
      → IsSafe out
  with_server_ip-IsSafe interface server_ip out i h =
      let (ip, read, more) =
        and_next-ok (or_bail (parse_v4 server_ip) _)
          (with_address detect default_leases n interface server_ip) out h in
      with_address-IsSafe interface server_ip ip out
        (i, ap is_v4 (or_bail-ok (parse_v4 server_ip) _ ip read)) more

  -- A netboot section that is accepted holds only values that are safe where they go: tokens
  -- without blanks, quotes or a leading dash, absolute paths without `..` or a line's end, IPv4
  -- addresses, a prefix of at most 32 bits and 1 to 16 GiB.
  pub resolve_netboot_with-IsSafe :
      (out : Netboot) → resolve_netboot_with detect default_leases n ≡ ok out → IsSafe out
  unfolding resolve_netboot_with
  resolve_netboot_with-IsSafe out h =
      let (interface, _, h₁) =
        and_next-ok (or_bail (interface_or detect default_leases n) no_interface)
          (with_interface detect default_leases n) out h in
      let (i, h₂) = require-ok _ _ _ out h₁ in
      let (server_ip, _, h₃) =
        and_next-ok (or_bail (server_ip_or detect default_leases n) no_server_ip)
          (with_server_ip detect default_leases n interface) out h₂ in
      with_server_ip-IsSafe interface server_ip out i h₃
