-- ===== src/Config/Netboot.antt =====
-- src/config.rs: the netboot section, `resolve_netboot_with`. The probe of the host's network and
-- the default path of the leases are arguments; the probe only reads.
use llmtune.Prelude.{
  ℕ, Bool, false, ◌&&◌, Option, none, some, List, [], ◌∷◌, ◌++◌, leb, Outcome, ok, and_next,
  require, require_all, or_bail, or_else, Text, codes, find, to_lowercase, trim, show, map,
}
use llmtune.Config.Raw.{NetbootCfg}
use llmtune.Config.Address.{parse_v4, show_v4, subnet_base}
use llmtune.Config.Checks.{
  or, safe_token, safe_abs_path, explicit, is_v4, is_cidr, is_oc_profile, is_nix_cmd, is_variant,
  safe_or_none, trimmed, variant_or_none, bad, no_interface, no_server_ip, absolute, bad_path,
  bad_oui, value,
}

pub record Netboot : Type 0 where
  pub interface : Text
  pub server_ip : Text
  pub subnet : Text
  pub prefix_len : ℕ
  pub http_port : ℕ
  pub rootfs : Text
  pub tftp_root : Text
  pub kernel : Text
  pub initrd : Text
  pub oc_profile : Text
  pub leases : Text
  pub mac_ouis : List Text
  pub hostname_prefix : Text
  pub lan_cidr : Text
  pub models_dir : Text
  pub dnsmasq : Bool
  pub console_port : ℕ
  pub iso : Option Text
  pub work_dir : Text
  pub ssh_pubkey : Option Text
  pub ttm_gtt_gb : ℕ
  pub flake : Option Text
  pub nix_cmd : Text
  pub image_variant : Option Text
  pub images_dir : Text

unfoldable pub export_cidr : Netboot → Text
unfolding show
export_cidr n = n.subnet ++ (codes "/" ++ show n.prefix_len)

unfoldable pub http_base : Netboot → Text
unfolding show
http_base n = codes "http://" ++ (n.server_ip ++ (codes ":" ++ show n.http_port))

abbrev lease_candidates : List Text
lease_candidates =
    codes "/var/lib/misc/dnsmasq.leases" ∷ codes "/var/lib/dnsmasq/dnsmasq.leases" ∷ []

-- The first candidate that exists, else the first of all.
unfoldable pub default_leases_from : (Text → Bool) → Text
default_leases_from exists =
    or (find exists lease_candidates) (codes "/var/lib/misc/dnsmasq.leases")

pub record DetectedNet : Type 0 where
  pub interface : Text
  pub ip : Text

abbrev interface_of : Option DetectedNet → Option Text
interface_of none = none
interface_of (some d) = some d.interface

abbrev ip_of : Option DetectedNet → Option Text
ip_of none = none
ip_of (some d) = some d.ip

-- The probe is asked where the interface or the address is not set, and a value that is set wins.
module _ (detect : Option DetectedNet) (default_leases : Text) (n : NetbootCfg) where
  abbrev pub interface_or : Option Text
  interface_or = or_else (explicit n.interface) (interface_of detect)

  abbrev pub server_ip_or : Option Text
  server_ip_or = or_else (explicit n.server_ip) (ip_of detect)

  abbrev pub prefix_len_or : ℕ
  prefix_len_or = or n.prefix_len 24

  -- The subnet of the address, unless one is set.
  abbrev pub subnet_or : ℕ → Text
  subnet_or ip = or (explicit n.subnet) (show_v4 (subnet_base ip prefix_len_or))

  abbrev tftp_root_or : Text
  tftp_root_or = or n.tftp_root (codes "/srv/tftp")

  abbrev work_dir_or : Text
  work_dir_or = or n.work_dir (codes "/var/lib/llmtune/netboot")

  -- The section with all defaults applied, before its tests.
  abbrev pub filled : Text → Text → Text → Netboot
  filled interface server_ip subnet = record {
    interface = interface;
    server_ip = server_ip;
    subnet = subnet;
    prefix_len = prefix_len_or;
    http_port = or n.http_port 8090;
    rootfs = or n.rootfs (codes "/srv/nfs/bc250-root");
    tftp_root = tftp_root_or;
    kernel = or n.kernel (tftp_root_or ++ codes "/vmlinuz");
    initrd = or n.initrd (tftp_root_or ++ codes "/initramfs-nfs.img");
    oc_profile = or n.oc_profile (codes "balanced");
    leases = or n.leases default_leases;
    mac_ouis = map to_lowercase n.mac_ouis;
    hostname_prefix = or n.hostname_prefix (codes "bc250");
    lan_cidr = or n.lan_cidr (subnet ++ (codes "/" ++ show prefix_len_or));
    models_dir = or n.models_dir (codes "/var/lib/llmtune/models");
    dnsmasq = or n.dnsmasq false;
    console_port = or n.console_port 6666;
    iso = n.iso;
    work_dir = work_dir_or;
    ssh_pubkey = n.ssh_pubkey;
    ttm_gtt_gb = or n.ttm_gtt_gb 12;
    flake = n.flake;
    nix_cmd = or n.nix_cmd (codes "nix");
    image_variant = trimmed n.image_variant;
    images_dir = or n.images_dir (work_dir_or ++ codes "/images");
  }

  -- The tests behind the one of the subnet, in the order of the code.
  unfoldable pub checked_late : Netboot → Outcome Netboot
  unfolding safe_abs_path show is_nix_cmd is_variant
  checked_late r =
      require (safe_abs_path r.models_dir)
        (bad (codes "models_dir") r.models_dir (codes " must be an absolute path"))
        (require (safe_or_none r.iso) (bad (codes "iso") (value r.iso) absolute) (
          require (safe_or_none r.ssh_pubkey)
            (bad (codes "ssh_pubkey") (value r.ssh_pubkey) absolute)
            (require (safe_abs_path r.work_dir)
              (bad (codes "work_dir") r.work_dir (codes " must be an absolute path"))
              (require (leb 1 r.ttm_gtt_gb && leb r.ttm_gtt_gb 16)
                (codes "netboot: ttm_gtt_gb "
                  ++ (show r.ttm_gtt_gb ++ codes " out of range (1-16 on a 16 GiB board)"))
                (require (safe_or_none r.flake) (bad (codes "flake") (value r.flake) absolute) (
                  require (is_nix_cmd r.nix_cmd) (bad (codes "invalid nix_cmd") r.nix_cmd []) (
                    require (variant_or_none r.image_variant)
                      (bad (codes "invalid image_variant") (value r.image_variant)
                        (codes " (alphanumeric, '_', '-' only)"))
                      (require (safe_abs_path r.images_dir)
                        (bad (codes "images_dir") r.images_dir (codes " must be an absolute path"))
                        (ok r)))))))))

  abbrev pub paths_of : Netboot → List (Text × Text)
  paths_of r =
      (codes "rootfs", r.rootfs)
      ∷ (codes "tftp_root", r.tftp_root)
      ∷ (codes "kernel", r.kernel)
      ∷ (codes "initrd", r.initrd)
      ∷ (codes "leases", r.leases)
      ∷ []

  unfoldable pub checked : Netboot → Outcome Netboot
  unfolding safe_abs_path safe_token is_oc_profile is_cidr checked_late
  checked r =
      require_all (λ (p : Text × Text). safe_abs_path p.1) bad_path (paths_of r)
        (require (is_oc_profile r.oc_profile)
          (bad (codes "oc_profile") r.oc_profile (codes " must be eco, balanced, or performance"))
          (require_all safe_token bad_oui n.mac_ouis (
            require (safe_token r.hostname_prefix)
              (bad (codes "invalid hostname_prefix") r.hostname_prefix [])
              (require (is_cidr r.lan_cidr)
                (bad (codes "lan_cidr") r.lan_cidr (codes " is not an IPv4 CIDR (a.b.c.d/len)"))
                (checked_late r)))))

  abbrev pub with_address : Text → Text → ℕ → Outcome Netboot
  with_address interface server_ip ip =
      require (leb prefix_len_or 32)
        (codes "netboot: prefix_len " ++ (show prefix_len_or ++ codes " out of range (0-32)"))
        (require (is_v4 (parse_v4 (subnet_or ip)))
          (bad (codes "subnet") (subnet_or ip) (codes " is not an IPv4 address"))
          (checked (filled interface server_ip (subnet_or ip))))

  abbrev pub with_server_ip : Text → Text → Outcome Netboot
  with_server_ip interface server_ip =
      and_next
        (or_bail (parse_v4 server_ip)
          (bad (codes "server_ip") server_ip (codes " is not an IPv4 address")))
        (with_address interface server_ip)

  abbrev pub with_interface : Text → Outcome Netboot
  with_interface interface =
      require (safe_token interface) (bad (codes "invalid interface") interface [])
        (and_next (or_bail server_ip_or no_server_ip) (with_server_ip interface))

  unfoldable pub resolve_netboot_with : Outcome Netboot
  unfolding safe_token parse_v4 show_v4 subnet_base show checked to_lowercase trim
  resolve_netboot_with = and_next (or_bail interface_or no_interface) with_interface
