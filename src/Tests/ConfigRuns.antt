-- ===== src/Tests/ConfigRuns.antt =====
-- A fleet of one remote node with a cluster and a netboot section, and the subnet of an address.
use llmtune.Prelude.{◌≡◌, refl, false, none, some, [], ◌∷◌, ok, any, codes, arith}
use llmtune.Config.{Node, ssh}
use llmtune.Config.Raw.{NodeCfg, ClusterCfg, NetbootCfg, RawConfig}
use llmtune.Config.Address.{subnet_base}
use llmtune.Config.Netboot.{Netboot, resolve_netboot_with}
use llmtune.Config.Safe.{IsSafe, resolve_netboot_with-IsSafe}
use llmtune.Config.Fleet.{Config, from_raw, local_node, is_local}
use llmtune.Config.Accepted.{IsFleet, from_raw-IsFleet, local_node_total}
use llmtune.Config.Masks.{IsSplit, subnet_base-IsSplit}

abbrev board_cfg : NodeCfg
board_cfg = record {
  name = codes "board";
  host = some (codes "10.0.0.7");
  transport = some (codes "SSH");
  ssh_user = some (codes "root");
  ssh_key = none;
  models_dir = none;
  llama_unit = none;
  llama_url = none;
  power_cmd = none;
}

abbrev pair_cfg : ClusterCfg
pair_cfg = record {
  name = codes "pair";
  head = codes "board";
  workers = [];
  rpc_port = 50_052;
  rpc_bin = none;
  rpc_bind = some (codes "10.0.0.7");
}

abbrev netboot_cfg : NetbootCfg
netboot_cfg = record {
  interface = some (codes "enp6s0");
  server_ip = some (codes "10.1.2.3");
  subnet = none;
  prefix_len = none;
  http_port = none;
  rootfs = none;
  tftp_root = none;
  kernel = none;
  initrd = none;
  oc_profile = none;
  leases = some (codes "/l");
  mac_ouis = codes "58:AA" ∷ [];
  hostname_prefix = none;
  lan_cidr = none;
  models_dir = none;
  dnsmasq = none;
  console_port = none;
  iso = none;
  work_dir = some (codes "/w");
  ssh_pubkey = none;
  ttm_gtt_gb = none;
  flake = none;
  nix_cmd = none;
  image_variant = some (codes " ");
  images_dir = none;
}

abbrev pub netboot : Netboot
netboot = record {
  interface = codes "enp6s0";
  server_ip = codes "10.1.2.3";
  subnet = codes "10.1.2.0";
  prefix_len = 24;
  http_port = 8090;
  rootfs = codes "/srv/nfs/bc250-root";
  tftp_root = codes "/srv/tftp";
  kernel = codes "/srv/tftp/vmlinuz";
  initrd = codes "/srv/tftp/initramfs-nfs.img";
  oc_profile = codes "balanced";
  leases = codes "/l";
  mac_ouis = codes "58:aa" ∷ [];
  hostname_prefix = codes "bc250";
  lan_cidr = codes "10.1.2.0/24";
  models_dir = codes "/var/lib/llmtune/models";
  dnsmasq = false;
  console_port = 6666;
  iso = none;
  work_dir = codes "/w";
  ssh_pubkey = none;
  ttm_gtt_gb = 12;
  flake = none;
  nix_cmd = codes "nix";
  image_variant = none;
  images_dir = codes "/w/images";
}

abbrev raw_fleet : RawConfig
raw_fleet = record {
  defaults = record { models_dir = none; llama_unit = none; llama_url = none };
  nodes = board_cfg ∷ [];
  clusters = pair_cfg ∷ [];
  netboot = some netboot_cfg;
}

abbrev fleet : Config
fleet = record {
  nodes =
      record {
        name = codes "board";
        host = some (codes "10.0.0.7");
        transport = ssh;
        ssh_user = some (codes "root");
        ssh_key = none;
        models_dir = codes "/m";
        llama_unit = codes "llama-server.service";
        llama_url = codes "http://127.0.0.1:8080";
        power_cmd = none;
      }
      ∷ [];
  clusters = pair_cfg ∷ [];
  netboot = some netboot;
}

netboot_resolved : resolve_netboot_with none [] netboot_cfg ≡ ok netboot
unfolding resolve_netboot_with
netboot_resolved = refl

fleet_accepted : from_raw none [] (some (codes "/m")) raw_fleet ≡ ok fleet
unfolding from_raw
fleet_accepted = refl

resolve_netboot_with-IsSafe_example : IsSafe netboot
resolve_netboot_with-IsSafe_example =
    resolve_netboot_with-IsSafe none [] netboot_cfg netboot netboot_resolved

from_raw-IsFleet_example : IsFleet raw_fleet fleet
from_raw-IsFleet_example =
    from_raw-IsFleet none [] (some (codes "/m")) raw_fleet fleet fleet_accepted

local_node_total_example :
    (n : Node) × (local_node fleet ≡ some n) × (any is_local fleet.nodes ≡ is_local n)
local_node_total_example =
    local_node_total none [] (some (codes "/m")) raw_fleet fleet fleet_accepted

subnet_base-IsSplit_example : IsSplit 8 3_232_235_777 (subnet_base 3_232_235_777 24)
subnet_base-IsSplit_example = subnet_base-IsSplit 3_232_235_777 24 (omega arith) (omega arith)
