-- ===== src/Config/Raw.antt =====
-- src/config.rs: what the TOML file holds, `RawConfig` and its parts.
use llmtune.Prelude.{ℕ, Bool, Option, List, Text}

pub record Defaults : Type 0 where
  pub models_dir : Option Text
  pub llama_unit : Option Text
  pub llama_url : Option Text

pub record NodeCfg : Type 0 where
  pub name : Text
  pub host : Option Text
  pub transport : Option Text
  pub ssh_user : Option Text
  pub ssh_key : Option Text
  pub models_dir : Option Text
  pub llama_unit : Option Text
  pub llama_url : Option Text
  pub power_cmd : Option Text

pub record ClusterCfg : Type 0 where
  pub name : Text
  pub head : Text
  pub workers : List Text
  pub rpc_port : ℕ
  pub rpc_bin : Option Text
  pub rpc_bind : Option Text

pub record NetbootCfg : Type 0 where
  pub interface : Option Text
  pub server_ip : Option Text
  pub subnet : Option Text
  pub prefix_len : Option ℕ
  pub http_port : Option ℕ
  pub rootfs : Option Text
  pub tftp_root : Option Text
  pub kernel : Option Text
  pub initrd : Option Text
  pub oc_profile : Option Text
  pub leases : Option Text
  pub mac_ouis : List Text
  pub hostname_prefix : Option Text
  pub lan_cidr : Option Text
  pub models_dir : Option Text
  pub dnsmasq : Option Bool
  pub console_port : Option ℕ
  pub iso : Option Text
  pub work_dir : Option Text
  pub ssh_pubkey : Option Text
  pub ttm_gtt_gb : Option ℕ
  pub flake : Option Text
  pub nix_cmd : Option Text
  pub image_variant : Option Text
  pub images_dir : Option Text

pub record RawConfig : Type 0 where
  pub defaults : Defaults
  pub nodes : List NodeCfg
  pub clusters : List ClusterCfg
  pub netboot : Option NetbootCfg
