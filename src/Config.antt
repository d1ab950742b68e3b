-- ===== src/Config.antt =====
-- src/config.rs: the record of a node, with all defaults applied.
pub mod Raw
pub mod Address
pub mod Checks
pub mod Netboot
pub mod Safe
pub mod Fleet
pub mod Accepted
pub mod Masks
use llmtune.Prelude.{Option, Text}

pub data Transport : Type 0 where
  local ssh agent : Transport

pub record Node : Type 0 where
  pub name : Text
  pub host : Option Text
  pub transport : Transport
  pub ssh_user : Option Text
  pub ssh_key : Option Text
  pub models_dir : Text
  pub llama_unit : Text
  pub llama_url : Text
  pub power_cmd : Option Text
