-- ===== src/Model/Info.antt =====
-- src/model.rs: what is known of a model file.
use llmtune.Prelude.{ℕ, Bool, Option, Text}

pub record Model : Type 0 where
  pub path : Text
  pub name : Text
  pub arch : Text
  pub params : Option Text
  pub quant : Option Text
  pub size_bytes : ℕ
  pub ctx_max : Option ℕ
  pub has_mtp : Bool
