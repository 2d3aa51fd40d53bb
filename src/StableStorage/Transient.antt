-- ===== src/StableStorage/Transient.antt =====
-- transient.rs: what belongs to stable storage and is not stored.
use metamagic.Prelude.{ℕ, Bool, false}

pub record Transient : Type 0 where
  pub skip_next_save : Bool
  pub post_upgrade_instruction_count : ℕ

-- `Default`
abbrev pub default_transient : Transient
default_transient = record { skip_next_save = false; post_upgrade_instruction_count = 0 }
