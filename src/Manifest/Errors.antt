-- ===== src/Manifest/Errors.antt =====
-- crates/chromifer-manifest/src/lib.rs: `ValidationError`, each variant with its fields.
use chromifer.Base.{ℕ, String, List}
use chromifer.Manifest.Data.{MigrationState}

pub data ValidationError : Type 0 where
  unsupported_schema : (found supported : ℕ) → ValidationError
  empty_project_field : (field : String) → ValidationError
  empty_inventory_field : (field : String) → ValidationError
  duplicate_id : (kind id : String) → ValidationError
  empty_field : (kind id field : String) → ValidationError
  unknown_target : (gate target : String) → ValidationError
  invalid_gate_execution : (gate detail : String) → ValidationError
  invalid_gate_input_path : (gate path : String) → ValidationError
  invalid_gate_input_digest : (gate path sha256 : String) → ValidationError
  duplicate_gate_input : (gate path : String) → ValidationError
  unknown_gate : (owner gate : String) → ValidationError
  unknown_dependency : (owner dependency : String) → ValidationError
  self_dependency : (owner : String) → ValidationError
  duplicate_dependency : (owner dependency : String) → ValidationError
  invalid_ownership_value : (owner field : String) → ValidationError
  invalid_source_location : (kind id file : String) (line : ℕ) → ValidationError
  dependency_cycle : (cycle : String) → ValidationError
  missing_compatibility_gate : (owner : String) (state : MigrationState) → ValidationError

-- `Result<(), ValidationErrors>`
pub data Validation : Type 0 where
  valid : Validation
  invalid : List ValidationError → Validation
