-- ===== src/Manifest/Data.antt =====
-- crates/chromifer-manifest/src/lib.rs: the manifest, its parts and their enumerations.
use chromifer.Base.{
  ℕ, String, ◌≡◌, ◌↔◌, Bool, true, false, Option, none, some, List, map, [], ◌∷◌, Eq, ◌==◌,
  string_eq, if◌then◌else◌, arith,
}

pub record Project : Type 0 where
  pub name : String
  pub upstream : String
  pub baseline : String

pub record InventoryMetadata : Type 0 where
  pub source_format : String
  pub build_dir : String
  pub default_toolchain : String
  pub roots : List String
  pub include_all_toolchains : Bool
  pub include_testonly : Bool
  pub include_meta_targets : Bool
  pub infer_state : Bool
  pub omitted_dependency_count : ℕ

pub record Target : Type 0 where
  pub id : String
  pub description : String
  pub required : Bool

pub data GateExecution : Type 0 where
  shell : String → GateExecution
  direct : String → List String → GateExecution

pub record GateInput : Type 0 where
  pub path : String
  pub sha256 : String

pub record CompatibilityGate : Type 0 where
  pub id : String
  pub execution : GateExecution
  pub inputs : List GateInput
  pub targets : List String

pub data BoundaryReviewKind : Type 0 where
  callback observer : BoundaryReviewKind

pub data BoundaryEvidenceKind : Type 0 where
  cxx_generated_header cxx_bridge_include c_abi_symbol mojo_generated_header : BoundaryEvidenceKind

pub data Boundary : Type 0 where
  unclassified cpp_internal cxx c_abi mojo rust : Boundary

-- `BoundaryEvidenceKind::boundary`
pub boundary : BoundaryEvidenceKind → Boundary
boundary cxx_generated_header = cxx
boundary cxx_bridge_include = cxx
boundary c_abi_symbol = c_abi
boundary mojo_generated_header = mojo

-- `Boundary::is_audited_cross_language`
unfoldable pub is_audited_cross_language : Boundary → Bool
is_audited_cross_language cxx = true
is_audited_cross_language c_abi = true
is_audited_cross_language mojo = true
is_audited_cross_language _ = false

-- The `Display` of a boundary
pub boundary_text : Boundary → String
boundary_text unclassified = "unclassified"
boundary_text cpp_internal = "cpp_internal"
boundary_text cxx = "cxx"
boundary_text c_abi = "c_abi"
boundary_text mojo = "mojo"
boundary_text rust = "rust"

pub record BoundaryEvidence : Type 0 where
  pub kind : BoundaryEvidenceKind
  pub file : String
  pub line : ℕ
  pub detail : String

pub record BoundaryReview : Type 0 where
  pub kind : BoundaryReviewKind
  pub file : String
  pub line : ℕ
  pub detail : String
  pub resolved : Bool

pub data MigrationState : Type 0 where
  legacy_cpp bridged rust_owned : MigrationState

-- `MigrationState::next`
unfoldable pub next : MigrationState → Option MigrationState
next legacy_cpp = some bridged
next bridged = some rust_owned
next rust_owned = none

-- The `Display` of a state
unfoldable pub state_text : MigrationState → String
state_text legacy_cpp = "legacy_cpp"
state_text bridged = "bridged"
state_text rust_owned = "rust_owned"

-- `MigrationState::from_str`; `none` is its error.
unfoldable pub parse_state : String → Option MigrationState
parse_state value =
    if value == "legacy_cpp"
    then some legacy_cpp
    else if value == "bridged"
    then some bridged
    else if value == "rust_owned"
    then some rust_owned
    else none

pub record OwnershipInclude : Type 0 where
  pub owner_file : String
  pub include : String

pub record SourceOwnership : Type 0 where
  pub source : String
  pub primary_owners : List String
  pub effective_owners : List String
  pub owner_files : List String
  pub unresolved_includes : List OwnershipInclude
  pub inheritance_stopped_at : Option String

pub record ModuleOwnership : Type 0 where
  pub primary_owners : List String
  pub effective_owners : List String
  pub common_effective_owners : List String
  pub owner_files : List String
  pub unresolved_sources : List String
  pub unresolved_includes : List OwnershipInclude
  pub split_ownership : Bool
  pub sources : List SourceOwnership

pub record Dependency : Type 0 where
  pub module_id : String
  pub boundary : Boundary
  pub evidence : List BoundaryEvidence
  pub reviews : List BoundaryReview

pub record Module : Type 0 where
  pub id : String
  pub path : String
  pub owner : String
  pub ownership : Option ModuleOwnership
  pub source_label : Option String
  pub source_type : Option String
  pub sources : List String
  pub state : MigrationState
  pub gates : List String
  pub reviews : List BoundaryReview
  pub dependencies : List Dependency

pub record Manifest : Type 0 where
  pub schema_version : ℕ
  pub project : Project
  pub inventory : Option InventoryMetadata
  pub targets : List Target
  pub gates : List CompatibilityGate
  pub modules : List Module

-- The derived `PartialEq` of the enumerations
abbrev state_beq : MigrationState → MigrationState → Bool
state_beq legacy_cpp legacy_cpp = true
state_beq bridged bridged = true
state_beq rust_owned rust_owned = true
state_beq _ _ = false

pub state_beq_iff : (a b : MigrationState) → (state_beq a b ≡ true) ↔ (a ≡ b)
state_beq_iff a b = ground arith

instance abbrev pub state_eq : Eq MigrationState
state_eq = record { beq = state_beq; beq_iff = state_beq_iff }

abbrev boundary_beq : Boundary → Boundary → Bool
boundary_beq unclassified unclassified = true
boundary_beq cpp_internal cpp_internal = true
boundary_beq cxx cxx = true
boundary_beq c_abi c_abi = true
boundary_beq mojo mojo = true
boundary_beq rust rust = true
boundary_beq _ _ = false

pub boundary_beq_iff : (a b : Boundary) → (boundary_beq a b ≡ true) ↔ (a ≡ b)
boundary_beq_iff a b = ground arith

instance abbrev pub boundary_eq : Eq Boundary
boundary_eq = record { beq = boundary_beq; beq_iff = boundary_beq_iff }

-- `iter().find` by an item's id
unfoldable pub find_by : {A : Type 0} → (A → String) → List A → String → Option A
find_by key [] id = none
find_by key (x ∷ xs) id = if key x == id then some x else find_by key xs id

-- `Manifest::module`
unfoldable pub find_module : Manifest → String → Option Module
unfolding find_by
find_module m id = find_by (λ (x : Module). x.id) m.modules id

-- `Manifest::gate`
unfoldable pub find_gate : Manifest → String → Option CompatibilityGate
unfolding find_by
find_gate m id = find_by (λ (g : CompatibilityGate). g.id) m.gates id

abbrev pub ids_of_targets : List Target → List String
ids_of_targets = map (λ t. t.id)

abbrev pub ids_of_gates : List CompatibilityGate → List String
ids_of_gates = map (λ g. g.id)

abbrev pub ids_of_modules : List Module → List String
ids_of_modules = map (λ m. m.id)
