-- ===== src/Owners/Data.antt =====
-- crates/chromifer-owners/src/lib.rs: parsed OWNERS files, and the errors of a scan.
use chromifer.Base.{ℕ, String, Bool, List}
use chromifer.Base.Text.{join, replace}
use chromifer.Manifest.Errors.{ValidationError}

-- A path relative to the root, by its components
abbrev pub RepoPath : Type 0
RepoPath = List String

unfoldable pub path_string : RepoPath → String
unfolding join replace
path_string path = replace b'\\' "/" (join "/" path)

pub data Directive : Type 0 where
  owner include_file : String → Directive
  no_parent : Directive

pub record PerFileRule : Type 0 where
  pub pattern_text : String
  pub directive : Directive

pub record ParsedOwners : Type 0 where
  pub global : List Directive
  pub per_file : List PerFileRule
  pub global_noparent : Bool

-- `no_fuel` belongs to the model alone.
pub data OwnershipError : Type 0 where
  invalid_source_path : (owner path : String) → OwnershipError
  read_owners : (path : String) → OwnershipError
  syntax : (path : String) (line : ℕ) (message : String) → OwnershipError
  missing_include : (path include : String) → OwnershipError
  include_cycle : (cycle : String) → OwnershipError
  manifest_validation : List ValidationError → OwnershipError
  no_fuel : OwnershipError
