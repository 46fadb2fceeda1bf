-- ===== src/Components/Data.antt =====
-- crates/chromifer-components/src/lib.rs: what an analysis reports of components.
use chromifer.Base.{ℕ, suc, String, Bool, ◌&&◌, Option, List, [], ◌∷◌, ltb, eqb, length, filter}
use chromifer.Manifest.Data.{Boundary, MigrationState, Module}

pub data MigrationScope : Type 0 where
  browser_service reusable_infrastructure process_security_kernel deferred_runtime other :
      MigrationScope

-- The `Display` of a scope
unfoldable pub scope_text : MigrationScope → String
scope_text browser_service = "browser_service"
scope_text reusable_infrastructure = "reusable_infrastructure"
scope_text process_security_kernel = "process_security_kernel"
scope_text deferred_runtime = "deferred_runtime"
scope_text other = "other"

pub record StateCounts : Type 0 where
  pub legacy : ℕ
  pub bridged : ℕ
  pub rust_owned : ℕ

-- `StateCounts::add`
unfoldable pub add_state : StateCounts → MigrationState → StateCounts
add_state c MigrationState.legacy_cpp = record c { legacy = suc c.legacy }
add_state c MigrationState.bridged = record c { bridged = suc c.bridged }
add_state c MigrationState.rust_owned = record c { rust_owned = suc c.rust_owned }

-- `StateCounts::is_mixed`: more than one count is not 0.
unfoldable pub is_mixed : StateCounts → Bool
is_mixed c = ltb 1 (length (filter (ltb 0) (c.legacy ∷ c.bridged ∷ c.rust_owned ∷ [])))

-- `StateCounts::is_fully_rust_owned`
unfoldable pub is_fully_rust_owned : StateCounts → Bool
is_fully_rust_owned c = ltb 0 c.rust_owned && (eqb c.legacy 0 && eqb c.bridged 0)

pub record RiskBreakdown : Type 0 where
  pub module_size : ℕ
  pub source_size : ℕ
  pub topology : ℕ
  pub boundaries : ℕ
  pub unresolved_reviews : ℕ
  pub mixed_state : ℕ
  pub missing_gates : ℕ
  pub scope : ℕ
  pub missing_target_coverage : ℕ
  pub source_coverage : ℕ
  pub total : ℕ

pub record TestCoverageProxy : Type 0 where
  pub covered_module_target_pairs : ℕ
  pub total_module_target_pairs : ℕ
  pub basis_points : ℕ

pub record SourceCoverageMeasurement : Type 0 where
  pub total_sources : ℕ
  pub measured_sources : ℕ
  pub missing_sources : List String
  pub covered_lines : ℕ
  pub total_lines : ℕ
  pub line_basis_points : ℕ
  pub effective_basis_points : ℕ

pub data CandidateConcern : Type 0 where
  no_source_files missing_compatibility_gates : CandidateConcern
  missing_required_target_coverage : (missing_pairs total_pairs : ℕ) → CandidateConcern
  incomplete_source_coverage : (missing_sources total_sources : ℕ) → CandidateConcern
  mixed_migration_states : CandidateConcern
  deferred_scope : (scope : MigrationScope) → CandidateConcern
  unresolved_reviews : (count : ℕ) → CandidateConcern
  unresolved_ownership_includes : (count : ℕ) → CandidateConcern
  unaudited_external_edges : (count : ℕ) → CandidateConcern

pub record ComponentSummary : Type 0 where
  pub id : String
  pub path : String
  pub owner : String
  pub scope : MigrationScope
  pub modules : List String
  pub source_files : ℕ
  pub states : StateCounts
  pub gates : List String
  pub test_coverage : TestCoverageProxy
  pub source_coverage : Option SourceCoverageMeasurement
  pub incoming_components : ℕ
  pub outgoing_components : ℕ
  pub unaudited_external_edges : ℕ
  pub audited_external_edges : ℕ
  pub rust_external_edges : ℕ
  pub unresolved_reviews : ℕ
  pub evidence_items : ℕ
  pub external_owner_edges : ℕ
  pub unresolved_ownership_includes : ℕ
  pub risk : RiskBreakdown
  pub readiness_score : ℕ
  pub eligible : Bool
  pub concerns : List CandidateConcern

pub record RankedCandidate : Type 0 where
  pub rank : ℕ
  pub component : String
  pub path : String
  pub owner : String
  pub scope : MigrationScope
  pub readiness_score : ℕ
  pub risk_score : ℕ
  pub eligible : Bool
  pub source_files : ℕ
  pub module_count : ℕ
  pub concerns : List CandidateConcern

pub record GroupDraft : Type 0 where
  pub path : String
  pub owner : String
  pub modules : List Module

-- The sets of components hold their ids.
pub record IncidentMetrics : Type 0 where
  pub incoming_components : List String
  pub outgoing_components : List String
  pub unaudited_external_edges : ℕ
  pub audited_external_edges : ℕ
  pub rust_external_edges : ℕ
  pub unresolved_reviews : ℕ
  pub evidence_items : ℕ
  pub external_owner_edges : ℕ

pub record CoverageRiskPenalties : Type 0 where
  pub target : ℕ
  pub source : ℕ

pub record ComponentEdge : Type 0 where
  pub from : String
  pub to : String
  pub module_edges : ℕ
  pub boundaries : List Boundary
  pub evidence_items : ℕ
  pub unresolved_reviews : ℕ
  pub crosses_owner : Bool

pub record EdgeDraft : Type 0 where
  pub module_edges : ℕ
  pub boundaries : List Boundary
  pub evidence_items : ℕ
  pub unresolved_reviews : ℕ

pub record AnalysisOptions : Type 0 where
  pub path_depth : ℕ

pub data AnalysisError : Type 0 where
  zero_path_depth : AnalysisError

pub record ComponentAnalysis : Type 0 where
  pub baseline : String
  pub path_depth : ℕ
  pub module_count : ℕ
  pub component_count : ℕ
  pub components : List ComponentSummary
  pub edges : List ComponentEdge
  pub ranking : List RankedCandidate
