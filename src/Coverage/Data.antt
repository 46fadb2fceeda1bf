-- ===== src/Coverage/Data.antt =====
-- crates/chromifer-coverage/src/lib.rs: the report, its parts, and the errors of its checks.
use chromifer.Base.{
  ℕ, String, ◌≡◌, ◌↔◌, Bool, true, ◌&&◌, List, eqb_iff, eq_iff, list_beq_iff, list_eq, ◌==◌, Eq,
  string_eq, nat_eq, option_eq, string_ord, arith,
}

pub record LineCoverage : Type 0 where
  pub count : ℕ
  pub covered : ℕ
  pub basis_points : ℕ

pub record FileCoverage : Type 0 where
  pub path : String
  pub lines : LineCoverage

pub record ModuleCoverage : Type 0 where
  pub module_id : String
  pub total_sources : ℕ
  pub measured_sources : ℕ
  pub missing_sources : List String
  pub lines : LineCoverage

pub record CoverageTotals : Type 0 where
  pub manifest_sources : ℕ
  pub measured_sources : ℕ
  pub missing_sources : List String
  pub lines : LineCoverage

pub record CoverageReport : Type 0 where
  pub schema_version : ℕ
  pub manifest_sha256 : String
  pub baseline : String
  pub llvm_export_sha256 : String
  pub llvm_export_version : String
  pub files : List FileCoverage
  pub modules : List ModuleCoverage
  pub totals : CoverageTotals

-- The errors of the functions below
pub data CoverageError : Type 0 where
  empty_export_version : CoverageError
  invalid_coverage_path : String → CoverageError
  duplicate_coverage : String → CoverageError
  invalid_line_counts : (path : String) (count covered : ℕ) → CoverageError
  invalid_manifest_source : String → CoverageError
  manifest_mismatch : CoverageError

-- The derived `PartialEq` of the records
abbrev lines_beq : LineCoverage → LineCoverage → Bool
lines_beq a b = a.count == b.count && (a.covered == b.covered && a.basis_points == b.basis_points)

pub lines_beq_iff : (a b : LineCoverage) → (lines_beq a b ≡ true) ↔ (a ≡ b)
lines_beq_iff a b = ground (
  arith,
  eqb_iff a.count b.count,
  eqb_iff a.covered b.covered,
  eqb_iff a.basis_points b.basis_points,
)

instance abbrev pub lines_eq : Eq LineCoverage
lines_eq = record { beq = lines_beq; beq_iff = lines_beq_iff }

abbrev module_beq : ModuleCoverage → ModuleCoverage → Bool
module_beq a b =
    a.module_id == b.module_id
    && (a.total_sources == b.total_sources
        && (a.measured_sources == b.measured_sources
            && (a.missing_sources == b.missing_sources && a.lines == b.lines)))

pub module_beq_iff : (a b : ModuleCoverage) → (module_beq a b ≡ true) ↔ (a ≡ b)
module_beq_iff a b = ground (
  arith,
  eq_iff a.module_id b.module_id,
  eqb_iff a.total_sources b.total_sources,
  eqb_iff a.measured_sources b.measured_sources,
  list_beq_iff a.missing_sources b.missing_sources,
  lines_beq_iff a.lines b.lines,
)

instance abbrev pub module_eq : Eq ModuleCoverage
module_eq = record { beq = module_beq; beq_iff = module_beq_iff }

abbrev totals_beq : CoverageTotals → CoverageTotals → Bool
totals_beq a b =
    a.manifest_sources == b.manifest_sources
    && (a.measured_sources == b.measured_sources
        && (a.missing_sources == b.missing_sources && a.lines == b.lines))

pub totals_beq_iff : (a b : CoverageTotals) → (totals_beq a b ≡ true) ↔ (a ≡ b)
totals_beq_iff a b = ground (
  arith,
  eqb_iff a.manifest_sources b.manifest_sources,
  eqb_iff a.measured_sources b.measured_sources,
  list_beq_iff a.missing_sources b.missing_sources,
  lines_beq_iff a.lines b.lines,
)

instance abbrev pub totals_eq : Eq CoverageTotals
totals_eq = record { beq = totals_beq; beq_iff = totals_beq_iff }
