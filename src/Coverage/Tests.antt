-- ===== src/Coverage/Tests.antt =====
-- Runs of the checks of coverage, and the theorems at a concrete report.
use chromifer.Base.{string_ord, ℕ, ◌≡◌, ◌↔◌, refl, [], ◌∷◌, arith, All}
use chromifer.Base.Results.{ok, err}
use chromifer.Manifest.Data.{Module, bridged}
use chromifer.Manifest.Tests.{part, with_modules}
use chromifer.Manifest.Path.{normalize_repo_relative_path}
use chromifer.Coverage.Data.{FileCoverage, CoverageReport, duplicate_coverage}
use chromifer.Coverage.Report.{basis_points_of, validate_report}
use chromifer.Coverage.Totals.{aggregate_modules, measured_onto, verify_report_manifest}
use chromifer.Coverage.Laws.{
  IsValidReport, IsValidFile, validate_report_iff, basis_points_of-full_iff,
}
use chromifer.Coverage.Sums.{AreRows, aggregate_modules-AreRows}
use chromifer.Coverage.Agreement.{Agrees, verify_report_manifest_iff}

abbrev net : Module
net = record (part "net" bridged []) { sources = "net/a.cc" ∷ "net/b.cc" ∷ [] }

abbrev one_file : FileCoverage
one_file = record {
  path = "net/a.cc";
  lines = record { count = 4; covered = 3; basis_points = 7500 };
}

abbrev report : CoverageReport
report = record {
  schema_version = 1;
  manifest_sha256 = "d";
  baseline = "b";
  llvm_export_sha256 = "e";
  llvm_export_version = "2.0.1";
  files = one_file ∷ [];
  modules =
      record {
        module_id = "net";
        total_sources = 2;
        measured_sources = 1;
        missing_sources = "net/b.cc" ∷ [];
        lines = record { count = 4; covered = 3; basis_points = 7500 };
      }
      ∷ [];
  totals = record {
    manifest_sources = 2;
    measured_sources = 1;
    missing_sources = "net/b.cc" ∷ [];
    lines = record { count = 4; covered = 3; basis_points = 7500 };
  };
}

report-verified : verify_report_manifest report (with_modules (net ∷ [])) "d" ≡ ok tt
unfolding verify_report_manifest normalize_repo_relative_path
report-verified = refl

twice-refused :
    validate_report (record report { files = one_file ∷ one_file ∷ [] })
    ≡ err (duplicate_coverage "net/a.cc")
unfolding validate_report normalize_repo_relative_path
twice-refused = refl

validate_report_iff_example : (validate_report report ≡ ok tt) ↔ IsValidReport report
validate_report_iff_example = validate_report_iff report

verify_report_manifest_iff_example :
    (verify_report_manifest report (with_modules (net ∷ [])) "d" ≡ ok tt)
    ↔ Agrees report (with_modules (net ∷ [])) "d"
verify_report_manifest_iff_example = verify_report_manifest_iff report (with_modules (net ∷ [])) "d"

basis_points_of-full_iff_example : (basis_points_of 4 3 ≡ 10000) ↔ (◌≡◌ {A = ℕ} 3 4)
basis_points_of-full_iff_example = basis_points_of-full_iff 4 3 (omega arith) (omega arith)

one_file-valid : All IsValidFile (one_file ∷ [])
unfolding normalize_repo_relative_path basis_points_of
one_file-valid =
    (record { path = refl; lines = record { bounded = omega arith; ratio = refl } }, tt)

aggregate_modules-AreRows_example :
    AreRows
      (measured_onto [] (one_file ∷ []))
      (net ∷ [])
      (aggregate_modules (measured_onto [] (one_file ∷ [])) (net ∷ []))
aggregate_modules-AreRows_example =
    aggregate_modules-AreRows (one_file ∷ []) (net ∷ []) one_file-valid
