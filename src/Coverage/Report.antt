-- ===== src/Coverage/Report.antt =====
-- crates/chromifer-coverage/src/lib.rs: the checks of a report by itself.
use chromifer.Base.{
  ℕ, String, not, ◌/◌, min, ◌||◌, List, [], ◌∷◌, Option, some, ltb, eqb, list_eq, ◌==◌, string_eq,
  nat_eq, option_eq, string_ord, if◌then◌else◌,
}
use chromifer.Base.Results.{Result, ok, err, ◌>>◌}
use chromifer.Base.Machine.{max_64, sat_mul}
use chromifer.Base.Sets.{insert, member}
use chromifer.Base.Text.{is_blank}
use chromifer.Manifest.Data.{find_by}
use chromifer.Manifest.Path.{normalize_repo_relative_path}
use chromifer.Coverage.Data.{
  LineCoverage, FileCoverage, ModuleCoverage, CoverageReport, CoverageError, empty_export_version,
  invalid_coverage_path, duplicate_coverage, invalid_line_counts, lines_eq, module_eq, totals_eq,
}

-- `CoverageReport::file`
unfoldable pub find_file : CoverageReport → String → Option FileCoverage
unfolding find_by
find_file report path = find_by (λ (f : FileCoverage). f.path) report.files path

-- `(part * 10_000) / whole`, at most 10,000, and 10,000 of nothing
unfoldable pub basis_points_of : (whole part : ℕ) → ℕ
basis_points_of whole part =
    if eqb whole 0 then 10000 else min (sat_mul max_64 part 10000 / whole) 10000

unfoldable pub line_coverage : (count covered : ℕ) → LineCoverage
unfolding basis_points_of
line_coverage count covered = record {
  count = count;
  covered = covered;
  basis_points = basis_points_of count covered;
}

unfoldable pub validate_line_coverage : (path : String) → LineCoverage → Result CoverageError Unit
unfolding line_coverage
validate_line_coverage path lines =
    if ltb lines.count lines.covered
      || not (eqb lines.basis_points (line_coverage lines.count lines.covered).basis_points)
    then err (invalid_line_counts path lines.count lines.covered)
    else ok tt

-- The loop over the files, with the set `paths`
unfoldable pub validate_files :
    (paths : List String) → List FileCoverage → Result CoverageError Unit
unfolding insert member
validate_files paths [] = ok tt
validate_files paths (file ∷ files) =
    let rest = validate_files (insert file.path paths) files in
    if not (normalize_repo_relative_path file.path == some file.path)
    then err (invalid_coverage_path file.path)
    else if member paths file.path
    then err (duplicate_coverage file.path)
    else (validate_line_coverage file.path file.lines >> rest)

unfoldable pub validate_modules : List ModuleCoverage → Result CoverageError Unit
validate_modules [] = ok tt
validate_modules (m ∷ modules) =
    validate_line_coverage m.module_id m.lines >> validate_modules modules

unfoldable pub validate_report : CoverageReport → Result CoverageError Unit
unfolding validate_files validate_modules validate_line_coverage is_blank
validate_report report =
    if is_blank report.llvm_export_version
    then err empty_export_version
    else (validate_files [] report.files
        >> (validate_modules report.modules >> validate_line_coverage "totals" report.totals.lines))
