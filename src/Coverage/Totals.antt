-- ===== src/Coverage/Totals.antt =====
-- crates/chromifer-coverage/src/lib.rs: what a report aggregates, and its check against a manifest.
use chromifer.Base.{
  ℕ, String, Bool, not, ◌+◌, ◌%◌, ◌^◌, ◌||◌, List, [], ◌∷◌, ◌++◌, Option, none, some, list_eq, ◌==◌,
  string_eq, nat_eq, option_eq, string_ord, if◌then◌else◌, any, filter, length, map, is_some,
  concat_map,
}
use chromifer.Base.Results.{Result, ok, err, ◌>>◌, ◌>>=◌}
use chromifer.Base.Machine.{max_64, sat_add}
use chromifer.Base.Sets.{insert, member, TreeMap, get, put, keys}
use chromifer.Manifest.Data.{Module, Manifest}
use chromifer.Manifest.Path.{normalize_repo_relative_path}
use chromifer.Coverage.Data.{
  LineCoverage, FileCoverage, ModuleCoverage, CoverageTotals, CoverageReport, CoverageError,
  invalid_manifest_source, manifest_mismatch, lines_eq, module_eq, totals_eq,
}
use chromifer.Coverage.Report.{validate_report, line_coverage}

-- The counts of the loop of `aggregate_modules` over the sources of a module
pub record Measured : Type 0 where
  pub missing_sources : List String
  pub line_count : ℕ
  pub covered_lines : ℕ
  pub measured_sources : ℕ

abbrev pub nothing_measured : Measured
nothing_measured = record {
  missing_sources = [];
  line_count = 0;
  covered_lines = 0;
  measured_sources = 0;
}

-- One source, by its entry in the measured files
abbrev pub add_source : Measured → String → Option LineCoverage → Measured
add_source acc source none = record acc { missing_sources = acc.missing_sources ++ source ∷ [] }
add_source acc source (some lines) = record acc {
  measured_sources = acc.measured_sources + 1;
  line_count = sat_add max_64 acc.line_count lines.count;
  covered_lines = sat_add max_64 acc.covered_lines lines.covered;
}

unfoldable pub measure_sources : TreeMap String LineCoverage → Measured → List String → Measured
unfolding get
measure_sources measured acc [] = acc
measure_sources measured acc (s ∷ sources) =
    measure_sources measured (add_source acc s (get measured s)) sources

abbrev pub module_coverage : (sources : List String) → String → Measured → ModuleCoverage
module_coverage sources id acc = record {
  module_id = id;
  total_sources = length sources;
  measured_sources = acc.measured_sources;
  missing_sources = acc.missing_sources;
  lines = line_coverage acc.line_count acc.covered_lines;
}

unfoldable pub aggregate_modules : TreeMap String LineCoverage → List Module → List ModuleCoverage
unfolding line_coverage measure_sources
aggregate_modules measured modules =
    map
      (λ (m : Module).
        module_coverage m.sources m.id (measure_sources measured nothing_measured m.sources))
      modules

-- `values().map(value).sum()`, which wraps around where overflow is not checked
abbrev pub sum_of : (LineCoverage → ℕ) → List (String × LineCoverage) → ℕ
sum_of value [] = 0
sum_of value ((path, lines) ∷ rest) = (value lines + sum_of value rest) % 2 ^ 64

unfoldable pub aggregate_totals :
    (sources : List String) → TreeMap String LineCoverage → CoverageTotals
unfolding line_coverage get
aggregate_totals sources measured = record {
  manifest_sources = length sources;
  measured_sources = length measured;
  missing_sources = filter (λ s. not (is_some (get measured s))) sources;
  lines = line_coverage (sum_of (λ l. l.count) measured) (sum_of (λ l. l.covered) measured);
}

-- The loops of `manifest_sources`, with the set of the sources so far
unfoldable pub add_sources : List String → List String → Result CoverageError (List String)
unfolding insert
add_sources found [] = ok found
add_sources found (s ∷ sources) =
    let rest = add_sources (insert s found) sources in
    if normalize_repo_relative_path s == some s then rest else err (invalid_manifest_source s)

unfoldable pub manifest_sources : List Module → Result CoverageError (List String)
unfolding add_sources
manifest_sources modules = add_sources [] (concat_map (λ (m : Module). m.sources) modules)

-- `collect` of the pairs: of two files with one path the later stays.
unfoldable pub measured_onto :
    TreeMap String LineCoverage → List FileCoverage → TreeMap String LineCoverage
unfolding put
measured_onto measured [] = measured
measured_onto measured (f ∷ files) = measured_onto (put f.path f.lines measured) files

-- The test behind `manifest_sources`
unfoldable pub disagrees :
    CoverageReport → Manifest → List String → TreeMap String LineCoverage → Bool
unfolding aggregate_modules aggregate_totals member
disagrees report m sources measured =
    any (λ path. not (member sources path)) (keys measured)
    || (not (report.modules == aggregate_modules measured m.modules)
        || not (report.totals == aggregate_totals sources measured))

-- `manifest_sha256` is `sha256_hex(manifest_bytes)`.
abbrev pub check_baseline :
    CoverageReport → Manifest → (manifest_sha256 : String) → Result CoverageError Unit
check_baseline report m manifest_sha256 =
    if not (report.manifest_sha256 == manifest_sha256)
      || not (report.baseline == m.project.baseline)
    then err manifest_mismatch
    else ok tt

abbrev pub check_sums : CoverageReport → Manifest → List String → Result CoverageError Unit
check_sums report m sources =
    if disagrees report m sources (measured_onto [] report.files)
    then err manifest_mismatch
    else ok tt

unfoldable pub verify_report_manifest :
    CoverageReport → Manifest → (manifest_sha256 : String) → Result CoverageError Unit
unfolding validate_report manifest_sources measured_onto disagrees
verify_report_manifest report m manifest_sha256 = do
  validate_report report
  check_baseline report m manifest_sha256
  sources ← manifest_sources m.modules
  check_sums report m sources
