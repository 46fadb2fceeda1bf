-- ===== src/Components/Risk.antt =====
-- crates/chromifer-components/src/lib.rs: the risk of a component, from its measures.
use chromifer.Base.{
  ℕ, String, Bool, ◌+◌, ◌*◌, ◌-◌, ◌/◌, ◌%◌, ◌^◌, min, ◌||◌, List, [], ◌∷◌, ◌++◌, Option, none, some,
  eqb, string_eq, if◌then◌else◌, any, filter, length, contains,
}
use chromifer.Base.Machine.{max_32, max_64, sat_add, sat_mul, div_ceil}
use chromifer.Base.Text.{split, starts_with}
use chromifer.Manifest.Data.{Target, Module, Manifest}
use chromifer.Planner.{gate_covers}
use chromifer.Coverage.Data.{CoverageReport, FileCoverage}
use chromifer.Coverage.Report.{find_file}
use chromifer.Components.Data.{
  MigrationScope, browser_service, reusable_infrastructure, process_security_kernel,
  deferred_runtime, other, StateCounts, is_mixed, RiskBreakdown, TestCoverageProxy,
  SourceCoverageMeasurement, IncidentMetrics, CoverageRiskPenalties,
}

abbrev pub first_of : String → List String → String
first_of path [] = path
first_of path (s ∷ rest) = s

unfoldable pub migration_scope : String → MigrationScope
unfolding starts_with split
migration_scope path =
    let first = first_of path (split b'/' path) in
    if starts_with "services/" path
    then browser_service
    else if contains ("base" ∷ "components" ∷ "net" ∷ "ui" ∷ []) first
    then reusable_infrastructure
    else if contains ("chrome" ∷ "content" ∷ []) first
    then process_security_kernel
    else if starts_with "third_party/blink" path
        || contains ("v8" ∷ "skia" ∷ "gpu" ∷ "media" ∷ []) first
    then deferred_runtime
    else other

abbrev pub required_targets : Manifest → List Target
required_targets m = filter (λ (t : Target). t.required) m.targets

-- `usize::from(covered)`, for a module and a target
abbrev pub covered_pair : Manifest → Module → Target → ℕ
covered_pair m x t = if any (gate_covers m t.id) x.gates then 1 else 0

unfoldable pub covered_targets : Manifest → Module → List Target → ℕ
covered_targets m x [] = 0
covered_targets m x (t ∷ targets) = covered_pair m x t + covered_targets m x targets

unfoldable pub covered_pairs : Manifest → List Module → List Target → ℕ
covered_pairs m [] targets = 0
covered_pairs m (x ∷ modules) targets =
    covered_targets m x targets + covered_pairs m modules targets

unfoldable pub test_coverage_proxy : Manifest → List Module → TestCoverageProxy
unfolding covered_targets covered_pairs gate_covers
test_coverage_proxy m modules =
    let total = length modules * length (required_targets m) in
    let covered = covered_pairs m modules (required_targets m) in
    if eqb total 0
    then record {
      covered_module_target_pairs = 0;
      total_module_target_pairs = 0;
      basis_points = 10000;
    }
    else record {
      covered_module_target_pairs = covered;
      total_module_target_pairs = total;
      basis_points = covered * 10000 % 2 ^ 64 / total % 2 ^ 32;
    }

unfoldable pub ratio_basis_points : (numerator denominator : ℕ) → ℕ
ratio_basis_points numerator denominator =
    if eqb denominator 0 then 10000 else min (sat_mul max_64 numerator 10000 / denominator) 10000

-- The counts of the loop of `measured_source_coverage`
pub record Tally : Type 0 where
  pub measured : ℕ
  pub missing : List String
  pub total_lines : ℕ
  pub covered_lines : ℕ

abbrev pub no_tally : Tally
no_tally = record { measured = 0; missing = []; total_lines = 0; covered_lines = 0 }

abbrev pub tally_source : Tally → String → Option FileCoverage → Tally
tally_source acc source none = record acc { missing = acc.missing ++ source ∷ [] }
tally_source acc source (some file) = record acc {
  measured = acc.measured + 1;
  total_lines = sat_add max_64 acc.total_lines file.lines.count;
  covered_lines = sat_add max_64 acc.covered_lines file.lines.covered;
}

unfoldable pub tally_sources : CoverageReport → Tally → List String → Tally
unfolding find_file
tally_sources coverage acc [] = acc
tally_sources coverage acc (s ∷ sources) =
    tally_sources coverage (tally_source acc s (find_file coverage s)) sources

unfoldable pub measured_source_coverage : List String → CoverageReport → SourceCoverageMeasurement
unfolding ratio_basis_points tally_sources
measured_source_coverage sources coverage =
    let t = tally_sources coverage no_tally sources in
    let line_basis_points = ratio_basis_points t.covered_lines t.total_lines in
    record {
      total_sources = length sources;
      measured_sources = t.measured;
      missing_sources = t.missing;
      covered_lines = t.covered_lines;
      total_lines = t.total_lines;
      line_basis_points = line_basis_points;
      effective_basis_points =
          min (ratio_basis_points t.measured (length sources)) line_basis_points;
    }

unfoldable pub coverage_risk_penalties :
    TestCoverageProxy → Option SourceCoverageMeasurement → CoverageRiskPenalties
coverage_risk_penalties proxy (some source) = record {
  target = 0;
  source = div_ceil ((10000 - source.effective_basis_points) * 25) 10000;
}
coverage_risk_penalties proxy none = record {
  target =
      if eqb proxy.total_module_target_pairs 0
      then 0
      else div_ceil ((proxy.total_module_target_pairs - proxy.covered_module_target_pairs) * 25)
          proxy.total_module_target_pairs;
  source = 0;
}

unfoldable pub scope_penalty : MigrationScope → ℕ
scope_penalty browser_service = 0
scope_penalty reusable_infrastructure = 5
scope_penalty process_security_kernel = 15
scope_penalty deferred_runtime = 40
scope_penalty other = 10

unfoldable pub calculate_risk :
    (module_count source_files : ℕ)
    → StateCounts
    → CoverageRiskPenalties
    → (no_gates : Bool) → MigrationScope
    → IncidentMetrics
    → RiskBreakdown
unfolding is_mixed scope_penalty
calculate_risk module_count source_files states coverage no_gates scope incident =
    let module_size = min (sat_mul max_64 (module_count - 1) 2) 20 in
    let source_size = min (div_ceil source_files 10) 15 in
    let topology =
      min (length incident.incoming_components + length incident.outgoing_components) 20 in
    let boundaries =
      min
        (sat_add max_64
          (sat_add max_64 (sat_mul max_64 incident.unaudited_external_edges 8)
            (sat_mul max_64 incident.audited_external_edges 2))
          incident.rust_external_edges)
        40 in
    let reviews = min (sat_mul max_64 incident.unresolved_reviews 10) 40 in
    let mixed_state = if is_mixed states then 20 else 0 in
    let missing_gate = if no_gates then 15 else 0 in
    let s1 = sat_add max_32 module_size source_size in
    let s2 = sat_add max_32 s1 topology in
    let s3 = sat_add max_32 s2 boundaries in
    let s4 = sat_add max_32 s3 reviews in
    let s5 = sat_add max_32 s4 mixed_state in
    let s6 = sat_add max_32 s5 missing_gate in
    let s7 = sat_add max_32 s6 (scope_penalty scope) in
    let s8 = sat_add max_32 s7 coverage.target in
    let s9 = sat_add max_32 s8 coverage.source in
    record {
      module_size = module_size;
      source_size = source_size;
      topology = topology;
      boundaries = boundaries;
      unresolved_reviews = reviews;
      mixed_state = mixed_state;
      missing_gates = missing_gate;
      scope = scope_penalty scope;
      missing_target_coverage = coverage.target;
      source_coverage = coverage.source;
      total = min s9 100;
    }
