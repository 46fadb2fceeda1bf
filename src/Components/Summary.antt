-- ===== src/Components/Summary.antt =====
-- crates/chromifer-components/src/lib.rs: `summarize_component`, with the concerns that it lists.
use chromifer.Base.{
  ℕ, String, Bool, true, false, not, ◌-◌, List, [], ◌∷◌, ◌++◌, Option, none, some, ltb, is_empty,
  length, map, Ordering, nat_ord, pair_ord, string_ord,
}
use chromifer.Base.Sets.{extend}
use chromifer.Base.Sort.{sort_by}
use chromifer.Manifest.Data.{Module, ModuleOwnership, OwnershipInclude, Manifest}
use chromifer.Coverage.Data.{CoverageReport}
use chromifer.Components.Data.{
  MigrationScope, browser_service, reusable_infrastructure, process_security_kernel,
  deferred_runtime, other, StateCounts, add_state, is_mixed, TestCoverageProxy,
  SourceCoverageMeasurement, CandidateConcern, no_source_files, missing_compatibility_gates,
  missing_required_target_coverage, incomplete_source_coverage, mixed_migration_states,
  deferred_scope, unresolved_reviews, unresolved_ownership_includes, unaudited_external_edges,
  ComponentSummary, GroupDraft, IncidentMetrics,
}
use chromifer.Components.Risk.{
  migration_scope, test_coverage_proxy, measured_source_coverage, coverage_risk_penalties,
  calculate_risk,
}

-- The derived order of concerns: by variant, then by fields
abbrev pub scope_rank : MigrationScope → ℕ
scope_rank browser_service = 0
scope_rank reusable_infrastructure = 1
scope_rank process_security_kernel = 2
scope_rank deferred_runtime = 3
scope_rank other = 4

abbrev pub concern_key : CandidateConcern → ℕ × (ℕ × ℕ)
concern_key no_source_files = (0, (0, 0))
concern_key missing_compatibility_gates = (1, (0, 0))
concern_key (missing_required_target_coverage missing total) = (2, (missing, total))
concern_key (incomplete_source_coverage missing total) = (3, (missing, total))
concern_key mixed_migration_states = (4, (0, 0))
concern_key (deferred_scope scope) = (5, (scope_rank scope, 0))
concern_key (unresolved_reviews count) = (6, (count, 0))
concern_key (unresolved_ownership_includes count) = (7, (count, 0))
concern_key (unaudited_external_edges count) = (8, (count, 0))

abbrev pub concern_cmp : CandidateConcern → CandidateConcern → Ordering
concern_cmp a b = pair_ord.cmp (concern_key a) (concern_key b)

-- `concerns.push(concern)` under a test
abbrev pub concern_if : Bool → CandidateConcern → List CandidateConcern
concern_if true c = c ∷ []
concern_if false c = []

-- What the loop over the modules of a group collects
pub record Collected : Type 0 where
  pub states : StateCounts
  pub gates : List String
  pub source_files : List String
  pub unresolved_includes : List (String × String)

abbrev pub nothing_collected : Collected
nothing_collected = record {
  states = record { legacy = 0; bridged = 0; rust_owned = 0 };
  gates = [];
  source_files = [];
  unresolved_includes = [];
}

abbrev pub includes_of : Option ModuleOwnership → List (String × String)
includes_of none = []
includes_of (some o) =
    map (λ (i : OwnershipInclude). (i.owner_file, i.include)) o.unresolved_includes

abbrev pub collect_module : Collected → Module → Collected
collect_module acc x = record {
  states = add_state acc.states x.state;
  gates = extend acc.gates x.gates;
  source_files = extend acc.source_files x.sources;
  unresolved_includes = extend acc.unresolved_includes (includes_of x.ownership);
}

unfoldable pub collect_modules : Collected → List Module → Collected
unfolding add_state extend
collect_modules acc [] = acc
collect_modules acc (x ∷ modules) = collect_modules (collect_module acc x) modules

abbrev pub source_concern : Option SourceCoverageMeasurement → List CandidateConcern
source_concern none = []
source_concern (some c) =
    concern_if (not (is_empty c.missing_sources))
      (incomplete_source_coverage (length c.missing_sources) c.total_sources)

abbrev pub is_deferred : MigrationScope → Bool
is_deferred deferred_runtime = true
is_deferred _ = false

-- The concerns, in the order in which they are pushed
unfoldable pub concerns_of :
    Collected
    → TestCoverageProxy
    → Option SourceCoverageMeasurement
    → MigrationScope
    → IncidentMetrics
    → List CandidateConcern
concerns_of c tests sources scope incident =
    concern_if (is_empty c.source_files) no_source_files
    ++ (concern_if (is_empty c.gates) missing_compatibility_gates
        ++ (concern_if (ltb tests.covered_module_target_pairs tests.total_module_target_pairs) (
              missing_required_target_coverage
                (tests.total_module_target_pairs - tests.covered_module_target_pairs)
                tests.total_module_target_pairs)
            ++ (source_concern sources
                ++ (concern_if (is_mixed c.states) mixed_migration_states
                    ++ (concern_if (is_deferred scope) (deferred_scope scope)
                        ++ (concern_if (ltb 0 incident.unresolved_reviews)
                              (unresolved_reviews incident.unresolved_reviews)
                            ++ (concern_if (not (is_empty c.unresolved_includes))
                                  (unresolved_ownership_includes (length c.unresolved_includes))
                                ++ concern_if (ltb 0 incident.unaudited_external_edges) (
                                    unaudited_external_edges
                                      incident.unaudited_external_edges))))))))

abbrev pub measure : List String → Option CoverageReport → Option SourceCoverageMeasurement
measure sources none = none
measure sources (some coverage) = some (measured_source_coverage sources coverage)

unfoldable pub summarize_component :
    Manifest → GroupDraft → String → IncidentMetrics → Option CoverageReport → ComponentSummary
unfolding collect_modules concerns_of sort_by migration_scope test_coverage_proxy is_mixed
    measured_source_coverage coverage_risk_penalties calculate_risk
summarize_component m group id incident coverage =
    let c = collect_modules nothing_collected group.modules in
    let tests = test_coverage_proxy m group.modules in
    let sources = measure c.source_files coverage in
    let scope = migration_scope group.path in
    let concerns = sort_by concern_cmp (concerns_of c tests sources scope incident) in
    let risk =
      calculate_risk (length group.modules) (length c.source_files) c.states
        (coverage_risk_penalties tests sources) (is_empty c.gates) scope incident in
    record {
      id = id;
      path = group.path;
      owner = group.owner;
      scope = scope;
      modules = map (λ (x : Module). x.id) group.modules;
      source_files = length c.source_files;
      states = c.states;
      gates = c.gates;
      test_coverage = tests;
      source_coverage = sources;
      incoming_components = length incident.incoming_components;
      outgoing_components = length incident.outgoing_components;
      unaudited_external_edges = incident.unaudited_external_edges;
      audited_external_edges = incident.audited_external_edges;
      rust_external_edges = incident.rust_external_edges;
      unresolved_reviews = incident.unresolved_reviews;
      evidence_items = incident.evidence_items;
      external_owner_edges = incident.external_owner_edges;
      unresolved_ownership_includes = length c.unresolved_includes;
      risk = risk;
      readiness_score = 100 - risk.total;
      eligible = is_empty concerns;
      concerns = concerns;
    }
