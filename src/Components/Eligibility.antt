-- ===== src/Components/Eligibility.antt =====
-- When a component is eligible, by what its summary reports.
use chromifer.Base.{
  ℕ, String, ◌≡◌, ◌≢◌, ◌≤◌, ◌↔◌, refl, subst, Bool, true, false, not, Option, none, some, List, [],
  ◌∷◌, arith, length, is_empty, append-eq-nil, ltb, In, inl, string_ord, nat_ord, pair_ord,
}
use chromifer.Base.Sort.{sort_by, In-sort_by}
use chromifer.Manifest.Data.{Manifest}
use chromifer.Coverage.Data.{CoverageReport}
use chromifer.Components.Data.{
  MigrationScope, deferred_runtime, SourceCoverageMeasurement, TestCoverageProxy, CandidateConcern,
  is_mixed, ComponentSummary, GroupDraft, IncidentMetrics,
}
use chromifer.Components.Risk.{migration_scope, test_coverage_proxy}
use chromifer.Components.Summary.{
  concern_if, concern_cmp, concerns_of, source_concern, is_deferred, Collected, collect_modules,
  nothing_collected, measure, summarize_component,
}

-- No source is without a measurement, if there are measurements.
abbrev pub AllMeasured : Option SourceCoverageMeasurement → Type 0
AllMeasured none = Unit
AllMeasured (some c) = c.missing_sources ≡ []

pub record IsEligible (s : ComponentSummary) : Type 0 where
  pub sources : s.source_files ≢ 0
  pub gates : s.gates ≢ []
  pub tested :
      s.test_coverage.total_module_target_pairs ≤ s.test_coverage.covered_module_target_pairs
  pub measured : AllMeasured s.source_coverage
  pub one_state : is_mixed s.states ≡ false
  pub scope : s.scope ≢ deferred_runtime
  pub reviews : s.unresolved_reviews ≡ 0
  pub includes : s.unresolved_ownership_includes ≡ 0
  pub boundaries : s.unaudited_external_edges ≡ 0

concern_if-eq-nil : (b : Bool) (c : CandidateConcern) → (concern_if b c ≡ []) ↔ (b ≡ false)
concern_if-eq-nil b c = ground arith

empty_iff : {A : Type 0} (xs : List A) → (not (is_empty xs) ≡ false) ↔ (length xs ≡ 0)
empty_iff xs = ground arith

nonempty_iff : {A : Type 0} (xs : List A) → (is_empty xs ≡ false) ↔ (length xs ≢ 0)
nonempty_iff [] = ground arith
nonempty_iff (x ∷ xs) = (λ h e. omega arith, λ h. refl)

gates_iff : (xs : List String) → (is_empty xs ≡ false) ↔ (xs ≢ [])
gates_iff [] = (λ h. cc, λ h. absurd (h refl))
gates_iff (x ∷ xs) = (λ h e. cc, λ h. refl)

source_concern-eq-nil :
    (o : Option SourceCoverageMeasurement) → (source_concern o ≡ []) ↔ AllMeasured o
source_concern-eq-nil none = (λ h. tt, λ h. refl)
source_concern-eq-nil (some c) = missing c.missing_sources c.total_sources
  where
    missing :
        (xs : List String) (total : ℕ)
        → (source_concern (some (record c { missing_sources = xs; total_sources = total })) ≡ [])
          ↔ (xs ≡ [])
    missing [] total = (λ h. refl, λ h. refl)
    missing (x ∷ xs) total = (λ h. cc h, λ h. cc h)

deferred_iff : (scope : MigrationScope) → (is_deferred scope ≡ false) ↔ (scope ≢ deferred_runtime)
deferred_iff scope = ground arith

is_empty-sort_by :
    (cs : List CandidateConcern) → (is_empty (sort_by concern_cmp cs) ≡ true) ↔ (cs ≡ [])
unfolding sort_by
is_empty-sort_by cs = (λ h. first cs (listed (sort_by concern_cmp cs) h), λ e. rw (e, sort_by) refl)
  where
    listed : (xs : List CandidateConcern) → is_empty xs ≡ true → xs ≡ []
    listed [] h = refl
    listed (x ∷ xs) h = cc

    first : (cs : List CandidateConcern) → sort_by concern_cmp cs ≡ [] → cs ≡ []
    first [] h = refl
    first (c ∷ cs) h = absurd (subst (In c) h ((In-sort_by concern_cmp c (c ∷ cs)).1 (inl refl)))

record HasNoConcern (c : Collected) (tests : TestCoverageProxy)
    (measures : Option SourceCoverageMeasurement) (s : MigrationScope) (incident : IncidentMetrics)
    : Type 0 where
  sources : length c.source_files ≢ 0
  gates : c.gates ≢ []
  tested : tests.total_module_target_pairs ≤ tests.covered_module_target_pairs
  measured : AllMeasured measures
  one_state : is_mixed c.states ≡ false
  scope : s ≢ deferred_runtime
  reviews : incident.unresolved_reviews ≡ 0
  includes : length c.unresolved_includes ≡ 0
  boundaries : incident.unaudited_external_edges ≡ 0

positive_iff : (n : ℕ) (c : CandidateConcern) → (concern_if (ltb 0 n) c ≡ []) ↔ (n ≡ 0)
positive_iff n c = ground arith

below_iff : (a b : ℕ) (c : CandidateConcern) → (concern_if (ltb a b) c ≡ []) ↔ (b ≤ a)
below_iff a b c = ground arith

concerns_of-eq-nil :
    (c : Collected) (tests : TestCoverageProxy) (measures : Option SourceCoverageMeasurement)
    (s : MigrationScope) (incident : IncidentMetrics)
    → (concerns_of c tests measures s incident ≡ []) ↔ HasNoConcern c tests measures s incident
unfolding concerns_of
concerns_of-eq-nil c tests measures s incident = (
  λ h.
      let (h1, r1) = (append-eq-nil _ _).0 h in
      let (h2, r2) = (append-eq-nil _ _).0 r1 in
      let (h3, r3) = (append-eq-nil _ _).0 r2 in
      let (h4, r4) = (append-eq-nil _ _).0 r3 in
      let (h5, r5) = (append-eq-nil _ _).0 r4 in
      let (h6, r6) = (append-eq-nil _ _).0 r5 in
      let (h7, r7) = (append-eq-nil _ _).0 r6 in
      let (h8, h9) = (append-eq-nil _ _).0 r7 in
      record {
        sources = (nonempty_iff c.source_files).0 ((concern_if-eq-nil _ _).0 h1);
        gates = (gates_iff c.gates).0 ((concern_if-eq-nil _ _).0 h2);
        tested = (below_iff _ _ _).0 h3;
        measured = (source_concern-eq-nil measures).0 h4;
        one_state = (concern_if-eq-nil _ _).0 h5;
        scope = (deferred_iff s).0 ((concern_if-eq-nil _ _).0 h6);
        reviews = (positive_iff _ _).0 h7;
        includes = (empty_iff c.unresolved_includes).0 ((concern_if-eq-nil _ _).0 h8);
        boundaries = (positive_iff _ _).0 h9;
      },
  λ v. (append-eq-nil _ _).1 (
    (concern_if-eq-nil _ _).1 ((nonempty_iff c.source_files).1 v.sources),
    (append-eq-nil _ _).1 (
      (concern_if-eq-nil _ _).1 ((gates_iff c.gates).1 v.gates),
      (append-eq-nil _ _).1 (
        (below_iff _ _ _).1 v.tested,
        (append-eq-nil _ _).1 (
          (source_concern-eq-nil measures).1 v.measured,
          (append-eq-nil _ _).1 (
            (concern_if-eq-nil _ _).1 v.one_state,
            (append-eq-nil _ _).1 (
              (concern_if-eq-nil _ _).1 ((deferred_iff s).1 v.scope),
              (append-eq-nil _ _).1 (
                (positive_iff _ _).1 v.reviews,
                (append-eq-nil _ _).1 (
                  (concern_if-eq-nil _ _).1 ((empty_iff c.unresolved_includes).1 v.includes),
                  (positive_iff _ _).1 v.boundaries,
                ),
              ),
            ),
          ),
        ),
      ),
    ),
  ),
)

-- A component is eligible exactly when its summary has a source file and a gate, all pairs of its
-- modules and the required targets are covered, no source is without a measurement where there are
-- measurements, its states are not mixed, its scope is not deferred, and no unresolved review,
-- unresolved include or unaudited edge is left.
pub summarize_component-eligible_iff :
    (m : Manifest) (group : GroupDraft) (id : String) (incident : IncidentMetrics)
    (coverage : Option CoverageReport)
    → ((summarize_component m group id incident coverage).eligible ≡ true)
      ↔ IsEligible (summarize_component m group id incident coverage)
unfolding summarize_component
summarize_component-eligible_iff m group id incident coverage =
    let c = collect_modules nothing_collected group.modules in
    let tests = test_coverage_proxy m group.modules in
    let sources = measure c.source_files coverage in
    let scope = migration_scope group.path in
    let sorted = is_empty-sort_by (concerns_of c tests sources scope incident) in
    let none_left = concerns_of-eq-nil c tests sources scope incident in
    (
      λ h.
          let v = none_left.0 (sorted.0 h) in
          record {
            sources = v.sources;
            gates = v.gates;
            tested = v.tested;
            measured = v.measured;
            one_state = v.one_state;
            scope = v.scope;
            reviews = v.reviews;
            includes = v.includes;
            boundaries = v.boundaries;
          },
      λ v. sorted.1 (
          none_left.1 (record {
            sources = v.sources;
            gates = v.gates;
            tested = v.tested;
            measured = v.measured;
            one_state = v.one_state;
            scope = v.scope;
            reviews = v.reviews;
            includes = v.includes;
            boundaries = v.boundaries;
          })),
    )
