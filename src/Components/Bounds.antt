-- ===== src/Components/Bounds.antt =====
-- The parts of a risk, their sum, and the readiness that is left.
use native.Mathlib.Nat.{div-lt_iff_lt-mul}
use chromifer.Base.{
  ℕ, String, ◌≡◌, ◌≤◌, ◌<◌, ◌+◌, ◌*◌, ◌-◌, min, Bool, Option, none, some, eqb, if◌then◌else◌,
  Bool-cases, inl, inr, arith, length, is_empty,
}
use chromifer.Base.Machine.{max_32, sat_add, div_ceil}
use chromifer.Manifest.Data.{Manifest}
use chromifer.Coverage.Data.{CoverageReport}
use chromifer.Components.Data.{
  MigrationScope, StateCounts, is_mixed, RiskBreakdown, TestCoverageProxy,
  SourceCoverageMeasurement, IncidentMetrics, CoverageRiskPenalties, GroupDraft,
}
use chromifer.Components.Risk.{
  migration_scope, test_coverage_proxy, coverage_risk_penalties, scope_penalty, calculate_risk,
}
use chromifer.Components.Summary.{summarize_component, collect_modules, nothing_collected, measure}

abbrev pub sum_of_parts : RiskBreakdown → ℕ
sum_of_parts r =
    r.module_size + r.source_size + r.topology + r.boundaries + r.unresolved_reviews + r.mixed_state
    + r.missing_gates + r.scope + r.missing_target_coverage + r.source_coverage

-- A share of 25, rounded up, is at most 25.
share-le : (part whole : ℕ) → part ≤ whole → 0 < whole → div_ceil (part * 25) whole ≤ 25
share-le part whole h p =
    let below = (div-lt_iff_lt-mul {x = part * 25 + (whole - 1)} {y = 26} p).1 (omega arith) in
    omega arith

coverage_risk_penalties-le :
    (proxy : TestCoverageProxy) (source : Option SourceCoverageMeasurement)
    → ((coverage_risk_penalties proxy source).target ≤ 25)
      × ((coverage_risk_penalties proxy source).source ≤ 25)
unfolding coverage_risk_penalties
coverage_risk_penalties-le proxy (some s) = (omega arith, omega arith)
coverage_risk_penalties-le proxy none = elim (Bool-cases (eqb proxy.total_module_target_pairs 0)) [
  | inl e ↦ rw e (omega arith, omega arith)
  | inr e ↦ rw e (
    share-le (proxy.total_module_target_pairs - proxy.covered_module_target_pairs)
        proxy.total_module_target_pairs (omega arith) (ground arith),
    omega arith,
  )
]

scope_penalty-le : (scope : MigrationScope) → scope_penalty scope ≤ 40
unfolding scope_penalty
scope_penalty-le scope = ground arith

if-le : (b : Bool) (n : ℕ) → (if b then n else 0) ≤ n
if-le b n = ground arith

sat_add-small : (a b : ℕ) → a + b ≤ max_32 → sat_add max_32 a b ≡ a + b
sat_add-small a b h = omega arith

-- A chain of ten saturating additions that stays below its bound is a sum.
chain-sum :
    (a b c d e f g h i j : ℕ)
    → a + b + c + d + e + f + g + h + i + j ≤ max_32
    → min
        (sat_add max_32
          (sat_add max_32
            (sat_add max_32
              (sat_add max_32
                (sat_add max_32
                  (sat_add max_32 (sat_add max_32 (sat_add max_32 (sat_add max_32 a b) c) d) e)
                  f)
                g)
              h)
            i)
          j)
        100
      ≡ min (a + b + c + d + e + f + g + h + i + j) 100
chain-sum a b c d e f g h i j k = rw (
  sat_add-small (a) b (omega arith),
  sat_add-small (a + b) c (omega arith),
  sat_add-small (a + b + c) d (omega arith),
  sat_add-small (a + b + c + d) e (omega arith),
  sat_add-small (a + b + c + d + e) f (omega arith),
  sat_add-small (a + b + c + d + e + f) g (omega arith),
  sat_add-small (a + b + c + d + e + f + g) h (omega arith),
  sat_add-small (a + b + c + d + e + f + g + h) i (omega arith),
  sat_add-small (a + b + c + d + e + f + g + h + i) j (omega arith),
)

-- What is capped is small.
capped-le :
    (a b c d e f g h i j : ℕ)
    → f ≤ 20
    → g ≤ 15
    → h ≤ 40
    → i ≤ 25
    → j ≤ 25
    → min a 20 + min b 15 + min c 20 + min d 40 + min e 40 + f + g + h + i + j ≤ max_32
capped-le a b c d e f g h i j p q r s t = omega arith

calculate_risk-total :
    (modules sources : ℕ) (states : StateCounts) (coverage : CoverageRiskPenalties)
    (no_gates : Bool) (scope : MigrationScope) (incident : IncidentMetrics)
    → coverage.target ≤ 25
    → coverage.source ≤ 25
    → (calculate_risk modules sources states coverage no_gates scope incident).total
      ≡ min
          (sum_of_parts (calculate_risk modules sources states coverage no_gates scope incident))
          100
unfolding calculate_risk
calculate_risk-total modules sources states coverage no_gates scope incident t s =
    chain-sum _ _ _ _ _ _ _ _ _ _ (
      capped-le _ _ _ _ _ _ _ _ _ _ (if-le (is_mixed states) 20) (if-le no_gates 15)
        (scope_penalty-le scope) t s)

-- The risk of a summary is the plain sum of its ten parts, at most 100, and readiness and risk are
-- 100 together.
pub summarize_component-readiness :
    (m : Manifest) (group : GroupDraft) (id : String) (incident : IncidentMetrics)
    (coverage : Option CoverageReport)
    → ((summarize_component m group id incident coverage).risk.total
        ≡ min (sum_of_parts (summarize_component m group id incident coverage).risk) 100)
      × ((summarize_component m group id incident coverage).readiness_score
            + (summarize_component m group id incident coverage).risk.total
          ≡ 100)
unfolding summarize_component
summarize_component-readiness m group id incident coverage =
    let c = collect_modules nothing_collected group.modules in
    let sources = measure c.source_files coverage in
    let tests = test_coverage_proxy m group.modules in
    let (t, s) = coverage_risk_penalties-le tests sources in
    let total =
      calculate_risk-total (length group.modules) (length c.source_files) c.states
        (coverage_risk_penalties tests sources) (is_empty c.gates) (migration_scope group.path)
        incident t s in
    (total, below _ _ total)
  where
    below : (a b : ℕ) → a ≡ min b 100 → (100 - a) + a ≡ 100
    below a b h = omega arith
