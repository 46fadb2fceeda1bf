-- ===== src/Planner.antt =====
-- crates/chromifer-planner/src/lib.rs: the assessment of a migration step, and the frontier.
pub mod Spec
pub mod Edges
pub mod Assess
pub mod Assessment
pub mod Frontier
pub mod Safety
pub mod Tests
use chromifer.Base.{
  ℕ, ◌+◌, String, Bool, true, false, not, ◌&&◌, List, [], ◌∷◌, ◌++◌, Option, none, some, ◌==◌,
  string_eq, option_eq, if◌then◌else◌, is_empty, is_some, any, filter, concat_map, length, map,
  contains, compare, Ordering, nat_ord, string_ord, Ord, cmp_then,
}
use chromifer.Base.Results.{Result, ok, err}
use chromifer.Base.Sort.{sort_by}
use chromifer.Manifest.Data.{
  Target, CompatibilityGate, BoundaryReviewKind, BoundaryReview, Boundary, rust,
  is_audited_cross_language, MigrationState, rust_owned, next, Dependency, Module, Manifest,
  find_module, find_gate, state_eq, boundary_eq,
}

pub data Blocker : Type 0 where
  invalid_transition : (expected : Option MigrationState) → Blocker
  missing_compatibility_gates : Blocker
  missing_gate_definition : (gate : String) → Blocker
  uncovered_required_target : (target : String) → Blocker
  unsafe_outgoing_boundary :
      (dependency : String) (boundary : Boundary) (dependency_state : MigrationState) → Blocker
  unsafe_incoming_boundary :
      (dependent : String) (boundary : Boundary) (dependent_state : MigrationState) → Blocker
  unresolved_module_review : (kind : BoundaryReviewKind) (file : String) (line : ℕ) → Blocker
  unresolved_outgoing_boundary_review :
      (dependency : String) (kind : BoundaryReviewKind) (file : String) (line : ℕ) → Blocker
  unresolved_incoming_boundary_review :
      (dependent : String) (kind : BoundaryReviewKind) (file : String) (line : ℕ) → Blocker

pub record TransitionAssessment : Type 0 where
  pub module_id : String
  pub from_state : MigrationState
  pub to_state : MigrationState
  pub allowed : Bool
  pub blockers : List Blocker
  pub gate_count : ℕ
  pub cross_language_edges : ℕ

pub data PlannerError : Type 0 where
  unknown_module : String → PlannerError

-- `blockers.push(blocker)` under a test
abbrev pub block_if : Bool → Blocker → List Blocker
block_if true b = b ∷ []
block_if false b = []

-- What a loop adds to `blockers` and to `cross_language_edges`
pub record Findings : Type 0 where
  pub blockers : List Blocker
  pub edges : ℕ

abbrev pub nothing : Findings
nothing = record { blockers = []; edges = 0 }

abbrev pub and_also : Findings → Findings → Findings
and_also a b = record { blockers = a.blockers ++ b.blockers; edges = a.edges + b.edges }

abbrev pub unresolved : List BoundaryReview → List BoundaryReview
unresolved = filter (λ r. not r.resolved)

-- The rest of a loop body behind the reviews: the edge to a peer, whose state is `peer`
pub assess_edge : (peer : MigrationState) → Boundary → Blocker → Findings
assess_edge peer boundary unsafe =
    if peer == rust_owned
    then record { blockers = []; edges = if not (boundary == rust) then 1 else 0 }
    else record { blockers = block_if (not (is_audited_cross_language boundary)) unsafe; edges = 1 }

outgoing_review : String → BoundaryReview → Blocker
outgoing_review dependency r = unresolved_outgoing_boundary_review dependency r.kind r.file r.line

incoming_review : String → BoundaryReview → Blocker
incoming_review dependent r = unresolved_incoming_boundary_review dependent r.kind r.file r.line

module_review : BoundaryReview → Blocker
module_review r = unresolved_module_review r.kind r.file r.line

-- The body of the loop of `assess_outgoing_boundaries`, for a dependency that is there
pub assess_outgoing : Dependency → Module → Findings
assess_outgoing d target =
    and_also
      (record { blockers = map (outgoing_review target.id) (unresolved d.reviews); edges = 0 })
      (assess_edge target.state d.boundary
        (unsafe_outgoing_boundary target.id d.boundary target.state))

pub assess_outgoing_boundaries : Manifest → List Dependency → Findings
assess_outgoing_boundaries m [] = nothing
assess_outgoing_boundaries m (d ∷ rest) =
    and_also
      (elim (find_module m d.module_id) [ none ↦ nothing | some target ↦ assess_outgoing d target ])
      (assess_outgoing_boundaries m rest)

-- The body of the inner loop of `assess_incoming_boundaries`
pub assess_incoming : Module → Dependency → Findings
assess_incoming dependent d =
    and_also
      (record { blockers = map (incoming_review dependent.id) (unresolved d.reviews); edges = 0 })
      (assess_edge dependent.state d.boundary
        (unsafe_incoming_boundary dependent.id d.boundary dependent.state))

pub assess_dependent : String → Module → List Dependency → Findings
assess_dependent id dependent [] = nothing
assess_dependent id dependent (d ∷ rest) =
    and_also (if d.module_id == id then assess_incoming dependent d else nothing)
      (assess_dependent id dependent rest)

pub assess_incoming_boundaries : String → List Module → Findings
assess_incoming_boundaries id [] = nothing
assess_incoming_boundaries id (dependent ∷ rest) =
    and_also (assess_dependent id dependent dependent.dependencies)
      (assess_incoming_boundaries id rest)

-- `gate.targets.contains(&target.id)`, if the gate is defined
unfoldable pub gate_covers : Manifest → String → String → Bool
gate_covers m target gate_id = elim (find_gate m gate_id) [
  | none ↦ false
  | some gate ↦ contains gate.targets target
]

pub gate_blockers : Manifest → Module → List Blocker
gate_blockers m x =
    block_if (is_empty x.gates) missing_compatibility_gates
    ++ concat_map
        (λ gate. block_if (not (is_some (find_gate m gate))) (missing_gate_definition gate)) x.gates

pub target_blockers : Manifest → Module → List Blocker
target_blockers m x =
    concat_map
      (λ (t : Target).
        block_if (not (any (gate_covers m t.id) x.gates)) (uncovered_required_target t.id))
      (filter (λ (t : Target). t.required) m.targets)

-- What is added where the target state is `RustOwned`
pub ownership_findings : Manifest → Module → Findings
ownership_findings m x =
    and_also (record { blockers = map module_review (unresolved x.reviews); edges = 0 })
      (and_also (assess_outgoing_boundaries m x.dependencies)
        (assess_incoming_boundaries x.id m.modules))

pub assess_module : Manifest → Module → MigrationState → TransitionAssessment
assess_module m x target =
    let owned = if target == rust_owned then ownership_findings m x else nothing in
    let blockers =
      block_if (not (next x.state == some target)) (invalid_transition (next x.state))
      ++ (gate_blockers m x ++ (target_blockers m x ++ owned.blockers)) in
    record {
      module_id = x.id;
      from_state = x.state;
      to_state = target;
      allowed = is_empty blockers;
      blockers = blockers;
      gate_count = length x.gates;
      cross_language_edges = owned.edges;
    }

unfoldable pub assess_transition :
    Manifest → String → MigrationState → Result PlannerError TransitionAssessment
unfolding assess_edge outgoing_review incoming_review module_review assess_outgoing
    assess_outgoing_boundaries assess_incoming assess_dependent assess_incoming_boundaries
    gate_covers gate_blockers target_blockers ownership_findings assess_module find_module find_gate
    next is_audited_cross_language
assess_transition m module_id target = elim (find_module m module_id) [
  | none ↦ err (unknown_module module_id)
  | some x ↦ ok (assess_module m x target)
]

-- The comparison of `frontier.sort_by`
pub frontier_cmp : TransitionAssessment → TransitionAssessment → Ordering
frontier_cmp left right = cmp_then (compare left.cross_language_edges right.cross_language_edges) (
    cmp_then (compare left.gate_count right.gate_count)
      (string_ord.cmp left.module_id right.module_id))

-- The filter behind `filter_map`, on one result
abbrev pub if_allowed : Result PlannerError TransitionAssessment → List TransitionAssessment
if_allowed (err e) = []
if_allowed (ok a) = if a.allowed then a ∷ [] else []

-- `filter_map`'s function and the filter, on a module whose next state is given
abbrev pub entry_at : Manifest → String → Option MigrationState → List TransitionAssessment
entry_at m id none = []
entry_at m id (some target) = if_allowed (assess_transition m id target)

abbrev pub frontier_entry : Manifest → Module → List TransitionAssessment
frontier_entry m x = entry_at m x.id (next x.state)

unfoldable pub migration_frontier : Manifest → List TransitionAssessment
unfolding frontier_cmp assess_transition sort_by
migration_frontier m = sort_by frontier_cmp (concat_map (frontier_entry m) m.modules)
