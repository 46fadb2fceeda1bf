-- ===== src/Planner/Tests.antt =====
-- Runs of the planner, and the theorems at a concrete manifest.
use chromifer.Base.{◌≢◌, inl, inr, ◌≡◌, ◌↔◌, refl, true, false, [], ◌∷◌, some, In, string_eq}
use chromifer.Base.Results.{ok, err}
use chromifer.Base.Sort.{Pairwise}
use chromifer.Manifest.Data.{Module, Manifest, unclassified, bridged, rust_owned, ids_of_modules}
use chromifer.Manifest.Tests.{sample, part, with_modules}
use chromifer.Planner.{
  TransitionAssessment, unknown_module, invalid_transition, assess_transition, migration_frontier,
}
use chromifer.Planner.Safety.{IsSafe, advance, here, then_step, allowed_step, reached-IsSafe}
use chromifer.Planner.Assessment.{
  IsAssessment, assess_transition-IsAssessment, assess_transition-unknown_iff,
}
use chromifer.Planner.Frontier.{
  IsNextStep, ComesBefore, In-migration_frontier, migration_frontier-IsSorted,
}

abbrev pub net_step : TransitionAssessment
net_step = record {
  module_id = "net";
  from_state = bridged;
  to_state = rust_owned;
  allowed = true;
  blockers = [];
  gate_count = 1;
  cross_language_edges = 1;
}

-- The peer is in Rust, but the edge is still declared as one over `cxx`.
net_assessed : assess_transition sample "net" rust_owned ≡ ok net_step
unfolding assess_transition
net_assessed = refl

skipped_step :
    assess_transition sample "net" bridged
    ≡ ok (record net_step {
      to_state = bridged;
      allowed = false;
      blockers = invalid_transition (some rust_owned) ∷ [];
      cross_language_edges = 0;
    })
unfolding assess_transition
skipped_step = refl

-- Nor does an edge that is unclassified block the step, where the peer is in Rust.
abbrev unclassified_edge : Manifest
unclassified_edge = with_modules (
    part "base" rust_owned []
    ∷ part "net" bridged
        (record { module_id = "base"; boundary = unclassified; evidence = []; reviews = [] } ∷ [])
    ∷ [])

unclassified_step : assess_transition unclassified_edge "net" rust_owned ≡ ok net_step
unfolding assess_transition
unclassified_step = refl

sample_frontier : migration_frontier sample ≡ net_step ∷ []
unfolding migration_frontier
sample_frontier = refl

assess_transition-IsAssessment_example : IsAssessment sample "net" rust_owned net_step
assess_transition-IsAssessment_example =
    assess_transition-IsAssessment sample "net" rust_owned net_step net_assessed

assess_transition-unknown_iff_example :
    (assess_transition sample "gpu" rust_owned ≡ err (unknown_module "gpu"))
    ↔ (¬ In "gpu" (ids_of_modules sample.modules))
assess_transition-unknown_iff_example = assess_transition-unknown_iff sample "gpu" rust_owned

In-migration_frontier_example : In net_step (migration_frontier sample) ↔ IsNextStep sample net_step
In-migration_frontier_example = In-migration_frontier sample net_step

migration_frontier-IsSorted_example : Pairwise ComesBefore (migration_frontier sample)
migration_frontier-IsSorted_example = migration_frontier-IsSorted sample

abbrev before : Manifest
before = with_modules (part "net" bridged [] ∷ [])

abbrev alone_step : TransitionAssessment
alone_step = record net_step { cross_language_edges = 0 }

alone_assessed : assess_transition before "net" rust_owned ≡ ok alone_step
unfolding assess_transition
alone_assessed = refl

none_yet : (x : Module) → In x before.modules → x.state ≢ rust_owned
none_yet x i e = elim i [ inl q ↦ cc | inr n ↦ elim n [ ] ]

reached-IsSafe_example : IsSafe (advance before "net" rust_owned)
reached-IsSafe_example =
    reached-IsSafe before (advance before "net" rust_owned) ((λ i. elim i [ ]), tt) none_yet
      (then_step here (allowed_step before "net" rust_owned alone_step alone_assessed refl))
