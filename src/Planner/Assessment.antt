-- ===== src/Planner/Assessment.antt =====
-- What `assess_transition` returns.
use chromifer.Base.Results.{Result, ok, err}
use chromifer.Base.{
  sym, ap, ◌∙◌, String, ◌≡◌, ◌↔◌, refl, true, Option, none, some, In, string_eq, option_eq,
}
use chromifer.Manifest.Data.{
  MigrationState, Module, Manifest, find_module, state_eq, ids_of_modules,
}
use chromifer.Manifest.Lookup.{find_module-some, find_module-none_iff}
use chromifer.Planner.{
  PlannerError, unknown_module, TransitionAssessment, assess_transition, assess_module,
}
use chromifer.Planner.Spec.{IsAllowed}
use chromifer.Planner.Assess.{assess_module-allowed_iff}

-- An assessment names the module with the id, and allows exactly the steps that the specification
-- allows.
pub record IsAssessment (m : Manifest) (id : String) (target : MigrationState)
    (a : TransitionAssessment) : Type 0 where
  pub assessed : Module
  pub found : find_module m id ≡ some assessed
  pub named : a.module_id ≡ id
  pub from_state : a.from_state ≡ assessed.state
  pub to_state : a.to_state ≡ target
  pub allowed_iff : (a.allowed ≡ true) ↔ IsAllowed m assessed target

assess_module-IsAssessment :
    (m : Manifest) (id : String) (target : MigrationState) (x : Module)
    → find_module m id ≡ some x
    → IsAssessment m id target (assess_module m x target)
assess_module-IsAssessment m id target x e = record {
  assessed = x;
  found = e;
  named = unfold assess_module in (find_module-some m id x e).1;
  from_state = unfold assess_module in refl;
  to_state = unfold assess_module in refl;
  allowed_iff = assess_module-allowed_iff m x target;
}

-- `assess_transition` with the lookup in sight
abbrev from_lookup :
    Manifest → String → MigrationState → Option Module → Result PlannerError TransitionAssessment
from_lookup m id target none = err (unknown_module id)
from_lookup m id target (some x) = ok (assess_module m x target)

assess_transition_lem :
    (m : Manifest) (id : String) (target : MigrationState)
    → assess_transition m id target ≡ from_lookup m id target (find_module m id)
unfolding assess_transition
assess_transition_lem m id target = on_lookup (find_module m id)
  where
    on_lookup :
        (o : Option Module)
        → (elim o [ none ↦ err (unknown_module id) | some x ↦ ok (assess_module m x target) ])
          ≡ from_lookup m id target o
    on_lookup none = refl
    on_lookup (some x) = refl

-- Whenever `assess_transition` succeeds, the assessment names the module with that id, its state
-- and the target, and `allowed` holds exactly when the target is the state after the module's, the
-- module has gates, each defined, some gate covers each required target, and, if the target is
-- `rust_owned`, all reviews of the module and of its edges in both directions are resolved and
-- each edge to a module that is not in Rust has an audited boundary. The boundary of an edge to a
-- module that is in Rust is not looked at.
pub assess_transition-IsAssessment :
    (m : Manifest) (id : String) (target : MigrationState) (a : TransitionAssessment)
    → assess_transition m id target ≡ ok a
    → IsAssessment m id target a
assess_transition-IsAssessment m id target a e =
    on_lookup (find_module m id) refl (sym (assess_transition_lem m id target) ∙ e)
  where
    on_lookup :
        (o : Option Module)
        → find_module m id ≡ o
        → from_lookup m id target o ≡ ok a
        → IsAssessment m id target a
    on_lookup none q k = cc
    on_lookup (some x) q k =
        let same : a ≡ assess_module m x target = cc in
        rw same (assess_module-IsAssessment m id target x q)

-- The error is for exactly the ids that no module has.
pub assess_transition-unknown_iff :
    (m : Manifest) (id : String) (target : MigrationState)
    → (assess_transition m id target ≡ err (unknown_module id))
      ↔ (¬ In id (ids_of_modules m.modules))
assess_transition-unknown_iff m id target =
    let absent = find_module-none_iff m id in
    (
      λ e. absent.0 (on_lookup (find_module m id) (sym (assess_transition_lem m id target) ∙ e)),
      λ n. assess_transition_lem m id target ∙ ap (from_lookup m id target) (absent.1 n),
    )
  where
    on_lookup : (o : Option Module) → from_lookup m id target o ≡ err (unknown_module id) → o ≡ none
    on_lookup none k = refl
    on_lookup (some x) k = cc

-- Each module that is found has an assessment.
pub assess_transition-of_found :
    (m : Manifest) (id : String) (target : MigrationState) (x : Module)
    → find_module m id ≡ some x
    → assess_transition m id target ≡ ok (assess_module m x target)
assess_transition-of_found m id target x e =
    assess_transition_lem m id target ∙ ap (from_lookup m id target) e
