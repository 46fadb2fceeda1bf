-- ===== src/Manifest/Validate/Laws.antt =====
-- `validate` decides validity.
use chromifer.Base.{
  ℕ, String, ◌≡◌, ◌↔◌, List, [], ◌∷◌, Option, none, some, NoRepeat, arith, append-eq-nil,
  concat_map_iff, inl, inr,
}
use chromifer.Manifest.Data.{ids_of_targets, ids_of_gates, ids_of_modules, Manifest}
use chromifer.Manifest.Errors.{ValidationError, valid}
use chromifer.Manifest.Checks.{collect_ids}
use chromifer.Manifest.Checks.Laws.{
  HasText, check_nonempty-eq-nil, collect_ids-eq-nil, In-collect_ids,
}
use chromifer.Manifest.Cycle.{find_cycle}
use chromifer.Manifest.Cycle.Laws.{find_cycle-eq-none}
use chromifer.Manifest.Validate.{
  check_schema, check_target, check_gate, check_module, check_cycle, validation_errors, report,
  validate,
}
use chromifer.Manifest.Validate.Spec.{IsValidGate, IsValidModule, IsValid}
use chromifer.Manifest.Validate.Parts.{
  Holds, nothing-In_nil, check_project-eq-nil, check_inventory-eq-nil, check_gate-eq-nil,
  check_module-eq-nil,
}

check_schema-eq-nil : (n : ℕ) → (check_schema n ≡ []) ↔ (n ≡ 1)
unfolding check_schema
check_schema-eq-nil n = ground arith

collected : (kind : String) (ids : List String) → Holds (collect_ids kind [] ids).0 ids
collected kind ids a = (
  λ h. elim ((In-collect_ids kind [] ids a).0 h) [ inl m ↦ elim m [ ] | inr m ↦ m ],
  λ h. (In-collect_ids kind [] ids a).1 (inr h),
)

collect-eq-nil :
    (kind : String) (ids : List String) → ((collect_ids kind [] ids).1 ≡ []) ↔ NoRepeat ids
collect-eq-nil kind ids =
    let e = collect_ids-eq-nil kind [] ids in (λ h. (e.0 h).1, λ h. e.1 (nothing-In_nil ids, h))

check_cycle-eq-nil : (o : Option (List String)) → (check_cycle o ≡ []) ↔ (o ≡ none)
unfolding check_cycle
check_cycle-eq-nil none = ground arith
check_cycle-eq-nil (some cycle) = ground arith

report-eq-valid : (errors : List ValidationError) → (report errors ≡ valid) ↔ (errors ≡ [])
unfolding report
report-eq-valid [] = ground arith
report-eq-valid (e ∷ errors) = ground arith

validation_errors-eq-nil : (m : Manifest) → (validation_errors m ≡ []) ↔ IsValid m
unfolding validation_errors
validation_errors-eq-nil m =
    let schema = check_schema-eq-nil m.schema_version in
    let project = check_project-eq-nil m.project in
    let inventory = check_inventory-eq-nil m.inventory in
    let target_ids = collect-eq-nil "target" (ids_of_targets m.targets) in
    let gate_ids = collect-eq-nil "gate" (ids_of_gates m.gates) in
    let all_ids = collect-eq-nil "module" (ids_of_modules m.modules) in
    let known_targets = (collect_ids "target" [] (ids_of_targets m.targets)).0 in
    let known_gates = (collect_ids "gate" [] (ids_of_gates m.gates)).0 in
    let known = (collect_ids "module" [] (ids_of_modules m.modules)).0 in
    let targets = concat_map_iff {P = λ t. HasText t.description} check_target m.targets (λ t.
      unfold check_target in check_nonempty-eq-nil "target" t.id "description" t.description) in
    let gates =
      concat_map_iff {P = IsValidGate m} (check_gate known_targets) m.gates (λ g.
        check_gate-eq-nil m known_targets g (collected "target" (ids_of_targets m.targets))) in
    let modules =
      concat_map_iff {P = IsValidModule m} (check_module known_gates known) m.modules (λ x.
        check_module-eq-nil m known_gates known x (collected "gate" (ids_of_gates m.gates))
          (collected "module" (ids_of_modules m.modules))) in
    let cycle = check_cycle-eq-nil (find_cycle m.modules known) in
    let acyclic = λ (u : NoRepeat (ids_of_modules m.modules)).
      find_cycle-eq-none m.modules known (collected "module" (ids_of_modules m.modules)) u in
    (
      λ h.
          let (a, h1) = (append-eq-nil _ _).0 h in
          let (b, h2) = (append-eq-nil _ _).0 h1 in
          let (c, h3) = (append-eq-nil _ _).0 h2 in
          let (d, h4) = (append-eq-nil _ _).0 h3 in
          let (e, h5) = (append-eq-nil _ _).0 h4 in
          let (f, h6) = (append-eq-nil _ _).0 h5 in
          let (g, h7) = (append-eq-nil _ _).0 h6 in
          let (i, h8) = (append-eq-nil _ _).0 h7 in
          let (j, k) = (append-eq-nil _ _).0 h8 in
          record {
            schema = schema.0 a;
            project = project.0 b;
            inventory = inventory.0 c;
            target_ids = target_ids.0 d;
            gate_ids = gate_ids.0 e;
            module_ids = all_ids.0 f;
            targets = targets.0 g;
            gates = gates.0 i;
            modules = modules.0 j;
            acyclic = (acyclic (all_ids.0 f)).0 (cycle.0 k);
          },
      λ v. (append-eq-nil _ _).1 (
        schema.1 v.schema,
        (append-eq-nil _ _).1 (
          project.1 v.project,
          (append-eq-nil _ _).1 (
            inventory.1 v.inventory,
            (append-eq-nil _ _).1 (
              target_ids.1 v.target_ids,
              (append-eq-nil _ _).1 (
                gate_ids.1 v.gate_ids,
                (append-eq-nil _ _).1 (
                  all_ids.1 v.module_ids,
                  (append-eq-nil _ _).1 (
                    targets.1 v.targets,
                    (append-eq-nil _ _).1 (
                      gates.1 v.gates,
                      (append-eq-nil _ _).1
                          (modules.1 v.modules, cycle.1 ((acyclic v.module_ids).1 v.acyclic)),
                    ),
                  ),
                ),
              ),
            ),
          ),
        ),
      ),
    )

-- `validate` accepts a manifest exactly when it is valid: the schema version is 1, the named
-- fields have text, ids are listed once, references are to ids that are there, gates and inputs
-- are well formed, a module that has left C++ has a gate, and the dependencies have no cycle.
pub validate_iff : (m : Manifest) → (validate m ≡ valid) ↔ IsValid m
unfolding validate
validate_iff m =
    let r = report-eq-valid (validation_errors m) in
    let v = validation_errors-eq-nil m in (λ h. v.0 (r.0 h), λ h. r.1 (v.1 h))
