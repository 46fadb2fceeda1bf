-- ===== src/Manifest/Validate.antt =====
-- crates/chromifer-manifest/src/lib.rs: `Manifest::validate`. The errors are listed in the order in
-- which the source pushes them.
pub mod Spec
pub mod Parts
pub mod Laws
use Prim.Native.String.{◌++◌ as ◌<>◌}
use chromifer.Base.{
  ℕ, String, Bool, true, false, ◌&&◌, not, List, [], ◌∷◌, ◌++◌, Option, none, some, eqb, ◌==◌,
  string_eq, string_ord, if◌then◌else◌, is_empty, concat_map, map,
}
use chromifer.Base.Text.{is_blank, join}
use chromifer.Base.Sets.{insert, member}
use chromifer.Manifest.Data.{
  ids_of_targets, ids_of_gates, ids_of_modules, Project, InventoryMetadata, Target,
  CompatibilityGate, BoundaryReview, BoundaryEvidence, Dependency, Module, ModuleOwnership,
  Manifest, MigrationState, legacy_cpp, state_eq,
}
use chromifer.Manifest.Errors.{
  ValidationError, unsupported_schema, empty_project_field, empty_inventory_field, unknown_target,
  unknown_gate, unknown_dependency, self_dependency, duplicate_dependency, dependency_cycle,
  missing_compatibility_gate, Validation, valid, invalid,
}
use chromifer.Manifest.Checks.{
  push_if, check_nonempty, check_source_location, collect_ids, validate_gate_execution,
  check_inputs, check_ownership,
}
use chromifer.Manifest.Cycle.{find_cycle}

abbrev pub supported_schema_version : ℕ
supported_schema_version = 1

pub check_schema : ℕ → List ValidationError
check_schema found =
    push_if (not (eqb found supported_schema_version))
      (unsupported_schema found supported_schema_version)

pub check_project : Project → List ValidationError
check_project p =
    push_if (is_blank p.name) (empty_project_field "name")
    ++ (push_if (is_blank p.upstream) (empty_project_field "upstream")
        ++ push_if (is_blank p.baseline) (empty_project_field "baseline"))

pub check_inventory : Option InventoryMetadata → List ValidationError
check_inventory none = []
check_inventory (some i) =
    push_if (is_blank i.source_format) (empty_inventory_field "source_format")
    ++ (push_if (is_blank i.build_dir) (empty_inventory_field "build_dir")
        ++ push_if (is_blank i.default_toolchain) (empty_inventory_field "default_toolchain"))

pub check_target : Target → List ValidationError
check_target t = check_nonempty "target" t.id "description" t.description

pub check_known_target : (target_ids : List String) (gate target : String) → List ValidationError
check_known_target target_ids gate target =
    push_if (not (member target_ids target)) (unknown_target gate target)

-- The body of the loop over the gates
pub check_gate : (target_ids : List String) → CompatibilityGate → List ValidationError
check_gate target_ids gate =
    validate_gate_execution gate
    ++ (check_inputs gate.id [] gate.inputs
        ++ concat_map (check_known_target target_ids gate.id) gate.targets)

pub check_optional_ownership : String → Option ModuleOwnership → List ValidationError
check_optional_ownership owner none = []
check_optional_ownership owner (some o) = check_ownership owner o

pub check_review : (kind id : String) → BoundaryReview → List ValidationError
check_review kind id r = check_source_location kind id r.file r.line r.detail

pub check_evidence : (id : String) → BoundaryEvidence → List ValidationError
check_evidence id e = check_source_location "boundary evidence" id e.file e.line e.detail

pub check_known_gate : (gate_ids : List String) (owner gate : String) → List ValidationError
check_known_gate gate_ids owner gate =
    push_if (not (member gate_ids gate)) (unknown_gate owner gate)

-- The dependency on the module itself, or on an unknown one
pub check_dependency_target :
    (module_ids : List String) (owner dependency : String) → List ValidationError
check_dependency_target module_ids owner dependency =
    if dependency == owner
    then self_dependency owner ∷ []
    else push_if (not (member module_ids dependency)) (unknown_dependency owner dependency)

-- `format!("{} -> {}", module.id, dependency.module)`
pub edge_name : String → String → String
edge_name owner dependency = owner <> (" -> " <> dependency)

-- The loop over the dependencies, with the set `dependencies`
pub check_dependencies :
    (module_ids : List String) (owner : String) (seen : List String)
    → List Dependency
    → List ValidationError
check_dependencies module_ids owner seen [] = []
check_dependencies module_ids owner seen (d ∷ rest) =
    let name = edge_name owner d.module_id in
    check_dependency_target module_ids owner d.module_id
    ++ (push_if (member seen d.module_id) (duplicate_dependency owner d.module_id)
        ++ (concat_map (check_evidence name) d.evidence
            ++ (concat_map (check_review "boundary review" name) d.reviews
                ++ check_dependencies module_ids owner (insert d.module_id seen) rest)))

-- The body of the loop over the modules
pub check_module : (gate_ids module_ids : List String) → Module → List ValidationError
check_module gate_ids module_ids m =
    check_nonempty "module" m.id "path" m.path
    ++ (check_nonempty "module" m.id "owner" m.owner
        ++ (check_optional_ownership m.id m.ownership
            ++ (concat_map (check_nonempty "module" m.id "source") m.sources
                ++ (concat_map (check_review "module review" m.id) m.reviews
                    ++ (push_if (not (m.state == legacy_cpp) && is_empty m.gates)
                          (missing_compatibility_gate m.id m.state)
                        ++ (concat_map (check_known_gate gate_ids m.id) m.gates
                            ++ check_dependencies module_ids m.id [] m.dependencies))))))

pub check_cycle : Option (List String) → List ValidationError
check_cycle none = []
check_cycle (some cycle) = dependency_cycle (join " -> " cycle) ∷ []

-- The errors that `validate` has pushed at its end
pub validation_errors : Manifest → List ValidationError
validation_errors m =
    let (target_ids, target_errors) = collect_ids "target" [] (ids_of_targets m.targets) in
    let (gate_ids, gate_errors) = collect_ids "gate" [] (ids_of_gates m.gates) in
    let (module_ids, module_errors) = collect_ids "module" [] (ids_of_modules m.modules) in
    check_schema m.schema_version
    ++ (check_project m.project
        ++ (check_inventory m.inventory
            ++ (target_errors
                ++ (gate_errors
                    ++ (module_errors
                        ++ (concat_map check_target m.targets
                            ++ (concat_map (check_gate target_ids) m.gates
                                ++ (concat_map (check_module gate_ids module_ids) m.modules
                                    ++ check_cycle (find_cycle m.modules module_ids)))))))))

pub report : List ValidationError → Validation
report [] = valid
report (e ∷ errors) = invalid (e ∷ errors)

unfoldable pub validate : Manifest → Validation
unfolding check_schema check_project check_inventory check_target check_known_target check_gate
    check_optional_ownership check_review check_evidence check_known_gate check_dependency_target
    edge_name check_dependencies check_module check_cycle validation_errors report check_nonempty
    check_source_location collect_ids validate_gate_execution check_inputs check_ownership
    find_cycle is_blank join insert member
validate m = report (validation_errors m)
