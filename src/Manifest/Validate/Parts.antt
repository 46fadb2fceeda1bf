-- ===== src/Manifest/Validate/Parts.antt =====
-- What it means that each loop body of `validate` pushes no error.
use chromifer.Base.{
  String, ◌≡◌, ◌≢◌, ◌↔◌, refl, not, ◌&&◌, List, [], ◌∷◌, Option, none, some, In, All, arith,
  append-eq-nil, concat_map_iff, map, ◌==◌, string_eq, string_ord, eq_iff, is_empty,
}
use chromifer.Base.Sets.{member_iff, insert}
use chromifer.Manifest.Data.{
  ids_of_targets, ids_of_gates, ids_of_modules, Project, InventoryMetadata, CompatibilityGate,
  Dependency, Module, ModuleOwnership, Manifest, MigrationState, legacy_cpp, state_eq,
}
use chromifer.Manifest.Errors.{ValidationError, missing_compatibility_gate}
use chromifer.Manifest.Checks.{push_if, check_nonempty}
use chromifer.Manifest.Checks.Laws.{
  HasText, push_if-eq-nil, check_nonempty-eq-nil, check_source_location-eq-nil,
  validate_gate_execution-eq-nil, check_inputs-eq-nil, AllNew, AllNew-cons,
}
use chromifer.Manifest.Checks.Ownership.{IsValidOwnership, check_ownership-eq-nil}
use chromifer.Manifest.Validate.{
  check_project, check_inventory, check_known_target, check_gate, check_optional_ownership,
  check_review, check_evidence, check_known_gate, check_dependency_target, edge_name,
  check_dependencies, check_module,
}
use chromifer.Manifest.Validate.Spec.{
  IsValidProject, IsValidInventory, IsValidGate, IsLocatedReview, IsLocatedEvidence,
  IsValidDependency, IsValidModule,
}

pub check_project-eq-nil : (p : Project) → (check_project p ≡ []) ↔ IsValidProject p
unfolding check_project
check_project-eq-nil p = (
  λ h. record { name = ground arith; upstream = ground arith; baseline = ground arith },
  λ v. ground arith,
)

fields : (j : InventoryMetadata) → check_inventory (some j) ≡ [] → IsValidInventory j
unfolding check_inventory
fields j h = record {
  source_format = ground arith;
  build_dir = ground arith;
  default_toolchain = ground arith;
}

pub check_inventory-eq-nil :
    (o : Option InventoryMetadata)
    → (check_inventory o ≡ []) ↔ ((i : InventoryMetadata) → o ≡ some i → IsValidInventory i)
unfolding check_inventory
check_inventory-eq-nil none = (λ h i e. cc, λ h. refl)
check_inventory-eq-nil (some j) =
    (λ h i e. let same : i ≡ j = cc in rw same (fields j h), λ h. let v = h j refl in ground arith)

pub nothing-In_nil : (xs : List String) → All (λ x. ¬ In x []) xs
nothing-In_nil [] = tt
nothing-In_nil (x ∷ xs) = (λ m. elim m [ ], nothing-In_nil xs)

gated_iff :
    (s : MigrationState) (gates : List String) (e : ValidationError)
    → (push_if (not (s == legacy_cpp) && is_empty gates) e ≡ []) ↔ (s ≢ legacy_cpp → gates ≢ [])
gated_iff legacy_cpp gates e = (λ h n. absurd (n refl), λ h. refl)
gated_iff _ [] e = (λ h n. cc, λ h. absurd (h (λ q. cc) refl))
gated_iff _ (g ∷ gates) e = (λ h n q. cc, λ h. refl)

-- `ids`, a set that the code has collected, holds the ids that are listed in `listed`.
abbrev pub Holds : List String → List String → Type 0
Holds ids listed = (a : String) → In a ids ↔ In a listed

module _ (m : Manifest) where
  pub check_gate-eq-nil :
      (target_ids : List String) (g : CompatibilityGate)
      → Holds target_ids (ids_of_targets m.targets)
      → (check_gate target_ids g ≡ []) ↔ IsValidGate m g
  unfolding check_gate check_known_target
  check_gate-eq-nil target_ids g same =
      let execution = validate_gate_execution-eq-nil g in
      let inputs = check_inputs-eq-nil g.id [] g.inputs in
      let targets =
        concat_map_iff {P = λ t. In t (ids_of_targets m.targets)}
          (check_known_target target_ids g.id) g.targets
          (λ t. ground (arith, member_iff target_ids t, same t)) in
      (
        λ h.
            let (a, rest) = (append-eq-nil _ _).0 h in
            let (b, c) = (append-eq-nil _ _).0 rest in
            record {
              execution = execution.0 a;
              inputs = (inputs.0 b).0;
              inputs_once = (inputs.0 b).1.1;
              targets = targets.0 c;
            },
        λ v. (append-eq-nil _ _).1 (
          execution.1 v.execution,
          (append-eq-nil _ _).1
              (inputs.1 (v.inputs, (nothing-In_nil _, v.inputs_once)), targets.1 v.targets),
        ),
      )

  check_dependency-eq-nil :
      (module_ids : List String) (owner dependency : String)
      → Holds module_ids (ids_of_modules m.modules)
      → (check_dependency_target module_ids owner dependency ≡ [])
        ↔ ((dependency ≢ owner) × In dependency (ids_of_modules m.modules))
  unfolding check_dependency_target
  check_dependency-eq-nil module_ids owner d same =
      ground (arith, eq_iff d owner, member_iff module_ids d, same d)

  pub check_dependencies-eq-nil :
      (module_ids : List String) (owner : String) (seen : List String) (ds : List Dependency)
      → Holds module_ids (ids_of_modules m.modules)
      → (check_dependencies module_ids owner seen ds ≡ []) ↔ (
          All (IsValidDependency m owner) ds
          × AllNew seen (map (λ (d : Dependency). d.module_id) ds))
  unfolding check_dependencies
  check_dependencies-eq-nil module_ids owner seen [] same = (λ h. (tt, (tt, tt)), λ h. refl)
  check_dependencies-eq-nil module_ids owner seen (d ∷ ds) same =
      let target = check_dependency-eq-nil module_ids owner d.module_id same in
      let evidence =
        concat_map_iff {P = IsLocatedEvidence} (check_evidence (edge_name owner d.module_id))
          d.evidence
          (λ e. unfold check_evidence in check_source_location-eq-nil _ _ e.file e.line e.detail) in
      let reviews =
        concat_map_iff {P = IsLocatedReview}
          (check_review "boundary review" (edge_name owner d.module_id)) d.reviews
          (λ e. unfold check_review in check_source_location-eq-nil _ _ e.file e.line e.detail) in
      let rest = check_dependencies-eq-nil module_ids owner (insert d.module_id seen) ds same in
      let new = AllNew-cons seen d.module_id (map (λ (d : Dependency). d.module_id) ds) in
      (
        λ h.
            let (a, h1) = (append-eq-nil _ _).0 h in
            let (b, h2) = (append-eq-nil _ _).0 h1 in
            let (c, h3) = (append-eq-nil _ _).0 h2 in
            let (e, f) = (append-eq-nil _ _).0 h3 in
            let t = target.0 a in
            let r = rest.0 f in
            (
              (
                record { other = t.0; known = t.1; evidence = evidence.0 c; reviews = reviews.0 e },
                r.0,
              ),
              new.1 ((push_if-eq-nil _ _).0 b, r.1),
            ),
        λ v.
            let n = new.0 v.1 in
            let one = v.0.0 in
            (append-eq-nil _ _).1 (
              target.1 (one.other, one.known),
              (append-eq-nil _ _).1 (
                (push_if-eq-nil _ _).1 n.0,
                (append-eq-nil _ _).1 (
                  evidence.1 one.evidence,
                  (append-eq-nil _ _).1 (reviews.1 one.reviews, rest.1 (v.0.1, n.1)),
                ),
              ),
            ),
      )

  check_gated-eq-nil :
      (x : Module)
      → (push_if
            (not (x.state == legacy_cpp) && is_empty x.gates)
            (missing_compatibility_gate x.id x.state)
          ≡ [])
        ↔ (x.state ≢ legacy_cpp → x.gates ≢ [])
  check_gated-eq-nil x = gated_iff x.state x.gates (missing_compatibility_gate x.id x.state)

  check_optional_ownership-eq-nil :
      (owner : String) (o : Option ModuleOwnership)
      → (check_optional_ownership owner o ≡ [])
        ↔ ((w : ModuleOwnership) → o ≡ some w → IsValidOwnership w)
  unfolding check_optional_ownership
  check_optional_ownership-eq-nil owner none = (λ h w e. cc, λ h. refl)
  check_optional_ownership-eq-nil owner (some o) = (
    λ h w e. let same : w ≡ o = cc in rw same ((check_ownership-eq-nil owner o).0 h),
    λ h. (check_ownership-eq-nil owner o).1 (h o refl),
  )

  pub check_module-eq-nil :
      (gate_ids module_ids : List String) (x : Module)
      → Holds gate_ids (ids_of_gates m.gates)
      → Holds module_ids (ids_of_modules m.modules)
      → (check_module gate_ids module_ids x ≡ []) ↔ IsValidModule m x
  unfolding check_module check_known_gate
  check_module-eq-nil gate_ids module_ids x same_gates same_modules =
      let path = check_nonempty-eq-nil "module" x.id "path" x.path in
      let owner = check_nonempty-eq-nil "module" x.id "owner" x.owner in
      let ownership = check_optional_ownership-eq-nil x.id x.ownership in
      let sources =
        concat_map_iff {P = HasText} (check_nonempty "module" x.id "source") x.sources
          (check_nonempty-eq-nil "module" x.id "source") in
      let reviews =
        concat_map_iff {P = IsLocatedReview} (check_review "module review" x.id) x.reviews
          (λ e. unfold check_review in check_source_location-eq-nil _ _ e.file e.line e.detail) in
      let gated = check_gated-eq-nil x in
      let gates =
        concat_map_iff {P = λ g. In g (ids_of_gates m.gates)} (check_known_gate gate_ids x.id)
          x.gates (λ g. ground (arith, member_iff gate_ids g, same_gates g)) in
      let dependencies = check_dependencies-eq-nil module_ids x.id [] x.dependencies same_modules in
      (
        λ h.
            let (a, h1) = (append-eq-nil _ _).0 h in
            let (b, h2) = (append-eq-nil _ _).0 h1 in
            let (c, h3) = (append-eq-nil _ _).0 h2 in
            let (d, h4) = (append-eq-nil _ _).0 h3 in
            let (e, h5) = (append-eq-nil _ _).0 h4 in
            let (f, h6) = (append-eq-nil _ _).0 h5 in
            let (g, h7) = (append-eq-nil _ _).0 h6 in
            let deps = dependencies.0 h7 in
            record {
              path = path.0 a;
              owner = owner.0 b;
              ownership = ownership.0 c;
              sources = sources.0 d;
              reviews = reviews.0 e;
              gated = gated.0 f;
              gates = gates.0 g;
              dependencies = deps.0;
              dependencies_once = deps.1.1;
            },
        λ v. (append-eq-nil _ _).1 (
          path.1 v.path,
          (append-eq-nil _ _).1 (
            owner.1 v.owner,
            (append-eq-nil _ _).1 (
              ownership.1 v.ownership,
              (append-eq-nil _ _).1 (
                sources.1 v.sources,
                (append-eq-nil _ _).1 (
                  reviews.1 v.reviews,
                  (append-eq-nil _ _).1 (
                    gated.1 v.gated,
                    (append-eq-nil _ _).1 (
                      gates.1 v.gates,
                      dependencies.1 (v.dependencies, (nothing-In_nil _, v.dependencies_once)),
                    ),
                  ),
                ),
              ),
            ),
          ),
        ),
      )
