-- ===== src/Manifest/Validate/Spec.antt =====
-- What a valid manifest is, without reference to how it is checked.
use chromifer.Base.{String, ◌≡◌, ◌≢◌, some, [], In, All, NoRepeat, map}
use chromifer.Manifest.Data.{
  ids_of_targets, ids_of_gates, ids_of_modules, Project, InventoryMetadata, Target,
  CompatibilityGate, BoundaryReview, BoundaryEvidence, Dependency, Module, ModuleOwnership,
  Manifest, legacy_cpp, GateInput,
}
use chromifer.Manifest.Checks.Laws.{HasText, IsLocated, IsRunnable, IsValidInput}
use chromifer.Manifest.Checks.Ownership.{IsValidOwnership}
use chromifer.Manifest.Cycle.Walks.{Walk}
use chromifer.Manifest.Cycle.Edges.{DependsOn, dependency_ids}

pub record IsValidProject (p : Project) : Type 0 where
  pub name : HasText p.name
  pub upstream : HasText p.upstream
  pub baseline : HasText p.baseline

pub record IsValidInventory (i : InventoryMetadata) : Type 0 where
  pub source_format : HasText i.source_format
  pub build_dir : HasText i.build_dir
  pub default_toolchain : HasText i.default_toolchain

pub record IsValidGate (m : Manifest) (g : CompatibilityGate) : Type 0 where
  pub execution : IsRunnable g.execution
  pub inputs : All IsValidInput g.inputs
  pub inputs_once : NoRepeat (map (λ (i : GateInput). i.path) g.inputs)
  pub targets : All (λ t. In t (ids_of_targets m.targets)) g.targets

abbrev pub IsLocatedReview : BoundaryReview → Type 0
IsLocatedReview r = IsLocated r.file r.line r.detail

abbrev pub IsLocatedEvidence : BoundaryEvidence → Type 0
IsLocatedEvidence e = IsLocated e.file e.line e.detail

pub record IsValidDependency (m : Manifest) (owner : String) (d : Dependency) : Type 0 where
  pub other : d.module_id ≢ owner
  pub known : In d.module_id (ids_of_modules m.modules)
  pub evidence : All IsLocatedEvidence d.evidence
  pub reviews : All IsLocatedReview d.reviews

pub record IsValidModule (m : Manifest) (x : Module) : Type 0 where
  pub path : HasText x.path
  pub owner : HasText x.owner
  pub ownership : (o : ModuleOwnership) → x.ownership ≡ some o → IsValidOwnership o
  pub sources : All HasText x.sources
  pub reviews : All IsLocatedReview x.reviews
  pub gated : x.state ≢ legacy_cpp → x.gates ≢ []
  pub gates : All (λ g. In g (ids_of_gates m.gates)) x.gates
  pub dependencies : All (IsValidDependency m x.id) x.dependencies
  pub dependencies_once : NoRepeat (dependency_ids x)

pub record IsValid (m : Manifest) : Type 0 where
  pub schema : m.schema_version ≡ 1
  pub project : IsValidProject m.project
  pub inventory : (i : InventoryMetadata) → m.inventory ≡ some i → IsValidInventory i
  pub target_ids : NoRepeat (ids_of_targets m.targets)
  pub gate_ids : NoRepeat (ids_of_gates m.gates)
  pub module_ids : NoRepeat (ids_of_modules m.modules)
  pub targets : All (λ (t : Target). HasText t.description) m.targets
  pub gates : All (IsValidGate m) m.gates
  pub modules : All (IsValidModule m) m.modules
  pub acyclic : (a : String) → ¬ Walk (DependsOn m.modules) a a
