-- ===== src/Planner/Spec.antt =====
-- When a migration step is allowed, without reference to the blockers.
use chromifer.Base.{String, ◌≡◌, ◌≢◌, ◌⊎◌, true, some, [], In, All}
use chromifer.Manifest.Data.{
  Target, CompatibilityGate, BoundaryReview, Boundary, is_audited_cross_language, MigrationState,
  rust_owned, next, Dependency, Module, Manifest, find_module, find_gate,
}

abbrev pub IsResolved : BoundaryReview → Type 0
IsResolved r = r.resolved ≡ true

-- An edge to a peer that is not in Rust has an audited boundary.
abbrev pub IsSafeEdge : MigrationState → Boundary → Type 0
IsSafeEdge peer boundary = (peer ≡ rust_owned) ⊎ (is_audited_cross_language boundary ≡ true)

-- Some gate of the module is defined and lists the target.
pub record IsCovered (m : Manifest) (x : Module) (target : String) : Type 0 where
  pub gate_id : String
  pub gate : CompatibilityGate
  pub listed : In gate_id x.gates
  pub defined : find_gate m gate_id ≡ some gate
  pub covers : In target gate.targets

-- An edge, in either direction, with its reviews
pub record IsCleared (peer : MigrationState) (d : Dependency) : Type 0 where
  pub reviews : All IsResolved d.reviews
  pub boundary : IsSafeEdge peer d.boundary

-- What a module needs to be owned by Rust
pub record IsOwnable (m : Manifest) (x : Module) : Type 0 where
  pub reviews : All IsResolved x.reviews
  pub outgoing :
      (d : Dependency) (y : Module)
      → In d x.dependencies
      → find_module m d.module_id ≡ some y
      → IsCleared y.state d
  pub incoming :
      (y : Module) (d : Dependency)
      → In y m.modules
      → In d y.dependencies
      → d.module_id ≡ x.id
      → IsCleared y.state d

pub record IsAllowed (m : Manifest) (x : Module) (target : MigrationState) : Type 0 where
  pub follows : next x.state ≡ some target
  pub gated : x.gates ≢ []
  pub defined : All (λ g. (gate : CompatibilityGate) × (find_gate m g ≡ some gate)) x.gates
  pub covered : (t : Target) → In t m.targets → t.required ≡ true → IsCovered m x t.id
  pub ownable : target ≡ rust_owned → IsOwnable m x
