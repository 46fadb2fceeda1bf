-- ===== src/Planner/Edges.antt =====
-- What it means that the assessment of boundaries adds no blocker.
use chromifer.Base.{
  String, ◌≡◌, ◌↔◌, refl, List, [], ◌∷◌, Option, none, some, In, All, arith, append-eq-nil, map,
  ◌==◌, string_eq, eq_iff, inl, inr, if◌then◌else◌, Bool-cases,
}
use chromifer.Manifest.Data.{
  BoundaryReview, Boundary, MigrationState, rust_owned, Dependency, Module, Manifest, find_module,
  state_eq, state_beq_iff,
}
use chromifer.Planner.{
  Blocker, Findings, nothing, unresolved, assess_edge, assess_outgoing, assess_outgoing_boundaries,
  assess_incoming, assess_dependent, assess_incoming_boundaries, ownership_findings, module_review,
  outgoing_review, incoming_review,
}
use chromifer.Planner.Spec.{IsResolved, IsSafeEdge, IsCleared, IsOwnable}

unresolved-eq-nil :
    (f : BoundaryReview → Blocker) (rs : List BoundaryReview)
    → (map f (unresolved rs) ≡ []) ↔ All IsResolved rs
unresolved-eq-nil f [] = (λ h. tt, λ h. refl)
unresolved-eq-nil f (r ∷ rs) = ground (arith, unresolved-eq-nil f rs)

assess_edge-eq-nil :
    (peer : MigrationState) (b : Boundary) (e : Blocker)
    → ((assess_edge peer b e).blockers ≡ []) ↔ IsSafeEdge peer b
unfolding assess_edge
assess_edge-eq-nil peer b e = ground (arith, state_beq_iff peer rust_owned)

assess_outgoing-eq-nil :
    (d : Dependency) (y : Module) → ((assess_outgoing d y).blockers ≡ []) ↔ IsCleared y.state d
unfolding assess_outgoing
assess_outgoing-eq-nil d y =
    let r = unresolved-eq-nil (outgoing_review y.id) d.reviews in
    let e = assess_edge-eq-nil y.state d.boundary _ in
    (
      λ h. let (a, b) = (append-eq-nil _ _).0 h in record { reviews = r.0 a; boundary = e.0 b },
      λ c. (append-eq-nil _ _).1 (r.1 c.reviews, e.1 c.boundary),
    )

assess_incoming-eq-nil :
    (y : Module) (d : Dependency) → ((assess_incoming y d).blockers ≡ []) ↔ IsCleared y.state d
unfolding assess_incoming
assess_incoming-eq-nil y d =
    let r = unresolved-eq-nil (incoming_review y.id) d.reviews in
    let e = assess_edge-eq-nil y.state d.boundary _ in
    (
      λ h. let (a, b) = (append-eq-nil _ _).0 h in record { reviews = r.0 a; boundary = e.0 b },
      λ c. (append-eq-nil _ _).1 (r.1 c.reviews, e.1 c.boundary),
    )

module _ (m : Manifest) where
  abbrev OutgoingCleared : List Dependency → Type 0
  OutgoingCleared ds =
      (d : Dependency) (y : Module)
      → In d ds
      → find_module m d.module_id ≡ some y
      → IsCleared y.state d

  abbrev outgoing_of : Dependency → Option Module → Findings
  outgoing_of d o = elim o [ none ↦ nothing | some target ↦ assess_outgoing d target ]

  outgoing_of-eq-nil :
      (d : Dependency) (o : Option Module)
      → ((outgoing_of d o).blockers ≡ []) ↔ ((y : Module) → o ≡ some y → IsCleared y.state d)
  outgoing_of-eq-nil d none = (λ h y e. cc, λ h. refl)
  outgoing_of-eq-nil d (some x) = (
    λ h y e. let same : y ≡ x = cc in rw same ((assess_outgoing-eq-nil d x).0 h),
    λ h. (assess_outgoing-eq-nil d x).1 (h x refl),
  )

  pub assess_outgoing_boundaries-eq-nil :
      (ds : List Dependency)
      → ((assess_outgoing_boundaries m ds).blockers ≡ []) ↔ OutgoingCleared ds
  unfolding assess_outgoing_boundaries
  assess_outgoing_boundaries-eq-nil [] = (λ h d y i. elim i [ ], λ h. refl)
  assess_outgoing_boundaries-eq-nil (d ∷ ds) =
      let one = outgoing_of-eq-nil d (find_module m d.module_id) in
      let rest = assess_outgoing_boundaries-eq-nil ds in
      (
        λ h e y i f.
            let (a, b) = (append-eq-nil _ _).0 h in
            elim i [ inl q ↦ rw q (one.0 a y (rw q at f)) | inr r ↦ rest.0 b e y r f ],
        λ h.
            (append-eq-nil _ _).1
              (one.1 (λ y f. h d y (inl refl) f), rest.1 (λ e y i f. h e y (inr i) f)),
      )

module _ (id : String) where
  abbrev DependentCleared : Module → List Dependency → Type 0
  DependentCleared y ds = (d : Dependency) → In d ds → d.module_id ≡ id → IsCleared y.state d

  incoming_of-eq-nil :
      (y : Module) (d : Dependency)
      → ((if d.module_id == id then assess_incoming y d else nothing).blockers ≡ [])
        ↔ (d.module_id ≡ id → IsCleared y.state d)
  incoming_of-eq-nil y d = elim (Bool-cases (d.module_id == id)) [
    | inl e ↦ rw e (
      λ h q. (assess_incoming-eq-nil y d).0 h,
      λ h. (assess_incoming-eq-nil y d).1 (h ((eq_iff d.module_id id).0 e)),
    )
    | inr e ↦ rw e (λ h q. cc ((eq_iff d.module_id id).1 q), λ h. refl)
  ]

  assess_dependent-eq-nil :
      (y : Module) (ds : List Dependency)
      → ((assess_dependent id y ds).blockers ≡ []) ↔ DependentCleared y ds
  unfolding assess_dependent
  assess_dependent-eq-nil y [] = (λ h d i. elim i [ ], λ h. refl)
  assess_dependent-eq-nil y (d ∷ ds) =
      let one = incoming_of-eq-nil y d in
      let rest = assess_dependent-eq-nil y ds in
      (
        λ h e i q.
            let (a, b) = (append-eq-nil _ _).0 h in
            elim i [ inl s ↦ rw s (one.0 a (rw s at q)) | inr r ↦ rest.0 b e r q ],
        λ h. (append-eq-nil _ _).1 (one.1 (h d (inl refl)), rest.1 (λ e i. h e (inr i))),
      )

  pub assess_incoming_boundaries-eq-nil :
      (ys : List Module)
      → ((assess_incoming_boundaries id ys).blockers ≡ []) ↔ (
          (y : Module) (d : Dependency)
          → In y ys
          → In d y.dependencies
          → d.module_id ≡ id
          → IsCleared y.state d)
  unfolding assess_incoming_boundaries
  assess_incoming_boundaries-eq-nil [] = (λ h y d i. elim i [ ], λ h. refl)
  assess_incoming_boundaries-eq-nil (y ∷ ys) =
      let one = assess_dependent-eq-nil y y.dependencies in
      let rest = assess_incoming_boundaries-eq-nil ys in
      (
        λ h z d i j q.
            let (a, b) = (append-eq-nil _ _).0 h in
            elim i [ inl s ↦ rw s (one.0 a d (rw s at j) q) | inr r ↦ rest.0 b z d r j q ],
        λ h.
            (append-eq-nil _ _).1
              (one.1 (λ d i q. h y d (inl refl) i q), rest.1 (λ z d i. h z d (inr i))),
      )

-- Nothing stands against the ownership by Rust exactly when the module is ownable.
pub ownership_findings-eq-nil :
    (m : Manifest) (x : Module) → ((ownership_findings m x).blockers ≡ []) ↔ IsOwnable m x
unfolding ownership_findings
ownership_findings-eq-nil m x =
    let r = unresolved-eq-nil module_review x.reviews in
    let o = assess_outgoing_boundaries-eq-nil m x.dependencies in
    let i = assess_incoming_boundaries-eq-nil x.id m.modules in
    (
      λ h.
          let (a, h1) = (append-eq-nil _ _).0 h in
          let (b, c) = (append-eq-nil _ _).0 h1 in
          record { reviews = r.0 a; outgoing = o.0 b; incoming = i.0 c },
      λ v.
          (append-eq-nil _ _).1
            (r.1 v.reviews, (append-eq-nil _ _).1 (o.1 v.outgoing, i.1 v.incoming)),
    )
