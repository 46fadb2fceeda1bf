-- ===== src/Planner/Assess.antt =====
-- A migration step is allowed exactly when its specification holds.
use chromifer.Base.{
  String, ◌≡◌, ◌≢◌, ◌↔◌, refl, Bool, true, false, not, List, [], ◌∷◌, Option, none, some, In, All,
  All-In, All-of_In, In-filter, arith, append-eq-nil, concat_map_iff, filter, any, any-eq-true,
  ◌==◌, string_eq, option_eq, option_beq_iff, inl, inr, if◌then◌else◌, Bool-cases, is_empty,
  is_some, contains, contains_iff, concat_map,
}
use chromifer.Manifest.Data.{
  Target, CompatibilityGate, MigrationState, rust_owned, next, Module, Manifest, find_gate,
  state_eq, state_beq_iff,
}
use chromifer.Planner.{
  Blocker, missing_gate_definition, uncovered_required_target, invalid_transition,
  missing_compatibility_gates, block_if, gate_covers, gate_blockers, target_blockers,
  ownership_findings, assess_module, nothing,
}
use chromifer.Planner.Spec.{IsCovered, IsOwnable, IsAllowed}
use chromifer.Planner.Edges.{ownership_findings-eq-nil}

block_if-eq-nil : (b : Bool) (e : Blocker) → (block_if b e ≡ []) ↔ (b ≡ false)
block_if-eq-nil b e = ground arith

is_empty→eq-nil : (bs : List Blocker) → is_empty bs ≡ true → bs ≡ []
is_empty→eq-nil [] h = refl
is_empty→eq-nil (b ∷ bs) h = cc

eq-nil→is_empty : (bs : List Blocker) → bs ≡ [] → is_empty bs ≡ true
eq-nil→is_empty [] h = refl
eq-nil→is_empty (b ∷ bs) h = cc

not-false→true : (b : Bool) → not b ≡ false → b ≡ true
not-false→true b h = ground arith

module _ (m : Manifest) (x : Module) where
  gate_blockers-eq-nil : (gate_blockers m x ≡ []) ↔ (
      (x.gates ≢ []) × All (λ g. (gate : CompatibilityGate) × (find_gate m g ≡ some gate)) x.gates)
  unfolding gate_blockers
  gate_blockers-eq-nil =
      let each =
        concat_map_iff {P = λ g. (gate : CompatibilityGate) × (find_gate m g ≡ some gate)}
          (λ gate. block_if (not (is_some (find_gate m gate))) (missing_gate_definition gate))
          x.gates (λ g. defined_iff (find_gate m g) (missing_gate_definition g)) in
      (
        λ h. let (a, b) = (append-eq-nil _ _).0 h in (nonempty x.gates a, each.0 b),
        λ v. (append-eq-nil _ _).1 (empty_test x.gates v.0, each.1 v.1),
      )
    where
      defined_iff :
          (o : Option CompatibilityGate) (e : Blocker)
          → (block_if (not (is_some o)) e ≡ []) ↔ ((gate : CompatibilityGate) × (o ≡ some gate))
      defined_iff none e = (λ h. cc, λ v. let (g, q) = v in cc)
      defined_iff (some g) e = (λ h. (g, refl), λ v. refl)

      nonempty :
          (gs : List String) → block_if (is_empty gs) missing_compatibility_gates ≡ [] → gs ≢ []
      nonempty [] h q = cc
      nonempty (g ∷ gs) h q = cc

      empty_test :
          (gs : List String) → gs ≢ [] → block_if (is_empty gs) missing_compatibility_gates ≡ []
      empty_test [] n = absurd (n refl)
      empty_test (g ∷ gs) n = refl

  gate_covers-eq-true :
      (target g : String)
      → (gate_covers m target g ≡ true)
        ↔ ((gate : CompatibilityGate) × (find_gate m g ≡ some gate) × In target gate.targets)
  unfolding gate_covers
  gate_covers-eq-true target g = on_gate (find_gate m g)
    where
      on_gate :
          (o : Option CompatibilityGate)
          → ((elim o [ none ↦ false | some gate ↦ contains gate.targets target ]) ≡ true)
            ↔ ((gate : CompatibilityGate) × (o ≡ some gate) × In target gate.targets)
      on_gate none = (λ h. cc, λ v. let (g, q, i) = v in cc)
      on_gate (some gate) = (
        λ h. (gate, refl, (contains_iff gate.targets target).0 h),
        λ v.
            let (g, q, i) = v in
            let same : g ≡ gate = cc in (contains_iff gate.targets target).1 (rw same at i),
      )

  -- Some gate of the module covers the target, as a test and as a statement.
  pub covers_iff :
      (target : String) → (any (gate_covers m target) x.gates ≡ true) ↔ IsCovered m x target
  covers_iff target =
      let some_gate = any-eq-true (gate_covers m target) x.gates in
      (
        λ h.
            let (g, listed, k) = some_gate.0 h in
            let (gate, defined, covers) = (gate_covers-eq-true target g).0 k in
            record {
              gate_id = g;
              gate = gate;
              listed = listed;
              defined = defined;
              covers = covers;
            },
        λ c. some_gate.1 (
          c.gate_id,
          c.listed,
          (gate_covers-eq-true target c.gate_id).1 (c.gate, c.defined, c.covers),
        ),
      )

  IsCovered-iff :
      (t : Target) (e : Blocker)
      → (block_if (not (any (gate_covers m t.id) x.gates)) e ≡ []) ↔ IsCovered m x t.id
  IsCovered-iff t e =
      let test = covers_iff t.id in
      let passed = block_if-eq-nil (not (any (gate_covers m t.id) x.gates)) e in
      (λ h. test.0 (not-false→true _ (passed.0 h)), λ c. rw (test.1 c) refl)

  required_iff :
      (ts : List Target)
      → (concat_map
            (λ (t : Target).
              block_if (not (any (gate_covers m t.id) x.gates)) (uncovered_required_target t.id))
            (filter (λ (t : Target). t.required) ts)
          ≡ [])
        ↔ ((t : Target) → In t ts → t.required ≡ true → IsCovered m x t.id)
  required_iff ts =
      let required = filter (λ (t : Target). t.required) ts in
      let keep = In-filter (λ (t : Target). t.required) ts in
      let each =
        concat_map_iff {P = λ t. IsCovered m x t.id}
          (λ (t : Target).
            block_if (not (any (gate_covers m t.id) x.gates)) (uncovered_required_target t.id))
          required (λ t. IsCovered-iff t (uncovered_required_target t.id)) in
      (
        λ h t i r.
            All-In (λ (t : Target). IsCovered m x t.id) required t (each.0 h) ((keep t).1 (i, r)),
        λ v. each.1 (
            All-of_In (λ (t : Target). IsCovered m x t.id) required
              (λ t i. let (j, r) = (keep t).0 i in v t j r)),
      )

  owned_iff :
      (target : MigrationState)
      → (((if target == rust_owned then ownership_findings m x else nothing).blockers) ≡ [])
        ↔ (target ≡ rust_owned → IsOwnable m x)
  owned_iff target = elim (Bool-cases (target == rust_owned)) [
    | inl e ↦ rw e (
      λ h q. (ownership_findings-eq-nil m x).0 h,
      λ h. (ownership_findings-eq-nil m x).1 (h ((state_beq_iff target rust_owned).0 e)),
    )
    | inr e ↦ rw e (λ h q. cc ((state_beq_iff target rust_owned).1 q), λ h. refl)
  ]

  -- `allowed` holds exactly when the step is the next one of the module, and its gates, targets,
  -- reviews and boundaries are as the specification asks.
  pub assess_module-allowed_iff :
      (target : MigrationState) → ((assess_module m x target).allowed ≡ true) ↔ IsAllowed m x target
  unfolding assess_module target_blockers
  assess_module-allowed_iff target =
      let follows =
        block_if-eq-nil (not (next x.state == some target)) (invalid_transition (next x.state)) in
      let gates = gate_blockers-eq-nil in
      let targets = required_iff m.targets in
      let owned = owned_iff target in
      (
        λ h.
            let (a, h1) = (append-eq-nil _ _).0 (is_empty→eq-nil _ h) in
            let (b, h2) = (append-eq-nil _ _).0 h1 in
            let (c, d) = (append-eq-nil _ _).0 h2 in
            let g = gates.0 b in
            record {
              follows =
                  (option_beq_iff (next x.state) (some target)).0 (not-false→true _ (follows.0 a));
              gated = g.0;
              defined = g.1;
              covered = targets.0 c;
              ownable = owned.0 d;
            },
        λ v. eq-nil→is_empty _ (
            (append-eq-nil _ _).1 (
              follows.1 (rw ((option_beq_iff (next x.state) (some target)).1 v.follows) refl),
              (append-eq-nil _ _).1 (
                gates.1 (v.gated, v.defined),
                (append-eq-nil _ _).1 (targets.1 v.covered, owned.1 v.ownable),
              ),
            )),
      )
