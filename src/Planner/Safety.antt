-- ===== src/Planner/Safety.antt =====
-- A migration as a sequence of allowed steps, and what no sequence breaks.
use chromifer.Base.{
  ◌≢◌, String, ◌≡◌, ◌⊎◌, refl, sym, ap, ◌∙◌, true, none, some, List, [], ◌∷◌, In, NoRepeat,
  In-map_inv, map, ◌==◌, string_eq, eq_iff, inl, inr, arith, if◌then◌else◌,
}
use chromifer.Base.Results.{ok}
use chromifer.Manifest.Data.{
  MigrationState, rust_owned, next, Dependency, Module, Manifest, ids_of_modules, find_module,
}
use chromifer.Manifest.Lookup.{find_module-some, find_module_self}
use chromifer.Planner.{TransitionAssessment, assess_transition}
use chromifer.Planner.Spec.{IsCleared, IsOwnable}
use chromifer.Planner.Assessment.{assess_transition-IsAssessment}

abbrev pub advance_module : String → MigrationState → Module → Module
advance_module id target x = if x.id == id then record x { state = target } else x

-- The manifest in which the module with an id has a new state
abbrev pub advance : Manifest → String → MigrationState → Manifest
advance m id target = record m { modules = map (advance_module id target) m.modules }

pub data Step : Manifest → Manifest → Type 0 where
  allowed_step :
      (m : Manifest) (id : String) (target : MigrationState) (a : TransitionAssessment)
      → assess_transition m id target ≡ ok a
      → a.allowed ≡ true
      → Step m (advance m id target)

pub data Reaches (m : Manifest) : Manifest → Type 0 where
  here : Reaches m m
  then_step : {middle last : Manifest} → Reaches m middle → Step middle last → Reaches m last

-- Each module that is owned by Rust is such that it may be.
abbrev pub IsSafe : Manifest → Type 0
IsSafe m = (x : Module) → In x m.modules → x.state ≡ rust_owned → IsOwnable m x

module _ (id : String) (target : MigrationState) where
  advance_module-id : (x : Module) → (advance_module id target x).id ≡ x.id
  advance_module-id x = ground arith

  advance_module-dependencies :
      (x : Module) → (advance_module id target x).dependencies ≡ x.dependencies
  advance_module-dependencies x = ground arith

  advance_module-reviews : (x : Module) → (advance_module id target x).reviews ≡ x.reviews
  advance_module-reviews x = ground arith

  advance_module-state :
      (x : Module)
      → ((x.id ≡ id) × ((advance_module id target x).state ≡ target))
        ⊎ ((advance_module id target x).state ≡ x.state)
  advance_module-state x = ground (arith, eq_iff x.id id)

  ids_of-advance :
      (xs : List Module) → ids_of_modules (map (advance_module id target) xs) ≡ ids_of_modules xs
  ids_of-advance [] = refl
  ids_of-advance (x ∷ xs) = rw (advance_module-id x) (ap (λ ids. x.id ∷ ids) (ids_of-advance xs))

-- The step of the module `x`, which the manifest finds by the id
module _ (m : Manifest) (id : String) (target : MigrationState) (x : Module)
    (u : NoRepeat (ids_of_modules m.modules)) (found : find_module m id ≡ some x)
    (follows : next x.state ≡ some target) where
  abbrev step : Module → Module
  step = advance_module id target

  found_self : (z : Module) → In z m.modules → z.id ≡ id → z ≡ x
  found_self z i e =
      let self : find_module m id ≡ some z =
        sym (ap (find_module m) e) ∙ find_module_self m z u i in
      cc

  -- No step leaves Rust.
  stays_rust : (z : Module) → In z m.modules → z.state ≡ rust_owned → (step z).state ≡ rust_owned
  unfolding next
  stays_rust z i r = elim (advance_module-state id target z) [
    | inl (e, _) ↦
        let same : z.state ≡ x.state = ap (λ (x : Module). x.state) (found_self z i e) in
        let last : next x.state ≡ none = rw (sym same ∙ sym (sym r)) refl in cc
    | inr e ↦ e ∙ r
  ]

  step-IsCleared :
      (z : Module) (d : Dependency)
      → In z m.modules
      → IsCleared z.state d
      → IsCleared (step z).state d
  step-IsCleared z d i c = record {
    reviews = c.reviews;
    boundary = elim c.boundary [ inl r ↦ inl (stays_rust z i r) | inr a ↦ inr a ];
  }

  step-IsOwnable : (y : Module) → IsOwnable m y → IsOwnable (advance m id target) (step y)
  step-IsOwnable y o = record {
    reviews = rw (advance_module-reviews id target y) o.reviews;
    outgoing = λ d z' i f.
        let (j, n) = find_module-some (advance m id target) d.module_id z' f in
        let (z, k, q) = In-map_inv step m.modules z' j in
        let same_id : z.id ≡ d.module_id =
          sym (advance_module-id id target z) ∙ ap (λ (x : Module). x.id) (sym q) ∙ n in
        let self : find_module m d.module_id ≡ some z = rw same_id at (find_module_self m z u k) in
        rw q (
          step-IsCleared z d k
            (o.outgoing d z (rw (advance_module-dependencies id target y) at i) self));
    incoming = λ z' d i j e.
        let (z, k, q) = In-map_inv step m.modules z' i in
        let listed : In d (step z).dependencies = rw q at j in
        rw q (
          step-IsCleared z d k (
            o.incoming z d k (rw (advance_module-dependencies id target z) at listed)
              (e ∙ advance_module-id id target y)));
  }

  advance-IsSafe : (target ≡ rust_owned → IsOwnable m x) → IsSafe m → IsSafe (advance m id target)
  advance-IsSafe owned safe y' i r =
      let (y, k, q) = In-map_inv step m.modules y' i in
      let state : (step y).state ≡ rust_owned = rw q at r in
      let ownable : IsOwnable m y = elim (advance_module-state id target y) [
        | inl (e, t) ↦ rw (found_self y k e) (owned (sym t ∙ state))
        | inr e ↦ safe y k (sym e ∙ state)
      ] in
      rw q (step-IsOwnable y ownable)

Step-IsSafe :
    {m n : Manifest}
    → Step m n
    → NoRepeat (ids_of_modules m.modules)
    → IsSafe m
    → NoRepeat (ids_of_modules n.modules) × IsSafe n
Step-IsSafe (allowed_step m id target a e k) u safe =
    let assessed = assess_transition-IsAssessment m id target a e in
    let spec = assessed.allowed_iff.0 k in
    (
      rw (ids_of-advance id target m.modules) u,
      advance-IsSafe m id target assessed.assessed u assessed.found spec.follows spec.ownable safe,
    )

Reaches-IsSafe :
    {m n : Manifest}
    → Reaches m n
    → NoRepeat (ids_of_modules m.modules)
    → IsSafe m
    → NoRepeat (ids_of_modules n.modules) × IsSafe n
Reaches-IsSafe here u safe = (u, safe)
Reaches-IsSafe (then_step r s) u safe = let (v, h) = Reaches-IsSafe r u safe in Step-IsSafe s v h

-- From a manifest with distinct module ids, none of them owned by Rust, however many steps that
-- `assess_transition` allows are taken, each module that is then owned by Rust has its reviews
-- resolved, and so have its edges in both directions, each of which leads to a module that is
-- owned by Rust or has an audited boundary.
pub reached-IsSafe :
    (m n : Manifest)
    → NoRepeat (ids_of_modules m.modules)
    → ((x : Module) → In x m.modules → x.state ≢ rust_owned)
    → Reaches m n
    → IsSafe n
reached-IsSafe m n u none_yet r = (Reaches-IsSafe r u (λ x i e. absurd (none_yet x i e))).1
