-- ===== src/Components/Pairs.antt =====
-- What the pairs of modules and required targets count.
use native.Mathlib.Nat.{suc-mul}
use chromifer.Base.{
  ◌≡◌, ◌≤◌, ◌↔◌, ◌*◌, true, List, [], ◌∷◌, All, All-In, All-of_In, All-iff, In, In-filter, any,
  arith, length, eqb, Bool-cases, inl, inr,
}
use chromifer.Manifest.Data.{Target, Module, Manifest}
use chromifer.Planner.{gate_covers}
use chromifer.Planner.Spec.{IsCovered}
use chromifer.Planner.Assess.{covers_iff}
use chromifer.Components.Risk.{
  required_targets, covered_targets, covered_pairs, test_coverage_proxy,
}

-- Each required target is covered by a gate of the module.
abbrev pub CoversRequired : Manifest → Module → Type 0
CoversRequired m x = (t : Target) → In t m.targets → t.required ≡ true → IsCovered m x t.id

module _ (m : Manifest) where
  covered_targets-le : (x : Module) (ts : List Target) → covered_targets m x ts ≤ length ts
  unfolding covered_targets
  covered_targets-le x [] = omega arith
  covered_targets-le x (t ∷ ts) = ground (arith, covered_targets-le x ts)

  covered_targets-full_iff :
      (x : Module) (ts : List Target)
      → (length ts ≤ covered_targets m x ts) ↔ All (λ t. any (gate_covers m t.id) x.gates ≡ true) ts
  unfolding covered_targets
  covered_targets-full_iff x [] = (λ h. tt, λ h. omega arith)
  covered_targets-full_iff x (t ∷ ts) =
      ground (arith, covered_targets-full_iff x ts, covered_targets-le x ts)

  covered_pairs-le :
      (xs : List Module) (ts : List Target) → covered_pairs m xs ts ≤ length xs * length ts
  unfolding covered_pairs
  covered_pairs-le [] ts = omega arith
  covered_pairs-le (x ∷ xs) ts =
      omega
        (arith, covered_pairs-le xs ts, covered_targets-le x ts, suc-mul (length xs) (length ts))

  covered_pairs-full_iff :
      (xs : List Module) (ts : List Target)
      → (length xs * length ts ≤ covered_pairs m xs ts)
        ↔ All (λ x. length ts ≤ covered_targets m x ts) xs
  unfolding covered_pairs
  covered_pairs-full_iff [] ts = (λ h. tt, λ h. omega arith)
  covered_pairs-full_iff (x ∷ xs) ts =
      let rest = covered_pairs-full_iff xs ts in
      let a = covered_pairs-le xs ts in
      let b = covered_targets-le x ts in
      let step = suc-mul (length xs) (length ts) in
      (
        λ h. (omega arith, rest.0 (omega arith)),
        λ v.
            let first : length ts ≤ covered_targets m x ts = v.0 in
            let later = rest.1 v.1 in omega arith,
      )

  CoversRequired-iff :
      (x : Module)
      → (length (required_targets m) ≤ covered_targets m x (required_targets m))
        ↔ CoversRequired m x
  CoversRequired-iff x =
      let full = covered_targets-full_iff x (required_targets m) in
      let meant = All-iff (required_targets m) (λ (t : Target). covers_iff m x t.id) in
      let keep = In-filter (λ (t : Target). t.required) m.targets in
      (
        λ h t i r.
            All-In (λ (t : Target). IsCovered m x t.id) (required_targets m) t (meant.0 (full.0 h))
              ((keep t).1 (i, r)),
        λ v. full.1 (
            meant.1 (
              All-of_In (λ (t : Target). IsCovered m x t.id) (required_targets m)
                (λ t i. let (j, r) = (keep t).0 i in v t j r))),
      )

-- No more pairs are covered than there are, and all are covered exactly when in each module each
-- required target is covered by a gate that is defined.
pub test_coverage_proxy-full_iff :
    (m : Manifest) (modules : List Module)
    → ((test_coverage_proxy m modules).covered_module_target_pairs
        ≤ (test_coverage_proxy m modules).total_module_target_pairs)
      × (((test_coverage_proxy m modules).total_module_target_pairs
            ≤ (test_coverage_proxy m modules).covered_module_target_pairs)
          ↔ All (CoversRequired m) modules)
unfolding test_coverage_proxy
test_coverage_proxy-full_iff m modules =
    let ts = required_targets m in
    let below = covered_pairs-le m modules ts in
    let full = covered_pairs-full_iff m modules ts in
    let meant = All-iff modules (CoversRequired-iff m) in
    elim (Bool-cases (eqb (length modules * length ts) 0)) [
      | inl e ↦ rw e (omega arith, (λ h. meant.0 (full.0 (ground arith)), λ h. omega arith))
      | inr e ↦ rw e (below, (λ h. meant.0 (full.0 h), λ h. full.1 (meant.1 h)))
    ]
