-- ===== src/Planner/Frontier.antt =====
-- The frontier holds exactly the allowed next steps, in the order of its comparison.
use chromifer.Base.{
  if◌then◌else◌, ap, ◌↔◌, sym, Bool, ◌≡◌, ℕ, String, refl, true, [], ◌∷◌, Option, none, some, In,
  In-concat_map, arith, concat_map, string_ord, nat_ord, pair_ord, ◌≢◌, ◌⊎◌, ◌<◌, Ordering,
}
use chromifer.Base.Results.{Result, ok, err}
use chromifer.Base.Sort.{
  IsComparison-on, IsComparison, In-sort_by, sort_by-IsSorted, le_by, Pairwise, IsSorted-Pairwise,
}
use chromifer.Manifest.Data.{MigrationState, next, Module, Manifest}
use chromifer.Planner.{
  TransitionAssessment, PlannerError, assess_transition, frontier_cmp, frontier_entry,
  migration_frontier, if_allowed, entry_at,
}

-- The allowed assessment of the next step of some module
pub record IsNextStep (m : Manifest) (a : TransitionAssessment) : Type 0 where
  pub candidate : Module
  pub listed : In candidate m.modules
  pub target : MigrationState
  pub follows : next candidate.state ≡ some target
  pub assessed : assess_transition m candidate.id target ≡ ok a
  pub allowed : a.allowed ≡ true

module _ (a : TransitionAssessment) where
  In-if :
      (keep : Bool) (b : TransitionAssessment)
      → In a (if keep then b ∷ [] else []) ↔ ((a ≡ b) × (keep ≡ true))
  In-if keep b = ground arith

  In-if_allowed :
      (r : Result PlannerError TransitionAssessment)
      → In a (if_allowed r) ↔ ((r ≡ ok a) × (a.allowed ≡ true))
  In-if_allowed (err e) = (λ h. elim h [ ], λ v. cc v.0)
  In-if_allowed (ok b) = (
    λ h. let (e, k) = (In-if b.allowed b).0 h in (ap ok (sym e), rw e k),
    λ v. let same : a ≡ b = cc v.0 in (In-if b.allowed b).1 (same, rw same at v.1),
  )

  In-entry_at :
      (m : Manifest) (id : String) (o : Option MigrationState)
      → In a (entry_at m id o) ↔ (
          (target : MigrationState) × (o ≡ some target)
          × (assess_transition m id target ≡ ok a)
          × (a.allowed ≡ true))
  In-entry_at m id none = (λ h. elim h [ ], λ v. cc v.1)
  In-entry_at m id (some target) = (
    λ h. let (e, k) = (In-if_allowed (assess_transition m id target)).0 h in (target, refl, e, k),
    λ (t, q, e, k).
        let same : t ≡ target = cc q in
        (In-if_allowed (assess_transition m id target)).1 (rw same at e, k),
  )

-- The keys of `frontier.sort_by`'s comparison
abbrev key : TransitionAssessment → ℕ × (ℕ × String)
key a = (a.cross_language_edges, (a.gate_count, a.module_id))

frontier_cmp-IsComparison : IsComparison frontier_cmp
unfolding frontier_cmp
frontier_cmp-IsComparison = IsComparison-on key

-- The frontier of a manifest holds an assessment exactly when it is the allowed assessment of the
-- next step of a module of the manifest.
pub In-migration_frontier :
    (m : Manifest) (a : TransitionAssessment) → In a (migration_frontier m) ↔ IsNextStep m a
unfolding migration_frontier
In-migration_frontier m a =
    let sorted = In-sort_by frontier_cmp a (concat_map (frontier_entry m) m.modules) in
    let mapped = In-concat_map (frontier_entry m) m.modules a in
    (
      λ h.
          let (x, i, k) = mapped.0 (sorted.0 h) in
          let (t, q, e, d) = (In-entry_at a m x.id (next x.state)).0 k in
          record { candidate = x; listed = i; target = t; follows = q; assessed = e; allowed = d },
      λ v. sorted.1 (
          mapped.1 (
            v.candidate,
            v.listed,
            (In-entry_at a m v.candidate.id (next v.candidate.state)).1
                (v.target, v.follows, v.assessed, v.allowed),
          )),
    )

-- The steps that cross fewer language edges come first, then those with fewer gates, then the
-- smaller ids.
abbrev pub ComesBefore : (a b : TransitionAssessment) → Type 0
ComesBefore a b =
    (a.cross_language_edges < b.cross_language_edges)
    ⊎ ((a.cross_language_edges ≡ b.cross_language_edges)
        × ((a.gate_count < b.gate_count)
            ⊎ ((a.gate_count ≡ b.gate_count)
                × (string_ord.cmp a.module_id b.module_id ≢ Ordering.gt))))

ComesBefore-of_le : (a b : TransitionAssessment) → le_by frontier_cmp a b ≡ true → ComesBefore a b
unfolding frontier_cmp
ComesBefore-of_le a b h = ground arith

-- Of two steps in the frontier, the one that stands first has fewer cross-language edges, or as
-- many and fewer gates, or as many of both and no larger module id.
pub migration_frontier-IsSorted : (m : Manifest) → Pairwise ComesBefore (migration_frontier m)
migration_frontier-IsSorted m =
    unfold migration_frontier in
    IsSorted-Pairwise frontier_cmp ComesBefore ComesBefore-of_le _ (
      sort_by-IsSorted frontier_cmp frontier_cmp-IsComparison
        (concat_map (frontier_entry m) m.modules))
