-- ===== src/Manifest/Cycle/Edges.antt =====
-- The edges of the graph that `find_cycle` builds are the dependencies of the modules.
use chromifer.Base.{
  String, ◌≡◌, ◌↔◌, ◌∙◌, refl, false, none, some, List, [], ◌∷◌, inl, inr, In, In-map_inv, NoRepeat,
  arith, map, string_ord, Bool-cases, subst,
}
use chromifer.Base.Sets.{get, put, same_iff, get-put, member, member_iff}
use chromifer.Manifest.Data.{ids_of_modules, Module, Dependency}
use chromifer.Manifest.Cycle.{
  Graph, dependencies_of, known_dependencies, build_graph_onto, build_graph,
}
use chromifer.Manifest.Cycle.Walks.{Edge}

abbrev pub dependency_ids : Module → List String
dependency_ids m = map (λ (d : Dependency). d.module_id) m.dependencies

-- A module with the id `a` lists a dependency on `b`.
pub record DependsOn (modules : List Module) (a b : String) : Type 0 where
  pub dependent : Module
  pub listed : In dependent modules
  pub named : a ≡ dependent.id
  pub depends : In b (dependency_ids dependent)

get-nil : (a : String) → get {V = List String} [] a ≡ none
unfolding get
get-nil a = refl

not-Edge : (graph : Graph) (a b : String) → get graph a ≡ none → ¬ Edge graph a b
unfolding dependencies_of
not-Edge graph a b q e = rw (q, dependencies_of) at e

module _ (known : List String) where
  In-known_dependencies :
      (ds : List Dependency) (b : String)
      → In b (known_dependencies known ds)
        ↔ (In b (map (λ (d : Dependency). d.module_id) ds) × In b known)
  unfolding known_dependencies
  In-known_dependencies [] b = (λ h. elim h [ ], λ h. h.0)
  In-known_dependencies (d ∷ ds) b =
      ground (arith, In-known_dependencies ds b, member_iff known d.module_id)

  get-build_other :
      (a : String) (graph : Graph) (modules : List Module)
      → ¬ In a (ids_of_modules modules)
      → get (build_graph_onto known graph modules) a ≡ get graph a
  unfolding build_graph_onto
  get-build_other a graph [] h = refl
  get-build_other a graph (m ∷ modules) h =
      get-build_other a (put m.id (known_dependencies known m.dependencies) graph) modules
        (λ k. h (inr k))
      ∙ ground (
        arith,
        get-put m.id a (known_dependencies known m.dependencies) graph,
        same_iff a m.id,
        h,
      )

  get-build :
      (graph : Graph) (modules : List Module) (m : Module)
      → NoRepeat (ids_of_modules modules)
      → In m modules
      → get (build_graph_onto known graph modules) m.id
        ≡ some (known_dependencies known m.dependencies)
  unfolding build_graph_onto
  get-build graph [] m u i = elim i [ ]
  get-build graph (x ∷ modules) m u i = elim i [
    | inl e ↦ rw e (
        get-build_other x.id _ modules u.0
        ∙ ground (
          arith,
          get-put x.id x.id (known_dependencies known x.dependencies) graph,
          same_iff x.id x.id,
        ))
    | inr r ↦ get-build (put x.id (known_dependencies known x.dependencies) graph) modules m u.1 r
  ]

  pub Edge→DependsOn :
      (modules : List Module) (a b : String)
      → NoRepeat (ids_of_modules modules)
      → Edge (build_graph known modules) a b
      → DependsOn modules a b × In b known
  unfolding dependencies_of build_graph
  Edge→DependsOn modules a b u e = elim (Bool-cases (member (ids_of_modules modules) a)) [
    | inl k ↦
        let (m, listed, named) =
          In-map_inv (λ (m : Module). m.id) modules a
            ((member_iff (ids_of_modules modules) a).0 k) in
        let h = subst (λ x. In b (dependencies_of (build_graph_onto known [] modules) x)) named e in
        let h' =
          (In-known_dependencies m.dependencies b).0
            (rw (get-build [] modules m u listed, dependencies_of) at h) in
        (record { dependent = m; listed = listed; named = named; depends = h'.0 }, h'.1)
    | inr k ↦ absurd (unlisted k)
  ]
    where
      unlisted : member (ids_of_modules modules) a ≡ false → ⊥
      unlisted k =
          let other =
            get-build_other a [] modules (λ i. cc ((member_iff (ids_of_modules modules) a).1 i)) in
          not-Edge (build_graph known modules) a b (other ∙ get-nil a) e

  pub DependsOn→Edge :
      (modules : List Module) (a b : String)
      → NoRepeat (ids_of_modules modules)
      → DependsOn modules a b
      → In b known
      → Edge (build_graph known modules) a b
  unfolding dependencies_of build_graph
  DependsOn→Edge modules a b u d k = rw d.named (
      rw (get-build [] modules d.dependent u d.listed, dependencies_of)
        ((In-known_dependencies d.dependent.dependencies b).1 (d.depends, k)))
