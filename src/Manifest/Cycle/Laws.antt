-- ===== src/Manifest/Cycle/Laws.antt =====
-- What `find_cycle` decides: a result is a cycle, and without a result there is none.
use chromifer.Base.{
  ◌≢◌, suc, String, ◌≡◌, ◌↔◌, ap, refl, subst, none, some, List, [], ◌∷◌, In, In-map, inl, inr, ◌⊎◌,
  All-In, All-of_In, NoRepeat, arith, length, string_ord,
}
use chromifer.Base.Sets.{get}
use chromifer.Manifest.Data.{ids_of_modules, Module}
use chromifer.Manifest.Cycle.{
  Graph, Search, Outcome, clear, found, out_of_fuel, build_graph, run_search, reported, find_cycle,
  complete,
}
use chromifer.Manifest.Cycle.Walks.{
  Edge, Walk, one, more, IsCycle, Walk-of_IsCycle, Walk-imp, IsChain-imp,
}
use chromifer.Manifest.Cycle.Visit.{Promise, Done, visit_all_start}
use chromifer.Manifest.Cycle.Edges.{DependsOn, Edge→DependsOn, DependsOn→Edge}

length-ids_of_modules : (modules : List Module) → length (ids_of_modules modules) ≡ length modules
length-ids_of_modules [] = refl
length-ids_of_modules (m ∷ modules) = ap suc (length-ids_of_modules modules)

find_cycle_lem :
    (modules : List Module) (known : List String)
    → find_cycle modules known ≡ reported (run_search modules known)
unfolding find_cycle
find_cycle_lem modules known = refl

-- `known` holds the ids of the modules.
abbrev pub IsIdSet : List Module → List String → Type 0
IsIdSet modules known = (a : String) → In a known ↔ In a (ids_of_modules modules)

module _ (modules : List Module) (known : List String) (ids : IsIdSet modules known)
    (u : NoRepeat (ids_of_modules modules)) where
  abbrev pub graph : Graph
  graph = build_graph known modules

  inside : (a b : String) → Edge graph a b → In b (ids_of_modules modules)
  inside a b e = (ids b).0 (Edge→DependsOn known modules a b u e).1

  run_search-Promise :
      Promise graph
        (Done graph (ids_of_modules modules) (record { states = []; stack = [] }))
        (run_search modules known)
  unfolding run_search
  run_search-Promise =
      visit_all_start graph (ids_of_modules modules) inside (suc (length modules))
        (ids_of_modules modules)
        (All-of_In (λ d. In d (ids_of_modules modules)) (ids_of_modules modules) (λ d m. m))
        (omega (arith, length-ids_of_modules modules))

  -- For modules with distinct ids, all of them known, the search for a cycle does not run out of
  -- its fuel.
  pub run_search-total : run_search modules known ≢ out_of_fuel
  run_search-total e =
      subst
        (Promise graph (Done graph (ids_of_modules modules) (record { states = []; stack = [] }))) e
        run_search-Promise

  no-Walk :
      (s t : Search)
      → Done graph (ids_of_modules modules) s t
      → (a : String) → ¬ Walk (Edge graph) a a
  no-Walk s t d a w =
      d.inv.acyclic a
        (All-In (λ x. get t.states x ≡ some complete) (ids_of_modules modules) a d.all_complete
          (target w))
        w
    where
      target : {x y : String} → Walk (Edge graph) x y → In y (ids_of_modules modules)
      target (one e) = inside _ _ e
      target (more e w) = target w

  find_cycle-of_clear :
      (t : Search) → run_search modules known ≡ clear t → find_cycle modules known ≡ none
  find_cycle-of_clear t e = unfold reported in rw (find_cycle_lem modules known, e)

  find_cycle-of_found :
      (cycle : List String)
      → run_search modules known ≡ found cycle
      → find_cycle modules known ≡ some cycle
  find_cycle-of_found cycle e = unfold reported in rw (find_cycle_lem modules known, e)

  source_known : {b : String} (a : String) → DependsOn modules a b → In a known
  source_known a d =
      (ids a).1 (rw d.named (In-map (λ (m : Module). m.id) modules d.dependent d.listed))

  start_known : {a b : String} → Walk (DependsOn modules) a b → In a known
  start_known (one d) = source_known _ d
  start_known (more d w) = source_known _ d

  from_graph : {a b : String} → Walk (Edge graph) a b → Walk (DependsOn modules) a b
  from_graph (one e) = one (Edge→DependsOn known modules _ _ u e).0
  from_graph (more e w) = more (Edge→DependsOn known modules _ _ u e).0 (from_graph w)

  run_search-cases :
      (o : Outcome)
      → run_search modules known ≡ o
      → Promise graph (Done graph (ids_of_modules modules) (record { states = []; stack = [] })) o
      → ((find_cycle modules known ≡ none) × ((a : String) → ¬ Walk (Edge graph) a a))
        ⊎ ((cycle : List String) × (find_cycle modules known ≡ some cycle)
            × IsCycle (Edge graph) cycle)
  run_search-cases (clear t) e h = inl (find_cycle-of_clear t e, no-Walk _ t h)
  run_search-cases (found cycle) e h = inr (cycle, find_cycle-of_found cycle e, h)
  run_search-cases out_of_fuel e h = elim h [ ]

  decided :
      ((find_cycle modules known ≡ none) × ((a : String) → ¬ Walk (Edge graph) a a))
      ⊎ ((cycle : List String) × (find_cycle modules known ≡ some cycle)
          × IsCycle (Edge graph) cycle)
  decided = run_search-cases (run_search modules known) refl run_search-Promise

  Walk-graph : {a b : String} → In b known → Walk (DependsOn modules) a b → Walk (Edge graph) a b
  Walk-graph =
      Walk-imp (DependsOn modules) (Edge graph) (λ a. In a known) (λ a b d. source_known a d)
        (λ a b d k. DependsOn→Edge known modules a b u d k)

  -- For modules with distinct ids, all of them known, no cycle is reported exactly when no module
  -- depends on itself through others.
  pub find_cycle-eq-none :
      (find_cycle modules known ≡ none) ↔ ((a : String) → ¬ Walk (DependsOn modules) a a)
  find_cycle-eq-none = elim decided [
    | inl (e, acyclic) ↦ (λ _ a w. acyclic a (Walk-graph (start_known w) w), λ _. e)
    | inr (cycle, e, c) ↦ (
      λ n. cc,
      λ acyclic.
          let (a, w) = Walk-of_IsCycle (Edge graph) cycle c in absurd (acyclic a (from_graph w)),
    )
  ]

  -- For modules with distinct ids, all of them known, a reported cycle is one: each id depends on
  -- the next, and the last is the first.
  pub find_cycle-IsCycle :
      (cycle : List String)
      → find_cycle modules known ≡ some cycle
      → IsCycle (DependsOn modules) cycle
  find_cycle-IsCycle cycle e = elim decided [
    | inl (n, _) ↦ cc
    | inr (other, k, c) ↦
        let same : other ≡ cycle = cc in
        subst (IsCycle (DependsOn modules)) same (record {
          start = c.start;
          between = c.between;
          shape = c.shape;
          chain =
              IsChain-imp (Edge graph) (DependsOn modules) other
                (λ a b e. (Edge→DependsOn known modules a b u e).0) c.chain;
        })
  ]
