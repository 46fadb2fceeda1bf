-- ===== src/Components/Edges/Laws.antt =====
-- Which components an edge joins.
use chromifer.Base.{
  String, ◌≡◌, ◌≢◌, ◌↔◌, ◌⊎◌, inl, inr, refl, sym, ap, ◌∙◌, true, List, [], ◌∷◌, Option, none, some,
  ◌==◌, string_eq, eq_iff, In, Exists, Exists-cons, map, All, Ordering, string_ord, pair_ord,
  Bool-cases,
}
use chromifer.Base.Sets.{
  TreeMap, get, keys, upsert, keys-upsert, IsIncreasing, insert-IsIncreasing, In-insert,
}
use chromifer.Base.Sort.{sort_by_self, IsSorted, le_by}
use chromifer.Manifest.Data.{Manifest, Module, Dependency}
use chromifer.Components.Data.{IncidentMetrics, ComponentEdge, EdgeDraft}
use chromifer.Components.Edges.{
  no_metrics, no_draft, Drafts, nothing_drafted, add_to_draft, draft_dependency, draft_dependencies,
  add_reviews, draft_module, draft_modules, edge_of, apply_edge, finish_edges,
  build_component_edges,
}

abbrev pub Ends : Type 0
Ends = String × String

-- The dependency leads from the first component to the second, which is another one.
abbrev Leads : (from : String) → Ends → Option String → Type 0
Leads from ends to = (to ≡ some ends.1) × (ends.0 ≡ from) × (from ≢ ends.1)

draft_dependency-keys :
    (from : String) (d : Dependency) (to : Option String) (acc : Drafts) (ends : Ends)
    → In ends (keys (draft_dependency from d to acc).drafts)
      ↔ (In ends (keys acc.drafts) ⊎ Leads from ends to)
unfolding draft_dependency
draft_dependency-keys from d none acc ends =
    (λ h. inl h, λ h. elim h [ inl m ↦ m | inr (e, _, _) ↦ absurd cc ])
draft_dependency-keys from d (some to) acc ends = elim (Bool-cases (from == to)) [
  | inl e ↦ rw e (
    λ h. inl h,
    λ h. elim h [
      | inl m ↦ m
      | inr (k, _, differ) ↦
          let same : from ≡ to = (eq_iff from to).0 e in
          let there : to ≡ ends.1 = cc k in absurd (differ (same ∙ there))
    ],
  )
  | inr e ↦
      rw (e, keys-upsert (from, to) no_draft (add_to_draft d) acc.drafts)
        (let i = In-insert (from, to) ends (keys acc.drafts) in
          (
            λ h. elim (i.0 h) [
              | inl same ↦ inr (
                sym (ap (λ (p : Ends). some p.1) same),
                ap (λ (p : Ends). p.0) same,
                λ k.
                    let same_end : from ≡ to = k ∙ ap (λ (p : Ends). p.1) same in
                    let yes = (eq_iff from to).1 same_end in absurd cc,
              )
              | inr m ↦ inl m
            ],
            λ h. elim h [
              | inl m ↦ i.1 (inr m)
              | inr (k, first, _) ↦
                  let second : to ≡ ends.1 = cc k in
                  let pair : ends ≡ (from, to) = (λ i. (first i, sym second i)) in i.1 (inl pair)
            ],
          ))
]

module _ (components : TreeMap String String) where
  abbrev LeadsFrom : (from : String) → Ends → Dependency → Type 0
  LeadsFrom from ends d = Leads from ends (get components d.module_id)

  draft_dependencies-keys :
      (from : String) (ds : List Dependency) (acc : Drafts) (ends : Ends)
      → In ends (keys (draft_dependencies components from ds acc).drafts)
        ↔ (In ends (keys acc.drafts) ⊎ Exists (LeadsFrom from ends) ds)
  unfolding draft_dependencies
  draft_dependencies-keys from [] acc ends =
      (λ h. inl h, λ h. elim h [ inl m ↦ m | inr (_, m, _) ↦ elim m [ ] ])
  draft_dependencies-keys from (d ∷ ds) acc ends =
      let to = get components d.module_id in
      let first = draft_dependency-keys from d to acc ends in
      let rest = draft_dependencies-keys from ds (draft_dependency from d to acc) ends in
      let split = Exists-cons (LeadsFrom from ends) d ds in
      (
        λ h. elim (rest.0 h) [
          | inl m ↦ elim (first.0 m) [ inl k ↦ inl k | inr k ↦ inr (split.1 (inl k)) ]
          | inr k ↦ inr (split.1 (inr k))
        ],
        λ h. elim h [
          | inl m ↦ rest.1 (inl (first.1 (inl m)))
          | inr k ↦ elim (split.0 k) [
            | inl j ↦ rest.1 (inl (first.1 (inr j)))
            | inr j ↦ rest.1 (inr j)
          ]
        ],
      )

  -- The module is in the first component, and one of its dependencies leads to the second.
  abbrev pub Joins : Ends → Module → Type 0
  Joins ends x =
      (get components x.id ≡ some ends.0)
      × Exists (λ (d : Dependency). (get components d.module_id ≡ some ends.1) × (ends.0 ≢ ends.1))
          x.dependencies

  draft_module-keys :
      (x : Module) (from : Option String) (acc : Drafts) (ends : Ends)
      → get components x.id ≡ from
      → In ends (keys (draft_module components x from acc).drafts)
        ↔ (In ends (keys acc.drafts) ⊎ Joins ends x)
  unfolding draft_module
  draft_module-keys x none acc ends e =
      (λ h. inl h, λ h. elim h [ inl m ↦ m | inr (k, _) ↦ absurd (cc (e, k)) ])
  draft_module-keys x (some from) acc ends e =
      let next : Drafts = record acc {
        incident = upsert from no_metrics (add_reviews x) acc.incident;
      } in
      let found = draft_dependencies-keys from x.dependencies next ends in
      (
        λ h. elim (found.0 h) [
          | inl m ↦ inl m
          | inr (d, m, (k, first, differ)) ↦
              inr (e ∙ ap some (sym first), (d, m, (k, λ same. differ (sym first ∙ same))))
        ],
        λ h. elim h [
          | inl m ↦ found.1 (inl m)
          | inr (j, (d, m, (k, differ))) ↦
              let first : ends.0 ≡ from = cc (e, j) in
              found.1 (inr (d, m, (k, first, λ same. differ (first ∙ same))))
        ],
      )

  draft_modules-keys :
      (xs : List Module) (acc : Drafts) (ends : Ends)
      → In ends (keys (draft_modules components xs acc).drafts)
        ↔ (In ends (keys acc.drafts) ⊎ Exists (Joins ends) xs)
  unfolding draft_modules
  draft_modules-keys [] acc ends =
      (λ h. inl h, λ h. elim h [ inl m ↦ m | inr (_, m, _) ↦ elim m [ ] ])
  draft_modules-keys (x ∷ xs) acc ends =
      let from = get components x.id in
      let first = draft_module-keys x from acc ends refl in
      let rest = draft_modules-keys xs (draft_module components x from acc) ends in
      let split = Exists-cons (Joins ends) x xs in
      (
        λ h. elim (rest.0 h) [
          | inl m ↦ elim (first.0 m) [ inl k ↦ inl k | inr k ↦ inr (split.1 (inl k)) ]
          | inr k ↦ inr (split.1 (inr k))
        ],
        λ h. elim h [
          | inl m ↦ rest.1 (inl (first.1 (inl m)))
          | inr k ↦ elim (split.0 k) [
            | inl j ↦ rest.1 (inl (first.1 (inr j)))
            | inr j ↦ rest.1 (inr j)
          ]
        ],
      )

  draft_dependencies-IsIncreasing :
      (from : String) (ds : List Dependency) (acc : Drafts)
      → IsIncreasing (keys acc.drafts)
      → IsIncreasing (keys (draft_dependencies components from ds acc).drafts)
  unfolding draft_dependencies draft_dependency
  draft_dependencies-IsIncreasing from [] acc h = h
  draft_dependencies-IsIncreasing from (d ∷ ds) acc h =
      draft_dependencies-IsIncreasing from ds
        (draft_dependency from d (get components d.module_id) acc)
        (one (get components d.module_id))
    where
      one : (to : Option String) → IsIncreasing (keys (draft_dependency from d to acc).drafts)
      one none = h
      one (some to) = elim (Bool-cases (from == to)) [
        | inl e ↦ rw e h
        | inr e ↦
            rw (e, keys-upsert (from, to) no_draft (add_to_draft d) acc.drafts)
              (insert-IsIncreasing (from, to) (keys acc.drafts) h)
      ]

  draft_modules-IsIncreasing :
      (xs : List Module) (acc : Drafts)
      → IsIncreasing (keys acc.drafts)
      → IsIncreasing (keys (draft_modules components xs acc).drafts)
  unfolding draft_modules draft_module
  draft_modules-IsIncreasing [] acc h = h
  draft_modules-IsIncreasing (x ∷ xs) acc h =
      draft_modules-IsIncreasing xs (draft_module components x (get components x.id) acc)
        (one (get components x.id))
    where
      one : (from : Option String) → IsIncreasing (keys (draft_module components x from acc).drafts)
      one none = h
      one (some from) = draft_dependencies-IsIncreasing from x.dependencies _ h

abbrev pub edge_ends : ComponentEdge → Ends
edge_ends e = (e.from, e.to)

finish_edges-keys :
    (owners : TreeMap String String) (drafts : TreeMap Ends EdgeDraft)
    (incident : TreeMap String IncidentMetrics)
    → map edge_ends (finish_edges owners drafts incident).0 ≡ keys drafts
unfolding finish_edges
finish_edges-keys owners [] incident = refl
finish_edges-keys owners ((ends, draft) ∷ drafts) incident =
    ap (λ ks. ends ∷ ks)
      (finish_edges-keys owners drafts (apply_edge (edge_of owners (ends, draft)) incident))

abbrev edge_cmp : ComponentEdge → ComponentEdge → Ordering
edge_cmp l r = pair_ord.cmp (l.from, l.to) (r.from, r.to)

IsSorted-of_IsIncreasing :
    (edges : List ComponentEdge) → IsIncreasing (map edge_ends edges) → IsSorted edge_cmp edges
IsSorted-of_IsIncreasing [] h = tt
IsSorted-of_IsIncreasing (e ∷ edges) (h, k) = (below edges h, IsSorted-of_IsIncreasing edges k)
  where
    below :
        (edges : List ComponentEdge)
        → All (λ ends. pair_ord.cmp (edge_ends e) ends ≡ Ordering.lt) (map edge_ends edges)
        → All (λ f. le_by edge_cmp e f ≡ true) edges
    below [] h = tt
    below (f ∷ edges) (h, k) = (rw (h, le_by) refl, below edges k)

-- For any map from modules to components, the edges are listed once, in increasing order, and lead
-- from a component to another exactly when a module of the manifest that is in the first has a
-- dependency on a module that is in the second.
pub build_component_edges-ends :
    (m : Manifest) (components owners : TreeMap String String)
    → let edges = (build_component_edges m components owners).0 in
      IsIncreasing (map edge_ends edges)
      × ((ends : Ends) → In ends (map edge_ends edges) ↔ Exists (Joins components ends) m.modules)
unfolding build_component_edges
build_component_edges-ends m components owners =
    let acc = draft_modules components m.modules nothing_drafted in
    let edges = (finish_edges owners acc.drafts acc.incident).0 in
    let same = finish_edges-keys owners acc.drafts acc.incident in
    let increasing = draft_modules-IsIncreasing components m.modules nothing_drafted tt in
    let found = draft_modules-keys components m.modules nothing_drafted in
    rw (sort_by_self edge_cmp edges (IsSorted-of_IsIncreasing edges (rw same increasing)), same)
      (
        increasing,
        λ ends. (
          λ h. elim ((found ends).0 h) [ inl n ↦ elim n [ ] | inr x ↦ x ],
          λ x. (found ends).1 (inr x),
        ),
      )
