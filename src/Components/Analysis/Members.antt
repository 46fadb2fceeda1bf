-- ===== src/Components/Analysis/Members.antt =====
-- Which component a module is in: the map of `map_modules_to_components`, and the components that are
-- reported.
use chromifer.Base.{
  String, ◌≡◌, ◌⊎◌, ◌↔◌, refl, sym, ap, ◌∙◌, subst, inl, inr, List, [], ◌∷◌, Option, some,
  concat_map, string_ord, In, In-append, Exists, Exists-cons, NoRepeat, Bool-cases,
}
use chromifer.Base.Repeats.{NoRepeat-append}
use chromifer.Base.Sets.{TreeMap, get, put, get-put, same, same_iff}
use chromifer.Manifest.Data.{Manifest, Module, ids_of_modules}
use chromifer.Coverage.Data.{CoverageReport}
use chromifer.Components.Data.{ComponentSummary, GroupDraft, IncidentMetrics}
use chromifer.Components.Summary.{summarize_component}
use chromifer.Components.Edges.{map_group, map_modules_onto, map_modules_to_components}
use chromifer.Components.Analysis.{summarize_groups}

abbrev pub ids_of_group : GroupDraft → List String
ids_of_group g = ids_of_modules g.modules

-- A component with the id lists the module.
abbrev pub Lists : (module_id id : String) → ComponentSummary → Type 0
Lists module_id id s = (s.id ≡ id) × In module_id s.modules

-- The module is in a component with the id.
abbrev pub Holds : List ComponentSummary → (module_id id : String) → Type 0
Holds components module_id id = Exists (Lists module_id id) components

get-put-same : (k : String) (v : String) (m : TreeMap String String) → get (put k v m) k ≡ some v
get-put-same k v m = rw (get-put k k v m, (same_iff k k).1 refl) refl

map_group-listed :
    (c : String) (xs : List Module) (found : TreeMap String String) (k : String)
    → get found k ≡ some c
    → get (map_group c xs found) k ≡ some c
map_group-listed c [] found k h = h
map_group-listed c (x ∷ xs) found k h = map_group-listed c xs (put x.id c found) k (
    rw (get-put x.id k c found)
      (elim (Bool-cases (same k x.id)) [ inl e ↦ rw e refl | inr e ↦ rw e h ]))

map_group-In :
    (c : String) (xs : List Module) (found : TreeMap String String) (k : String)
    → In k (ids_of_modules xs)
    → get (map_group c xs found) k ≡ some c
map_group-In c [] found k m = elim m [ ]
map_group-In c (x ∷ xs) found k m = elim m [
  | inl e ↦
      map_group-listed c xs (put x.id c found) k
        (subst (λ j. get (put x.id c found) j ≡ some c) (sym e) (get-put-same x.id c found))
  | inr r ↦ map_group-In c xs (put x.id c found) k r
]

map_group-cases :
    (c d : String) (xs : List Module) (found : TreeMap String String) (k : String)
    → get (map_group c xs found) k ≡ some d
    → (In k (ids_of_modules xs) × (c ≡ d)) ⊎ (get found k ≡ some d)
map_group-cases c d [] found k h = inr h
map_group-cases c d (x ∷ xs) found k h = elim (map_group-cases c d xs (put x.id c found) k h) [
  | inl (m, e) ↦ inl (inr m, e)
  | inr g ↦ elim (Bool-cases (same k x.id)) [
    | inl e ↦
        let first : some c ≡ some d = rw (get-put x.id k c found, e) at g in
        inl (inl ((same_iff k x.id).0 e), cc first)
    | inr e ↦ inr (rw (get-put x.id k c found, e) at g)
  ]
]

map_group-apart :
    (c : String) (xs : List Module) (found : TreeMap String String) (k d : String)
    → (¬ In k (ids_of_modules xs))
    → get found k ≡ some d
    → get (map_group c xs found) k ≡ some d
map_group-apart c [] found k d n h = h
map_group-apart c (x ∷ xs) found k d n h =
    map_group-apart c xs (put x.id c found) k d (λ i. n (inr i))
      (rw (get-put x.id k c found) (elim (Bool-cases (same k x.id)) [
        | inl e ↦ absurd (n (inl ((same_iff k x.id).0 e)))
        | inr e ↦ rw e h
      ]))

module _ (m : Manifest) (incident : TreeMap String IncidentMetrics)
    (coverage : Option CoverageReport) where
  -- An entry of the map is a module of a component.
  map_modules_onto-Holds :
      (found : TreeMap String String) (groups : List GroupDraft) (ids : List String) (k c : String)
      → get (map_modules_onto found groups ids) k ≡ some c
      → Holds (summarize_groups m incident coverage groups ids) k c ⊎ (get found k ≡ some c)
  unfolding map_modules_onto summarize_groups summarize_component
  map_modules_onto-Holds found [] ids k c h = inr h
  map_modules_onto-Holds found (g ∷ groups) [] k c h = inr h
  map_modules_onto-Holds found (g ∷ groups) (id ∷ ids) k c h =
      let split = Exists-cons (Lists k c) _ (summarize_groups m incident coverage groups ids) in
      elim (map_modules_onto-Holds (map_group id g.modules found) groups ids k c h) [
        | inl v ↦ inl (split.1 (inr v))
        | inr e ↦ elim (map_group-cases id c g.modules found k e) [
          | inl (i, same) ↦ inl (split.1 (inl (same, i)))
          | inr f ↦ inr f
        ]
      ]

  map_modules_onto-other :
      (found : TreeMap String String) (groups : List GroupDraft) (ids : List String) (k c : String)
      → (¬ In k (concat_map ids_of_group groups))
      → get found k ≡ some c
      → get (map_modules_onto found groups ids) k ≡ some c
  unfolding map_modules_onto
  map_modules_onto-other found [] ids k c h e = e
  map_modules_onto-other found (g ∷ groups) [] k c h e = e
  map_modules_onto-other found (g ∷ groups) (id ∷ ids) k c h e =
      let parts = In-append k (ids_of_group g) (concat_map ids_of_group groups) in
      map_modules_onto-other (map_group id g.modules found) groups ids k c
        (λ i. h (parts.1 (inr i)))
        (map_group-apart id g.modules found k c (λ i. h (parts.1 (inl i))) e)

  map_modules_onto-of_Holds :
      (found : TreeMap String String) (groups : List GroupDraft) (ids : List String) (k c : String)
      → NoRepeat (concat_map ids_of_group groups)
      → Holds (summarize_groups m incident coverage groups ids) k c
      → get (map_modules_onto found groups ids) k ≡ some c
  unfolding map_modules_onto summarize_groups summarize_component
  map_modules_onto-of_Holds found [] ids k c h (s, i, v) = elim i [ ]
  map_modules_onto-of_Holds found (g ∷ groups) [] k c h (s, i, v) = elim i [ ]
  map_modules_onto-of_Holds found (g ∷ groups) (id ∷ ids) k c h v =
      let (apart, later) = NoRepeat-append (ids_of_group g) (concat_map ids_of_group groups) h in
      let split = Exists-cons (Lists k c) _ (summarize_groups m incident coverage groups ids) in
      let next = map_group id g.modules found in
      elim (split.0 v) [
        | inl (e, i) ↦
            map_modules_onto-other next groups ids k c (apart k i)
              (map_group-In id g.modules found k i ∙ ap some e)
        | inr w ↦ map_modules_onto-of_Holds next groups ids k c later w
      ]

  -- The map says which component a module is in.
  pub map_modules_to_components_iff :
      (groups : List GroupDraft) (ids : List String) (k c : String)
      → NoRepeat (concat_map ids_of_group groups)
      → (get (map_modules_to_components groups ids) k ≡ some c)
        ↔ Holds (summarize_groups m incident coverage groups ids) k c
  unfolding map_modules_to_components
  map_modules_to_components_iff groups ids k c h = (
    λ e. elim (map_modules_onto-Holds [] groups ids k c e) [ inl v ↦ v | inr f ↦ absurd (empty f) ],
    map_modules_onto-of_Holds [] groups ids k c h,
  )
    where
      empty : get {K = String} {V = String} [] k ≡ some c → ⊥
      empty f = unfold get in absurd cc
