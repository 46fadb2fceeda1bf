-- ===== src/Components/Analysis/Laws.antt =====
-- What an analysis reports of a manifest.
use mathlib.Core.List.Perm
use mathlib.Core.List.{Perm}
use chromifer.Base.{
  ℕ, suc, String, ◌≡◌, ◌≢◌, refl, sym, ap, ◌∙◌, List, [], ◌∷◌, ◌++◌, Option, map, concat_map,
  length, string_ord, pair_ord, eqb, eqb_iff, Bool-cases, inl, inr, arith, In, Exists, ◌↔◌, All,
  All-In, All-of_In, NoRepeat, Ordering, true, false, some,
}
use chromifer.Base.Results.{ok}
use chromifer.Base.Sets.{TreeMap, get, insert, IsIncreasing}
use chromifer.Base.Sort.{
  sort_by-IsSorted, IsComparison-on, concat_map-sort_by, In-sort_by, Pairwise, IsSorted-Pairwise,
}
use chromifer.Manifest.Data.{Manifest, Module, Dependency, ids_of_modules}
use chromifer.Coverage.Data.{CoverageReport}
use chromifer.Components.Data.{
  AnalysisOptions, ComponentAnalysis, ComponentSummary, GroupDraft, IncidentMetrics,
}
use chromifer.Components.Summary.{summarize_component}
use chromifer.Components.Groups.{build_groups}
use chromifer.Components.Groups.Laws.{build_groups-IsGrouping}
use chromifer.Components.Ids.{group_id, assign_ids, assign_component_ids}
use chromifer.Components.Ranking.{rank_components}
use chromifer.Components.Ids.Forms.{IsIdOf, group_id-IsIdOf}
use chromifer.Components.Analysis.Members.{ids_of_group, Holds, map_modules_to_components_iff}
use chromifer.Base.Repeats.{NoRepeat-Perm}
use chromifer.Components.Edges.{map_modules_to_components}
use chromifer.Components.Edges.Laws.{Ends, edge_ends, Joins, build_component_edges-ends}
use chromifer.Components.Analysis.{
  summarize_groups, sorted_components, component_owners, analysis_of,
  analyze_components_with_coverage,
}

pub length-assign_ids :
    (counts : TreeMap String ℕ) (used : List String) (groups : List GroupDraft)
    → length (assign_ids counts used groups) ≡ length groups
unfolding assign_ids
length-assign_ids counts used [] = refl
length-assign_ids counts used (g ∷ groups) =
    ap suc (length-assign_ids counts (insert (group_id counts used g) used) groups)

summarize_component-modules :
    (m : Manifest) (g : GroupDraft) (id : String) (i : IncidentMetrics) (c : Option CoverageReport)
    → (summarize_component m g id i c).modules ≡ ids_of_group g
unfolding summarize_component
summarize_component-modules m g id i c = refl

summarize_groups-modules :
    (m : Manifest) (incident : TreeMap String IncidentMetrics) (coverage : Option CoverageReport)
    (groups : List GroupDraft) (ids : List String)
    → length ids ≡ length groups
    → concat_map
        (λ (s : ComponentSummary). s.modules)
        (summarize_groups m incident coverage groups ids)
      ≡ concat_map ids_of_group groups
unfolding summarize_groups
summarize_groups-modules m incident coverage [] [] h = refl
summarize_groups-modules m incident coverage [] (id ∷ ids) h = absurd (omega arith)
summarize_groups-modules m incident coverage (g ∷ groups) [] h = absurd (omega arith)
summarize_groups-modules m incident coverage (g ∷ groups) (id ∷ ids) h =
    rw (summarize_component-modules m g id) (
      ap (λ xs. ids_of_group g ++ xs)
        (summarize_groups-modules m incident coverage groups ids (omega arith)))

map-append :
    (xs ys : List Module) → ids_of_modules (xs ++ ys) ≡ ids_of_modules xs ++ ids_of_modules ys
map-append [] ys = refl
map-append (x ∷ xs) ys = ap (λ ids. x.id ∷ ids) (map-append xs ys)

concat_map-ids :
    (groups : List GroupDraft)
    → concat_map ids_of_group groups
      ≡ ids_of_modules (concat_map (λ (g : GroupDraft). g.modules) groups)
concat_map-ids [] = refl
concat_map-ids (g ∷ groups) =
    ap (λ ids. ids_of_group g ++ ids) (concat_map-ids groups) ∙ sym (map-append g.modules _)

-- A module of the component with the first id has a dependency on a module of the component with the
-- second, which is another one.
abbrev pub Connects : List ComponentSummary → Ends → Module → Type 0
Connects components ends x =
    Holds components x.id ends.0
    × Exists (λ (d : Dependency). Holds components d.module_id ends.1 × (ends.0 ≢ ends.1))
        x.dependencies

-- The components hold the ids of all modules, each as often as the manifest does, sorted by id; each
-- id is made from owner and path, and the edges are increasing and join ids as the dependencies do.
pub record IsAnalysis (m : Manifest) (a : ComponentAnalysis) : Type 0 where
  pub modules :
      Perm
        (concat_map (λ (s : ComponentSummary). s.modules) a.components)
        (ids_of_modules m.modules)
  pub sorted : Pairwise (λ l r. string_ord.cmp l.id r.id ≢ Ordering.gt) a.components
  pub identified : All (λ (s : ComponentSummary). IsIdOf s.owner s.path s.id) a.components
  pub module_count : a.module_count ≡ length m.modules
  pub ranking : a.ranking ≡ rank_components a.components
  pub component_count : a.component_count ≡ length a.components
  pub increasing : IsIncreasing (map edge_ends a.edges)
  pub edges :
      (ends : Ends)
      → In ends (map edge_ends a.edges) ↔ Exists (Connects a.components ends) m.modules

summarize_groups-IsIdOf :
    (m : Manifest) (incident : TreeMap String IncidentMetrics) (coverage : Option CoverageReport)
    (counts : TreeMap String ℕ) (used : List String) (groups : List GroupDraft)
    → All
        (λ (s : ComponentSummary). IsIdOf s.owner s.path s.id)
        (summarize_groups m incident coverage groups (assign_ids counts used groups))
unfolding summarize_groups assign_ids summarize_component
summarize_groups-IsIdOf m incident coverage counts used [] = tt
summarize_groups-IsIdOf m incident coverage counts used (g ∷ groups) = (
  group_id-IsIdOf counts used g,
  summarize_groups-IsIdOf m incident coverage counts (insert (group_id counts used g) used) groups,
)

groups-NoRepeat :
    (m : Manifest) (path_depth : ℕ)
    → NoRepeat (ids_of_modules m.modules)
    → NoRepeat (concat_map ids_of_group (build_groups m path_depth))
groups-NoRepeat m path_depth h =
    NoRepeat-Perm (ids_of_modules m.modules) _
      (Perm.symm (
        rw (concat_map-ids (build_groups m path_depth))
          (Perm.map (λ (x : Module). x.id) (build_groups-IsGrouping m path_depth).modules)))
      h

-- Sorting does not change which modules the components hold.
Holds-sorted :
    (components : List ComponentSummary) (k c : String)
    → Holds components k c ↔ Holds (sorted_components components) k c
Holds-sorted components k c =
    let same = λ (s : ComponentSummary).
      In-sort_by (λ (l r : ComponentSummary). string_ord.cmp l.id r.id) s components in
    (λ (s, i, h). (s, (same s).1 i, h), λ (s, i, h). (s, (same s).0 i, h))

module _ (components : TreeMap String String) (summaries : List ComponentSummary)
    (held : (k c : String) → (get components k ≡ some c) ↔ Holds summaries k c) where
  Joins-Connects :
      (xs : List Module) (ends : Ends)
      → Exists (Joins components ends) xs ↔ Exists (Connects summaries ends) xs
  Joins-Connects xs ends = (
    λ (x, i, (from, (d, j, (to, differ)))).
        (x, i, ((held x.id ends.0).0 from, (d, j, ((held d.module_id ends.1).0 to, differ)))),
    λ (x, i, (from, (d, j, (to, differ)))).
        (x, i, ((held x.id ends.0).1 from, (d, j, ((held d.module_id ends.1).1 to, differ)))),
  )

analysis_of-IsAnalysis :
    (m : Manifest) (path_depth : ℕ) (coverage : Option CoverageReport)
    → NoRepeat (ids_of_modules m.modules)
    → IsAnalysis m (analysis_of m path_depth coverage)
unfolding analysis_of assign_component_ids
analysis_of-IsAnalysis m path_depth coverage h =
    let groups = build_groups m path_depth in
    let ids = assign_component_ids groups in
    let found =
      build_component_edges-ends m (map_modules_to_components groups ids)
        (component_owners groups ids) in
    let by_id = λ (l r : ComponentSummary). string_ord.cmp l.id r.id in
    record {
      modules =
          Perm.trans
            (concat_map-sort_by by_id (λ s. s.modules) (summarize_groups m _ coverage groups ids))
            (rw
              (
                summarize_groups-modules m _ coverage groups ids (length-assign_ids _ [] groups),
                concat_map-ids groups,
              )
              (Perm.map (λ (x : Module). x.id) (build_groups-IsGrouping m path_depth).modules));
      sorted =
          IsSorted-Pairwise by_id _ (λ l r h. not-gt (by_id l r) h) _
            (sort_by-IsSorted by_id (IsComparison-on (λ (s : ComponentSummary). s.id))
              (summarize_groups m _ coverage groups ids));
      identified = All-of_In _ _ (λ s i.
          All-In _ (summarize_groups m _ coverage groups ids) s
            (summarize_groups-IsIdOf m _ coverage _ [] groups) ((In-sort_by by_id s _).0 i));
      module_count = refl;
      ranking = refl;
      component_count = refl;
      increasing = found.0;
      edges = λ ends.
          let joined = found.1 ends in
          let connected =
            Joins-Connects (map_modules_to_components groups ids) _
              (λ k c.
                let held =
                  map_modules_to_components_iff m _ coverage groups ids k c
                    (groups-NoRepeat m path_depth h) in
                let sorted = Holds-sorted (summarize_groups m _ coverage groups ids) k c in
                (λ e. sorted.0 (held.0 e), λ v. held.1 (sorted.1 v)))
              m.modules ends in
          (λ i. connected.0 (joined.0 i), λ v. joined.1 (connected.1 v));
    }
  where
    not-gt : (o : Ordering) → (elim o [ Ordering.gt ↦ false | _ ↦ true ]) ≡ true → o ≢ Ordering.gt
    not-gt Ordering.gt h e = absurd cc
    not-gt Ordering.lt h e = absurd cc
    not-gt Ordering.eq h e = absurd cc

-- For modules with distinct ids and a path depth other than 0 the analysis gives a result. Its
-- components are sorted by id and list between them the ids of the modules of the manifest, each
-- as often as the manifest does, and are as many as it says; the id of a component is its
-- sanitized path, or owner and path, possibly with a suffix. The edges are listed once, in
-- increasing order, and two different ids have an edge exactly when a module that a component with
-- the first id lists has a dependency on one that a component with the second lists.
pub analyze_components_with_coverage-IsAnalysis :
    (m : Manifest) (options : AnalysisOptions) (coverage : Option CoverageReport)
    → NoRepeat (ids_of_modules m.modules)
    → options.path_depth ≢ 0
    → (a : ComponentAnalysis) × (analyze_components_with_coverage m options coverage ≡ ok a)
      × IsAnalysis m a
unfolding analyze_components_with_coverage
analyze_components_with_coverage-IsAnalysis m options coverage once h =
    elim (Bool-cases (eqb options.path_depth 0)) [
      | inl e ↦ absurd (h ((eqb_iff options.path_depth 0).0 e))
      | inr e ↦ (
        analysis_of m options.path_depth coverage,
        rw e refl,
        analysis_of-IsAnalysis m options.path_depth coverage once,
      )
    ]
