-- ===== src/Components/Analysis.antt =====
-- crates/chromifer-components/src/lib.rs: `analyze_components_with_coverage`.
pub mod Members
pub mod Laws
use chromifer.Base.{
  ℕ, String, List, [], ◌∷◌, Option, none, some, eqb, if◌then◌else◌, length, string_ord,
}
use chromifer.Base.Results.{Result, ok, err}
use chromifer.Base.Sets.{TreeMap, get, put}
use chromifer.Base.Sort.{sort_by}
use chromifer.Manifest.Data.{Manifest}
use chromifer.Coverage.Data.{CoverageReport}
use chromifer.Components.Data.{
  AnalysisOptions, AnalysisError, zero_path_depth, ComponentAnalysis, ComponentSummary, GroupDraft,
  IncidentMetrics,
}
use chromifer.Components.Groups.{build_groups}
use chromifer.Components.Ids.{assign_component_ids}
use chromifer.Components.Edges.{map_modules_to_components, build_component_edges, no_metrics}
use chromifer.Components.Summary.{summarize_component}
use chromifer.Components.Ranking.{rank_components}

abbrev pub owners_onto :
    TreeMap String String → List GroupDraft → (ids : List String) → TreeMap String String
owners_onto owners (g ∷ groups) (id ∷ ids) = owners_onto (put id g.owner owners) groups ids
owners_onto owners _ _ = owners

unfoldable pub component_owners : List GroupDraft → (ids : List String) → TreeMap String String
unfolding put
component_owners = owners_onto []

-- `incident.get(id).cloned().unwrap_or_default()`
abbrev pub metrics_or : Option IncidentMetrics → IncidentMetrics
metrics_or none = no_metrics
metrics_or (some metrics) = metrics

unfoldable pub summarize_groups :
    Manifest
    → TreeMap String IncidentMetrics
    → Option CoverageReport
    → List GroupDraft
    → (ids : List String) → List ComponentSummary
unfolding summarize_component get
summarize_groups m incident coverage (g ∷ groups) (id ∷ ids) =
    summarize_component m g id (metrics_or (get incident id)) coverage
    ∷ summarize_groups m incident coverage groups ids
summarize_groups m incident coverage _ _ = []

abbrev pub sorted_components : List ComponentSummary → List ComponentSummary
sorted_components = sort_by (λ (l r : ComponentSummary). string_ord.cmp l.id r.id)

unfoldable pub analysis_of : Manifest → (path_depth : ℕ) → Option CoverageReport → ComponentAnalysis
unfolding build_groups assign_component_ids map_modules_to_components component_owners
    build_component_edges summarize_groups rank_components
analysis_of m path_depth coverage =
    let groups = build_groups m path_depth in
    let ids = assign_component_ids groups in
    let (edges, incident) =
      build_component_edges m (map_modules_to_components groups ids)
        (component_owners groups ids) in
    let components = sorted_components (summarize_groups m incident coverage groups ids) in
    record {
      baseline = m.project.baseline;
      path_depth = path_depth;
      module_count = length m.modules;
      component_count = length components;
      components = components;
      edges = edges;
      ranking = rank_components components;
    }

unfoldable pub analyze_components_with_coverage :
    Manifest → AnalysisOptions → Option CoverageReport → Result AnalysisError ComponentAnalysis
unfolding analysis_of
analyze_components_with_coverage m options coverage =
    if eqb options.path_depth 0
    then err zero_path_depth
    else ok (analysis_of m options.path_depth coverage)

unfoldable pub analyze_components :
    Manifest → AnalysisOptions → Result AnalysisError ComponentAnalysis
unfolding analyze_components_with_coverage
analyze_components m options = analyze_components_with_coverage m options none
