-- ===== src/Components/Tests.antt =====
-- Runs of the analysis, and the theorems at a concrete group.
use chromifer.Base.{
  inl, inr, arith, All, ◌≤◌, ◌≡◌, ◌↔◌, ◌+◌, min, refl, true, [], ◌∷◌, none, In, map, string_ord,
  pair_ord, String, Exists,
}
use chromifer.Base.Sort.{Pairwise, sort_by}
use chromifer.Base.Results.{ok, err}
use chromifer.Base.Sets.{TreeMap, IsIncreasing}
use chromifer.Base.Text.{as_bytes, all_codes}
use chromifer.Components.Groups.{build_groups}
use chromifer.Components.Groups.Laws.{IsGrouping, build_groups-IsGrouping}
use chromifer.Components.Ids.{sanitize_id, fnv1a_32, assign_component_ids}
use chromifer.Components.Ids.Laws.{is_id_code, begins_with_lower, sanitize_id-IsId}
use chromifer.Components.Edges.{build_component_edges}
use chromifer.Components.Edges.Laws.{Ends, edge_ends, Joins, build_component_edges-ends}
use chromifer.Components.Edges.Order.{boundary_ord}
use chromifer.Components.Analysis.{analyze_components, analyze_components_with_coverage}
use chromifer.Components.Analysis.Laws.{IsAnalysis, analyze_components_with_coverage-IsAnalysis}
use chromifer.Manifest.Data.{Module, Manifest, bridged, find_gate}
use chromifer.Manifest.Tests.{part, with_modules, on}
use chromifer.Components.Data.{
  zero_path_depth, ComponentAnalysis, GroupDraft, IncidentMetrics, ComponentSummary,
  RankedCandidate, deferred_runtime,
}
use chromifer.Components.Risk.{migration_scope, test_coverage_proxy}
use chromifer.Components.Pairs.{CoversRequired, test_coverage_proxy-full_iff}
use chromifer.Components.Summary.{summarize_component}
use chromifer.Components.Ranking.{rank_components}
use chromifer.Components.Ranking.Order.{
  AreRanked, Outranks, IsOpen, IsCandidateOf, rank_components-IsSorted, In-rank_components,
}
use chromifer.Components.Bounds.{sum_of_parts, summarize_component-readiness}
use chromifer.Components.Eligibility.{IsEligible, summarize_component-eligible_iff}

abbrev net : Module
net = record (part "net" bridged []) { sources = "net/a.cc" ∷ [] }

abbrev manifest : Manifest
manifest = with_modules (net ∷ [])

abbrev group : GroupDraft
group = record { path = "net"; owner = "o"; modules = net ∷ [] }

abbrev incident : IncidentMetrics
incident = record {
  incoming_components = "ui" ∷ [];
  outgoing_components = [];
  unaudited_external_edges = 0;
  audited_external_edges = 1;
  rust_external_edges = 0;
  unresolved_reviews = 0;
  evidence_items = 0;
  external_owner_edges = 0;
}

abbrev summary : ComponentSummary
summary = summarize_component manifest group "net" incident none

-- One for the source file, one for the neighbour, two for the audited edge, and five for the scope
net-readiness : summary.readiness_score ≡ 91
unfolding summarize_component find_gate
net-readiness = refl

net-eligible : summary.eligible ≡ true
unfolding summarize_component find_gate
net-eligible = refl

blink-deferred : migration_scope "third_party/blink/renderer" ≡ deferred_runtime
unfolding migration_scope
blink-deferred = refl

summarize_component-readiness_example :
    (summary.risk.total ≡ min (sum_of_parts summary.risk) 100)
    × (summary.readiness_score + summary.risk.total ≡ 100)
summarize_component-readiness_example =
    summarize_component-readiness manifest group "net" incident none

summarize_component-eligible_iff_example : (summary.eligible ≡ true) ↔ IsEligible summary
summarize_component-eligible_iff_example =
    summarize_component-eligible_iff manifest group "net" incident none

rank_components-IsSorted_example :
    Pairwise Outranks (rank_components (summary ∷ []))
    × AreRanked 0 (rank_components (summary ∷ []))
rank_components-IsSorted_example = rank_components-IsSorted (summary ∷ [])

In-rank_components_example :
    ((c : RankedCandidate)
      → In c (rank_components (summary ∷ []))
      → (s : ComponentSummary) × In s (summary ∷ []) × IsOpen s.states × IsCandidateOf s c)
    × ((s : ComponentSummary)
        → In s (summary ∷ [])
        → IsOpen s.states
        → (c : RankedCandidate) × In c (rank_components (summary ∷ [])) × IsCandidateOf s c)
In-rank_components_example = In-rank_components (summary ∷ [])

test_coverage_proxy-full_iff_example :
    ((test_coverage_proxy manifest (net ∷ [])).covered_module_target_pairs
      ≤ (test_coverage_proxy manifest (net ∷ [])).total_module_target_pairs)
    × (((test_coverage_proxy manifest (net ∷ [])).total_module_target_pairs
          ≤ (test_coverage_proxy manifest (net ∷ [])).covered_module_target_pairs)
        ↔ All (CoversRequired manifest) (net ∷ []))
test_coverage_proxy-full_iff_example = test_coverage_proxy-full_iff manifest (net ∷ [])

abbrev ui : Module
ui = record (part "ui" bridged []) { path = "//ui/views"; dependencies = on "net" ∷ [] }

abbrev two : Manifest
two = with_modules (net ∷ ui ∷ [])

sanitize_run : sanitize_id "9 Ü//Net.Cc_" ≡ "component_9_net_cc"
unfolding sanitize_id
sanitize_run = refl

hash_run : fnv1a_32 (as_bytes "a") ≡ 0xe40c292c
unfolding fnv1a_32 as_bytes
hash_run = refl

groups_run :
    build_groups two 1
    ≡ record { path = "p"; owner = "o"; modules = net ∷ [] }
      ∷ record { path = "ui"; owner = "o"; modules = ui ∷ [] }
      ∷ []
unfolding build_groups sort_by
groups_run = refl

-- The id with a hash is not looked up among those in use.
ids_run :
    assign_component_ids (
      record { path = "o_a_b_03ac792e"; owner = "a"; modules = [] }
      ∷ record { path = "a-b"; owner = "o"; modules = [] }
      ∷ record { path = "a_b"; owner = "o"; modules = [] }
      ∷ [])
    ≡ "o_a_b_03ac792e" ∷ "o_a_b" ∷ "o_a_b_03ac792e" ∷ []
unfolding assign_component_ids
ids_run = refl

zero_depth_run : analyze_components two (record { path_depth = 0 }) ≡ err zero_path_depth
unfolding analyze_components
zero_depth_run = refl

build_groups-IsGrouping_example : IsGrouping two 1 (build_groups two 1)
build_groups-IsGrouping_example = build_groups-IsGrouping two 1

sanitize_id-IsId_example :
    (all_codes is_id_code (sanitize_id "9 Net") ≡ true)
    × (begins_with_lower (sanitize_id "9 Net") ≡ true)
sanitize_id-IsId_example = sanitize_id-IsId "9 Net"

abbrev component_of : TreeMap String String
component_of = ("net", "p") ∷ ("ui", "ui") ∷ []

build_component_edges-ends_example :
    IsIncreasing (map edge_ends (build_component_edges two component_of component_of).0)
    × ((ends : Ends)
        → In ends (map edge_ends (build_component_edges two component_of component_of).0)
          ↔ Exists (Joins component_of ends) two.modules)
build_component_edges-ends_example = build_component_edges-ends two component_of component_of

analyze_components_with_coverage-IsAnalysis_example :
    (a : ComponentAnalysis) × (analyze_components_with_coverage two (record { path_depth = 2 }) none
      ≡ ok a)
    × IsAnalysis two a
analyze_components_with_coverage-IsAnalysis_example =
    analyze_components_with_coverage-IsAnalysis two (record { path_depth = 2 }) none
      (λ m. elim m [ inl e ↦ cc e | inr n ↦ elim n [ ] ], (λ n. elim n [ ], tt))
      (λ e. absurd (omega arith))
