-- ===== src/Components/Edges.antt =====
-- crates/chromifer-components/src/lib.rs: `map_modules_to_components` and `build_component_edges`, with
-- the counts of `usize` as natural numbers.
pub mod Order
pub mod Laws
use chromifer.Base.{
  ℕ, suc, ◌+◌, String, Bool, true, false, not, List, [], ◌∷◌, Option, none, some, ◌==◌, string_eq,
  option_eq, if◌then◌else◌, filter, length, map, string_ord, pair_ord, Ord,
}
use chromifer.Base.Sets.{TreeMap, get, put, upsert, insert}
use chromifer.Base.Sort.{sort_by}
use chromifer.Manifest.Data.{
  Manifest, Module, Dependency, Boundary, BoundaryReview, unclassified, cpp_internal, cxx, c_abi,
  mojo, rust,
}
use chromifer.Components.Data.{GroupDraft, IncidentMetrics, ComponentEdge, EdgeDraft}
use chromifer.Components.Edges.Order.{boundary_ord}

-- The entries of a group's modules
abbrev pub map_group :
    (component : String) → List Module → TreeMap String String → TreeMap String String
map_group component [] found = found
map_group component (x ∷ modules) found = map_group component modules (put x.id component found)

unfoldable pub map_modules_onto :
    TreeMap String String → List GroupDraft → (ids : List String) → TreeMap String String
unfolding put
map_modules_onto found (g ∷ groups) (id ∷ ids) =
    map_modules_onto (map_group id g.modules found) groups ids
map_modules_onto found _ _ = found

unfoldable pub map_modules_to_components :
    List GroupDraft → (ids : List String) → TreeMap String String
unfolding map_modules_onto
map_modules_to_components = map_modules_onto []

abbrev pub no_metrics : IncidentMetrics
no_metrics = record {
  incoming_components = [];
  outgoing_components = [];
  unaudited_external_edges = 0;
  audited_external_edges = 0;
  rust_external_edges = 0;
  unresolved_reviews = 0;
  evidence_items = 0;
  external_owner_edges = 0;
}

abbrev pub no_draft : EdgeDraft
no_draft = record { module_edges = 0; boundaries = []; evidence_items = 0; unresolved_reviews = 0 }

abbrev pub unresolved_count : List BoundaryReview → ℕ
unresolved_count reviews = length (filter (λ (r : BoundaryReview). not r.resolved) reviews)

-- The two maps of the loop
pub record Drafts : Type 0 where
  pub drafts : TreeMap (String × String) EdgeDraft
  pub incident : TreeMap String IncidentMetrics

abbrev pub nothing_drafted : Drafts
nothing_drafted = record { drafts = []; incident = [] }

abbrev pub add_local : Dependency → IncidentMetrics → IncidentMetrics
add_local d metrics = record metrics {
  unresolved_reviews = metrics.unresolved_reviews + unresolved_count d.reviews;
  evidence_items = metrics.evidence_items + length d.evidence;
}

unfoldable pub add_to_draft : Dependency → EdgeDraft → EdgeDraft
unfolding insert
add_to_draft d draft = record {
  module_edges = suc draft.module_edges;
  boundaries = insert d.boundary draft.boundaries;
  evidence_items = draft.evidence_items + length d.evidence;
  unresolved_reviews = draft.unresolved_reviews + unresolved_count d.reviews;
}

-- The body of the loop over the dependencies, on the component of the target
unfoldable pub draft_dependency : (from : String) → Dependency → Option String → Drafts → Drafts
unfolding upsert add_to_draft
draft_dependency from d none acc = acc
draft_dependency from d (some to) acc =
    if from == to
    then record acc { incident = upsert from no_metrics (add_local d) acc.incident }
    else record acc { drafts = upsert (from, to) no_draft (add_to_draft d) acc.drafts }

unfoldable pub draft_dependencies :
    (components : TreeMap String String) (from : String) → List Dependency → Drafts → Drafts
unfolding draft_dependency get
draft_dependencies components from [] acc = acc
draft_dependencies components from (d ∷ ds) acc =
    draft_dependencies components from ds (draft_dependency from d (get components d.module_id) acc)

abbrev pub add_reviews : Module → IncidentMetrics → IncidentMetrics
add_reviews x metrics = record metrics {
  unresolved_reviews = metrics.unresolved_reviews + unresolved_count x.reviews;
}

-- The body of the loop over the modules, on the component of the module
unfoldable pub draft_module :
    (components : TreeMap String String) → Module → Option String → Drafts → Drafts
unfolding upsert draft_dependencies
draft_module components x none acc = acc
draft_module components x (some from) acc =
    draft_dependencies components from x.dependencies
      (record acc { incident = upsert from no_metrics (add_reviews x) acc.incident })

unfoldable pub draft_modules : (components : TreeMap String String) → List Module → Drafts → Drafts
unfolding draft_module get
draft_modules components [] acc = acc
draft_modules components (x ∷ xs) acc =
    draft_modules components xs (draft_module components x (get components x.id) acc)

abbrev pub count_boundary : IncidentMetrics → Boundary → IncidentMetrics
count_boundary metrics unclassified = record metrics {
  unaudited_external_edges = suc metrics.unaudited_external_edges;
}
count_boundary metrics cpp_internal = record metrics {
  unaudited_external_edges = suc metrics.unaudited_external_edges;
}
count_boundary metrics cxx = record metrics {
  audited_external_edges = suc metrics.audited_external_edges;
}
count_boundary metrics c_abi = record metrics {
  audited_external_edges = suc metrics.audited_external_edges;
}
count_boundary metrics mojo = record metrics {
  audited_external_edges = suc metrics.audited_external_edges;
}
count_boundary metrics rust = record metrics {
  rust_external_edges = suc metrics.rust_external_edges;
}

abbrev pub count_boundaries : IncidentMetrics → List Boundary → IncidentMetrics
count_boundaries metrics [] = metrics
count_boundaries metrics (b ∷ bs) = count_boundaries (count_boundary metrics b) bs

abbrev pub add_neighbour : ComponentEdge → (outgoing : Bool) → IncidentMetrics → IncidentMetrics
add_neighbour edge true metrics = record metrics {
  outgoing_components = insert edge.to metrics.outgoing_components;
}
add_neighbour edge false metrics = record metrics {
  incoming_components = insert edge.from metrics.incoming_components;
}

abbrev pub add_counts : ComponentEdge → IncidentMetrics → IncidentMetrics
add_counts edge metrics = record metrics {
  unresolved_reviews = metrics.unresolved_reviews + edge.unresolved_reviews;
  evidence_items = metrics.evidence_items + edge.evidence_items;
  external_owner_edges =
      if edge.crosses_owner then suc metrics.external_owner_edges else metrics.external_owner_edges;
}

unfoldable pub apply_incident_edge :
    IncidentMetrics → ComponentEdge → (outgoing : Bool) → IncidentMetrics
unfolding insert
apply_incident_edge metrics edge outgoing =
    add_counts edge (count_boundaries (add_neighbour edge outgoing metrics) edge.boundaries)

abbrev pub edge_of :
    (owners : TreeMap String String) → (String × String) × EdgeDraft → ComponentEdge
edge_of owners ((from, to), draft) = record {
  from = from;
  to = to;
  module_edges = draft.module_edges;
  boundaries = draft.boundaries;
  evidence_items = draft.evidence_items;
  unresolved_reviews = draft.unresolved_reviews;
  crosses_owner = not (get owners from == get owners to);
}

abbrev pub apply_edge :
    ComponentEdge → TreeMap String IncidentMetrics → TreeMap String IncidentMetrics
apply_edge edge incident =
    upsert edge.to no_metrics (λ metrics. apply_incident_edge metrics edge false)
      (upsert edge.from no_metrics (λ metrics. apply_incident_edge metrics edge true) incident)

-- The loop over the drafts
unfoldable pub finish_edges :
    (owners : TreeMap String String)
    → TreeMap (String × String) EdgeDraft
    → TreeMap String IncidentMetrics
    → List ComponentEdge × TreeMap String IncidentMetrics
unfolding get upsert apply_incident_edge
finish_edges owners [] incident = ([], incident)
finish_edges owners (d ∷ drafts) incident =
    let (edges, incident) = finish_edges owners drafts (apply_edge (edge_of owners d) incident) in
    (edge_of owners d ∷ edges, incident)

abbrev pub sorted_edges : List ComponentEdge → List ComponentEdge
sorted_edges = sort_by (λ (l r : ComponentEdge). pair_ord.cmp (l.from, l.to) (r.from, r.to))

unfoldable pub build_component_edges :
    Manifest
    → (components owners : TreeMap String String)
    → List ComponentEdge × TreeMap String IncidentMetrics
unfolding draft_modules finish_edges
build_component_edges m components owners =
    let acc = draft_modules components m.modules nothing_drafted in
    let (edges, incident) = finish_edges owners acc.drafts acc.incident in
    (sorted_edges edges, incident)
