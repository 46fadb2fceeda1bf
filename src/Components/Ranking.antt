-- ===== src/Components/Ranking.antt =====
-- crates/chromifer-components/src/lib.rs: the ranking of `analyze_components_with_coverage`.
pub mod Order
use chromifer.Base.{
  ℕ, suc, Bool, true, false, not, List, [], ◌∷◌, compare, Ordering, cmp_then, string_ord, filter,
  map, length,
}
use chromifer.Base.Sort.{sort_by}
use chromifer.Components.Data.{ComponentSummary, RankedCandidate, is_fully_rust_owned}

abbrev pub candidate : ComponentSummary → RankedCandidate
candidate s = record {
  rank = 0;
  component = s.id;
  path = s.path;
  owner = s.owner;
  scope = s.scope;
  readiness_score = s.readiness_score;
  risk_score = s.risk.total;
  eligible = s.eligible;
  source_files = s.source_files;
  module_count = length s.modules;
  concerns = s.concerns;
}

-- `bool::cmp`
abbrev pub bool_number : Bool → ℕ
bool_number false = 0
bool_number true = 1

pub ranking_cmp : RankedCandidate → RankedCandidate → Ordering
ranking_cmp left right =
    cmp_then (compare (bool_number right.eligible) (bool_number left.eligible)) (
      cmp_then (compare right.readiness_score left.readiness_score) (
        cmp_then (compare left.risk_score right.risk_score) (
          cmp_then (compare left.source_files right.source_files)
            (string_ord.cmp left.component right.component))))

-- `candidate.rank = index + 1`, for the candidates from an index on
unfoldable pub number_from : ℕ → List RankedCandidate → List RankedCandidate
number_from index [] = []
number_from index (c ∷ rest) = record c { rank = suc index } ∷ number_from (suc index) rest

unfoldable pub rank_components : List ComponentSummary → List RankedCandidate
unfolding ranking_cmp number_from sort_by is_fully_rust_owned
rank_components components = number_from 0 (
    sort_by ranking_cmp
      (map candidate (filter (λ s. not (is_fully_rust_owned s.states)) components)))
