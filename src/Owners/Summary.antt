-- ===== src/Owners/Summary.antt =====
-- crates/chromifer-owners/src/lib.rs: `summarize_module_ownership`.
pub mod Laws
use chromifer.Base.{
  String, Bool, true, false, not, List, [], ◌∷◌, ◌++◌, Option, none, some, string_ord, pair_ord,
  list_ord, if◌then◌else◌, map, is_empty, filter, length, ltb,
}
use chromifer.Base.Sets.{insert, extend, member}
use chromifer.Manifest.Data.{SourceOwnership, ModuleOwnership, OwnershipInclude}
use chromifer.Owners.Source.{include_record}

-- The variables of the loop
pub record Summed : Type 0 where
  pub primary_owners : List String
  pub effective_owners : List String
  pub owner_files : List String
  pub unresolved_includes : List (String × String)
  pub unresolved_sources : List String
  pub distinct_primary : List (List String)
  pub common : Option (List String)

abbrev pub nothing_summed : Summed
nothing_summed = record {
  primary_owners = [];
  effective_owners = [];
  owner_files = [];
  unresolved_includes = [];
  unresolved_sources = [];
  distinct_primary = [];
  common = none;
}

-- `common`, for a source with effective owners; `current` is a set.
abbrev pub meet : Option (List String) → (current : List String) → List String
meet none current = current
meet (some previous) current = filter (member current) previous

abbrev pub include_pair : OwnershipInclude → String × String
include_pair i = (i.owner_file, i.include)

unfoldable pub add_source_ownership : Summed → SourceOwnership → Summed
unfolding insert extend member
add_source_ownership acc s = record {
  primary_owners = extend acc.primary_owners s.primary_owners;
  effective_owners = extend acc.effective_owners s.effective_owners;
  owner_files = extend acc.owner_files s.owner_files;
  unresolved_includes = extend acc.unresolved_includes (map include_pair s.unresolved_includes);
  unresolved_sources =
      if is_empty s.effective_owners
      then acc.unresolved_sources ++ s.source ∷ []
      else acc.unresolved_sources;
  distinct_primary = insert s.primary_owners acc.distinct_primary;
  common =
      if is_empty s.effective_owners
      then acc.common
      else some (meet acc.common (extend [] s.effective_owners));
}

unfoldable pub sum_sources : Summed → List SourceOwnership → Summed
unfolding add_source_ownership
sum_sources acc [] = acc
sum_sources acc (s ∷ sources) = sum_sources (add_source_ownership acc s) sources

-- `common.unwrap_or_default()`
abbrev pub common_of : Option (List String) → List String
common_of none = []
common_of (some owners) = owners

unfoldable pub summarize_module_ownership : List SourceOwnership → ModuleOwnership
unfolding sum_sources
summarize_module_ownership sources =
    let acc = sum_sources nothing_summed sources in
    record {
      primary_owners = acc.primary_owners;
      effective_owners = acc.effective_owners;
      common_effective_owners = common_of acc.common;
      owner_files = acc.owner_files;
      unresolved_sources = acc.unresolved_sources;
      unresolved_includes = map include_record acc.unresolved_includes;
      split_ownership = ltb 1 (length acc.distinct_primary);
      sources = sources;
    }
