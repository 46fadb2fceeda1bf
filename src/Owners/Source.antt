-- ===== src/Owners/Source.antt =====
-- crates/chromifer-owners/src/lib.rs: `Resolver::resolve_source`. Its loop goes through the
-- directories of a source, the nearest first.
pub mod Inherits
pub mod Laws
pub mod Primary
use chromifer.Base.{
  ℕ, String, Bool, true, false, not, ◌&&◌, List, [], ◌∷◌, ◌++◌, Option, none, some, ◌==◌, string_eq,
  string_ord, pair_ord, if◌then◌else◌, map, is_empty,
}
use chromifer.Base.Results.{Result, ok, err, ◌>>=◌}
use chromifer.Base.Sets.{insert, extend}
use chromifer.Manifest.Data.{SourceOwnership, OwnershipInclude}
use chromifer.Manifest.Path.{Component, normal, components}
use chromifer.Owners.Data.{RepoPath, path_string, OwnershipError, invalid_source_path}
use chromifer.Owners.Include.{Files, parent_path}
use chromifer.Owners.Resolve.{Resolver, Run, LayerOwnership, evaluate_owner_file}

-- The components of a normalized source are all normal.
abbrev pub normal_parts : List Component → RepoPath
normal_parts [] = []
normal_parts (normal s ∷ rest) = s ∷ normal_parts rest
normal_parts (_ ∷ rest) = normal_parts rest

-- A directory and those above it, the root at last
unfoldable pub ancestors : RepoPath → List RepoPath
ancestors [] = [] ∷ []
ancestors (x ∷ rest) = map (λ d. x ∷ d) (ancestors rest) ++ ([] ∷ [])

-- `path.strip_prefix(directory)`
unfoldable pub strip_directory : RepoPath → (directory : RepoPath) → Option RepoPath
strip_directory path [] = some path
strip_directory [] (d ∷ directory) = none
strip_directory (x ∷ path) (d ∷ directory) =
    let rest = strip_directory path directory in if x == d then rest else none

-- The variables of the loop
pub record Found : Type 0 where
  pub primary_owners : List String
  pub effective_owners : List String
  pub owner_files : List String
  pub unresolved_includes : List (String × String)
  pub inheritance_stopped_at : Option String
  pub found_primary : Bool

abbrev pub nothing_found : Found
nothing_found = record {
  primary_owners = [];
  effective_owners = [];
  owner_files = [];
  unresolved_includes = [];
  inheritance_stopped_at = none;
  found_primary = false;
}

abbrev pub is_first : Found → LayerOwnership → Bool
is_first f layer = not f.found_primary && not (is_empty layer.owners)

unfoldable pub add_layer : (owner_file : RepoPath) → Found → LayerOwnership → Found
unfolding extend path_string
add_layer owner_file f layer = record {
  primary_owners =
      if is_first f layer then extend f.primary_owners layer.owners else f.primary_owners;
  effective_owners = extend f.effective_owners layer.owners;
  owner_files = extend f.owner_files layer.owner_files;
  unresolved_includes = extend f.unresolved_includes layer.unresolved_includes;
  inheritance_stopped_at =
      if layer.stop_inheritance then some (path_string owner_file) else f.inheritance_stopped_at;
  found_primary = if is_first f layer then true else f.found_primary;
}

abbrev pub scoped_text : (source : String) → Option RepoPath → Result OwnershipError String
scoped_text source none = err (invalid_source_path "OWNERS resolution" source)
scoped_text source (some path) = ok (path_string path)

abbrev pub owner_file_in : (directory : RepoPath) → RepoPath
owner_file_in directory = directory ++ "OWNERS" ∷ []

unfoldable pub walk_up :
    Files
    → (fuel : ℕ) (source : String) (relative : RepoPath) → Found
    → Resolver
    → List RepoPath
    → Run Found
unfolding strip_directory evaluate_owner_file add_layer path_string
walk_up fs fuel source relative f st [] = ok (f, st)
walk_up fs fuel source relative f st (directory ∷ rest) =
    if fs.is_file (owner_file_in directory)
    then (scoped_text source (strip_directory relative directory) >>= λ scoped.
        evaluate_owner_file fs fuel st (owner_file_in directory) scoped >>= λ (layer, st).
        if layer.stop_inheritance
        then ok (add_layer (owner_file_in directory) f layer, st)
        else walk_up fs fuel source relative (add_layer (owner_file_in directory) f layer) st rest)
    else walk_up fs fuel source relative f st rest

abbrev pub include_record : String × String → OwnershipInclude
include_record (owner_file, include) = record { owner_file = owner_file; include = include }

abbrev pub source_record : (source : String) → Found → SourceOwnership
source_record source f = record {
  source = source;
  primary_owners = f.primary_owners;
  effective_owners = f.effective_owners;
  owner_files = f.owner_files;
  unresolved_includes = map include_record f.unresolved_includes;
  inheritance_stopped_at = f.inheritance_stopped_at;
}

abbrev pub recorded : (source : String) → Found × Resolver → Run SourceOwnership
recorded source (f, st) = ok (source_record source f, st)

unfoldable pub resolve_source :
    Files → (fuel : ℕ) → Resolver → (source : String) → Run SourceOwnership
unfolding walk_up ancestors components
resolve_source fs fuel st source =
    let relative = normal_parts (components source) in
    walk_up fs fuel source relative nothing_found st (ancestors (parent_path relative))
    >>= recorded source
