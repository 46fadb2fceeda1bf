-- ===== src/Owners/Resolve.antt =====
-- crates/chromifer-owners/src/lib.rs: `Resolver`, whose state every operation takes and returns. The
-- recursion through included files takes fuel.
pub mod Fuel
pub mod Direct
pub mod Cache
pub mod Names
pub mod Exact
use chromifer.Base.{
  ℕ, zero, suc, String, Bool, true, false, not, ◌||◌, List, [], ◌∷◌, ◌++◌, Option, none, some, ◌==◌,
  string_eq, list_eq, option_eq, if◌then◌else◌, any, filter, map, is_empty, contains, string_ord,
  list_ord, pair_ord, concat_map, length,
}
use chromifer.Base.Results.{Result, ok, err, ◌>>=◌}
use chromifer.Base.Sets.{TreeMap, get, put, insert, extend}
use chromifer.Base.Text.{join, split}
use chromifer.Owners.Data.{
  RepoPath, path_string, Directive, owner, include_file, no_parent, PerFileRule, ParsedOwners,
  OwnershipError, invalid_source_path, read_owners, include_cycle, no_fuel,
}
use chromifer.Owners.Glob.{glob_matches}
use chromifer.Owners.Parse.{parse_owners}
use chromifer.Owners.Include.{Files, parent_path, resolve_include, is_external_include}

pub record LayerOwnership : Type 0 where
  pub owners : List String
  pub owner_files : List String
  pub unresolved_includes : List (String × String)
  pub stop_inheritance : Bool

abbrev pub no_layer : LayerOwnership
no_layer = record {
  owners = [];
  owner_files = [];
  unresolved_includes = [];
  stop_inheritance = false;
}

pub record Resolver : Type 0 where
  pub parsed : TreeMap RepoPath ParsedOwners
  pub files_read : List RepoPath

abbrev pub fresh : Resolver
fresh = record { parsed = []; files_read = [] }

-- A step on the resolver, which may fail
abbrev pub Run : Type 0 → Type 0
Run A = Result OwnershipError (A × Resolver)

-- `self.parsed.insert` and `self.files_read.insert`
abbrev pub remember : Resolver → RepoPath → ParsedOwners → ParsedOwners × Resolver
remember st path p =
    (p, record { parsed = put path p st.parsed; files_read = insert path st.files_read })

abbrev pub parse_read : Files → Resolver → RepoPath → Option String → Run ParsedOwners
parse_read fs st path none = err (read_owners (fs.full_text path))
parse_read fs st path (some content) = parse_owners path content >>= λ p. ok (remember st path p)

abbrev pub parse_cached : Files → Resolver → RepoPath → Option ParsedOwners → Run ParsedOwners
parse_cached fs st path (some p) = ok (p, st)
parse_cached fs st path none = parse_read fs st path (fs.read path)

unfoldable pub parse_file : Files → Resolver → RepoPath → Run ParsedOwners
unfolding get put insert parse_owners
parse_file fs st path = parse_cached fs st path (get st.parsed path)

-- What an included file adds
abbrev pub include_layer : LayerOwnership → RepoPath → LayerOwnership → LayerOwnership
include_layer result included nested = record result {
  owners = extend result.owners nested.owners;
  owner_files = insert (path_string included) (extend result.owner_files nested.owner_files);
  unresolved_includes = extend result.unresolved_includes nested.unresolved_includes;
}

-- The files of `stack` from the first that equals `path`
unfoldable pub stack_from : RepoPath → List RepoPath → List RepoPath
stack_from path [] = []
stack_from path (x ∷ stack) = if x == path then x ∷ stack else stack_from path stack

unfoldable pub cycle_error : List RepoPath → RepoPath → OwnershipError
unfolding stack_from join path_string
cycle_error stack path =
    include_cycle (join " -> " (map path_string (stack_from path stack ++ path ∷ [])))

-- `resolve_directives` on an included file, with the stack that it is called with
abbrev pub Nested : Type 0
Nested = Resolver → RepoPath → List Directive → List RepoPath → Run LayerOwnership

abbrev pub enter_include :
    Files → Nested → Resolver → List RepoPath → LayerOwnership → RepoPath → Run LayerOwnership
enter_include fs nested st stack result included =
    if contains stack included
    then err (cycle_error stack included)
    else (parse_file fs st included >>= λ (p, st).
        nested st included p.global (stack ++ included ∷ []) >>= λ (layer, st).
        ok (include_layer result included layer, st))

-- The body of the loop, for one directive
unfoldable pub resolve_directive :
    Files
    → Nested
    → RepoPath
    → List RepoPath
    → LayerOwnership
    → Resolver
    → Directive
    → Run LayerOwnership
unfolding parse_file is_external_include resolve_include cycle_error path_string insert extend
resolve_directive fs nested owner_file stack result st (owner o) =
    ok (record result { owners = insert o result.owners }, st)
resolve_directive fs nested owner_file stack result st (include_file include) =
    if is_external_include include
    then ok (
      record result {
        unresolved_includes = insert (path_string owner_file, include) result.unresolved_includes;
      },
      st,
    )
    else (resolve_include fs owner_file include >>= enter_include fs nested st stack result)
resolve_directive fs nested owner_file stack result st no_parent = ok (result, st)

unfoldable pub resolve_all :
    Files
    → Nested
    → RepoPath
    → List RepoPath
    → LayerOwnership
    → Resolver
    → List Directive
    → Run LayerOwnership
unfolding resolve_directive
resolve_all fs nested owner_file stack result st [] = ok (result, st)
resolve_all fs nested owner_file stack result st (d ∷ ds) =
    resolve_directive fs nested owner_file stack result st d >>= λ (result, st).
    resolve_all fs nested owner_file stack result st ds

unfoldable pub resolve_directives : Files → ℕ → Nested
unfolding resolve_all
resolve_directives fs zero st owner_file ds stack = err no_fuel
resolve_directives fs (suc fuel) st owner_file ds stack =
    resolve_all fs (resolve_directives fs fuel) owner_file stack no_layer st ds

abbrev pub is_no_parent : Directive → Bool
is_no_parent no_parent = true
is_no_parent _ = false

abbrev pub matched_directives : ParsedOwners → String → List Directive
matched_directives p scoped_source =
    map (λ (r : PerFileRule). r.directive)
      (filter (λ (r : PerFileRule). glob_matches r.pattern_text scoped_source) p.per_file)

abbrev pub selected_directives : ParsedOwners → List Directive → List Directive
selected_directives p matched =
    (if any is_no_parent matched then [] else p.global)
    ++ filter (λ d. not (is_no_parent d)) matched

abbrev pub finish_layer : ParsedOwners → List Directive → RepoPath → LayerOwnership → LayerOwnership
finish_layer p matched path layer = record layer {
  stop_inheritance = p.global_noparent || any is_no_parent matched;
  owner_files = insert (path_string path) layer.owner_files;
}

unfoldable pub evaluate_owner_file : Files → ℕ → Resolver → RepoPath → String → Run LayerOwnership
unfolding parse_file resolve_directives glob_matches
evaluate_owner_file fs fuel st path scoped_source = parse_file fs st path >>= λ (p, st).
    let matched = matched_directives p scoped_source in
    resolve_directives fs fuel st path (selected_directives p matched) (path ∷ [])
    >>= λ (layer, st). ok (finish_layer p matched path layer, st)
