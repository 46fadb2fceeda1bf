-- ===== src/Owners/Resolve/Direct.antt =====
-- What `Resolver` computes, without its state: each file is parsed again where it is named.
use chromifer.Base.{
  ℕ, zero, suc, String, List, [], ◌∷◌, ◌++◌, Option, none, some, string_eq, list_eq, if◌then◌else◌,
  contains, string_ord, pair_ord,
}
use chromifer.Base.Results.{Result, ok, err, ◌>>=◌}
use chromifer.Base.Sets.{insert}
use chromifer.Owners.Data.{
  RepoPath, path_string, Directive, owner, include_file, no_parent, ParsedOwners, OwnershipError,
  read_owners, no_fuel,
}
use chromifer.Owners.Parse.{parse_owners}
use chromifer.Owners.Include.{Files, resolve_include, is_external_include}
use chromifer.Owners.Resolve.{
  LayerOwnership, no_layer, include_layer, cycle_error, matched_directives, selected_directives,
  finish_layer,
}

abbrev pub Direct : Type 0 → Type 0
Direct A = Result OwnershipError A

abbrev pub parsed_content : Files → RepoPath → Option String → Direct ParsedOwners
parsed_content fs path none = err (read_owners (fs.full_text path))
parsed_content fs path (some content) = parse_owners path content

abbrev pub parsed_file : Files → RepoPath → Direct ParsedOwners
parsed_file fs path = parsed_content fs path (fs.read path)

abbrev pub DirectNested : Type 0
DirectNested = RepoPath → List Directive → List RepoPath → Direct LayerOwnership

abbrev pub direct_include :
    Files → DirectNested → List RepoPath → LayerOwnership → RepoPath → Direct LayerOwnership
direct_include fs nested stack result included =
    if contains stack included
    then err (cycle_error stack included)
    else (parsed_file fs included >>= λ p.
        nested included p.global (stack ++ included ∷ []) >>= λ layer.
        ok (include_layer result included layer))

abbrev pub direct_directive :
    Files
    → DirectNested
    → RepoPath
    → List RepoPath
    → LayerOwnership
    → Directive
    → Direct LayerOwnership
direct_directive fs nested owner_file stack result (owner o) =
    ok (record result { owners = insert o result.owners })
direct_directive fs nested owner_file stack result (include_file include) =
    if is_external_include include
    then ok (record result {
      unresolved_includes = insert (path_string owner_file, include) result.unresolved_includes;
    })
    else (resolve_include fs owner_file include >>= direct_include fs nested stack result)
direct_directive fs nested owner_file stack result no_parent = ok result

abbrev pub direct_all :
    Files
    → DirectNested
    → RepoPath
    → List RepoPath
    → LayerOwnership
    → List Directive
    → Direct LayerOwnership
direct_all fs nested owner_file stack result [] = ok result
direct_all fs nested owner_file stack result (d ∷ ds) =
    direct_directive fs nested owner_file stack result d >>= λ result.
    direct_all fs nested owner_file stack result ds

unfoldable pub direct_directives : Files → ℕ → DirectNested
unfolding parse_owners resolve_include is_external_include cycle_error path_string insert
direct_directives fs zero owner_file ds stack = err no_fuel
direct_directives fs (suc fuel) owner_file ds stack =
    direct_all fs (direct_directives fs fuel) owner_file stack no_layer ds

-- The specification of `evaluate_owner_file`
unfoldable pub direct_layer : Files → ℕ → RepoPath → String → Direct LayerOwnership
unfolding direct_directives
direct_layer fs fuel path scoped_source = parsed_file fs path >>= λ p.
    let matched = matched_directives p scoped_source in
    direct_directives fs fuel path (selected_directives p matched) (path ∷ []) >>= λ layer.
    ok (finish_layer p matched path layer)
