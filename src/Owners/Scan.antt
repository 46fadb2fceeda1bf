-- ===== src/Owners/Scan.antt =====
-- crates/chromifer-owners/src/lib.rs: `scan_ownership`, for a root that is a directory.
pub mod Spec
pub mod Laws
pub mod Fuel
use chromifer.Base.{
  ℕ, suc, ◌+◌, String, List, [], ◌∷◌, Option, none, some, string_ord, pair_ord, if◌then◌else◌, map,
  is_empty, length,
}
use chromifer.Base.Results.{Result, ok, err, ◌>>=◌}
use chromifer.Base.Sets.{extend}
use chromifer.Base.Sort.{sort_by}
use chromifer.Manifest.Data.{Manifest, Module, SourceOwnership, ModuleOwnership}
use chromifer.Manifest.Errors.{Validation, valid, invalid}
use chromifer.Manifest.Path.{normalize_repo_relative_path}
use chromifer.Manifest.Validate.{validate}
use chromifer.Owners.Data.{OwnershipError, invalid_source_path, manifest_validation}
use chromifer.Owners.Include.{Files}
use chromifer.Owners.Resolve.{Resolver, fresh}
use chromifer.Owners.Source.{resolve_source}
use chromifer.Owners.Summary.{include_pair, summarize_module_ownership}

-- The variables of the loops
pub record Progress : Type 0 where
  pub resolver : Resolver
  pub scanned_sources : ℕ
  pub resolved_sources : ℕ
  pub unresolved_sources : ℕ
  pub split_ownership_modules : ℕ
  pub modules_without_sources : ℕ
  pub unresolved_includes : List (String × String)

abbrev pub no_progress : Progress
no_progress = record {
  resolver = fresh;
  scanned_sources = 0;
  resolved_sources = 0;
  unresolved_sources = 0;
  split_ownership_modules = 0;
  modules_without_sources = 0;
  unresolved_includes = [];
}

pub record OwnershipScanSummary : Type 0 where
  pub scanned_modules : ℕ
  pub scanned_sources : ℕ
  pub owner_files_read : ℕ
  pub resolved_sources : ℕ
  pub unresolved_sources : ℕ
  pub unresolved_includes : ℕ
  pub split_ownership_modules : ℕ
  pub modules_without_sources : ℕ

pub record OwnershipScanOutput : Type 0 where
  pub manifest : Manifest
  pub summary : OwnershipScanSummary

abbrev pub normalized_source :
    (module_id source : String) → Option String → Result OwnershipError String
normalized_source module_id source none = err (invalid_source_path module_id source)
normalized_source module_id source (some relative) = ok relative

abbrev pub count_source : Progress → SourceOwnership → Resolver → Progress
count_source p s st = record p {
  resolver = st;
  scanned_sources = suc p.scanned_sources;
  resolved_sources =
      if is_empty s.effective_owners then p.resolved_sources else suc p.resolved_sources;
  unresolved_sources =
      if is_empty s.effective_owners then suc p.unresolved_sources else p.unresolved_sources;
}

unfoldable pub scan_sources :
    Files
    → (fuel : ℕ) (module_id : String) → Progress
    → List String
    → Result OwnershipError (List SourceOwnership × Progress)
unfolding resolve_source
scan_sources fs fuel module_id p [] = ok ([], p)
scan_sources fs fuel module_id p (source ∷ rest) =
    normalized_source module_id source (normalize_repo_relative_path source) >>= λ relative.
    resolve_source fs fuel p.resolver relative >>= λ (s, st).
    scan_sources fs fuel module_id (count_source p s st) rest >>= λ (found, p). ok (s ∷ found, p)

abbrev pub count_module : Progress → ModuleOwnership → Progress
count_module p o = record p {
  unresolved_includes = extend p.unresolved_includes (map include_pair o.unresolved_includes);
  split_ownership_modules =
      if o.split_ownership then suc p.split_ownership_modules else p.split_ownership_modules;
}

abbrev pub sorted_sources : List SourceOwnership → List SourceOwnership
sorted_sources = sort_by (λ (l r : SourceOwnership). string_ord.cmp l.source r.source)

unfoldable pub scan_module :
    Files → (fuel : ℕ) → Progress → Module → Result OwnershipError (Module × Progress)
unfolding scan_sources summarize_module_ownership
scan_module fs fuel p x =
    if is_empty x.sources
    then ok (
      record x { ownership = none },
      record p { modules_without_sources = suc p.modules_without_sources },
    )
    else (scan_sources fs fuel x.id p x.sources >>= λ (found, p).
        let o = summarize_module_ownership (sorted_sources found) in
        ok (record x { ownership = some o }, count_module p o))

unfoldable pub scan_modules :
    Files → (fuel : ℕ) → Progress → List Module → Result OwnershipError (List Module × Progress)
unfolding scan_module
scan_modules fs fuel p [] = ok ([], p)
scan_modules fs fuel p (x ∷ rest) = scan_module fs fuel p x >>= λ (x, p).
    scan_modules fs fuel p rest >>= λ (modules, p). ok (x ∷ modules, p)

abbrev pub scan_summary : (scanned_modules : ℕ) → Progress → OwnershipScanSummary
scan_summary scanned_modules p = record {
  scanned_modules = scanned_modules;
  scanned_sources = p.scanned_sources;
  owner_files_read = length p.resolver.files_read;
  resolved_sources = p.resolved_sources;
  unresolved_sources = p.unresolved_sources;
  unresolved_includes = length p.unresolved_includes;
  split_ownership_modules = p.split_ownership_modules;
  modules_without_sources = p.modules_without_sources;
}

abbrev pub checked_output :
    Validation → OwnershipScanOutput → Result OwnershipError OwnershipScanOutput
checked_output valid output = ok output
checked_output (invalid errors) output = err (manifest_validation errors)

unfoldable pub scan_ownership :
    Files → (fuel : ℕ) → Manifest → Result OwnershipError OwnershipScanOutput
unfolding scan_modules validate
scan_ownership fs fuel m = scan_modules fs fuel no_progress m.modules >>= λ (modules, p).
    let annotated = record m { modules = modules } in
    checked_output (validate annotated)
      (record { manifest = annotated; summary = scan_summary (length m.modules) p })
