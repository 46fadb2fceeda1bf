-- ===== src/Owners/Scan/Fuel.antt =====
-- A fuel of one more than the files of the tree is enough for a scan.
use chromifer.Base.{
  ℕ, ◌<◌, String, ◌≡◌, ◌≢◌, true, List, [], ◌∷◌, Option, none, some, In, length, is_empty,
}
use chromifer.Base.Results.{err}
use chromifer.Manifest.Data.{Manifest, Module}
use chromifer.Manifest.Errors.{Validation, valid, invalid}
use chromifer.Manifest.Path.{normalize_repo_relative_path}
use chromifer.Manifest.Validate.{validate}
use chromifer.Owners.Data.{RepoPath, no_fuel}
use chromifer.Owners.Include.{Files}
use chromifer.Owners.Resolve.Fuel.{IsDone, IsDone-bind, IsDone-if, IsDone-neq}
use chromifer.Owners.Source.{resolve_source}
use chromifer.Owners.Source.Primary.{resolve_source-IsDone}
use chromifer.Owners.Scan.{
  Progress, no_progress, OwnershipScanOutput, normalized_source, count_source, scan_sources,
  scan_module, scan_modules, checked_output, scan_ownership,
}

normalized_source-IsDone :
    (module_id source : String) (o : Option String) → IsDone (normalized_source module_id source o)
normalized_source-IsDone module_id source none = tt
normalized_source-IsDone module_id source (some relative) = tt

checked_output-IsDone :
    (v : Validation) (output : OwnershipScanOutput) → IsDone (checked_output v output)
checked_output-IsDone valid output = tt
checked_output-IsDone (invalid errors) output = tt

module _ (fs : Files) (known : List RepoPath)
    (all_known : (p : RepoPath) → fs.is_file p ≡ true → In p known) (fuel : ℕ)
    (enough : length known < fuel) where
  scan_sources-IsDone :
      (module_id : String) (p : Progress) (raws : List String)
      → IsDone (scan_sources fs fuel module_id p raws)
  unfolding scan_sources
  scan_sources-IsDone module_id p [] = tt
  scan_sources-IsDone module_id p (raw ∷ raws) =
      IsDone-bind (normalized_source module_id raw (normalize_repo_relative_path raw)) _
        (normalized_source-IsDone module_id raw _)
        (λ relative.
          IsDone-bind (resolve_source fs fuel p.resolver relative) _
            (resolve_source-IsDone fs known all_known fuel p.resolver relative enough)
            (λ (s, st).
              IsDone-bind (scan_sources fs fuel module_id (count_source p s st) raws) _
                (scan_sources-IsDone module_id (count_source p s st) raws) (λ found. tt)))

  scan_module-IsDone : (p : Progress) (x : Module) → IsDone (scan_module fs fuel p x)
  unfolding scan_module
  scan_module-IsDone p x = IsDone-if (is_empty x.sources) _ _ tt (
      IsDone-bind (scan_sources fs fuel x.id p x.sources) _ (scan_sources-IsDone x.id p x.sources)
        (λ found. tt))

  scan_modules-IsDone : (p : Progress) (xs : List Module) → IsDone (scan_modules fs fuel p xs)
  unfolding scan_modules
  scan_modules-IsDone p [] = tt
  scan_modules-IsDone p (x ∷ xs) =
      IsDone-bind (scan_module fs fuel p x) _ (scan_module-IsDone p x)
        (λ (y, p). IsDone-bind (scan_modules fs fuel p xs) _ (scan_modules-IsDone p xs) (λ ys. tt))

  -- If all files of the tree are in a list, a scan with more fuel than the list is long does not
  -- run out of fuel, whatever the files include.
  pub scan_ownership-total : (m : Manifest) → scan_ownership fs fuel m ≢ err no_fuel
  unfolding scan_ownership
  scan_ownership-total m = IsDone-neq _ (
      IsDone-bind (scan_modules fs fuel no_progress m.modules) _
        (scan_modules-IsDone no_progress m.modules)
        (λ (ys, p). checked_output-IsDone (validate (record m { modules = ys })) _))
