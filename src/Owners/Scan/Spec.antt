-- ===== src/Owners/Scan/Spec.antt =====
-- What a scan is to find, by module and by source.
use chromifer.Base.{
  ℕ, ◌+◌, String, ◌≡◌, ◌≢◌, ◌↔◌, List, [], ◌∷◌, none, some, In, All, map, length, string_ord,
  Paired,
}
use chromifer.Manifest.Data.{Manifest, Module, SourceOwnership}
use chromifer.Manifest.Path.{normalize_repo_relative_path}
use chromifer.Manifest.Validate.Spec.{IsValid}
use chromifer.Owners.Include.{Files, parent_path}
use chromifer.Owners.Source.{ancestors}
use chromifer.Owners.Source.Inherits.{Inherits}
use chromifer.Owners.Source.Laws.{relative_path}
use chromifer.Owners.Source.Primary.{IsLeveledSource}
use chromifer.Owners.Summary.{summarize_module_ownership}
use chromifer.Owners.Scan.{OwnershipScanOutput}

-- The record of a source lists the owners that the source inherits.
pub record IsExactSource (fs : Files) (fuel : ℕ) (s : SourceOwnership) : Type 0 where
  pub level : IsLeveledSource s
  pub effective :
      (o : String)
      → In o s.effective_owners
        ↔ Inherits fs fuel
            (relative_path s.source)
            (ancestors (parent_path (relative_path s.source)))
            o

abbrev pub NormalizesTo : (raw source : String) → Type 0
NormalizesTo raw source = normalize_repo_relative_path raw ≡ some source

-- Each source has a record, under its normalized path.
abbrev pub CoversSources : List String → List SourceOwnership → Type 0
CoversSources raws found =
    (source : String)
    → In source (map (λ (s : SourceOwnership). s.source) found)
      ↔ ((raw : String) × In raw raws × (normalize_repo_relative_path raw ≡ some source))

pub record IsScanned (fs : Files) (fuel : ℕ) (x y : Module) : Type 0 where
  pub unchanged : record y { ownership = none } ≡ record x { ownership = none }
  pub without : x.sources ≡ [] → y.ownership ≡ none
  pub ownership :
      x.sources ≢ []
      → (found : List SourceOwnership) × (y.ownership ≡ some (summarize_module_ownership found))
        × All (IsExactSource fs fuel) found
        × CoversSources x.sources found

abbrev pub source_count : List Module → ℕ
source_count [] = 0
source_count (x ∷ xs) = length x.sources + source_count xs

-- A manifest that passes validation, whose modules are scanned, with the counts of the scan
pub record IsScanOf (fs : Files) (fuel : ℕ) (m : Manifest) (output : OwnershipScanOutput)
    : Type 0 where
  pub valid_manifest : IsValid output.manifest
  pub unchanged : record output.manifest { modules = m.modules } ≡ m
  pub modules : Paired (IsScanned fs fuel) m.modules output.manifest.modules
  pub scanned_modules : output.summary.scanned_modules ≡ length m.modules
  pub scanned_sources : output.summary.scanned_sources ≡ source_count m.modules
  pub balance :
      output.summary.resolved_sources + output.summary.unresolved_sources
      ≡ output.summary.scanned_sources
