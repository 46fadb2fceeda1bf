-- ===== src/Manifest/Checks/Ownership.antt =====
-- What it means that `check_ownership` pushes no error.
use chromifer.Base.{
  String, ◌≡◌, ◌↔◌, refl, false, List, [], ◌∷◌, Option, none, some, arith, All, any-eq-false,
  append-eq-nil, concat_map_iff,
}
use chromifer.Base.Text.{is_blank}
use chromifer.Manifest.Data.{ModuleOwnership, SourceOwnership, OwnershipInclude}
use chromifer.Manifest.Checks.{
  check_values, check_includes, source_values, ownership_values, blank_stop, check_source_ownership,
  check_ownership,
}
use chromifer.Manifest.Checks.Laws.{HasText, push_if-eq-nil}

-- Every value of an ownership record has text.
pub IsOwnedInclude : OwnershipInclude → Type 0
IsOwnedInclude i = HasText i.owner_file × HasText i.include

pub record IsValidSource (s : SourceOwnership) : Type 0 where
  pub source : HasText s.source
  pub primary_owners : All HasText s.primary_owners
  pub effective_owners : All HasText s.effective_owners
  pub owner_files : All HasText s.owner_files
  pub unresolved_includes : All IsOwnedInclude s.unresolved_includes
  pub inheritance_stopped_at : (p : String) → s.inheritance_stopped_at ≡ some p → HasText p

pub record IsValidOwnership (o : ModuleOwnership) : Type 0 where
  pub primary_owners : All HasText o.primary_owners
  pub effective_owners : All HasText o.effective_owners
  pub common_effective_owners : All HasText o.common_effective_owners
  pub owner_files : All HasText o.owner_files
  pub unresolved_sources : All HasText o.unresolved_sources
  pub unresolved_includes : All IsOwnedInclude o.unresolved_includes
  pub sources : All IsValidSource o.sources

check_includes-eq-nil :
    (owner field : String) (is : List OwnershipInclude)
    → (check_includes owner field is ≡ []) ↔ All IsOwnedInclude is
unfolding check_includes IsOwnedInclude
check_includes-eq-nil owner field [] = (λ h. tt, λ h. refl)
check_includes-eq-nil owner field (i ∷ is) = ground (arith, check_includes-eq-nil owner field is)

blank_stop-eq-false :
    (o : Option String) → (blank_stop o ≡ false) ↔ ((p : String) → o ≡ some p → HasText p)
unfolding blank_stop
blank_stop-eq-false none = (λ h p e. cc, λ h. refl)
blank_stop-eq-false (some q) = (λ h p e. ground arith, λ h. h q refl)

AllValues : List (String × List String) → Type 0
AllValues [] = Unit
AllValues ((field, values) ∷ rest) = All HasText values × AllValues rest

check_values-eq-nil :
    (owner : String) (fields : List (String × List String))
    → (check_values owner fields ≡ []) ↔ AllValues fields
unfolding check_values AllValues
check_values-eq-nil owner [] = (λ h. tt, λ h. refl)
check_values-eq-nil owner ((field, values) ∷ rest) =
    ground (arith, any-eq-false is_blank values, check_values-eq-nil owner rest)

check_source_ownership-eq-nil :
    (owner : String) (s : SourceOwnership) → (check_source_ownership owner s ≡ []) ↔ IsValidSource s
unfolding check_source_ownership source_values AllValues
check_source_ownership-eq-nil owner s =
    let values = check_values-eq-nil owner (source_values s) in
    let includes =
      check_includes-eq-nil owner "ownership.sources.unresolved_includes" s.unresolved_includes in
    let stop = blank_stop-eq-false s.inheritance_stopped_at in
    (
      λ h.
          let (a, rest) = (append-eq-nil _ _).0 h in
          let (b, rest') = (append-eq-nil _ _).0 rest in
          let (c, d) = (append-eq-nil _ _).0 rest' in
          let v = values.0 b in
          record {
            source = (push_if-eq-nil _ _).0 a;
            primary_owners = v.0;
            effective_owners = v.1.0;
            owner_files = v.1.1.0;
            unresolved_includes = includes.0 c;
            inheritance_stopped_at = stop.0 ((push_if-eq-nil _ _).0 d);
          },
      λ v. (append-eq-nil _ _).1 (
        (push_if-eq-nil _ _).1 v.source,
        (append-eq-nil _ _).1 (
          values.1 (v.primary_owners, (v.effective_owners, (v.owner_files, tt))),
          (append-eq-nil _ _).1 (
            includes.1 v.unresolved_includes,
            (push_if-eq-nil _ _).1 (stop.1 v.inheritance_stopped_at),
          ),
        ),
      ),
    )

pub check_ownership-eq-nil :
    (owner : String) (o : ModuleOwnership) → (check_ownership owner o ≡ []) ↔ IsValidOwnership o
unfolding check_ownership AllValues
check_ownership-eq-nil owner o =
    let values = check_values-eq-nil owner (ownership_values o) in
    let includes =
      check_includes-eq-nil owner "ownership.unresolved_includes" o.unresolved_includes in
    let sources =
      concat_map_iff (check_source_ownership owner) o.sources
        (check_source_ownership-eq-nil owner) in
    (
      λ h.
          let (a, rest) = (append-eq-nil _ _).0 h in
          let (b, c) = (append-eq-nil _ _).0 rest in
          let v = values.0 a in
          record {
            primary_owners = v.0;
            effective_owners = v.1.0;
            common_effective_owners = v.1.1.0;
            owner_files = v.1.1.1.0;
            unresolved_sources = v.1.1.1.1.0;
            unresolved_includes = includes.0 b;
            sources = sources.0 c;
          },
      λ v. (append-eq-nil _ _).1 (
        values.1 (
          v.primary_owners,
          (
            v.effective_owners,
            (v.common_effective_owners, (v.owner_files, (v.unresolved_sources, tt))),
          ),
        ),
        (append-eq-nil _ _).1 (includes.1 v.unresolved_includes, sources.1 v.sources),
      ),
    )
