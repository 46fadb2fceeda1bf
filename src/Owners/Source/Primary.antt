-- ===== src/Owners/Source/Primary.antt =====
-- The primary owners of a source against its effective ones, and the fuel of `resolve_source`.
use chromifer.Base.{
  ℕ, ◌<◌, String, ◌≡◌, refl, true, false, not, ◌&&◌, List, [], ◌∷◌, Option, none, some, In, arith,
  length, string_ord, is_empty, subst,
}
use chromifer.Base.Results.{ok, Yields, Yields-bind, Yields-any, Yields-if}
use chromifer.Base.Sets.{insert, extend, In-extend}
use chromifer.Manifest.Data.{SourceOwnership}
use chromifer.Owners.Data.{RepoPath}
use chromifer.Owners.Include.{Files, parent_path}
use chromifer.Owners.Resolve.{Resolver, LayerOwnership, evaluate_owner_file}
use chromifer.Owners.Resolve.Fuel.{IsDone, IsDone-bind, IsDone-if, evaluate_owner_file-IsDone}
use chromifer.Owners.Source.{
  ancestors, strip_directory, Found, nothing_found, add_layer, scoped_text, owner_file_in, walk_up,
  recorded, resolve_source,
}
use chromifer.Owners.Source.Laws.{relative_path}

insert-nonempty : (a : String) (xs : List String) → is_empty (insert a xs) ≡ false
unfolding insert
insert-nonempty a [] = refl
insert-nonempty a (x ∷ xs) = ground arith

-- A set is empty after `extend` exactly when it was and nothing is added.
is_empty-extend : (xs ys : List String) → is_empty (extend xs ys) ≡ (is_empty xs && is_empty ys)
unfolding extend
is_empty-extend xs [] = ground arith
is_empty-extend xs (y ∷ ys) = ground (arith, is_empty-extend (insert y xs) ys, insert-nonempty y xs)

-- The primary owners are among the effective ones, and there are some where there are effective
-- ones, which is when the flag is set.
pub record IsLeveled (f : Found) : Type 0 where
  pub within : (o : String) → In o f.primary_owners → In o f.effective_owners
  pub primary : f.found_primary ≡ not (is_empty f.primary_owners)
  pub effective : f.found_primary ≡ not (is_empty f.effective_owners)

add_layer-IsLeveled :
    (owner_file : RepoPath) (f : Found) (layer : LayerOwnership)
    → IsLeveled f
    → IsLeveled (add_layer owner_file f layer)
unfolding add_layer
add_layer-IsLeveled owner_file f layer h = record {
  within = λ o. ground (
    arith,
    h.within o,
    In-extend o f.primary_owners layer.owners,
    In-extend o f.effective_owners layer.owners,
  );
  primary = ground (arith, h.primary, is_empty-extend f.primary_owners layer.owners);
  effective = ground (arith, h.effective, is_empty-extend f.effective_owners layer.owners);
}

module _ (fs : Files) (fuel : ℕ) (source : String) (relative : RepoPath) where
  walk_up-IsLeveled :
      (f : Found) (st : Resolver) (ds : List RepoPath)
      → IsLeveled f
      → Yields (λ (f, _). IsLeveled f) (walk_up fs fuel source relative f st ds)
  unfolding walk_up
  walk_up-IsLeveled f st [] h = h
  walk_up-IsLeveled f st (d ∷ ds) h =
      Yields-if (λ (f, _). IsLeveled f) (fs.is_file (owner_file_in d)) _ _
        (Yields-bind (λ _. Unit) (λ (f, _). IsLeveled f)
          (scoped_text source (strip_directory relative d)) _ (Yields-any _)
          (λ scoped _.
            Yields-bind (λ _. Unit) (λ (f, _). IsLeveled f)
              (evaluate_owner_file fs fuel st (owner_file_in d) scoped) _ (Yields-any _)
              (λ (layer, st) _.
                let g = add_layer-IsLeveled (owner_file_in d) f layer h in
                Yields-if (λ (f, _). IsLeveled f) layer.stop_inheritance _ _ g
                  (walk_up-IsLeveled (add_layer (owner_file_in d) f layer) st ds g))))
        (walk_up-IsLeveled f st ds h)

  module _ (known : List RepoPath) (all_known : (p : RepoPath) → fs.is_file p ≡ true → In p known)
      (enough : length known < fuel) where
    scoped_text-IsDone : (o : Option RepoPath) → IsDone (scoped_text source o)
    scoped_text-IsDone none = tt
    scoped_text-IsDone (some p) = tt

    walk_up-IsDone :
        (f : Found) (st : Resolver) (ds : List RepoPath)
        → IsDone (walk_up fs fuel source relative f st ds)
    unfolding walk_up
    walk_up-IsDone f st [] = tt
    walk_up-IsDone f st (d ∷ ds) =
        IsDone-if (fs.is_file (owner_file_in d)) _ _
          (IsDone-bind (scoped_text source (strip_directory relative d)) _
            (scoped_text-IsDone (strip_directory relative d))
            (λ scoped.
              IsDone-bind (evaluate_owner_file fs fuel st (owner_file_in d) scoped) _
                (evaluate_owner_file-IsDone fs known all_known fuel st (owner_file_in d) scoped
                  enough)
                (λ (layer, st).
                  IsDone-if layer.stop_inheritance _ _ tt
                    (walk_up-IsDone (add_layer (owner_file_in d) f layer) st ds))))
          (walk_up-IsDone f st ds)

pub resolve_source-IsDone :
    (fs : Files) (known : List RepoPath)
    → ((p : RepoPath) → fs.is_file p ≡ true → In p known)
    → (fuel : ℕ) (st : Resolver) (source : String) → length known < fuel
    → IsDone (resolve_source fs fuel st source)
unfolding resolve_source
resolve_source-IsDone fs known all_known fuel st source enough =
    let path = relative_path source in
    IsDone-bind (walk_up fs fuel source path nothing_found st (ancestors (parent_path path)))
      (recorded source)
      (walk_up-IsDone fs fuel source path known all_known enough nothing_found st
        (ancestors (parent_path path)))
      (λ f. tt)

pub record IsLeveledSource (s : SourceOwnership) : Type 0 where
  pub within : (o : String) → In o s.primary_owners → In o s.effective_owners
  pub level : is_empty s.primary_owners ≡ is_empty s.effective_owners

resolve_source-IsLeveled :
    (fs : Files) (fuel : ℕ) (st : Resolver) (source : String)
    → Yields (λ (s, _). IsLeveledSource s × (s.source ≡ source)) (resolve_source fs fuel st source)
unfolding resolve_source
resolve_source-IsLeveled fs fuel st source =
    let path = relative_path source in
    Yields-bind (λ (f, _). IsLeveled f)
      (λ ((s, _) : SourceOwnership × Resolver). IsLeveledSource s × (s.source ≡ source)) _
      (recorded source)
      (walk_up-IsLeveled fs fuel source path nothing_found st (ancestors (parent_path path))
        (record { within = λ o h. h; primary = refl; effective = refl }))
      (λ (f, st) h.
        (record { within = h.within; level = ground (arith, h.primary, h.effective) }, refl))

-- If a source is resolved, its record is under its path, its primary owners are among its
-- effective owners, and it has primary owners exactly when it has effective ones.
pub resolve_source-primary :
    (fs : Files) (fuel : ℕ) (st next : Resolver) (source : String) (s : SourceOwnership)
    → resolve_source fs fuel st source ≡ ok (s, next)
    → IsLeveledSource s × (s.source ≡ source)
resolve_source-primary fs fuel st next source s e =
    subst (Yields (λ (s, _). IsLeveledSource s × (s.source ≡ source))) e
      (resolve_source-IsLeveled fs fuel st source)
