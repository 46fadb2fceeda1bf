-- ===== src/Owners/Source/Laws.antt =====
-- What the walk from a source's directory to the root collects.
use chromifer.Base.{
  ℕ, String, ◌≡◌, ◌↔◌, ◌⊎◌, inl, inr, refl, Bool, true, false, List, [], ◌∷◌, Option, none, some,
  if◌then◌else◌, In, arith, string_ord, subst,
}
use chromifer.Base.Results.{ok, err, ◌>>=◌, Yields, Yields-bind}
use chromifer.Base.Sets.{In-extend}
use chromifer.Manifest.Data.{SourceOwnership}
use chromifer.Manifest.Path.{components}
use chromifer.Owners.Data.{RepoPath, path_string}
use chromifer.Owners.Include.{Files, parent_path}
use chromifer.Owners.Resolve.{Resolver, Run, LayerOwnership, evaluate_owner_file}
use chromifer.Owners.Resolve.Cache.{IsCoherent, evaluate_owner_file-direct}
use chromifer.Owners.Source.Inherits.{IsLayerOf, Inherits, Inherits-layer, Inherits-without}
use chromifer.Owners.Source.{
  recorded, normal_parts, ancestors, strip_directory, Found, nothing_found, add_layer, scoped_text,
  owner_file_in, walk_up, resolve_source,
}

-- A condition on the value and the state of a run that gives any
abbrev pub HoldsFor : {A : Type 0} → (A → Resolver → Type 0) → Run A → Type 0
HoldsFor P = Yields (λ (a, st). P a st)

module _ (fs : Files) (fuel : ℕ) (relative : RepoPath) where
  -- What the loop adds to the variables that it starts with
  abbrev Collects : Found → List RepoPath → Found → Resolver → Type 0
  Collects f ds g st =
      IsCoherent fs st
      × ((o : String)
          → In o g.effective_owners ↔ (In o f.effective_owners ⊎ Inherits fs fuel relative ds o))

  Collects-change :
      (f g : Found) (ds es : List RepoPath) (r : Run Found)
      → ((o : String)
          → (In o f.effective_owners ⊎ Inherits fs fuel relative ds o)
            ↔ (In o g.effective_owners ⊎ Inherits fs fuel relative es o))
      → HoldsFor (Collects f ds) r
      → HoldsFor (Collects g es) r
  Collects-change f g ds es (ok (a, st)) h (c, e) =
      (c, λ o. (λ m. (h o).0 ((e o).0 m), λ m. (e o).1 ((h o).1 m)))
  Collects-change f g ds es (err x) h k = tt

  module _ (source : String) (d : RepoPath) (ds : List RepoPath) (f : Found) where
    -- The rest of the loop collects, whatever it starts with.
    abbrev Later : Type 0
    Later =
        (g : Found) (st : Resolver)
        → IsCoherent fs st
        → HoldsFor (Collects g ds) (walk_up fs fuel source relative g st ds)

    layer_case :
        (layer : LayerOwnership) (st : Resolver) (b : Bool)
        → Later
        → IsCoherent fs st
        → IsLayerOf fs fuel relative d layer
        → layer.stop_inheritance ≡ b
        → HoldsFor (Collects f (d ∷ ds)) (
            if b
            then ok (add_layer (owner_file_in d) f layer, st)
            else walk_up fs fuel source relative (add_layer (owner_file_in d) f layer) st ds)
    unfolding add_layer
    layer_case layer st true later c l e = (
      c,
      λ o. ground (
        arith,
        In-extend o f.effective_owners layer.owners,
        Inherits-layer fs fuel relative d ds o layer l,
      ),
    )
    layer_case layer st false later c l e =
        Collects-change (add_layer (owner_file_in d) f layer) f ds (d ∷ ds) _
          (λ o. ground (
            arith,
            In-extend o f.effective_owners layer.owners,
            Inherits-layer fs fuel relative d ds o layer l,
          ))
          (later (add_layer (owner_file_in d) f layer) st c)

    evaluated_case :
        (st : Resolver) (scoped : RepoPath) (r : Run LayerOwnership)
        → Later
        → IsCoherent fs st
        → fs.is_file (owner_file_in d) ≡ true
        → strip_directory relative d ≡ some scoped
        → evaluate_owner_file fs fuel st (owner_file_in d) (path_string scoped) ≡ r
        → HoldsFor (Collects f (d ∷ ds)) (
            r >>= λ (layer, st).
            if layer.stop_inheritance
            then ok (add_layer (owner_file_in d) f layer, st)
            else walk_up fs fuel source relative (add_layer (owner_file_in d) f layer) st ds)
    evaluated_case st scoped (err x) later c file strip e = tt
    evaluated_case st scoped (ok (layer, next)) later c file strip e =
        let (k, c') =
          evaluate_owner_file-direct fs fuel st next (owner_file_in d) (path_string scoped) layer c
            e in
        layer_case layer next layer.stop_inheritance later c'
          (record { scoped = scoped; is_file = file; stripped = strip; evaluated = k }) refl

    file_case :
        (st : Resolver) (o : Option RepoPath)
        → Later
        → IsCoherent fs st
        → fs.is_file (owner_file_in d) ≡ true
        → strip_directory relative d ≡ o
        → HoldsFor (Collects f (d ∷ ds)) (
            scoped_text source o >>= λ scoped.
            evaluate_owner_file fs fuel st (owner_file_in d) scoped >>= λ (layer, st).
            if layer.stop_inheritance
            then ok (add_layer (owner_file_in d) f layer, st)
            else walk_up fs fuel source relative (add_layer (owner_file_in d) f layer) st ds)
    file_case st none later c file strip = tt
    file_case st (some scoped) later c file strip =
        evaluated_case st scoped _ later c file strip refl

    directory_case :
        (st : Resolver) (b : Bool)
        → Later
        → IsCoherent fs st
        → fs.is_file (owner_file_in d) ≡ b
        → HoldsFor (Collects f (d ∷ ds)) (
            if b
            then (scoped_text source (strip_directory relative d) >>= λ scoped.
                evaluate_owner_file fs fuel st (owner_file_in d) scoped >>= λ (layer, st).
                if layer.stop_inheritance
                then ok (add_layer (owner_file_in d) f layer, st)
                else walk_up fs fuel source relative (add_layer (owner_file_in d) f layer) st ds)
            else walk_up fs fuel source relative f st ds)
    directory_case st true later c e = file_case st (strip_directory relative d) later c e refl
    directory_case st false later c e =
        Collects-change f f ds (d ∷ ds) _
          (λ o. ground (arith, Inherits-without fs fuel relative d ds o e)) (later f st c)

  walk_up-Collects :
      (source : String) (f : Found) (st : Resolver) (ds : List RepoPath)
      → IsCoherent fs st
      → HoldsFor (Collects f ds) (walk_up fs fuel source relative f st ds)
  unfolding walk_up
  walk_up-Collects source f st [] c =
      (c, λ o. (λ m. inl m, λ h. elim h [ inl m ↦ m | inr i ↦ elim i [ ] ]))
  walk_up-Collects source f st (d ∷ ds) c =
      directory_case source d ds f st (fs.is_file (owner_file_in d))
        (λ g st c. walk_up-Collects source g st ds c) c refl

abbrev pub relative_path : (source : String) → RepoPath
relative_path source = normal_parts (components source)

-- The effective owners are those that the source inherits, and the cache stays coherent.
abbrev pub IsResolvedSource :
    Files → (fuel : ℕ) → (source : String) → SourceOwnership → Resolver → Type 0
IsResolvedSource fs fuel source s st =
    IsCoherent fs st
    × ((o : String)
        → In o s.effective_owners
          ↔ Inherits fs fuel (relative_path source) (ancestors (parent_path (relative_path source)))
              o)

pub resolve_source-IsResolvedSource :
    (fs : Files) (fuel : ℕ) (st : Resolver) (source : String)
    → IsCoherent fs st
    → HoldsFor (IsResolvedSource fs fuel source) (resolve_source fs fuel st source)
unfolding resolve_source
resolve_source-IsResolvedSource fs fuel st source c =
    let path = relative_path source in
    Yields-bind (λ (f, st). Collects fs fuel path nothing_found (ancestors (parent_path path)) f st)
      (λ (s, st). IsResolvedSource fs fuel source s st) _ (recorded source)
      (walk_up-Collects fs fuel path source nothing_found st (ancestors (parent_path path)) c)
      (λ (f, st) (c, h).
        (c, λ o. (λ m. elim ((h o).0 m) [ inl j ↦ elim j [ ] | inr i ↦ i ], λ i. (h o).1 (inr i))))

-- If the cache holds what parsing gives, and a source is resolved, then an owner is among its
-- effective owners exactly when the layer of an OWNERS file in its directory or one above it lists
-- the owner and no OWNERS file in a nearer directory stops inheritance.
pub resolve_source-effective :
    (fs : Files) (fuel : ℕ) (st next : Resolver) (source : String) (s : SourceOwnership)
    (o : String)
    → IsCoherent fs st
    → resolve_source fs fuel st source ≡ ok (s, next)
    → In o s.effective_owners
      ↔ Inherits fs fuel (relative_path source) (ancestors (parent_path (relative_path source))) o
resolve_source-effective fs fuel st next source s o c e =
    (subst (HoldsFor (IsResolvedSource fs fuel source)) e
        (resolve_source-IsResolvedSource fs fuel st source c)).1
      o
