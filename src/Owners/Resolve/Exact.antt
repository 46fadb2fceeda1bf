-- ===== src/Owners/Resolve/Exact.antt =====
-- Evaluation finds the owners that the directives name, and no others.
use chromifer.Base.{
  ℕ, zero, suc, String, ◌≡◌, ◌↔◌, ◌⊎◌, inl, inr, refl, subst, Bool, true, false, List, [], ◌∷◌,
  ◌++◌, if◌then◌else◌, contains, arith, Bool-cases, In, string_eq, list_eq, string_ord, list_ord,
  pair_ord,
}
use chromifer.Base.Results.{ok, err, ◌>>=◌}
use chromifer.Base.Sets.{insert, In-insert, In-extend}
use chromifer.Owners.Data.{
  RepoPath, path_string, Directive, owner, include_file, no_parent, ParsedOwners,
}
use chromifer.Owners.Include.{Files, resolve_include, is_external_include}
use chromifer.Owners.Resolve.{
  Resolver, LayerOwnership, no_layer, evaluate_owner_file, matched_directives, selected_directives,
  finish_layer, include_layer,
}
use chromifer.Owners.Resolve.Direct.{
  Direct, parsed_file, DirectNested, direct_include, direct_directive, direct_all,
  direct_directives, direct_layer,
}
use chromifer.Owners.Resolve.Cache.{IsCoherent, evaluate_owner_file-direct}
use chromifer.Owners.Resolve.Names.{Names, Gives, SomeGives, SomeGives-of_Names, Names-of_SomeGives}

module _ (fs : Files) where
  -- The result of nested calls lists whom their directives name.
  abbrev IsExact : DirectNested → Type 0
  IsExact m =
      (path : RepoPath) (ds : List Directive) (stack : List RepoPath) (layer : LayerOwnership)
      (o : String)
      → m path ds stack ≡ ok layer
      → In o layer.owners ↔ Names fs path ds o

  module _ (m : DirectNested) (exact : IsExact m) (stack : List RepoPath) (path : RepoPath)
      (o : String) where
    -- The step from one accumulated layer to the next
    abbrev Adds : LayerOwnership → Type 0 → Direct LayerOwnership → Type 0
    Adds result P (ok next) = In o next.owners ↔ (In o result.owners ⊎ P)
    Adds result P (err e) = Unit

    nested-Adds :
        (result : LayerOwnership) (included : RepoPath) (p : ParsedOwners)
        (d : Direct LayerOwnership)
        → m included p.global (stack ++ included ∷ []) ≡ d
        → Adds result
            (Names fs included p.global o)
            (d >>= λ layer. ok (include_layer result included layer))
    nested-Adds result included p (ok layer) e =
        let n = exact included p.global (stack ++ included ∷ []) layer o e in
        let i = In-extend o result.owners layer.owners in ground arith
    nested-Adds result included p (err f) e = tt

    -- An include that resolves and parses gives what the file that it stands for names.
    Gives-include :
        (i : String) (q : RepoPath) (p : ParsedOwners)
        → is_external_include i ≡ false
        → resolve_include fs path i ≡ ok q
        → parsed_file fs q ≡ ok p
        → Names fs q p.global o ↔ Gives fs path (include_file i) o
    Gives-include i q p x r f = (
      λ n. (q, p, x, r, f, n),
      λ (q', p', _, r', f', n).
          let same_path : q' ≡ q = cc in
          let same_parsed : p' ≡ p = cc in
          subst (λ q. Names fs q p.global o) same_path
            (subst (λ (p : ParsedOwners). Names fs q' p.global o) same_parsed n),
    )

    parsed-Adds :
        (result : LayerOwnership) (i : String) (q : RepoPath) (d : Direct ParsedOwners)
        → is_external_include i ≡ false
        → resolve_include fs path i ≡ ok q
        → parsed_file fs q ≡ d
        → Adds result (Gives fs path (include_file i) o) (
            d >>= λ p.
            m q p.global (stack ++ q ∷ []) >>= λ layer. ok (include_layer result q layer))
    parsed-Adds result i q (err e) x r f = tt
    parsed-Adds result i q (ok p) x r f =
        change_right (Gives-include i q p x r f) _
          (nested-Adds result q p (m q p.global (stack ++ q ∷ [])) refl)
      where
        change_right :
            {P Q : Type 0} → P ↔ Q → (d : Direct LayerOwnership) → Adds result P d → Adds result Q d
        change_right {P} {Q} e (ok layer) h = ground arith
        change_right e (err f) h = tt

    include-Adds :
        (result : LayerOwnership) (i : String) (d : Direct RepoPath)
        → is_external_include i ≡ false
        → resolve_include fs path i ≡ d
        → Adds result (Gives fs path (include_file i) o) (d >>= direct_include fs m stack result)
    include-Adds result i (err e) x r = tt
    include-Adds result i (ok q) x r = elim (Bool-cases (contains stack q)) [
      | inl e ↦ rw e tt
      | inr e ↦ rw e (parsed-Adds result i q (parsed_file fs q) x r refl)
    ]

    directive-Adds :
        (result : LayerOwnership) (d : Directive)
        → Adds result (Gives fs path d o) (direct_directive fs m path stack result d)
    directive-Adds result (owner q) = let i = In-insert q o result.owners in ground arith
    directive-Adds result (include_file i) = external (is_external_include i) refl
      where
        external :
            (b : Bool)
            → is_external_include i ≡ b
            → Adds result (Gives fs path (include_file i) o) (
                if b
                then ok (record result {
                  unresolved_includes = insert (path_string path, i) result.unresolved_includes;
                })
                else (resolve_include fs path i >>= direct_include fs m stack result))
        external true e =
            (λ h. inl h, λ h. elim h [ inl j ↦ j | inr (_, _, x, _, _, _) ↦ absurd cc ])
        external false e = include-Adds result i (resolve_include fs path i) e refl
    directive-Adds result no_parent = (λ h. inl h, λ h. elim h [ inl j ↦ j | inr k ↦ elim k [ ] ])

    -- One directive, then the others
    Adds-then :
        (P Q : Type 0) (result : LayerOwnership) (d : Direct LayerOwnership)
        (k : LayerOwnership → Direct LayerOwnership)
        → Adds result P d
        → ((next : LayerOwnership) → Adds next Q (k next))
        → Adds result (P ⊎ Q) (d >>= k)
    Adds-then P Q result (err e) k h step = tt
    Adds-then P Q result (ok next) k h step = then_case (k next) (step next)
      where
        then_case : (e : Direct LayerOwnership) → Adds next Q e → Adds result (P ⊎ Q) e
        then_case (err e) g = tt
        then_case (ok last) g = ground arith

    all-Adds :
        (result : LayerOwnership) (ds : List Directive)
        → Adds result (SomeGives fs path ds o) (direct_all fs m path stack result ds)
    all-Adds result [] = (λ h. inl h, λ h. elim h [ inl j ↦ j | inr k ↦ elim k [ ] ])
    all-Adds result (d ∷ ds) =
        Adds-then (Gives fs path d o) (SomeGives fs path ds o) result
          (direct_directive fs m path stack result d) _ (directive-Adds result d)
          (λ next. all-Adds next ds)

    all-IsExact :
        (ds : List Directive) (layer : LayerOwnership)
        → direct_all fs m path stack no_layer ds ≡ ok layer
        → In o layer.owners ↔ Names fs path ds o
    all-IsExact ds layer e =
        finish (direct_all fs m path stack no_layer ds) e (all-Adds no_layer ds)
      where
        finish :
            (d : Direct LayerOwnership)
            → d ≡ ok layer
            → Adds no_layer (SomeGives fs path ds o) d
            → In o layer.owners ↔ Names fs path ds o
        finish (err f) e h = absurd cc
        finish (ok l) e h =
            let same : l ≡ layer = cc in
            let a = SomeGives-of_Names fs path ds o in
            let b = Names-of_SomeGives fs path ds o in
            subst (λ (l : LayerOwnership). In o l.owners ↔ Names fs path ds o) same
              (λ i. elim (h.0 i) [ inl j ↦ elim j [ ] | inr g ↦ b g ], λ n. h.1 (inr (a n)))

  direct_directives-IsExact : (fuel : ℕ) → IsExact (direct_directives fs fuel)
  unfolding direct_directives
  direct_directives-IsExact zero path ds stack layer o e = cc
  direct_directives-IsExact (suc fuel) path ds stack layer o e =
      all-IsExact (direct_directives fs fuel) (direct_directives-IsExact fuel) stack path o ds layer
        e

  direct_layer-owners :
      (fuel : ℕ) (path : RepoPath) (scoped_source : String) (p : ParsedOwners)
      (layer : LayerOwnership) (o : String)
      → parsed_file fs path ≡ ok p
      → direct_layer fs fuel path scoped_source ≡ ok layer
      → In o layer.owners
        ↔ Names fs path (selected_directives p (matched_directives p scoped_source)) o
  unfolding direct_layer
  direct_layer-owners fuel path scoped_source p layer o f e =
      finish (direct_directives fs fuel path ds (path ∷ [])) refl (rw f at e)
    where
      ds : List Directive
      ds = selected_directives p (matched_directives p scoped_source)

      finish :
          (d : Direct LayerOwnership)
          → direct_directives fs fuel path ds (path ∷ []) ≡ d
          → (d >>= λ layer. ok (finish_layer p (matched_directives p scoped_source) path layer))
            ≡ ok layer
          → In o layer.owners ↔ Names fs path ds o
      finish (err g) k e = absurd cc
      finish (ok l) k e =
          let same : finish_layer p (matched_directives p scoped_source) path l ≡ layer = cc in
          subst (λ (l : LayerOwnership). In o l.owners ↔ Names fs path ds o) same
            (direct_directives-IsExact fuel path ds (path ∷ []) l o k)

-- If the cache holds what parsing gives, the OWNERS file parses, and it is evaluated for a path,
-- then an owner is in the layer exactly when the directives that apply to the path name the owner,
-- themselves or through files that they include.
pub evaluate_owner_file-owners :
    (fs : Files) (fuel : ℕ) (st next : Resolver) (path : RepoPath) (scoped_source : String)
    (p : ParsedOwners) (layer : LayerOwnership) (o : String)
    → IsCoherent fs st
    → parsed_file fs path ≡ ok p
    → evaluate_owner_file fs fuel st path scoped_source ≡ ok (layer, next)
    → In o layer.owners
      ↔ Names fs path (selected_directives p (matched_directives p scoped_source)) o
evaluate_owner_file-owners fs fuel st next path scoped_source p layer o c f e =
    let d = (evaluate_owner_file-direct fs fuel st next path scoped_source layer c e).0 in
    direct_layer-owners fs fuel path scoped_source p layer o f d
