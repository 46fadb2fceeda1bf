-- ===== src/Owners/Resolve/Cache.antt =====
-- The state of `Resolver` is a cache: it changes no result.
use chromifer.Base.{
  ℕ, zero, suc, String, ◌≡◌, ◌↔◌, inl, inr, refl, sym, ap, ◌∙◌, List, [], ◌∷◌, ◌++◌, Option, none,
  some, string_eq, list_eq, contains, arith, Bool-cases, In, string_ord, list_ord,
}
use chromifer.Base.Results.{Result, ok, err, ◌>>=◌}
use chromifer.Base.Sets.{get, get-put, same_iff, keys, In-keys-put, In-insert}
use chromifer.Owners.Data.{
  RepoPath, Directive, owner, include_file, no_parent, ParsedOwners, OwnershipError,
}
use chromifer.Owners.Parse.{parse_owners}
use chromifer.Owners.Include.{Files, resolve_include, is_external_include}
use chromifer.Owners.Resolve.{
  Resolver, Run, LayerOwnership, Nested, parse_file, parse_cached, parse_read, remember,
  enter_include, resolve_directive, resolve_all, resolve_directives, evaluate_owner_file, no_layer,
  matched_directives, selected_directives, cycle_error, fresh,
}
use chromifer.Owners.Resolve.Direct.{
  Direct, parsed_content, parsed_file, DirectNested, direct_include, direct_directive, direct_all,
  direct_directives, direct_layer,
}

-- What stands in the cache is what parsing the file gives, and the files read are those in it.
pub record IsCoherent (fs : Files) (st : Resolver) : Type 0 where
  pub entries :
      (path : RepoPath) (p : ParsedOwners)
      → get st.parsed path ≡ some p
      → parsed_file fs path ≡ ok p
  pub files : (path : RepoPath) → In path st.files_read ↔ In path (keys st.parsed)

pub fresh-IsCoherent : (fs : Files) → IsCoherent fs fresh
unfolding get
fresh-IsCoherent fs = record { entries = λ path p h. cc; files = λ path. (λ h. h, λ h. h) }

-- Both fail alike, or both give the same value and the cache stays coherent.
abbrev pub AgreesWith : {A : Type 0} → Files → Run A → Direct A → Type 0
AgreesWith fs (ok (a, st)) (ok b) = (a ≡ b) × IsCoherent fs st
AgreesWith fs (err e) (err f) = e ≡ f
AgreesWith fs _ _ = ⊥

module _ (fs : Files) where
  AgreesWith-bind :
      {A B : Type 0} (r : Run A) (d : Direct A) (k : A × Resolver → Run B) (j : A → Direct B)
      → AgreesWith fs r d
      → ((a : A) (st : Resolver) → IsCoherent fs st → AgreesWith fs (k (a, st)) (j a))
      → AgreesWith fs (r >>= k) (d >>= j)
  AgreesWith-bind (ok (a, st)) (ok b) k j (e, c) step = rw (sym e) (step a st c)
  AgreesWith-bind (ok (a, st)) (err f) k j h step = elim h [ ]
  AgreesWith-bind (err e) (ok b) k j h step = elim h [ ]
  AgreesWith-bind (err e) (err f) k j h step = h

  remember-IsCoherent :
      (st : Resolver) (path : RepoPath) (p : ParsedOwners)
      → IsCoherent fs st
      → parsed_file fs path ≡ ok p
      → IsCoherent fs (remember st path p).1
  remember-IsCoherent st path p c e = record {
    entries = λ q r h. ground (arith, get-put path q p st.parsed, same_iff q path, c.entries q r);
    files = λ q.
        ground (arith, In-insert path q st.files_read, In-keys-put path q p st.parsed, c.files q);
  }

  parse_file-AgreesWith :
      (st : Resolver) (path : RepoPath)
      → IsCoherent fs st
      → AgreesWith fs (parse_file fs st path) (parsed_file fs path)
  unfolding parse_file
  parse_file-AgreesWith st path c = cached (get st.parsed path) refl
    where
      content_case :
          (d : Direct ParsedOwners)
          → parsed_file fs path ≡ d
          → AgreesWith fs (d >>= λ p. ok (remember st path p)) d
      content_case (ok p) e = (refl, remember-IsCoherent st path p c e)
      content_case (err f) e = refl

      read :
          (o : Option String)
          → fs.read path ≡ o
          → AgreesWith fs (parse_read fs st path o) (parsed_content fs path o)
      read none e = refl
      read (some content) e = content_case (parse_owners path content) (rw e refl)

      cached :
          (o : Option ParsedOwners)
          → get st.parsed path ≡ o
          → AgreesWith fs (parse_cached fs st path o) (parsed_file fs path)
      cached (some p) e = rw (c.entries path p e) (refl, c)
      cached none e = read (fs.read path) refl

  abbrev AgreesNested : Nested → DirectNested → Type 0
  AgreesNested n m =
      (st : Resolver) (path : RepoPath) (ds : List Directive) (stack : List RepoPath)
      → IsCoherent fs st
      → AgreesWith fs (n st path ds stack) (m path ds stack)

  module _ (n : Nested) (m : DirectNested) (h : AgreesNested n m) (stack : List RepoPath) where
    enter_include-AgreesWith :
        (st : Resolver) (result : LayerOwnership) (included : RepoPath)
        → IsCoherent fs st
        → AgreesWith fs
            (enter_include fs n st stack result included)
            (direct_include fs m stack result included)
    unfolding cycle_error
    enter_include-AgreesWith st result included c = elim (Bool-cases (contains stack included)) [
      | inl e ↦ rw e refl
      | inr e ↦ rw e (
          AgreesWith-bind (parse_file fs st included) (parsed_file fs included) _ _
            (parse_file-AgreesWith st included c)
            (λ p st c.
              AgreesWith-bind (n st included p.global (stack ++ included ∷ []))
                (m included p.global (stack ++ included ∷ [])) _ _
                (h st included p.global (stack ++ included ∷ []) c) (λ l st c. (refl, c))))
    ]

    include-AgreesWith :
        (st : Resolver) (result : LayerOwnership) (r : Result OwnershipError RepoPath)
        → IsCoherent fs st
        → AgreesWith fs
            (r >>= enter_include fs n st stack result)
            (r >>= direct_include fs m stack result)
    include-AgreesWith st result (ok path) c = enter_include-AgreesWith st result path c
    include-AgreesWith st result (err e) c = refl

    resolve_directive-AgreesWith :
        (owner_file : RepoPath) (result : LayerOwnership) (st : Resolver) (d : Directive)
        → IsCoherent fs st
        → AgreesWith fs
            (resolve_directive fs n owner_file stack result st d)
            (direct_directive fs m owner_file stack result d)
    unfolding resolve_directive
    resolve_directive-AgreesWith owner_file result st (owner o) c = (refl, c)
    resolve_directive-AgreesWith owner_file result st (include_file i) c =
        elim (Bool-cases (is_external_include i)) [
          | inl e ↦ rw e (refl, c)
          | inr e ↦ rw e (include-AgreesWith st result (resolve_include fs owner_file i) c)
        ]
    resolve_directive-AgreesWith owner_file result st no_parent c = (refl, c)

    resolve_all-AgreesWith :
        (owner_file : RepoPath) (result : LayerOwnership) (st : Resolver) (ds : List Directive)
        → IsCoherent fs st
        → AgreesWith fs
            (resolve_all fs n owner_file stack result st ds)
            (direct_all fs m owner_file stack result ds)
    unfolding resolve_all
    resolve_all-AgreesWith owner_file result st [] c = (refl, c)
    resolve_all-AgreesWith owner_file result st (d ∷ ds) c =
        AgreesWith-bind (resolve_directive fs n owner_file stack result st d)
          (direct_directive fs m owner_file stack result d) _ _
          (resolve_directive-AgreesWith owner_file result st d c)
          (λ result st c. resolve_all-AgreesWith owner_file result st ds c)

  resolve_directives-AgreesWith :
      (fuel : ℕ) → AgreesNested (resolve_directives fs fuel) (direct_directives fs fuel)
  unfolding resolve_directives direct_directives
  resolve_directives-AgreesWith zero st path ds stack c = refl
  resolve_directives-AgreesWith (suc fuel) st path ds stack c =
      resolve_all-AgreesWith (resolve_directives fs fuel) (direct_directives fs fuel)
        (resolve_directives-AgreesWith fuel) stack path no_layer st ds c

  -- From a cache that holds what parsing gives, the evaluation of an OWNERS file gives the value
  -- or the error of the evaluation without a cache, and with a value it leaves such a cache, whose
  -- files are those that count as read.
  pub evaluate_owner_file-AgreesWith :
      (fuel : ℕ) (st : Resolver) (path : RepoPath) (scoped_source : String)
      → IsCoherent fs st
      → AgreesWith fs
          (evaluate_owner_file fs fuel st path scoped_source)
          (direct_layer fs fuel path scoped_source)
  unfolding evaluate_owner_file direct_layer
  evaluate_owner_file-AgreesWith fuel st path scoped_source c =
      AgreesWith-bind (parse_file fs st path) (parsed_file fs path) _ _
        (parse_file-AgreesWith st path c)
        (λ p st c.
          let matched = matched_directives p scoped_source in
          AgreesWith-bind
            (resolve_directives fs fuel st path (selected_directives p matched) (path ∷ []))
            (direct_directives fs fuel path (selected_directives p matched) (path ∷ [])) _ _
            (resolve_directives-AgreesWith fuel st path (selected_directives p matched) (path ∷ [])
              c)
            (λ l st c. (refl, c)))

  -- A layer that is found is the one of the specification.
  pub evaluate_owner_file-direct :
      (fuel : ℕ) (st next : Resolver) (path : RepoPath) (scoped_source : String)
      (layer : LayerOwnership)
      → IsCoherent fs st
      → evaluate_owner_file fs fuel st path scoped_source ≡ ok (layer, next)
      → (direct_layer fs fuel path scoped_source ≡ ok layer) × IsCoherent fs next
  evaluate_owner_file-direct fuel st next path scoped_source layer c e =
      direct_case (direct_layer fs fuel path scoped_source) refl
        (rw e at (evaluate_owner_file-AgreesWith fuel st path scoped_source c))
    where
      direct_case :
          (d : Direct LayerOwnership)
          → direct_layer fs fuel path scoped_source ≡ d
          → AgreesWith fs (ok (layer, next)) d
          → (direct_layer fs fuel path scoped_source ≡ ok layer) × IsCoherent fs next
      direct_case (err g) k h = elim h [ ]
      direct_case (ok l) k h = (k ∙ ap ok (sym h.0), h.1)
