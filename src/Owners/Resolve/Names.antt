-- ===== src/Owners/Resolve/Names.antt =====
-- Whom the directives of an OWNERS file name, without reference to an order of evaluation.
use chromifer.Base.{
  String, ◌≡◌, ◌⊎◌, inl, inr, refl, ap, subst, false, List, [], ◌∷◌, In, string_eq, list_eq,
  string_ord, list_ord, pair_ord,
}
use chromifer.Base.Results.{ok}
use chromifer.Owners.Data.{RepoPath, Directive, owner, include_file, no_parent, ParsedOwners}
use chromifer.Owners.Include.{Files, resolve_include, is_external_include}
use chromifer.Owners.Resolve.Direct.{parsed_file}

module _ (fs : Files) where
  -- A directive lists the owner, or it includes a file of the tree whose directives name the owner.
  pub data Names : RepoPath → List Directive → String → Type 0 where
    listed :
        {path : RepoPath} {ds : List Directive} {o : String} → In (owner o) ds → Names path ds o
    through :
        {path : RepoPath} {ds : List Directive} {o : String} (include : String)
        (included : RepoPath) (p : ParsedOwners)
        → In (include_file include) ds
        → is_external_include include ≡ false
        → resolve_include fs path include ≡ ok included
        → parsed_file fs included ≡ ok p
        → Names included p.global o
        → Names path ds o

  -- What one directive names
  abbrev pub Gives : RepoPath → Directive → String → Type 0
  Gives path (owner q) o = o ≡ q
  Gives path (include_file i) o =
      (included : RepoPath) × (p : ParsedOwners) × (is_external_include i ≡ false)
      × (resolve_include fs path i ≡ ok included)
      × (parsed_file fs included ≡ ok p)
      × Names included p.global o
  Gives path no_parent o = ⊥

  abbrev pub SomeGives : RepoPath → List Directive → String → Type 0
  SomeGives path [] o = ⊥
  SomeGives path (d ∷ ds) o = Gives path d o ⊎ SomeGives path ds o

  SomeGives-of_In :
      (path : RepoPath) (d : Directive) (ds : List Directive) (o : String)
      → In d ds
      → Gives path d o
      → SomeGives path ds o
  SomeGives-of_In path d [] o m g = elim m [ ]
  SomeGives-of_In path d (x ∷ ds) o m g = elim m [
    | inl e ↦ inl (subst (λ d. Gives path d o) e g)
    | inr r ↦ inr (SomeGives-of_In path d ds o r g)
  ]

  Names-cons :
      (path : RepoPath) (d : Directive) (ds : List Directive) (o : String)
      → Names path ds o
      → Names path (d ∷ ds) o
  Names-cons path d ds o (listed m) = listed (inr m)
  Names-cons path d ds o (through i q p m x r f n) = through i q p (inr m) x r f n

  Names-of_Gives :
      (path : RepoPath) (d : Directive) (ds : List Directive) (o : String)
      → Gives path d o
      → Names path (d ∷ ds) o
  Names-of_Gives path (owner q) ds o e = listed (inl (ap owner e))
  Names-of_Gives path (include_file i) ds o (q, p, x, r, f, n) = through i q p (inl refl) x r f n
  Names-of_Gives path no_parent ds o g = elim g [ ]

  pub Names-of_SomeGives :
      (path : RepoPath) (ds : List Directive) (o : String) → SomeGives path ds o → Names path ds o
  Names-of_SomeGives path [] o g = elim g [ ]
  Names-of_SomeGives path (d ∷ ds) o g = elim g [
    | inl h ↦ Names-of_Gives path d ds o h
    | inr h ↦ Names-cons path d ds o (Names-of_SomeGives path ds o h)
  ]

  pub SomeGives-of_Names :
      (path : RepoPath) (ds : List Directive) (o : String) → Names path ds o → SomeGives path ds o
  SomeGives-of_Names path ds o (listed m) = SomeGives-of_In path (owner o) ds o m refl
  SomeGives-of_Names path ds o (through i q p m x r f n) =
      SomeGives-of_In path (include_file i) ds o m (q, p, x, r, f, n)
