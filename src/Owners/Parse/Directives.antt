-- ===== src/Owners/Parse/Directives.antt =====
-- What the directives and the rules of an OWNERS file are, and where a syntax error is reported.
use chromifer.Base.{
  ℕ, String, ◌≡◌, ◌≢◌, ◌⊎◌, ◌≤◌, refl, inl, inr, Bool, true, false, not, ◌&&◌, List, [], ◌∷◌,
  Option, none, some, ◌==◌, string_eq, if◌then◌else◌, All, All-append, map, arith, Bool-cases,
  eq_iff,
}
use chromifer.Base.Results.{Result, ok, err, ◌>>=◌}
use chromifer.Base.Text.{trim, split, strip_prefix}
use chromifer.Owners.Data.{
  Directive, owner, include_file, no_parent, PerFileRule, ParsedOwners, OwnershipError, syntax,
}
use chromifer.Owners.Parse.Words.{
  IsAddress, IsPattern, valid_owner-IsAddress, bad_expression-IsPattern,
}
use chromifer.Owners.Parse.{
  valid_owner, owner_message, parse_owner_list, some_owners, parse_file_include, parse_rest,
  parse_directives, bad_expression, expression_message, parse_expressions,
}

-- A directive that names owners or a file: an owner is `*` or an address, and a file has a name.
abbrev pub IsNaming : Directive → Type 0
IsNaming (owner o) = (o ≡ "*") ⊎ IsAddress o
IsNaming (include_file i) = i ≢ ""
IsNaming no_parent = ⊥

abbrev pub IsDirective : Directive → Type 0
IsDirective no_parent = Unit
IsDirective d = IsNaming d

-- The expression is a pattern; the directive is well formed.
abbrev pub IsRule : PerFileRule → Type 0
IsRule r = IsPattern r.pattern_text × IsDirective r.directive

pub record IsParsed (p : ParsedOwners) : Type 0 where
  pub global : All IsNaming p.global
  pub per_file : All IsRule p.per_file

-- A value of which `P` holds, or a syntax error in the file, on a line from `low` to `high`
abbrev pub Parses :
    {A : Type 0} (path : String) (low high : ℕ) → (A → Type 0) → Result OwnershipError A → Type 0
Parses path low high P (ok a) = P a
Parses path low high P (err (syntax p n m)) = (p ≡ path) × (low ≤ n) × (n ≤ high)
Parses path low high P (err _) = ⊥

module _ (path : String) where
  pub Parses-bind :
      {A B : Type 0} (low high : ℕ) (P : A → Type 0) (Q : B → Type 0) (r : Result OwnershipError A)
      (k : A → Result OwnershipError B)
      → Parses path low high P r
      → ((a : A) → P a → Parses path low high Q (k a))
      → Parses path low high Q (r >>= k)
  Parses-bind low high P Q (ok a) k h step = step a h
  Parses-bind low high P Q (err (syntax p n m)) k h step = h
  Parses-bind low high P Q (err _) k h step = elim h [ ]

  module _ (line : ℕ) where
    abbrev pub OnLine : {A : Type 0} → (A → Type 0) → Result OwnershipError A → Type 0
    OnLine P r = Parses path line line P r

    -- A refusal on the line, or what passes the test
    pub OnLine-if :
        {A : Type 0} (P : A → Type 0) (bad : Bool) (message : String) (r : Result OwnershipError A)
        → (bad ≡ false → OnLine P r)
        → OnLine P (if bad then err (syntax path line message) else r)
    OnLine-if P true message r h = (refl, omega arith, omega arith)
    OnLine-if P false message r h = h refl

    pub OnLine-bind :
        {A B : Type 0} (P : A → Type 0) (Q : B → Type 0) (r : Result OwnershipError A)
        (k : A → Result OwnershipError B)
        → OnLine P r
        → ((a : A) → P a → OnLine Q (k a))
        → OnLine Q (r >>= k)
    OnLine-bind P Q r k = Parses-bind line line P Q r k

    parse_owner_list-OnLine :
        (os : List String) → OnLine (All IsNaming) (parse_owner_list path line os)
    unfolding parse_owner_list
    parse_owner_list-OnLine [] = tt
    parse_owner_list-OnLine (o ∷ os) =
        let later = parse_owner_list-OnLine os in
        OnLine-if (All IsNaming) (not (trim o == "*") && not (valid_owner (trim o))) owner_message _
          (λ good.
            OnLine-bind (All IsNaming) (All IsNaming) (parse_owner_list path line os) _ later
              (λ ds h. (named (trim o) good, h)))
      where
        named :
            (o : String) → (not (o == "*") && not (valid_owner o)) ≡ false → (o ≡ "*") ⊎ IsAddress o
        named o good = elim (Bool-cases (o == "*")) [
          | inl e ↦ inl ((eq_iff o "*").0 e)
          | inr e ↦ inr (valid_owner-IsAddress o (ground arith))
        ]

    pub parse_file_include-OnLine :
        (message include : String)
        → OnLine (All IsNaming) (parse_file_include path line message include)
    parse_file_include-OnLine message include =
        OnLine-if (All IsNaming) (include == "") message (ok (include_file include ∷ []))
          (λ good. (λ e. cc (good, (eq_iff include "").1 e), tt))

    some_owners-OnLine :
        (ds : List Directive) → All IsNaming ds → OnLine (All IsNaming) (some_owners path line ds)
    some_owners-OnLine [] h = (refl, omega arith, omega arith)
    some_owners-OnLine (d ∷ ds) h = h

    parse_rest-OnLine :
        (directive : String) (o : Option String)
        → OnLine (All IsNaming) (parse_rest path line directive o)
    parse_rest-OnLine directive (some include) = parse_file_include-OnLine _ (trim include)
    parse_rest-OnLine directive none =
        OnLine-bind (All IsNaming) (All IsNaming)
          (parse_owner_list path line (split b',' directive)) (some_owners path line)
          (parse_owner_list-OnLine (split b',' directive)) some_owners-OnLine

    -- `set noparent` is the one directive that names nothing.
    pub parse_directives-IsNaming :
        (directive : String)
        → (directive == "set noparent") ≡ false
        → OnLine (All IsNaming) (parse_directives path line directive)
    unfolding parse_directives
    parse_directives-IsNaming directive e =
        rw e (parse_rest-OnLine directive (strip_prefix "file:" directive))

    All-of_naming : (ds : List Directive) → All IsNaming ds → All IsDirective ds
    All-of_naming [] h = tt
    All-of_naming (owner o ∷ ds) h = (h.0, All-of_naming ds h.1)
    All-of_naming (include_file i ∷ ds) h = (h.0, All-of_naming ds h.1)
    All-of_naming (no_parent ∷ ds) h = elim h.0 [ ]

    weaken :
        (r : Result OwnershipError (List Directive))
        → OnLine (All IsNaming) r
        → OnLine (All IsDirective) r
    weaken (ok ds) h = All-of_naming ds h
    weaken (err (syntax p n m)) h = h
    weaken (err _) h = elim h [ ]

    pub parse_directives-OnLine :
        (directive : String) → OnLine (All IsDirective) (parse_directives path line directive)
    parse_directives-OnLine directive = elim (Bool-cases (directive == "set noparent")) [
      | inl e ↦ unfold parse_directives in rw e (tt, tt)
      | inr e ↦
          weaken (parse_directives path line directive) (parse_directives-IsNaming directive e)
    ]

    All-rules :
        (e : String) (ds : List Directive)
        → bad_expression e ≡ false
        → All IsDirective ds
        → All IsRule (map (λ d. record { pattern_text = e; directive = d }) ds)
    All-rules e [] good h = tt
    All-rules e (d ∷ ds) good h = ((bad_expression-IsPattern e good, h.0), All-rules e ds good h.1)

    pub parse_expressions-OnLine :
        (ds : List Directive) (es : List String)
        → All IsDirective ds
        → OnLine (All IsRule) (parse_expressions path line ds es)
    unfolding parse_expressions
    parse_expressions-OnLine ds [] h = tt
    parse_expressions-OnLine ds (e ∷ es) h =
        let later = parse_expressions-OnLine ds es h in
        OnLine-if (All IsRule) (bad_expression e) expression_message _ (λ good.
          OnLine-bind (All IsRule) (All IsRule) (parse_expressions path line ds es) _ later
            (λ rs k. All-append IsRule _ rs (All-rules e ds good h) k))
