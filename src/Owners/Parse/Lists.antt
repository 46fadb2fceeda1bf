-- ===== src/Owners/Parse/Lists.antt =====
-- The lists of owners and of patterns that are parsed: exactly those of well-formed words.
use chromifer.Base.{
  ℕ, String, ◌≡◌, ◌⊎◌, ◌↔◌, refl, sym, ap, ◌∙◌, inl, inr, Bool, true, false, not, ◌&&◌, List, [],
  ◌∷◌, ◌++◌, ◌==◌, string_eq, if◌then◌else◌, All, arith, Bool-cases, eq_iff, map, concat_map,
}
use chromifer.Base.Results.{Result, ok, err, ◌>>=◌, ok-injective}
use chromifer.Base.Text.{trim}
use chromifer.Owners.Data.{Directive, owner, PerFileRule, OwnershipError, syntax}
use chromifer.Owners.Parse.{
  valid_owner, bad_expression, parse_owner_list, parse_expressions, owner_message,
  expression_message,
}
use chromifer.Owners.Parse.Words.{IsAddress, IsPattern}
use chromifer.Owners.Parse.Exact.{valid_owner_iff, bad_expression_iff}

-- What stands between the commas of a line
abbrev pub IsOwner : String → Type 0
IsOwner o = (o ≡ "*") ⊎ IsAddress o

IsOwner-iff : (o : String) → ((not (o == "*") && not (valid_owner o)) ≡ false) ↔ IsOwner o
IsOwner-iff o = (
  λ h. elim (Bool-cases (o == "*")) [
    | inl e ↦ inl ((eq_iff o "*").0 e)
    | inr e ↦ inr ((valid_owner_iff o).0 (ground arith))
  ],
  λ h. elim h [
    | inl e ↦ let yes = (eq_iff o "*").1 e in ground arith
    | inr v ↦ let yes = (valid_owner_iff o).1 v in ground arith
  ],
)

module _ (path : String) (line : ℕ) where
  -- The body of a loop: a refusal, or the item and what the later ones give
  module _ {A : Type 0} (message : String) (first : List A) where
    abbrev step : Bool → Result OwnershipError (List A) → Result OwnershipError (List A)
    step bad later =
        if bad then err (syntax path line message) else (later >>= λ xs. ok (first ++ xs))

    step-ok :
        (bad : Bool) (later : Result OwnershipError (List A)) (ys : List A)
        → (step bad later ≡ ok ys)
          ↔ ((bad ≡ false) × (xs : List A) × (later ≡ ok xs) × (ys ≡ first ++ xs))
    step-ok true later ys = (λ h. absurd cc, λ v. absurd (let e = v.0 in cc e))
    step-ok false (ok xs) ys = (
      λ h. (refl, xs, refl, sym (ok-injective (first ++ xs) ys h)),
      λ (_, zs, e, same). ap ok (ap (λ xs. first ++ xs) (ok-injective xs zs e) ∙ sym same),
    )
    step-ok false (err x) ys = (λ h. absurd cc, λ (_, zs, e, same). absurd cc)

  -- A list of owners is parsed, to the owner directives of its trimmed items in their order,
  -- exactly when each item is, when trimmed, `*` or an `@` between two texts of ASCII letters,
  -- digits and `_-+%.` that are not empty.
  pub parse_owner_list_iff :
      (os : List String) (ds : List Directive)
      → (parse_owner_list path line os ≡ ok ds)
        ↔ ((ds ≡ map (λ o. owner (trim o)) os) × All (λ o. IsOwner (trim o)) os)
  unfolding parse_owner_list
  parse_owner_list_iff [] ds = (λ h. (sym (ok-injective [] ds h), tt), λ (e, _). ap ok (sym e))
  parse_owner_list_iff (o ∷ os) ds =
      let bad = not (trim o == "*") && not (valid_owner (trim o)) in
      let one =
        step-ok owner_message (owner (trim o) ∷ []) bad (parse_owner_list path line os) ds in
      (
        λ h.
            let (good, xs, later, same) = one.0 h in
            let (rest, named) = (parse_owner_list_iff os xs).0 later in
            (same ∙ ap (λ xs. owner (trim o) ∷ xs) rest, ((IsOwner-iff (trim o)).0 good, named)),
        λ (same, (good, named)).
            one.1
              ((IsOwner-iff (trim o)).1 good, _, (parse_owner_list_iff os _).1 (refl, named), same),
      )

  -- The expressions of a rule are parsed, to each expression with each of the directives in order,
  -- exactly when each expression is not empty, does not begin with `/`, has no component `..` and
  -- no backslash, `=` or control character.
  pub parse_expressions_iff :
      (ds : List Directive) (es : List String) (rs : List PerFileRule)
      → (parse_expressions path line ds es ≡ ok rs) ↔ (
          (rs ≡ concat_map (λ e. map (λ d. record { pattern_text = e; directive = d }) ds) es)
          × All IsPattern es)
  unfolding parse_expressions
  parse_expressions_iff ds [] rs = (λ h. (sym (ok-injective [] rs h), tt), λ (e, _). ap ok (sym e))
  parse_expressions_iff ds (e ∷ es) rs =
      let first : List PerFileRule = map (λ d. record { pattern_text = e; directive = d }) ds in
      let one =
        step-ok expression_message first (bad_expression e) (parse_expressions path line ds es)
          rs in
      (
        λ h.
            let (good, xs, later, same) = one.0 h in
            let (rest, named) = (parse_expressions_iff ds es xs).0 later in
            (same ∙ ap (λ xs. first ++ xs) rest, ((bad_expression_iff e).0 good, named)),
        λ (same, (good, named)). one.1 (
          (bad_expression_iff e).1 good,
          _,
          (parse_expressions_iff ds es _).1 (refl, named),
          same,
        ),
      )
