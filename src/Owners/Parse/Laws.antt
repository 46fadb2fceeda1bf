-- ===== src/Owners/Parse/Laws.antt =====
-- What a parsed OWNERS file holds.
use chromifer.Base.{
  ℕ, suc, String, ◌≡◌, ◌≤◌, ◌+◌, refl, inl, inr, false, List, [], ◌∷◌, Option, none, some, ◌==◌,
  string_eq, All, All-append, length, arith, Bool-cases,
}
use chromifer.Base.Results.{Result, ok, err}
use chromifer.Base.Text.{trim, split, split_once, strip_prefix, starts_with, lines}
use chromifer.Owners.Data.{RepoPath, path_string, ParsedOwners, OwnershipError, syntax}
use chromifer.Owners.Parse.{
  parse_file_include, parse_directives, parse_expressions, Line, nothing_there, set_noparent, rules,
  globals, parse_rule, parse_plain, parse_other, parse_text, strip_comment, add_line, parse_lines,
  nothing_parsed, parse_owners,
}
use chromifer.Owners.Parse.Directives.{
  IsNaming, IsDirective, IsRule, IsParsed, Parses, Parses-bind, OnLine, OnLine-if, OnLine-bind,
  parse_file_include-OnLine, parse_directives-IsNaming, parse_directives-OnLine,
  parse_expressions-OnLine,
}

module _ (path : String) where
  module _ (line : ℕ) where
    abbrev pub IsLine : Line → Type 0
    IsLine (rules rs) = All IsRule rs
    IsLine (globals ds) = All IsNaming ds
    IsLine _ = Unit

    parse_rule-OnLine :
        (o : Option (String × String)) → OnLine path line IsLine (parse_rule path line o)
    unfolding parse_rule
    parse_rule-OnLine none = (refl, omega arith, omega arith)
    parse_rule-OnLine (some (expressions, directive)) =
        OnLine-if path line IsLine (trim expressions == "") _ _ (λ good.
          OnLine-bind path line (All IsDirective) IsLine
            (parse_directives path line (trim directive)) _
            (parse_directives-OnLine path line (trim directive))
            (λ ds h.
              OnLine-bind path line (All IsRule) IsLine
                (parse_expressions path line ds (split b',' (trim expressions))) _
                (parse_expressions-OnLine path line ds (split b',' (trim expressions)) h)
                (λ rs k. k)))

    parse_plain-OnLine :
        (text : String) (o : Option String)
        → (text == "set noparent") ≡ false
        → OnLine path line IsLine (parse_plain path line text o)
    parse_plain-OnLine text (some include) e =
        OnLine-bind path line (All IsNaming) IsLine
          (parse_file_include path line "include must name an OWNERS file" (trim include)) _
          (parse_file_include-OnLine path line _ (trim include)) (λ ds h. h)
    parse_plain-OnLine text none e =
        OnLine-bind path line (All IsNaming) IsLine (parse_directives path line text) _
          (parse_directives-IsNaming path line text e) (λ ds h. h)

    parse_other-OnLine :
        (text : String) (o : Option String)
        → (text == "set noparent") ≡ false
        → OnLine path line IsLine (parse_other path line text o)
    parse_other-OnLine text (some rest) e = parse_rule-OnLine (split_once b'=' rest)
    parse_other-OnLine text none e =
        OnLine-if path line IsLine (starts_with "set " text) _ _
          (λ _. parse_plain-OnLine text (strip_prefix "include " text) e)

    parse_text-OnLine : (text : String) → OnLine path line IsLine (parse_text path line text)
    unfolding parse_text
    parse_text-OnLine text = elim (Bool-cases (text == "")) [
      | inl a ↦ rw a tt
      | inr a ↦ elim (Bool-cases (text == "set noparent")) [
        | inl b ↦ rw (a, b) tt
        | inr b ↦ rw (a, b) (parse_other-OnLine text (strip_prefix "per-file " text) b)
      ]
    ]

  add_line-IsParsed :
      (line : ℕ) (p : ParsedOwners) (l : Line)
      → IsParsed p
      → IsLine line l
      → IsParsed (add_line p l)
  add_line-IsParsed line p nothing_there h k = h
  add_line-IsParsed line p set_noparent h k = record { global = h.global; per_file = h.per_file }
  add_line-IsParsed line p (rules rs) h k = record {
    global = h.global;
    per_file = All-append IsRule p.per_file rs h.per_file k;
  }
  add_line-IsParsed line p (globals ds) h k = record {
    global = All-append IsNaming p.global ds h.global k;
    per_file = h.per_file;
  }

  widen :
      {A : Type 0} (line low high : ℕ) (P : A → Type 0) (r : Result OwnershipError A)
      → low ≤ line
      → line ≤ high
      → OnLine path line P r
      → Parses path low high P r
  widen line low high P (ok a) h k v = v
  widen line low high P (err (syntax p n m)) h k v = (v.0, omega (arith, v.1), omega (arith, v.1))
  widen line low high P (err _) h k v = elim v [ ]

  parse_lines-Parses :
      (low high index : ℕ) (p : ParsedOwners) (raws : List String)
      → low ≤ suc index
      → index + length raws ≤ high
      → IsParsed p
      → Parses path low high IsParsed (parse_lines path index p raws)
  unfolding parse_lines
  parse_lines-Parses low high index p [] a b h = h
  parse_lines-Parses low high index p (raw ∷ rest) a b h =
      Parses-bind path low high (IsLine (suc index)) IsParsed
        (parse_text path (suc index) (strip_comment raw)) _
        (widen (suc index) low high (IsLine (suc index)) _ a (omega arith)
          (parse_text-OnLine (suc index) (strip_comment raw)))
        (λ l k.
          parse_lines-Parses low high (suc index) (add_line p l) rest (omega arith) (omega arith)
            (add_line-IsParsed (suc index) p l h k))

-- Parsing gives directives that are well formed (an owner is `*`, or an `@` between two texts of
-- ASCII letters, digits and `_-+%.`; an included file has a name; the pattern of a rule is not
-- empty, does not begin with `/`, has no component `..` and no backslash, `=` or control
-- character), or a syntax error of that file on one of its lines.
pub parse_owners-Parses :
    (path : RepoPath) (content : String)
    → Parses (path_string path) 1 (length (lines content)) IsParsed (parse_owners path content)
unfolding parse_owners
parse_owners-Parses path content =
    parse_lines-Parses (path_string path) 1 (length (lines content)) 0 nothing_parsed
      (lines content) (omega arith) (omega arith) (record { global = tt; per_file = tt })
