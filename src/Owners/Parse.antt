-- ===== src/Owners/Parse.antt =====
-- crates/chromifer-owners/src/lib.rs: `parse_owners`.
pub mod Words
pub mod Exact
pub mod Lists
pub mod Directives
pub mod Laws
use Prim.Native.Char.{Char, code}
use Prim.Native.String.{[] as nil, ◌∷◌ as cons}
use chromifer.Base.{
  ℕ, suc, String, Bool, true, false, not, ◌&&◌, ◌||◌, List, [], ◌∷◌, ◌++◌, Option, none, some, eqb,
  ◌==◌, string_eq, if◌then◌else◌, any, map,
}
use chromifer.Base.Results.{Result, ok, err, ◌>>=◌}
use chromifer.Base.Text.{
  trim, strip_prefix, split_once, split, starts_with, any_char, has_code, is_control,
  is_ascii_alphanumeric, lines,
}
use chromifer.Owners.Data.{
  RepoPath, path_string, Directive, owner, include_file, no_parent, PerFileRule, ParsedOwners,
  OwnershipError, syntax,
}

abbrev pub is_owner_char : Char → Bool
is_owner_char c =
    let n = code c in
    is_ascii_alphanumeric c
    || (eqb n b'_' || eqb n b'-' || eqb n b'+' || eqb n b'%' || eqb n b'.' || eqb n b'@')

abbrev pub valid_parts : String → Option (String × String) → Bool
valid_parts value none = false
valid_parts value (some (left, right)) =
    not (left == "")
    && (not (right == "")
        && (not (has_code b'@' right) && not (any_char (λ c. not (is_owner_char c)) value)))

unfoldable pub valid_owner : String → Bool
unfolding split_once has_code any_char is_ascii_alphanumeric
valid_owner value = valid_parts value (split_once b'@' value)

abbrev pub owner_message : String
owner_message = "expected comma-separated emails, `*`, `file:`, or `set noparent` directive"

-- The loop over the owners of a line
unfoldable pub parse_owner_list :
    (path : String) (line : ℕ) → List String → Result OwnershipError (List Directive)
unfolding trim
parse_owner_list path line [] = ok []
parse_owner_list path line (o ∷ rest) =
    let later = parse_owner_list path line rest in
    if not (trim o == "*") && not (valid_owner (trim o))
    then err (syntax path line owner_message)
    else (later >>= λ ds. ok (owner (trim o) ∷ ds))

abbrev pub some_owners :
    (path : String) (line : ℕ) → List Directive → Result OwnershipError (List Directive)
some_owners path line [] = err (syntax path line owner_message)
some_owners path line (d ∷ ds) = ok (d ∷ ds)

-- What stands behind `file:`
abbrev pub parse_file_include :
    (path : String) (line : ℕ) → (message include : String) → Result OwnershipError (List Directive)
parse_file_include path line message include =
    if include == "" then err (syntax path line message) else ok (include_file include ∷ [])

abbrev pub parse_rest :
    (path : String) (line : ℕ) → String → Option String → Result OwnershipError (List Directive)
parse_rest path line directive (some include) =
    parse_file_include path line "file include must name an OWNERS file" (trim include)
parse_rest path line directive none =
    parse_owner_list path line (split b',' directive) >>= some_owners path line

unfoldable pub parse_directives :
    (path : String) (line : ℕ) → String → Result OwnershipError (List Directive)
unfolding parse_owner_list trim split strip_prefix
parse_directives path line directive =
    if directive == "set noparent"
    then ok (no_parent ∷ [])
    else parse_rest path line directive (strip_prefix "file:" directive)

unfoldable pub bad_expression : String → Bool
unfolding starts_with has_code split any_char is_control
bad_expression e =
    e == ""
    || (starts_with "/" e
        || (has_code 92 e
            || (any (λ component. component == "..") (split b'/' e)
                || any_char (λ c. is_control c || eqb (code c) b'=') e)))

abbrev pub expression_message : String
expression_message =
    "per-file path expression must be relative and may not escape its OWNERS directory"

-- The loop over the expressions of a rule, with `validate_path_expression`
unfoldable pub parse_expressions :
    (path : String) (line : ℕ)
    → List Directive
    → List String
    → Result OwnershipError (List PerFileRule)
unfolding bad_expression
parse_expressions path line ds [] = ok []
parse_expressions path line ds (e ∷ rest) =
    let later = parse_expressions path line ds rest in
    if bad_expression e
    then err (syntax path line expression_message)
    else (later >>= λ rules. ok (map (λ d. record { pattern_text = e; directive = d }) ds ++ rules))

-- What a line adds
pub data Line : Type 0 where
  nothing_there set_noparent : Line
  rules : List PerFileRule → Line
  globals : List Directive → Line

-- A rule, by what stands before and behind its `=`
unfoldable pub parse_rule :
    (path : String) (line : ℕ) → Option (String × String) → Result OwnershipError Line
unfolding trim split
parse_rule path line none = err (syntax path line "per-file rule must contain `=`")
parse_rule path line (some (expressions, directive)) =
    if trim expressions == ""
    then err (syntax path line "per-file path expression must not be empty")
    else do
      ds ← parse_directives path line (trim directive)
      found ← parse_expressions path line ds (split b',' (trim expressions))
      ok (rules found)

-- A line that is no rule, by what stands behind `include `
abbrev pub parse_plain :
    (path : String) (line : ℕ) → String → Option String → Result OwnershipError Line
parse_plain path line text (some include) =
    parse_file_include path line "include must name an OWNERS file" (trim include) >>= λ ds.
    ok (globals ds)
parse_plain path line text none = parse_directives path line text >>= λ ds. ok (globals ds)

abbrev pub parse_other :
    (path : String) (line : ℕ) → String → Option String → Result OwnershipError Line
parse_other path line text (some rest) = parse_rule path line (split_once b'=' rest)
parse_other path line text none =
    if starts_with "set " text
    then err (syntax path line "unknown `set` directive")
    else parse_plain path line text (strip_prefix "include " text)

abbrev pub first_piece : List String → String
first_piece [] = ""
first_piece (s ∷ rest) = s

-- The body of the loop of `parse_owners`, on a line without its comment
unfoldable pub parse_text : (path : String) (line : ℕ) → String → Result OwnershipError Line
unfolding parse_rule split_once strip_prefix starts_with trim parse_directives
parse_text path line text =
    if text == ""
    then ok nothing_there
    else if text == "set noparent"
    then ok set_noparent
    else parse_other path line text (strip_prefix "per-file " text)

abbrev pub strip_comment : String → String
strip_comment raw = trim (first_piece (split b'#' raw))

abbrev pub add_line : ParsedOwners → Line → ParsedOwners
add_line p nothing_there = p
add_line p set_noparent = record p { global_noparent = true }
add_line p (rules rs) = record p { per_file = p.per_file ++ rs }
add_line p (globals ds) = record p { global = p.global ++ ds }

unfoldable pub parse_lines :
    (path : String) (index : ℕ) → ParsedOwners → List String → Result OwnershipError ParsedOwners
unfolding parse_text
parse_lines path index p [] = ok p
parse_lines path index p (raw ∷ rest) = parse_text path (suc index) (strip_comment raw) >>= λ line.
    parse_lines path (suc index) (add_line p line) rest

abbrev pub nothing_parsed : ParsedOwners
nothing_parsed = record { global = []; per_file = []; global_noparent = false }

unfoldable pub parse_owners : RepoPath → (content : String) → Result OwnershipError ParsedOwners
unfolding parse_lines lines path_string
parse_owners path content = parse_lines (path_string path) 0 nothing_parsed (lines content)
