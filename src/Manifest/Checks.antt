-- ===== src/Manifest/Checks.antt =====
-- crates/chromifer-manifest/src/lib.rs: the checks that `Manifest::validate` is made of. A check
-- returns the errors that the source pushes, in the order in which it pushes them.
pub mod Laws
pub mod Ownership
use chromifer.Base.{
  ℕ, String, Bool, true, false, ◌&&◌, ◌||◌, not, List, [], ◌∷◌, ◌++◌, Option, none, some, leb, eqb,
  ◌==◌, string_eq, string_ord, option_eq, if◌then◌else◌, any, concat_map, is_some,
}
use Prim.Native.String.{len}
use chromifer.Base.Text.{is_blank, has_code, all_codes}
use chromifer.Base.Sets.{insert, member}
use chromifer.Manifest.Data.{
  CompatibilityGate, GateExecution, shell, direct, GateInput, Module, ModuleOwnership,
  SourceOwnership, OwnershipInclude, BoundaryReview, BoundaryEvidence,
}
use chromifer.Manifest.Errors.{
  ValidationError, duplicate_id, empty_field, invalid_gate_execution, invalid_gate_input_path,
  invalid_gate_input_digest, duplicate_gate_input, invalid_ownership_value, invalid_source_location,
}
use chromifer.Manifest.Path.{normalize_repo_relative_path}

-- `errors.push(error)` under a test
abbrev pub push_if : Bool → ValidationError → List ValidationError
push_if true e = e ∷ []
push_if false e = []

unfoldable pub check_nonempty : (kind id field value : String) → List ValidationError
check_nonempty kind id field value = push_if (is_blank value) (empty_field kind id field)

unfoldable pub check_source_location :
    (kind id file : String) (line : ℕ) (detail : String) → List ValidationError
check_source_location kind id file line detail =
    push_if (is_blank file || is_blank detail || eqb line 0)
      (invalid_source_location kind id file line)

-- The returned set, and the errors
unfoldable pub collect_ids :
    (kind : String) (found ids : List String) → List String × List ValidationError
collect_ids kind found [] = (found, [])
collect_ids kind found (id ∷ ids) =
    let (all_ids, errors) = collect_ids kind (insert id found) ids in
    (all_ids, push_if (member found id) (duplicate_id kind id) ++ errors)

-- The detail of an invalid execution definition
unfoldable pub execution_fault : GateExecution → Option String
execution_fault (shell command) =
    if is_blank command
    then some "shell command must not be empty"
    else if has_code 0 command
    then some "shell command must not contain NUL"
    else none
execution_fault (direct program args) =
    if is_blank program
    then some "program must not be empty"
    else if has_code 0 program
    then some "program must not contain NUL"
    else if any (has_code 0) args
    then some "arguments must not contain NUL"
    else none

unfoldable pub validate_gate_execution : CompatibilityGate → List ValidationError
unfolding execution_fault
validate_gate_execution gate = elim (execution_fault gate.execution) [
  | none ↦ []
  | some detail ↦ invalid_gate_execution gate.id detail ∷ []
]

-- `byte.is_ascii_digit() || (b'a'..=b'f').contains(&byte)`
unfoldable pub is_hex_byte : ℕ → Bool
is_hex_byte n = (leb b'0' n && leb n b'9') || (leb b'a' n && leb n b'f')

-- The test on a digest that does not push an error: 64 bytes, each a lower-case hexadecimal digit
unfoldable pub is_digest : String → Bool
unfolding is_hex_byte
is_digest value = eqb (len value) 64 && all_codes is_hex_byte value

-- The loop over `gate.inputs`, with the set `input_paths`
unfoldable pub check_inputs :
    (gate : String) (paths : List String) → List GateInput → List ValidationError
unfolding is_digest
check_inputs gate paths [] = []
check_inputs gate paths (input ∷ inputs) =
    push_if (not (normalize_repo_relative_path input.path == some input.path))
      (invalid_gate_input_path gate input.path)
    ++ (push_if (not (is_digest input.sha256))
          (invalid_gate_input_digest gate input.path input.sha256)
        ++ (push_if (member paths input.path) (duplicate_gate_input gate input.path)
            ++ check_inputs gate (insert input.path paths) inputs))

-- The loops of `check_ownership` over named lists of values
check_values : (owner : String) → List (String × List String) → List ValidationError
check_values owner [] = []
check_values owner ((field, values) ∷ rest) =
    push_if (any is_blank values) (invalid_ownership_value owner field) ++ check_values owner rest

check_includes : (owner field : String) → List OwnershipInclude → List ValidationError
check_includes owner field [] = []
check_includes owner field (i ∷ rest) =
    push_if (is_blank i.owner_file || is_blank i.include) (invalid_ownership_value owner field)
    ++ check_includes owner field rest

blank_stop : Option String → Bool
blank_stop none = false
blank_stop (some path) = is_blank path

source_values : SourceOwnership → List (String × List String)
source_values s =
    ("ownership.sources.primary_owners", s.primary_owners)
    ∷ ("ownership.sources.effective_owners", s.effective_owners)
    ∷ ("ownership.sources.owner_files", s.owner_files)
    ∷ []

check_source_ownership : (owner : String) → SourceOwnership → List ValidationError
check_source_ownership owner s =
    push_if (is_blank s.source) (invalid_ownership_value owner "ownership.sources.source")
    ++ (check_values owner (source_values s)
        ++ (check_includes owner "ownership.sources.unresolved_includes" s.unresolved_includes
            ++ push_if (blank_stop s.inheritance_stopped_at)
                (invalid_ownership_value owner "ownership.sources.inheritance_stopped_at")))

ownership_values : ModuleOwnership → List (String × List String)
ownership_values o =
    ("ownership.primary_owners", o.primary_owners)
    ∷ ("ownership.effective_owners", o.effective_owners)
    ∷ ("ownership.common_effective_owners", o.common_effective_owners)
    ∷ ("ownership.owner_files", o.owner_files)
    ∷ ("ownership.unresolved_sources", o.unresolved_sources)
    ∷ []

unfoldable pub check_ownership : (owner : String) → ModuleOwnership → List ValidationError
unfolding check_values check_includes blank_stop source_values check_source_ownership
    ownership_values
check_ownership owner o =
    check_values owner (ownership_values o)
    ++ (check_includes owner "ownership.unresolved_includes" o.unresolved_includes
        ++ concat_map (check_source_ownership owner) o.sources)
