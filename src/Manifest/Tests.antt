-- ===== src/Manifest/Tests.antt =====
-- Runs of the manifest's checks, and the theorems at concrete manifests.
use chromifer.Base.{
  ◌≢◌, eq_iff, string_eq, String, ◌≡◌, ◌↔◌, refl, true, false, List, [], ◌∷◌, none, some, NoRepeat,
  inl, inr, string_ord, option_eq,
}
use chromifer.Manifest.Data.{
  Target, CompatibilityGate, direct, Dependency, Module, Manifest, MigrationState, bridged,
  rust_owned, cxx, state_eq, ids_of_modules, parse_state, state_text,
}
use chromifer.Manifest.States.{parse_state_iff}
use chromifer.Base.Results.{ok, err}
use chromifer.Manifest.Wire.{from_wire, to_wire, from_wire_iff}
use chromifer.Manifest.Errors.{valid, invalid, dependency_cycle}
use chromifer.Manifest.Path.{normalize_repo_relative_path, has_drive}
use chromifer.Manifest.Path.Laws.{IsRelative, normalize-IsRelative, normalize-self_iff}
use chromifer.Manifest.Cycle.{run_search, out_of_fuel, find_cycle}
use chromifer.Manifest.Cycle.Walks.{Walk, IsCycle}
use chromifer.Manifest.Cycle.Edges.{DependsOn}
use chromifer.Manifest.Cycle.Laws.{
  run_search-total, IsIdSet, find_cycle-eq-none, find_cycle-IsCycle,
}
use chromifer.Manifest.Validate.{validate}
use chromifer.Manifest.Validate.Spec.{IsValid}
use chromifer.Manifest.Validate.Laws.{validate_iff}
use chromifer.Base.Text.{has_code}

abbrev pub linux : Target
linux = record { id = "linux"; description = "x64"; required = true }

abbrev pub unit : CompatibilityGate
unit = record {
  id = "unit";
  execution = direct "ctest" ("-R" ∷ []);
  inputs = [];
  targets = "linux" ∷ [];
}

abbrev pub on : String → Dependency
on id = record { module_id = id; boundary = cxx; evidence = []; reviews = [] }

abbrev pub part : String → MigrationState → List Dependency → Module
part id state dependencies = record {
  id = id;
  path = "//p";
  owner = "o";
  ownership = none;
  source_label = none;
  source_type = none;
  sources = [];
  state = state;
  gates = "unit" ∷ [];
  reviews = [];
  dependencies = dependencies;
}

abbrev pub with_modules : List Module → Manifest
with_modules modules = record {
  schema_version = 1;
  project = record { name = "n"; upstream = "u"; baseline = "b" };
  inventory = none;
  targets = linux ∷ [];
  gates = unit ∷ [];
  modules = modules;
}

abbrev pub sample : Manifest
sample = with_modules (part "base" rust_owned [] ∷ part "net" bridged (on "base" ∷ []) ∷ [])

abbrev looping : List Module
looping = part "a" bridged (on "b" ∷ []) ∷ part "b" bridged (on "a" ∷ []) ∷ []

sample-valid : validate sample ≡ valid
unfolding validate has_code
sample-valid = refl

looping-invalid : validate (with_modules looping) ≡ invalid (dependency_cycle "a -> b -> a" ∷ [])
unfolding validate has_code
looping-invalid = refl

validate_iff_example : (validate sample ≡ valid) ↔ IsValid sample
validate_iff_example = validate_iff sample

looping-NoRepeat : NoRepeat (ids_of_modules looping)
looping-NoRepeat = (
  λ i. elim i [ inl e ↦ let same : false ≡ true = (eq_iff "a" "b").1 e in cc | inr n ↦ elim n [ ] ],
  (λ i. elim i [ ], tt),
)

looping-IsIdSet : IsIdSet looping ("a" ∷ "b" ∷ [])
looping-IsIdSet a = (λ i. i, λ i. i)

find_cycle-eq-none_example :
    (find_cycle looping ("a" ∷ "b" ∷ []) ≡ none) ↔ ((a : String) → ¬ Walk (DependsOn looping) a a)
find_cycle-eq-none_example =
    find_cycle-eq-none looping ("a" ∷ "b" ∷ []) looping-IsIdSet looping-NoRepeat

looping-found : find_cycle looping ("a" ∷ "b" ∷ []) ≡ some ("a" ∷ "b" ∷ "a" ∷ [])
unfolding find_cycle
looping-found = refl

find_cycle-IsCycle_example : IsCycle (DependsOn looping) ("a" ∷ "b" ∷ "a" ∷ [])
find_cycle-IsCycle_example =
    find_cycle-IsCycle looping ("a" ∷ "b" ∷ []) looping-IsIdSet looping-NoRepeat
      ("a" ∷ "b" ∷ "a" ∷ []) looping-found

dotted-normal : normalize_repo_relative_path "//a\\./b" ≡ some "a/b"
unfolding normalize_repo_relative_path
dotted-normal = refl

-- A result that would be refused if it were normalized again
drive-normal : normalize_repo_relative_path "//C:/x" ≡ some "C:/x"
unfolding normalize_repo_relative_path
drive-normal = refl

normalize-IsRelative_example : IsRelative "C:/x"
normalize-IsRelative_example = normalize-IsRelative "//C:/x" "C:/x" drive-normal

drive-refused : normalize_repo_relative_path "C:/x" ≡ none
unfolding normalize_repo_relative_path
drive-refused = refl

normalize-self_iff_example :
    (normalize_repo_relative_path "a/b" ≡ some "a/b")
    ↔ (IsRelative "a/b" × (has_drive "a/b" ≡ false))
normalize-self_iff_example = normalize-self_iff "a/b"

parse_state_iff_example : (parse_state "bridged" ≡ some bridged) ↔ ("bridged" ≡ state_text bridged)
parse_state_iff_example = parse_state_iff "bridged" bridged

from_wire_iff_example : (from_wire (to_wire unit) ≡ ok unit) ↔ (to_wire unit ≡ to_wire unit)
from_wire_iff_example = from_wire_iff (to_wire unit) unit

-- A gate with both kinds of execution
both_refused :
    from_wire (record (to_wire unit) { command = some "make" })
    ≡ err "gate must declare exactly one of `command` or `program`"
unfolding from_wire
both_refused = refl

run_search-total_example : run_search looping ("a" ∷ "b" ∷ []) ≢ out_of_fuel
run_search-total_example =
    run_search-total looping ("a" ∷ "b" ∷ []) looping-IsIdSet looping-NoRepeat
