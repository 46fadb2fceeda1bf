-- ===== src/Manifest/Checks/Laws.antt =====
-- What it means that a check of a manifest pushes no error.
use Prim.Native.String.{len}
use chromifer.Base.{
  ℕ, String, ◌≡◌, ◌≢◌, ◌↔◌, ◌⊎◌, refl, Bool, true, false, List, [], ◌∷◌, none, some, inl, inr,
  arith, All, In, NoRepeat, any-eq-false, map, string_eq, string_ord, option_eq, option_beq_iff,
}
use chromifer.Base.Text.{is_blank, has_code, all_codes}
use chromifer.Base.Sets.{insert, member, member_iff, In-insert}
use chromifer.Manifest.Data.{CompatibilityGate, GateExecution, shell, direct, GateInput}
use chromifer.Manifest.Errors.{ValidationError}
use chromifer.Manifest.Checks.{
  push_if, check_nonempty, check_source_location, collect_ids, execution_fault,
  validate_gate_execution, is_hex_byte, is_digest, check_inputs,
}
use chromifer.Manifest.Path.{normalize_repo_relative_path}

-- Something is left of the text when white space is trimmed.
abbrev pub HasText : String → Type 0
HasText s = is_blank s ≡ false

pub push_if-eq-nil : (b : Bool) (e : ValidationError) → (push_if b e ≡ []) ↔ (b ≡ false)
push_if-eq-nil b e = ground arith

pub check_nonempty-eq-nil :
    (kind id field value : String) → (check_nonempty kind id field value ≡ []) ↔ HasText value
unfolding check_nonempty
check_nonempty-eq-nil kind id field value = ground arith

-- A source location names a file, a line from 1 on, and a detail.
pub record IsLocated (file : String) (line : ℕ) (detail : String) : Type 0 where
  pub has_file : HasText file
  pub has_detail : HasText detail
  pub counted_from_one : line ≢ 0

pub check_source_location-eq-nil :
    (kind id file : String) (line : ℕ) (detail : String)
    → (check_source_location kind id file line detail ≡ []) ↔ IsLocated file line detail
unfolding check_source_location
check_source_location-eq-nil kind id file line detail = (
  λ h. record {
    has_file = ground arith;
    has_detail = ground arith;
    counted_from_one = ground arith;
  },
  λ h. ground arith,
)

-- No item of `xs` is in `found`, and none is listed twice.
abbrev pub AllNew : List String → List String → Type 0
AllNew found xs = All (λ x. ¬ In x found) xs × NoRepeat xs

All-not_In-insert :
    (a : String) (found xs : List String)
    → All (λ x. ¬ In x (insert a found)) xs ↔ (All (λ x. ¬ In x found) xs × (¬ In a xs))
All-not_In-insert a found [] = (λ h. (tt, λ m. elim m [ ]), λ h. tt)
All-not_In-insert a found (x ∷ xs) =
    ground (arith, All-not_In-insert a found xs, In-insert a x found)

pub AllNew-cons :
    (found : List String) (x : String) (xs : List String)
    → AllNew found (x ∷ xs) ↔ ((member found x ≡ false) × AllNew (insert x found) xs)
AllNew-cons found x xs = ground (arith, All-not_In-insert x found xs, member_iff found x)

pub collect_ids-eq-nil :
    (kind : String) (found ids : List String)
    → ((collect_ids kind found ids).1 ≡ []) ↔ AllNew found ids
unfolding collect_ids
collect_ids-eq-nil kind found [] = (λ h. (tt, tt), λ h. refl)
collect_ids-eq-nil kind found (id ∷ ids) =
    ground (arith, collect_ids-eq-nil kind (insert id found) ids, AllNew-cons found id ids)

-- The returned set has the ids that were given.
pub In-collect_ids :
    (kind : String) (found ids : List String) (a : String)
    → In a (collect_ids kind found ids).0 ↔ (In a found ⊎ In a ids)
unfolding collect_ids
In-collect_ids kind found [] a = (λ h. inl h, λ h. elim h [ inl m ↦ m | inr m ↦ elim m [ ] ])
In-collect_ids kind found (id ∷ ids) a =
    ground (arith, In-collect_ids kind (insert id found) ids a, In-insert id a found)

-- A gate that can be executed: a command, or a program with arguments, with no NUL in them.
pub IsRunnable : GateExecution → Type 0
IsRunnable (shell command) = HasText command × (has_code 0 command ≡ false)
IsRunnable (direct program args) =
    HasText program × (has_code 0 program ≡ false) × All (λ a. has_code 0 a ≡ false) args

execution_fault-eq-none : (e : GateExecution) → (execution_fault e ≡ none) ↔ IsRunnable e
unfolding execution_fault IsRunnable
execution_fault-eq-none (shell command) = ground arith
execution_fault-eq-none (direct program args) = ground (arith, any-eq-false (has_code 0) args)

pub validate_gate_execution-eq-nil :
    (g : CompatibilityGate) → (validate_gate_execution g ≡ []) ↔ IsRunnable g.execution
unfolding validate_gate_execution
validate_gate_execution-eq-nil g = ground (arith, execution_fault-eq-none g.execution)

-- An input is named by a path in normal form, and its digest is 64 lower-case hexadecimal digits.
pub record IsValidInput (input : GateInput) : Type 0 where
  pub normalized : normalize_repo_relative_path input.path ≡ some input.path
  pub digest_length : len input.sha256 ≡ 64
  pub digest_digits : all_codes is_hex_byte input.sha256 ≡ true

pub check_inputs-eq-nil :
    (gate : String) (paths : List String) (inputs : List GateInput)
    → (check_inputs gate paths inputs ≡ [])
      ↔ (All IsValidInput inputs × AllNew paths (map (λ (i : GateInput). i.path) inputs))
unfolding check_inputs is_digest
check_inputs-eq-nil gate paths [] = (λ h. (tt, (tt, tt)), λ h. refl)
check_inputs-eq-nil gate paths (i ∷ inputs) = ground (
  arith,
  check_inputs-eq-nil gate (insert i.path paths) inputs,
  AllNew-cons paths i.path (map (λ (i : GateInput). i.path) inputs),
  option_beq_iff (normalize_repo_relative_path i.path) (some i.path),
)
