-- ===== src/Manifest/Wire.antt =====
-- crates/chromifer-manifest/src/lib.rs: the written form of a gate, with the fields that are there,
-- and what `deserialize` makes of them. An absent list is an empty one.
use chromifer.Base.{◌∙◌, String, ◌≡◌, ◌↔◌, refl, ap, List, [], ◌∷◌, Option, none, some}
use chromifer.Base.Results.{Result, ok, err}
use chromifer.Manifest.Data.{GateExecution, shell, direct, GateInput, CompatibilityGate}

pub record WireGate : Type 0 where
  pub id : String
  pub command : Option String
  pub program : Option String
  pub args : List String
  pub inputs : List GateInput
  pub targets : List String

-- The `match` on `command` and `program`
unfoldable pub wire_execution :
    (command program : Option String) (args : List String) → Result String GateExecution
wire_execution (some command) none [] = ok (shell command)
wire_execution (some command) none (a ∷ args) =
    err "shell gate must not declare direct-execution args"
wire_execution none (some program) args = ok (direct program args)
wire_execution (some command) (some program) args =
    err "gate must declare exactly one of `command` or `program`"
wire_execution none none args = err "gate must declare exactly one of `command` or `program`"

abbrev pub with_execution : WireGate → Result String GateExecution → Result String CompatibilityGate
with_execution w (err message) = err message
with_execution w (ok execution) =
    ok (record { id = w.id; execution = execution; inputs = w.inputs; targets = w.targets })

unfoldable pub from_wire : WireGate → Result String CompatibilityGate
unfolding wire_execution
from_wire w = with_execution w (wire_execution w.command w.program w.args)

-- The fields that the derived `Serialize` writes for an execution
abbrev pub command_of : GateExecution → Option String
command_of (shell command) = some command
command_of (direct program args) = none

abbrev pub program_of : GateExecution → Option String
program_of (shell command) = none
program_of (direct program args) = some program

abbrev pub args_of : GateExecution → List String
args_of (shell command) = []
args_of (direct program args) = args

abbrev pub to_wire : CompatibilityGate → WireGate
to_wire g = record {
  id = g.id;
  command = command_of g.execution;
  program = program_of g.execution;
  args = args_of g.execution;
  inputs = g.inputs;
  targets = g.targets;
}

record Means (command program : Option String) (args : List String) (e : GateExecution)
    : Type 0 where
  command_is : command ≡ command_of e
  program_is : program ≡ program_of e
  args_are : args ≡ args_of e

wire_execution-Means :
    (command program : Option String) (args : List String) (e : GateExecution)
    → wire_execution command program args ≡ ok e
    → Means command program args e
unfolding wire_execution
wire_execution-Means (some c) none [] e h =
    let same : shell c ≡ e = cc h in
    rw⁻¹ same (record { command_is = refl; program_is = refl; args_are = refl })
wire_execution-Means (some c) none (a ∷ args) e h = cc h
wire_execution-Means none (some p) args e h =
    let same : direct p args ≡ e = cc h in
    rw⁻¹ same (record { command_is = refl; program_is = refl; args_are = refl })
wire_execution-Means (some c) (some p) args e h = cc h
wire_execution-Means none none args e h = cc h

written_execution :
    (e : GateExecution) → wire_execution (command_of e) (program_of e) (args_of e) ≡ ok e
unfolding wire_execution
written_execution (shell command) = refl
written_execution (direct program args) = refl

same_fields :
    (w : WireGate) (e : GateExecution)
    → Means w.command w.program w.args e
    → w ≡ to_wire (record { id = w.id; execution = e; inputs = w.inputs; targets = w.targets })
same_fields w e m = cc (m.command_is, m.program_is, m.args_are)

-- A written gate is read as a gate exactly when it is what that gate is written as: what is
-- written is read back, and no other fields are accepted for it.
pub from_wire_iff : (w : WireGate) (g : CompatibilityGate) → (from_wire w ≡ ok g) ↔ (w ≡ to_wire g)
unfolding from_wire
from_wire_iff w g = (
  on_result (wire_execution w.command w.program w.args) refl,
  λ e. rw e (ap (with_execution (to_wire g)) (written_execution g.execution)),
)
  where
    on_result :
        (r : Result String GateExecution)
        → wire_execution w.command w.program w.args ≡ r
        → with_execution w r ≡ ok g
        → w ≡ to_wire g
    on_result (err message) q k = cc k
    on_result (ok e) q k =
        let same : record { id = w.id; execution = e; inputs = w.inputs; targets = w.targets } ≡ g =
          cc k in
        same_fields w e (wire_execution-Means w.command w.program w.args e q) ∙ ap to_wire same
