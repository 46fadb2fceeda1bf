-- ===== src/Attestation/Disk.antt =====
-- crates/chromifer-attestation/src/lib.rs: the files that the crate reads and writes, on a Unix system. A
-- path leads to a file by its number, so that two paths can lead to one file.
pub mod Writing
use Prim.Native.Char.{Char, code}
use Prim.Native.String.{[] as nil, ◌∷◌ as cons}
use chromifer.Base.{
  ◌%◌, ℕ, String, Bool, true, false, not, List, Option, none, some, ◌==◌, string_eq, list_eq,
  nat_eq, eqb, if◌then◌else◌, map,
}
use chromifer.Base.Results.{Result, ok, err, ◌>>=◌}
use chromifer.Base.Text.{replace}
use chromifer.Manifest.Path.{Component, root_dir, cur_dir, parent_dir, normal, components}
use chromifer.Attestation.Data.{
  AttestationError, invalid_file, insecure_private_key_permissions, read_file, output_exists,
  output_aliases_input, drift, write_file,
}

-- A component of a path as a text of its own: no name is `/`, `.` or `..`.
abbrev pub component_text : Component → String
component_text root_dir = "/"
component_text cur_dir = "."
component_text parent_dir = ".."
component_text (normal s) = s

-- `left == right`, which compares paths by their components
unfoldable pub same_path : (left right : String) → Bool
unfolding components
same_path left right = map component_text (components left) == map component_text (components right)

pub data Node : Type 0 where
  file : (number mode : ℕ) → Node
  symlink other_node : Node

-- What `fs::symlink_metadata` gives
pub data Lookup : Type 0 where
  found : Node → Lookup
  not_found unreachable : Lookup

-- `content` is `none` where reading fails; `create` says number and mode of a file that is made at a
-- path, or that writing there fails; `is_writable` says whether a file is written.
pub record Disk : Type 0 where
  pub entry : String → Lookup
  pub content : ℕ → Option (List ℕ)
  pub create : String → Option (ℕ × ℕ)
  pub is_writable : ℕ → Bool

abbrev pub Try : Type 0 → Type 0
Try A = Result AttestationError A

unfoldable pub display : String → String
unfolding replace
display = replace b'\\' "/"

-- `regular_file_metadata`: the number and the mode of the file
abbrev pub regular_node : (path : String) → Lookup → Try (ℕ × ℕ)
regular_node path (found (file number mode)) = ok (number, mode)
regular_node path _ = err (invalid_file (display path))

unfoldable pub regular_file_metadata : Disk → (path : String) → Try (ℕ × ℕ)
unfolding display
regular_file_metadata disk path = regular_node path (disk.entry path)

abbrev pub content_or : (path : String) → Option (List ℕ) → Try (List ℕ)
content_or path none = err (read_file (display path))
content_or path (some bytes) = ok bytes

unfoldable pub read_regular_file : Disk → (path : String) → Try (List ℕ)
unfolding regular_file_metadata
read_regular_file disk path =
    regular_file_metadata disk path >>= λ (number, mode). content_or path (disk.content number)

-- `mode & 0o077` is the remainder by 64.
unfoldable pub validate_private_permissions : (path : String) (mode : ℕ) → Try Unit
unfolding display
validate_private_permissions path mode =
    if not (eqb (mode % 64) 0) then err (insecure_private_key_permissions (display path)) else ok tt

abbrev pub same_file : (output input : String) (left right : ℕ) → Try Unit
same_file output input left right =
    if eqb left right then err (output_aliases_input (display output) (display input)) else ok tt

-- A node of the output that is no file differs from every file.
abbrev pub alias_check : Disk → (output input : String) → Lookup → Try Unit
alias_check disk output input (found symlink) = err (invalid_file (display output))
alias_check disk output input (found other_node) = regular_file_metadata disk input >>= λ _. ok tt
alias_check disk output input (found (file number mode)) =
    regular_file_metadata disk input >>= λ (n, m). same_file output input number n
alias_check disk output input _ = ok tt

unfoldable pub reject_output_alias : Disk → (output input : String) → Try Unit
unfolding regular_file_metadata display same_path
reject_output_alias disk output input =
    if same_path output input
    then err (output_aliases_input (display output) (display input))
    else alias_check disk output input (disk.entry output)

abbrev pub set_content : Disk → (number : ℕ) → List ℕ → Disk
set_content disk number bytes = record disk {
  content = λ n. if eqb n number then some bytes else disk.content n;
}

abbrev pub create_file : Disk → (path : String) → List ℕ → Option (ℕ × ℕ) → Try Disk
create_file disk path bytes none = err (write_file (display path))
create_file disk path bytes (some (number, mode)) = ok (record (set_content disk number bytes) {
  entry = λ p. if same_path p path then found (file number mode) else disk.entry p;
})

-- `write_or_check` behind its branch for `check`
abbrev pub write_over : Disk → (path : String) → List ℕ → (force : Bool) → Lookup → Try Disk
write_over disk path bytes force (found (file number mode)) =
    if not force
    then err (output_exists (display path))
    else if disk.is_writable number
    then ok (set_content disk number bytes)
    else err (write_file (display path))
write_over disk path bytes force not_found = create_file disk path bytes (disk.create path)
write_over disk path bytes force _ = err (invalid_file (display path))

abbrev pub same_or_drift : (path : String) → List ℕ → Try (List ℕ) → Try Unit
same_or_drift path bytes (ok actual) =
    if not (actual == bytes) then err (drift (display path)) else ok tt
same_or_drift path bytes (err e) = err (drift (display path))

unfoldable pub write_or_check : Disk → (path : String) → List ℕ → (force check : Bool) → Try Disk
unfolding read_regular_file display same_path
write_or_check disk path bytes force check =
    if check
    then (same_or_drift path bytes (read_regular_file disk path) >>= λ _. ok disk)
    else write_over disk path bytes force (disk.entry path)
