-- ===== src/Owners/Include.antt =====
-- crates/chromifer-owners/src/lib.rs: the paths that OWNERS files name. The tree of files is a
-- parameter.
use Prim.Native.Char.{Char, code}
use Prim.Native.String.{[] as nil, ◌∷◌ as cons, len}
use chromifer.Base.{
  String, Bool, false, not, ◌&&◌, List, [], ◌∷◌, ◌++◌, Option, none, some, eqb, ◌==◌, string_eq,
  if◌then◌else◌, map,
}
use chromifer.Base.Results.{Result, ok, err}
use chromifer.Base.Text.{is_slash, trim_start_by, starts_with, push_left}
use chromifer.Manifest.Path.{Component, root_dir, cur_dir, parent_dir, normal, components}
use chromifer.Owners.Data.{RepoPath, path_string, OwnershipError, missing_include}

-- What the crate asks of the file system, below a root
pub record Files : Type 0 where
  pub is_file : RepoPath → Bool
  pub read : RepoPath → Option String
  pub full_text : RepoPath → String

-- `path.pop()`, and `path.parent()` of a path with a component
abbrev pub parent_path : RepoPath → RepoPath
parent_path [] = []
parent_path (x ∷ []) = []
parent_path (x ∷ y ∷ rest) = x ∷ parent_path (y ∷ rest)

unfoldable pub collect_repo : RepoPath → List Component → Option RepoPath
collect_repo acc [] = some acc
collect_repo acc (normal s ∷ rest) = collect_repo (acc ++ s ∷ []) rest
collect_repo acc (cur_dir ∷ rest) = collect_repo acc rest
collect_repo acc (parent_dir ∷ rest) = none
collect_repo acc (root_dir ∷ rest) = none

unfoldable pub normalize_repo_path : List Component → Option RepoPath
unfolding collect_repo
normalize_repo_path = collect_repo []

unfoldable pub collect_join : RepoPath → List Component → Option RepoPath
collect_join acc [] = some acc
collect_join acc (normal s ∷ rest) = collect_join (acc ++ s ∷ []) rest
collect_join acc (cur_dir ∷ rest) = collect_join acc rest
collect_join [] (parent_dir ∷ rest) = none
collect_join (x ∷ acc) (parent_dir ∷ rest) = collect_join (parent_path (x ∷ acc)) rest
collect_join acc (root_dir ∷ rest) = none

abbrev pub join_onto : Option RepoPath → List Component → Option RepoPath
join_onto none cs = none
join_onto (some base) cs = collect_join base cs

unfoldable pub normalize_join : (base : RepoPath) → List Component → Option RepoPath
unfolding normalize_repo_path collect_join
normalize_join base relative = join_onto (normalize_repo_path (map normal base)) relative

-- `include.trim_start_matches('/')`
abbrev pub root_relative : String → String
root_relative include = trim_start_by is_slash include

abbrev pub found_file : Files → RepoPath → String → Option RepoPath → Result OwnershipError RepoPath
found_file fs owner_file include none = err (missing_include (path_string owner_file) include)
found_file fs owner_file include (some path) =
    if not (fs.is_file path)
    then err (missing_include (path_string owner_file) include)
    else ok path

unfoldable pub resolve_include :
    Files → (owner_file : RepoPath) → String → Result OwnershipError RepoPath
unfolding normalize_join components trim_start_by path_string
resolve_include fs owner_file include = found_file fs owner_file include (
    if not (eqb (len (root_relative include)) (len include))
    then normalize_join [] (components (root_relative include))
    else normalize_join (parent_path owner_file) (components include))

-- `include.rsplit_once(":/")`
abbrev pub split_here : Char → String → Option (String × String)
split_here c nil = none
split_here c (cons d s) = if eqb (code c) b':' && eqb (code d) b'/' then some (nil, s) else none

abbrev pub push_or :
    Char → Option (String × String) → Option (String × String) → Option (String × String)
push_or c (some parts) other = push_left c (some parts)
push_or c none other = other

unfoldable pub split_project : String → Option (String × String)
split_project nil = none
split_project (cons c s) = push_or c (split_project s) (split_here c s)

abbrev pub names_project : Option (String × String) → Bool
names_project none = false
names_project (some (project, path)) =
    not (project == "") && (not (starts_with "/" project) && not (path == ""))

unfoldable pub is_external_include : String → Bool
unfolding split_project starts_with
is_external_include include = names_project (split_project include)
