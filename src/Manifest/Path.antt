-- ===== src/Manifest/Path.antt =====
-- crates/chromifer-manifest/src/lib.rs: `normalize_repo_relative_path`, with the part of
-- `std::path::Path::components` that it uses, on a platform whose separator is `/`.
pub mod Pieces
pub mod Laws
use Prim.Native.Char.{Char, code}
use Prim.Native.String.{[] as nil, ◌∷◌ as cons}
use chromifer.Base.{
  ℕ, String, Bool, true, false, ◌++◌, ◌&&◌, ◌||◌, List, [], ◌∷◌, Option, none, some, ltb, eqb, ◌==◌,
  string_eq, if◌then◌else◌,
}
use chromifer.Base.Text.{replace, split, join}

-- `value.strip_prefix("//")`
strip_root : String → Option String
strip_root (cons a (cons b rest)) =
    if eqb (code a) b'/' && eqb (code b) b'/' then some rest else none
strip_root _ = none

-- `value.starts_with('/')`
pub is_rooted : String → Bool
is_rooted nil = false
is_rooted (cons a rest) = eqb (code a) b'/'

-- `value.as_bytes().get(1) == Some(&b':')`: the second byte is a character of its own only if the
-- first character is one byte long.
pub has_drive : String → Bool
has_drive (cons a (cons b rest)) = ltb (code a) 128 && eqb (code b) b':'
has_drive _ = false

-- `std::path::Component`, without the prefixes of other platforms
pub data Component : Type 0 where
  root_dir cur_dir parent_dir : Component
  normal : String → Component

-- The segments of a path behind its first: empty ones and `.` are passed over.
later_components : List String → List Component
later_components [] = []
later_components (s ∷ rest) =
    let more = later_components rest in
    if s == "" || s == "." then more else if s == ".." then parent_dir ∷ more else normal s ∷ more

-- Only a leading `.` is a component.
first_components : List String → List Component
first_components [] = []
first_components (s ∷ rest) =
    if s == "." then cur_dir ∷ later_components rest else later_components (s ∷ rest)

-- `Path::new(value).components()`
unfoldable pub components : String → List Component
unfolding is_rooted later_components first_components split
components value =
    if is_rooted value
    then root_dir ∷ later_components (split b'/' value)
    else first_components (split b'/' value)

-- The loop over the components, with its early return
collect : List String → List Component → Option (List String)
collect segments [] = some segments
collect segments (normal s ∷ rest) = collect (segments ++ s ∷ []) rest
collect segments (cur_dir ∷ rest) = collect segments rest
collect segments (parent_dir ∷ rest) = none
collect segments (root_dir ∷ rest) = none

-- `(!segments.is_empty()).then(|| segments.join("/"))`
join_segments : Option (List String) → Option String
join_segments none = none
join_segments (some []) = none
join_segments (some (s ∷ rest)) = some (join "/" (s ∷ rest))

normalize_relative : String → Option String
normalize_relative value = join_segments (collect [] (components value))

-- The branches on `normalized`, behind `strip_prefix`
normalize_stripped : String → Option String → Option String
normalize_stripped normalized (some relative) = normalize_relative relative
normalize_stripped normalized none =
    if is_rooted normalized || has_drive normalized then none else normalize_relative normalized

unfoldable pub normalize_repo_relative_path : String → Option String
unfolding strip_root is_rooted has_drive later_components first_components components collect
    join_segments normalize_relative normalize_stripped replace split join
normalize_repo_relative_path value =
    let normalized = replace b'\\' "/" value in
    normalize_stripped normalized (strip_root normalized)
