-- ===== src/Components/Groups.antt =====
-- crates/chromifer-components/src/lib.rs: `build_groups`, with the paths and owners of modules.
pub mod Laws
use Prim.Native.Char.{Char, code}
use Prim.Native.String.{[] as nil, ◌∷◌ as cons}
use chromifer.Base.{
  ℕ, suc, zero, String, Bool, true, false, not, ◌&&◌, List, [], ◌∷◌, ◌++◌, Option, none, some, eqb,
  ◌==◌, string_eq, if◌then◌else◌, map, filter, is_empty, string_ord, pair_ord,
}
use chromifer.Base.Sets.{TreeMap, upsert}
use chromifer.Base.Sort.{sort_by}
use chromifer.Base.Text.{is_slash, replace, split, split_once, join, trim_start_by, trim_end_by}
use chromifer.Manifest.Data.{Manifest, Module, ModuleOwnership}
use chromifer.Components.Data.{GroupDraft}

-- `trim_start_matches` of a pair of characters
unfoldable pub trim_pairs : ℕ → ℕ → String → String
trim_pairs m n nil = nil
trim_pairs m n (cons a nil) = cons a nil
trim_pairs m n (cons a (cons b s)) =
    let rest = trim_pairs m n s in
    if eqb (code a) m && eqb (code b) n then rest else cons a (cons b s)

unfoldable pub normalize_path : String → String
unfolding replace trim_start_by trim_end_by trim_pairs
normalize_path path =
    trim_pairs b'.' b'/' (trim_end_by is_slash (trim_start_by is_slash (replace b'\\' "/" path)))

-- `text.split_once(separator).map_or(text, |(left, _)| left)`
abbrev pub before_or : String → Option (String × String) → String
before_or text none = text
before_or text (some (left, right)) = left

unfoldable pub label_path : (label : String) → String
unfolding split_once trim_pairs
label_path label =
    let base = trim_pairs b'/' b'/' (before_or label (split_once b'(' label)) in
    before_or base (split_once b':' base)

abbrev pub path_of_label : (id : String) → Option String → String
path_of_label id none = id
path_of_label id (some label) =
    if label_path label == "" then id else normalize_path (label_path label)

unfoldable pub usable_module_path : Module → String
unfolding normalize_path label_path
usable_module_path x =
    let path = normalize_path x.path in
    if not (path == ".") && not (path == "") then path else path_of_label x.id x.source_label

abbrev pub take_strings : ℕ → List String → List String
take_strings zero xs = []
take_strings (suc n) [] = []
take_strings (suc n) (x ∷ xs) = x ∷ take_strings n xs

abbrev pub is_segment : String → Bool
is_segment segment = not (segment == "") && not (segment == ".")

abbrev pub first_segments : (id : String) (path_depth : ℕ) → List String → String
first_segments id path_depth [] = id
first_segments id path_depth (s ∷ segments) = join "/" (take_strings path_depth (s ∷ segments))

unfoldable pub component_path : Module → (path_depth : ℕ) → String
unfolding usable_module_path split join
component_path x path_depth =
    first_segments x.id path_depth (filter is_segment (split b'/' (usable_module_path x)))

abbrev pub owner_key : (owner : String) → Option ModuleOwnership → String
owner_key owner none = owner
owner_key owner (some o) =
    if not (is_empty o.primary_owners) then join "," o.primary_owners else owner

unfoldable pub module_owner_key : Module → String
unfolding join
module_owner_key x = owner_key x.owner x.ownership

abbrev pub group_key : (path_depth : ℕ) → Module → String × String
group_key path_depth x = (module_owner_key x, component_path x path_depth)

-- The loop over the modules
unfoldable pub collect_groups :
    (path_depth : ℕ)
    → TreeMap (String × String) (List Module)
    → List Module
    → TreeMap (String × String) (List Module)
unfolding upsert module_owner_key component_path
collect_groups path_depth grouped [] = grouped
collect_groups path_depth grouped (x ∷ modules) =
    collect_groups path_depth (upsert (group_key path_depth x) [] (λ ms. ms ++ x ∷ []) grouped)
      modules

abbrev pub draft_of : (String × String) × List Module → GroupDraft
draft_of ((owner, path), modules) = record {
  path = path;
  owner = owner;
  modules = sort_by (λ (l r : Module). string_ord.cmp l.id r.id) modules;
}

unfoldable pub build_groups : Manifest → (path_depth : ℕ) → List GroupDraft
unfolding collect_groups
build_groups m path_depth = map draft_of (collect_groups path_depth [] m.modules)
