-- ===== src/Components/Ids.antt =====
-- crates/chromifer-components/src/lib.rs: `assign_component_ids`, `sanitize_id` and `fnv1a_32`.
pub mod Laws
pub mod Forms
use Prim.Native.Char.{Char, code}
use Prim.Native.Nat.{bit_xor}
use Prim.Native.String.{[] as nil, ◌∷◌ as cons, ◌++◌ as ◌<>◌}
use chromifer.Base.{
  ℕ, suc, ◌*◌, ◌%◌, String, Bool, true, false, not, ◌&&◌, List, [], ◌∷◌, Option, none, some, eqb,
  leb, ◌==◌, string_eq, if◌then◌else◌, string_ord,
}
use chromifer.Base.Sets.{TreeMap, get, upsert, insert, member}
use chromifer.Base.Text.{is_ascii_alphanumeric, to_ascii_lowercase, trim_end_by, as_bytes, push_hex}
use chromifer.Components.Data.{GroupDraft}

abbrev pub is_underscore : Char → Bool
is_underscore c = eqb (code c) b'_'

-- The body of the loop over the characters, on `output` and `separator`
unfoldable pub sanitize_char : Char → String × Bool → String × Bool
unfolding is_ascii_alphanumeric to_ascii_lowercase
sanitize_char c (output, separator) =
    if is_ascii_alphanumeric c
    then (output <> cons (to_ascii_lowercase c) nil, false)
    else if not (output == "") && not separator
    then (output <> "_", true)
    else (output, separator)

unfoldable pub sanitize_chars : String × Bool → String → String
unfolding sanitize_char
sanitize_chars (output, separator) nil = output
sanitize_chars state (cons c s) = sanitize_chars (sanitize_char c state) s

-- `output.as_bytes()[0].is_ascii_digit()`
abbrev pub begins_with_digit : String → Bool
begins_with_digit nil = false
begins_with_digit (cons c s) = leb b'0' (code c) && leb (code c) b'9'

abbrev pub finish_id : String → String
finish_id output =
    if output == ""
    then "component"
    else if begins_with_digit output
    then "component_" <> output
    else output

unfoldable pub sanitize_id : String → String
unfolding sanitize_chars trim_end_by
sanitize_id value = finish_id (trim_end_by is_underscore (sanitize_chars ("", false) value))

-- The loop of `fnv1a_32`
unfoldable pub fnv1a_onto : (hash : ℕ) → List ℕ → ℕ
fnv1a_onto hash [] = hash
fnv1a_onto hash (b ∷ bytes) = fnv1a_onto (bit_xor hash b * 0x01000193 % 4294967296) bytes

unfoldable pub fnv1a_32 : List ℕ → ℕ
unfolding fnv1a_onto
fnv1a_32 = fnv1a_onto 0x811c9dc5

unfoldable pub count_bases : TreeMap String ℕ → List GroupDraft → TreeMap String ℕ
unfolding upsert sanitize_id
count_bases counts [] = counts
count_bases counts (g ∷ groups) =
    count_bases (upsert (sanitize_id g.path) 0 (λ n. suc n) counts) groups

-- `base_counts[&base] == 1`; every base is counted.
abbrev pub is_single : Option ℕ → Bool
is_single none = false
is_single (some n) = eqb n 1

abbrev pub plain_id : TreeMap String ℕ → GroupDraft → String
plain_id counts g =
    if is_single (get counts (sanitize_id g.path))
    then sanitize_id g.path
    else sanitize_id g.owner <> ("_" <> sanitize_id g.path)

abbrev pub hashed_id : GroupDraft → (candidate : String) → String
hashed_id g candidate =
    candidate <> ("_" <> push_hex 8 (fnv1a_32 (as_bytes (g.owner <> (":" <> g.path)))) "")

abbrev pub group_id : TreeMap String ℕ → (used : List String) → GroupDraft → String
group_id counts used g =
    let candidate = plain_id counts g in
    if member used candidate then hashed_id g candidate else candidate

unfoldable pub assign_ids : TreeMap String ℕ → (used : List String) → List GroupDraft → List String
unfolding get sanitize_id member fnv1a_32 push_hex as_bytes insert
assign_ids counts used [] = []
assign_ids counts used (g ∷ groups) =
    let id = group_id counts used g in id ∷ assign_ids counts (insert id used) groups

unfoldable pub assign_component_ids : List GroupDraft → List String
unfolding count_bases assign_ids
assign_component_ids groups = assign_ids (count_bases [] groups) [] groups
