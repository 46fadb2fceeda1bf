-- ===== src/Components/Ids/Forms.antt =====
-- Which ids `assign_component_ids` gives out.
use Prim.Native.String.{◌++◌ as ◌<>◌}
use chromifer.Base.{
  ℕ, String, ◌≡◌, ◌⊎◌, inl, inr, refl, Bool, true, false, List, if◌then◌else◌, string_ord,
}
use chromifer.Base.Sets.{TreeMap, get, member}
use chromifer.Components.Data.{GroupDraft}
use chromifer.Components.Ids.{sanitize_id, is_single, plain_id, hashed_id, group_id}

-- The sanitized path, or owner and path
abbrev pub IsPlain : (owner path id : String) → Type 0
IsPlain owner path id =
    (id ≡ sanitize_id path) ⊎ (id ≡ sanitize_id owner <> ("_" <> sanitize_id path))

-- Such an id, or one with a suffix
abbrev pub IsIdOf : (owner path id : String) → Type 0
IsIdOf owner path id =
    IsPlain owner path id
    ⊎ ((plain suffix : String) × IsPlain owner path plain × (id ≡ plain <> ("_" <> suffix)))

plain_id-IsPlain :
    (counts : TreeMap String ℕ) (g : GroupDraft) → IsPlain g.owner g.path (plain_id counts g)
plain_id-IsPlain counts g = by_test (is_single (get counts (sanitize_id g.path)))
  where
    by_test :
        (b : Bool)
        → IsPlain g.owner g.path
            (if b then sanitize_id g.path else sanitize_id g.owner <> ("_" <> sanitize_id g.path))
    by_test true = inl refl
    by_test false = inr refl

pub group_id-IsIdOf :
    (counts : TreeMap String ℕ) (used : List String) (g : GroupDraft)
    → IsIdOf g.owner g.path (group_id counts used g)
group_id-IsIdOf counts used g = by_test (member used (plain_id counts g))
  where
    by_test :
        (b : Bool)
        → IsIdOf g.owner g.path (if b then hashed_id g (plain_id counts g) else plain_id counts g)
    by_test true = inr (plain_id counts g, _, plain_id-IsPlain counts g, refl)
    by_test false = inl (plain_id-IsPlain counts g)
