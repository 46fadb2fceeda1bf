-- ===== src/Components/Groups/Laws.antt =====
-- The groups partition the modules by owner and path.
use mathlib.Core.List.Perm
use mathlib.Core.List.{Perm}
use chromifer.Base.{
  ℕ, String, ◌≡◌, inl, inr, refl, ap, List, [], ◌∷◌, ◌++◌, map, All, Ordering, string_ord, pair_ord,
  concat_map, In, append_assoc, append-nil, subst, ◌≢◌, append-eq-nil, All-append, NoRepeat,
  All-of_In, All-In, All-of_In, All-In,
}
use chromifer.Base.Sets.{
  TreeMap, upsert, upsert-cases, keys, keys-upsert, IsIncreasing, insert-IsIncreasing,
  IsIncreasing-NoRepeat,
}
use chromifer.Base.Sort.{sort_by, sort_by-perm, In-sort_by, Perm-middle}
use chromifer.Manifest.Data.{Manifest, Module}
use chromifer.Components.Data.{GroupDraft}
use chromifer.Components.Groups.{group_key, collect_groups, draft_of, build_groups}

-- All the modules of a map of groups
abbrev grouped_modules : TreeMap (String × String) (List Module) → List Module
grouped_modules [] = []
grouped_modules ((k, ms) ∷ rest) = ms ++ grouped_modules rest

upsert-Perm :
    (k : String × String) (x : Module) (m : TreeMap (String × String) (List Module))
    → Perm (grouped_modules (upsert k [] (λ ms. ms ++ x ∷ []) m)) (x ∷ grouped_modules m)
upsert-Perm k x [] = unfold upsert in Perm.refl (x ∷ [])
upsert-Perm k x ((j, ms) ∷ m) = elim (upsert-cases k [] (λ ms. ms ++ x ∷ []) j ms m) [
  | inl e ↦ rw e (Perm.refl _)
  | inr (inl (same, e)) ↦ rw (e, append_assoc) (Perm-middle ms (grouped_modules m) x)
  | inr (inr e) ↦
      rw e (
        Perm.trans (Perm.append_left ms (upsert-Perm k x m)) (Perm-middle ms (grouped_modules m) x))
]

collect_groups-Perm :
    (path_depth : ℕ) (grouped : TreeMap (String × String) (List Module)) (xs : List Module)
    → Perm (grouped_modules (collect_groups path_depth grouped xs)) (grouped_modules grouped ++ xs)
unfolding collect_groups
collect_groups-Perm path_depth grouped [] = rw append-nil (Perm.refl _)
collect_groups-Perm path_depth grouped (x ∷ xs) =
    let k = group_key path_depth x in
    Perm.trans (collect_groups-Perm path_depth (upsert k [] (λ ms. ms ++ x ∷ []) grouped) xs) (
      Perm.trans (Perm.append_right xs (upsert-Perm k x grouped))
        (Perm.symm (Perm-middle (grouped_modules grouped) xs x)))

-- Each entry has modules, and they have its key.
abbrev IsEntry : ℕ → (String × String) × List Module → Type 0
IsEntry path_depth (k, ms) = All (λ x. group_key path_depth x ≡ k) ms × (ms ≢ [])

upsert-IsEntry :
    (path_depth : ℕ) (x : Module) (m : TreeMap (String × String) (List Module))
    → All (IsEntry path_depth) m
    → All (IsEntry path_depth) (upsert (group_key path_depth x) [] (λ ms. ms ++ x ∷ []) m)
upsert-IsEntry path_depth x [] h = unfold upsert in (((refl, tt), λ e. cc), tt)
upsert-IsEntry path_depth x ((j, ms) ∷ m) ((keyed, some), rest) =
    elim (upsert-cases (group_key path_depth x) [] (λ ms. ms ++ x ∷ []) j ms m) [
      | inl e ↦ rw e (((refl, tt), λ e. cc), ((keyed, some), rest))
      | inr (inl (same, e)) ↦ rw e (
        (
          All-append (λ x. group_key path_depth x ≡ j) ms (x ∷ []) keyed (same, tt),
          λ n. absurd (some ((append-eq-nil ms (x ∷ [])).0 n).0),
        ),
        rest,
      )
      | inr (inr e) ↦ rw e ((keyed, some), upsert-IsEntry path_depth x m rest)
    ]

collect_groups-IsEntry :
    (path_depth : ℕ) (grouped : TreeMap (String × String) (List Module)) (xs : List Module)
    → All (IsEntry path_depth) grouped
    → All (IsEntry path_depth) (collect_groups path_depth grouped xs)
unfolding collect_groups
collect_groups-IsEntry path_depth grouped [] h = h
collect_groups-IsEntry path_depth grouped (x ∷ xs) h =
    collect_groups-IsEntry path_depth
      (upsert (group_key path_depth x) [] (λ ms. ms ++ x ∷ []) grouped) xs
      (upsert-IsEntry path_depth x grouped h)

collect_groups-IsIncreasing :
    (path_depth : ℕ) (grouped : TreeMap (String × String) (List Module)) (xs : List Module)
    → IsIncreasing (keys grouped)
    → IsIncreasing (keys (collect_groups path_depth grouped xs))
unfolding collect_groups
collect_groups-IsIncreasing path_depth grouped [] h = h
collect_groups-IsIncreasing path_depth grouped (x ∷ xs) h =
    let k = group_key path_depth x in
    collect_groups-IsIncreasing path_depth (upsert k [] (λ ms. ms ++ x ∷ []) grouped) xs
      (rw (keys-upsert k [] (λ ms. ms ++ x ∷ []) grouped) (insert-IsIncreasing k (keys grouped) h))

abbrev pub group_name : GroupDraft → String × String
group_name g = (g.owner, g.path)

-- Every module is in one group, with its owner and its path, no two groups have the same owner and
-- path, and none is empty.
pub record IsGrouping (m : Manifest) (path_depth : ℕ) (groups : List GroupDraft) : Type 0 where
  pub modules : Perm (concat_map (λ (g : GroupDraft). g.modules) groups) m.modules
  pub keyed :
      All (λ (g : GroupDraft). All (λ x. group_key path_depth x ≡ group_name g) g.modules) groups
  pub inhabited : All (λ (g : GroupDraft). g.modules ≢ []) groups
  pub once : NoRepeat (map group_name groups)

drafts-Perm :
    (m : TreeMap (String × String) (List Module))
    → Perm (concat_map (λ (g : GroupDraft). g.modules) (map draft_of m)) (grouped_modules m)
drafts-Perm [] = Perm.refl []
drafts-Perm ((k, ms) ∷ m) =
    Perm.trans (Perm.append_right _ (sort_by-perm _ ms)) (Perm.append_left ms (drafts-Perm m))

drafts-keys :
    (m : TreeMap (String × String) (List Module)) → map group_name (map draft_of m) ≡ keys m
drafts-keys [] = refl
drafts-keys ((k, ms) ∷ m) = ap (λ ks. k ∷ ks) (drafts-keys m)

drafts-keyed :
    (path_depth : ℕ) (m : TreeMap (String × String) (List Module))
    → All (IsEntry path_depth) m
    → All
        (λ (g : GroupDraft). All (λ x. group_key path_depth x ≡ group_name g) g.modules)
        (map draft_of m)
drafts-keyed path_depth [] h = tt
drafts-keyed path_depth ((k, ms) ∷ m) h = (
  All-of_In (λ x. group_key path_depth x ≡ k) _
      (λ x i.
        All-In (λ x. group_key path_depth x ≡ k) ms x h.0.0
          ((In-sort_by (λ (l r : Module). string_ord.cmp l.id r.id) x ms).0 i)),
  drafts-keyed path_depth m h.1,
)

drafts-inhabited :
    (path_depth : ℕ) (m : TreeMap (String × String) (List Module))
    → All (IsEntry path_depth) m
    → All (λ (g : GroupDraft). g.modules ≢ []) (map draft_of m)
drafts-inhabited path_depth [] h = tt
drafts-inhabited path_depth ((k, ms) ∷ m) h = (sorted ms h.0.1, drafts-inhabited path_depth m h.1)
  where
    by_id : Module → Module → Ordering
    by_id l r = string_ord.cmp l.id r.id

    sorted : (ms : List Module) → ms ≢ [] → sort_by by_id ms ≢ []
    sorted [] some e = some refl
    sorted (x ∷ ms) some e = subst (λ xs. In x xs) e ((In-sort_by by_id x (x ∷ ms)).1 (inl refl))

-- The groups hold between them the modules of the manifest, each as often as the manifest does;
-- the modules of a group have its owner and its path, no two groups have both in common, and no
-- group is empty.
pub build_groups-IsGrouping :
    (m : Manifest) (path_depth : ℕ) → IsGrouping m path_depth (build_groups m path_depth)
unfolding build_groups
build_groups-IsGrouping m path_depth =
    let grouped = collect_groups path_depth [] m.modules in
    let entries = collect_groups-IsEntry path_depth [] m.modules tt in
    record {
      modules = Perm.trans (drafts-Perm grouped) (collect_groups-Perm path_depth [] m.modules);
      keyed = drafts-keyed path_depth grouped entries;
      inhabited = drafts-inhabited path_depth grouped entries;
      once = rw (drafts-keys grouped) (
          IsIncreasing-NoRepeat (keys grouped)
            (collect_groups-IsIncreasing path_depth [] m.modules tt));
    }
