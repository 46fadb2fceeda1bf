-- ===== src/Owners/Summary/Laws.antt =====
-- What the summary of a module says of its sources.
use chromifer.Base.{
  String, ◌≡◌, ◌≢◌, ◌↔◌, ◌⊎◌, inl, inr, refl, sym, Bool, true, false, List, [], ◌∷◌, Option, none,
  some, if◌then◌else◌, In, In-filter, In-map, In-map_inv, ◌∙◌, Ordering, map, arith, length,
  string_ord, list_ord, is_empty, ltb, subst,
}
use chromifer.Base.Sets.{
  extend, member, member_iff, In-insert, In-extend, IsIncreasing, insert-IsIncreasing,
}
use chromifer.Manifest.Data.{SourceOwnership}
use chromifer.Owners.Summary.{
  Summed, nothing_summed, meet, add_source_ownership, sum_sources, common_of,
  summarize_module_ownership,
}

abbrev pub IsOwnedSource : SourceOwnership → Type 0
IsOwnedSource s = is_empty s.effective_owners ≡ false

-- The owner is an effective owner of each source that has any.
abbrev pub OwnsAll : String → List SourceOwnership → Type 0
OwnsAll o sources = (s : SourceOwnership) → In s sources → IsOwnedSource s → In o s.effective_owners

abbrev pub SomeOwned : List SourceOwnership → Type 0
SomeOwned sources = (s : SourceOwnership) × In s sources × IsOwnedSource s

-- The set of common owners, once there is one
abbrev Common : Option (List String) → String → Type 0
Common none o = Unit
Common (some owners) o = In o owners

In-meet :
    (c : Option (List String)) (current : List String) (o : String)
    → In o (meet c current) ↔ (Common c o × In o current)
In-meet none current o = (λ h. (tt, h), λ h. h.1)
In-meet (some previous) current o =
    ground (arith, In-filter (member current) previous o, member_iff current o)

add_source-common :
    (acc : Summed) (s : SourceOwnership) (o : String)
    → Common (add_source_ownership acc s).common o
      ↔ (Common acc.common o × (IsOwnedSource s → In o s.effective_owners))
unfolding add_source_ownership
add_source-common acc s o = by_test (is_empty s.effective_owners) refl
  where
    by_test :
        (b : Bool)
        → is_empty s.effective_owners ≡ b
        → Common (if b then acc.common else some (meet acc.common (extend [] s.effective_owners))) o
          ↔ (Common acc.common o × (IsOwnedSource s → In o s.effective_owners))
    by_test true e = (λ h. (h, λ k. absurd cc), λ h. h.0)
    by_test false e =
        let m = In-meet acc.common (extend [] s.effective_owners) o in
        let x = In-extend o [] s.effective_owners in
        (
          λ h. let (c, i) = m.0 h in (c, λ _. elim (x.0 i) [ inl j ↦ elim j [ ] | inr j ↦ j ]),
          λ (c, i). m.1 (c, x.1 (inr (i e))),
        )

sum_sources-common :
    (acc : Summed) (sources : List SourceOwnership) (o : String)
    → Common (sum_sources acc sources).common o ↔ (Common acc.common o × OwnsAll o sources)
unfolding sum_sources
sum_sources-common acc [] o = (λ h. (h, λ s m. elim m [ ]), λ h. h.0)
sum_sources-common acc (s ∷ sources) o =
    let rest = sum_sources-common (add_source_ownership acc s) sources o in
    let first = add_source-common acc s o in
    (
      λ h.
          let (c, all) = rest.0 h in
          let (d, one) = first.0 c in
          (
            d,
            λ t m. elim m [
              | inl e ↦ λ k.
                  subst (λ (t : SourceOwnership). In o t.effective_owners) (sym e)
                    (one (subst IsOwnedSource e k))
              | inr r ↦ all t r
            ],
          ),
      λ (d, all). rest.1 (first.1 (d, all s (inl refl)), λ t m. all t (inr m)),
    )

-- There is a set of common owners when some source has any.
abbrev IsThere : {A : Type 0} → Option A → Type 0
IsThere none = ⊥
IsThere (some a) = Unit

add_source-IsThere :
    (acc : Summed) (s : SourceOwnership)
    → IsThere (add_source_ownership acc s).common ↔ (IsThere acc.common ⊎ IsOwnedSource s)
unfolding add_source_ownership
add_source-IsThere acc s = by_test (is_empty s.effective_owners) refl
  where
    by_test :
        (b : Bool)
        → is_empty s.effective_owners ≡ b
        → IsThere (if b then acc.common else some (meet acc.common (extend [] s.effective_owners)))
          ↔ (IsThere acc.common ⊎ IsOwnedSource s)
    by_test true e = (λ h. inl h, λ h. elim h [ inl c ↦ c | inr k ↦ absurd cc ])
    by_test false e = (λ h. inr e, λ h. tt)

SomeOwned-cons :
    (s : SourceOwnership) (sources : List SourceOwnership)
    → SomeOwned (s ∷ sources) ↔ (IsOwnedSource s ⊎ SomeOwned sources)
SomeOwned-cons s sources = (
  λ (t, m, k). elim m [ inl e ↦ inl (subst IsOwnedSource e k) | inr r ↦ inr (t, r, k) ],
  λ h. elim h [ inl k ↦ (s, inl refl, k) | inr (t, m, k) ↦ (t, inr m, k) ],
)

sum_sources-IsThere :
    (acc : Summed) (sources : List SourceOwnership)
    → IsThere (sum_sources acc sources).common ↔ (IsThere acc.common ⊎ SomeOwned sources)
unfolding sum_sources
sum_sources-IsThere acc [] = (λ h. inl h, λ h. elim h [ inl c ↦ c | inr (t, m, k) ↦ elim m [ ] ])
sum_sources-IsThere acc (s ∷ sources) =
    let rest = sum_sources-IsThere (add_source_ownership acc s) sources in
    let first = add_source-IsThere acc s in
    let split = SomeOwned-cons s sources in
    (
      λ h. elim (rest.0 h) [
        | inl c ↦ elim (first.0 c) [ inl d ↦ inl d | inr k ↦ inr (split.1 (inl k)) ]
        | inr v ↦ inr (split.1 (inr v))
      ],
      λ h. elim h [
        | inl d ↦ rest.1 (inl (first.1 (inl d)))
        | inr v ↦ elim (split.0 v) [
          | inl k ↦ rest.1 (inl (first.1 (inr k)))
          | inr w ↦ rest.1 (inr w)
        ]
      ],
    )

-- An owner is common to the sources of a module exactly when some source has effective owners and
-- the owner is an effective owner of each source that has any.
pub summarize_module_ownership-common :
    (sources : List SourceOwnership) (o : String)
    → In o (summarize_module_ownership sources).common_effective_owners
      ↔ (SomeOwned sources × OwnsAll o sources)
unfolding summarize_module_ownership
summarize_module_ownership-common sources o =
    by_common (sum_sources nothing_summed sources).common
      (sum_sources-common nothing_summed sources o) (sum_sources-IsThere nothing_summed sources)
  where
    by_common :
        (c : Option (List String))
        → (Common c o ↔ (Common nothing_summed.common o × OwnsAll o sources))
        → (IsThere c ↔ (IsThere nothing_summed.common ⊎ SomeOwned sources))
        → In o (common_of c) ↔ (SomeOwned sources × OwnsAll o sources)
    by_common none h k = (λ m. elim m [ ], λ (v, all). k.1 (inr v))
    by_common (some owners) h k = (
      λ m. (elim (k.0 tt) [ inl j ↦ elim j [ ] | inr v ↦ v ], (h.0 m).1),
      λ (v, all). h.1 (tt, all),
    )

-- Each list of primary owners that some source has, once
sum_sources-distinct :
    (acc : Summed) (sources : List SourceOwnership)
    → IsIncreasing acc.distinct_primary
    → IsIncreasing (sum_sources acc sources).distinct_primary
unfolding sum_sources add_source_ownership
sum_sources-distinct acc [] h = h
sum_sources-distinct acc (s ∷ sources) h =
    sum_sources-distinct (add_source_ownership acc s) sources
      (insert-IsIncreasing s.primary_owners acc.distinct_primary h)

In-distinct :
    (acc : Summed) (sources : List SourceOwnership) (owners : List String)
    → In owners (sum_sources acc sources).distinct_primary ↔ (
        In owners acc.distinct_primary
        ⊎ In owners (map (λ (s : SourceOwnership). s.primary_owners) sources))
unfolding sum_sources add_source_ownership
In-distinct acc [] owners = (λ h. inl h, λ h. elim h [ inl m ↦ m | inr m ↦ elim m [ ] ])
In-distinct acc (s ∷ sources) owners =
    let rest = In-distinct (add_source_ownership acc s) sources owners in
    let first = In-insert s.primary_owners owners acc.distinct_primary in ground arith

-- A set has more than one item exactly when two of its items differ.
abbrev Differ : List (List String) → Type 0
Differ xs = (a b : List String) × In a xs × In b xs × (a ≢ b)

several_iff : (xs : List (List String)) → IsIncreasing xs → (ltb 1 (length xs) ≡ true) ↔ Differ xs
several_iff [] h = (λ e. cc, λ (a, b, m, k, d). elim m [ ])
several_iff (x ∷ []) h = (λ e. cc, λ (a, b, m, k, d). absurd (d (only a m ∙ sym (only b k))))
  where
    only : (a : List String) → In a (x ∷ []) → a ≡ x
    only a m = elim m [ inl e ↦ e | inr r ↦ elim r [ ] ]
several_iff (x ∷ y ∷ xs) h =
    (λ e. (x, y, inl refl, inr (inl refl), λ same. absurd (distinct same)), λ v. ground arith)
  where
    distinct : x ≡ y → ⊥
    distinct same =
        let below : list_ord.cmp x y ≡ Ordering.lt = h.0.0 in
        let level : list_ord.cmp x y ≡ Ordering.eq = rw same (list_ord.cmp_refl y) in cc

-- The ownership of a module is split exactly when two of its sources have different primary
-- owners.
pub summarize_module_ownership-split :
    (sources : List SourceOwnership)
    → ((summarize_module_ownership sources).split_ownership ≡ true) ↔ (
        (s t : SourceOwnership) × In s sources
        × In t sources
        × (s.primary_owners ≢ t.primary_owners))
unfolding summarize_module_ownership
summarize_module_ownership-split sources =
    let acc = sum_sources nothing_summed sources in
    let several =
      several_iff acc.distinct_primary (sum_sources-distinct nothing_summed sources tt) in
    let listed = In-distinct nothing_summed sources in
    let owners_of = λ (s : SourceOwnership). s.primary_owners in
    (
      λ e.
          let (a, b, m, k, d) = several.0 e in
          let (s, i, p) = In-map_inv owners_of sources a (drop ((listed a).0 m)) in
          let (t, j, q) = In-map_inv owners_of sources b (drop ((listed b).0 k)) in
          (s, t, i, j, λ same. d (p ∙ same ∙ sym q)),
      λ (s, t, i, j, d). several.1 (
        s.primary_owners,
        t.primary_owners,
        (listed s.primary_owners).1 (inr (In-map owners_of sources s i)),
        (listed t.primary_owners).1 (inr (In-map owners_of sources t j)),
        d,
      ),
    )
  where
    drop : {B : Type 0} → ⊥ ⊎ B → B
    drop (inl a) = elim a [ ]
    drop (inr b) = b
