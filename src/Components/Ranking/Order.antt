-- ===== src/Components/Ranking/Order.antt =====
-- Which components the ranking lists, in which order and under which numbers.
use chromifer.Base.{
  nat_cmp_refl, nat_eq_of_cmp, nat_lt_of_gt, nat_gt_of_lt, nat_lt_trans, ℕ, suc, String, ◌≡◌, ◌↔◌,
  refl, sym, ap, subst, ◌∙◌, Bool, true, false, not, List, [], ◌∷◌, compare, In, In-filter, In-map,
  In-map_inv, All, arith, filter, map, nat_ord, string_ord, pair_ord, Ord, ◌≢◌, ◌⊎◌, ◌<◌, Ordering,
  inl, inr, length,
}
use chromifer.Base.Sort.{
  sort_by, le_by, IsComparison, IsSorted, In-sort_by, sort_by-IsSorted, IsComparison-on, Pairwise,
  IsSorted-Pairwise,
}
use chromifer.Components.Data.{StateCounts, ComponentSummary, RankedCandidate, is_fully_rust_owned}
use chromifer.Components.Ranking.{candidate, bool_number, ranking_cmp, number_from, rank_components}

-- The ranks of candidates go up from a number, one by one.
abbrev pub AreRanked : ℕ → List RankedCandidate → Type 0
AreRanked n [] = Unit
AreRanked n (c ∷ rest) = (c.rank ≡ suc n) × AreRanked (suc n) rest

-- The numbers in decreasing order
abbrev flipped_nat : Ord ℕ
flipped_nat = record {
  cmp = λ a b. compare b a;
  cmp_refl = nat_cmp_refl;
  eq_of_cmp = λ a b e. sym (nat_eq_of_cmp b a e);
  lt_of_gt = λ a b. nat_lt_of_gt b a;
  gt_of_lt = λ a b. nat_gt_of_lt b a;
  lt_trans = λ a b c h k. nat_lt_trans c b a k h;
}

abbrev key : RankedCandidate → ℕ × (ℕ × (ℕ × (ℕ × String)))
key c = (bool_number c.eligible, (c.readiness_score, (c.risk_score, (c.source_files, c.component))))

ranking_cmp-IsComparison : IsComparison ranking_cmp
unfolding ranking_cmp
ranking_cmp-IsComparison =
    IsComparison-on ⦃o = pair_ord ⦃a = flipped_nat⦄ ⦃b = pair_ord ⦃a = flipped_nat⦄⦄⦄ key

-- A number does not count for the order.
All-number_from :
    (n : ℕ) (c : RankedCandidate) (rank : ℕ) (cs : List RankedCandidate)
    → All (λ d. le_by ranking_cmp c d ≡ true) cs
    → All (λ d. le_by ranking_cmp (record c { rank = rank }) d ≡ true) (number_from n cs)
unfolding ranking_cmp number_from
All-number_from n c rank [] h = tt
All-number_from n c rank (d ∷ cs) h = (h.0, All-number_from (suc n) c rank cs h.1)

number_from-IsSorted :
    (n : ℕ) (cs : List RankedCandidate)
    → IsSorted ranking_cmp cs
    → IsSorted ranking_cmp (number_from n cs)
unfolding number_from
number_from-IsSorted n [] h = tt
number_from-IsSorted n (c ∷ cs) h =
    (All-number_from (suc n) c (suc n) cs h.0, number_from-IsSorted (suc n) cs h.1)

number_from-AreRanked : (n : ℕ) (cs : List RankedCandidate) → AreRanked n (number_from n cs)
unfolding number_from
number_from-AreRanked n [] = tt
number_from-AreRanked n (c ∷ cs) = (refl, number_from-AreRanked (suc n) cs)

-- The eligible come first, then those of higher readiness, of lower risk, of fewer source files and
-- of smaller id.
abbrev pub Outranks : (c d : RankedCandidate) → Type 0
Outranks c d =
    ((c.eligible ≡ true) × (d.eligible ≡ false))
    ⊎ ((c.eligible ≡ d.eligible)
        × ((d.readiness_score < c.readiness_score)
            ⊎ ((c.readiness_score ≡ d.readiness_score)
                × ((c.risk_score < d.risk_score)
                    ⊎ ((c.risk_score ≡ d.risk_score)
                        × ((c.source_files < d.source_files)
                            ⊎ ((c.source_files ≡ d.source_files)
                                × (string_ord.cmp c.component d.component ≢ Ordering.gt))))))))

Outranks-of_le : (c d : RankedCandidate) → le_by ranking_cmp c d ≡ true → Outranks c d
unfolding ranking_cmp
Outranks-of_le c d h = ground arith

-- Of two candidates in the ranking, the one that stands first alone is eligible, or else has the
-- higher readiness, the lower risk, fewer source files or no larger id, the first difference
-- deciding; the ranks are 1, 2, 3 and so on.
pub rank_components-IsSorted :
    (components : List ComponentSummary)
    → Pairwise Outranks (rank_components components) × AreRanked 0 (rank_components components)
unfolding rank_components
rank_components-IsSorted components =
    let drafts =
      map candidate
        (filter (λ (s : ComponentSummary). not (is_fully_rust_owned s.states)) components) in
    (
      IsSorted-Pairwise ranking_cmp Outranks Outranks-of_le _ (
          number_from-IsSorted 0 (sort_by ranking_cmp drafts)
            (sort_by-IsSorted ranking_cmp ranking_cmp-IsComparison drafts)),
      number_from-AreRanked 0 (sort_by ranking_cmp drafts),
    )

In-number_from :
    (c : RankedCandidate) (n : ℕ) (cs : List RankedCandidate)
    → In c (number_from n cs)
    → (d : RankedCandidate) × In d cs × (rank : ℕ) × (c ≡ record d { rank = rank })
unfolding number_from
In-number_from c n [] m = elim m [ ]
In-number_from c n (d ∷ cs) m = elim m [
  | inl e ↦ (d, inl refl, suc n, e)
  | inr r ↦ let (x, i, rank, e) = In-number_from c (suc n) cs r in (x, inr i, rank, e)
]

In-number_from_inv :
    (d : RankedCandidate) (n : ℕ) (cs : List RankedCandidate)
    → In d cs
    → (rank : ℕ) × In (record d { rank = rank }) (number_from n cs)
unfolding number_from
In-number_from_inv d n [] m = elim m [ ]
In-number_from_inv d n (x ∷ cs) m = elim m [
  | inl e ↦ (suc n, inl (ap (λ (y : RankedCandidate). record y { rank = suc n }) e))
  | inr r ↦ let (rank, i) = In-number_from_inv d (suc n) cs r in (rank, inr i)
]

-- Some of the component's modules is not in Rust, or none is.
abbrev pub IsOpen : StateCounts → Type 0
IsOpen c = (c.rust_owned ≡ 0) ⊎ ((0 < c.legacy) ⊎ (0 < c.bridged))

IsOpen-iff : (c : StateCounts) → (is_fully_rust_owned c ≡ false) ↔ IsOpen c
unfolding is_fully_rust_owned
IsOpen-iff c = ground arith

-- What a candidate tells of its component
pub record IsCandidateOf (s : ComponentSummary) (c : RankedCandidate) : Type 0 where
  pub component : c.component ≡ s.id
  pub path : c.path ≡ s.path
  pub owner : c.owner ≡ s.owner
  pub scope : c.scope ≡ s.scope
  pub readiness_score : c.readiness_score ≡ s.readiness_score
  pub risk_score : c.risk_score ≡ s.risk.total
  pub eligible : c.eligible ≡ s.eligible
  pub source_files : c.source_files ≡ s.source_files
  pub module_count : c.module_count ≡ length s.modules
  pub concerns : c.concerns ≡ s.concerns

ranked-IsCandidateOf :
    (s : ComponentSummary) (rank : ℕ) → IsCandidateOf s (record (candidate s) { rank = rank })
ranked-IsCandidateOf s rank = record {
  component = refl;
  path = refl;
  owner = refl;
  scope = refl;
  readiness_score = refl;
  risk_score = refl;
  eligible = refl;
  source_files = refl;
  module_count = refl;
  concerns = refl;
}

-- Every candidate of the ranking tells id, path, owner, scope, scores, eligibility, sizes and
-- concerns of a component some module of which is not in Rust, or which has none in Rust, and each
-- such component has a candidate.
pub In-rank_components :
    (components : List ComponentSummary)
    → ((c : RankedCandidate)
        → In c (rank_components components)
        → (s : ComponentSummary) × In s components × IsOpen s.states × IsCandidateOf s c)
      × ((s : ComponentSummary)
          → In s components
          → IsOpen s.states
          → (c : RankedCandidate) × In c (rank_components components) × IsCandidateOf s c)
unfolding rank_components
In-rank_components components =
    let is_kept = λ (s : ComponentSummary). not (is_fully_rust_owned s.states) in
    let open_ones = filter is_kept components in
    let drafts = map candidate open_ones in
    (
      λ c m.
          let (d, i, rank, same) = In-number_from c 0 (sort_by ranking_cmp drafts) m in
          let (s, j, q) =
            In-map_inv candidate open_ones d ((In-sort_by ranking_cmp d drafts).0 i) in
          let (k, kept) = (In-filter is_kept components s).0 j in
          (
            s,
            k,
            (IsOpen-iff s.states).0 (not-true→false _ kept),
            subst (IsCandidateOf s)
                (sym (same ∙ ap (λ (y : RankedCandidate). record y { rank = rank }) q))
                (ranked-IsCandidateOf s rank),
          ),
      λ s i n.
          let kept = (In-filter is_kept components s).1 (i, rw ((IsOpen-iff s.states).1 n) refl) in
          let (rank, m) =
            In-number_from_inv (candidate s) 0 (sort_by ranking_cmp drafts) (
              (In-sort_by ranking_cmp (candidate s) drafts).1
                (In-map candidate open_ones s kept)) in
          (record (candidate s) { rank = rank }, m, ranked-IsCandidateOf s rank),
    )
  where
    not-true→false : (b : Bool) → not b ≡ true → b ≡ false
    not-true→false b h = ground arith
