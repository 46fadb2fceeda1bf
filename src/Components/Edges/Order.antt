-- ===== src/Components/Edges/Order.antt =====
-- The derived order of boundaries: that of the variants.
use chromifer.Base.{
  ℕ, ◌≡◌, Ordering, compare, Ord, nat_ord, arith, sym, ap, eqb, if◌then◌else◌, ◌∙◌,
}
use chromifer.Manifest.Data.{
  Boundary, unclassified, cpp_internal, cxx, c_abi, mojo, rust, boundary_eq,
}

abbrev boundary_rank : Boundary → ℕ
boundary_rank unclassified = 0
boundary_rank cpp_internal = 1
boundary_rank cxx = 2
boundary_rank c_abi = 3
boundary_rank mojo = 4
boundary_rank rust = 5

abbrev of_rank : ℕ → Boundary
of_rank n =
    if eqb n 0
    then unclassified
    else if eqb n 1
    then cpp_internal
    else if eqb n 2
    then cxx
    else if eqb n 3
    then c_abi
    else if eqb n 4
    then mojo
    else rust

of_rank-boundary_rank : (b : Boundary) → of_rank (boundary_rank b) ≡ b
of_rank-boundary_rank b = ground arith

pub boundary_eq_of_cmp :
    (a b : Boundary) → compare (boundary_rank a) (boundary_rank b) ≡ Ordering.eq → a ≡ b
boundary_eq_of_cmp a b h =
    sym (of_rank-boundary_rank a)
    ∙ ap of_rank (nat_ord.eq_of_cmp (boundary_rank a) (boundary_rank b) h)
    ∙ of_rank-boundary_rank b

instance abbrev pub boundary_ord : Ord Boundary
boundary_ord = record {
  cmp = λ a b. compare (boundary_rank a) (boundary_rank b);
  cmp_refl = λ a. nat_ord.cmp_refl (boundary_rank a);
  eq_of_cmp = boundary_eq_of_cmp;
  lt_of_gt = λ a b. nat_ord.lt_of_gt (boundary_rank a) (boundary_rank b);
  gt_of_lt = λ a b. nat_ord.gt_of_lt (boundary_rank a) (boundary_rank b);
  lt_trans = λ a b c. nat_ord.lt_trans (boundary_rank a) (boundary_rank b) (boundary_rank c);
}
