-- ===== src/Base/Order.antt =====
-- `Ord`: a comparison with the laws that the trait asks for.
use Prim.Native.Nat.{ℕ, compare, Ordering}
use Prim.Native.Nat.Ordering.{lt, eq, gt}
use Prim.Native.String.{String, [] as nil, ◌∷◌ as cons, compare as text_compare}
use Prim.Native.String.compare
use mathlib.Core.Path.{◌≡◌, refl}
use mathlib.Core.List.{List, [], ◌∷◌}
use native.Mathlib.Omega.{arith}
use text.Mathlib.TextEquality.{path_by_compare}

pub record Ord {ℓ} (T : Type ℓ) : Type ℓ where
  pub cmp : (left right : T) → Ordering
  pub cmp_refl : (x : T) → cmp x x ≡ eq
  pub eq_of_cmp : (left right : T) → cmp left right ≡ eq → left ≡ right
  pub lt_of_gt : (left right : T) → cmp left right ≡ gt → cmp right left ≡ lt
  pub gt_of_lt : (left right : T) → cmp left right ≡ lt → cmp right left ≡ gt
  pub lt_trans : (left mid right : T) → cmp left mid ≡ lt → cmp mid right ≡ lt → cmp left right ≡ lt

-- `Ordering::then`
abbrev pub cmp_then : Ordering → Ordering → Ordering
cmp_then lt o = lt
cmp_then eq o = o
cmp_then gt o = gt

pub nat_cmp_refl : (a : ℕ) → compare a a ≡ eq
nat_cmp_refl a = ground arith

pub nat_eq_of_cmp : (a b : ℕ) → compare a b ≡ eq → a ≡ b
nat_eq_of_cmp a b = ground arith

pub nat_lt_of_gt : (a b : ℕ) → compare a b ≡ gt → compare b a ≡ lt
nat_lt_of_gt a b = ground arith

pub nat_gt_of_lt : (a b : ℕ) → compare a b ≡ lt → compare b a ≡ gt
nat_gt_of_lt a b = ground arith

pub nat_lt_trans : (a b c : ℕ) → compare a b ≡ lt → compare b c ≡ lt → compare a c ≡ lt
nat_lt_trans a b c = ground arith

instance abbrev pub nat_ord : Ord ℕ
nat_ord = record {
  cmp = compare;
  cmp_refl = nat_cmp_refl;
  eq_of_cmp = nat_eq_of_cmp;
  lt_of_gt = nat_lt_of_gt;
  gt_of_lt = nat_gt_of_lt;
  lt_trans = nat_lt_trans;
}

pub text_cmp_refl : (s : String) → text_compare s s ≡ eq
text_cmp_refl nil = refl
text_cmp_refl (cons c s) = rw compare.cons-cons (ground (arith, text_cmp_refl s))

pub text_lt_of_gt : (s t : String) → text_compare s t ≡ gt → text_compare t s ≡ lt
text_lt_of_gt nil nil h = cc
text_lt_of_gt nil (cons d t) h = cc (compare.nil-cons d t)
text_lt_of_gt (cons c s) nil h = compare.nil-cons c s
text_lt_of_gt (cons c s) (cons d t) h =
    rw compare.cons-cons (ground (arith, text_lt_of_gt s t, compare.cons-cons c d s t))

pub text_gt_of_lt : (s t : String) → text_compare s t ≡ lt → text_compare t s ≡ gt
text_gt_of_lt nil nil h = cc
text_gt_of_lt nil (cons d t) h = compare.cons-nil d t
text_gt_of_lt (cons c s) nil h = cc (compare.cons-nil c s)
text_gt_of_lt (cons c s) (cons d t) h =
    rw compare.cons-cons (ground (arith, text_gt_of_lt s t, compare.cons-cons c d s t))

pub text_lt_trans :
    (s t u : String) → text_compare s t ≡ lt → text_compare t u ≡ lt → text_compare s u ≡ lt
text_lt_trans nil nil u h k = cc
text_lt_trans nil (cons d t) nil h k = cc (compare.cons-nil d t)
text_lt_trans nil (cons d t) (cons e u) h k = compare.nil-cons e u
text_lt_trans (cons c s) nil u h k = cc (compare.cons-nil c s)
text_lt_trans (cons c s) (cons d t) nil h k = cc (compare.cons-nil d t)
text_lt_trans (cons c s) (cons d t) (cons e u) h k = rw compare.cons-cons (
    ground (
      arith,
      text_lt_trans s t u,
      compare.cons-cons c d s t,
      compare.cons-cons d e t u,
      path_by_compare s t,
    ))

instance abbrev pub string_ord : Ord String
string_ord = record {
  cmp = text_compare;
  cmp_refl = text_cmp_refl;
  eq_of_cmp = path_by_compare;
  lt_of_gt = text_lt_of_gt;
  gt_of_lt = text_gt_of_lt;
  lt_trans = text_lt_trans;
}

-- Tuples compare lexicographically.
module _ {A B : Type 0} ⦃a : Ord A⦄ ⦃b : Ord B⦄ where
  abbrev pub pair_cmp : A × B → A × B → Ordering
  pair_cmp x y = cmp_then (a.cmp x.0 y.0) (b.cmp x.1 y.1)

  pub pair_cmp_refl : (x : A × B) → pair_cmp x x ≡ eq
  pair_cmp_refl x = simp (a.cmp_refl, b.cmp_refl)

  pub pair_eq_of_cmp : (x y : A × B) → pair_cmp x y ≡ eq → x ≡ y
  pair_eq_of_cmp x y = ground (arith, a.eq_of_cmp x.0 y.0, b.eq_of_cmp x.1 y.1)

  pub pair_lt_of_gt : (x y : A × B) → pair_cmp x y ≡ gt → pair_cmp y x ≡ lt
  pair_lt_of_gt x y =
      ground (arith, a.eq_of_cmp x.0 y.0, a.lt_of_gt x.0 y.0, b.lt_of_gt x.1 y.1, a.cmp_refl x.0)

  pub pair_gt_of_lt : (x y : A × B) → pair_cmp x y ≡ lt → pair_cmp y x ≡ gt
  pair_gt_of_lt x y =
      ground (arith, a.eq_of_cmp x.0 y.0, a.gt_of_lt x.0 y.0, b.gt_of_lt x.1 y.1, a.cmp_refl x.0)

  pub pair_lt_trans : (x y z : A × B) → pair_cmp x y ≡ lt → pair_cmp y z ≡ lt → pair_cmp x z ≡ lt
  pair_lt_trans x y z =
      grind (arith, a.eq_of_cmp x.0 y.0, a.eq_of_cmp y.0 z.0, a.lt_trans, b.lt_trans)

  instance abbrev pub pair_ord : Ord (A × B)
  pair_ord = record {
    cmp = pair_cmp;
    cmp_refl = pair_cmp_refl;
    eq_of_cmp = pair_eq_of_cmp;
    lt_of_gt = pair_lt_of_gt;
    gt_of_lt = pair_gt_of_lt;
    lt_trans = pair_lt_trans;
  }

-- Sequences compare lexicographically, a prefix before what it begins.
module _ {A : Type 0} ⦃a : Ord A⦄ where
  abbrev pub list_cmp : List A → List A → Ordering
  list_cmp [] [] = eq
  list_cmp [] (y ∷ ys) = lt
  list_cmp (x ∷ xs) [] = gt
  list_cmp (x ∷ xs) (y ∷ ys) = cmp_then (a.cmp x y) (list_cmp xs ys)

  pub list_cmp_refl : (xs : List A) → list_cmp xs xs ≡ eq
  list_cmp_refl [] = refl
  list_cmp_refl (x ∷ xs) = simp (a.cmp_refl, list_cmp_refl xs)

  pub list_eq_of_cmp : (xs ys : List A) → list_cmp xs ys ≡ eq → xs ≡ ys
  list_eq_of_cmp [] [] h = refl
  list_eq_of_cmp [] (y ∷ ys) h = cc
  list_eq_of_cmp (x ∷ xs) [] h = cc
  list_eq_of_cmp (x ∷ xs) (y ∷ ys) h = ground (arith, a.eq_of_cmp x y, list_eq_of_cmp xs ys)

  pub list_lt_of_gt : (xs ys : List A) → list_cmp xs ys ≡ gt → list_cmp ys xs ≡ lt
  list_lt_of_gt [] [] h = cc
  list_lt_of_gt [] (y ∷ ys) h = cc
  list_lt_of_gt (x ∷ xs) [] h = refl
  list_lt_of_gt (x ∷ xs) (y ∷ ys) h =
      ground (arith, a.eq_of_cmp x y, a.lt_of_gt x y, list_lt_of_gt xs ys, a.cmp_refl x)

  pub list_gt_of_lt : (xs ys : List A) → list_cmp xs ys ≡ lt → list_cmp ys xs ≡ gt
  list_gt_of_lt [] [] h = cc
  list_gt_of_lt [] (y ∷ ys) h = refl
  list_gt_of_lt (x ∷ xs) [] h = cc
  list_gt_of_lt (x ∷ xs) (y ∷ ys) h =
      ground (arith, a.eq_of_cmp x y, a.gt_of_lt x y, list_gt_of_lt xs ys, a.cmp_refl x)

  pub list_lt_trans :
      (xs ys zs : List A) → list_cmp xs ys ≡ lt → list_cmp ys zs ≡ lt → list_cmp xs zs ≡ lt
  list_lt_trans [] [] zs h k = cc
  list_lt_trans [] (y ∷ ys) [] h k = cc
  list_lt_trans [] (y ∷ ys) (z ∷ zs) h k = refl
  list_lt_trans (x ∷ xs) [] zs h k = cc
  list_lt_trans (x ∷ xs) (y ∷ ys) [] h k = cc
  list_lt_trans (x ∷ xs) (y ∷ ys) (z ∷ zs) h k = ground (
    arith,
    a.eq_of_cmp x y,
    a.eq_of_cmp y z,
    a.lt_trans x y z,
    a.cmp_refl x,
    list_lt_trans xs ys zs,
  )

  instance abbrev pub list_ord : Ord (List A)
  list_ord = record {
    cmp = list_cmp;
    cmp_refl = list_cmp_refl;
    eq_of_cmp = list_eq_of_cmp;
    lt_of_gt = list_lt_of_gt;
    gt_of_lt = list_gt_of_lt;
    lt_trans = list_lt_trans;
  }
