-- ===== src/Base/Sort.antt =====
-- `sort_by`: a stable sort, here by insertion.
use mathlib.Core.List.Perm
use mathlib.Core.List.{Perm}
use chromifer.Base.{
  concat_map, ◌++◌, Ordering, ◌≡◌, refl, Bool, true, false, List, [], ◌∷◌, All, In, arith,
  Bool-cases, if◌then◌else◌, inl, inr, ◌↔◌, ◌⊎◌, Ord,
}

-- `cmp a b` is not `Greater`.
abbrev pub le_by : {A : Type 0} → (A → A → Ordering) → A → A → Bool
le_by cmp a b = elim (cmp a b) [ Ordering.gt ↦ false | _ ↦ true ]

-- What `sort_by` asks of its argument, where ties are allowed.
pub record IsComparison {A : Type 0} (cmp : A → A → Ordering) : Type 0 where
  pub total : (a b : A) → le_by cmp a b ≡ false → le_by cmp b a ≡ true
  pub trans : (a b c : A) → le_by cmp a b ≡ true → le_by cmp b c ≡ true → le_by cmp a c ≡ true

-- A lawful order on a key is such an argument.
pub IsComparison-on :
    {A B : Type 0} ⦃o : Ord B⦄ (key : A → B) → IsComparison (λ a b. o.cmp (key a) (key b))
IsComparison-on ⦃o⦄ key = record {
  total = λ a b. ground (arith, o.lt_of_gt (key a) (key b));
  trans = λ a b c. grind (arith, o.eq_of_cmp, o.lt_trans);
}

module _ {A : Type 0} (cmp : A → A → Ordering) where
  insert_by : A → List A → List A
  insert_by a [] = a ∷ []
  insert_by a (x ∷ xs) = if le_by cmp a x then a ∷ x ∷ xs else x ∷ insert_by a xs

  unfoldable pub sort_by : List A → List A
  unfolding insert_by
  sort_by [] = []
  sort_by (x ∷ xs) = insert_by x (sort_by xs)

  abbrev pub IsSorted : List A → Type 0
  IsSorted [] = Unit
  IsSorted (x ∷ xs) = All (λ y. le_by cmp x y ≡ true) xs × IsSorted xs

  insert_by-perm : (a : A) (xs : List A) → Perm (insert_by a xs) (a ∷ xs)
  unfolding insert_by
  insert_by-perm a [] = Perm.refl (a ∷ [])
  insert_by-perm a (x ∷ xs) = elim (Bool-cases (le_by cmp a x)) [
    | inl e ↦ rw (e, insert_by) (Perm.refl (a ∷ x ∷ xs))
    | inr e ↦ rw (e, insert_by) (Perm.trans (Perm.cons x (insert_by-perm a xs)) (Perm.swap a x xs))
  ]

  pub sort_by-perm : (xs : List A) → Perm (sort_by xs) xs
  unfolding sort_by
  sort_by-perm [] = Perm.refl []
  sort_by-perm (x ∷ xs) = Perm.trans (insert_by-perm x (sort_by xs)) (Perm.cons x (sort_by-perm xs))

  In-insert_by : (b a : A) (xs : List A) → In b (insert_by a xs) ↔ ((b ≡ a) ⊎ In b xs)
  unfolding insert_by
  In-insert_by b a [] = (λ h. h, λ h. h)
  In-insert_by b a (x ∷ xs) = ground (arith, In-insert_by b a xs)

  pub In-sort_by : (b : A) (xs : List A) → In b (sort_by xs) ↔ In b xs
  unfolding sort_by
  In-sort_by b [] = (λ h. h, λ h. h)
  In-sort_by b (x ∷ xs) = ground (arith, In-sort_by b xs, In-insert_by b x (sort_by xs))

  All-insert_by : (P : A → Type 0) (a : A) (xs : List A) → P a → All P xs → All P (insert_by a xs)
  unfolding insert_by
  All-insert_by P a [] p h = (p, tt)
  All-insert_by P a (x ∷ xs) p h = ground (arith, All-insert_by P a xs p)

  module _ (c : IsComparison cmp) where
    All-le_trans :
        (a x : A) (xs : List A)
        → le_by cmp a x ≡ true
        → All (λ y. le_by cmp x y ≡ true) xs
        → All (λ y. le_by cmp a y ≡ true) xs
    All-le_trans a x [] h k = tt
    All-le_trans a x (y ∷ ys) h k = (c.trans a x y h k.0, All-le_trans a x ys h k.1)

    insert_by-IsSorted : (a : A) (xs : List A) → IsSorted xs → IsSorted (insert_by a xs)
    unfolding insert_by
    insert_by-IsSorted a [] h = (tt, tt)
    insert_by-IsSorted a (x ∷ xs) h = elim (Bool-cases (le_by cmp a x)) [
      | inl e ↦ rw (e, insert_by) ((e, All-le_trans a x xs e h.0), h)
      | inr e ↦
          rw (e, insert_by)
            (
              All-insert_by (λ y. le_by cmp x y ≡ true) a xs (c.total a x e) h.0,
              insert_by-IsSorted a xs h.1,
            )
    ]

    pub sort_by-IsSorted : (xs : List A) → IsSorted (sort_by xs)
    unfolding sort_by
    sort_by-IsSorted [] = tt
    sort_by-IsSorted (x ∷ xs) = insert_by-IsSorted x (sort_by xs) (sort_by-IsSorted xs)

  -- A sorted list stays as it is.
  pub sort_by_self : (xs : List A) → IsSorted xs → sort_by xs ≡ xs
  unfolding sort_by insert_by
  sort_by_self [] h = refl
  sort_by_self (x ∷ []) h = refl
  sort_by_self (x ∷ y ∷ xs) (h, k) = rw (sort_by_self (y ∷ xs) k, insert_by, h.0) refl

pub Perm-middle : {A : Type 0} (xs ys : List A) (x : A) → Perm (xs ++ x ∷ ys) (x ∷ (xs ++ ys))
Perm-middle [] ys x = Perm.refl (x ∷ ys)
Perm-middle (y ∷ xs) ys x =
    Perm.trans (Perm.cons y (Perm-middle xs ys x)) (Perm.swap x y (xs ++ ys))

-- What the items stand for, in the order of a sorted list
append-swap : {A : Type 0} (xs ys zs : List A) → Perm (xs ++ (ys ++ zs)) (ys ++ (xs ++ zs))
append-swap [] ys zs = Perm.refl (ys ++ zs)
append-swap (x ∷ xs) ys zs =
    Perm.trans (Perm.cons x (append-swap xs ys zs)) (Perm.symm (Perm-middle ys (xs ++ zs) x))

module _ {A B : Type 0} (cmp : A → A → Ordering) (f : A → List B) where
  concat_map-insert_by :
      (a : A) (xs : List A) → Perm (concat_map f (insert_by cmp a xs)) (f a ++ concat_map f xs)
  unfolding insert_by
  concat_map-insert_by a [] = Perm.refl (f a ++ [])
  concat_map-insert_by a (x ∷ xs) = elim (Bool-cases (le_by cmp a x)) [
    | inl e ↦ rw (e, insert_by) (Perm.refl (f a ++ (f x ++ concat_map f xs)))
    | inr e ↦
        rw (e, insert_by)
          (Perm.trans (Perm.append_left (f x) (concat_map-insert_by a xs))
            (append-swap (f x) (f a) (concat_map f xs)))
  ]

  pub concat_map-sort_by : (xs : List A) → Perm (concat_map f (sort_by cmp xs)) (concat_map f xs)
  unfolding sort_by
  concat_map-sort_by [] = Perm.refl []
  concat_map-sort_by (x ∷ xs) =
      Perm.trans (concat_map-insert_by x (sort_by cmp xs))
        (Perm.append_left (f x) (concat_map-sort_by xs))

-- Each item stands in the relation to all that follow it.
abbrev pub Pairwise : {A : Type 0} → (A → A → Type 0) → List A → Type 0
Pairwise R [] = Unit
Pairwise R (x ∷ xs) = All (R x) xs × Pairwise R xs

module _ {A : Type 0} (cmp : A → A → Ordering) (R : A → A → Type 0)
    (le : (a b : A) → le_by cmp a b ≡ true → R a b) where
  All-le_by : (a : A) (xs : List A) → All (λ b. le_by cmp a b ≡ true) xs → All (R a) xs
  All-le_by a [] h = tt
  All-le_by a (x ∷ xs) (h, k) = (le a x h, All-le_by a xs k)

  pub IsSorted-Pairwise : (xs : List A) → IsSorted cmp xs → Pairwise R xs
  IsSorted-Pairwise [] h = tt
  IsSorted-Pairwise (x ∷ xs) (h, k) = (All-le_by x xs h, IsSorted-Pairwise xs k)
