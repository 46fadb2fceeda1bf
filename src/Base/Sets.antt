-- ===== src/Base/Sets.antt =====
-- `BTreeSet` and `BTreeMap`: the items in increasing order, as iteration shows them.
use chromifer.Base.{
  Ord, Ordering, ◌≡◌, refl, ◌↔◌, ◌⊎◌, inl, inr, Bool, true, false, Option, none, some, List, [],
  ◌∷◌, In, All, arith, is_some, if◌then◌else◌, subst, NoRepeat,
}

module _ {A : Type 0} ⦃o : Ord A⦄ where
  abbrev pub same : A → A → Bool
  same a b = elim (o.cmp a b) [ Ordering.eq ↦ true | _ ↦ false ]

  pub same_iff : (a b : A) → (same a b ≡ true) ↔ (a ≡ b)
  same_iff a b = ground (arith, o.eq_of_cmp a b, o.cmp_refl a)

  -- `BTreeSet::insert`, the set alone
  unfoldable pub insert : A → List A → List A
  insert a [] = a ∷ []
  insert a (x ∷ xs) = elim (o.cmp a x) [
    | Ordering.lt ↦ a ∷ x ∷ xs
    | Ordering.eq ↦ x ∷ xs
    | Ordering.gt ↦ x ∷ insert a xs
  ]

  -- `BTreeSet::contains`
  unfoldable pub member : List A → A → Bool
  member [] a = false
  member (x ∷ xs) a = if same a x then true else member xs a

  -- `extend`, and the collecting of an iterator
  unfoldable pub extend : List A → List A → List A
  unfolding insert
  extend xs [] = xs
  extend xs (y ∷ ys) = extend (insert y xs) ys

  abbrev pub IsIncreasing : List A → Type 0
  IsIncreasing [] = Unit
  IsIncreasing (x ∷ xs) = All (λ y. o.cmp x y ≡ Ordering.lt) xs × IsIncreasing xs

  pub member_iff : (xs : List A) (a : A) → (member xs a ≡ true) ↔ In a xs
  unfolding member
  member_iff [] a = (λ h. cc, λ h. elim h [ ])
  member_iff (x ∷ xs) a = ground (arith, member_iff xs a, same_iff a x)

  pub In-insert : (a b : A) (xs : List A) → In b (insert a xs) ↔ ((b ≡ a) ⊎ In b xs)
  unfolding insert
  In-insert a b [] = (λ h. h, λ h. h)
  In-insert a b (x ∷ xs) = ground (arith, In-insert a b xs, o.eq_of_cmp a x)

  pub In-extend : (b : A) (xs ys : List A) → In b (extend xs ys) ↔ (In b xs ⊎ In b ys)
  unfolding extend
  In-extend b xs [] = (λ h. inl h, λ h. elim h [ inl m ↦ m | inr m ↦ elim m [ ] ])
  In-extend b xs (y ∷ ys) = ground (arith, In-extend b (insert y xs) ys, In-insert y b xs)

  All-insert : (P : A → Type 0) (a : A) (xs : List A) → P a → All P xs → All P (insert a xs)
  unfolding insert
  All-insert P a [] p h = (p, tt)
  All-insert P a (x ∷ xs) p h = ground (arith, All-insert P a xs p)

  All-lt_trans :
      (a x : A) (xs : List A)
      → o.cmp a x ≡ Ordering.lt
      → All (λ y. o.cmp x y ≡ Ordering.lt) xs
      → All (λ y. o.cmp a y ≡ Ordering.lt) xs
  All-lt_trans a x [] h k = tt
  All-lt_trans a x (y ∷ ys) h k = (o.lt_trans a x y h k.0, All-lt_trans a x ys h k.1)

  pub insert-IsIncreasing : (a : A) (xs : List A) → IsIncreasing xs → IsIncreasing (insert a xs)
  unfolding insert
  insert-IsIncreasing a [] h = (tt, tt)
  insert-IsIncreasing a (x ∷ xs) h = ground (
    arith,
    insert-IsIncreasing a xs h.1,
    All-lt_trans a x xs,
    All-insert (λ y. o.cmp x y ≡ Ordering.lt) a xs,
    o.lt_of_gt a x,
  )

  pub extend-IsIncreasing : (xs ys : List A) → IsIncreasing xs → IsIncreasing (extend xs ys)
  unfolding extend
  extend-IsIncreasing xs [] h = h
  extend-IsIncreasing xs (y ∷ ys) h =
      extend-IsIncreasing (insert y xs) ys (insert-IsIncreasing y xs h)

-- `BTreeMap`, as the list of its entries
abbrev pub TreeMap : Type 0 → Type 0 → Type 0
TreeMap K V = List (K × V)

module _ {K V : Type 0} ⦃o : Ord K⦄ where
  unfoldable pub get : TreeMap K V → K → Option V
  get [] k = none
  get ((j, v) ∷ m) k = if same k j then some v else get m k

  -- `*entry(k).or_insert(d) = f(…)`
  unfoldable pub upsert : K → V → (V → V) → TreeMap K V → TreeMap K V
  upsert k d f [] = (k, f d) ∷ []
  upsert k d f ((j, v) ∷ m) = elim (o.cmp k j) [
    | Ordering.lt ↦ (k, f d) ∷ (j, v) ∷ m
    | Ordering.eq ↦ (j, f v) ∷ m
    | Ordering.gt ↦ (j, v) ∷ upsert k d f m
  ]

  -- `BTreeMap::insert`, the map alone
  unfoldable pub put : K → V → TreeMap K V → TreeMap K V
  unfolding upsert
  put k v m = upsert k v (λ _. v) m

  pub get-put :
      (k j : K) (v : V) (m : TreeMap K V)
      → get (put k v m) j ≡ (if same j k then some v else get m j)
  unfolding get put
  get-put k j v [] = refl
  get-put k j v ((i, w) ∷ m) =
      ground (arith, get-put k j v m, o.eq_of_cmp k i, same_iff j k, same_iff j i)

  abbrev pub keys : TreeMap K V → List K
  keys [] = []
  keys ((k, v) ∷ m) = k ∷ keys m

  pub In-keys-put :
      (k j : K) (v : V) (m : TreeMap K V) → In j (keys (put k v m)) ↔ ((j ≡ k) ⊎ In j (keys m))
  unfolding put
  In-keys-put k j v [] = (λ h. h, λ h. h)
  In-keys-put k j v ((i, w) ∷ m) = ground (arith, In-keys-put k j v m, o.eq_of_cmp k i)

  pub get-none_iff : (m : TreeMap K V) (k : K) → (is_some (get m k) ≡ true) ↔ In k (keys m)
  unfolding get
  get-none_iff [] k = (λ h. cc, λ h. elim h [ ])
  get-none_iff ((j, v) ∷ m) k = ground (arith, get-none_iff m k, same_iff k j)

  pub keys-upsert :
      (k : K) (d : V) (f : V → V) (m : TreeMap K V) → keys (upsert k d f m) ≡ insert k (keys m)
  unfolding upsert insert
  keys-upsert k d f [] = refl
  keys-upsert k d f ((j, v) ∷ m) = ground (arith, keys-upsert k d f m)

  -- An entry is added in front, is changed, or stays before the change.
  pub upsert-cases :
      (k : K) (d : V) (f : V → V) (j : K) (v : V) (m : TreeMap K V)
      → (upsert k d f ((j, v) ∷ m) ≡ (k, f d) ∷ (j, v) ∷ m)
        ⊎ ((k ≡ j) × (upsert k d f ((j, v) ∷ m) ≡ (j, f v) ∷ m))
        ⊎ (upsert k d f ((j, v) ∷ m) ≡ (j, v) ∷ upsert k d f m)
  unfolding upsert
  upsert-cases k d f j v m = ground (arith, o.eq_of_cmp k j)

module _ {A : Type 0} ⦃o : Ord A⦄ where
  below-NotIn : (x : A) (xs : List A) → All (λ y. o.cmp x y ≡ Ordering.lt) xs → ¬ In x xs
  below-NotIn x [] h m = m
  below-NotIn x (y ∷ xs) (h, k) m = elim m [
    | inl e ↦
        let level : o.cmp x y ≡ Ordering.eq =
          subst (λ z. o.cmp x z ≡ Ordering.eq) e (o.cmp_refl x) in
        absurd cc
    | inr r ↦ below-NotIn x xs k r
  ]

  pub IsIncreasing-NoRepeat : (xs : List A) → IsIncreasing xs → NoRepeat xs
  IsIncreasing-NoRepeat [] h = tt
  IsIncreasing-NoRepeat (x ∷ xs) (h, k) = (below-NotIn x xs h, IsIncreasing-NoRepeat xs k)
