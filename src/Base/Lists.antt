-- ===== src/Base/Lists.antt =====
-- Lists measured by native numbers, Boolean quantifiers, and predicates by recursion.
use Prim.Native.Nat.{ℕ, suc, ◌+◌, ◌≤◌, ◌<◌}
use mathlib.Core.Path.{◌≡◌, refl, ap, subst}
use mathlib.Core.Bool.{Bool, true, false, ◌&&◌, ◌||◌}
use mathlib.Core.Logic.{◌⊎◌, inl, inr, ◌↔◌}
use mathlib.Core.List.{List, [], ◌∷◌, ◌++◌, map}
use native.Mathlib.Omega.{arith}
use chromifer.Base.Tests.{if◌then◌else◌, Bool-cases}

module _ {ℓ} {A : Type ℓ} where
  abbrev pub length : List A → ℕ
  length [] = 0
  length (x ∷ xs) = suc (length xs)

  abbrev pub is_empty : List A → Bool
  is_empty [] = true
  is_empty (x ∷ xs) = false

  -- `iter().any`
  abbrev pub any : (A → Bool) → List A → Bool
  any p [] = false
  any p (x ∷ xs) = p x || any p xs

  -- `iter().all`
  abbrev pub all : (A → Bool) → List A → Bool
  all p [] = true
  all p (x ∷ xs) = p x && all p xs

  -- `iter().filter`, by a Boolean test
  abbrev pub filter : (A → Bool) → List A → List A
  filter p [] = []
  filter p (x ∷ xs) = if p x then x ∷ filter p xs else filter p xs

  abbrev pub All {κ} : (P : A → Type κ) (items : List A) → Type κ
  All P [] = Unit
  All P (item ∷ items) = P item × All P items

  -- the items that each element of a loop pushes, in order
  abbrev pub concat_map {κ} : {B : Type κ} → (A → List B) → List A → List B
  concat_map f [] = []
  concat_map f (x ∷ xs) = f x ++ concat_map f xs

  pub append-eq-nil : (xs ys : List A) → (xs ++ ys ≡ []) ↔ ((xs ≡ []) × (ys ≡ []))
  append-eq-nil [] ys = (λ h. (refl, h), λ h. h.1)
  append-eq-nil (x ∷ xs) ys = (λ h. cc, λ h. cc)

  pub length-append : (xs ys : List A) → length (xs ++ ys) ≡ length xs + length ys
  length-append [] ys = omega arith
  length-append (x ∷ xs) ys = omega (arith, length-append xs ys)

  pub All-append {κ} :
      (P : A → Type κ) (front back : List A) → All P front → All P back → All P (front ++ back)
  All-append P [] back f b = b
  All-append P (a ∷ front) back (p, f) b = (p, All-append P front back f b)

-- The model's data stands in `Type 0`, and so does membership.
module _ {A : Type 0} where
  -- `In a xs`: `a` is an item of `xs`.
  abbrev pub In : A → List A → Type 0
  In a [] = ⊥
  In a (x ∷ xs) = (a ≡ x) ⊎ In a xs

  pub In-append : (a : A) (xs ys : List A) → In a (xs ++ ys) ↔ (In a xs ⊎ In a ys)
  In-append a [] ys = (λ h. inr h, λ h. elim h [ inl e ↦ elim e [ ] | inr m ↦ m ])
  In-append a (x ∷ xs) ys = ground (arith, In-append a xs ys)

  pub All-In {κ} : (P : A → Type κ) (xs : List A) (a : A) → All P xs → In a xs → P a
  All-In P [] a h m = elim m [ ]
  All-In P (x ∷ xs) a h m = elim m [ inl e ↦ rw e h.0 | inr r ↦ All-In P xs a h.1 r ]

  pub All-of_In {κ} : (P : A → Type κ) (xs : List A) → ((a : A) → In a xs → P a) → All P xs
  All-of_In P [] h = tt
  All-of_In P (x ∷ xs) h = (h x (inl refl), All-of_In P xs (λ a m. h a (inr m)))

pub In-map : {A B : Type 0} (f : A → B) (xs : List A) (a : A) → In a xs → In (f a) (map f xs)
In-map f [] a m = elim m [ ]
In-map f (x ∷ xs) a m = elim m [ inl e ↦ inl (ap f e) | inr r ↦ inr (In-map f xs a r) ]

-- An item of a mapped list is the image of an item.
pub In-map_inv :
    {A B : Type 0} (f : A → B) (xs : List A) (b : B)
    → In b (map f xs)
    → (a : A) × In a xs × (b ≡ f a)
In-map_inv f [] b m = elim m [ ]
In-map_inv f (x ∷ xs) b m = elim m [
  | inl e ↦ (x, inl refl, e)
  | inr r ↦ let (a, i, e) = In-map_inv f xs b r in (a, inr i, e)
]

-- A loop pushes nothing exactly when no element does.
pub concat_map-eq-nil :
    {A B : Type 0} (f : A → List B) (xs : List A) → (concat_map f xs ≡ []) ↔ All (λ x. f x ≡ []) xs
concat_map-eq-nil f [] = (λ h. tt, λ h. refl)
concat_map-eq-nil f (x ∷ xs) =
    ground (arith, concat_map-eq-nil f xs, append-eq-nil (f x) (concat_map f xs))

-- No item is listed twice.
abbrev pub NoRepeat : {A : Type 0} → List A → Type 0
NoRepeat [] = Unit
NoRepeat (x ∷ xs) = (¬ In x xs) × NoRepeat xs

pub any-eq-false :
    {A : Type 0} (p : A → Bool) (xs : List A) → (any p xs ≡ false) ↔ All (λ x. p x ≡ false) xs
any-eq-false p [] = (λ h. tt, λ h. refl)
any-eq-false p (x ∷ xs) = ground (arith, any-eq-false p xs)

pub any-eq-true :
    {A : Type 0} (p : A → Bool) (xs : List A)
    → (any p xs ≡ true) ↔ ((x : A) × In x xs × (p x ≡ true))
any-eq-true p [] = (λ h. cc, λ (x, m, e). elim m [ ])
any-eq-true p (x ∷ xs) = (
  λ h. elim (Bool-cases (p x)) [
    | inl e ↦ (x, inl refl, e)
    | inr e ↦ let (y, m, k) = (any-eq-true p xs).0 (ground arith) in (y, inr m, k)
  ],
  λ (y, m, k). elim m [
    | inl e ↦ ground arith
    | inr r ↦ let h = (any-eq-true p xs).1 (y, r, k) in ground arith
  ],
)

pub All-iff :
    {A : Type 0} {P Q : A → Type 0} (xs : List A) → ((a : A) → P a ↔ Q a) → All P xs ↔ All Q xs
All-iff [] h = (λ a. tt, λ a. tt)
All-iff (x ∷ xs) h =
    (λ a. ((h x).0 a.0, (All-iff xs h).0 a.1), λ a. ((h x).1 a.0, (All-iff xs h).1 a.1))

-- A loop pushes nothing exactly when each element passes, by what passing means.
pub concat_map_iff :
    {A B : Type 0} {P : A → Type 0} (f : A → List B) (xs : List A)
    → ((a : A) → (f a ≡ []) ↔ P a)
    → (concat_map f xs ≡ []) ↔ All P xs
concat_map_iff f xs h =
    let e = concat_map-eq-nil f xs in let k = All-iff xs h in (λ n. k.0 (e.0 n), λ a. e.1 (k.1 a))

pub In-filter :
    {A : Type 0} (p : A → Bool) (xs : List A) (a : A)
    → In a (filter p xs) ↔ (In a xs × (p a ≡ true))
In-filter p [] a = (λ h. elim h [ ], λ h. h.0)
In-filter p (x ∷ xs) a = ground (arith, In-filter p xs a)

pub In-concat_map :
    {A B : Type 0} (f : A → List B) (xs : List A) (b : B)
    → In b (concat_map f xs) ↔ ((a : A) × In a xs × In b (f a))
In-concat_map f [] b = (λ h. elim h [ ], λ v. elim v.1 [ ])
In-concat_map f (x ∷ xs) b = (
  λ h. elim ((In-append b (f x) (concat_map f xs)).0 h) [
    | inl i ↦ (x, inl refl, i)
    | inr r ↦ let (a, j, k) = (In-concat_map f xs b).0 r in (a, inr j, k)
  ],
  λ v. elim v.1 [
    | inl e ↦ (In-append b (f x) (concat_map f xs)).1 (inl (rw e at v.2))
    | inr r ↦ (In-append b (f x) (concat_map f xs)).1 (inr ((In-concat_map f xs b).1 (v.0, r, v.2)))
  ],
)

pub length-filter_mono :
    {A : Type 0} (p q : A → Bool) (xs : List A)
    → ((x : A) → q x ≡ true → p x ≡ true)
    → length (filter q xs) ≤ length (filter p xs)
length-filter_mono p q [] h = omega arith
length-filter_mono p q (x ∷ xs) h = ground (arith, length-filter_mono p q xs h, h x)

pub length-filter_lt :
    {A : Type 0} (p q : A → Bool) (xs : List A) (a : A)
    → ((x : A) → q x ≡ true → p x ≡ true)
    → In a xs
    → p a ≡ true
    → q a ≡ false
    → length (filter q xs) < length (filter p xs)
length-filter_lt p q [] a h m e k = elim m [ ]
length-filter_lt p q (x ∷ xs) a h m e k = elim m [
  | inl r ↦ ground (arith, length-filter_mono p q xs h)
  | inr r ↦ ground (arith, length-filter_lt p q xs a h r e k, h x)
]

-- The items of two lists are related in pairs.
abbrev pub Paired : {A B : Type 0} (R : A → B → Type 0) → List A → List B → Type 0
Paired R [] [] = Unit
Paired R (x ∷ xs) (y ∷ ys) = R x y × Paired R xs ys
Paired R _ _ = ⊥

pub Paired-left :
    {A B : Type 0} (R : A → B → Type 0) (xs : List A) (ys : List B) (x : A)
    → Paired R xs ys
    → In x xs
    → (y : B) × In y ys × R x y
Paired-left R [] ys x h m = elim m [ ]
Paired-left R (a ∷ xs) [] x h m = elim h [ ]
Paired-left R (a ∷ xs) (b ∷ ys) x (r, h) m = elim m [
  | inl e ↦ (b, inl refl, rw e r)
  | inr k ↦ let (y, i, s) = Paired-left R xs ys x h k in (y, inr i, s)
]

pub Paired-right :
    {A B : Type 0} (R : A → B → Type 0) (xs : List A) (ys : List B) (y : B)
    → Paired R xs ys
    → In y ys
    → (x : A) × In x xs × R x y
Paired-right R xs [] y h m = elim m [ ]
Paired-right R [] (b ∷ ys) y h m = elim h [ ]
Paired-right R (a ∷ xs) (b ∷ ys) y (r, h) m = elim m [
  | inl e ↦ (a, inl refl, rw e r)
  | inr k ↦ let (x, i, s) = Paired-right R xs ys y h k in (x, inr i, s)
]

-- Some item has the property.
abbrev pub Exists : {A : Type 0} (P : A → Type 0) → List A → Type 0
Exists {A} P xs = (x : A) × In x xs × P x

pub Exists-cons :
    {A : Type 0} (P : A → Type 0) (x : A) (xs : List A) → Exists P (x ∷ xs) ↔ (P x ⊎ Exists P xs)
Exists-cons P x xs = (
  λ (y, m, p). elim m [ inl e ↦ inl (subst P e p) | inr r ↦ inr (y, r, p) ],
  λ h. elim h [ inl p ↦ (x, inl refl, p) | inr (y, m, p) ↦ (y, inr m, p) ],
)
