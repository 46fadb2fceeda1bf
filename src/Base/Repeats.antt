-- ===== src/Base/Repeats.antt =====
-- Lists without repetition, as the library's and as the development's, under permutations and appending.
use mathlib.Core.HLevel.{⊥_prop}
use mathlib.Core.Logic.Or
use mathlib.Core.List.Perm
use mathlib.Core.List.{
  Perm, Mem, Nodup, Nodup-nil, Nodup-cons, not-mem-nil, mem-cons_self, mem-cons_of_mem,
  eq-or-mem_of_mem-cons,
}
use chromifer.Base.{subst, List, [], ◌∷◌, ◌++◌, In, In-append, NoRepeat, inl, inr}

module _ {A : Type 0} where
  Mem-of_In : (a : A) (xs : List A) → In a xs → Mem a xs
  Mem-of_In a [] m = elim m [ ]
  Mem-of_In a (x ∷ xs) m = elim m [
    | inl e ↦ subst (λ b. Mem a (b ∷ xs)) e mem-cons_self
    | inr r ↦ mem-cons_of_mem x (Mem-of_In a xs r)
  ]

  not_Mem : (a : A) (xs : List A) → (¬ In a xs) → ¬ Mem a xs
  not_Mem a [] n m = not-mem-nil m
  not_Mem a (x ∷ xs) n m =
      Or.elim ⊥_prop (eq-or-mem_of_mem-cons m) (λ e. n (inl e)) (not_Mem a xs (λ i. n (inr i)))

  NoRepeat-Nodup : (xs : List A) → NoRepeat xs → Nodup xs
  NoRepeat-Nodup [] h = Nodup-nil
  NoRepeat-Nodup (x ∷ xs) (n, h) = Nodup-cons.1 (not_Mem x xs n, NoRepeat-Nodup xs h)

  Nodup-NoRepeat : (xs : List A) → Nodup xs → NoRepeat xs
  Nodup-NoRepeat [] h = tt
  Nodup-NoRepeat (x ∷ xs) h =
      let (n, k) = Nodup-cons.0 h in (λ i. n (Mem-of_In x xs i), Nodup-NoRepeat xs k)

  pub NoRepeat-Perm : (xs ys : List A) → Perm xs ys → NoRepeat xs → NoRepeat ys
  NoRepeat-Perm xs ys p h = Nodup-NoRepeat ys (Perm.nodup p (NoRepeat-Nodup xs h))

  pub NoRepeat-append :
      (xs ys : List A) → NoRepeat (xs ++ ys) → ((a : A) → In a xs → ¬ In a ys) × NoRepeat ys
  NoRepeat-append [] ys h = (λ a m. elim m [ ], h)
  NoRepeat-append (x ∷ xs) ys (n, h) =
      let (apart, later) = NoRepeat-append xs ys h in
      (
        λ a m i. elim m [
          | inl e ↦ n ((In-append x xs ys).1 (inr (subst (λ b. In b ys) e i)))
          | inr r ↦ apart a r i
        ],
        later,
      )
