-- ===== src/Owners/Glob/Laws.antt =====
-- Which values a pattern of an OWNERS file matches, without reference to rows.
use chromifer.Base.{
  ℕ, suc, String, ◌≡◌, ◌↔◌, ◌⊎◌, refl, inl, inr, Bool, true, false, ◌&&◌, ◌||◌, List, [], ◌∷◌, eqb,
  length, arith,
}
use chromifer.Base.Text.{as_bytes}
use chromifer.Owners.Glob.{
  Item, dots, star, question, literal, items, carry, spread, shifted, any_byte, not_slash, next_row,
  rounds, falses, last_entry, glob_bytes, glob_matches,
}

-- The value begins with a byte that passes, and `P` holds of what follows.
abbrev pub Begins : (ℕ → Bool) → (List ℕ → Type 0) → List ℕ → Type 0
Begins test P [] = ⊥
Begins test P (v ∷ value) = (test v ≡ true) × P value

-- `P` holds behind some number of bytes that pass.
abbrev pub Skips : (ℕ → Bool) → (List ℕ → Type 0) → List ℕ → Type 0
Skips test P [] = P []
Skips test P (v ∷ value) = P (v ∷ value) ⊎ ((test v ≡ true) × Skips test P value)

-- `...` stands for any bytes, `*` for bytes other than `/`, `?` for one such byte, and another byte
-- for itself.
abbrev pub Matches : List Item → List ℕ → Type 0
Matches [] value = value ≡ []
Matches (dots ∷ rest) value = Skips any_byte (Matches rest) value
Matches (star ∷ rest) value = Skips not_slash (Matches rest) value
Matches (question ∷ rest) value = Begins not_slash (Matches rest) value
Matches (literal b ∷ rest) value = Begins (λ v. eqb b v) (Matches rest) value

-- Some index has an entry, and `P` holds of the value from there.
abbrev SomeAt : (List ℕ → Type 0) → List Bool → List ℕ → Type 0
SomeAt P [] value = ⊥
SomeAt P (c ∷ row) [] = (c ≡ true) × P []
SomeAt P (c ∷ row) (v ∷ value) = ((c ≡ true) × P (v ∷ value)) ⊎ SomeAt P row value

-- One entry more than the value has bytes
abbrev Fits : List Bool → List ℕ → Type 0
Fits row value = length row ≡ suc (length value)

module _ (P : List ℕ → Type 0) where
  SomeAt-head :
      (c : Bool) (row : List Bool) (value : List ℕ)
      → SomeAt P (c ∷ row) value ↔ (((c ≡ true) × P value) ⊎ SomeAt P (false ∷ row) value)
  SomeAt-head c row [] = ground arith
  SomeAt-head c row (v ∷ value) = ground arith

  SomeAt-shifted :
      (test : ℕ → Bool) (row : List Bool) (value : List ℕ)
      → Fits row value
      → SomeAt P (false ∷ shifted test row value) value ↔ SomeAt (Begins test P) row value
  unfolding shifted
  SomeAt-shifted test [] value f = absurd (omega arith)
  SomeAt-shifted test (c ∷ row) [] f = ground arith
  SomeAt-shifted test (c ∷ row) (v ∷ value) f = ground (
    arith,
    SomeAt-head (test v && c) (shifted test row value) value,
    SomeAt-shifted test row value (omega arith),
  )

  SomeAt-carry :
      (test : ℕ → Bool) (d : Bool) (row : List Bool) (value : List ℕ)
      → length row ≡ length value
      → SomeAt P (d ∷ carry test d row value) value
        ↔ (((d ≡ true) × Skips test P value) ⊎ SomeAt (Skips test P) (false ∷ row) value)
  unfolding carry
  SomeAt-carry test d [] [] f = ground arith
  SomeAt-carry test d (c ∷ row) [] f = absurd (omega arith)
  SomeAt-carry test d [] (v ∷ value) f = absurd (omega arith)
  SomeAt-carry test d (c ∷ row) (v ∷ value) f =
      ground
        (arith, SomeAt-carry test (c || (test v && d)) row value (omega arith), head_of c row value)
    where
      head_of :
          (c : Bool) (row : List Bool) (value : List ℕ)
          → SomeAt (Skips test P) (c ∷ row) value
            ↔ (((c ≡ true) × Skips test P value) ⊎ SomeAt (Skips test P) (false ∷ row) value)
      head_of c row [] = ground arith
      head_of c row (v ∷ value) = ground arith

SomeAt-spread :
    (P : List ℕ → Type 0) (test : ℕ → Bool) (row : List Bool) (value : List ℕ)
    → Fits row value
    → SomeAt P (spread test row value) value ↔ SomeAt (Skips test P) row value
unfolding spread
SomeAt-spread P test [] value f = absurd (omega arith)
SomeAt-spread P test (c ∷ row) value f =
    let carried = SomeAt-carry P test c row value (omega arith) in
    let split = SomeAt-head (Skips test P) c row value in
    (λ h. split.1 (carried.0 h), λ h. carried.1 (split.0 h))

-- One round moves an item from the rows to the statement.
SomeAt-next_row :
    (i : Item) (rest : List Item) (row : List Bool) (value : List ℕ)
    → Fits row value
    → SomeAt (Matches rest) (next_row i row value) value ↔ SomeAt (Matches (i ∷ rest)) row value
unfolding next_row
SomeAt-next_row dots rest row value f = SomeAt-spread (Matches rest) any_byte row value f
SomeAt-next_row star rest row value f = SomeAt-spread (Matches rest) not_slash row value f
SomeAt-next_row question rest row value f = SomeAt-shifted (Matches rest) not_slash row value f
SomeAt-next_row (literal b) rest row value f =
    SomeAt-shifted (Matches rest) (λ v. eqb b v) row value f

length-carry :
    (test : ℕ → Bool) (d : Bool) (row : List Bool) (value : List ℕ)
    → length row ≡ length value
    → length (carry test d row value) ≡ length value
unfolding carry
length-carry test d [] [] f = refl
length-carry test d (c ∷ row) [] f = omega arith
length-carry test d [] (v ∷ value) f = omega arith
length-carry test d (c ∷ row) (v ∷ value) f =
    omega (arith, length-carry test (c || (test v && d)) row value (omega arith))

length-shifted :
    (test : ℕ → Bool) (row : List Bool) (value : List ℕ)
    → Fits row value
    → length (shifted test row value) ≡ length value
unfolding shifted
length-shifted test [] value f = omega arith
length-shifted test (c ∷ row) [] f = omega arith
length-shifted test (c ∷ row) (v ∷ value) f =
    omega (arith, length-shifted test row value (omega arith))

Fits-spread :
    (test : ℕ → Bool) (row : List Bool) (value : List ℕ)
    → Fits row value
    → Fits (spread test row value) value
unfolding spread
Fits-spread test [] value f = omega arith
Fits-spread test (c ∷ row) value f = omega (arith, length-carry test c row value (omega arith))

Fits-next_row :
    (i : Item) (row : List Bool) (value : List ℕ)
    → Fits row value
    → Fits (next_row i row value) value
unfolding next_row
Fits-next_row dots row value f = Fits-spread any_byte row value f
Fits-next_row star row value f = Fits-spread not_slash row value f
Fits-next_row question row value f = omega (arith, length-shifted not_slash row value f)
Fits-next_row (literal b) row value f = omega (arith, length-shifted (λ v. eqb b v) row value f)

last_entry_iff :
    (row : List Bool) (value : List ℕ)
    → Fits row value
    → (last_entry row value ≡ true) ↔ SomeAt (Matches []) row value
unfolding last_entry
last_entry_iff [] value f = absurd (omega arith)
last_entry_iff (c ∷ row) [] f = (λ h. (h, refl), λ h. h.0)
last_entry_iff (c ∷ row) (v ∷ value) f =
    let later = last_entry_iff row value (omega arith) in
    (λ h. inr (later.0 h), λ h. elim h [ inl e ↦ cc (e.1) | inr r ↦ later.1 r ])

rounds_iff :
    (is : List Item) (row : List Bool) (value : List ℕ)
    → Fits row value
    → (last_entry (rounds is row value) value ≡ true) ↔ SomeAt (Matches is) row value
unfolding rounds
rounds_iff [] row value f = last_entry_iff row value f
rounds_iff (i ∷ is) row value f =
    let later = rounds_iff is (next_row i row value) value (Fits-next_row i row value f) in
    let moved = SomeAt-next_row i is row value f in
    (λ h. moved.0 (later.0 h), λ h. later.1 (moved.1 h))

length-falses : (value : List ℕ) → length (falses value) ≡ length value
length-falses [] = refl
length-falses (v ∷ value) = omega (arith, length-falses value)

not-SomeAt-falses : (P : List ℕ → Type 0) (value : List ℕ) → ¬ SomeAt P (false ∷ falses value) value
not-SomeAt-falses P [] h = cc (h.0)
not-SomeAt-falses P (v ∷ value) h = elim h [
  | inl e ↦ cc (e.0)
  | inr r ↦ not-SomeAt-falses P value r
]

-- A pattern matches a path exactly when its bytes do: `...` stands for any bytes, `*` for bytes
-- other than `/`, `?` for one such byte, and another byte for itself.
pub glob_matches_iff :
    (pattern value : String)
    → (glob_matches pattern value ≡ true) ↔ Matches (items (as_bytes pattern)) (as_bytes value)
unfolding glob_matches glob_bytes
glob_matches_iff pattern value =
    let is = items (as_bytes pattern) in
    let v = as_bytes value in
    let all = rounds_iff is (true ∷ falses v) v (omega (arith, length-falses v)) in
    let first = SomeAt-head (Matches is) true (falses v) v in
    (
      λ h. elim (first.0 (all.0 h)) [
        | inl e ↦ e.1
        | inr r ↦ absurd (not-SomeAt-falses (Matches is) v r)
      ],
      λ h. all.1 (first.1 (inl (refl, h))),
    )
