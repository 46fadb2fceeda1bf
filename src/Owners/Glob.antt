-- ===== src/Owners/Glob.antt =====
-- crates/chromifer-owners/src/lib.rs: `glob_matches`, on bytes. A row holds `current[index]` for each
-- index from 0 to the length of the value.
pub mod Laws
use chromifer.Base.{
  ℕ, zero, suc, String, Bool, true, false, not, ◌&&◌, ◌||◌, List, [], ◌∷◌, eqb, length,
  if◌then◌else◌,
}
use chromifer.Base.Text.{as_bytes}

-- What stands at `pattern_index`
pub data Item : Type 0 where
  dots star question : Item
  literal : ℕ → Item

unfoldable pub item_of : ℕ → Item
item_of b = if eqb b b'*' then star else if eqb b b'?' then question else literal b

abbrev pub is_dots : ℕ → ℕ → ℕ → Bool
is_dots a b c = eqb a b'.' && (eqb b b'.' && eqb c b'.')

-- The items that the loop meets: three dots are one.
unfoldable pub items : List ℕ → List Item
unfolding item_of
items (a ∷ b ∷ c ∷ rest) = elim (is_dots a b c) [
  | true ↦ dots ∷ items rest
  | false ↦ item_of a ∷ items (b ∷ c ∷ rest)
]
items (a ∷ rest) = item_of a ∷ items rest
items [] = []

-- `next[index] = current[index] || (test(value[index - 1]) && next[index - 1])`, where `left` is
-- `next[index - 1]`
unfoldable pub carry : (ℕ → Bool) → (left : Bool) → List Bool → List ℕ → List Bool
carry test left (c ∷ row) (v ∷ value) =
    let here = c || (test v && left) in here ∷ carry test here row value
carry test left _ _ = []

-- The first entry is copied.
unfoldable pub spread : (ℕ → Bool) → List Bool → List ℕ → List Bool
unfolding carry
spread test [] value = []
spread test (c ∷ row) value = c ∷ carry test c row value

-- `next[index] = test(value[index - 1]) && current[index - 1]`
unfoldable pub shifted : (ℕ → Bool) → List Bool → List ℕ → List Bool
shifted test (c ∷ row) (v ∷ value) = (test v && c) ∷ shifted test row value
shifted test _ _ = []

abbrev pub any_byte : ℕ → Bool
any_byte v = true

abbrev pub not_slash : ℕ → Bool
not_slash v = not (eqb v b'/')

-- One round: `next` from `current`
unfoldable pub next_row : Item → List Bool → List ℕ → List Bool
unfolding spread shifted
next_row dots row value = spread any_byte row value
next_row star row value = spread not_slash row value
next_row question row value = false ∷ shifted not_slash row value
next_row (literal b) row value = false ∷ shifted (λ v. eqb b v) row value

unfoldable pub rounds : List Item → List Bool → List ℕ → List Bool
unfolding next_row
rounds [] row value = row
rounds (i ∷ rest) row value = rounds rest (next_row i row value) value

-- `vec![false; value.len() + 1]`, with `current[0] = true`
abbrev pub falses : List ℕ → List Bool
falses [] = []
falses (v ∷ value) = false ∷ falses value

-- `current[value.len()]`
unfoldable pub last_entry : List Bool → List ℕ → Bool
last_entry (c ∷ row) [] = c
last_entry (c ∷ row) (v ∷ value) = last_entry row value
last_entry [] value = false

unfoldable pub glob_bytes : (pattern value : List ℕ) → Bool
unfolding items rounds last_entry
glob_bytes pattern value = last_entry (rounds (items pattern) (true ∷ falses value) value) value

unfoldable pub glob_matches : (pattern value : String) → Bool
unfolding glob_bytes as_bytes
glob_matches pattern value = glob_bytes (as_bytes pattern) (as_bytes value)
