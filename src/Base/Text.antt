-- ===== src/Base/Text.antt =====
-- What the sources use of `str`: a text is walked character by character.
use Prim.Native.Char.{Char, code, char, nul}
use Prim.Native.String.{[] as nil, ◌∷◌ as cons, ◌++◌ as ◌<>◌}
use chromifer.Base.{
  ◌<◌, arith, zero, suc, Ordering, compare, ◌≡◌, refl, Option, none, some, ltb, ◌+◌, ◌/◌, ◌%◌, ◌++◌,
  ℕ, String, Bool, true, false, ◌&&◌, ◌||◌, List, [], ◌∷◌, leb, eqb, if◌then◌else◌,
}

-- `char::is_whitespace`: the Unicode property White_Space
unfoldable pub is_whitespace : Char → Bool
is_whitespace c =
    let n = code c in
    (leb 9 n && leb n 13)
    || eqb n 32
    || eqb n 0x85
    || eqb n 0xa0
    || eqb n 0x1680
    || (leb 0x2000 n && leb n 0x200a)
    || eqb n 0x2028
    || eqb n 0x2029
    || eqb n 0x202f
    || eqb n 0x205f
    || eqb n 0x3000

-- `value.trim().is_empty()`: every character is white space.
unfoldable pub is_blank : String → Bool
unfolding is_whitespace
is_blank nil = true
is_blank (cons c s) = is_whitespace c && is_blank s

-- `value.contains(character)`, by the character's number
unfoldable pub has_code : ℕ → String → Bool
has_code n nil = false
has_code n (cons c s) = eqb (code c) n || has_code n s

-- `value.bytes().all(p)`, for a test that fails on every character outside ASCII, whose bytes are
-- all 128 or more
unfoldable pub all_codes : (ℕ → Bool) → String → Bool
all_codes p nil = true
all_codes p (cons c s) = p (code c) && all_codes p s

-- `value.replace(from, to)`, for single characters
unfoldable pub replace : ℕ → Char → String → String
replace from to nil = nil
replace from to (cons c s) = cons (if eqb (code c) from then to else c) (replace from to s)

abbrev pub prepend : Char → List String → List String
prepend c [] = cons c nil ∷ []
prepend c (w ∷ ws) = cons c w ∷ ws

-- `value.split(separator)`, by the separator's number
unfoldable pub split : ℕ → String → List String
split n nil = nil ∷ []
split n (cons c s) = let rest = split n s in if eqb (code c) n then nil ∷ rest else prepend c rest

-- `values.join(separator)`
unfoldable pub join : String → List String → String
join sep [] = nil
join sep (x ∷ []) = x
join sep (x ∷ y ∷ rest) = x <> (sep <> join sep (y ∷ rest))

-- `text.starts_with(prefix)`
unfoldable pub starts_with : (prefix text : String) → Bool
starts_with nil text = true
starts_with (cons c prefix) nil = false
starts_with (cons c prefix) (cons d text) = eqb (code c) (code d) && starts_with prefix text

-- `text.strip_prefix(prefix)`
unfoldable pub strip_prefix : (prefix text : String) → Option String
strip_prefix nil text = some text
strip_prefix (cons c prefix) nil = none
strip_prefix (cons c prefix) (cons d text) =
    let rest = strip_prefix prefix text in if eqb (code c) (code d) then rest else none

-- `trim_start`, by a test on characters
unfoldable pub trim_start_by : (Char → Bool) → String → String
trim_start_by p nil = nil
trim_start_by p (cons c s) = let rest = trim_start_by p s in if p c then rest else cons c s

abbrev pub cons_unless : Bool → Char → String → String
cons_unless true c nil = nil
cons_unless b c s = cons c s

-- `trim_end`, by a test on characters
unfoldable pub trim_end_by : (Char → Bool) → String → String
trim_end_by p nil = nil
trim_end_by p (cons c s) = cons_unless (p c) c (trim_end_by p s)

-- `text.trim()`
unfoldable pub trim : String → String
unfolding trim_start_by trim_end_by is_whitespace
trim s = trim_end_by is_whitespace (trim_start_by is_whitespace s)

abbrev pub push_left : Char → Option (String × String) → Option (String × String)
push_left c none = none
push_left c (some (left, right)) = some (cons c left, right)

-- `text.split_once(separator)`, by the separator's number
unfoldable pub split_once : ℕ → String → Option (String × String)
split_once n nil = none
split_once n (cons c s) =
    let rest = split_once n s in if eqb (code c) n then some (nil, s) else push_left c rest

-- `text.chars().any(p)`
unfoldable pub any_char : (Char → Bool) → String → Bool
any_char p nil = false
any_char p (cons c s) = p c || any_char p s

-- `char::is_control`: the general category Cc
unfoldable pub is_control : Char → Bool
is_control c = let n = code c in leb n 31 || (leb 127 n && leb n 159)

-- `char::is_ascii_alphanumeric`
unfoldable pub is_ascii_alphanumeric : Char → Bool
is_ascii_alphanumeric c =
    let n = code c in
    (leb b'0' n && leb n b'9') || (leb b'A' n && leb n b'Z') || (leb b'a' n && leb n b'z')

-- One `\r` at the end of a line
unfoldable pub strip_carriage : String → String
strip_carriage nil = nil
strip_carriage (cons c nil) = if eqb (code c) 13 then nil else cons c nil
strip_carriage (cons c (cons d s)) = cons c (strip_carriage (cons d s))

-- The pieces between line feeds: a line that ends in one loses a `\r` before it, and nothing behind
-- the last one is no line.
unfoldable pub finish_lines : List String → List String
unfolding strip_carriage
finish_lines [] = []
finish_lines (nil ∷ []) = []
finish_lines (s ∷ []) = s ∷ []
finish_lines (s ∷ t ∷ rest) = strip_carriage s ∷ finish_lines (t ∷ rest)

-- `text.lines()`
unfoldable pub lines : String → List String
unfolding split finish_lines
lines s = finish_lines (split 10 s)

-- The UTF-8 bytes of a character
unfoldable pub encode : ℕ → List ℕ
encode n =
    if ltb n 0x80
    then n ∷ []
    else if ltb n 0x800
    then (0xc0 + n / 0x40) ∷ (0x80 + n % 0x40) ∷ []
    else if ltb n 0x10000
    then (0xe0 + n / 0x1000) ∷ (0x80 + n / 0x40 % 0x40) ∷ (0x80 + n % 0x40) ∷ []
    else (0xf0 + n / 0x40000)
      ∷ (0x80 + n / 0x1000 % 0x40)
      ∷ (0x80 + n / 0x40 % 0x40)
      ∷ (0x80 + n % 0x40)
      ∷ []

-- `text.as_bytes()`
unfoldable pub as_bytes : String → List ℕ
unfolding encode
as_bytes nil = []
as_bytes (cons c s) = encode (code c) ++ as_bytes s

-- The character of a code point below the surrogates
abbrev pub char_below : (n : ℕ) (o : Ordering) → compare n 55296 ≡ o → Char
char_below n Ordering.lt e = char n (rw e tt)
char_below n _ e = nul

abbrev pub char_of : ℕ → Char
char_of n = char_below n (compare n 55296) refl

pub code-char_of : (n : ℕ) → n < 55296 → code (char_of n) ≡ n
code-char_of n h = by_order (compare n 55296) refl
  where
    by_order : (o : Ordering) (e : compare n 55296 ≡ o) → code (char_below n o e) ≡ n
    by_order Ordering.lt e = refl
    by_order Ordering.eq e = absurd (ground arith)
    by_order Ordering.gt e = absurd (ground arith)

-- `char::to_ascii_lowercase`
unfoldable pub to_ascii_lowercase : Char → Char
to_ascii_lowercase c = let n = code c in if leb b'A' n && leb n b'Z' then char_of (n + 32) else c

-- The lowercase hexadecimal digits of a number, as many as the first argument says, before a text
unfoldable pub push_hex : (width : ℕ) → ℕ → String → String
push_hex zero n s = s
push_hex (suc width) n s =
    let d = n % 16 in
    push_hex width (n / 16) (cons (char_of (if ltb d 10 then b'0' + d else 87 + d)) s)

abbrev pub is_slash : Char → Bool
is_slash c = eqb (code c) b'/'
