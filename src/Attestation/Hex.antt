-- ===== src/Attestation/Hex.antt =====
-- crates/chromifer-attestation/src/lib.rs: `encode_hex`, `decode_array` and `is_lower_hex`.
pub mod Laws
pub mod Inverse
use Prim.Native.Char.{Char, code}
use Prim.Native.String.{[] as nil, ◌∷◌ as cons}
use chromifer.Base.{
  ℕ, suc, zero, ◌+◌, ◌*◌, ◌/◌, ◌%◌, ◌-◌, String, Bool, ◌&&◌, ◌||◌, not, List, [], ◌∷◌, Option, none,
  some, ltb, leb, eqb, if◌then◌else◌, length,
}
use chromifer.Base.Text.{char_of, as_bytes, all_codes}

-- `HEX[nibble]`
abbrev pub hex_digit : ℕ → Char
hex_digit n = char_of (if ltb n 10 then b'0' + n else 87 + n)

unfoldable pub encode_hex : (bytes : List ℕ) → String
encode_hex [] = nil
encode_hex (b ∷ bytes) = cons (hex_digit (b / 16)) (cons (hex_digit (b % 16)) (encode_hex bytes))

unfoldable pub decode_nibble : (byte : ℕ) → Option ℕ
decode_nibble byte =
    if leb b'0' byte && leb byte b'9'
    then some (byte - b'0')
    else if leb b'a' byte && leb byte b'f'
    then some ((byte - b'a') + 10)
    else none

-- `(high << 4) | low`, for nibbles
abbrev pub joined : Option ℕ → Option ℕ → Option (List ℕ) → Option (List ℕ)
joined (some high) (some low) (some rest) = some ((high * 16 + low) ∷ rest)
joined _ _ _ = none

-- The loop over the slots, each of two bytes
unfoldable pub decode_pairs : List ℕ → Option (List ℕ)
unfolding decode_nibble
decode_pairs [] = some []
decode_pairs (a ∷ []) = none
decode_pairs (a ∷ b ∷ rest) = joined (decode_nibble a) (decode_nibble b) (decode_pairs rest)

-- `decode_array::<count>`
unfoldable pub decode_array : (count : ℕ) → String → Option (List ℕ)
unfolding as_bytes decode_pairs
decode_array count value =
    if not (eqb (length (as_bytes value)) (count * 2)) then none else decode_pairs (as_bytes value)

abbrev pub is_lower_hex_digit : ℕ → Bool
is_lower_hex_digit n = (leb b'0' n && leb n b'9') || (leb b'a' n && leb n b'f')

unfoldable pub is_lower_hex : String → (length_wanted : ℕ) → Bool
unfolding as_bytes all_codes
is_lower_hex value length_wanted =
    eqb (length (as_bytes value)) length_wanted && all_codes is_lower_hex_digit value
