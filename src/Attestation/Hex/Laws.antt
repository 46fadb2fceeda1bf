-- ===== src/Attestation/Hex/Laws.antt =====
-- Hexadecimal texts and the bytes that they stand for.
use Prim.Native.Char.{code}
use chromifer.Base.{
  ℕ, ◌<◌, ◌*◌, ◌+◌, ◌/◌, ◌%◌, ◌≡◌, refl, ap, ◌∙◌, true, List, [], ◌∷◌, some, ltb, eqb,
  if◌then◌else◌, length, All, arith,
}
use chromifer.Base.Text.{code-char_of, as_bytes, encode, all_codes}
use chromifer.Attestation.Hex.{
  hex_digit, encode_hex, decode_nibble, decode_pairs, decode_array, is_lower_hex_digit,
  is_lower_hex,
}

abbrev pub IsByte : ℕ → Type 0
IsByte n = n < 256

abbrev pub digit_code : ℕ → ℕ
digit_code n = if ltb n 10 then b'0' + n else 87 + n

pub code-hex_digit : (n : ℕ) → n < 16 → code (hex_digit n) ≡ digit_code n
code-hex_digit n h = code-char_of (digit_code n) (ground arith)

decode_nibble-digit_code : (n : ℕ) → n < 16 → decode_nibble (digit_code n) ≡ some n
unfolding decode_nibble
decode_nibble-digit_code n h = ground arith

encode-digit_code : (n : ℕ) → n < 16 → encode (digit_code n) ≡ digit_code n ∷ []
unfolding encode
encode-digit_code n h = ground arith

as_bytes-encode_hex :
    (b : ℕ) (bytes : List ℕ)
    → IsByte b
    → as_bytes (encode_hex (b ∷ bytes))
      ≡ digit_code (b / 16) ∷ digit_code (b % 16) ∷ as_bytes (encode_hex bytes)
unfolding as_bytes encode_hex
as_bytes-encode_hex b bytes h =
    rw
      (
        code-hex_digit (b / 16) (omega arith),
        code-hex_digit (b % 16) (omega arith),
        encode-digit_code (b / 16) (omega arith),
        encode-digit_code (b % 16) (omega arith),
      )
      refl

length-encode_hex :
    (bytes : List ℕ) → All IsByte bytes → length (as_bytes (encode_hex bytes)) ≡ length bytes * 2
length-encode_hex [] h = unfold as_bytes encode_hex in omega arith
length-encode_hex (b ∷ bytes) h =
    rw (as_bytes-encode_hex b bytes h.0) (omega (arith, length-encode_hex bytes h.1))

decode_pairs-encode_hex :
    (bytes : List ℕ) → All IsByte bytes → decode_pairs (as_bytes (encode_hex bytes)) ≡ some bytes
decode_pairs-encode_hex [] h = unfold as_bytes encode_hex decode_pairs in refl
decode_pairs-encode_hex (b ∷ bytes) h = rw (as_bytes-encode_hex b bytes h.0) (
    pair (digit_code (b / 16)) (digit_code (b % 16)) (as_bytes (encode_hex bytes))
      (decode_nibble-digit_code (b / 16) (omega (arith, h.0)))
      (decode_nibble-digit_code (b % 16) (omega (arith, h.0))) (decode_pairs-encode_hex bytes h.1)
    ∙ ap (λ n. some (n ∷ bytes)) (omega arith))
  where
    pair :
        (x y : ℕ) (rest : List ℕ)
        → decode_nibble x ≡ some (b / 16)
        → decode_nibble y ≡ some (b % 16)
        → decode_pairs rest ≡ some bytes
        → decode_pairs (x ∷ y ∷ rest) ≡ some ((b / 16 * 16 + b % 16) ∷ bytes)
    pair x y rest p q r = unfold decode_pairs in rw (p, q, r) refl

-- Hex
pub decode_array-encode_hex :
    (bytes : List ℕ)
    → All IsByte bytes
    → decode_array (length bytes) (encode_hex bytes) ≡ some bytes
unfolding decode_array
decode_array-encode_hex bytes h =
    let right : eqb (length (as_bytes (encode_hex bytes))) (length bytes * 2) ≡ true =
      rw (length-encode_hex bytes h) (ground arith) in
    rw right (decode_pairs-encode_hex bytes h)

pub all_codes-encode_hex :
    (bytes : List ℕ) → All IsByte bytes → all_codes is_lower_hex_digit (encode_hex bytes) ≡ true
unfolding all_codes encode_hex
all_codes-encode_hex [] h = refl
all_codes-encode_hex (b ∷ bytes) h =
    rw
      (
        code-hex_digit (b / 16) (omega (arith, h.0)),
        code-hex_digit (b % 16) (omega (arith, h.0)),
        all_codes-encode_hex bytes h.1,
      )
      (ground (arith, h.0))

pub is_lower_hex-encode_hex :
    (bytes : List ℕ) → All IsByte bytes → is_lower_hex (encode_hex bytes) (length bytes * 2) ≡ true
unfolding is_lower_hex
is_lower_hex-encode_hex bytes h =
    rw (length-encode_hex bytes h, all_codes-encode_hex bytes h) (ground arith)
