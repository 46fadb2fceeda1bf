-- ===== src/Attestation/Hex/Inverse.antt =====
-- Decoding is undone by encoding.
use Prim.Native.Char.{Char, code}
use Prim.Native.String.{[] as nil, ◌∷◌ as cons}
use text.Mathlib.TextEquality.{Char-path}
use chromifer.Base.{
  ℕ, ◌+◌, ◌*◌, ◌/◌, ◌%◌, ◌<◌, String, ◌≡◌, refl, subst, ◌∙◌, Bool, true, false, not, List, [], ◌∷◌,
  Option, none, some, eqb, length, if◌then◌else◌, arith,
}
use chromifer.Base.Text.{as_bytes, all_codes, encode}
use chromifer.Attestation.Hex.{
  hex_digit, encode_hex, decode_nibble, joined, decode_pairs, decode_array, is_lower_hex_digit,
  is_lower_hex,
}
use chromifer.Attestation.Hex.Laws.{digit_code, code-hex_digit}

decode_nibble-code : (x n : ℕ) → decode_nibble x ≡ some n → (n < 16) × (digit_code n ≡ x)
unfolding decode_nibble
decode_nibble-code x n h = (ground arith, ground arith)

encode-digit : (n : ℕ) → is_lower_hex_digit n ≡ true → encode n ≡ n ∷ []
unfolding encode
encode-digit n h = ground arith

joined-some :
    (a b : Option ℕ) (r : Option (List ℕ)) (bytes : List ℕ)
    → joined a b r ≡ some bytes
    → (high low : ℕ) × (rest : List ℕ) × (a ≡ some high)
      × (b ≡ some low)
      × (r ≡ some rest)
      × ((high * 16 + low) ∷ rest ≡ bytes)
joined-some (some high) (some low) (some rest) bytes h = (high, low, rest, refl, refl, refl, cc h)
joined-some (some high) (some low) none bytes h = absurd cc
joined-some (some high) none r bytes h = absurd cc
joined-some none b r bytes h = absurd cc

hex_digit-code : (c : Char) (n : ℕ) → n < 16 → digit_code n ≡ code c → hex_digit n ≡ c
hex_digit-code c n h e = Char-path (hex_digit n) c (code-hex_digit n h ∙ e)

as_bytes-digit :
    (c : Char) (s : String)
    → is_lower_hex_digit (code c) ≡ true
    → as_bytes (cons c s) ≡ code c ∷ as_bytes s
unfolding as_bytes
as_bytes-digit c s d = rw (encode-digit (code c) d) refl

all_codes-cons :
    (p : ℕ → Bool) (c : Char) (s : String)
    → all_codes p (cons c s) ≡ true
    → (p (code c) ≡ true) × (all_codes p s ≡ true)
unfolding all_codes
all_codes-cons p c s h = (ground arith, ground arith)

encode_hex-cons :
    (high low : ℕ) (rest : List ℕ)
    → high < 16
    → low < 16
    → encode_hex ((high * 16 + low) ∷ rest)
      ≡ cons (hex_digit high) (cons (hex_digit low) (encode_hex rest))
unfolding encode_hex
encode_hex-cons high low rest h l =
    let q : (high * 16 + low) / 16 ≡ high = omega arith in
    let r : (high * 16 + low) % 16 ≡ low = omega arith in rw (q, r) refl

encode_hex-decode_pairs :
    (s : String) (bytes : List ℕ)
    → all_codes is_lower_hex_digit s ≡ true
    → decode_pairs (as_bytes s) ≡ some bytes
    → encode_hex bytes ≡ s
encode_hex-decode_pairs nil bytes d h =
    let e : [] ≡ bytes = unfold as_bytes decode_pairs in cc h in
    subst (λ b. encode_hex b ≡ nil) e (unfold encode_hex in refl)
encode_hex-decode_pairs (cons c nil) bytes d h =
    let h = rw (as_bytes-digit c nil (all_codes-cons is_lower_hex_digit c nil d).0) at h in
    unfold as_bytes decode_pairs in absurd cc
encode_hex-decode_pairs (cons c (cons e t)) bytes d h =
    let (dc, d) = all_codes-cons is_lower_hex_digit c (cons e t) d in
    let (de, d) = all_codes-cons is_lower_hex_digit e t d in
    let h = rw (as_bytes-digit c (cons e t) dc, as_bytes-digit e t de) at h in
    let (high, low, rest, p, q, r, same) =
      joined-some (decode_nibble (code c)) (decode_nibble (code e)) (decode_pairs (as_bytes t))
        bytes (unfold decode_pairs in h) in
    let (ph, pc) = decode_nibble-code (code c) high p in
    let (ql, qc) = decode_nibble-code (code e) low q in
    subst (λ b. encode_hex b ≡ cons c (cons e t)) same
      (encode_hex-cons high low rest ph ql
        ∙ rw
            (
              hex_digit-code c high ph pc,
              hex_digit-code e low ql qc,
              encode_hex-decode_pairs t rest d r,
            )
            refl)

-- What is decoded is encoded in the same way.
pub encode_hex-decode_array :
    (count n : ℕ) (s : String) (bytes : List ℕ)
    → is_lower_hex s n ≡ true
    → decode_array count s ≡ some bytes
    → encode_hex bytes ≡ s
unfolding is_lower_hex decode_array
encode_hex-decode_array count n s bytes l h =
    encode_hex-decode_pairs s bytes (ground arith)
      (by_length (eqb (length (as_bytes s)) (count * 2)) h)
  where
    by_length :
        (b : Bool)
        → (if not b then none else decode_pairs (as_bytes s)) ≡ some bytes
        → decode_pairs (as_bytes s) ≡ some bytes
    by_length true h = h
    by_length false h = absurd cc
