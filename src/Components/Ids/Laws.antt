-- ===== src/Components/Ids/Laws.antt =====
-- What a sanitized id looks like.
use Prim.Native.Char.{Char, code}
use Prim.Native.String.{[] as nil, ◌∷◌ as cons, ◌++◌ as ◌<>◌}
use Prim.Native.String.append
use chromifer.Base.{
  ℕ, ◌+◌, String, ◌≡◌, refl, Bool, true, false, not, ◌&&◌, ◌||◌, eqb, leb, if◌then◌else◌, arith,
  ◌==◌, string_eq, Bool-cases, inl, inr, eq_iff, ◌⊎◌,
}
use chromifer.Base.Text.{
  all_codes, is_ascii_alphanumeric, to_ascii_lowercase, trim_end_by, cons_unless, code-char_of,
}
use chromifer.Components.Ids.{
  is_underscore, sanitize_char, sanitize_chars, begins_with_digit, finish_id, sanitize_id,
}

abbrev pub is_lower_code : ℕ → Bool
is_lower_code n = leb b'a' n && leb n b'z'

abbrev pub is_id_code : ℕ → Bool
is_id_code n = is_lower_code n || ((leb b'0' n && leb n b'9') || eqb n b'_')

abbrev pub begins_with_lower : String → Bool
begins_with_lower nil = false
begins_with_lower (cons c s) = is_lower_code (code c)

-- No underscore stands first.
abbrev begins_well : String → Bool
begins_well nil = true
begins_well (cons c s) = not (is_underscore c)

-- A text as the loop builds it
record IsPart (s : String) : Type 0 where
  codes : all_codes is_id_code s ≡ true
  first : begins_well s ≡ true

lowered :
    (c : Char)
    → is_ascii_alphanumeric c ≡ true
    → (is_id_code (code (to_ascii_lowercase c)) && not (is_underscore (to_ascii_lowercase c)))
      ≡ true
unfolding is_ascii_alphanumeric to_ascii_lowercase
lowered c h = elim (Bool-cases (leb b'A' (code c) && leb (code c) b'Z')) [
  | inl e ↦ rw e (let k = code-char_of (code c + 32) (ground arith) in rw k (ground arith))
  | inr e ↦ rw e (ground arith)
]

all_codes-append :
    (p : ℕ → Bool) (s t : String) → all_codes p (s <> t) ≡ (all_codes p s && all_codes p t)
unfolding all_codes
all_codes-append p nil t = rw append.nil refl
all_codes-append p (cons c s) t = rw append.cons (ground (arith, all_codes-append p s t))

begins_well-append :
    (s t : String)
    → begins_well s ≡ true
    → (s ≡ "" → begins_well t ≡ true)
    → begins_well (s <> t) ≡ true
begins_well-append nil t h k = rw append.nil (k refl)
begins_well-append (cons c s) t h k = rw append.cons h

IsPart-append :
    (s t : String)
    → IsPart s
    → all_codes is_id_code t ≡ true
    → (s ≡ "" → begins_well t ≡ true)
    → IsPart (s <> t)
IsPart-append s t h codes first = record {
  codes = rw (all_codes-append is_id_code s t, h.codes) codes;
  first = begins_well-append s t h.first first;
}

sanitize_char-IsPart :
    (c : Char) (output : String) (separator : Bool)
    → IsPart output
    → IsPart (sanitize_char c (output, separator)).0
unfolding sanitize_char
sanitize_char-IsPart c output separator h = elim (Bool-cases (is_ascii_alphanumeric c)) [
  | inl e ↦ rw e (
      let k = lowered c e in
      IsPart-append output (cons (to_ascii_lowercase c) nil) h (unfold all_codes in ground arith)
        (λ _. ground arith))
  | inr e ↦ rw e (underscore (not (output == "") && not separator) refl)
]
  where
    underscore :
        (b : Bool)
        → (not (output == "") && not separator) ≡ b
        → let state : String × Bool = if b then (output <> "_", true) else (output, separator) in
          IsPart state.0
    underscore true e =
        IsPart-append output "_" h (unfold all_codes in refl)
          (λ k. let same = (eq_iff output "").1 k in absurd (ground arith))
    underscore false e = h

sanitize_chars-IsPart :
    (value : String) (output : String) (separator : Bool)
    → IsPart output
    → IsPart (sanitize_chars (output, separator) value)
unfolding sanitize_chars
sanitize_chars-IsPart nil output separator h = h
sanitize_chars-IsPart (cons c s) output separator h =
    let state = sanitize_char c (output, separator) in
    sanitize_chars-IsPart s state.0 state.1 (sanitize_char-IsPart c output separator h)

cons_unless-cases :
    (b : Bool) (c : Char) (s : String) → (cons_unless b c s ≡ nil) ⊎ (cons_unless b c s ≡ cons c s)
cons_unless-cases true c nil = inl refl
cons_unless-cases true c (cons d s) = inr refl
cons_unless-cases false c s = inr refl

-- Trimming at the end keeps the codes and the beginning.
all_codes-trim_end_by :
    (p : Char → Bool) (s : String)
    → all_codes is_id_code s ≡ true
    → all_codes is_id_code (trim_end_by p s) ≡ true
unfolding all_codes trim_end_by
all_codes-trim_end_by p nil h = refl
all_codes-trim_end_by p (cons c s) h = elim (cons_unless-cases (p c) c (trim_end_by p s)) [
  | inl e ↦ rw e refl
  | inr e ↦ rw e (ground (arith, all_codes-trim_end_by p s))
]

begins_well-trim_end_by :
    (p : Char → Bool) (s : String) → begins_well s ≡ true → begins_well (trim_end_by p s) ≡ true
unfolding trim_end_by
begins_well-trim_end_by p nil h = h
begins_well-trim_end_by p (cons c s) h = elim (cons_unless-cases (p c) c (trim_end_by p s)) [
  | inl e ↦ rw e refl
  | inr e ↦ rw e h
]

trim_end_by-IsPart : (p : Char → Bool) (s : String) → IsPart s → IsPart (trim_end_by p s)
trim_end_by-IsPart p s h = record {
  codes = all_codes-trim_end_by p s h.codes;
  first = begins_well-trim_end_by p s h.first;
}

begins_with_lower-append :
    (s t : String) → begins_with_lower s ≡ true → begins_with_lower (s <> t) ≡ true
begins_with_lower-append nil t h = cc
begins_with_lower-append (cons c s) t h = rw append.cons h

finish_id-IsId :
    (s : String)
    → IsPart s
    → (all_codes is_id_code (finish_id s) ≡ true) × (begins_with_lower (finish_id s) ≡ true)
finish_id-IsId nil h = (unfold all_codes in refl, refl)
finish_id-IsId (cons c s) h = elim (Bool-cases (cons c s == "")) [
  | inl e ↦ let k = (eq_iff (cons c s) "").0 e in absurd cc
  | inr e ↦ elim (Bool-cases (begins_with_digit (cons c s))) [
    | inl d ↦
        rw (e, d)
          (
            rw (all_codes-append is_id_code "component_" (cons c s), h.codes)
                (unfold all_codes in refl),
            begins_with_lower-append "component_" (cons c s) refl,
          )
    | inr d ↦ rw (e, d) (h.codes, let k = h.codes in unfold all_codes in ground (arith, h.first))
  ]
]

-- A sanitized id begins with a lowercase letter and has lowercase letters, digits and underscores
-- only, whatever the text.
pub sanitize_id-IsId :
    (value : String)
    → (all_codes is_id_code (sanitize_id value) ≡ true)
      × (begins_with_lower (sanitize_id value) ≡ true)
unfolding sanitize_id
sanitize_id-IsId value =
    finish_id-IsId (trim_end_by is_underscore (sanitize_chars ("", false) value)) (
      trim_end_by-IsPart is_underscore (sanitize_chars ("", false) value) (
        sanitize_chars-IsPart value "" false
          (record { codes = unfold all_codes in refl; first = refl })))
