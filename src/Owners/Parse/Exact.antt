-- ===== src/Owners/Parse/Exact.antt =====
-- `valid_owner` and `validate_path_expression` accept exactly the addresses and the patterns.
use Prim.Native.Char.{Char, code}
use Prim.Native.String.{[] as nil, ◌∷◌ as cons, ◌++◌ as ◌<>◌}
use Prim.Native.String.append
use text.Mathlib.TextEquality.{Char-path}
use chromifer.Base.{
  ℕ, String, ◌≡◌, ◌≢◌, ◌⊎◌, ◌↔◌, ◌≤◌, ◌<◌, refl, sym, ap, subst, ◌∙◌, inl, inr, Bool, true, false,
  not, ◌||◌, some, eqb, ◌==◌, string_eq, In, any-eq-false, All-of_In, arith, Bool-cases, eq_iff,
  eqb_iff,
}
use chromifer.Base.Text.{
  split, split_once, starts_with, any_char, has_code, is_control, is_ascii_alphanumeric,
}
use chromifer.Owners.Parse.{is_owner_char, valid_owner, bad_expression}
use chromifer.Owners.Parse.Words.{
  IsAddressCode, IsAddress, IsPattern, valid_owner-IsAddress, bad_expression-IsPattern,
}

-- A text without a code
lacks :
    (P : ℕ → Type 0) (n : ℕ) (s : String)
    → ((n : ℕ) → has_code n s ≡ true → P n)
    → (¬ P n)
    → has_code n s ≡ false
lacks P n s codes not_allowed = elim (Bool-cases (has_code n s)) [
  | inl e ↦ absurd (not_allowed (codes n e))
  | inr e ↦ e
]

any_char-of_codes :
    (p : Char → Bool) (P : ℕ → Type 0)
    → ((c : Char) → P (code c) → p c ≡ false)
    → (s : String) → ((n : ℕ) → has_code n s ≡ true → P n)
    → any_char p s ≡ false
unfolding any_char has_code
any_char-of_codes p P step nil h = refl
any_char-of_codes p P step (cons c s) h =
    let first : p c ≡ false = step c (h (code c) (rw ((eqb_iff (code c) (code c)).1 refl) refl)) in
    let rest = any_char-of_codes p P step s (λ n k. h n (ground (arith, k))) in
    rw (first, rest) refl

any_char-append :
    (p : Char → Bool) (s t : String) → any_char p (s <> t) ≡ (any_char p s || any_char p t)
unfolding any_char
any_char-append p nil t = rw append.nil refl
any_char-append p (cons c s) t = rw append.cons (ground (arith, any_char-append p s t))

split_once-append :
    (left right : String)
    → has_code b'@' left ≡ false
    → split_once b'@' (left <> ("@" <> right)) ≡ some (left, right)
unfolding split_once has_code
split_once-append nil right h = rw (append.nil, append.cons, append.nil) refl
split_once-append (cons c left) right h =
    let there : eqb (code c) b'@' ≡ false = ground arith in
    rw (append.cons, there, split_once-append left right (ground arith)) refl

is_owner_char-of_code : (c : Char) → IsAddressCode (code c) → not (is_owner_char c) ≡ false
unfolding is_ascii_alphanumeric
is_owner_char-of_code c h = ground arith

at_is_no-code : ¬ IsAddressCode b'@'
at_is_no-code h = ground arith

nonempty-false : (s : String) → s ≢ "" → (s == "") ≡ false
nonempty-false s h = elim (Bool-cases (s == "")) [
  | inl e ↦ absurd (h ((eq_iff s "").0 e))
  | inr e ↦ e
]

owner_text :
    (left right : String)
    → ((n : ℕ) → has_code n left ≡ true → IsAddressCode n)
    → ((n : ℕ) → has_code n right ≡ true → IsAddressCode n)
    → any_char (λ c. not (is_owner_char c)) (left <> ("@" <> right)) ≡ false
owner_text left right h k =
    let bad = λ (c : Char). not (is_owner_char c) in
    any_char-append bad left ("@" <> right)
    ∙ rw
        (
          any_char-of_codes bad IsAddressCode is_owner_char-of_code left h,
          any_char-append bad "@" right,
          any_char-of_codes bad IsAddressCode is_owner_char-of_code right k,
        )
        (unfold any_char is_ascii_alphanumeric in refl)

valid_owner-of_IsAddress : (o : String) → IsAddress o → valid_owner o ≡ true
valid_owner-of_IsAddress o h =
    subst (λ o. valid_owner o ≡ true) (sym h.text)
      (unfold valid_owner in
        rw
          (
            split_once-append h.left h.right
                (lacks IsAddressCode b'@' h.left h.left_codes at_is_no-code),
            nonempty-false h.left h.left_nonempty,
            nonempty-false h.right h.right_nonempty,
            lacks IsAddressCode b'@' h.right h.right_codes at_is_no-code,
            owner_text h.left h.right h.left_codes h.right_codes,
          )
          refl)

not_rooted : (e : String) → ((rest : String) → e ≢ "/" <> rest) → starts_with "/" e ≡ false
unfolding starts_with
not_rooted nil h = refl
not_rooted (cons c s) h = elim (Bool-cases (eqb 47 (code c))) [
  | inl e ↦
      let same = Char-path c "/" (sym ((eqb_iff 47 (code c)).0 e)) in
      absurd (h s (rw (append.cons, append.nil) (ap (λ d. cons d s) same)))
  | inr e ↦ rw e refl
]

abbrev IsPatternCode : ℕ → Type 0
IsPatternCode n = (n ≢ 92) × ((n ≢ b'=') × ((32 ≤ n) × ((n < 127) ⊎ (160 ≤ n))))

pattern_char : (c : Char) → IsPatternCode (code c) → (is_control c || eqb (code c) b'=') ≡ false
unfolding is_control
pattern_char c (_, (equals, (low, high))) =
    let other : eqb (code c) b'=' ≡ false = ground (arith, equals, eqb_iff (code c) b'=') in
    elim high [ inl h ↦ ground arith | inr h ↦ ground arith ]

bad_expression-of_IsPattern : (e : String) → IsPattern e → bad_expression e ≡ false
unfolding bad_expression
bad_expression-of_IsPattern e h =
    rw
      (
        nonempty-false e h.nonempty,
        not_rooted e h.relative,
        lacks IsPatternCode 92 e h.codes (λ k. k.0 refl),
        (any-eq-false (λ (w : String). w == "..") (split b'/' e)).1
            (All-of_In _ _ (λ w m. nowhere w m)),
        any_char-of_codes (λ c. is_control c || eqb (code c) b'=') IsPatternCode pattern_char e
            h.codes,
      )
      refl
  where
    nowhere : (w : String) → In w (split b'/' e) → (w == "..") ≡ false
    nowhere w m = elim (Bool-cases (w == "..")) [
      | inl k ↦ absurd (h.inside (subst (λ w. In w (split b'/' e)) ((eq_iff w "..").0 k) m))
      | inr k ↦ k
    ]

-- `valid_owner` accepts exactly the addresses, and `validate_path_expression` the patterns.
pub valid_owner_iff : (o : String) → (valid_owner o ≡ true) ↔ IsAddress o
valid_owner_iff o = (valid_owner-IsAddress o, valid_owner-of_IsAddress o)

pub bad_expression_iff : (e : String) → (bad_expression e ≡ false) ↔ IsPattern e
bad_expression_iff e = (bad_expression-IsPattern e, bad_expression-of_IsPattern e)
