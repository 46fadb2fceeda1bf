-- ===== src/Owners/Parse/Words.antt =====
-- Addresses and patterns of OWNERS files, said without `valid_owner` and
-- `validate_path_expression`.
use Prim.Native.Char.{Char, code}
use Prim.Native.String.{[] as nil, ◌∷◌ as cons, ◌++◌ as ◌<>◌}
use Prim.Native.String.append
use text.Mathlib.TextEquality.{Char-path}
use chromifer.Base.{
  ℕ, String, ◌≡◌, ◌≢◌, ◌⊎◌, ◌≤◌, ◌<◌, refl, sym, ap, subst, ◌∙◌, inl, inr, Bool, true, false, not,
  ◌||◌, Option, none, some, eqb, leb, ◌==◌, string_eq, In, any, any-eq-false, All-In, arith,
  Bool-cases, eq_iff, eqb_iff,
}
use chromifer.Base.Text.{
  split, split_once, push_left, starts_with, any_char, has_code, is_control, is_ascii_alphanumeric,
}
use chromifer.Owners.Parse.{is_owner_char, valid_parts, valid_owner, bad_expression}

-- An ASCII letter or digit, or one of `_-+%.`
abbrev pub IsAddressCode : ℕ → Type 0
IsAddressCode n =
    ((b'0' ≤ n) × (n ≤ b'9'))
    ⊎ (((b'A' ≤ n) × (n ≤ b'Z'))
        ⊎ (((b'a' ≤ n) × (n ≤ b'z'))
            ⊎ ((n ≡ b'_') ⊎ ((n ≡ b'-') ⊎ ((n ≡ b'+') ⊎ ((n ≡ b'%') ⊎ (n ≡ b'.')))))))

-- Two texts of such characters, neither of them empty, with `@` between
pub record IsAddress (o : String) : Type 0 where
  pub left : String
  pub right : String
  pub text : o ≡ left <> ("@" <> right)
  pub left_nonempty : left ≢ ""
  pub right_nonempty : right ≢ ""
  pub left_codes : (n : ℕ) → has_code n left ≡ true → IsAddressCode n
  pub right_codes : (n : ℕ) → has_code n right ≡ true → IsAddressCode n

-- A relative pattern that does not go up, without backslash, `=` and control characters
pub record IsPattern (e : String) : Type 0 where
  pub nonempty : e ≢ ""
  pub relative : (rest : String) → e ≢ "/" <> rest
  pub inside : ¬ In ".." (split b'/' e)
  pub codes :
      (n : ℕ) → has_code n e ≡ true → (n ≢ 92) × ((n ≢ b'=') × ((32 ≤ n) × ((n < 127) ⊎ (160 ≤ n))))

-- Where no character passes a test, no code of the text does.
any_char-has_code :
    (p : Char → Bool) (P : ℕ → Type 0)
    → ((c : Char) → p c ≡ false → P (code c))
    → (s : String) (n : ℕ) → any_char p s ≡ false
    → has_code n s ≡ true
    → P n
unfolding any_char has_code
any_char-has_code p P step nil n h k = absurd cc
any_char-has_code p P step (cons c s) n h k = elim (Bool-cases (eqb (code c) n)) [
  | inl e ↦ subst P ((eqb_iff (code c) n).0 e) (step c (ground arith))
  | inr e ↦ any_char-has_code p P step s n (ground arith) (ground arith)
]

pub has_code-append : (n : ℕ) (s t : String) → has_code n (s <> t) ≡ (has_code n s || has_code n t)
unfolding has_code
has_code-append n nil t = rw append.nil refl
has_code-append n (cons c s) t = rw append.cons (ground (arith, has_code-append n s t))

-- What stands on the two sides of the first `@`
abbrev IsSplit : String → String × String → Type 0
IsSplit s (left, right) = (s ≡ left <> ("@" <> right)) × (has_code b'@' left ≡ false)

split_once-some :
    (s : String) (sides : String × String) → split_once b'@' s ≡ some sides → IsSplit s sides
unfolding split_once
split_once-some nil sides h = absurd cc
split_once-some (cons c s) sides h = elim (Bool-cases (eqb (code c) b'@')) [
  | inl e ↦ subst (IsSplit (cons c s)) (first sides (rw e at h)) (
    rw (append.nil, append.cons, append.nil)
        (ap (λ d. cons d s) (Char-path c "@" ((eqb_iff (code c) b'@').0 e))),
    unfold has_code in refl,
  )
  | inr e ↦ later e (split_once b'@' s) (split_once-some s) (rw e at h)
]
  where
    first : (sides : String × String) → some (nil, s) ≡ some sides → (nil, s) ≡ sides
    first sides h = cc h

    later :
        eqb (code c) b'@' ≡ false
        → (o : Option (String × String))
        → ((sides : String × String) → o ≡ some sides → IsSplit s sides)
        → push_left c o ≡ some sides
        → IsSplit (cons c s) sides
    later e none k h = absurd cc
    later e (some (left, right)) k h =
        let (text, free) = k (left, right) refl in
        let same : (cons c left, right) ≡ sides = cc h in
        let split : IsSplit (cons c s) (cons c left, right) =
          (rw (append.cons, sym text) refl, unfold has_code in rw (e, free) refl) in
        subst (IsSplit (cons c s)) same split

is_owner_char-code :
    (c : Char) → not (is_owner_char c) ≡ false → (code c ≡ b'@') ⊎ IsAddressCode (code c)
unfolding is_ascii_alphanumeric
is_owner_char-code c h = ground arith

valid_parts-IsAddress :
    (o : String) (parts : Option (String × String))
    → split_once b'@' o ≡ parts
    → valid_parts o parts ≡ true
    → IsAddress o
valid_parts-IsAddress o none e h = absurd cc
valid_parts-IsAddress o (some (left, right)) e h =
    let (text, free) = split_once-some o (left, right) e in
    let passed : any_char (λ c. not (is_owner_char c)) o ≡ false = ground arith in
    let once : has_code b'@' right ≡ false = ground arith in
    let code_of =
      any_char-has_code (λ c. not (is_owner_char c)) (λ n. (n ≡ b'@') ⊎ IsAddressCode n)
        is_owner_char-code o in
    record {
      left = left;
      right = right;
      text = text;
      left_nonempty = λ k. let yes = (eq_iff left "").1 k in absurd (ground arith);
      right_nonempty = λ k. let yes = (eq_iff right "").1 k in absurd (ground arith);
      left_codes = λ n k.
          elim (code_of n passed (rw (text, has_code-append n left ("@" <> right), k) refl)) [
            | inl e ↦ let no = subst (λ n. has_code n left ≡ true) e k in absurd cc
            | inr v ↦ v
          ];
      right_codes = λ n k. elim (code_of n passed (later n k)) [
        | inl e ↦ let no = subst (λ n. has_code n right ≡ true) e k in absurd cc
        | inr v ↦ v
      ];
    }
  where
    later : (n : ℕ) → has_code n right ≡ true → has_code n o ≡ true
    later n k = rw (split_once-some o (left, right) e).0 (
        has_code-append n left ("@" <> right)
        ∙ rw (has_code-append n "@" right) (unfold has_code in ground (arith, k)))

pub valid_owner-IsAddress : (o : String) → valid_owner o ≡ true → IsAddress o
unfolding valid_owner
valid_owner-IsAddress o h = valid_parts-IsAddress o (split_once b'@' o) refl h

pattern_code :
    (c : Char)
    → (is_control c || eqb (code c) b'=') ≡ false
    → (code c ≢ b'=') × ((32 ≤ code c) × ((code c < 127) ⊎ (160 ≤ code c)))
unfolding is_control
pattern_code c h = (
  λ q. ground arith,
  (
    ground arith,
    elim (Bool-cases (leb 127 (code c))) [
      | inl e ↦ inr (ground arith)
      | inr e ↦ inl (ground arith)
    ],
  ),
)

pub bad_expression-IsPattern : (e : String) → bad_expression e ≡ false → IsPattern e
unfolding bad_expression
bad_expression-IsPattern e h =
    let up : any (λ component. component == "..") (split b'/' e) ≡ false = ground arith in
    let controls : any_char (λ c. is_control c || eqb (code c) b'=') e ≡ false = ground arith in
    record {
      nonempty = λ k. let yes = (eq_iff e "").1 k in absurd (ground arith);
      relative = λ rest k.
          let rooted : starts_with "/" e ≡ true =
            rw (k, append.cons) (unfold starts_with in refl) in
          absurd (ground arith);
      inside = λ m.
          let no =
            All-In (λ (w : String). (w == "..") ≡ false) (split b'/' e) ".."
              ((any-eq-false (λ (w : String). w == "..") (split b'/' e)).0 up) m in
          absurd cc;
      codes = λ n k. (
        λ b. let yes = subst (λ n. has_code n e ≡ true) b k in absurd (ground arith),
        any_char-has_code (λ c. is_control c || eqb (code c) b'=')
            (λ n. (n ≢ b'=') × ((32 ≤ n) × ((n < 127) ⊎ (160 ≤ n)))) pattern_code e n controls k,
      );
    }
