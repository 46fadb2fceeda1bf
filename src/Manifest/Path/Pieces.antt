-- ===== src/Manifest/Path/Pieces.antt =====
-- How `split`, `replace` and `join` work together on the segments of a path.
use Prim.Native.Char.{Char, code}
use Prim.Native.String.{[] as nil, ◌∷◌ as cons, ◌++◌ as ◌<>◌}
use Prim.Native.String.append
use chromifer.Base.{
  ℕ, String, ◌≡◌, ◌≢◌, refl, false, ◌||◌, List, [], ◌∷◌, arith, All, eqb, ap, ◌∙◌, Bool-cases, inl,
  inr,
}
use chromifer.Base.Text.{replace, split, join, has_code, prepend}

-- `Lacks n s`: no character of `s` has the number `n`.
abbrev pub Lacks : ℕ → String → Type 0
Lacks n s = has_code n s ≡ false

pub replace-of_Lacks : (n : ℕ) (to : Char) (s : String) → Lacks n s → replace n to s ≡ s
unfolding replace has_code
replace-of_Lacks n to nil h = refl
replace-of_Lacks n to (cons c s) h = ground (arith, replace-of_Lacks n to s)

pub replace-Lacks : (n : ℕ) (to : Char) (s : String) → code to ≢ n → Lacks n (replace n to s)
unfolding replace has_code
replace-Lacks n to nil h = refl
replace-Lacks n to (cons c s) h = ground (arith, replace-Lacks n to s h)

prepend-All :
    (P : String → Type 0) (c : Char) (ws : List String)
    → ((w : String) → P w → P (cons c w))
    → P (cons c nil)
    → All P ws
    → All P (prepend c ws)
prepend-All P c [] h e a = (e, tt)
prepend-All P c (w ∷ ws) h e a = (h w a.0, a.1)

pub split-Lacks_separator : (n : ℕ) (s : String) → All (Lacks n) (split n s)
unfolding split has_code
split-Lacks_separator n nil = (refl, tt)
split-Lacks_separator n (cons c s) = elim (Bool-cases (eqb (code c) n)) [
  | inl e ↦ rw (e, split) (refl, split-Lacks_separator n s)
  | inr e ↦
      rw (e, split)
        (prepend-All (Lacks n) c (split n s) (λ w h. ground arith) (ground arith)
          (split-Lacks_separator n s))
]

pub split-Lacks : (n k : ℕ) (s : String) → Lacks k s → All (Lacks k) (split n s)
unfolding split has_code
split-Lacks n k nil h = (refl, tt)
split-Lacks n k (cons c s) h = elim (Bool-cases (eqb (code c) n)) [
  | inl e ↦ rw (e, split) (refl, split-Lacks n k s (ground arith))
  | inr e ↦
      rw (e, split)
        (prepend-All (Lacks k) c (split n s) (λ w h'. ground arith) (ground arith)
          (split-Lacks n k s (ground arith)))
]

pub split-of_Lacks : (n : ℕ) (s : String) → Lacks n s → split n s ≡ s ∷ []
unfolding split has_code
split-of_Lacks n nil h = refl
split-of_Lacks n (cons c s) h = ground (arith, split-of_Lacks n s)

pub split-append :
    (n : ℕ) (s : String) (d : Char) (t : String)
    → code d ≡ n
    → Lacks n s
    → split n (s <> cons d t) ≡ s ∷ split n t
unfolding split has_code
split-append n nil d t e h = rw (append.nil (cons d t), split) (ground arith)
split-append n (cons c s) d t e h =
    rw (append.cons c s (cons d t), split) (ground (arith, split-append n s d t e))

pub join-cons :
    (s t : String) (rest : List String)
    → join "/" (s ∷ t ∷ rest) ≡ s <> cons "/" (join "/" (t ∷ rest))
unfolding join
join-cons s t rest =
    ap (λ u. s <> u)
      (append.cons "/" nil (join "/" (t ∷ rest))
        ∙ ap (λ u. cons "/" u) (append.nil (join "/" (t ∷ rest))))

pub split-join :
    (s : String) (rest : List String)
    → All (Lacks b'/') (s ∷ rest)
    → split b'/' (join "/" (s ∷ rest)) ≡ s ∷ rest
split-join s [] h = unfold join in split-of_Lacks b'/' s h.0
split-join s (t ∷ rest) h =
    rw join-cons
      (rw (split-append b'/' s "/" (join "/" (t ∷ rest)) refl h.0) (rw (split-join t rest h.1)))

has_code-append : (n : ℕ) (s t : String) → has_code n (s <> t) ≡ (has_code n s || has_code n t)
unfolding has_code
has_code-append n nil t = rw append.nil
has_code-append n (cons c s) t =
    rw (append.cons c s t, has_code) (ground (arith, has_code-append n s t))

pub join-Lacks : (n : ℕ) (ws : List String) → n ≢ b'/' → All (Lacks n) ws → Lacks n (join "/" ws)
unfolding has_code
join-Lacks n [] e h = unfold join in refl
join-Lacks n (s ∷ []) e h = unfold join in h.0
join-Lacks n (s ∷ t ∷ rest) e h = rw join-cons (
    ground
      (arith, has_code-append n s (cons "/" (join "/" (t ∷ rest))), join-Lacks n (t ∷ rest) e h.1))
