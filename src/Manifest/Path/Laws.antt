-- ===== src/Manifest/Path/Laws.antt =====
-- What a normalized path looks like, and when a path is its own normal form.
use Prim.Native.String.{[] as nil, ◌∷◌ as cons, ◌++◌ as ◌<>◌}
use Prim.Native.String.append
use chromifer.Base.{
  ℕ, String, ◌≡◌, ◌↔◌, refl, false, ◌||◌, List, [], ◌∷◌, ◌++◌, Option, none, some, arith, All, ap,
  sym, ◌∙◌, Bool-cases, inl, inr, ◌==◌, string_eq, if◌then◌else◌, map, append-nil, append_assoc,
  All-append,
}
use chromifer.Base.Text.{replace, split, join, has_code}
use chromifer.Manifest.Path.{
  normal, strip_root, is_rooted, has_drive, later_components, first_components, components, collect,
  join_segments, normalize_relative, normalize_stripped, normalize_repo_relative_path,
}
use chromifer.Manifest.Path.Pieces.{
  Lacks, replace-of_Lacks, replace-Lacks, split-Lacks_separator, split-Lacks, split-join,
  join-Lacks, join-cons,
}

-- A segment that names a file or a directory
pub record IsSegment (s : String) : Type 0 where
  pub nonempty : (s == "") ≡ false
  pub not_dot : (s == ".") ≡ false
  pub not_dot_dot : (s == "..") ≡ false
  pub no_slash : Lacks b'/' s
  pub no_backslash : Lacks b'\\' s

-- One or more such segments, joined by `/`
pub record IsRelative (r : String) : Type 0 where
  pub first : String
  pub rest : List String
  pub segments : All IsSegment (first ∷ rest)
  pub text : r ≡ join "/" (first ∷ rest)

record IsPiece (s : String) : Type 0 where
  no_slash : Lacks b'/' s
  no_backslash : Lacks b'\\' s

pieces : (ws : List String) → All (Lacks b'/') ws → All (Lacks b'\\') ws → All IsPiece ws
pieces [] h k = tt
pieces (w ∷ ws) h k = (record { no_slash = h.0; no_backslash = k.0 }, pieces ws h.1 k.1)

abbrev AllOf : Option (List String) → Type 0
AllOf none = Unit
AllOf (some ws) = All IsSegment ws

collect-later_components :
    (acc ws : List String)
    → All IsSegment acc
    → All IsPiece ws
    → AllOf (collect acc (later_components ws))
unfolding later_components collect
collect-later_components acc [] h k = h
collect-later_components acc (w ∷ ws) h k = elim (Bool-cases (w == "" || w == ".")) [
  | inl e ↦ rw (e, later_components) (collect-later_components acc ws h k.1)
  | inr e ↦ elim (Bool-cases (w == "..")) [
    | inl d ↦ rw (e, d, later_components) tt
    | inr d ↦
        rw (e, d, later_components)
          (collect-later_components (acc ++ w ∷ []) ws
            (All-append IsSegment acc (w ∷ []) h (
              record {
                nonempty = ground arith;
                not_dot = ground arith;
                not_dot_dot = d;
                no_slash = k.0.no_slash;
                no_backslash = k.0.no_backslash;
              },
              tt,
            ))
            k.1)
  ]
]

collect-first_components :
    (ws : List String) → All IsPiece ws → AllOf (collect [] (first_components ws))
unfolding first_components
collect-first_components [] k = unfold collect in tt
collect-first_components (w ∷ ws) k = elim (Bool-cases (w == ".")) [
  | inl e ↦ rw (e, first_components) (unfold collect in collect-later_components [] ws tt k.1)
  | inr e ↦ rw (e, first_components) (collect-later_components [] (w ∷ ws) tt k)
]

collect-components : (s : String) → Lacks b'\\' s → AllOf (collect [] (components s))
unfolding components
collect-components s h = elim (Bool-cases (is_rooted s)) [
  | inl e ↦ rw (e, components) (unfold collect in tt)
  | inr e ↦
      rw (e, components)
        (collect-first_components (split b'/' s)
          (pieces (split b'/' s) (split-Lacks_separator b'/' s) (split-Lacks b'/' b'\\' s h)))
]

join_segments-IsRelative :
    (o : Option (List String)) (r : String) → AllOf o → join_segments o ≡ some r → IsRelative r
unfolding join_segments
join_segments-IsRelative none r h e = cc
join_segments-IsRelative (some []) r h e = cc
join_segments-IsRelative (some (s ∷ rest)) r h e = record {
  first = s;
  rest = rest;
  segments = h;
  text = cc;
}

normalize_relative-IsRelative :
    (s r : String) → Lacks b'\\' s → normalize_relative s ≡ some r → IsRelative r
unfolding normalize_relative
normalize_relative-IsRelative s r h e =
    join_segments-IsRelative (collect [] (components s)) r (collect-components s h) e

strip_root-Lacks : (n : ℕ) (s t : String) → strip_root s ≡ some t → Lacks n s → Lacks n t
unfolding strip_root has_code
strip_root-Lacks n nil t e h = cc
strip_root-Lacks n (cons a nil) t e h = cc
strip_root-Lacks n (cons a (cons b rest)) t e h = ground arith

normalized-Lacks : (v : String) → Lacks b'\\' (replace b'\\' "/" v)
normalized-Lacks v = replace-Lacks b'\\' "/" v (ground arith)

normalize_stripped-IsRelative :
    (n r : String) (o : Option String)
    → Lacks b'\\' n
    → strip_root n ≡ o
    → normalize_stripped n o ≡ some r
    → IsRelative r
unfolding normalize_stripped
normalize_stripped-IsRelative n r (some t) h e k =
    normalize_relative-IsRelative t r (strip_root-Lacks b'\\' n t e h) k
normalize_stripped-IsRelative n r none h e k = normalize_relative-IsRelative n r h (ground arith)

-- `normalize_repo_relative_path` with its parts shut
normalize_lem :
    (v : String)
    → let n = replace b'\\' "/" v in
      normalize_repo_relative_path v ≡ normalize_stripped n (strip_root n)
unfolding normalize_repo_relative_path
normalize_lem v = refl

-- A result of `normalize_repo_relative_path` is one or more segments joined by `/`, none of them
-- empty, `.`, `..`, or with a slash or a backslash in it.
pub normalize-IsRelative : (v r : String) → normalize_repo_relative_path v ≡ some r → IsRelative r
normalize-IsRelative v r e =
    let n = replace b'\\' "/" v in
    normalize_stripped-IsRelative n r (strip_root n) (normalized-Lacks v) refl
      (sym (normalize_lem v) ∙ e)

-- The way back: the segments of a relative path are its components.
later_components-map : (ws : List String) → All IsSegment ws → later_components ws ≡ map normal ws
unfolding later_components
later_components-map [] h = refl
later_components-map (w ∷ ws) h =
    rw (h.0.nonempty, h.0.not_dot, h.0.not_dot_dot, later_components)
      (ap (λ cs. normal w ∷ cs) (later_components-map ws h.1))

collect-map : (acc ws : List String) → collect acc (map normal ws) ≡ some (acc ++ ws)
unfolding collect
collect-map acc [] = rw append-nil
collect-map acc (w ∷ ws) = collect-map (acc ++ w ∷ []) ws ∙ rw append_assoc

is_rooted-append : (s t : String) → (s == "") ≡ false → Lacks b'/' s → is_rooted (s <> t) ≡ false
unfolding is_rooted has_code
is_rooted-append nil t e h = cc
is_rooted-append (cons c s) t e h = rw append.cons (ground arith)

is_rooted-of_Lacks : (s : String) → (s == "") ≡ false → Lacks b'/' s → is_rooted s ≡ false
unfolding is_rooted has_code
is_rooted-of_Lacks nil e h = refl
is_rooted-of_Lacks (cons c s) e h = ground arith

is_rooted-join :
    (s : String) (rest : List String) → IsSegment s → is_rooted (join "/" (s ∷ rest)) ≡ false
is_rooted-join s [] h = unfold join in is_rooted-of_Lacks s h.nonempty h.no_slash
is_rooted-join s (t ∷ rest) h = rw join-cons (is_rooted-append s _ h.nonempty h.no_slash)

strip_root-of_not_rooted : (s : String) → is_rooted s ≡ false → strip_root s ≡ none
unfolding strip_root is_rooted
strip_root-of_not_rooted nil h = refl
strip_root-of_not_rooted (cons a nil) h = refl
strip_root-of_not_rooted (cons a (cons b rest)) h = ground arith

All-lack : (ws : List String) → All IsSegment ws → All (Lacks b'/') ws × All (Lacks b'\\') ws
All-lack [] h = (tt, tt)
All-lack (w ∷ ws) h = let (k, l) = All-lack ws h.1 in ((h.0.no_slash, k), (h.0.no_backslash, l))

components-of_not_rooted :
    (value : String)
    → is_rooted value ≡ false
    → components value ≡ first_components (split b'/' value)
unfolding components
components-of_not_rooted value h = rw h refl

first_components-of_not_dot :
    (s : String) (rest : List String)
    → (s == ".") ≡ false
    → first_components (s ∷ rest) ≡ later_components (s ∷ rest)
unfolding first_components
first_components-of_not_dot s rest h = rw h refl

pub components-join :
    (s : String) (rest : List String)
    → All IsSegment (s ∷ rest)
    → components (join "/" (s ∷ rest)) ≡ map normal (s ∷ rest)
components-join s rest h =
    components-of_not_rooted (join "/" (s ∷ rest)) (is_rooted-join s rest h.0)
    ∙ ap first_components (split-join s rest (All-lack (s ∷ rest) h).0)
    ∙ first_components-of_not_dot s rest h.0.not_dot
    ∙ later_components-map (s ∷ rest) h

normalize_relative-join :
    (s : String) (rest : List String)
    → All IsSegment (s ∷ rest)
    → normalize_relative (join "/" (s ∷ rest)) ≡ some (join "/" (s ∷ rest))
unfolding normalize_relative join_segments
normalize_relative-join s rest h =
    ap (λ cs. join_segments (collect [] cs)) (components-join s rest h)
    ∙ ap join_segments (collect-map [] (s ∷ rest))

normalize-join :
    (s : String) (rest : List String)
    → All IsSegment (s ∷ rest)
    → let q = join "/" (s ∷ rest) in
      normalize_repo_relative_path q ≡ (if has_drive q then none else some q)
unfolding normalize_stripped
normalize-join s rest h =
    let q = join "/" (s ∷ rest) in
    let unrooted = is_rooted-join s rest h.0 in
    let same =
      replace-of_Lacks b'\\' "/" q
        (join-Lacks b'\\' (s ∷ rest) (omega arith) (All-lack (s ∷ rest) h).1) in
    normalize_lem q
    ∙ ap (λ n. normalize_stripped n (strip_root n)) same
    ∙ ap (normalize_stripped q) (strip_root-of_not_rooted q unrooted)
    ∙ rw (unrooted, normalize_relative-join s rest h)

-- A relative path is its own normal form, but one that begins like a drive (`C:/x`) is refused.
pub normalize-of_IsRelative :
    (r : String)
    → IsRelative r
    → normalize_repo_relative_path r ≡ (if has_drive r then none else some r)
normalize-of_IsRelative r h = rw h.text (normalize-join h.first h.rest h.segments)

-- A string is its own normal form exactly when it is a relative path that does not begin like a
-- drive.
pub normalize-self_iff :
    (r : String)
    → (normalize_repo_relative_path r ≡ some r) ↔ (IsRelative r × (has_drive r ≡ false))
normalize-self_iff r = (
  λ e. let h = normalize-IsRelative r r e in (h, ground (arith, normalize-of_IsRelative r h)),
  λ h. normalize-of_IsRelative r h.0 ∙ rw h.1,
)
