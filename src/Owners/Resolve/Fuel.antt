-- ===== src/Owners/Resolve/Fuel.antt =====
-- The fuel of `resolve_directives` pays for files that are not on the stack.
use chromifer.Base.{
  subst, beq_refl, ℕ, zero, suc, ◌≤◌, ◌<◌, String, ◌≡◌, ◌≢◌, refl, Bool, true, false, not, ◌||◌,
  List, [], ◌∷◌, ◌++◌, Option, none, some, ◌==◌, string_eq, list_eq, if◌then◌else◌, In, filter,
  contains, length, length-filter_lt, arith, Bool-cases, inl, inr, string_ord, list_ord,
}
use chromifer.Base.Results.{Result, ok, err, ◌>>=◌}
use chromifer.Base.Sets.{get}
use chromifer.Base.Text.{lines}
use chromifer.Owners.Data.{
  RepoPath, path_string, Directive, owner, include_file, no_parent, ParsedOwners, OwnershipError,
  no_fuel, syntax,
}
use chromifer.Owners.Parse.{parse_owners}
use chromifer.Owners.Parse.Directives.{Parses, IsParsed}
use chromifer.Owners.Parse.Laws.{parse_owners-Parses}
use chromifer.Owners.Include.{Files, resolve_include, is_external_include, found_file}
use chromifer.Owners.Resolve.{
  Resolver, LayerOwnership, Nested, parse_file, parse_cached, parse_read, enter_include,
  resolve_directive, resolve_all, resolve_directives, evaluate_owner_file, no_layer,
  matched_directives, selected_directives, cycle_error,
}

-- The result is not that fuel ran out.
abbrev pub IsDone : {A : Type 0} → Result OwnershipError A → Type 0
IsDone (err no_fuel) = ⊥
IsDone _ = Unit

pub IsDone-bind :
    {A B : Type 0} (r : Result OwnershipError A) (k : A → Result OwnershipError B)
    → IsDone r
    → ((a : A) → IsDone (k a))
    → IsDone (r >>= k)
IsDone-bind (ok a) k h step = step a
IsDone-bind (err no_fuel) k h step = elim h [ ]
IsDone-bind (err _) k h step = tt

pub IsDone-if :
    {A : Type 0} (b : Bool) (r s : Result OwnershipError A)
    → IsDone r
    → IsDone s
    → IsDone (if b then r else s)
IsDone-if true r s h k = h
IsDone-if false r s h k = k

pub IsDone-neq : {A : Type 0} (r : Result OwnershipError A) → IsDone r → r ≢ err no_fuel
IsDone-neq r h e = subst IsDone e h

Parses-IsDone :
    {A : Type 0} (path : String) (low high : ℕ) (P : A → Type 0) (r : Result OwnershipError A)
    → Parses path low high P r
    → IsDone r
Parses-IsDone path low high P (ok a) h = tt
Parses-IsDone path low high P (err (syntax p n m)) h = tt
Parses-IsDone path low high P (err _) h = elim h [ ]

-- The files on the way down that are not on the stack
abbrev pub off_stack : List RepoPath → RepoPath → Bool
off_stack stack path = not (contains stack path)

pub files_left : (known stack : List RepoPath) → ℕ
files_left known stack = length (filter (off_stack stack) known)

pub files_left-le-length : (known stack : List RepoPath) → files_left known stack ≤ length known
unfolding files_left
files_left-le-length [] stack = omega arith
files_left-le-length (p ∷ known) stack = ground (arith, files_left-le-length known stack)

contains-push :
    (stack : List RepoPath) (p q : RepoPath)
    → contains (stack ++ p ∷ []) q ≡ (contains stack q || (q == p))
contains-push [] p q = ground arith
contains-push (x ∷ stack) p q = ground (arith, contains-push stack p q)

files_left-push :
    (known stack : List RepoPath) (p : RepoPath)
    → In p known
    → contains stack p ≡ false
    → files_left known (stack ++ p ∷ []) < files_left known stack
unfolding files_left
files_left-push known stack p m new =
    length-filter_lt (off_stack stack) (off_stack (stack ++ p ∷ [])) known p
      (λ x h. ground (arith, contains-push stack p x)) m (rw new)
      (ground (arith, contains-push stack p p, beq_refl p))

module _ (fs : Files) where
  parse_file-IsDone : (st : Resolver) (path : RepoPath) → IsDone (parse_file fs st path)
  unfolding parse_file
  parse_file-IsDone st path = cached (get st.parsed path)
    where
      read : (o : Option String) → IsDone (parse_read fs st path o)
      read none = tt
      read (some content) =
          IsDone-bind (parse_owners path content) _
            (Parses-IsDone (path_string path) 1 (length (lines content)) IsParsed _
              (parse_owners-Parses path content))
            (λ p. tt)

      cached : (o : Option ParsedOwners) → IsDone (parse_cached fs st path o)
      cached (some p) = tt
      cached none = read (fs.read path)

  -- What an include resolves to is a file.
  found_file-is_file :
      (owner_file : RepoPath) (include : String) (o : Option RepoPath) (path : RepoPath)
      → found_file fs owner_file include o ≡ ok path
      → fs.is_file path ≡ true
  found_file-is_file owner_file include none path h = cc
  found_file-is_file owner_file include (some p) path h = ground arith

  pub resolve_include-is_file :
      (owner_file : RepoPath) (include : String) (path : RepoPath)
      → resolve_include fs owner_file include ≡ ok path
      → fs.is_file path ≡ true
  unfolding resolve_include
  resolve_include-is_file owner_file include path h = found_file-is_file owner_file include _ path h

  found_file-IsDone :
      (owner_file : RepoPath) (include : String) (o : Option RepoPath)
      → IsDone (found_file fs owner_file include o)
  found_file-IsDone owner_file include none = tt
  found_file-IsDone owner_file include (some p) = elim (Bool-cases (fs.is_file p)) [
    | inl e ↦ rw e tt
    | inr e ↦ rw e tt
  ]

  resolve_include-IsDone :
      (owner_file : RepoPath) (include : String) → IsDone (resolve_include fs owner_file include)
  unfolding resolve_include
  resolve_include-IsDone owner_file include = found_file-IsDone owner_file include _

  module _ (known : List RepoPath)
      (all_known : (p : RepoPath) → fs.is_file p ≡ true → In p known) where
    -- The files below a stack are few enough for the nested calls.
    abbrev IsDeep : ℕ → Nested → Type 0
    IsDeep fuel nested =
        (st : Resolver) (path : RepoPath) (ds : List Directive) (stack : List RepoPath)
        → files_left known stack < fuel
        → IsDone (nested st path ds stack)

    module _ (fuel : ℕ) (nested : Nested) (deep : IsDeep fuel nested) (stack : List RepoPath)
        (enough : files_left known stack < suc fuel) where
      enter_include-IsDone :
          (st : Resolver) (result : LayerOwnership) (included : RepoPath)
          → fs.is_file included ≡ true
          → IsDone (enter_include fs nested st stack result included)
      unfolding cycle_error
      enter_include-IsDone st result included file = elim (Bool-cases (contains stack included)) [
        | inl e ↦ rw e tt
        | inr e ↦ rw e (
            IsDone-bind (parse_file fs st included) _ (parse_file-IsDone st included) (λ (p, st).
              IsDone-bind (nested st included p.global (stack ++ included ∷ [])) _
                (let less = files_left-push known stack included (all_known included file) e in
                  deep st included p.global (stack ++ included ∷ []) (omega arith))
                (λ l. tt)))
      ]

      include-IsDone :
          (owner_file : RepoPath) (include : String) (result : LayerOwnership) (st : Resolver)
          (r : Result OwnershipError RepoPath)
          → resolve_include fs owner_file include ≡ r
          → IsDone r
          → IsDone (r >>= enter_include fs nested st stack result)
      include-IsDone owner_file include result st (ok path) e h =
          enter_include-IsDone st result path (resolve_include-is_file owner_file include path e)
      include-IsDone owner_file include result st (err no_fuel) e h = elim h [ ]
      include-IsDone owner_file include result st (err _) e h = tt

      resolve_directive-IsDone :
          (owner_file : RepoPath) (result : LayerOwnership) (st : Resolver) (d : Directive)
          → IsDone (resolve_directive fs nested owner_file stack result st d)
      unfolding resolve_directive
      resolve_directive-IsDone owner_file result st (owner o) = tt
      resolve_directive-IsDone owner_file result st (include_file i) =
          elim (Bool-cases (is_external_include i)) [
            | inl e ↦ rw e tt
            | inr e ↦
                rw e (
                  include-IsDone owner_file i result st _ refl
                    (resolve_include-IsDone owner_file i))
          ]
      resolve_directive-IsDone owner_file result st no_parent = tt

      resolve_all-IsDone :
          (owner_file : RepoPath) (result : LayerOwnership) (st : Resolver) (ds : List Directive)
          → IsDone (resolve_all fs nested owner_file stack result st ds)
      unfolding resolve_all
      resolve_all-IsDone owner_file result st [] = tt
      resolve_all-IsDone owner_file result st (d ∷ ds) =
          IsDone-bind (resolve_directive fs nested owner_file stack result st d) _
            (resolve_directive-IsDone owner_file result st d)
            (λ (result, st). resolve_all-IsDone owner_file result st ds)

    resolve_directives-IsDone : (fuel : ℕ) → IsDeep fuel (resolve_directives fs fuel)
    unfolding resolve_directives
    resolve_directives-IsDone zero st path ds stack enough = absurd (omega arith)
    resolve_directives-IsDone (suc fuel) st path ds stack enough =
        resolve_all-IsDone fuel (resolve_directives fs fuel) (resolve_directives-IsDone fuel) stack
          enough path no_layer st ds

    pub evaluate_owner_file-IsDone :
        (fuel : ℕ) (st : Resolver) (path : RepoPath) (scoped_source : String)
        → length known < fuel
        → IsDone (evaluate_owner_file fs fuel st path scoped_source)
    unfolding evaluate_owner_file
    evaluate_owner_file-IsDone fuel st path scoped_source enough =
        let few = files_left-le-length known (path ∷ []) in
        IsDone-bind (parse_file fs st path) _ (parse_file-IsDone st path) (λ (p, st).
          IsDone-bind
            (resolve_directives fs fuel st path
              (selected_directives p (matched_directives p scoped_source)) (path ∷ []))
            _ (resolve_directives-IsDone fuel st path _ (path ∷ []) (omega arith)) (λ l. tt))
