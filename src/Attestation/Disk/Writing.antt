-- ===== src/Attestation/Disk/Writing.antt =====
-- What is read after `write_or_check`.
use chromifer.Base.{
  ℕ, String, ◌≡◌, ◌≢◌, refl, sym, ap, subst, ◌∙◌, Bool, true, false, List, Option, none, some, ◌==◌,
  string_eq, list_eq, nat_eq, eqb, eqb_iff, if◌then◌else◌, Bool-cases, inl, inr, arith, beq_refl,
  map,
}
use chromifer.Base.Results.{ok, err, ◌>>=◌, bind-ok}
use chromifer.Manifest.Path.{components}
use chromifer.Attestation.Data.{AttestationError}
use chromifer.Attestation.Disk.{
  file, symlink, other_node, Lookup, found, not_found, unreachable, Disk, Try, regular_node,
  regular_file_metadata, content_or, read_regular_file, same_path, component_text, same_file,
  alias_check, reject_output_alias, set_content, create_file, write_over, same_or_drift,
  write_or_check,
}

-- The path leads to the file with the number, whose content is that.
pub record IsReadAs (disk : Disk) (path : String) (bytes : List ℕ) : Type 0 where
  pub number : ℕ
  pub mode : ℕ
  pub entry : disk.entry path ≡ found (file number mode)
  pub content : disk.content number ≡ some bytes

pub read_regular_file-of_IsReadAs :
    (disk : Disk) (path : String) (bytes : List ℕ)
    → IsReadAs disk path bytes
    → read_regular_file disk path ≡ ok bytes
unfolding read_regular_file regular_file_metadata
read_regular_file-of_IsReadAs disk path bytes h = rw (h.entry, h.content) refl

pub read_regular_file-IsReadAs :
    (disk : Disk) (path : String) (bytes : List ℕ)
    → read_regular_file disk path ≡ ok bytes
    → IsReadAs disk path bytes
unfolding read_regular_file regular_file_metadata
read_regular_file-IsReadAs disk path bytes h = by_entry (disk.entry path) refl h
  where
    by_content :
        (number mode : ℕ) (o : Option (List ℕ))
        → disk.entry path ≡ found (file number mode)
        → disk.content number ≡ o
        → content_or path o ≡ ok bytes
        → IsReadAs disk path bytes
    by_content number mode none e c h = absurd cc
    by_content number mode (some b) e c h = record {
      number = number;
      mode = mode;
      entry = e;
      content = c ∙ ap some (cc h);
    }

    by_entry :
        (l : Lookup)
        → disk.entry path ≡ l
        → (regular_node path l >>= λ (p : ℕ × ℕ). content_or path (disk.content p.0)) ≡ ok bytes
        → IsReadAs disk path bytes
    by_entry (found (file number mode)) e h = by_content number mode (disk.content number) e refl h
    by_entry (found symlink) e h = absurd cc
    by_entry (found other_node) e h = absurd cc
    by_entry not_found e h = absurd cc
    by_entry unreachable e h = absurd cc

-- A file that is made has a number that no path leads to.
unfoldable pub IsFresh : Disk → Type 0
IsFresh disk =
    (path other : String) (number mode n m : ℕ)
    → disk.create path ≡ some (number, mode)
    → disk.entry other ≡ found (file n m)
    → n ≢ number

same_path_refl : (path : String) → same_path path path ≡ true
unfolding same_path
same_path_refl path = beq_refl (map component_text (components path))

same_path-sym : (a b : String) → same_path a b ≡ false → same_path b a ≡ false
unfolding same_path
same_path-sym a b h = elim (Bool-cases (names b == names a)) [
  | inl e ↦
      let yes =
        (list_eq.beq_iff (names a) (names b)).1 (sym ((list_eq.beq_iff (names b) (names a)).0 e)) in
      absurd cc
  | inr e ↦ e
]
  where
    names : String → List String
    names path = map component_text (components path)

create_file-IsReadAs :
    (disk next : Disk) (path : String) (bytes : List ℕ) (o : Option (ℕ × ℕ))
    → create_file disk path bytes o ≡ ok next
    → IsReadAs next path bytes
create_file-IsReadAs disk next path bytes none h = absurd cc
create_file-IsReadAs disk next path bytes (some (number, mode)) h =
    let made : Disk = record (set_content disk number bytes) {
      entry = λ p. if same_path p path then found (file number mode) else disk.entry p;
    } in
    let same : made ≡ next = cc h in
    subst (λ d. IsReadAs d path bytes) same
      (record {
        number = number;
        mode = mode;
        entry = rw (same_path_refl path) refl;
        content = rw (beq_refl number) refl;
      })

write_over-IsReadAs :
    (disk next : Disk) (path : String) (bytes : List ℕ) (force : Bool) (l : Lookup)
    → disk.entry path ≡ l
    → write_over disk path bytes force l ≡ ok next
    → IsReadAs next path bytes
write_over-IsReadAs disk next path bytes force (found (file number mode)) e h =
    let same : set_content disk number bytes ≡ next = ground (arith, h) in
    subst (λ d. IsReadAs d path bytes) same
      (record { number = number; mode = mode; entry = e; content = rw (beq_refl number) refl })
write_over-IsReadAs disk next path bytes force (found symlink) e h = absurd cc
write_over-IsReadAs disk next path bytes force (found other_node) e h = absurd cc
write_over-IsReadAs disk next path bytes force not_found e h =
    create_file-IsReadAs disk next path bytes (disk.create path) h
write_over-IsReadAs disk next path bytes force unreachable e h = absurd cc

same_or_drift-ok :
    (path : String) (bytes : List ℕ) (r : Try (List ℕ))
    → same_or_drift path bytes r ≡ ok tt
    → r ≡ ok bytes
same_or_drift-ok path bytes (ok actual) h =
    ap ok ((list_eq.beq_iff actual bytes).0 (ground (arith, h)))
same_or_drift-ok path bytes (err e) h = absurd cc

-- Written
pub write_or_check-IsReadAs :
    (disk next : Disk) (path : String) (bytes : List ℕ) (force check : Bool)
    → write_or_check disk path bytes force check ≡ ok next
    → IsReadAs next path bytes
unfolding write_or_check
write_or_check-IsReadAs disk next path bytes force true h =
    let (_, compared, e) =
      bind-ok (same_or_drift path bytes (read_regular_file disk path)) (λ _. ok disk) next h in
    let same : disk ≡ next = cc e in
    subst (λ d. IsReadAs d path bytes) same
      (read_regular_file-IsReadAs disk path bytes (same_or_drift-ok path bytes _ compared))
write_or_check-IsReadAs disk next path bytes force false h =
    write_over-IsReadAs disk next path bytes force (disk.entry path) refl h

module _ (disk next : Disk) (output input : String) (content bytes : List ℕ)
    (read : IsReadAs disk input content) (fresh : IsFresh disk) where
  content-set_content :
      (number : ℕ)
      → read.number ≢ number
      → (set_content disk number bytes).content read.number ≡ some content
  content-set_content number other = elim (Bool-cases (eqb read.number number)) [
    | inl e ↦ absurd (other ((eqb_iff read.number number).0 e))
    | inr e ↦ rw e read.content
  ]

  set_content-IsReadAs :
      (number : ℕ) → read.number ≢ number → IsReadAs (set_content disk number bytes) input content
  set_content-IsReadAs number other = record {
    number = read.number;
    mode = read.mode;
    entry = read.entry;
    content = content-set_content number other;
  }

  create_file-keeps :
      (o : Option (ℕ × ℕ))
      → disk.create output ≡ o
      → same_path input output ≡ false
      → create_file disk output bytes o ≡ ok next
      → IsReadAs next input content
  unfolding IsFresh
  create_file-keeps none e other h = absurd cc
  create_file-keeps (some (number, mode)) e other h =
      let made : Disk = record (set_content disk number bytes) {
        entry = λ p. if same_path p output then found (file number mode) else disk.entry p;
      } in
      let same : made ≡ next = cc h in
      subst (λ d. IsReadAs d input content) same
        (record {
          number = read.number;
          mode = read.mode;
          entry = rw other read.entry;
          content =
              content-set_content number
                (fresh output input number mode read.number read.mode e read.entry);
        })

  write_over-keeps :
      (force : Bool) (l : Lookup)
      → disk.entry output ≡ l
      → same_path input output ≡ false
      → alias_check disk output input l ≡ ok tt
      → write_over disk output bytes force l ≡ ok next
      → IsReadAs next input content
  unfolding regular_file_metadata
  write_over-keeps force (found (file number mode)) e other a h =
      let same : set_content disk number bytes ≡ next = ground (arith, h) in
      let differ : eqb number read.number ≡ false = ground (
        arith,
        subst
            (λ l.
              (regular_node input l >>= λ (p : ℕ × ℕ). same_file output input number p.0) ≡ ok tt)
            read.entry a,
      ) in
      subst (λ d. IsReadAs d input content) same
        (set_content-IsReadAs number
          (λ k. let yes = (eqb_iff number read.number).1 (sym k) in absurd cc))
  write_over-keeps force (found symlink) e other a h = absurd cc
  write_over-keeps force (found other_node) e other a h = absurd cc
  write_over-keeps force not_found e other a h = create_file-keeps (disk.create output) refl other h
  write_over-keeps force unreachable e other a h = absurd cc

  -- Kept
  pub write_or_check-keeps :
      (force check : Bool)
      → reject_output_alias disk output input ≡ ok tt
      → write_or_check disk output bytes force check ≡ ok next
      → IsReadAs next input content
  unfolding reject_output_alias write_or_check
  write_or_check-keeps force true a h =
      let (_, _, e) =
        bind-ok (same_or_drift output bytes (read_regular_file disk output)) (λ _. ok disk) next
          h in
      let same : disk ≡ next = cc e in subst (λ d. IsReadAs d input content) same read
  write_or_check-keeps force false a h = elim (Bool-cases (same_path output input)) [
    | inl e ↦ absurd (refused (rw e at a))
    | inr e ↦
        write_over-keeps force (disk.entry output) refl (same_path-sym output input e) (rw e at a) h
  ]
    where
      refused : {x : AttestationError} → err x ≡ ok tt → ⊥
      refused h = absurd cc
