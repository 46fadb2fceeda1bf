-- ===== src/Attestation/Tests.antt =====
-- Runs with a small library that stands in for the cryptography, and the theorems at it.
use chromifer.Base.{
  ℕ, zero, suc, ◌+◌, ◌%◌, ◌<◌, String, ◌≡◌, refl, sym, ap, subst, Bool, true, false, ◌&&◌, List, [],
  ◌∷◌, ◌++◌, Option, none, some, eqb, eqb_iff, eq_iff, list_eq, nat_eq, string_eq, ◌==◌,
  if◌then◌else◌, arith, beq_refl, Bool-cases, inl, inr,
}
use chromifer.Base.Results.{ok, err}
use chromifer.Base.Text.{as_bytes}
use chromifer.Attestation.Data.{
  SignOptions, SignSummary, EvidenceAttestation, VerifySummary, output_aliases_input,
  insecure_private_key_permissions, output_exists, evidence_digest_mismatch, Library,
}
use chromifer.Attestation.Hex.{encode_hex}
use chromifer.Attestation.Disk.{file, Lookup, found, not_found, Disk, set_content, same_path}
use chromifer.Attestation.Disk.Writing.{IsFresh, IsReadAs}
use chromifer.Attestation.Sign.{load_private_key, attestation_of, sign_and_write}
use chromifer.Attestation.Verify.{load_public_key, verify}
use chromifer.Attestation.Verify.Laws.{HasBytes, IsLibrary, sign_and_write-verify}
use chromifer.Attestation.Verify.Sound.{IsSigned, verify-IsSigned}

copies : (n b : ℕ) → List ℕ
copies zero b = []
copies (suc n) b = b ∷ copies n b

total : List ℕ → ℕ
total [] = 0
total (b ∷ bytes) = b + total bytes

first : List ℕ → ℕ
first [] = 0
first (b ∷ bytes) = b

copies-HasBytes : (n b : ℕ) → b < 256 → HasBytes n (copies n b)
unfolding copies
copies-HasBytes zero b h = (refl, tt)
copies-HasBytes (suc n) b h = let (l, a) = copies-HasBytes n b h in (omega (arith, l), (h, a))

abbrev public_bytes : List ℕ → List ℕ
public_bytes secret = copies 32 (total secret % 256)

abbrev signature_bytes : (public message : List ℕ) → List ℕ
signature_bytes public message = copies 64 ((first public + total message) % 256)

abbrev evidence_bytes : List ℕ
evidence_bytes = as_bytes "evidence\n"

abbrev secret_bytes : List ℕ
secret_bytes = copies 32 1

abbrev plain : Library
plain = record {
  public_of = public_bytes;
  is_public = λ _. true;
  sign = λ secret message. signature_bytes (public_bytes secret) message;
  verify_strict = λ public message signature. signature == signature_bytes public message;
  sha256 = λ bytes. copies 32 (total bytes % 256);
  to_json = λ _. none;
  from_json = λ _. none;
}

abbrev expected : EvidenceAttestation
expected = attestation_of plain "ci/runner-1" evidence_bytes secret_bytes

abbrev same : (a b : EvidenceAttestation) → Bool
same a b =
    eqb a.schema_version b.schema_version
    && (a.algorithm == b.algorithm
        && (a.runner_id == b.runner_id
            && (a.evidence_sha256 == b.evidence_sha256
                && (a.public_key_sha256 == b.public_key_sha256
                    && (a.public_key == b.public_key && a.signature == b.signature)))))

both : (a b : Bool) → (a && b) ≡ true → (a ≡ true) × (b ≡ true)
both true b h = (refl, h)
both false b h = absurd cc

same-eq : (a b : EvidenceAttestation) → same a b ≡ true → a ≡ b
same-eq a b h =
    let (v, h) = both _ _ h in
    let (g, h) = both _ _ h in
    let (r, h) = both _ _ h in
    let (e, h) = both _ _ h in
    let (d, h) = both _ _ h in
    let (k, s) = both _ _ h in
    let v = (eqb_iff a.schema_version b.schema_version).0 v in
    let g = (eq_iff a.algorithm b.algorithm).0 g in
    let r = (eq_iff a.runner_id b.runner_id).0 r in
    let e = (eq_iff a.evidence_sha256 b.evidence_sha256).0 e in
    let d = (eq_iff a.public_key_sha256 b.public_key_sha256).0 d in
    let k = (eq_iff a.public_key b.public_key).0 k in
    let s = (eq_iff a.signature b.signature).0 s in
    λ i. record {
      schema_version = v i;
      algorithm = g i;
      runner_id = r i;
      evidence_sha256 = e i;
      public_key_sha256 = d i;
      public_key = k i;
      signature = s i;
    }

-- A library whose JSON has one attestation
abbrev library : Library
library = record plain {
  to_json = λ a. if same a expected then some (7 ∷ []) else none;
  from_json = λ bytes. if bytes == 7 ∷ 10 ∷ [] then some expected else none;
}

json_law :
    (a : EvidenceAttestation) (bytes : List ℕ)
    → library.to_json a ≡ some bytes
    → library.from_json (bytes ++ 10 ∷ []) ≡ some a
json_law a bytes h = elim (Bool-cases (same a expected)) [
  | inl e ↦
      let b : 7 ∷ [] ≡ bytes = written bytes (rw e at h) in
      subst (λ bytes. library.from_json (bytes ++ 10 ∷ []) ≡ some a) b
        (ap some (sym (same-eq a expected e)))
  | inr e ↦ absurd (unwritten bytes (rw e at h))
]
  where
    written : (bytes : List ℕ) → some (7 ∷ []) ≡ some bytes → 7 ∷ [] ≡ bytes
    written bytes h = cc h

    unwritten : (bytes : List ℕ) → ◌≡◌ {A = Option (List ℕ)} none (some bytes) → ⊥
    unwritten bytes h = absurd cc

library-IsLibrary : IsLibrary library
library-IsLibrary = record {
  public = λ secret. copies-HasBytes 32 (total secret % 256) (omega arith);
  signature = λ secret message.
      copies-HasBytes 64 ((first (public_bytes secret) + total message) % 256) (omega arith);
  digest = λ bytes. copies-HasBytes 32 (total bytes % 256) (omega arith);
  signed = λ secret message. beq_refl (signature_bytes (public_bytes secret) message);
  json = json_law;
}

abbrev line_of : List ℕ → List ℕ
line_of bytes = as_bytes (encode_hex bytes) ++ 10 ∷ []

abbrev disk : Disk
disk = record {
  entry = λ path.
      if path == "evidence.json"
      then found (file 1 420)
      else if path == "key"
      then found (file 2 384)
      else if path == "key.pub"
      then found (file 3 420)
      else if path == "link"
      then found (file 1 420)
      else if path == "open_key"
      then found (file 2 420)
      else not_found;
  content = λ n.
      if eqb n 1
      then some evidence_bytes
      else if eqb n 2
      then some (line_of secret_bytes)
      else if eqb n 3
      then some (line_of (public_bytes secret_bytes))
      else none;
  create = λ _. some (4, 420);
  is_writable = λ _. true;
}

abbrev options : SignOptions
options = record {
  evidence = "evidence.json";
  private_key = "key";
  output = "evidence.sig";
  runner_id = "ci/runner-1";
  force = false;
  check = false;
}

abbrev summary : SignSummary
summary = record {
  evidence_sha256 = expected.evidence_sha256;
  runner_id = "ci/runner-1";
  public_key_sha256 = expected.public_key_sha256;
  output = "evidence.sig";
  checked = false;
}

abbrev signed_disk : Disk
signed_disk = record (set_content disk 4 (7 ∷ 10 ∷ [])) {
  entry = λ p. if same_path p "evidence.sig" then found (file 4 420) else disk.entry p;
}

key_run : load_private_key disk "key" ≡ ok secret_bytes
unfolding load_private_key encode_hex copies
key_run = refl

sign_run : sign_and_write library disk options ≡ ok (summary, signed_disk)
unfolding sign_and_write copies total first same_path
sign_run = refl

-- A hard link to the evidence is not written, nor is a key read that others can read.
link_run :
    sign_and_write library disk (record options { output = "link"; force = true })
    ≡ err (output_aliases_input "link" "evidence.json")
unfolding sign_and_write
link_run = refl

open_run :
    sign_and_write library disk (record options { private_key = "open_key" })
    ≡ err (insecure_private_key_permissions "open_key")
unfolding sign_and_write
open_run = refl

exists_run : sign_and_write library signed_disk options ≡ err (output_exists "evidence.sig")
unfolding sign_and_write encode_hex copies total first
exists_run = refl

tampered_run :
    verify library
      (set_content signed_disk 1 (as_bytes "Evidence\n"))
      "evidence.json"
      "evidence.sig"
      "key.pub"
    ≡ err (evidence_digest_mismatch "evidence.json")
unfolding verify encode_hex copies total first attestation_of same_path
tampered_run = refl

abbrev accepted : VerifySummary
accepted = record {
  evidence_sha256 = summary.evidence_sha256;
  runner_id = summary.runner_id;
  public_key_sha256 = summary.public_key_sha256;
  signature_valid = true;
}

verify_run : verify library signed_disk "evidence.json" "evidence.sig" "key.pub" ≡ ok accepted
unfolding verify encode_hex copies total first attestation_of same_path
verify_run = refl

trusted_run : load_public_key library signed_disk "key.pub" ≡ ok (public_bytes secret_bytes)
unfolding load_public_key encode_hex copies total same_path
trusted_run = refl

IsOld : Lookup → Type 0
IsOld (found (file n m)) = n < 4
IsOld _ = Unit

file_or :
    (b : Bool) (n m : ℕ) (r : Lookup) → n < 4 → IsOld r → IsOld (if b then found (file n m) else r)
unfolding IsOld
file_or true n m r h k = h
file_or false n m r h k = k

not_found-IsOld : IsOld not_found
unfolding IsOld
not_found-IsOld = tt

disk-IsOld : (path : String) → IsOld (disk.entry path)
disk-IsOld path = file_or (path == "evidence.json") 1 420 _ (omega arith) (
    file_or (path == "key") 2 384 _ (omega arith) (
      file_or (path == "key.pub") 3 420 _ (omega arith) (
        file_or (path == "link") 1 420 _ (omega arith)
          (file_or (path == "open_key") 2 420 _ (omega arith) not_found-IsOld))))

disk-IsFresh : IsFresh disk
unfolding IsFresh IsOld
disk-IsFresh path other number mode n m made there same =
    let old : n < 4 = subst IsOld there (disk-IsOld other) in
    let four : 4 ≡ number = cc made in omega (arith, old, four, same)

sign_and_write-verify_example :
    verify library signed_disk "evidence.json" "evidence.sig" "key.pub" ≡ ok accepted
sign_and_write-verify_example =
    sign_and_write-verify library library-IsLibrary disk signed_disk options summary "key.pub"
      secret_bytes disk-IsFresh key_run sign_run trusted_run

verify-IsSigned_example :
    (evidence : List ℕ) × (key : List ℕ) × IsReadAs signed_disk "evidence.json" evidence
    × (load_public_key library signed_disk "key.pub" ≡ ok key)
    × IsSigned library evidence key accepted
verify-IsSigned_example =
    verify-IsSigned library signed_disk "evidence.json" "evidence.sig" "key.pub" accepted verify_run
