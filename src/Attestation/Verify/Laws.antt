-- ===== src/Attestation/Verify/Laws.antt =====
-- What is signed is verified.
use chromifer.Base.{
  ℕ, String, ◌≡◌, ◌∙◌, refl, sym, ap, subst, true, List, [], ◌∷◌, ◌++◌, Option, none, some, length,
  All, beq_refl, ◌*◌, list_eq, nat_eq, string_eq,
}
use chromifer.Base.Results.{ok, bind-ok, ok-injective}
use chromifer.Attestation.Data.{
  SignOptions, SignSummary, EvidenceAttestation, VerifySummary, Library,
}
use chromifer.Attestation.Hex.{encode_hex, decode_array, is_lower_hex}
use chromifer.Attestation.Hex.Laws.{IsByte, decode_array-encode_hex, is_lower_hex-encode_hex}
use chromifer.Attestation.Disk.{Disk, Try, read_regular_file, reject_output_alias, write_or_check}
use chromifer.Attestation.Disk.Writing.{
  IsReadAs, IsFresh, read_regular_file-IsReadAs, read_regular_file-of_IsReadAs,
  write_or_check-IsReadAs, write_or_check-keeps,
}
use chromifer.Attestation.Sign.{
  validate_runner_id, load_private_key, sha256_hex, attestation_of, json_line, sign_and_write,
}
use chromifer.Attestation.Verify.{validate_attestation, load_public_key, check_signature, verify}

abbrev pub HasBytes : ℕ → List ℕ → Type 0
HasBytes n bytes = (length bytes ≡ n) × All IsByte bytes

-- What the libraries promise
pub record IsLibrary (library : Library) : Type 0 where
  pub public : (secret : List ℕ) → HasBytes 32 (library.public_of secret)
  pub signature : (secret message : List ℕ) → HasBytes 64 (library.sign secret message)
  pub digest : (bytes : List ℕ) → HasBytes 32 (library.sha256 bytes)
  pub signed :
      (secret message : List ℕ)
      → library.verify_strict (library.public_of secret) message (library.sign secret message)
        ≡ true
  pub json :
      (a : EvidenceAttestation) (bytes : List ℕ)
      → library.to_json a ≡ some bytes
      → library.from_json (bytes ++ 10 ∷ []) ≡ some a

decode-HasBytes :
    (n : ℕ) (bytes : List ℕ) → HasBytes n bytes → decode_array n (encode_hex bytes) ≡ some bytes
decode-HasBytes n bytes (l, b) =
    subst (λ n. decode_array n (encode_hex bytes) ≡ some bytes) l (decode_array-encode_hex bytes b)

is_lower_hex-HasBytes :
    (n m : ℕ) (bytes : List ℕ)
    → HasBytes n bytes
    → n * 2 ≡ m
    → is_lower_hex (encode_hex bytes) m ≡ true
is_lower_hex-HasBytes n m bytes (l, b) e =
    subst (λ m. is_lower_hex (encode_hex bytes) m ≡ true) (ap (λ n. n * 2) l ∙ e)
      (is_lower_hex-encode_hex bytes b)

abbrev summary_of : EvidenceAttestation → VerifySummary
summary_of a = record {
  evidence_sha256 = a.evidence_sha256;
  runner_id = a.runner_id;
  public_key_sha256 = a.public_key_sha256;
  signature_valid = true;
}

module _ (library : Library) (laws : IsLibrary library) (runner_id : String)
    (evidence secret : List ℕ) where
  abbrev made : EvidenceAttestation
  made = attestation_of library runner_id evidence secret

  attestation-valid : validate_runner_id runner_id ≡ ok tt → validate_attestation made ≡ ok tt
  unfolding attestation_of validate_attestation sha256_hex
  attestation-valid h =
      let public = library.public_of secret in
      rw
        (
          h,
          is_lower_hex-HasBytes 32 64 (library.sha256 evidence) (laws.digest evidence) refl,
          is_lower_hex-HasBytes 32 64 (library.sha256 public) (laws.digest public) refl,
          is_lower_hex-HasBytes 32 64 public (laws.public secret) refl,
          is_lower_hex-HasBytes 64 128 (library.sign secret _) (laws.signature secret _) refl,
        )
        refl

  attested-key : decode_array 32 made.public_key ≡ some (library.public_of secret)
  unfolding attestation_of
  attested-key = decode-HasBytes 32 (library.public_of secret) (laws.public secret)

  check_signature-made :
      (evidence_path : String)
      → check_signature library evidence_path evidence
          (library.public_of secret)
          (library.public_of secret)
          made
        ≡ ok (summary_of made)
  unfolding check_signature attestation_of
  check_signature-made evidence_path =
      let public = library.public_of secret in
      rw
        (
          beq_refl public,
          beq_refl (sha256_hex library public),
          beq_refl (sha256_hex library evidence),
          decode-HasBytes 64 (library.sign secret _) (laws.signature secret _),
          laws.signed secret,
        )
        refl

  verify-attested :
      (disk : Disk) (evidence_path output key_path : String) (json : List ℕ)
      → validate_runner_id runner_id ≡ ok tt
      → read_regular_file disk evidence_path ≡ ok evidence
      → read_regular_file disk output ≡ ok json
      → library.from_json json ≡ some made
      → load_public_key library disk key_path ≡ ok (library.public_of secret)
      → verify library disk evidence_path output key_path ≡ ok (summary_of made)
  unfolding verify
  verify-attested disk evidence_path output key_path json v e j f k =
      rw (e, j, f, attestation-valid v, k, attested-key, check_signature-made evidence_path) refl

json_line-ok :
    (o : Option (List ℕ)) (json : List ℕ)
    → json_line o ≡ ok json
    → (bytes : List ℕ) × (o ≡ some bytes) × (bytes ++ 10 ∷ [] ≡ json)
json_line-ok none json h = absurd cc
json_line-ok (some bytes) json h = (bytes, refl, cc h)

written-verify :
    (library : Library) (laws : IsLibrary library) (runner_id : String) (evidence secret : List ℕ)
    (disk next : Disk) (options : SignOptions) (key_path : String) (json : List ℕ)
    → validate_runner_id runner_id ≡ ok tt
    → IsReadAs disk options.evidence evidence
    → IsFresh disk
    → reject_output_alias disk options.output options.evidence ≡ ok tt
    → json_line (library.to_json (made library laws runner_id evidence secret)) ≡ ok json
    → write_or_check disk options.output json options.force options.check ≡ ok next
    → load_public_key library next key_path ≡ ok (library.public_of secret)
    → verify library next options.evidence options.output key_path
      ≡ ok (summary_of (made library laws runner_id evidence secret))
written-verify library laws runner_id evidence secret disk next options key_path json valid read
      fresh apart line written trusted =
    let a = made library laws runner_id evidence secret in
    let (bytes, to, same) = json_line-ok (library.to_json a) json line in
    verify-attested library laws runner_id evidence secret next options.evidence options.output
      key_path json valid
      (read_regular_file-of_IsReadAs next options.evidence evidence (
        write_or_check-keeps disk next options.output options.evidence evidence json read fresh
          options.force options.check apart written))
      (read_regular_file-of_IsReadAs next options.output json
        (write_or_check-IsReadAs disk next options.output json options.force options.check written))
      (subst (λ j. library.from_json j ≡ some a) same (laws.json a bytes to)) trusted

ok-pair :
    (s t : SignSummary) (d e : Disk)
    → ◌≡◌ {A = Try (SignSummary × Disk)} (ok (s, d)) (ok (t, e))
    → (s ≡ t) × (d ≡ e)
ok-pair s t d e h = (cc h, cc h)

abbrev verified : SignSummary → VerifySummary
verified s = record {
  evidence_sha256 = s.evidence_sha256;
  runner_id = s.runner_id;
  public_key_sha256 = s.public_key_sha256;
  signature_valid = true;
}

-- Where a file that is made gets a number of its own and the libraries keep their promises (a
-- signature with a key is accepted with its public key, JSON is read as it was written, digests,
-- keys and signatures have their lengths), what sign_and_write writes or has checked is accepted
-- by verify, with the summary of the signing, if the trusted key that is read then is the public
-- key of the private one. So the evidence is as it was, also where the output replaces a file.
pub sign_and_write-verify :
    (library : Library)
    → IsLibrary library
    → (disk next : Disk) (options : SignOptions) (summary : SignSummary) (key_path : String)
    → (secret : List ℕ) → IsFresh disk
    → load_private_key disk options.private_key ≡ ok secret
    → sign_and_write library disk options ≡ ok (summary, next)
    → load_public_key library next key_path ≡ ok (library.public_of secret)
    → verify library next options.evidence options.output key_path
      ≡ ok (record {
        evidence_sha256 = summary.evidence_sha256;
        runner_id = summary.runner_id;
        public_key_sha256 = summary.public_key_sha256;
        signature_valid = true;
      })
unfolding attestation_of sign_and_write
sign_and_write-verify library laws disk next options summary key_path secret fresh key h trusted =
    let (_, valid, h) = bind-ok (validate_runner_id options.runner_id) _ (summary, next) h in
    let (_, apart, h) =
      bind-ok (reject_output_alias disk options.output options.evidence) _ (summary, next) h in
    let (_, _, h) =
      bind-ok (reject_output_alias disk options.output options.private_key) _ (summary, next) h in
    let (evidence, read, h) =
      bind-ok (read_regular_file disk options.evidence) _ (summary, next) h in
    let (given, loaded, h) =
      bind-ok (load_private_key disk options.private_key) _ (summary, next) h in
    let same : given ≡ secret = ok-injective given secret (sym loaded ∙ key) in
    let (json, line, h) =
      bind-ok (json_line (library.to_json (made library laws options.runner_id evidence given))) _
        (summary, next) h in
    let (after, written, h) =
      bind-ok (write_or_check disk options.output json options.force options.check) _
        (summary, next) h in
    let (e, n) = ok-pair _ summary after next h in
    subst (λ s. verify library next options.evidence options.output key_path ≡ ok (verified s)) e
      (written-verify library laws options.runner_id evidence given disk next options key_path json
        valid (read_regular_file-IsReadAs disk options.evidence evidence read) fresh apart line
        (written ∙ ap ok n) (trusted ∙ ap (λ s. ok (library.public_of s)) (sym same)))
