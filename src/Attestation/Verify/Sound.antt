-- ===== src/Attestation/Verify/Sound.antt =====
-- What an accepted attestation shows.
use chromifer.Base.{
  ℕ, String, ◌≡◌, refl, sym, ap, subst, ◌∙◌, Bool, true, false, not, ◌||◌, eqb, List, Option, none,
  some, ◌==◌, list_eq, nat_eq, eq_iff, string_eq, if◌then◌else◌,
}
use chromifer.Base.Results.{ok, err, bind-ok, ok-injective}
use chromifer.Attestation.Data.{
  EvidenceAttestation, VerifySummary, AttestationError, invalid_signature, Library,
}
use chromifer.Attestation.Hex.{encode_hex, decode_array, is_lower_hex}
use chromifer.Attestation.Hex.Inverse.{encode_hex-decode_array}
use chromifer.Attestation.Disk.{Disk, Try, read_regular_file}
use chromifer.Attestation.Disk.Writing.{IsReadAs, read_regular_file-IsReadAs}
use chromifer.Attestation.Sign.{validate_runner_id, sha256_hex, signing_payload, key_or}
use chromifer.Attestation.Verify.{
  validate_attestation, load_public_key, signature_or, attestation_or, check_signature, verify,
}

-- The summary is of a statement that the holder of the key made on the evidence.
pub record IsSigned (library : Library) (evidence key : List ℕ) (summary : VerifySummary)
    : Type 0 where
  pub signature : List ℕ
  pub digest : summary.evidence_sha256 ≡ sha256_hex library evidence
  pub key_digest : summary.public_key_sha256 ≡ sha256_hex library key
  pub signed :
      library.verify_strict key
        (signing_payload summary.runner_id summary.evidence_sha256
          (encode_hex key)
          summary.public_key_sha256)
        signature
      ≡ true
  pub valid : summary.signature_valid ≡ true

key_or-ok : (path : String) (o : Option (List ℕ)) (k : List ℕ) → key_or path o ≡ ok k → o ≡ some k
key_or-ok path none k h = absurd cc
key_or-ok path (some b) k h = cc h

signature_or-ok : (o : Option (List ℕ)) (s : List ℕ) → signature_or o ≡ ok s → o ≡ some s
signature_or-ok none s h = absurd cc
signature_or-ok (some b) s h = cc h

guard :
    {A : Type 0} (b : Bool) (e : AttestationError) (r : Try A) (a : A)
    → (if not b then err e else r) ≡ ok a
    → (b ≡ true) × (r ≡ ok a)
guard true e r a h = (refl, h)
guard false e r a h = absurd cc

check_signature-IsSigned :
    (library : Library) (path : String) (evidence trusted attested : List ℕ)
    (a : EvidenceAttestation) (summary : VerifySummary)
    → encode_hex attested ≡ a.public_key
    → check_signature library path evidence trusted attested a ≡ ok summary
    → IsSigned library evidence trusted summary
unfolding check_signature
check_signature-IsSigned library path evidence trusted attested a summary key h =
    let (same, h) = guard (trusted == attested) _ _ summary h in
    let (kd, h) = guard (sha256_hex library attested == a.public_key_sha256) _ _ summary h in
    let (ed, h) = guard (sha256_hex library evidence == a.evidence_sha256) _ _ summary h in
    let (signature, _, h) = bind-ok (signature_or (decode_array 64 a.signature)) _ summary h in
    let (signed, h) =
      guard
        (library.verify_strict trusted
          (signing_payload a.runner_id a.evidence_sha256 a.public_key a.public_key_sha256)
          signature)
        _ _ summary h in
    let same = (list_eq.beq_iff trusted attested).0 same in
    let kd = (eq_iff (sha256_hex library attested) a.public_key_sha256).0 kd in
    let ed = (eq_iff (sha256_hex library evidence) a.evidence_sha256).0 ed in
    subst (IsSigned library evidence trusted) (ok-injective _ summary h) (record {
      signature = signature;
      digest = refl;
      key_digest = sym kd ∙ ap (sha256_hex library) (sym same);
      signed =
          subst
            (λ (d : String × String).
              library.verify_strict trusted
                (signing_payload a.runner_id d.0 d.1 a.public_key_sha256) signature
              ≡ true)
            (λ i. (sym ed i, (sym key ∙ ap encode_hex (sym same)) i)) signed;
      valid = refl;
    })

valid-key :
    (a : EvidenceAttestation) → validate_attestation a ≡ ok tt → is_lower_hex a.public_key 64 ≡ true
unfolding validate_attestation
valid-key a h =
    let (_, h) = guard (eqb a.schema_version 1) _ _ tt h in
    let (_, h) = guard (a.algorithm == "ed25519") _ _ tt h in
    let (_, _, h) = bind-ok (validate_runner_id a.runner_id) _ tt h in
    from_test (is_lower_hex a.evidence_sha256 64) (is_lower_hex a.public_key_sha256 64)
      (is_lower_hex a.public_key 64) (is_lower_hex a.signature 128) h
  where
    from_test :
        (e d k s : Bool)
        → ◌≡◌ {A = Try Unit}
            (if not e || (not d || (not k || not s)) then err invalid_signature else ok tt)
            (ok tt)
        → k ≡ true
    from_test e d true s h = refl
    from_test true true false s h = absurd cc
    from_test true false false s h = absurd cc
    from_test false d false s h = absurd cc

-- If verify accepts, the evidence and the trusted key are read, the digests of the summary are
-- those of the two, and some signature holds under the trusted key on the payload of exactly the
-- runner, the digest of the evidence, the trusted key in lowercase hexadecimal and its digest.
pub verify-IsSigned :
    (library : Library) (disk : Disk) (evidence_path attestation_path key_path : String)
    (summary : VerifySummary)
    → verify library disk evidence_path attestation_path key_path ≡ ok summary
    → (evidence : List ℕ) × (key : List ℕ) × IsReadAs disk evidence_path evidence
      × (load_public_key library disk key_path ≡ ok key)
      × IsSigned library evidence key summary
unfolding verify
verify-IsSigned library disk evidence_path attestation_path key_path summary h =
    let (evidence, read, h) = bind-ok (read_regular_file disk evidence_path) _ summary h in
    let (bytes, _, h) = bind-ok (read_regular_file disk attestation_path) _ summary h in
    let (a, _, h) = bind-ok (attestation_or (library.from_json bytes)) _ summary h in
    let (_, valid, h) = bind-ok (validate_attestation a) _ summary h in
    let (trusted, loaded, h) = bind-ok (load_public_key library disk key_path) _ summary h in
    let (attested, decoded, h) =
      bind-ok (key_or attestation_path (decode_array 32 a.public_key)) _ summary h in
    (
      evidence,
      trusted,
      read_regular_file-IsReadAs disk evidence_path evidence read,
      loaded,
      check_signature-IsSigned library evidence_path evidence trusted attested a summary
          (encode_hex-decode_array 32 64 a.public_key attested (valid-key a valid)
            (key_or-ok attestation_path _ attested decoded))
          h,
    )
