-- ===== src/Attestation/Verify.antt =====
-- crates/chromifer-attestation/src/lib.rs: `verify`.
pub mod Laws
pub mod Sound
use chromifer.Base.{
  ℕ, String, Bool, true, false, not, ◌||◌, List, Option, none, some, eqb, ◌==◌, string_eq, list_eq,
  nat_eq, if◌then◌else◌,
}
use chromifer.Base.Results.{Result, ok, err, ◌>>=◌}
use chromifer.Attestation.Data.{
  EvidenceAttestation, VerifySummary, AttestationError, invalid_key, parse_attestation,
  unsupported_schema, unsupported_algorithm, untrusted_public_key, public_key_digest_mismatch,
  evidence_digest_mismatch, invalid_signature, Library,
}
use chromifer.Attestation.Hex.{decode_array, is_lower_hex}
use chromifer.Attestation.Disk.{Disk, Try, display, read_regular_file}
use chromifer.Attestation.Sign.{
  validate_runner_id, read_key_file, key_or, sha256_hex, signing_payload,
}

unfoldable pub validate_attestation : EvidenceAttestation → Try Unit
unfolding validate_runner_id is_lower_hex
validate_attestation a =
    if not (eqb a.schema_version 1)
    then err (unsupported_schema a.schema_version 1)
    else if not (a.algorithm == "ed25519")
    then err (unsupported_algorithm a.algorithm)
    else (validate_runner_id a.runner_id >>= λ _.
        if not (is_lower_hex a.evidence_sha256 64)
          || (not (is_lower_hex a.public_key_sha256 64)
              || (not (is_lower_hex a.public_key 64) || not (is_lower_hex a.signature 128)))
        then err invalid_signature
        else ok tt)

abbrev pub public_or : Library → (path : String) → List ℕ → Try (List ℕ)
public_or library path bytes =
    if library.is_public bytes then ok bytes else err (invalid_key (display path))

unfoldable pub load_public_key : Library → Disk → (path : String) → Try (List ℕ)
unfolding read_key_file decode_array display
load_public_key library disk path = read_key_file disk path false >>= λ text.
    key_or path (decode_array 32 text) >>= λ bytes. public_or library path bytes

abbrev pub signature_or : Option (List ℕ) → Try (List ℕ)
signature_or none = err invalid_signature
signature_or (some bytes) = ok bytes

abbrev pub attestation_or : Option EvidenceAttestation → Try EvidenceAttestation
attestation_or none = err parse_attestation
attestation_or (some a) = ok a

-- `verify` from the comparison of the keys on
unfoldable pub check_signature :
    Library
    → (evidence_path : String) → (evidence trusted attested : List ℕ) → EvidenceAttestation
    → Try VerifySummary
unfolding sha256_hex decode_array signing_payload display
check_signature library evidence_path evidence trusted attested a =
    if not (trusted == attested)
    then err untrusted_public_key
    else if not (sha256_hex library attested == a.public_key_sha256)
    then err public_key_digest_mismatch
    else if not (sha256_hex library evidence == a.evidence_sha256)
    then err (evidence_digest_mismatch (display evidence_path))
    else (signature_or (decode_array 64 a.signature) >>= λ signature.
        if not (
          library.verify_strict trusted
            (signing_payload a.runner_id a.evidence_sha256 a.public_key a.public_key_sha256)
            signature)
        then err invalid_signature
        else ok (record {
          evidence_sha256 = sha256_hex library evidence;
          runner_id = a.runner_id;
          public_key_sha256 = a.public_key_sha256;
          signature_valid = true;
        }))

unfoldable pub verify :
    Library
    → Disk
    → (evidence_path attestation_path trusted_public_key_path : String) → Try VerifySummary
unfolding read_regular_file validate_attestation load_public_key decode_array check_signature
    display
verify library disk evidence_path attestation_path trusted_public_key_path =
    read_regular_file disk evidence_path >>= λ evidence.
    read_regular_file disk attestation_path >>= λ bytes.
    attestation_or (library.from_json bytes) >>= λ a. validate_attestation a >>= λ _.
    load_public_key library disk trusted_public_key_path >>= λ trusted.
    key_or attestation_path (decode_array 32 a.public_key) >>= λ attested.
    check_signature library evidence_path evidence trusted attested a
