-- ===== src/Attestation/Data.antt =====
-- crates/chromifer-attestation/src/lib.rs: attestations, options and errors, and what the crate asks of
-- ed25519, SHA-256 and JSON.
use chromifer.Base.{ℕ, String, Bool, List, Option}

pub record SignOptions : Type 0 where
  pub evidence : String
  pub private_key : String
  pub output : String
  pub runner_id : String
  pub force : Bool
  pub check : Bool

pub record PublicKeyOptions : Type 0 where
  pub private_key : String
  pub output : String
  pub force : Bool
  pub check : Bool

pub record EvidenceAttestation : Type 0 where
  pub schema_version : ℕ
  pub algorithm : String
  pub runner_id : String
  pub evidence_sha256 : String
  pub public_key_sha256 : String
  pub public_key : String
  pub signature : String

pub record SignSummary : Type 0 where
  pub evidence_sha256 : String
  pub runner_id : String
  pub public_key_sha256 : String
  pub output : String
  pub checked : Bool

pub record VerifySummary : Type 0 where
  pub evidence_sha256 : String
  pub runner_id : String
  pub public_key_sha256 : String
  pub signature_valid : Bool

pub data AttestationError : Type 0 where
  invalid_runner_id : AttestationError
  invalid_file insecure_private_key_permissions read_file invalid_key :
      (path : String) → AttestationError
  parse_attestation : AttestationError
  unsupported_schema : (found supported : ℕ) → AttestationError
  unsupported_algorithm : String → AttestationError
  untrusted_public_key public_key_digest_mismatch : AttestationError
  evidence_digest_mismatch : (path : String) → AttestationError
  invalid_signature : AttestationError
  output_exists : (path : String) → AttestationError
  output_aliases_input : (output input : String) → AttestationError
  drift write_file : (path : String) → AttestationError

-- The functions of the libraries, on bytes. A private key is given by its 32 bytes, and a public key
-- by its bytes, if `is_public` holds of them.
pub record Library : Type 0 where
  pub public_of : (secret : List ℕ) → List ℕ
  pub is_public : List ℕ → Bool
  pub sign : (secret message : List ℕ) → List ℕ
  pub verify_strict : (public message signature : List ℕ) → Bool
  pub sha256 : List ℕ → List ℕ
  pub to_json : EvidenceAttestation → Option (List ℕ)
  pub from_json : List ℕ → Option EvidenceAttestation
