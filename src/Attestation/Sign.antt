-- ===== src/Attestation/Sign.antt =====
-- crates/chromifer-attestation/src/lib.rs: `sign_and_write` and `derive_public_key`, with the reading of
-- keys. Secrets are overwritten in memory by the source alone.
use Prim.Native.Char.{code}
use Prim.Native.String.{[] as nil, ◌∷◌ as cons}
use chromifer.Base.{
  ℕ, String, Bool, true, not, ◌||◌, ◌&&◌, List, [], ◌∷◌, ◌++◌, Option, none, some, eqb, ltb, leb,
  ◌==◌, string_eq, if◌then◌else◌, length,
}
use chromifer.Base.Results.{ok, err, ◌>>=◌}
use chromifer.Base.Text.{as_bytes, all_codes, trim, char_of}
use chromifer.Attestation.Data.{
  SignOptions, PublicKeyOptions, EvidenceAttestation, SignSummary, invalid_runner_id, invalid_key,
  parse_attestation, Library,
}
use chromifer.Attestation.Hex.{encode_hex, decode_array, is_lower_hex}
use chromifer.Attestation.Disk.{
  Disk, Try, display, regular_file_metadata, read_regular_file, validate_private_permissions,
  content_or, reject_output_alias, write_or_check,
}

abbrev pub is_runner_byte : ℕ → Bool
is_runner_byte n =
    (leb b'0' n && leb n b'9')
    || ((leb b'A' n && leb n b'Z')
        || ((leb b'a' n && leb n b'z')
            || (eqb n b'.'
                || (eqb n b'_' || (eqb n b':' || (eqb n b'@' || (eqb n b'/' || eqb n b'-')))))))

unfoldable pub validate_runner_id : (value : String) → Try Unit
unfolding as_bytes all_codes
validate_runner_id value =
    if value == "" || (ltb 128 (length (as_bytes value)) || not (all_codes is_runner_byte value))
    then err invalid_runner_id
    else ok tt

-- `std::str::from_utf8`, but that no text with a character outside ASCII is given: a key has none, and
-- the error is the same.
unfoldable pub ascii_text : List ℕ → Option String
ascii_text [] = some nil
ascii_text (b ∷ bytes) = push_char b (ascii_text bytes)
  where
    push_char : ℕ → Option String → Option String
    push_char b none = none
    push_char b (some s) = if ltb b 128 then some (cons (char_of b) s) else none

-- `text.strip_suffix(character).unwrap_or(text)`, by the character's number
unfoldable pub without_last : ℕ → String → String
without_last n nil = nil
without_last n (cons c nil) = if eqb (code c) n then nil else cons c nil
without_last n (cons c (cons d s)) = cons c (without_last n (cons d s))

abbrev pub checked_key : (path text : String) → Try String
checked_key path text =
    if not (eqb (length (as_bytes text)) 64)
      || (not (trim text == text) || not (is_lower_hex text 64))
    then err (invalid_key (display path))
    else ok text

abbrev pub key_text : (path : String) → Option String → Try String
key_text path none = err (invalid_key (display path))
key_text path (some text) = checked_key path (without_last 13 (without_last 10 text))

abbrev pub permitted : (path : String) (mode : ℕ) (private : Bool) → Try Unit
permitted path mode private = if private then validate_private_permissions path mode else ok tt

unfoldable pub read_key_file : Disk → (path : String) (private : Bool) → Try String
unfolding regular_file_metadata validate_private_permissions display ascii_text without_last
    is_lower_hex trim as_bytes
read_key_file disk path private = regular_file_metadata disk path >>= λ (number, mode).
    permitted path mode private >>= λ _.
    content_or path (disk.content number) >>= λ bytes. key_text path (ascii_text bytes)

abbrev pub key_or : (path : String) → Option (List ℕ) → Try (List ℕ)
key_or path none = err (invalid_key (display path))
key_or path (some bytes) = ok bytes

unfoldable pub load_private_key : Disk → (path : String) → Try (List ℕ)
unfolding read_key_file decode_array display
load_private_key disk path =
    read_key_file disk path true >>= λ text. key_or path (decode_array 32 text)

unfoldable pub sha256_hex : Library → List ℕ → String
unfolding encode_hex
sha256_hex library bytes = encode_hex (library.sha256 bytes)

unfoldable pub domain : List ℕ
unfolding as_bytes
domain = as_bytes "chromifer:evidence-attestation:v1\n"

-- The values of the loop, each with a line feed
abbrev pub payload_lines : List String → List ℕ
payload_lines [] = []
payload_lines (value ∷ rest) = as_bytes value ++ 10 ∷ payload_lines rest

unfoldable pub signing_payload :
    (runner_id evidence_sha256 public_key public_key_sha256 : String) → List ℕ
unfolding as_bytes domain
signing_payload runner_id evidence_sha256 public_key public_key_sha256 =
    domain ++ payload_lines (runner_id ∷ evidence_sha256 ∷ public_key ∷ public_key_sha256 ∷ [])

-- The attestation that `sign_and_write` writes, for a private key
unfoldable pub attestation_of :
    Library → (runner_id : String) (evidence secret : List ℕ) → EvidenceAttestation
unfolding sha256_hex encode_hex signing_payload
attestation_of library runner_id evidence secret =
    let public = library.public_of secret in
    let evidence_sha256 = sha256_hex library evidence in
    let public_key = encode_hex public in
    let public_key_sha256 = sha256_hex library public in
    record {
      schema_version = 1;
      algorithm = "ed25519";
      runner_id = runner_id;
      evidence_sha256 = evidence_sha256;
      public_key_sha256 = public_key_sha256;
      public_key = public_key;
      signature = encode_hex (
          library.sign secret
            (signing_payload runner_id evidence_sha256 public_key public_key_sha256));
    }

abbrev pub json_line : Option (List ℕ) → Try (List ℕ)
json_line none = err parse_attestation
json_line (some bytes) = ok (bytes ++ 10 ∷ [])

unfoldable pub sign_and_write : Library → Disk → SignOptions → Try (SignSummary × Disk)
unfolding validate_runner_id reject_output_alias read_regular_file load_private_key attestation_of
    write_or_check display
sign_and_write library disk options = validate_runner_id options.runner_id >>= λ _.
    reject_output_alias disk options.output options.evidence >>= λ _.
    reject_output_alias disk options.output options.private_key >>= λ _.
    read_regular_file disk options.evidence >>= λ evidence.
    load_private_key disk options.private_key >>= λ secret.
    let a = attestation_of library options.runner_id evidence secret in
    json_line (library.to_json a) >>= λ json.
    write_or_check disk options.output json options.force options.check >>= λ disk. ok (
      record {
        evidence_sha256 = a.evidence_sha256;
        runner_id = a.runner_id;
        public_key_sha256 = a.public_key_sha256;
        output = display options.output;
        checked = options.check;
      },
      disk,
    )

-- The text that is written is the key with a line feed; the result is without it.
unfoldable pub derive_public_key : Library → Disk → PublicKeyOptions → Try (String × Disk)
unfolding reject_output_alias load_private_key encode_hex write_or_check as_bytes
derive_public_key library disk options =
    reject_output_alias disk options.output options.private_key >>= λ _.
    load_private_key disk options.private_key >>= λ secret.
    let text = encode_hex (library.public_of secret) in
    write_or_check disk options.output (as_bytes text ++ 10 ∷ []) options.force options.check
    >>= λ disk. ok (text, disk)
