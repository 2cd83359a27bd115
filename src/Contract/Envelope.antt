-- ===== src/Contract/Envelope.antt =====
-- internal/controlcontract/envelope.go: the envelope around a profile, its signing input, Sign and
-- Verify. JSON, base64, SHA-256, ed25519 and the text of a time are a record of functions.
use anix_ops_sd_wan.Base.{
  ℕ, Text, str, ◌==◌, ltb, eqb, length, Bytes, utf8, hex, prefixed, format_uint, Bool, not, ◌&&◌,
  Option, none, some, List, [], ◌∷◌, if◌then◌else◌, Outcome, ok, err, ◌>>=◌, ◌>>◌, reject,
}
use anix_ops_sd_wan.Net.{Net}
use anix_ops_sd_wan.Contract.{
  Profile, ClientProfile, PopProfile, ProfileError, Hosts, schema_version_v1, kind_client, kind_pop,
  validate_identifier,
}
use anix_ops_sd_wan.Contract.Checks.{validate_profile}

pub record Codecs : Type 0 where
  -- len(bytes.TrimSpace(b)) == 0, and json.Valid
  pub is_blank_json : Bytes → Bool
  pub is_valid_json : Bytes → Bool
  -- decodeStrictJSON of a profile: one value, no unknown field
  pub decode_profile : Bytes → Option Profile
  -- t.UTC().Format(time.RFC3339Nano)
  pub format_time : ℕ → Text
  pub sha256 : Bytes → Bytes
  -- base64.StdEncoding
  pub encode_base64 : Bytes → Text
  pub decode_base64 : Text → Option Bytes
  -- ed25519: the public key of a private one, Sign and Verify
  pub public_key : Bytes → Bytes
  pub ed25519_sign : Bytes → Bytes → Bytes
  pub ed25519_verify : Bytes → Bytes → Bytes → Bool

pub record UnsignedEnvelope : Type 0 where
  pub schema_version : Text
  pub bundle_kind : Text
  pub bundle_id : Text
  pub tenant_id : Text
  pub target_id : Text
  pub sequence : ℕ
  pub issued_at : ℕ
  pub expires_at : ℕ
  pub key_id : Text
  pub payload : Bytes

pub record SignedEnvelope : Type 0 where
  pub envelope : UnsignedEnvelope
  pub algorithm : Text
  pub payload_sha256 : Text
  pub signature : Text

pub data EnvelopeError : Type 0 where
  unsupported_schema unsupported_kind unsupported_algorithm : Text → EnvelopeError
  invalid_field : ProfileError → EnvelopeError
  sequence_required issued_required expires_required expires_early : EnvelopeError
  payload_required payload_invalid profile_undecodable : EnvelopeError
  schema_mismatch kind_mismatch target_mismatch : EnvelopeError
  hash_mismatch signature_undecodable signature_size field_too_long : EnvelopeError
  private_key_size public_key_size derive_failed private_key_required public_key_required :
      EnvelopeError
  verification_failed : EnvelopeError
  expired : ℕ → EnvelopeError

wrap : {A : Type 0} → Outcome ProfileError A → Outcome EnvelopeError A
wrap (err e) = err (invalid_field e)
wrap (ok a) = ok a

abbrev pub signature_algorithm : Text
signature_algorithm = str "ed25519"

principal_of_client : Option ClientProfile → Text
principal_of_client none = []
principal_of_client (some c) = c.principal_id

principal_of_pop : Option PopProfile → Text
principal_of_pop none = []
principal_of_pop (some p) = p.principal_id

unfoldable pub profile_principal_id : Profile → Text
unfolding principal_of_client principal_of_pop
profile_principal_id p =
    if p.kind == kind_client
    then principal_of_client p.client
    else if p.kind == kind_pop
    then principal_of_pop p.pop
    else []

module _ (codecs : Codecs) where
  open codecs use {
    is_blank_json, is_valid_json, decode_profile, format_time, sha256, encode_base64, decode_base64,
    public_key, ed25519_sign, ed25519_verify,
  }

  unfoldable pub validate_metadata : UnsignedEnvelope → Outcome EnvelopeError (Unit {0})
  unfolding wrap
  validate_metadata e = do
    reject (not (e.schema_version == schema_version_v1)) (unsupported_schema e.schema_version)
    reject (not (e.bundle_kind == kind_client) && not (e.bundle_kind == kind_pop))
        (unsupported_kind e.bundle_kind)
    wrap (validate_identifier (str "bundle id") e.bundle_id)
    wrap (validate_identifier (str "tenant id") e.tenant_id)
    wrap (validate_identifier (str "target ID") e.target_id)
    reject (eqb e.sequence 0) sequence_required
    reject (eqb e.issued_at 0) issued_required
    reject (eqb e.expires_at 0) expires_required
    reject (not (ltb e.issued_at e.expires_at)) expires_early
    wrap (validate_identifier (str "signing key id") e.key_id)
    reject (is_blank_json e.payload) payload_required
    reject (not (is_valid_json e.payload)) payload_invalid

  -- The domain, nine fields and the digest, in the order in which they are written.
  unfoldable pub signing_fields : UnsignedEnvelope → List Bytes
  signing_fields e =
      utf8 (str "anixops.sdwan.delivery-signature/v1")
      ∷ utf8 e.schema_version
      ∷ utf8 e.bundle_kind
      ∷ utf8 e.bundle_id
      ∷ utf8 e.tenant_id
      ∷ utf8 e.target_id
      ∷ utf8 (format_uint e.sequence)
      ∷ utf8 (format_time e.issued_at)
      ∷ utf8 (format_time e.expires_at)
      ∷ utf8 e.key_id
      ∷ sha256 e.payload
      ∷ []

  -- for _, field := range fields { writeLengthPrefixed(&output, field) }
  unfoldable pub write_fields : List Bytes → Outcome EnvelopeError Bytes
  write_fields [] = ok []
  write_fields (field ∷ fields) = do
    reject (ltb 0xffffffff (length field)) field_too_long
    rest ← write_fields fields
    ok (prefixed field rest)

  unfoldable pub signing_input_v1 : UnsignedEnvelope → Outcome EnvelopeError Bytes
  signing_input_v1 e = do validate_metadata e; write_fields (signing_fields e)

  decoded_signature : Option Bytes → Outcome EnvelopeError Bytes
  decoded_signature none = err signature_undecodable
  decoded_signature (some signature) = do
    reject (not (eqb (length signature) 64)) signature_size
    ok signature

  unfoldable pub validate_integrity : SignedEnvelope → Outcome EnvelopeError Bytes
  unfolding decoded_signature
  validate_integrity s = do
    reject (not (s.algorithm == signature_algorithm)) (unsupported_algorithm s.algorithm)
    validate_metadata s.envelope
    reject (not (s.payload_sha256 == hex (sha256 s.envelope.payload))) hash_mismatch
    decoded_signature (decode_base64 s.signature)

  module _ (net : Net) (hosts : Hosts) where
    parsed : Option Profile → Outcome EnvelopeError Profile
    parsed none = err profile_undecodable
    parsed (some profile) = do wrap (validate_profile net hosts profile); ok profile

    unfoldable pub parse_profile : Bytes → Outcome EnvelopeError Profile
    unfolding parsed wrap
    parse_profile payload = parsed (decode_profile payload)

    unfoldable pub validate_profile_binding : UnsignedEnvelope → Outcome EnvelopeError (Unit {0})
    validate_profile_binding e = do
      profile ← parse_profile e.payload
      reject (not (profile.schema_version == e.schema_version)) schema_mismatch
      reject (not (profile.kind == e.bundle_kind)) kind_mismatch
      reject (not (profile_principal_id profile == e.target_id)) target_mismatch

    unfoldable pub validate_envelope : UnsignedEnvelope → Outcome EnvelopeError (Unit {0})
    validate_envelope e = do validate_metadata e; validate_profile_binding e

    -- A verifier has no private key.
    pub record Signer : Type 0 where
      pub own_public_key : Bytes
      pub private_key : Bytes

    unfoldable pub new_signer : Bytes → Outcome EnvelopeError Signer
    new_signer private_key = do
      reject (not (eqb (length private_key) 64)) private_key_size
      reject (not (eqb (length (public_key private_key)) 32)) derive_failed
      ok (record { own_public_key = public_key private_key; private_key = private_key })

    unfoldable pub new_verifier : Bytes → Outcome EnvelopeError Signer
    new_verifier key = do
      reject (not (eqb (length key) 32)) public_key_size
      ok (record { own_public_key = key; private_key = [] })

    unfoldable pub sign : Signer → UnsignedEnvelope → Outcome EnvelopeError SignedEnvelope
    sign s e = do
      reject (not (eqb (length s.private_key) 64)) private_key_required
      validate_envelope e
      input ← signing_input_v1 e
      ok (record {
        envelope = e;
        algorithm = signature_algorithm;
        payload_sha256 = hex (sha256 e.payload);
        signature = encode_base64 (ed25519_sign s.private_key input);
      })

    -- `clock` is time.Now, which stands in for a zero `now`.
    unfoldable pub verify : Signer → SignedEnvelope → ℕ → ℕ → Outcome EnvelopeError (Unit {0})
    verify s signed now clock = do
      reject (not (eqb (length s.own_public_key) 32)) public_key_required
      signature ← validate_integrity signed
      input ← signing_input_v1 signed.envelope
      reject (not (ed25519_verify s.own_public_key input signature)) verification_failed
      let at = if eqb now 0 then clock else now
      reject (not (ltb at signed.envelope.expires_at)) (expired signed.envelope.expires_at)
      validate_profile_binding signed.envelope
