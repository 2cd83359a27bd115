-- ===== src/Contract/Signing.antt =====
-- What a signature of internal/controlcontract/envelope.go covers, and what Verify establishes.
use anix_ops_sd_wan.Base.{
  ℕ, ◌<◌, eq_iff, eq_refl, ltb, eqb, length, Bytes, utf8_inj, hex, prefixed, prefixed_inj,
  format_uint_inj, true, not, ◌≡◌, refl, some, List, [], ◌∷◌, arith, if◌then◌else◌, Option-cases,
  ok, Outcome-cases, >>=-succeeded, >>-succeeded, reject, inl, inr,
}
use anix_ops_sd_wan.Net.{Net}
use anix_ops_sd_wan.Contract.{Profile, Hosts}
use anix_ops_sd_wan.Contract.Checks.{validate_profile}
use anix_ops_sd_wan.Contract.Envelope.{
  Codecs, UnsignedEnvelope, SignedEnvelope, field_too_long, public_key_required,
  private_key_required, signature_algorithm, verification_failed, expired, profile_principal_id,
  validate_metadata, signing_fields, write_fields, signing_input_v1, validate_integrity,
  parse_profile, validate_profile_binding, validate_envelope, Signer, new_signer, sign, verify,
}

module _ (codecs : Codecs) where
  write_fields_inj :
      (fs gs : List Bytes) (b : Bytes)
      → length fs ≡ length gs
      → write_fields codecs fs ≡ ok b
      → write_fields codecs gs ≡ ok b
      → fs ≡ gs
  unfolding write_fields
  write_fields_inj [] [] b e h k = refl
  write_fields_inj [] (g ∷ gs) b e h k = ground arith
  write_fields_inj (f ∷ fs) [] b e h k = ground arith
  write_fields_inj (f ∷ fs) (g ∷ gs) b e h k =
      let (long, h₁) = >>-succeeded (reject (ltb 0xffffffff (length f)) field_too_long) _ h in
      let (long', k₁) = >>-succeeded (reject (ltb 0xffffffff (length g)) field_too_long) _ k in
      let (r, h₂, hr) = >>=-succeeded (write_fields codecs fs) _ h₁ in
      let (s, k₂, ks) = >>=-succeeded (write_fields codecs gs) _ k₁ in
      let same : prefixed f r ≡ prefixed g s = ground (arith, h₂, k₂) in
      let (first, rest) = prefixed_inj f g r s (ground arith) (ground arith) same in
      let others = write_fields_inj fs gs s (ground arith) (rw (← rest) hr) ks in cc (first, others)

  -- The two envelopes are the same but for payloads with one digest.
  pub record AreAlike (e f : UnsignedEnvelope) : Type 0 where
    pub schema_version : e.schema_version ≡ f.schema_version
    pub bundle_kind : e.bundle_kind ≡ f.bundle_kind
    pub bundle_id : e.bundle_id ≡ f.bundle_id
    pub tenant_id : e.tenant_id ≡ f.tenant_id
    pub target_id : e.target_id ≡ f.target_id
    pub sequence : e.sequence ≡ f.sequence
    pub issued_at : e.issued_at ≡ f.issued_at
    pub expires_at : e.expires_at ≡ f.expires_at
    pub key_id : e.key_id ≡ f.key_id
    pub digest : codecs.sha256 e.payload ≡ codecs.sha256 f.payload

  -- Where the text of a time tells it apart from all others, the signing input tells envelopes
  -- apart: two envelopes with the same input agree in every field, and in the digest of the payload.
  pub signing_input_v1_inj :
      (e f : UnsignedEnvelope) (input : Bytes)
      → ((t u : ℕ) → codecs.format_time t ≡ codecs.format_time u → t ≡ u)
      → signing_input_v1 codecs e ≡ ok input
      → signing_input_v1 codecs f ≡ ok input
      → AreAlike e f
  unfolding signing_input_v1 signing_fields
  signing_input_v1_inj e f input time h k =
      let (m, written) = >>-succeeded (validate_metadata codecs e) _ h in
      let (n, written') = >>-succeeded (validate_metadata codecs f) _ k in
      let same =
        write_fields_inj (signing_fields codecs e) (signing_fields codecs f) input refl written
          written' in
      record {
        schema_version = utf8_inj _ _ (cc same);
        bundle_kind = utf8_inj _ _ (cc same);
        bundle_id = utf8_inj _ _ (cc same);
        tenant_id = utf8_inj _ _ (cc same);
        target_id = utf8_inj _ _ (cc same);
        sequence = format_uint_inj _ _ (utf8_inj _ _ (cc same));
        issued_at = time _ _ (utf8_inj _ _ (cc same));
        expires_at = time _ _ (utf8_inj _ _ (cc same));
        key_id = utf8_inj _ _ (cc same);
        digest = cc same;
      }

  module _ (net : Net) (hosts : Hosts) where
    -- The time at which an envelope is judged.
    abbrev pub judged_at : ℕ → ℕ → ℕ
    judged_at now clock = if eqb now 0 then clock else now

    -- What a verification found: the signature over the input, the digest, the lifetime, and a valid
    -- profile in the payload for the kind and the target that the envelope names.
    pub record IsAuthentic (s : Signer codecs net hosts) (signed : SignedEnvelope) (at : ℕ)
        : Type 0 where
      pub input : Bytes
      pub signature : Bytes
      pub profile : Profile
      pub signed_input : signing_input_v1 codecs signed.envelope ≡ ok input
      pub decoded : codecs.decode_base64 signed.signature ≡ some signature
      pub verified : codecs.ed25519_verify s.own_public_key input signature ≡ true
      pub digest : signed.payload_sha256 ≡ hex (codecs.sha256 signed.envelope.payload)
      pub alive : at < signed.envelope.expires_at
      pub payload : codecs.decode_profile signed.envelope.payload ≡ some profile
      pub valid : validate_profile net hosts profile ≡ ok tt
      pub schema : profile.schema_version ≡ signed.envelope.schema_version
      pub kind : profile.kind ≡ signed.envelope.bundle_kind
      pub target : profile_principal_id profile ≡ signed.envelope.target_id

    binding-parts :
        (e : UnsignedEnvelope)
        → validate_profile_binding codecs net hosts e ≡ ok tt
        → (profile : Profile) × (codecs.decode_profile e.payload ≡ some profile)
          × (validate_profile net hosts profile ≡ ok tt)
          × (profile.schema_version ≡ e.schema_version)
          × (profile.kind ≡ e.bundle_kind)
          × (profile_principal_id profile ≡ e.target_id)
    unfolding validate_profile_binding parse_profile
    binding-parts e h = elim (Option-cases (codecs.decode_profile e.payload)) [
      | inl absent ↦ absurd (ground (arith, h, absent))
      | inr (p, there) ↦ elim (Outcome-cases (validate_profile net hosts p)) [
        | inr (why, bad) ↦ absurd (ground (arith, h, there, bad))
        | inl (u, valid) ↦ (
          p,
          there,
          valid,
          ground (arith, h, there, valid, eq_iff p.schema_version e.schema_version),
          ground (arith, h, there, valid, eq_iff p.kind e.bundle_kind),
          ground (arith, h, there, valid, eq_iff (profile_principal_id p) e.target_id),
        )
      ]
    ]

    integrity-parts :
        (signed : SignedEnvelope) (signature : Bytes)
        → validate_integrity codecs signed ≡ ok signature
        → (codecs.decode_base64 signed.signature ≡ some signature)
          × (signed.payload_sha256 ≡ hex (codecs.sha256 signed.envelope.payload))
    unfolding validate_integrity
    integrity-parts signed signature h =
        let digest = hex (codecs.sha256 signed.envelope.payload) in
        elim (Option-cases (codecs.decode_base64 signed.signature)) [
          | inl absent ↦ absurd (ground (arith, h, absent))
          | inr (found, there) ↦ (
            ground (arith, h, there),
            ground (arith, h, there, eq_iff signed.payload_sha256 digest),
          )
        ]

    -- An envelope that Verify accepts carries a signature of its signing input for the verifier's
    -- key, the digest of its payload, and a valid profile of the kind and for the target that it
    -- names, and it has not expired at the time given (or at the clock's, for a zero time).
    pub verify-IsAuthentic :
        (s : Signer codecs net hosts) (signed : SignedEnvelope) (now clock : ℕ)
        → verify codecs net hosts s signed now clock ≡ ok tt
        → IsAuthentic s signed (judged_at now clock)
    unfolding verify
    verify-IsAuthentic s signed now clock h =
        let at = judged_at now clock in
        let e = signed.envelope in
        let (key, h₁) =
          >>-succeeded (reject (not (eqb (length s.own_public_key) 32)) public_key_required) _ h in
        let (signature, h₂, whole) = >>=-succeeded (validate_integrity codecs signed) _ h₁ in
        let (input, h₃, written) = >>=-succeeded (signing_input_v1 codecs e) _ h₂ in
        let (checks, h₄) =
          >>-succeeded
            (reject (not (codecs.ed25519_verify s.own_public_key input signature))
              verification_failed)
            _ h₃ in
        let (alive, bound) =
          >>-succeeded (reject (not (ltb at e.expires_at)) (expired e.expires_at)) _ h₄ in
        let (decoded, digest) = integrity-parts signed signature whole in
        let (profile, payload, valid, schema, kind, target) = binding-parts e bound in
        record {
          input = input;
          signature = signature;
          profile = profile;
          signed_input = written;
          decoded = decoded;
          verified = ground arith;
          digest = digest;
          alive = ground arith;
          payload = payload;
          valid = valid;
          schema = schema;
          kind = kind;
          target = target;
        }

    envelope-parts :
        (e : UnsignedEnvelope)
        → validate_envelope codecs net hosts e ≡ ok tt
        → (validate_metadata codecs e ≡ ok tt)
          × (validate_profile_binding codecs net hosts e ≡ ok tt)
    unfolding validate_envelope
    envelope-parts e h = >>-succeeded (validate_metadata codecs e) _ h

    -- What Sign returns for a key of the right size, Verify with that key accepts until the
    -- envelope expires: base64 decodes what it encodes, and an ed25519 signature has 64 bytes and
    -- passes for the public key of the private one.
    pub verify-sign :
        (k : Bytes) (s : Signer codecs net hosts) (e : UnsignedEnvelope) (signed : SignedEnvelope)
        (now clock : ℕ)
        → ((b : Bytes) → codecs.decode_base64 (codecs.encode_base64 b) ≡ some b)
        → ((m : Bytes) → length (codecs.ed25519_sign k m) ≡ 64)
        → ((m : Bytes)
            → codecs.ed25519_verify (codecs.public_key k) m (codecs.ed25519_sign k m) ≡ true)
        → new_signer codecs net hosts k ≡ ok s
        → sign codecs net hosts s e ≡ ok signed
        → judged_at now clock < e.expires_at
        → verify codecs net hosts s signed now clock ≡ ok tt
    unfolding verify sign new_signer validate_integrity
    verify-sign k s e signed now clock base64 size passes made h alive =
        let (long, h₁) =
          >>-succeeded (reject (not (eqb (length s.private_key) 64)) private_key_required) _ h in
        let (whole, h₂) = >>-succeeded (validate_envelope codecs net hosts e) _ h₁ in
        let (input, h₃, written) = >>=-succeeded (signing_input_v1 codecs e) _ h₂ in
        let (metadata, bound) = envelope-parts e whole in
        let signature = codecs.ed25519_sign k input in
        let eq : signed ≡ record {
          envelope = e;
          algorithm = signature_algorithm;
          payload_sha256 = hex (codecs.sha256 e.payload);
          signature = codecs.encode_base64 signature;
        } =
          ground (arith, made, h₃) in
        let own : s.own_public_key ≡ codecs.public_key k = ground (arith, made) in
        let size_of_key : length (codecs.public_key k) ≡ 32 = ground (arith, made) in
        ground (
          arith,
          eq,
          own,
          size_of_key,
          metadata,
          bound,
          written,
          base64 signature,
          size input,
          passes input,
          eq_refl signature_algorithm,
          eq_refl (hex (codecs.sha256 e.payload)),
          alive,
        )
