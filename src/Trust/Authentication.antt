-- ===== src/Trust/Authentication.antt =====
-- service_identity.py: when `authenticate` succeeds.
use bhiv_qcg.Prelude.{
  ℕ, String, ◌≡◌, refl, ◌↔◌, Bool, true, false, not, arith, ◌==◌, eq_iff, if◌then◌else◌,
}
use bhiv_qcg.Prelude.Dict.{contains}
use bhiv_qcg.Prelude.Hashing.{Hashing}
use bhiv_qcg.Trust.Proof.{NodeProof, Verifier, verify_node_proof}
use bhiv_qcg.Trust.Certificates.{
  ServiceCertificate, CertificateAuthority, is_expired, is_revoked, canonical_payload, ca_proof,
  verify_certificate, AuthResult, AuthReason, refused, authenticate,
}

-- A guard that gives False, on a failed test and on a test that holds.
guard_iff : (b x : Bool) → ((if not b then false else x) ≡ true) ↔ ((b ≡ true) × (x ≡ true))
guard_iff true x = ((λ e. (refl, e)), (λ e. e.1))
guard_iff false x = ((λ e. absurd (ground (arith, e))), (λ e. absurd (ground (arith, e.0))))

stop_iff : (b x : Bool) → ((if b then false else x) ≡ true) ↔ ((b ≡ false) × (x ≡ true))
stop_iff true x = ((λ e. absurd (ground (arith, e))), (λ e. absurd (ground (arith, e.0))))
stop_iff false x = ((λ e. (refl, e)), (λ e. e.1))

module _ (h : Hashing) (iso : ℕ → String) (verify : Verifier) where
  -- The proof is over this text, and its signature verifies under the key.
  abbrev pub IsProved : NodeProof → String → String → Type 0
  IsProved proof key text =
      (h.sha256 text ≡ proof.signed_hash) × (verify key proof.signature text ≡ true)

  verify_node_proof_iff :
      (proof : NodeProof) (key text : String)
      → (verify_node_proof h verify proof key text ≡ true) ↔ IsProved proof key text
  unfolding verify_node_proof
  verify_node_proof_iff proof key text =
      let both = guard_iff (h.sha256 text == proof.signed_hash) (verify key proof.signature text) in
      let same = eq_iff (h.sha256 text) proof.signed_hash in
      ((λ e. (same.0 (both.0 e).0, (both.0 e).1)), (λ e. both.1 (same.1 e.0, e.1)))

  -- Issued and not revoked, not expired, with its own hash and the authority's signature.
  pub record IsCertified (now : ℕ) (ca : CertificateAuthority) (cert : ServiceCertificate)
      : Type 0 where
    pub known : contains cert.serial_number ca.issued ≡ true
    pub not_revoked : is_revoked cert.serial_number ca ≡ false
    pub not_expired : is_expired now cert ≡ false
    pub hash_matches : cert.cert_hash ≡ h.sha256 (canonical_payload h iso cert)
    pub ca_signed :
        verify ca.ca_signer.identity.public_key cert.ca_signature (canonical_payload h iso cert)
        ≡ true

  verify_certificate_iff :
      (now : ℕ) (ca : CertificateAuthority) (cert : ServiceCertificate)
      → (verify_certificate h iso verify now ca cert ≡ true) ↔ IsCertified now ca cert
  unfolding verify_certificate ca_proof
  verify_certificate_iff now ca cert =
      let text = canonical_payload h iso cert in
      let proof =
        verify_node_proof h verify (ca_proof h iso ca cert) ca.ca_signer.identity.public_key text in
      let hashed = guard_iff (cert.cert_hash == h.sha256 text) proof in
      let fresh =
        stop_iff (is_expired now cert)
          (if not (cert.cert_hash == h.sha256 text) then false else proof) in
      let kept = stop_iff (is_revoked cert.serial_number ca) (
        if is_expired now cert
        then false
        else (if not (cert.cert_hash == h.sha256 text) then false else proof)) in
      let known = guard_iff (contains cert.serial_number ca.issued) (
        if is_revoked cert.serial_number ca
        then false
        else (if is_expired now cert
            then false
            else (if not (cert.cert_hash == h.sha256 text) then false else proof))) in
      let proved =
        verify_node_proof_iff (ca_proof h iso ca cert) ca.ca_signer.identity.public_key text in
      let same = eq_iff cert.cert_hash (h.sha256 text) in
      (
        (λ e.
            let (a, rest) = known.0 e in
            let (b, rest') = kept.0 rest in
            let (c, rest'') = fresh.0 rest' in
            let (d, p) = hashed.0 rest'' in
            record {
              known = a;
              not_revoked = b;
              not_expired = c;
              hash_matches = same.0 d;
              ca_signed = (proved.0 p).1;
            }),
        (λ c. known.1 (
          c.known,
          kept.1 (
            c.not_revoked,
            fresh.1 (c.not_expired, hashed.1 (same.1 c.hash_matches, proved.1 (refl, c.ca_signed))),
          ),
        )),
      )

  -- A refusal when a test fails, else the rest.
  refusal_iff :
      (b : Bool) (id : String) (why : AuthReason) (rest : AuthResult)
      → ((if not b then refused id why else rest).authenticated ≡ true)
        ↔ ((b ≡ true) × (rest.authenticated ≡ true))
  refusal_iff true id why rest = ((λ e. (refl, e)), (λ e. e.1))
  refusal_iff false id why rest =
      ((λ e. absurd (ground (arith, e))), (λ e. absurd (ground (arith, e.0))))

  -- What a successful authentication rests on.
  pub record IsAuthentic (now : ℕ) (ca : CertificateAuthority) (service_id : String)
      (proof : NodeProof) (cert : ServiceCertificate) (payload : String) : Type 0 where
    pub cert_names : cert.service_id ≡ service_id
    pub certified : IsCertified now ca cert
    pub proved : IsProved proof cert.public_key payload
    pub proof_names : proof.node_id ≡ service_id

  -- A service is authenticated exactly when the certificate names it, its serial was issued and not
  -- revoked, it has not expired and carries its own hash and the authority's signature, and the proof
  -- names the service, is over the payload, and verifies under the certificate's key.
  pub authenticate-iff-IsAuthentic :
      (now : ℕ) (ca : CertificateAuthority) (service_id : String) (proof : NodeProof)
      (cert : ServiceCertificate) (payload : String)
      → ((authenticate h iso verify now ca service_id proof cert payload).authenticated ≡ true)
        ↔ IsAuthentic now ca service_id proof cert payload
  unfolding authenticate
  authenticate-iff-IsAuthentic now ca service_id proof cert payload =
      let named = refusal_iff (cert.service_id == service_id) service_id _ _ in
      let valid = refusal_iff (verify_certificate h iso verify now ca cert) service_id _ _ in
      let signed =
        refusal_iff (verify_node_proof h verify proof cert.public_key payload) service_id _ _ in
      let proof_named = refusal_iff (proof.node_id == service_id) service_id _ _ in
      let certificate = verify_certificate_iff now ca cert in
      let proved = verify_node_proof_iff proof cert.public_key payload in
      (
        (λ e.
            let (a, rest) = named.0 e in
            let (b, rest') = valid.0 rest in
            let (c, rest'') = signed.0 rest' in
            let (d, last) = proof_named.0 rest'' in
            record {
              cert_names = (eq_iff cert.service_id service_id).0 a;
              certified = certificate.0 b;
              proved = proved.0 c;
              proof_names = (eq_iff proof.node_id service_id).0 d;
            }),
        (λ r. named.1 (
          (eq_iff cert.service_id service_id).1 r.cert_names,
          valid.1 (
            certificate.1 r.certified,
            signed.1 (
              proved.1 r.proved,
              proof_named.1 ((eq_iff proof.node_id service_id).1 r.proof_names, refl),
            ),
          ),
        )),
      )
