-- ===== src/Trust/Certificates.antt =====
-- service_identity.py: `ServiceCertificateAuthority`. Times are numbers of microseconds; the stamps that
-- stand in a certificate are their texts, by a function `iso` that the module takes as a parameter.
-- The constant trust level and the time of a result are left out.
use bhiv_qcg.Prelude.{
  ℕ, ◌+◌, ◌*◌, String, Bool, true, false, not, ◌&&◌, List, [], ◌∷◌, ◌==◌, ltb, if◌then◌else◌, mem,
}
use bhiv_qcg.Prelude.Dict.{Dict, insert, contains}
use bhiv_qcg.Prelude.Hashing.{Hashing, str, object, end, field}
use bhiv_qcg.Trust.Proof.{NodeProof, Verifier, NodeSigner, sign_payload, verify_node_proof}

pub record ServiceCertificate : Type 0 where
  pub serial_number : String
  pub service_id : String
  pub public_key : String
  pub issuer_id : String
  pub issued_at : ℕ
  pub expires_at : ℕ
  pub ca_signature : String
  pub cert_hash : String

pub record CertificateAuthority : Type 0 where
  pub ca_signer : NodeSigner
  pub issued : Dict ServiceCertificate
  pub revoked_serials : List String

abbrev pub is_expired : ℕ → ServiceCertificate → Bool
is_expired now cert = ltb cert.expires_at now

unfoldable pub is_revoked : String → CertificateAuthority → Bool
is_revoked serial ca = mem serial ca.revoked_serials

unfoldable pub revoke_certificate : String → CertificateAuthority → Bool × CertificateAuthority
revoke_certificate serial ca =
    if contains serial ca.issued
    then (true, record ca { revoked_serials = serial ∷ ca.revoked_serials })
    else (false, ca)

unfoldable pub active_certificates :
    ℕ → CertificateAuthority → Dict ServiceCertificate → List ServiceCertificate
active_certificates now ca [] = []
active_certificates now ca ((serial, cert) ∷ certs) =
    let rest = active_certificates now ca certs in
    if not (is_revoked serial ca) && not (is_expired now cert) then cert ∷ rest else rest

pub data AuthReason : Type 0 where
  service_mismatch : String → String → AuthReason
  certificate_invalid certificate_expired certificate_revoked proof_failed : AuthReason
  proof_mismatch : String → String → AuthReason
  successful : AuthReason

pub record AuthResult : Type 0 where
  pub authenticated : Bool
  pub service_id : String
  pub reason : AuthReason
  pub certificate_serial : String

abbrev pub refused : String → AuthReason → AuthResult
refused service_id why = record {
  authenticated = false;
  service_id = service_id;
  reason = why;
  certificate_serial = "";
}

module _ (h : Hashing) (iso : ℕ → String) where
  unfoldable pub canonical_payload : ServiceCertificate → String
  canonical_payload cert = h.dumps (
      object (
        field "serial_number" (str cert.serial_number) (
          field "service_id" (str cert.service_id) (
            field "public_key" (str cert.public_key) (
              field "issuer_id" (str cert.issuer_id) (
                field "issued_at" (str (iso cert.issued_at))
                  (field "expires_at" (str (iso cert.expires_at)) end)))))))

  -- The certificate before it is signed
  abbrev pub draft : String → String → String → String → ℕ → ℕ → ServiceCertificate
  draft ca_id serial service_id public_key now ttl_seconds = record {
    serial_number = serial;
    service_id = service_id;
    public_key = public_key;
    issuer_id = ca_id;
    issued_at = now;
    expires_at = now + ttl_seconds * 1_000_000;
    ca_signature = "";
    cert_hash = "";
  }

  unfoldable pub signed : NodeSigner → ServiceCertificate → ServiceCertificate
  signed signer cert = record cert {
    ca_signature = (sign_payload h signer (canonical_payload cert)).signature;
    cert_hash = h.sha256 (canonical_payload cert);
  }

  -- The serial, with its fresh part, and the time are arguments.
  unfoldable pub issue_certificate :
      String
      → String
      → ℕ
      → String
      → ℕ
      → CertificateAuthority
      → ServiceCertificate × CertificateAuthority
  issue_certificate service_id public_key ttl_seconds serial now ca =
      let cert =
        signed ca.ca_signer
          (draft ca.ca_signer.identity.node_id serial service_id public_key now ttl_seconds) in
      (cert, record ca { issued = insert serial cert ca.issued })

  -- The proof that `verify_certificate` rebuilds
  unfoldable pub ca_proof : CertificateAuthority → ServiceCertificate → NodeProof
  ca_proof ca cert = record {
    node_id = ca.ca_signer.identity.node_id;
    signature = cert.ca_signature;
    signed_hash = h.sha256 (canonical_payload cert);
  }

  unfoldable pub verify_certificate :
      Verifier → ℕ → CertificateAuthority → ServiceCertificate → Bool
  verify_certificate verify now ca cert =
      if not (contains cert.serial_number ca.issued)
      then false
      else if is_revoked cert.serial_number ca
      then false
      else if is_expired now cert
      then false
      else if not (cert.cert_hash == h.sha256 (canonical_payload cert))
      then false
      else verify_node_proof h verify (ca_proof ca cert) ca.ca_signer.identity.public_key
          (canonical_payload cert)

  -- `MutualAuthenticator.authenticate`, with the text of the payload
  unfoldable pub authenticate :
      Verifier
      → ℕ
      → CertificateAuthority
      → String
      → NodeProof
      → ServiceCertificate
      → String
      → AuthResult
  authenticate verify now ca service_id proof cert payload =
      if not (cert.service_id == service_id)
      then refused service_id (service_mismatch cert.service_id service_id)
      else if not (verify_certificate verify now ca cert)
      then refused service_id (
          if is_expired now cert
          then certificate_expired
          else if is_revoked cert.serial_number ca
          then certificate_revoked
          else certificate_invalid)
      else if not (verify_node_proof h verify proof cert.public_key payload)
      then refused service_id proof_failed
      else if not (proof.node_id == service_id)
      then refused service_id (proof_mismatch proof.node_id service_id)
      else record {
        authenticated = true;
        service_id = service_id;
        reason = successful;
        certificate_serial = cert.serial_number;
      }
