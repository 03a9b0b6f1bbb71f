-- ===== src/Examples/Trust.antt =====
-- A chain of two handoffs and an issued certificate on which the theorems are applied.
use Prim.Native.String.{◌++◌ as text_append}
use bhiv_qcg.Prelude.{String, ◌≡◌, refl, ◌↔◌, true, none, some, List, [], ◌∷◌, ◌==◌, eq_iff}
use bhiv_qcg.Prelude.Dict.{lookup}
use bhiv_qcg.Trust.Proof.{NodeIdentity, NodeProof, Verifier, NodeSigner, IsSound}
use bhiv_qcg.Trust.Custody.{NodeRegistry, verify_chain}
use bhiv_qcg.Trust.Verified.{IsCustody, verify_chain-iff-IsCustody}
use bhiv_qcg.Trust.Recorded.{Handoff, record_all}
use bhiv_qcg.Trust.Certificates.{
  ServiceCertificate, CertificateAuthority, issue_certificate, authenticate,
}
use bhiv_qcg.Trust.Authentication.{IsAuthentic, authenticate-iff-IsAuthentic}
use bhiv_qcg.Examples.Toy.{plain}

-- A stand-in for ECDSA: the signature is the key before the text.
abbrev toy_verify : Verifier
toy_verify key signature text = signature == text_append key text

abbrev node : String → NodeIdentity
node name = record { node_id = name; public_key = name; node_role = "NODE"; version = "1.0.0" }

abbrev signer : String → NodeSigner
signer name = record { identity = node name; sign = λ s. text_append name s }

signer-IsSound : (name : String) → IsSound toy_verify (signer name)
signer-IsSound name text = (eq_iff (text_append name text) (text_append name text)).1 refl

abbrev handoff : String → String → Handoff
handoff a b = record {
  signer = signer a;
  to_identity = node b;
  action = "EXECUTE";
  payload_hash = "p";
}

abbrev nodes : NodeRegistry
nodes = ("a", node "a") ∷ ("b", node "b") ∷ []

abbrev handoffs : List Handoff
handoffs = handoff "a" "b" ∷ handoff "b" "c" ∷ []

verify_chain-iff-IsCustody_example :
    ((verify_chain (plain "k") toy_verify nodes (record_all (plain "k") handoffs [])).0 ≡ true)
    ↔ IsCustody (plain "k") toy_verify nodes none (record_all (plain "k") handoffs [])
verify_chain-iff-IsCustody_example =
    verify_chain-iff-IsCustody (plain "k") toy_verify nodes (record_all (plain "k") handoffs [])

found_a : lookup "a" nodes ≡ some (node "a")
unfolding lookup
found_a = refl

found_b : lookup "b" nodes ≡ some (node "b")
unfolding lookup
found_b = refl

abbrev authority : CertificateAuthority
authority = record { ca_signer = signer "ca"; issued = []; revoked_serials = [] }

abbrev issued : ServiceCertificate × CertificateAuthority
issued = issue_certificate (plain "serial_number") (λ n. "t") "svc" "key" 60 "CERT-1" 5 authority

abbrev proof : NodeProof
proof = record { node_id = "svc"; signature = "keypayload"; signed_hash = "#payload" }

authenticate-iff-IsAuthentic_example :
    ((authenticate
        (plain "serial_number")
        (λ n. "t")
        toy_verify
        9
        issued.1
        "svc"
        proof
        issued.0
        "payload").authenticated
      ≡ true)
    ↔ IsAuthentic
        (plain "serial_number")
        (λ n. "t")
        toy_verify
        9
        issued.1
        "svc"
        proof
        issued.0
        "payload"
authenticate-iff-IsAuthentic_example =
    authenticate-iff-IsAuthentic (plain "serial_number") (λ n. "t") toy_verify 9 issued.1 "svc"
      proof issued.0 "payload"
