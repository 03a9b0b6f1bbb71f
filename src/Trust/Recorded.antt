-- ===== src/Trust/Recorded.antt =====
-- trust_chain.py: a chain that `add_handoff` records.
use mathlib.Core.List.{append_assoc, append-nil}
use bhiv_qcg.Prelude.{String, ◌≡◌, sym, ◌∙◌, true, Option, none, some, List, [], ◌∷◌, ◌++◌, map}
use bhiv_qcg.Prelude.Dict.{lookup}
use bhiv_qcg.Prelude.Hashing.{Hashing}
use bhiv_qcg.Trust.Proof.{NodeIdentity, Verifier, NodeSigner, IsSound, sign_payload}
use bhiv_qcg.Trust.Custody.{NodeRegistry, TrustChainLink, add_handoff, verify_chain}
use bhiv_qcg.Trust.Verified.{IsSigned, Follows, IsCustody, verify_chain-iff-IsCustody}

pub record Handoff : Type 0 where
  pub signer : NodeSigner
  pub to_identity : NodeIdentity
  pub action : String
  pub payload_hash : String

module _ (h : Hashing) where
  unfoldable pub record_all : List Handoff → List TrustChainLink → List TrustChainLink
  record_all [] links = links
  record_all (x ∷ xs) links =
      record_all xs (add_handoff h x.signer x.to_identity x.action x.payload_hash links).1

  abbrev pub link_of : Handoff → TrustChainLink
  link_of x = (add_handoff h x.signer x.to_identity x.action x.payload_hash []).0

  -- Each signer is sound and registered, and is the receiver of the handoff before.
  abbrev pub IsReady : Verifier → NodeRegistry → Option TrustChainLink → List Handoff → Type 0
  IsReady verify nodes prev [] = Unit
  IsReady verify nodes prev (x ∷ xs) =
      IsSound verify x.signer
      × (lookup x.signer.identity.node_id nodes ≡ some x.signer.identity)
      × Follows prev (link_of x)
      × IsReady verify nodes (some (link_of x)) xs

  record_all-map :
      (xs : List Handoff) (links : List TrustChainLink)
      → record_all xs links ≡ links ++ map link_of xs
  unfolding record_all add_handoff
  record_all-map [] links = sym (append-nil links)
  record_all-map (x ∷ xs) links =
      record_all-map xs (links ++ link_of x ∷ [])
      ∙ append_assoc links (link_of x ∷ []) (map link_of xs)

  IsSigned-link_of :
      (verify : Verifier) (nodes : NodeRegistry) (x : Handoff)
      → IsSound verify x.signer
      → lookup x.signer.identity.node_id nodes ≡ some x.signer.identity
      → IsSigned h verify (link_of x) (lookup (link_of x).from_node nodes)
  unfolding add_handoff sign_payload
  IsSigned-link_of verify nodes x sound here = rw here (sound _)

  ready-IsCustody :
      (verify : Verifier) (nodes : NodeRegistry) (prev : Option TrustChainLink) (xs : List Handoff)
      → IsReady verify nodes prev xs
      → IsCustody h verify nodes prev (map link_of xs)
  ready-IsCustody verify nodes prev [] r = tt
  ready-IsCustody verify nodes prev (x ∷ xs) r = (
    IsSigned-link_of verify nodes x r.0 r.1,
    r.2,
    ready-IsCustody verify nodes (some (link_of x)) xs r.3,
  )

  -- Handoffs that are recorded one after the other on an empty chain pass the verification, when each
  -- signer is registered with its own key, its signatures verify, and it is the receiver of the handoff before.
  record_all-verifies :
      (verify : Verifier) (nodes : NodeRegistry) (xs : List Handoff)
      → IsReady verify nodes none xs
      → (verify_chain h verify nodes (record_all xs [])).0 ≡ true
  record_all-verifies verify nodes xs r =
      (verify_chain-iff-IsCustody h verify nodes (record_all xs [])).1
        (rw (record_all-map xs []) (ready-IsCustody verify nodes none xs r))
