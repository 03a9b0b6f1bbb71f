-- ===== src/Trust/Verified.antt =====
-- trust_chain.py: when `verify_chain` passes, and that recorded handoffs do.
use bhiv_qcg.Prelude.{
  ℕ, ◌+◌, ◌≡◌, refl, ◌↔◌, inl, inr, true, Option, none, some, List, [], ◌∷◌, ◌++◌, arith, ◌==◌,
  eq_iff, eqb, Bool-cases, length,
}
use bhiv_qcg.Prelude.Dict.{lookup}
use bhiv_qcg.Prelude.Hashing.{Hashing}
use bhiv_qcg.Trust.Proof.{NodeIdentity, Verifier, verify_node_proof}
use bhiv_qcg.Trust.Custody.{
  NodeRegistry, TrustChainLink, TrustError, handoff_text, proof_of, signature_errors, break_errors,
  link_errors, errors_from, verify_chain,
}

-- The sender's signature over the handoff verifies under the key that is registered for it.
abbrev pub IsSigned : Hashing → Verifier → TrustChainLink → Option NodeIdentity → Type 0
IsSigned h verify l none = ⊥
IsSigned h verify l (some sender) = verify sender.public_key l.signature (handoff_text h l) ≡ true

abbrev pub Follows : Option TrustChainLink → TrustChainLink → Type 0
Follows none l = Unit
Follows (some prev) l = prev.to_node ≡ l.from_node

-- Each link is signed by a registered sender, and its sender is the receiver of the link before.
abbrev pub IsCustody :
    Hashing → Verifier → NodeRegistry → Option TrustChainLink → List TrustChainLink → Type 0
IsCustody h verify nodes prev [] = Unit
IsCustody h verify nodes prev (l ∷ links) =
    IsSigned h verify l (lookup l.from_node nodes)
    × Follows prev l
    × IsCustody h verify nodes (some l) links

append-empty {ℓ} : {A : Type ℓ} (xs ys : List A) → (xs ++ ys ≡ []) ↔ ((xs ≡ []) × (ys ≡ []))
append-empty [] ys = ((λ e. (refl, e)), (λ e. e.1))
append-empty (x ∷ xs) ys = ((λ e. absurd (ground (arith, e))), (λ e. absurd (ground (arith, e.0))))

module _ (h : Hashing) (verify : Verifier) where
  signature_errors_iff :
      (i : ℕ) (l : TrustChainLink) (sender : NodeIdentity)
      → (signature_errors h verify i l sender ≡ []) ↔ IsSigned h verify l (some sender)
  unfolding signature_errors verify_node_proof proof_of
  signature_errors_iff i l sender =
      rw ((eq_iff (h.sha256 (handoff_text h l)) (h.sha256 (handoff_text h l))).1 refl)
        (elim (Bool-cases (verify sender.public_key l.signature (handoff_text h l))) [
          | inl good ↦ rw good ((λ e. refl), (λ e. refl))
          | inr bad ↦ rw bad ((λ e. absurd (ground (arith, e))), (λ e. absurd (ground (arith, e))))
        ])

  break_errors_iff :
      (i : ℕ) (prev : Option TrustChainLink) (l : TrustChainLink)
      → (break_errors h verify i prev l ≡ []) ↔ Follows prev l
  unfolding break_errors
  break_errors_iff i none l = ((λ e. tt), (λ e. refl))
  break_errors_iff i (some prev) l = elim (Bool-cases (prev.to_node == l.from_node)) [
    | inl good ↦ rw good ((λ e. (eq_iff prev.to_node l.from_node).0 good), (λ e. refl))
    | inr bad ↦ rw bad (
      (λ e. absurd (ground (arith, e))),
      (λ e. absurd (ground (arith, bad, (eq_iff prev.to_node l.from_node).1 e))),
    )
  ]

  link_errors_iff :
      (i : ℕ) (prev : Option TrustChainLink) (l : TrustChainLink) (o : Option NodeIdentity)
      → (link_errors h verify i prev l o ≡ []) ↔ (IsSigned h verify l o × Follows prev l)
  unfolding link_errors
  link_errors_iff i prev l none = ((λ e. absurd (ground (arith, e))), (λ e. absurd e.0))
  link_errors_iff i prev l (some sender) =
      let both =
        append-empty (signature_errors h verify i l sender) (break_errors h verify i prev l) in
      let signed = signature_errors_iff i l sender in
      let follows = break_errors_iff i prev l in
      (
        (λ e. (signed.0 (both.0 e).0, follows.0 (both.0 e).1)),
        (λ e. both.1 (signed.1 e.0, follows.1 e.1)),
      )

  errors_from_iff :
      (nodes : NodeRegistry) (i : ℕ) (prev : Option TrustChainLink) (links : List TrustChainLink)
      → (errors_from h verify nodes i prev links ≡ []) ↔ IsCustody h verify nodes prev links
  unfolding errors_from
  errors_from_iff nodes i prev [] = ((λ e. tt), (λ e. refl))
  errors_from_iff nodes i prev (l ∷ links) =
      let here = link_errors_iff i prev l (lookup l.from_node nodes) in
      let rest = errors_from_iff nodes (i + 1) (some l) links in
      let both =
        append-empty (link_errors h verify i prev l (lookup l.from_node nodes))
          (errors_from h verify nodes (i + 1) (some l) links) in
      (
        (λ e. ((here.0 (both.0 e).0).0, (here.0 (both.0 e).0).1, rest.0 (both.0 e).1)),
        (λ e. both.1 (here.1 (e.0, e.1), rest.1 e.2)),
      )

  empty_iff : (errors : List TrustError) → (eqb (length errors) 0 ≡ true) ↔ (errors ≡ [])
  empty_iff [] = ((λ e. refl), (λ e. refl))
  empty_iff (x ∷ errors) = ((λ e. absurd (ground (arith, e))), (λ e. absurd (ground (arith, e))))

  -- The custody chain passes exactly when each link is signed by a sender that is registered, under the
  -- registered key, and each link's sender is the receiver of the link before.
  pub verify_chain-iff-IsCustody :
      (nodes : NodeRegistry) (links : List TrustChainLink)
      → ((verify_chain h verify nodes links).0 ≡ true) ↔ IsCustody h verify nodes none links
  unfolding verify_chain
  verify_chain-iff-IsCustody nodes links =
      let empty = empty_iff (errors_from h verify nodes 0 none links) in
      let custody = errors_from_iff nodes 0 none links in
      ((λ e. custody.0 (empty.0 e)), (λ e. empty.1 (custody.1 e)))
