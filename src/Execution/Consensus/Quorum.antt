-- ===== src/Execution/Consensus/Quorum.antt =====
-- consensus_simulation.py: consensus is reached on a hash exactly when a quorum has signed it.
use mathlib.Core.Path.{subst}
use bhiv_qcg.Prelude.{
  ℕ, ◌+◌, ◌*◌, ◌≤◌, ◌<◌, String, ◌≡◌, refl, sym, ap, ◌∙◌, ◌↔◌, inl, inr, true, false, Option, List,
  [], ◌∷◌, ◌++◌, arith, leb, Bool-cases, length,
}
use bhiv_qcg.Prelude.Dict.{Dict, lookup, length-insert, HasKeys}
use bhiv_qcg.Prelude.Hashing.{Hashing}
use bhiv_qcg.Trust.Proof.{Verifier}
use bhiv_qcg.Execution.Contract.{FloatText, ComputationExecutionContract, is_empty}
use bhiv_qcg.Execution.Consensus.{
  NodeAttestation, DistributedConsensusNode, Disagreement, Round, or_zero, hash_counts, majority,
  is_named, attestation_of, collect, verified_attestations, is_signed, conclude, count_round,
  run_consensus,
}
use bhiv_qcg.Execution.Consensus.Votes.{
  votes, IsQuorum, two_quorums, pos_of_quorum, counted_at, some_counted, voters_there, majority_all,
  majority_in, hash_counts-HasKeys,
}

module _ (h : Hashing) (fl : FloatText) (verify : Verifier) (threshold total round : ℕ) (r : Round)
    (ds : Dict Disagreement) (half : 50 < threshold) where
  conclude-IsQuorum :
      (f : String) (voters : Dict NodeAttestation) (counts : Dict ℕ)
      → length voters ≤ total
      → hash_counts voters [] ≡ counts
      → let p = conclude h fl verify threshold total round r ds voters counts in
        ((p.consensus_reached ≡ true) × (p.final_hash ≡ f)) ↔ IsQuorum threshold total f voters
  unfolding conclude
  conclude-IsQuorum f voters [] few e = (
    (λ p. absurd (ground (arith, p.0))),
    (λ q. absurd (unfold lookup in omega (arith, counted_at f voters [] e, q.0))),
  )
  conclude-IsQuorum f voters ((g, n) ∷ rest) few e =
      let best = majority (g, n) rest in
      let keys : HasKeys ((g, n) ∷ rest) = subst HasKeys e (hash_counts-HasKeys voters [] tt) in
      let cast : votes best.0 voters ≡ best.1 =
        sym (counted_at best.0 voters ((g, n) ∷ rest) e) ∙ ap or_zero (majority_in g n rest keys) in
      let pos : 0 < total = omega (arith, voters_there voters (g, n) rest e, few) in
      let quorum : threshold * total ≤ 100 * best.1 → IsQuorum threshold total best.0 voters =
        λ q. (rw cast (pos_of_quorum threshold total best.1 half pos q), rw cast q) in
      elim (Bool-cases (leb (threshold * total) (100 * best.1))) [
        | inl reached ↦
            let met : threshold * total ≤ 100 * best.1 = ground (arith, reached) in
            rw reached (
              (λ p. rw⁻¹ p.1 (quorum met)),
              (λ k. (refl, two_quorums threshold total best.0 f voters half few (quorum met) k)),
            )
        | inr short ↦
            let missed : 100 * best.1 < threshold * total = ground (arith, short) in
            let at_f = counted_at f voters ((g, n) ∷ rest) e in
            rw short (
              (λ p. absurd (ground (arith, p.0))),
              (λ k. absurd (
                  let found = some_counted (lookup f ((g, n) ∷ rest)) (rw at_f k.0) in
                  omega (arith, majority_all g f n _ rest found, at_f, k.1, missed))),
            )
      ]

is_empty-snoc : (xs : List String) (x : String) → is_empty (xs ++ x ∷ []) ≡ false
is_empty-snoc [] x = refl
is_empty-snoc (y ∷ xs) x = refl

module _ (h : Hashing) (fl : FloatText) (verify : Verifier) where
  length-verified_attestations :
      (d : Dict NodeAttestation) → length (verified_attestations h fl verify d) ≤ length d
  unfolding verified_attestations
  length-verified_attestations [] = omega arith
  length-verified_attestations ((nid, a) ∷ d) =
      let rest = length-verified_attestations d in
      elim (Bool-cases (is_signed h fl verify nid a)) [
        | inl signed ↦ rw signed (omega (arith, rest))
        | inr forged ↦ rw forged (omega (arith, rest))
      ]

  -- At most one attestation for each node, and none without a participant.
  pub record IsRound (bound : ℕ) (r : Round) : Type 0 where
    pub few : length r.attestations ≤ bound
    pub attended : is_empty r.participating ≡ true → r.attestations ≡ []

  widen : (a b : ℕ) (r : Round) → a ≤ b → IsRound a r → IsRound b r
  widen a b r le w = record { few = omega (arith, w.few, le); attended = w.attended }

  collect-IsRound :
      (c : ComputationExecutionContract) (key : String) (faulty missing : Option String)
      (nodes : List DistributedConsensusNode) (r : Round) (bound : ℕ)
      → IsRound bound r
      → IsRound (bound + length nodes) (collect h fl verify c key faulty missing nodes r)
  unfolding collect
  collect-IsRound c key faulty missing [] r bound w = record {
    few = omega (arith, w.few);
    attended = w.attended;
  }
  collect-IsRound c key faulty missing (node ∷ nodes) r bound w =
      let nid = node.signer.identity.node_id in
      let a = attestation_of h fl verify c key faulty node in
      elim (Bool-cases (is_named missing nid)) [
        | inl absent ↦ rw absent (
            widen (bound + 1 + length nodes) _ _ (omega arith) (
              collect-IsRound c key faulty missing nodes _ (bound + 1)
                (record { few = omega (arith, w.few); attended = w.attended })))
        | inr present ↦ rw present (
            widen (bound + 1 + length nodes) _ _ (omega arith) (
              collect-IsRound c key faulty missing nodes _ (bound + 1) (record {
                few = omega (arith, w.few, length-insert nid a r.attestations);
                attended = λ e. absurd (ground (arith, e, is_empty-snoc r.participating nid));
              })))
      ]

  conclude_attestations :
      (threshold total round : ℕ) (r : Round) (ds : Dict Disagreement)
      (voters : Dict NodeAttestation) (counts : Dict ℕ)
      → (conclude h fl verify threshold total round r ds voters counts).node_attestations
        ≡ r.attestations
  unfolding conclude
  conclude_attestations threshold total round r ds voters [] = refl
  conclude_attestations threshold total round r ds voters (x ∷ rest) = refl

  count_round-IsQuorum :
      (threshold total round : ℕ) (r : Round) (f : String)
      → 50 < threshold
      → IsRound total r
      → let p = count_round h fl verify threshold total round r in
        ((p.consensus_reached ≡ true) × (p.final_hash ≡ f))
        ↔ IsQuorum threshold total f (verified_attestations h fl verify p.node_attestations)
  unfolding count_round
  count_round-IsQuorum threshold total round r f half w =
      elim (Bool-cases (is_empty r.participating)) [
        | inl nobody ↦ rw nobody (
            unfold verified_attestations in
            ((λ p. absurd (ground (arith, p.0))), (λ q. absurd (omega (arith, q.0)))))
        | inr somebody ↦
            let voters = verified_attestations h fl verify r.attestations in
            rw
              (
                somebody,
                conclude_attestations threshold total round r _ voters (hash_counts voters []),
              )
              (conclude-IsQuorum h fl verify threshold total round r _ half f voters _
                (omega (arith, length-verified_attestations r.attestations, w.few)) refl)
      ]

  -- With a threshold above 50 hundredths: a round of consensus ends on a hash exactly when some
  -- attestation of the proof with a valid signature votes for it, and the number of those that do
  -- reaches the threshold of all nodes.
  pub run_consensus-iff-IsQuorum :
      (threshold : ℕ) (nodes : List DistributedConsensusNode) (c : ComputationExecutionContract)
      (key : String) (faulty missing : Option String) (round : ℕ) (f : String)
      → 50 < threshold
      → let p = run_consensus h fl verify threshold nodes c key faulty missing round in
        ((p.consensus_reached ≡ true) × (p.final_hash ≡ f))
        ↔ IsQuorum threshold
            (length nodes)
            f
            (verified_attestations h fl verify p.node_attestations)
  unfolding run_consensus
  run_consensus-iff-IsQuorum threshold nodes c key faulty missing round f half =
      count_round-IsQuorum threshold (length nodes) round _ f half (
        widen (0 + length nodes) _ _ (omega arith) (
          collect-IsRound c key faulty missing nodes
            (record { attestations = []; disagreements = []; participating = [] }) 0
            (record { few = omega arith; attended = λ e. refl })))
