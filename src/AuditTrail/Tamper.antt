-- ===== src/AuditTrail/Tamper.antt =====
-- What `verify_integrity` detects when the stored entries are edited behind the back of the tree.
use bhiv_qcg.Prelude.{
  ◌<◌, String, ◌≡◌, ◌≢◌, ◌⊎◌, inl, inr, true, false, List, [], ◌∷◌, arith, ◌==◌, String-cases,
  eq_false, length, length-append, length-map,
}
use bhiv_qcg.Prelude.Hashing.{Hashing, Clash, IsDocumented}
use bhiv_qcg.Merkle.{root_of, build_merkle_tree}
use bhiv_qcg.Merkle.Tamper.{tree_texts, AllDigests, root_of-inj}
use bhiv_qcg.AuditTrail.{
  AuditEntry, MerkleAuditTrail, leaf_hash, leaf_hashes, root_errors, verify_integrity,
  integrity_errors, root_hash,
}
use bhiv_qcg.AuditTrail.Invariant.{IsValid}

module _ (h : Hashing) (documented : IsDocumented h) where
  leaf_hashes-AllDigests : (entries : List AuditEntry) → AllDigests (leaf_hashes h entries)
  leaf_hashes-AllDigests [] = tt
  leaf_hashes-AllDigests (e ∷ entries) =
      (unfold leaf_hash in documented.digest_length _, leaf_hashes-AllDigests entries)

  root_errors_listed :
      (t : MerkleAuditTrail)
      → root_of (build_merkle_tree h (leaf_hashes h t.entries)) ≢ root_hash t
      → 0 < length (integrity_errors h t)
  unfolding integrity_errors root_errors
  root_errors_listed t differ =
      let rebuilt = root_of (build_merkle_tree h (leaf_hashes h t.entries)) in
      let test : (rebuilt == root_hash t) ≡ false = eq_false rebuilt (root_hash t) differ in
      rw test (rw length-append (rw length-append (omega arith)))

  passed-same_root :
      (e : AuditEntry) (es : List AuditEntry) (tree : List (List String))
      → (verify_integrity h (record { entries = e ∷ es; tree = tree })).0 ≡ true
      → root_of (build_merkle_tree h (leaf_hashes h (e ∷ es))) ≡ root_of tree
  unfolding verify_integrity
  passed-same_root e es tree passed =
      elim (String-cases (root_of (build_merkle_tree h (leaf_hashes h (e ∷ es)))) (root_of tree)) [
        | inl same ↦ same
        | inr differ ↦
            absurd
              (ground (arith, root_errors_listed (record { entries = e ∷ es; tree = tree }) differ))
      ]

  same_root :
      (trail : MerkleAuditTrail) (edited : List AuditEntry)
      → length edited ≡ length trail.entries
      → IsValid h trail
      → (verify_integrity h (record trail { entries = edited })).0 ≡ true
      → root_of (build_merkle_tree h (leaf_hashes h edited))
        ≡ root_of (build_merkle_tree h (leaf_hashes h trail.entries))
  same_root trail [] n v passed = let none_left : trail.entries ≡ [] = ground arith in rw none_left
  same_root trail (e ∷ es) n v passed = rw (← v.anchored) (passed-same_root e es trail.tree passed)

  -- With digests of 64 characters: edit the entries of a valid trail in any way that keeps their
  -- number. If `verify_integrity` still passes, every leaf hash is what it was, or a text that is
  -- digested in building the tree of the edited leaf hashes has the SHA-256 digest of a different text
  -- that is digested in building the tree of the old ones.
  pub verify_integrity_detects :
      (trail : MerkleAuditTrail) (edited : List AuditEntry)
      → IsValid h trail
      → length edited ≡ length trail.entries
      → (verify_integrity h (record trail { entries = edited })).0 ≡ true
      → (leaf_hashes h edited ≡ leaf_hashes h trail.entries)
        ⊎ Clash h (tree_texts h (leaf_hashes h edited)) (tree_texts h (leaf_hashes h trail.entries))
  verify_integrity_detects trail edited v same_length passed =
      root_of-inj h documented (leaf_hashes h edited) (leaf_hashes h trail.entries)
        (rw (length-map, length-map) same_length) (leaf_hashes-AllDigests edited)
        (leaf_hashes-AllDigests trail.entries) (same_root trail edited same_length v passed)
