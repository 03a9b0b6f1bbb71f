-- ===== src/AuditTrail/Invariant.antt =====
-- The invariant of the trail, and that `append` keeps it.
use bhiv_qcg.Prelude.{
  ℕ, suc, ◌+◌, String, ◌≡◌, refl, ap, List, [], ◌∷◌, ◌++◌, arith, length, length-map,
}
use bhiv_qcg.Prelude.Hashing.{Hashing, Json}
use bhiv_qcg.Merkle.{build_merkle_tree}
use bhiv_qcg.Merkle.Incremental.{rebuild_tree}
use bhiv_qcg.Merkle.Incremental.Rebuilt.{rebuild_tree-eq-build_merkle_tree}
use bhiv_qcg.AuditTrail.{AuditEntry, MerkleAuditTrail, empty, leaf_hash, leaf_hashes, append}

-- Sequence numbers count up from `i`.
abbrev pub IsContiguous : ℕ → List AuditEntry → Type 0
IsContiguous i [] = Unit
IsContiguous i (e ∷ entries) = (e.sequence ≡ i) × IsContiguous (suc i) entries

pub record IsValid (h : Hashing) (trail : MerkleAuditTrail) : Type 0 where
  pub numbered : IsContiguous 0 trail.entries
  pub anchored : trail.tree ≡ build_merkle_tree h (leaf_hashes h trail.entries)

IsContiguous-append :
    (i : ℕ) (entries : List AuditEntry) (e : AuditEntry)
    → IsContiguous i entries
    → e.sequence ≡ i + length entries
    → IsContiguous i (entries ++ e ∷ [])
IsContiguous-append i [] e c n = (omega arith, tt)
IsContiguous-append i (x ∷ entries) e c n =
    (c.0, IsContiguous-append (suc i) entries e c.1 (omega arith))

module _ (h : Hashing) where
  leaf_hashes-append :
      (entries : List AuditEntry) (e : AuditEntry)
      → leaf_hashes h (entries ++ e ∷ []) ≡ leaf_hashes h entries ++ leaf_hash h e ∷ []
  leaf_hashes-append [] e = refl
  leaf_hashes-append (x ∷ entries) e =
      ap (λ (l : List String). leaf_hash h x ∷ l) (leaf_hashes-append entries e)

  anchored-append :
      (entries : List AuditEntry) (tree : List (List String)) (e : AuditEntry)
      → tree ≡ build_merkle_tree h (leaf_hashes h entries)
      → rebuild_tree h tree (length entries) (leaf_hash h e)
        ≡ build_merkle_tree h (leaf_hashes h (entries ++ e ∷ []))
  anchored-append entries tree e anchored =
      rw (leaf_hashes-append, anchored, ← length-map (leaf_hash h) entries)
        (rebuild_tree-eq-build_merkle_tree h (leaf_hashes h entries) (leaf_hash h e))

  pub empty-IsValid : IsValid h empty
  empty-IsValid = record { numbered = tt; anchored = unfold build_merkle_tree in refl }

  -- Every append keeps the trail valid: the numbering has no gap, and the incrementally updated tree
  -- is the tree that a rebuild from the stored entries gives.
  pub append-IsValid :
      (event_type : String) (event_data : Json) (node_id now : String) (trail : MerkleAuditTrail)
      → IsValid h trail
      → IsValid h (append h event_type event_data node_id now trail)
  unfolding append
  append-IsValid event_type event_data node_id now trail v = record {
    numbered = IsContiguous-append 0 trail.entries _ v.numbered (omega arith);
    anchored = anchored-append trail.entries trail.tree _ v.anchored;
  }
