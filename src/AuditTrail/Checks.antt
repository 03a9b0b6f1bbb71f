-- ===== src/AuditTrail/Checks.antt =====
-- On a valid trail `verify_inclusion` answers exactly whether the entry is the stored one, and
-- `verify_integrity` finds nothing to report.
use bhiv_qcg.Prelude.{
  ℕ, suc, ◌+◌, ◌<◌, ◌≡◌, refl, inl, inr, Bool, true, false, none, some, List, [], ◌∷◌, map, arith,
  ◌==◌, eq_iff, eq_refl, Bool-cases, Option-cases, length, get_elem?, get_elem?-map,
}
use bhiv_qcg.Prelude.Hashing.{Hashing}
use bhiv_qcg.Merkle.{merkle_proof, verify_merkle_proof}
use bhiv_qcg.Merkle.Inclusion.{merkle_proof-verifies}
use bhiv_qcg.AuditTrail.{
  AuditEntry, MerkleAuditTrail, gaps, seen, set_size, leaf_hash, leaf_hashes, verify_inclusion,
  root_errors, verify_integrity, integrity_errors, root_hash,
}
use bhiv_qcg.AuditTrail.Invariant.{IsContiguous, IsValid}

-- What `verify_inclusion` should say: an entry is stored at the index, with the same leaf hash.
abbrev pub is_stored : Hashing → MerkleAuditTrail → AuditEntry → Bool
is_stored h trail entry = elim (get_elem? trail.entries entry.sequence) [
  | none ↦ false
  | some stored ↦ leaf_hash h stored == leaf_hash h entry
]

module _ (h : Hashing) where
  inclusion_lem :
      (trail : MerkleAuditTrail) (entry stored : AuditEntry)
      → IsValid h trail
      → get_elem? trail.entries entry.sequence ≡ some stored
      → leaf_hash h stored ≡ leaf_hash h entry
      → (p : List _) × (merkle_proof trail.tree entry.sequence ≡ some p)
        × (verify_merkle_proof h (leaf_hash h entry) p (root_hash trail) ≡ true)
  inclusion_lem trail entry stored v found same =
      rw (v.anchored, ← same)
        (merkle_proof-verifies h (leaf_hashes h trail.entries) entry.sequence (leaf_hash h stored)
          (get_elem?-map (leaf_hash h) trail.entries entry.sequence found))

  -- On a valid trail the inclusion check never raises, and accepts an entry exactly when the trail
  -- holds one with the same leaf hash at the sequence number of the entry.
  verify_inclusion-eq-is_stored :
      (trail : MerkleAuditTrail) (entry : AuditEntry)
      → IsValid h trail
      → verify_inclusion h trail entry ≡ some (is_stored h trail entry)
  unfolding verify_inclusion
  verify_inclusion-eq-is_stored trail entry v =
      elim (Option-cases (get_elem? trail.entries entry.sequence)) [
        | inl outside ↦ ground arith
        | inr (stored, found) ↦ elim (Bool-cases (leaf_hash h stored == leaf_hash h entry)) [
          | inl same ↦
              let (p, path, accepted) =
                inclusion_lem trail entry stored v found ((eq_iff _ _).0 same) in
              ground arith
          | inr differs ↦ ground arith
        ]
      ]

  gaps-IsContiguous :
      (i : ℕ) (entries : List AuditEntry) → IsContiguous i entries → gaps i entries ≡ []
  unfolding gaps
  gaps-IsContiguous i [] c = refl
  gaps-IsContiguous i (e ∷ entries) c =
      let next : i + 1 ≡ suc i = omega arith in
      rw (c.0, next, gaps-IsContiguous (suc i) entries c.1) (ground arith)

  abbrev sequences : List AuditEntry → List ℕ
  sequences entries = map (λ (e : AuditEntry). e.sequence) entries

  seen_above :
      (n i : ℕ) (entries : List AuditEntry)
      → n < i
      → IsContiguous i entries
      → seen n (sequences entries) ≡ false
  unfolding seen
  seen_above n i [] lt c = refl
  seen_above n i (e ∷ entries) lt c = ground (arith, seen_above n (suc i) entries (omega arith) c.1)

  set_size-IsContiguous :
      (i : ℕ) (entries : List AuditEntry)
      → IsContiguous i entries
      → set_size (sequences entries) ≡ length (sequences entries)
  unfolding set_size
  set_size-IsContiguous i [] c = refl
  set_size-IsContiguous i (e ∷ entries) c =
      rw (c.0, seen_above i (suc i) entries (omega arith) c.1)
        (omega (arith, set_size-IsContiguous (suc i) entries c.1))

  root_errors-IsValid : (trail : MerkleAuditTrail) → IsValid h trail → root_errors h trail ≡ []
  unfolding root_errors
  root_errors-IsValid trail v = rw (v.anchored, eq_refl) refl

  integrity_errors-IsValid :
      (trail : MerkleAuditTrail) → IsValid h trail → integrity_errors h trail ≡ []
  integrity_errors-IsValid trail v =
      let root = root_errors-IsValid trail v in
      let numbers = gaps-IsContiguous 0 trail.entries v.numbered in
      let distinct = set_size-IsContiguous 0 trail.entries v.numbered in
      unfold integrity_errors in rw (numbers, distinct, root) (ground arith)

  -- A valid trail passes the full integrity check, with no error listed.
  pub verify_integrity-IsValid :
      (trail : MerkleAuditTrail) → IsValid h trail → verify_integrity h trail ≡ (true, [])
  unfolding verify_integrity
  verify_integrity-IsValid trail v = ground (arith, integrity_errors-IsValid trail v)
