-- ===== src/AuditTrail.antt =====
-- audit_trail.py: `AuditEntry` and `MerkleAuditTrail`. The wall clock's text is an argument of
-- `append`; `none` as the result of a check stands for an IndexError.
pub mod Invariant
pub mod Checks
pub mod Tamper
use bhiv_qcg.Prelude.{
  ℕ, ◌+◌, String, Bool, true, false, not, ◌||◌, Option, none, some, List, [], ◌∷◌, ◌++◌, map, ◌==◌,
  eqb, if◌then◌else◌, length, get_elem?,
}
use bhiv_qcg.Prelude.Hashing.{Hashing, Json, str, num, object, end, field}
use bhiv_qcg.Merkle.{root_of, merkle_proof, build_merkle_tree, verify_merkle_proof}
use bhiv_qcg.Merkle.Incremental.{rebuild_tree}

pub record AuditEntry : Type 0 where
  pub sequence : ℕ
  pub event_type : String
  pub event_hash : String
  pub node_id : String
  pub event_data : Json
  pub timestamp : String

pub record MerkleAuditTrail : Type 0 where
  pub entries : List AuditEntry
  pub tree : List (List String)

abbrev pub empty : MerkleAuditTrail
empty = record { entries = []; tree = [] }

-- The errors that `verify_integrity` lists.
pub data IntegrityError : Type 0 where
  gap : ℕ → ℕ → IntegrityError
  duplicate_sequences : IntegrityError
  root_mismatch : String → String → IntegrityError

abbrev pub root_hash : MerkleAuditTrail → String
root_hash trail = root_of trail.tree

-- `enumerate(self._entries)`, from index `i` on.
unfoldable pub gaps : ℕ → List AuditEntry → List IntegrityError
gaps i [] = []
gaps i (e ∷ entries) =
    (if eqb e.sequence i then [] else gap i e.sequence ∷ []) ++ gaps (i + 1) entries

unfoldable pub seen : ℕ → List ℕ → Bool
seen n [] = false
seen n (m ∷ ms) = eqb n m || seen n ms

-- `len(set(seqs))`
unfoldable pub set_size : List ℕ → ℕ
unfolding seen
set_size [] = 0
set_size (n ∷ ns) = (if seen n ns then 0 else 1) + set_size ns

module _ (h : Hashing) where
  unfoldable pub leaf_hash : AuditEntry → String
  leaf_hash e = h.sha256 (
      h.dumps (
        object (
          field "event_hash" (str e.event_hash) (
            field "event_type" (str e.event_type)
              (field "node_id" (str e.node_id) (field "sequence" (num e.sequence) end))))))

  abbrev pub leaf_hashes : List AuditEntry → List String
  leaf_hashes entries = map (leaf_hash) entries

  unfoldable pub append : String → Json → String → String → MerkleAuditTrail → MerkleAuditTrail
  append event_type event_data node_id now trail =
      let entry : AuditEntry = record {
        sequence = length trail.entries;
        event_type = event_type;
        event_hash = h.sha256 (h.dumps event_data);
        node_id = node_id;
        event_data = event_data;
        timestamp = now;
      } in
      record {
        entries = trail.entries ++ entry ∷ [];
        tree = rebuild_tree h trail.tree (length trail.entries) (leaf_hash entry);
      }

  unfoldable pub verify_inclusion : MerkleAuditTrail → AuditEntry → Option Bool
  verify_inclusion trail entry = elim (get_elem? trail.entries entry.sequence) [
    | none ↦ some false
    | some stored ↦
        if not (leaf_hash stored == leaf_hash entry)
        then some false
        else elim (merkle_proof trail.tree entry.sequence) [
          | none ↦ none
          | some proof ↦ some (verify_merkle_proof h (leaf_hash entry) proof (root_hash trail))
        ]
  ]

  -- "Rebuild tree and compare root"; the entries are not empty here.
  unfoldable pub root_errors : MerkleAuditTrail → List IntegrityError
  root_errors trail =
      let rebuilt_root = root_of (build_merkle_tree h (leaf_hashes trail.entries)) in
      if rebuilt_root == root_hash trail
      then []
      else root_mismatch (root_hash trail) rebuilt_root ∷ []

  unfoldable pub integrity_errors : MerkleAuditTrail → List IntegrityError
  integrity_errors trail =
      let seqs = map (λ (e : AuditEntry). e.sequence) trail.entries in
      gaps 0 trail.entries
      ++ (if eqb (length seqs) (set_size seqs) then [] else duplicate_sequences ∷ [])
      ++ root_errors trail

  unfoldable pub verify_integrity : MerkleAuditTrail → Bool × List IntegrityError
  verify_integrity trail = elim trail.entries [
    | [] ↦ (true, [])
    | _ ∷ _ ↦ let errors = integrity_errors trail in (eqb (length errors) 0, errors)
  ]
