-- ===== src/EvidenceLedger.antt =====
-- evidence_ledger.py and execution_record.py: `EvidenceLedger` with its file. A file is what
-- `json.load` reads from it; a write that fails is logged by the program and is not modelled.
-- The time stamp of a snapshot is left out.
pub mod Root
pub mod Verified
pub mod Tamper
use Prim.Native.String.{◌++◌ as text_append}
use bhiv_qcg.Prelude.{
  ℕ, zero, suc, String, Bool, false, not, ◌&&◌, Option, none, some, List, [], ◌∷◌, ◌++◌, ◌==◌, ltb,
  if◌then◌else◌, length,
}
use bhiv_qcg.Prelude.Hashing.{Hashing}

pub record ExecutionRecord : Type 0 where
  pub execution_id : String
  pub trace_id : String
  pub replay_reference : String
  pub execution_sequence : ℕ
  pub producer_identity : String
  pub runtime_identity : String
  pub governance_identity : String
  pub execution_status : String
  pub runtime_hash : String
  pub execution_hash : String
  pub previous_execution_hash : String
  pub execution_root_hash : String
  pub schema_version : String

pub record Saved : Type 0 where
  pub records : List ExecutionRecord
  pub evidence_hashes : List String
  pub current_head : String

pub record EvidenceLedger : Type 0 where
  pub records : List ExecutionRecord
  pub evidence_hashes : List String
  pub current_head : String
  pub has_path : Bool
  pub file : Option Saved

pub record LedgerSnapshot : Type 0 where
  pub sequence_length : ℕ
  pub merkle_root : String
  pub latest_evidence_hash : String

pub data Appended : Type 0 where
  snapshot : LedgerSnapshot → Appended
  -- ValueError: the head that was expected, the hash that was given
  invalid_previous : String → String → Appended

-- `previous and previous != head`
abbrev pub breaks : String → String → Bool
breaks previous head = not (previous == "") && not (previous == head)

-- `_save_to_disk`
unfoldable pub save_to_disk : EvidenceLedger → EvidenceLedger
save_to_disk l =
    if l.has_path
    then record l {
      file = some (record {
        records = l.records;
        evidence_hashes = l.evidence_hashes;
        current_head = l.current_head;
      });
    }
    else l

-- `_load_from_disk`, from what the file holds
unfoldable pub load_found : Option Saved → EvidenceLedger → EvidenceLedger
load_found none l = l
load_found (some s) l = record l {
  records = s.records;
  evidence_hashes = s.evidence_hashes;
  current_head = s.current_head;
}

module _ (h : Hashing) where
  unfoldable pub hash_pair : String → String → String
  hash_pair left right = h.sha256 (text_append left right)

  abbrev pub genesis : String
  genesis = h.sha256 "GENESIS"

  -- `EvidenceLedger(persistence_path)`
  unfoldable pub open_ledger : Bool → Option Saved → EvidenceLedger
  open_ledger has_path file =
      let l : EvidenceLedger = record {
        records = [];
        evidence_hashes = [];
        current_head = genesis;
        has_path = has_path;
        file = file;
      } in
      if has_path then load_found file l else l

  -- One round of the loop in `get_merkle_root`
  unfoldable pub pair_up : List String → List String
  pair_up [] = []
  pair_up (x ∷ []) = hash_pair x x ∷ []
  pair_up (x ∷ y ∷ rest) = hash_pair x y ∷ pair_up rest

  -- The loop, with the rounds left
  unfoldable pub root_from : ℕ → List String → String
  root_from fuel [] = ""
  root_from zero (x ∷ level) = x
  root_from (suc fuel) (x ∷ level) =
      let rest = root_from fuel (pair_up (x ∷ level)) in
      if ltb 1 (length (x ∷ level)) then rest else x

  unfoldable pub get_merkle_root : List String → String
  get_merkle_root [] = h.sha256 "EMPTY_LEDGER"
  get_merkle_root (x ∷ hashes) = root_from (length (x ∷ hashes)) (x ∷ hashes)

  unfoldable pub get_snapshot : EvidenceLedger → LedgerSnapshot
  get_snapshot l = record {
    sequence_length = length l.records;
    merkle_root = get_merkle_root l.evidence_hashes;
    latest_evidence_hash = l.current_head;
  }

  unfoldable pub extended : ExecutionRecord → EvidenceLedger → EvidenceLedger
  extended r l =
      let new_chain_hash = hash_pair l.current_head r.execution_hash in
      save_to_disk (record l {
        records = l.records ++ r ∷ [];
        evidence_hashes = l.evidence_hashes ++ new_chain_hash ∷ [];
        current_head = new_chain_hash;
      })

  unfoldable pub append : ExecutionRecord → EvidenceLedger → Appended × EvidenceLedger
  append r l =
      if breaks r.previous_execution_hash l.current_head
      then (invalid_previous l.current_head r.previous_execution_hash, l)
      else (snapshot (get_snapshot (extended r l)), extended r l)

  -- The loop of `verify_chain`: none is the IndexError of a missing hash.
  unfoldable pub verify_from : String → List ExecutionRecord → List String → String → Option Bool
  verify_from head [] hashes stored = some (head == stored)
  verify_from head (r ∷ records) [] stored =
      if breaks r.previous_execution_hash head then some false else none
  verify_from head (r ∷ records) (x ∷ hashes) stored =
      let rest = verify_from (hash_pair head r.execution_hash) records hashes stored in
      if breaks r.previous_execution_hash head
      then some false
      else if not (x == hash_pair head r.execution_hash)
      then some false
      else rest

  unfoldable pub verify_chain : EvidenceLedger → Option Bool
  verify_chain l = verify_from genesis l.records l.evidence_hashes l.current_head

  unfoldable pub run : List ExecutionRecord → EvidenceLedger → EvidenceLedger
  run [] l = l
  run (r ∷ rs) l = run rs (append r l).1
