-- ===== src/EvidenceLedger/Verified.antt =====
-- evidence_ledger.py: what `append` keeps, and a ledger opened again on its file.
use bhiv_qcg.Prelude.{
  String, ◌≡◌, refl, sym, ap, ◌∙◌, inl, inr, Bool, true, false, none, some, List, [], ◌∷◌, ◌++◌,
  arith, eq_iff, Bool-cases, length, length-append,
}
use bhiv_qcg.Prelude.Hashing.{Hashing}
use bhiv_qcg.EvidenceLedger.{
  ExecutionRecord, EvidenceLedger, breaks, save_to_disk, load_found, hash_pair, genesis,
  open_ledger, extended, append, verify_from, verify_chain, run,
}

module _ (h : Hashing) where
  -- What the loop of `verify_chain` checks, as a predicate.
  abbrev pub IsLinked : String → List ExecutionRecord → List String → String → Type 0
  IsLinked head [] hashes stored = head ≡ stored
  IsLinked head (r ∷ records) [] stored = ⊥
  IsLinked head (r ∷ records) (x ∷ hashes) stored =
      (breaks r.previous_execution_hash head ≡ false)
      × (x ≡ hash_pair h head r.execution_hash)
      × IsLinked (hash_pair h head r.execution_hash) records hashes stored

  verify_from-IsLinked :
      (head : String) (records : List ExecutionRecord) (hashes : List String) (stored : String)
      → IsLinked head records hashes stored
      → verify_from h head records hashes stored ≡ some true
  unfolding verify_from
  verify_from-IsLinked head [] hashes stored l = ap some ((eq_iff head stored).1 l)
  verify_from-IsLinked head (r ∷ records) [] stored l = absurd l
  verify_from-IsLinked head (r ∷ records) (x ∷ hashes) stored l =
      rw (l.0, (eq_iff x (hash_pair h head r.execution_hash)).1 l.1)
        (verify_from-IsLinked (hash_pair h head r.execution_hash) records hashes stored l.2)

  pub IsLinked-of_verify_from :
      (head : String) (records : List ExecutionRecord) (hashes : List String) (stored : String)
      → verify_from h head records hashes stored ≡ some true
      → IsLinked head records hashes stored
  unfolding verify_from
  IsLinked-of_verify_from head [] hashes stored v = (eq_iff head stored).0 (ground (arith, v))
  IsLinked-of_verify_from head (r ∷ records) [] stored v = absurd (ground (arith, v))
  IsLinked-of_verify_from head (r ∷ records) (x ∷ hashes) stored v = (
    ground (arith, v),
    ground (arith, v, eq_iff x (hash_pair h head r.execution_hash)),
    IsLinked-of_verify_from (hash_pair h head r.execution_hash) records hashes stored
        (ground (arith, v)),
  )

  IsLinked-append :
      (head : String) (records : List ExecutionRecord) (hashes : List String) (stored : String)
      (r : ExecutionRecord)
      → length records ≡ length hashes
      → IsLinked head records hashes stored
      → breaks r.previous_execution_hash stored ≡ false
      → IsLinked head
          (records ++ r ∷ [])
          (hashes ++ hash_pair h stored r.execution_hash ∷ [])
          (hash_pair h stored r.execution_hash)
  IsLinked-append head [] [] stored r n l fits = rw l (fits, refl, refl)
  IsLinked-append head [] (x ∷ hashes) stored r n l fits = absurd (omega arith)
  IsLinked-append head (q ∷ records) [] stored r n l fits = absurd l
  IsLinked-append head (q ∷ records) (x ∷ hashes) stored r n l fits = (
    l.0,
    l.1,
    IsLinked-append (hash_pair h head q.execution_hash) records hashes stored r (omega arith) l.2
        fits,
  )

  -- Valid: linked from the genesis on, one hash for each record, and the file, if the ledger has a path,
  -- gives the ledger back.
  record IsValid (has_path : Bool) (l : EvidenceLedger) : Type 0 where
    path : l.has_path ≡ has_path
    linked : IsLinked (genesis h) l.records l.evidence_hashes l.current_head
    sized : length l.records ≡ length l.evidence_hashes
    reopens : has_path ≡ true → open_ledger h true l.file ≡ l

  extended-IsValid :
      (p : Bool) (r : ExecutionRecord) (l : EvidenceLedger)
      → breaks r.previous_execution_hash l.current_head ≡ false
      → IsValid p l
      → IsValid p (extended h r l)
  unfolding extended save_to_disk open_ledger load_found
  extended-IsValid p r l fits v =
      let linked =
        IsLinked-append (genesis h) l.records l.evidence_hashes l.current_head r v.sized v.linked
          fits in
      let sized : length (l.records ++ r ∷ [])
          ≡ length (l.evidence_hashes ++ hash_pair h l.current_head r.execution_hash ∷ []) =
        omega (
          arith,
          v.sized,
          length-append l.records (r ∷ []),
          length-append l.evidence_hashes (hash_pair h l.current_head r.execution_hash ∷ []),
        ) in
      elim (Bool-cases l.has_path) [
        | inl path ↦ rw path (record {
          path = sym path ∙ v.path;
          linked = linked;
          sized = sized;
          reopens = λ e. refl;
        })
        | inr no_path ↦ rw no_path (record {
          path = sym no_path ∙ v.path;
          linked = linked;
          sized = sized;
          reopens = λ e. absurd (ground (arith, e, v.path, no_path));
        })
      ]

  append-keeps :
      (p : Bool) (r : ExecutionRecord) (l : EvidenceLedger)
      → IsValid p l
      → IsValid p (append h r l).1
  unfolding append
  append-keeps p r l v = elim (Bool-cases (breaks r.previous_execution_hash l.current_head)) [
    | inl bad ↦ rw bad v
    | inr fits ↦ rw fits (extended-IsValid p r l fits v)
  ]

  run-keeps :
      (p : Bool) (rs : List ExecutionRecord) (l : EvidenceLedger)
      → IsValid p l
      → IsValid p (run h rs l)
  unfolding run
  run-keeps p [] l v = v
  run-keeps p (r ∷ rs) l v = run-keeps p rs (append h r l).1 (append-keeps p r l v)

  new-IsValid : (p : Bool) → IsValid p (open_ledger h p none)
  unfolding open_ledger load_found
  new-IsValid true = record { path = refl; linked = refl; sized = refl; reopens = λ e. refl }
  new-IsValid false = record {
    path = refl;
    linked = refl;
    sized = refl;
    reopens = λ e. absurd (ground (arith, e));
  }

  -- After any appends to a new ledger, those that it refused included, `verify_chain` answers True; and
  -- a ledger with a path that is opened again on its file has the same state.
  pub ledger_verifies :
      (has_path : Bool) (rs : List ExecutionRecord)
      → (verify_chain h (run h rs (open_ledger h has_path none)) ≡ some true)
        × (open_ledger h true (run h rs (open_ledger h true none)).file
            ≡ run h rs (open_ledger h true none))
  unfolding verify_chain
  ledger_verifies has_path rs =
      let v = run-keeps has_path rs (open_ledger h has_path none) (new-IsValid has_path) in
      let w = run-keeps true rs (open_ledger h true none) (new-IsValid true) in
      (
        verify_from-IsLinked (genesis h) (run h rs (open_ledger h has_path none)).records
            (run h rs (open_ledger h has_path none)).evidence_hashes
            (run h rs (open_ledger h has_path none)).current_head v.linked,
        w.reopens refl,
      )
