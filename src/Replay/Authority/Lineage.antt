-- ===== src/Replay/Authority/Lineage.antt =====
-- canonical_replay_authority.py: the lineage that an authority builds over its registry.
use bhiv_qcg.Prelude.{
  ℕ, suc, ◌+◌, ◌-◌, String, ◌≡◌, refl, sym, ap, ◌∙◌, inl, inr, Option, none, some, List, [], ◌∷◌,
  arith, ◌==◌, ltb, Bool-cases, length,
}
use bhiv_qcg.Prelude.Dict.{Dict, lookup, insert, length-insert_new}
use bhiv_qcg.Prelude.Hashing.{Hashing}
use bhiv_qcg.Replay.Registry.{
  Status, valid, duplicate, stale, future, no_reason, RegistryDecision, RegistryEntry,
  ReplayRegistry, submit_fresh, or_now, persist,
}
use bhiv_qcg.Replay.Registry
use bhiv_qcg.Replay.Authority.{
  ReplayLineageRecord, Authority, parent_of, canonical, build_lineage_record, record_decision,
  submit, insert_by_sequence, sorted_records, lineage, Submission, run,
}

module _ (h : Hashing) where
  -- A record that says VALID, and whose hash is the digest of its own fields.
  pub record Certified (r : ReplayLineageRecord) : Type 0 where
    pub says_valid : r.decision ≡ valid
    pub hash_matches :
        r.verification_hash
        ≡ h.sha256 (
            canonical h
              (record {
                message_id = r.message_id;
                sequence_number = r.sequence_number;
                status = r.decision;
                reason = no_reason;
              })
              r.trace_reference)

  -- Records numbered `n + 1, n + 2, ...`, each certified and naming the one before as its parent.
  abbrev pub Linked : ℕ → List ReplayLineageRecord → Type 0
  Linked n [] = Unit
  Linked n (r ∷ rs) =
      (r.sequence_number ≡ n + 1)
      × (r.parent_reference ≡ parent_of (n + 1))
      × Certified r
      × Linked (n + 1) rs

  -- The log holds one such record for each entry of the registry, in the same order.
  abbrev pub Matches : ℕ → Dict RegistryEntry → Dict ReplayLineageRecord → Type 0
  Matches n [] [] = Unit
  Matches n ((k, e) ∷ d) ((j, r) ∷ l) =
      (j ≡ k)
      × (r.sequence_number ≡ n + 1)
      × (r.parent_reference ≡ parent_of (n + 1))
      × Certified r
      × Matches (n + 1) d l
  Matches n _ _ = ⊥

  abbrev pub InStep : Authority → Type 0
  InStep s =
      Matches 0 s.registry.entries s.lineage_log
      × (s.registry.sequence_counter ≡ length s.registry.entries)

  insert-Matches :
      (k : String) (e : RegistryEntry) (r : ReplayLineageRecord) (n : ℕ) (d : Dict RegistryEntry)
      (l : Dict ReplayLineageRecord)
      → lookup k d ≡ none
      → r.sequence_number ≡ n + length d + 1
      → r.parent_reference ≡ parent_of (n + length d + 1)
      → Certified r
      → Matches n d l
      → Matches n (insert k e d) (insert k r l)
  unfolding insert lookup
  insert-Matches k e r n [] [] new num parent c m =
      (refl, omega arith, parent ∙ ap parent_of (omega arith), c, tt)
  insert-Matches k e r n [] (_ ∷ _) new num parent c m = absurd m
  insert-Matches k e r n (_ ∷ _) [] new num parent c m = absurd m
  insert-Matches k e r n ((i, f) ∷ d) ((j, q) ∷ l) new num parent c m = elim (Bool-cases (i == k)) [
    | inl same ↦ absurd (ground (arith, same, new))
    | inr other ↦
        rw (m.0, other)
          (
            refl,
            m.1,
            m.2,
            m.3,
            insert-Matches k e r (n + 1) d l (rw other at new) (omega arith)
                (parent ∙ ap parent_of (omega arith)) c m.4,
          )
  ]

  record_decision-InStep :
      (uuid5 : String → String) (found : Option RegistryEntry) (m : String) (trace : Option String)
      (issued : ℕ) (iso : String) (s : Authority)
      → lookup m s.registry.entries ≡ found
      → InStep s
      → InStep (record_decision h uuid5 m trace iso (submit_fresh found m issued s.registry) s).1
  unfolding record_decision submit_fresh persist build_lineage_record
  record_decision-InStep uuid5 (some e) m trace issued iso s here i = i
  record_decision-InStep uuid5 none m trace issued iso s here i =
      elim (Bool-cases
        (ltb s.registry.max_gap (s.registry.sequence_counter + 1 - s.registry.sequence_counter))) [
          | inl far ↦ rw far i
          | inr near ↦ rw near (
            insert-Matches m _ _ 0 s.registry.entries s.lineage_log here (omega (arith, i.1))
                (ap parent_of (omega (arith, i.1)))
                (record { says_valid = refl; hash_matches = refl }) i.0,
            omega (
              arith,
              i.1,
              length-insert_new m
                  (record {
                    message_id = m;
                    sequence_number = s.registry.sequence_counter + 1;
                    issued_at = issued;
                  })
                  s.registry.entries here,
            ),
          )
        ]

  submit-InStep :
      (uuid5 : String → String) (m : String) (t : Option ℕ) (trace : Option String) (now : ℕ)
      (iso : String) (s : Authority)
      → InStep s
      → InStep (submit h uuid5 m t trace now iso s).1
  unfolding submit Registry.submit
  submit-InStep uuid5 m t trace now iso s i =
      elim (Bool-cases (ltb (or_now t now + s.registry.ttl) now)) [
        | inl late ↦ rw late (unfold record_decision in i)
        | inr fresh ↦ rw fresh (
            record_decision-InStep uuid5 (lookup m s.registry.entries) m trace (or_now t now) iso s
              refl i)
      ]

  run-InStep :
      (uuid5 : String → String) (xs : List Submission) (s : Authority)
      → InStep s
      → InStep (run h uuid5 xs s)
  unfolding run
  run-InStep uuid5 [] s i = i
  run-InStep uuid5 (x ∷ xs) s i =
      run-InStep uuid5 xs _
        (submit-InStep uuid5 x.message_id x.issued_at x.trace x.now x.now_iso s i)

  insert_front :
      (n : ℕ) (r : ReplayLineageRecord) (qs : List ReplayLineageRecord)
      → r.sequence_number ≡ n + 1
      → Linked (n + 1) qs
      → insert_by_sequence r qs ≡ r ∷ qs
  unfolding insert_by_sequence
  insert_front n r [] num l = refl
  insert_front n r (q ∷ qs) num l = ground (arith, num, l.0)

  sorted_records-Linked :
      (n : ℕ) (d : Dict RegistryEntry) (log : Dict ReplayLineageRecord)
      → Matches n d log
      → Linked n (sorted_records log) × (length (sorted_records log) ≡ length d)
  unfolding sorted_records
  sorted_records-Linked n [] [] m = (tt, refl)
  sorted_records-Linked n [] (_ ∷ _) m = absurd m
  sorted_records-Linked n (_ ∷ _) [] m = absurd m
  sorted_records-Linked n ((k, e) ∷ d) ((j, r) ∷ log) m =
      let (rest, size) = sorted_records-Linked (n + 1) d log m.4 in
      rw (insert_front n r (sorted_records log) m.1 rest) ((m.1, m.2, m.3, rest), ap suc size)

  -- From an authority whose log and registry are in step (an empty one is), after any submissions:
  -- `lineage` has one record for each number from 1 to the counter, in order; each says VALID, names
  -- the number before as its parent, and carries the digest of its own fields.
  pub lineage-Linked :
      (uuid5 : String → String) (xs : List Submission) (s : Authority)
      → InStep s
      → let last = run h uuid5 xs s in
        Linked 0 (lineage last) × (length (lineage last) ≡ last.registry.sequence_counter)
  unfolding lineage
  lineage-Linked uuid5 xs s i =
      let (matches, counted) = run-InStep uuid5 xs s i in
      let (linked, size) =
        sorted_records-Linked 0 (run h uuid5 xs s).registry.entries (run h uuid5 xs s).lineage_log
          matches in
      (linked, size ∙ sym counted)
