-- ===== src/Replay/Registry/Answers.antt =====
-- replay_registry.py: the answers of `submit`, to a message that is new and to one that was accepted.
use bhiv_qcg.Prelude.{
  ℕ, ◌+◌, ◌-◌, String, ◌≡◌, refl, ap, ◌≢◌, inl, inr, Option, none, some, List, [], ◌∷◌, arith,
  eq_iff, ltb, if◌then◌else◌, Bool-cases, All,
}
use bhiv_qcg.Prelude.Dict.{lookup, lookup-insert, lookup-insert_self}
use bhiv_qcg.Replay.Registry.{
  valid, duplicate, stale, too_old, already_processed, RegistryEntry, ReplayRegistry, persist,
  submit_fresh, or_now, submit, Call, submits, resets, run_call, run,
}

abbrev pub NoReset : List Call → Type 0
NoReset cs = All (λ c. c ≢ resets) cs

submit_fresh-keeps :
    (found : Option RegistryEntry) (m other : String) (issued : ℕ) (s : ReplayRegistry)
    (e : RegistryEntry)
    → lookup m s.entries ≡ found
    → lookup other s.entries ≡ some e
    → lookup other (submit_fresh found m issued s).1.entries ≡ some e
unfolding submit_fresh persist
submit_fresh-keeps (some f) m other issued s e here h = h
submit_fresh-keeps none m other issued s e here h =
    elim (Bool-cases (ltb s.max_gap (s.sequence_counter + 1 - s.sequence_counter))) [
      | inl far ↦ rw far h
      | inr near ↦ rw near (
          let e' : RegistryEntry = record {
            message_id = m;
            sequence_number = s.sequence_counter + 1;
            issued_at = issued;
          } in
          ground (
            arith,
            lookup-insert m other e' s.entries,
            eq_iff m other,
            ap (λ k. lookup k s.entries),
          ))
    ]

pub submit-keeps :
    (m other : String) (t : Option ℕ) (now : ℕ) (s : ReplayRegistry) (e : RegistryEntry)
    → lookup other s.entries ≡ some e
    → lookup other (submit m t now s).1.entries ≡ some e
unfolding submit
submit-keeps m other t now s e h = elim (Bool-cases (ltb (or_now t now + s.ttl) now)) [
  | inl late ↦ rw late h
  | inr fresh ↦ rw fresh (submit_fresh-keeps (lookup m s.entries) m other (or_now t now) s e refl h)
]

run-keeps :
    (cs : List Call) (other : String) (s : ReplayRegistry) (e : RegistryEntry)
    → NoReset cs
    → lookup other s.entries ≡ some e
    → lookup other (run cs s).entries ≡ some e
unfolding run run_call
run-keeps [] other s e n h = h
run-keeps (resets ∷ cs) other s e n h = absurd (n.0 refl)
run-keeps (submits m t now ∷ cs) other s e n h =
    run-keeps cs other (submit m t now s).1 e n.1 (submit-keeps m other t now s e h)

-- What a valid submission stores under the lock.
submit_fresh-valid :
    (found : Option RegistryEntry) (m : String) (issued : ℕ) (s : ReplayRegistry)
    → (submit_fresh found m issued s).0.status ≡ valid
    → (e : RegistryEntry) × (lookup m (submit_fresh found m issued s).1.entries ≡ some e)
      × (e.sequence_number ≡ (submit_fresh found m issued s).0.sequence_number)
unfolding submit_fresh persist
submit_fresh-valid (some e) m issued s h = absurd (ground (arith, h))
submit_fresh-valid none m issued s h =
    elim (Bool-cases (ltb s.max_gap (s.sequence_counter + 1 - s.sequence_counter))) [
      | inl far ↦ absurd (ground (arith, far, h))
      | inr near ↦ rw near (
          let e : RegistryEntry = record {
            message_id = m;
            sequence_number = s.sequence_counter + 1;
            issued_at = issued;
          } in
          (e, lookup-insert_self m e s.entries, refl))
    ]

pub submit-valid :
    (m : String) (t : Option ℕ) (now : ℕ) (s : ReplayRegistry)
    → (submit m t now s).0.status ≡ valid
    → (e : RegistryEntry) × (lookup m (submit m t now s).1.entries ≡ some e)
      × (e.sequence_number ≡ (submit m t now s).0.sequence_number)
unfolding submit
submit-valid m t now s h = elim (Bool-cases (ltb (or_now t now + s.ttl) now)) [
  | inl late ↦ absurd (ground (arith, late, h))
  | inr fresh ↦
      rw fresh (submit_fresh-valid (lookup m s.entries) m (or_now t now) s (rw fresh at h))
]

-- The answer for a message that has an entry: STALE or DUPLICATE, with the state unchanged.
pub submit_known :
    (m : String) (t : Option ℕ) (now : ℕ) (s : ReplayRegistry) (e : RegistryEntry)
    → lookup m s.entries ≡ some e
    → submit m t now s ≡ (
      (if ltb (or_now t now + s.ttl) now
          then record {
            message_id = m;
            sequence_number = 0;
            status = stale;
            reason = too_old (now - or_now t now) s.ttl;
          }
          else record {
            message_id = m;
            sequence_number = e.sequence_number;
            status = duplicate;
            reason = already_processed e.sequence_number;
          }),
      s,
    )
unfolding submit submit_fresh
submit_known m t now s e h = elim (Bool-cases (ltb (or_now t now + s.ttl) now)) [
  | inl late ↦ rw late refl
  | inr fresh ↦ rw (fresh, h) refl
]

-- A message that got VALID gets, after any further submissions, STALE when it is too old then and else
-- DUPLICATE with the number that it was given, and the registry is left as it is.
resubmit :
    (m : String) (t t' : Option ℕ) (now now' : ℕ) (cs : List Call) (s : ReplayRegistry)
    → (submit m t now s).0.status ≡ valid
    → NoReset cs
    → let last = run cs (submit m t now s).1 in
      let seq = (submit m t now s).0.sequence_number in
      submit m t' now' last ≡ (
        (if ltb (or_now t' now' + last.ttl) now'
            then record {
              message_id = m;
              sequence_number = 0;
              status = stale;
              reason = too_old (now' - or_now t' now') last.ttl;
            }
            else record {
              message_id = m;
              sequence_number = seq;
              status = duplicate;
              reason = already_processed seq;
            }),
        last,
      )
resubmit m t t' now now' cs s ok n =
    let (e, here, same) = submit-valid m t now s ok in
    rw (← same) (
      submit_known m t' now' (run cs (submit m t now s).1) e
        (run-keeps cs m (submit m t now s).1 e n here))
