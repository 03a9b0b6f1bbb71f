-- ===== src/Replay/Registry/Counter.antt =====
-- replay_registry.py: sequence numbers, and what a second submission of a message gives.
use bhiv_qcg.Prelude.{
  ℕ, ◌+◌, ◌-◌, String, ◌≡◌, refl, inl, inr, Option, none, some, List, [], ◌∷◌, arith, ◌==◌, ltb,
  Bool-cases, length,
}
use bhiv_qcg.Prelude.Dict.{Dict, lookup, insert, length-insert_new}
use bhiv_qcg.Replay.Registry.{
  RegistryEntry, ReplayRegistry, persist, submit_fresh, or_now, submit, reset, Call, submits,
  resets, run_call, run,
}

-- The entries carry `n + 1, n + 2, ...` in the order of their insertion.
abbrev pub Numbered : ℕ → Dict RegistryEntry → Type 0
Numbered n [] = Unit
Numbered n ((k, e) ∷ d) = (e.sequence_number ≡ n + 1) × Numbered (n + 1) d

abbrev pub InOrder : ReplayRegistry → Type 0
InOrder s = Numbered 0 s.entries × (s.sequence_counter ≡ length s.entries)

insert-Numbered :
    (k : String) (e : RegistryEntry) (n : ℕ) (d : Dict RegistryEntry)
    → lookup k d ≡ none
    → e.sequence_number ≡ n + length d + 1
    → Numbered n d
    → Numbered n (insert k e d)
unfolding insert lookup
insert-Numbered k e n [] new num h = (omega arith, tt)
insert-Numbered k e n ((j, f) ∷ d) new num h = elim (Bool-cases (j == k)) [
  | inl same ↦ absurd (ground (arith, new))
  | inr other ↦ rw other (h.0, insert-Numbered k e (n + 1) d (rw other at new) (omega arith) h.1)
]

submit_fresh-InOrder :
    (found : Option RegistryEntry) (m : String) (issued : ℕ) (s : ReplayRegistry)
    → lookup m s.entries ≡ found
    → InOrder s
    → InOrder (submit_fresh found m issued s).1
unfolding submit_fresh persist
submit_fresh-InOrder (some e) m issued s here h = h
submit_fresh-InOrder none m issued s here h =
    elim (Bool-cases (ltb s.max_gap (s.sequence_counter + 1 - s.sequence_counter))) [
      | inl far ↦ rw far h
      | inr near ↦ rw near (
        insert-Numbered m _ 0 s.entries here (omega (arith, h.1)) h.0,
        omega (
          arith,
          h.1,
          length-insert_new m
              (record {
                message_id = m;
                sequence_number = s.sequence_counter + 1;
                issued_at = issued;
              })
              s.entries here,
        ),
      )
    ]

submit-InOrder :
    (m : String) (t : Option ℕ) (now : ℕ) (s : ReplayRegistry)
    → InOrder s
    → InOrder (submit m t now s).1
unfolding submit
submit-InOrder m t now s h = elim (Bool-cases (ltb (or_now t now + s.ttl) now)) [
  | inl late ↦ rw late h
  | inr fresh ↦ rw fresh (submit_fresh-InOrder (lookup m s.entries) m (or_now t now) s refl h)
]

run_call-InOrder : (c : Call) (s : ReplayRegistry) → InOrder s → InOrder (run_call c s)
unfolding run_call reset persist
run_call-InOrder resets s h = (tt, refl)
run_call-InOrder (submits m t now) s h = submit-InOrder m t now s h

-- Whatever the calls, if the entries carry 1, 2, ... in the order of their insertion and the counter is
-- their number, it is so afterwards.
run-InOrder : (cs : List Call) (s : ReplayRegistry) → InOrder s → InOrder (run cs s)
unfolding run
run-InOrder [] s h = h
run-InOrder (c ∷ cs) s h = run-InOrder cs (run_call c s) (run_call-InOrder c s h)
