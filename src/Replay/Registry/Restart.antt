-- ===== src/Replay/Registry/Restart.antt =====
-- replay_registry.py: `_persist` and `_load`, a process that restarts on the same file.
use bhiv_qcg.Prelude.{
  ℕ, ◌+◌, ◌-◌, String, ◌≡◌, refl, sym, ◌∙◌, inl, inr, false, Option, none, some, List, [], ◌∷◌,
  ◌++◌, arith, ◌==◌, eq_iff, ltb, Bool-cases,
}
use bhiv_qcg.Prelude.Dict.{Dict, lookup, insert, lookup-insert}
use mathlib.Core.List.{append_assoc, append-nil}
use bhiv_qcg.Replay.Registry.{
  RegistryEntry, File, missing, blank, corrupt, saved, ReplayRegistry, read_entries, load,
  open_registry, persist, submit_fresh, or_now, submit, reset, Call, submits, resets, run_call, run,
}

-- No key twice, as in a `dict`.
abbrev Distinct : Dict RegistryEntry → Type 0
Distinct [] = Unit
Distinct ((k, e) ∷ d) = (lookup k d ≡ none) × Distinct d

-- The file gives the registry back.
record Kept (s : ReplayRegistry) : Type 0 where
  distinct : Distinct s.entries
  reopens : open_registry s.ttl s.max_gap s.file ≡ s

insert_new :
    (k : String) (e : RegistryEntry) (d : Dict RegistryEntry)
    → lookup k d ≡ none
    → insert k e d ≡ d ++ (k, e) ∷ []
unfolding insert lookup
insert_new k e [] h = refl
insert_new k e ((j, f) ∷ d) h = ground (arith, insert_new k e d)

insert-Distinct :
    (k : String) (e : RegistryEntry) (d : Dict RegistryEntry) → Distinct d → Distinct (insert k e d)
unfolding insert
insert-Distinct k e [] h = (unfold lookup in refl, tt)
insert-Distinct k e ((j, f) ∷ d) h = elim (Bool-cases (j == k)) [
  | inl same ↦ rw same h
  | inr other ↦ rw other (
    ground (arith, h.0, lookup-insert k j e d, eq_iff k j, eq_iff j k),
    insert-Distinct k e d h.1,
  )
]

differs :
    (k j : String) (e : RegistryEntry) (acc d : Dict RegistryEntry)
    → lookup j (acc ++ (k, e) ∷ d) ≡ none
    → (j == k) ≡ false
unfolding lookup
differs k j e [] d h = ground (arith, h, eq_iff k j, eq_iff j k)
differs k j e ((i, f) ∷ acc) d h = ground (arith, h, differs k j e acc d)

absent_before :
    (k : String) (e : RegistryEntry) (acc d : Dict RegistryEntry)
    → Distinct (acc ++ (k, e) ∷ d)
    → lookup k acc ≡ none
unfolding lookup
absent_before k e [] d h = refl
absent_before k e ((j, f) ∷ acc) d h = rw (differs k j e acc d h.0) (absent_before k e acc d h.1)

read_entries-append :
    (d acc : Dict RegistryEntry) → Distinct (acc ++ d) → read_entries d acc ≡ acc ++ d
unfolding read_entries
read_entries-append [] acc h = sym (append-nil acc)
read_entries-append ((k, e) ∷ d) acc h =
    let joined = append_assoc acc ((k, e) ∷ []) d in
    rw (insert_new k e acc (absent_before k e acc d h))
      (read_entries-append d (acc ++ (k, e) ∷ []) (rw joined h) ∙ joined)

read_entries-Distinct : (d acc : Dict RegistryEntry) → Distinct acc → Distinct (read_entries d acc)
unfolding read_entries
read_entries-Distinct [] acc h = h
read_entries-Distinct ((k, e) ∷ d) acc h =
    read_entries-Distinct d (insert k e acc) (insert-Distinct k e acc h)

persist-Kept : (s : ReplayRegistry) → Distinct s.entries → Kept (persist s)
unfolding persist open_registry load
persist-Kept s h = record { distinct = h; reopens = rw (read_entries-append s.entries [] h) refl }

open_registry-Kept : (ttl max_gap : ℕ) (file : File) → Kept (open_registry ttl max_gap file)
unfolding open_registry load
open_registry-Kept ttl max_gap missing = record { distinct = tt; reopens = refl }
open_registry-Kept ttl max_gap blank = record { distinct = tt; reopens = refl }
open_registry-Kept ttl max_gap corrupt = record { distinct = tt; reopens = refl }
open_registry-Kept ttl max_gap (saved found) = record {
  distinct = read_entries-Distinct found.entries [] tt;
  reopens = refl;
}

submit_fresh-Kept :
    (found : Option RegistryEntry) (m : String) (issued : ℕ) (s : ReplayRegistry)
    → Kept s
    → Kept (submit_fresh found m issued s).1
unfolding submit_fresh
submit_fresh-Kept (some e) m issued s k = k
submit_fresh-Kept none m issued s k =
    elim (Bool-cases (ltb s.max_gap (s.sequence_counter + 1 - s.sequence_counter))) [
      | inl far ↦ rw far k
      | inr near ↦ rw near (persist-Kept _ (insert-Distinct m _ s.entries k.distinct))
    ]

submit-Kept :
    (m : String) (t : Option ℕ) (now : ℕ) (s : ReplayRegistry) → Kept s → Kept (submit m t now s).1
unfolding submit
submit-Kept m t now s k = elim (Bool-cases (ltb (or_now t now + s.ttl) now)) [
  | inl late ↦ rw late k
  | inr fresh ↦ rw fresh (submit_fresh-Kept (lookup m s.entries) m (or_now t now) s k)
]

run_call-Kept : (c : Call) (s : ReplayRegistry) → Kept s → Kept (run_call c s)
unfolding run_call reset
run_call-Kept resets s k = persist-Kept _ tt
run_call-Kept (submits m t now) s k = submit-Kept m t now s k

run-Kept : (cs : List Call) (s : ReplayRegistry) → Kept s → Kept (run cs s)
unfolding run
run-Kept [] s k = k
run-Kept (c ∷ cs) s k = run-Kept cs (run_call c s) (run_call-Kept c s k)

-- Whatever the file holds at the start and whatever calls follow, a registry that is opened on the file
-- left behind, with the same settings, has the same state.
pub restart-run :
    (ttl max_gap : ℕ) (file : File) (cs : List Call)
    → let last = run cs (open_registry ttl max_gap file) in
      open_registry last.ttl last.max_gap last.file ≡ last
restart-run ttl max_gap file cs =
    (run-Kept cs (open_registry ttl max_gap file) (open_registry-Kept ttl max_gap file)).reopens
