-- ===== src/Replay/Enforcer/Bounds.antt =====
-- replay_enforcer.py: `_evict_if_needed` and the size of the cache.
use bhiv_qcg.Prelude.{
  ℕ, zero, suc, ◌+◌, ◌/◌, ◌≤◌, ◌<◌, max, String, ◌≢◌, inl, inr, Option, none, some, List, [], ◌∷◌,
  arith, eq_refl, ltb, leb, Bool-cases, ltb→lt, length,
}
use bhiv_qcg.Prelude.Dict.{
  Dict, lookup, insert, erase, length-erase, length-erase_found, length-insert,
}
use bhiv_qcg.Replay.Enforcer.{
  ReplayEnforcer, is_stale, or_now, expired, delete_all, insert_by_issued, sort_by_issued,
  first_keys, evict_oldest, evict_if_needed, submit_fresh, submit_with, Submission, run,
}

length-delete_all : (aids : List String) (d : Dict (ℕ × ℕ)) → length (delete_all aids d) ≤ length d
unfolding delete_all
length-delete_all [] d = omega arith
length-delete_all (a ∷ aids) d = omega (arith, length-delete_all aids (erase a d), length-erase a d)

-- Each key of the list is a key of the dict.
abbrev KeysIn : Dict (ℕ × ℕ) → Dict (ℕ × ℕ) → Type 0
KeysIn d [] = Unit
KeysIn d (x ∷ xs) = (lookup x.0 d ≢ none) × KeysIn d xs

insert_by_issued-KeysIn :
    (d : Dict (ℕ × ℕ)) (x : String × (ℕ × ℕ)) (ys : Dict (ℕ × ℕ))
    → lookup x.0 d ≢ none
    → KeysIn d ys
    → KeysIn d (insert_by_issued x ys)
unfolding insert_by_issued
insert_by_issued-KeysIn d x [] h k = (h, tt)
insert_by_issued-KeysIn d x (y ∷ ys) h k = elim (Bool-cases (leb x.1.1 y.1.1)) [
  | inl before ↦ rw before (h, k)
  | inr after ↦ rw after (k.0, insert_by_issued-KeysIn d x ys h k.1)
]

sort_by_issued-KeysIn : (d xs : Dict (ℕ × ℕ)) → KeysIn d xs → KeysIn d (sort_by_issued xs)
unfolding sort_by_issued
sort_by_issued-KeysIn d [] k = tt
sort_by_issued-KeysIn d (x ∷ xs) k =
    insert_by_issued-KeysIn d x (sort_by_issued xs) k.0 (sort_by_issued-KeysIn d xs k.1)

KeysIn-weaken : (x : String × (ℕ × ℕ)) (d ys : Dict (ℕ × ℕ)) → KeysIn d ys → KeysIn (x ∷ d) ys
unfolding lookup
KeysIn-weaken x d [] k = tt
KeysIn-weaken x d (y ∷ ys) k = (ground (arith, k.0), KeysIn-weaken x d ys k.1)

KeysIn-self : (d : Dict (ℕ × ℕ)) → KeysIn d d
KeysIn-self [] = tt
KeysIn-self (x ∷ d) =
    (unfold lookup in ground (arith, eq_refl x.0), KeysIn-weaken x d d (KeysIn-self d))

insert_by_issued-nonempty :
    (x : String × (ℕ × ℕ)) (ys : Dict (ℕ × ℕ)) → 0 < length (insert_by_issued x ys)
unfolding insert_by_issued
insert_by_issued-nonempty x [] = omega arith
insert_by_issued-nonempty x (y ∷ ys) = ground arith

length-sort_by_issued : (xs : Dict (ℕ × ℕ)) → 0 < length xs → 0 < length (sort_by_issued xs)
unfolding sort_by_issued
length-sort_by_issued [] h = h
length-sort_by_issued (x ∷ xs) h = insert_by_issued-nonempty x (sort_by_issued xs)

delete_first-lt :
    (n : ℕ) (items d : Dict (ℕ × ℕ))
    → 0 < n
    → 0 < length items
    → KeysIn d items
    → length (delete_all (first_keys n items) d) < length d
unfolding first_keys delete_all
delete_first-lt zero items d p q k = absurd (omega arith)
delete_first-lt (suc n) [] d p q k = absurd (omega arith)
delete_first-lt (suc n) (x ∷ items) d p q k =
    omega
      (arith, length-delete_all (first_keys n items) (erase x.0 d), length-erase_found x.0 d k.0)

evict_oldest_full :
    (threshold : ℕ) (d : Dict (ℕ × ℕ))
    → 0 < length d
    → length (delete_all (first_keys (max 1 (threshold / 10)) (sort_by_issued d)) d) < length d
evict_oldest_full threshold d pos =
    delete_first-lt (max 1 (threshold / 10)) (sort_by_issued d) d (omega arith)
      (length-sort_by_issued d pos) (sort_by_issued-KeysIn d d (KeysIn-self d))

evict_oldest_bound :
    (threshold : ℕ) (d : Dict (ℕ × ℕ))
    → 0 < threshold
    → length d ≤ threshold
    → length (evict_oldest threshold d) < threshold
unfolding evict_oldest
evict_oldest_bound threshold d pos fits = elim (Bool-cases (leb threshold (length d))) [
  | inl full ↦ rw full (omega (arith, evict_oldest_full threshold d (ground arith)))
  | inr room ↦ rw room (ground arith)
]

evict_if_needed_bound :
    (threshold ttl now : ℕ) (d : Dict (ℕ × ℕ))
    → 0 < threshold
    → length d ≤ threshold
    → length (evict_if_needed threshold ttl now d) < threshold
unfolding evict_if_needed
evict_if_needed_bound threshold ttl now d pos fits = elim (Bool-cases (ltb (length d) threshold)) [
  | inl room ↦ rw room (ltb→lt (length d) threshold room)
  | inr full ↦ rw full (
      evict_oldest_bound threshold (delete_all (expired ttl now d) d) pos
        (omega (arith, length-delete_all (expired ttl now d) d)))
]

submit_fresh_bound :
    (threshold : ℕ) (found : Option (ℕ × ℕ)) (aid : String) (issued now : ℕ) (s : ReplayEnforcer)
    → length s.cache < threshold
    → length (submit_fresh threshold found aid issued now s).1.cache < threshold
unfolding submit_fresh
submit_fresh_bound threshold (some e) aid issued now s h = h
submit_fresh_bound threshold none aid issued now s h =
    evict_if_needed_bound threshold s.ttl now (insert aid (s.sequence_counter + 1, issued) s.cache)
      (omega arith) (omega (arith, length-insert aid (s.sequence_counter + 1, issued) s.cache))

submit_bound :
    (threshold : ℕ) (aid : String) (issued_at : Option ℕ) (now : ℕ) (s : ReplayEnforcer)
    → length s.cache < threshold
    → length (submit_with threshold aid issued_at now s).1.cache < threshold
unfolding submit_with
submit_bound threshold aid issued_at now s h =
    elim (Bool-cases (is_stale s.ttl (or_now issued_at now) now)) [
      | inl stale ↦ rw stale h
      | inr fresh ↦
          rw fresh
            (submit_fresh_bound threshold (lookup aid s.cache) aid (or_now issued_at now) now s h)
    ]

-- From a cache with fewer entries than the threshold, whatever is submitted, the cache keeps fewer
-- entries than the threshold.
run_bound :
    (threshold : ℕ) (xs : List Submission) (s : ReplayEnforcer)
    → length s.cache < threshold
    → length (run threshold xs s).1.cache < threshold
unfolding run
run_bound threshold [] s h = h
run_bound threshold (x ∷ xs) s h =
    run_bound threshold xs (submit_with threshold x.artifact_id x.issued_at x.now s).1
      (submit_bound threshold x.artifact_id x.issued_at x.now s h)
