-- ===== src/Routing/Providers/Best.antt =====
-- quantum_provider_registry.py: what `get_best_provider` selects.
use bhiv_qcg.Prelude.{
  ℕ, zero, suc, ◌+◌, ◌<◌, String, ◌≡◌, refl, sym, ap, ◌∙◌, ◌↔◌, inl, inr, Bool, true, false, not,
  ◌&&◌, ◌||◌, Option, none, some, List, [], ◌∷◌, arith, ◌==◌, eq_iff, ltb, eqb, if◌then◌else◌,
  Bool-cases, Option-cases, get_elem?, All,
}
use mathlib.Core.Option.{some-injective}
use bhiv_qcg.Prelude.Dict.{Dict}
use bhiv_qcg.Routing.Classes.{degraded}
use bhiv_qcg.Routing.Providers.{
  ProviderRecord, ProviderRegistry, is_available, type_priority, status_priority, is_usable, usable,
  precedes, insert_sorted, sort, first, get_best_provider,
}

-- A left-to-right search for the least provider, the first of those that compare equal.
abbrev pub better : Bool → ProviderRecord → Option ProviderRecord → ProviderRecord
better prefer_live p none = p
better prefer_live p (some q) = if precedes prefer_live p q then p else q

abbrev pub least : Bool → List ProviderRecord → Option ProviderRecord
least prefer_live [] = none
least prefer_live (p ∷ ps) = some (better prefer_live p (least prefer_live ps))

first-insert_sorted :
    (live : Bool) (p : ProviderRecord) (qs : List ProviderRecord)
    → first (insert_sorted live p qs) ≡ some (better live p (first qs))
unfolding first insert_sorted
first-insert_sorted live p [] = refl
first-insert_sorted live p (q ∷ qs) = elim (Bool-cases (precedes live p q)) [
  | inl before ↦ rw before refl
  | inr after ↦ rw after refl
]

first-sort : (live : Bool) (ps : List ProviderRecord) → first (sort live ps) ≡ least live ps
unfolding sort
first-sort live [] = unfold first in refl
first-sort live (p ∷ ps) =
    first-insert_sorted live p (sort live ps)
    ∙ ap (λ o. some (better live p o)) (first-sort live ps)

-- The provider stands in the list, and precedes or equals each one of it.
abbrev pub IsBest : Bool → ProviderRecord → List ProviderRecord → Type 0
IsBest live b ps = ((i : ℕ) × (get_elem? ps i ≡ some b)) × All (λ q. precedes live b q ≡ true) ps

precedes_refl : (live : Bool) (p : ProviderRecord) → precedes live p p ≡ true
unfolding precedes
precedes_refl live p = ground arith

precedes_trans :
    (live : Bool) (p q r : ProviderRecord)
    → precedes live p q ≡ true
    → precedes live q r ≡ true
    → precedes live p r ≡ true
unfolding precedes
precedes_trans live p q r h k = ground arith

precedes_total :
    (live : Bool) (p q : ProviderRecord) → precedes live p q ≡ false → precedes live q p ≡ true
unfolding precedes
precedes_total live p q h = ground arith

All-weaken :
    (live : Bool) (p q : ProviderRecord) (ps : List ProviderRecord)
    → precedes live p q ≡ true
    → All (λ r. precedes live q r ≡ true) ps
    → All (λ r. precedes live p r ≡ true) ps
All-weaken live p q [] h a = tt
All-weaken live p q (r ∷ ps) h a = (precedes_trans live p q r h a.0, All-weaken live p q ps h a.1)

-- What an optional choice from a list is: none only from the empty list, else the best.
abbrev pub IsChoice : Bool → Option ProviderRecord → List ProviderRecord → Type 0
IsChoice live none ps = ps ≡ []
IsChoice live (some b) ps = IsBest live b ps

-- The best of a list that has `q` as its best behind one more, `p`.
two-IsBest :
    (live : Bool) (p q b : ProviderRecord) (ps : List ProviderRecord)
    → b ≡ better live p (some q)
    → IsBest live q ps
    → IsBest live b (p ∷ ps)
two-IsBest live p q b ps e ((i, at), all) = elim (Bool-cases (precedes live p q)) [
  | inl before ↦
      let same : b ≡ p = rw before at e in
      (
        (0, rw same refl),
        (rw same (precedes_refl live p), All-weaken live b q ps (rw same before) all),
      )
  | inr after ↦
      let same : b ≡ q = rw after at e in
      (
        (suc i, rw same at),
        (
          rw same (precedes_total live p q after),
          All-weaken live b q ps (rw same (precedes_refl live q)) all,
        ),
      )
]

behind-IsBest :
    (live : Bool) (p : ProviderRecord) (ps : List ProviderRecord) (o : Option ProviderRecord)
    → IsChoice live o ps
    → IsBest live (better live p o) (p ∷ ps)
behind-IsBest live p ps none e = rw e ((0, refl), (precedes_refl live p, tt))
behind-IsBest live p ps (some q) best = two-IsBest live p q (better live p (some q)) ps refl best

least-IsChoice : (live : Bool) (ps : List ProviderRecord) → IsChoice live (least live ps) ps
least-IsChoice live [] = refl
least-IsChoice live (p ∷ ps) = behind-IsBest live p ps (least live ps) (least-IsChoice live ps)

-- The choice is none only from the empty list, and else the least that a search from the left finds.
pub get_best_provider-IsChoice :
    (min_qubits : ℕ) (prefer_live : Bool) (s : ProviderRegistry)
    → IsChoice prefer_live
        (get_best_provider min_qubits prefer_live s)
        (usable min_qubits s.providers)
      × (get_best_provider min_qubits prefer_live s
          ≡ least prefer_live (usable min_qubits s.providers))
unfolding get_best_provider
get_best_provider-IsChoice n live s =
    let found = first-sort live (usable n s.providers) in
    rw found (least-IsChoice live (usable n s.providers), refl)

pub IsChoice-none :
    (live : Bool) (o : Option ProviderRecord) (ps : List ProviderRecord)
    → IsChoice live o ps
    → ((o ≡ none) ↔ (ps ≡ []))
IsChoice-none live none ps h = ((λ e. h), (λ e. refl))
IsChoice-none live (some b) [] ((i, at), all) = absurd (ground (arith, at))
IsChoice-none live (some b) (p ∷ ps) h = ((λ e. ground (arith, e)), (λ e. ground (arith, e)))

-- The kinds of provider from the most to the least wanted, and where one stands among them.
abbrev pub wanted : Bool → List String
wanted true = "LIVE_HARDWARE" ∷ "REMOTE_SIMULATOR" ∷ "LOCAL_SIMULATOR" ∷ []
wanted false = "LOCAL_SIMULATOR" ∷ "REMOTE_SIMULATOR" ∷ "LIVE_HARDWARE" ∷ []

abbrev pub place : String → List String → ℕ
place kind [] = 0
place kind (k ∷ ks) = if kind == k then 0 else place kind ks + 1

abbrev pub is_degraded : ProviderRecord → Bool
is_degraded p = elim p.status [ degraded ↦ true | _ ↦ false ]

-- `p` is a worse choice than `q`: less wanted of kind, or of one kind and degraded where `q` is not.
abbrev pub worse : Bool → ProviderRecord → ProviderRecord → Bool
worse live p q =
    let p_place = place p.provider_type (wanted live) in
    let q_place = place q.provider_type (wanted live) in
    ltb q_place p_place || (eqb q_place p_place && is_degraded p && not (is_degraded q))

-- The provider is one of the list, no worse than any, and every one before it is worse.
pub record IsSelected (live : Bool) (b : ProviderRecord) (ps : List ProviderRecord) : Type 0 where
  pub index : ℕ
  pub there : get_elem? ps index ≡ some b
  pub best : All (λ q. worse live b q ≡ false) ps
  pub first_one :
      (j : ℕ) (q : ProviderRecord) → j < index → get_elem? ps j ≡ some q → worse live q b ≡ true

abbrev pub IsSelection : Bool → Option ProviderRecord → List ProviderRecord → Type 0
IsSelection live none ps = ps ≡ []
IsSelection live (some b) ps = IsSelected live b ps

-- No kind is another one.
kinds_differ :
    (k : String)
    → (k == "LIVE_HARDWARE" ≡ true
        → (k == "REMOTE_SIMULATOR" ≡ false) × (k == "LOCAL_SIMULATOR" ≡ false))
      × (k == "REMOTE_SIMULATOR" ≡ true → k == "LOCAL_SIMULATOR" ≡ false)
kinds_differ k = (
  (λ e. let same = (eq_iff k "LIVE_HARDWARE").0 e in rw same (refl, refl)),
  (λ e. let same = (eq_iff k "REMOTE_SIMULATOR").0 e in rw same refl),
)

precedes-worse :
    (live : Bool) (p q : ProviderRecord)
    → is_available p ≡ true
    → is_available q ≡ true
    → precedes live p q ≡ not (worse live p q)
unfolding precedes type_priority status_priority
precedes-worse true p q a b =
    ground (arith, a, b, kinds_differ p.provider_type, kinds_differ q.provider_type)
precedes-worse false p q a b =
    ground (arith, a, b, kinds_differ p.provider_type, kinds_differ q.provider_type)

-- All providers of the list are available or degraded.
abbrev AllAvailable : List ProviderRecord → Type 0
AllAvailable ps = All (λ p. is_available p ≡ true) ps

usable-AllAvailable : (n : ℕ) (ps : Dict ProviderRecord) → AllAvailable (usable n ps)
unfolding usable
usable-AllAvailable n [] = tt
usable-AllAvailable n ((k, p) ∷ ps) = elim (Bool-cases (is_usable n p)) [
  | inl usable_one ↦ rw usable_one (ground (arith, usable_one), usable-AllAvailable n ps)
  | inr unusable ↦ rw unusable (usable-AllAvailable n ps)
]

at-AllAvailable :
    (ps : List ProviderRecord) (i : ℕ) (p : ProviderRecord)
    → AllAvailable ps
    → get_elem? ps i ≡ some p
    → is_available p ≡ true
at-AllAvailable [] i p a e = absurd (ground (arith, e))
at-AllAvailable (q ∷ ps) zero p a e = rw⁻¹ (some-injective q p e) a.0
at-AllAvailable (q ∷ ps) (suc i) p a e = at-AllAvailable ps i p a.1 e

best-All :
    (live : Bool) (b : ProviderRecord) (ps : List ProviderRecord)
    → is_available b ≡ true
    → AllAvailable ps
    → All (λ q. precedes live b q ≡ true) ps
    → All (λ q. worse live b q ≡ false) ps
best-All live b [] here a best = tt
best-All live b (q ∷ ps) here a best =
    (ground (arith, precedes-worse live b q here a.0, best.0), best-All live b ps here a.1 best.1)

behind_first :
    (live : Bool) (p b : ProviderRecord) (i : ℕ) (ps : List ProviderRecord)
    → precedes live p b ≡ false
    → ((j : ℕ) (q : ProviderRecord) → j < i → get_elem? ps j ≡ some q → precedes live q b ≡ false)
    → (j : ℕ) (q : ProviderRecord) → j < suc i
    → get_elem? (p ∷ ps) j ≡ some q
    → precedes live q b ≡ false
behind_first live p b i ps head rest zero q lt at = rw⁻¹ (some-injective p q at) head
behind_first live p b i ps head rest (suc j) q lt at = rest j q (omega (arith, lt)) at

-- The index at which the search finds the least, and what stands before it.
least_first :
    (live : Bool) (ps : List ProviderRecord) (b : ProviderRecord)
    → least live ps ≡ some b
    → (i : ℕ) × (get_elem? ps i ≡ some b)
      × ((j : ℕ) (q : ProviderRecord) → j < i → get_elem? ps j ≡ some q → precedes live q b ≡ false)
least_first live [] b e = absurd (ground (arith, e))
least_first live (p ∷ ps) b e = elim (Option-cases (least live ps)) [
  | inl nothing ↦ (0, rw nothing at e, (λ j q lt at. absurd (omega (arith, lt))))
  | inr (q, found) ↦ elim (Bool-cases (precedes live p q)) [
    | inl before ↦ (0, rw (found, before) at e, (λ j r lt at. absurd (omega (arith, lt))))
    | inr after ↦
        let same : q ≡ b = some-injective q b (rw (found, after) at e) in
        let (i, at, rest) = least_first live ps b (rw same at found) in
        (suc i, at, behind_first live p b i ps (rw same at after) rest)
  ]
]

selected_lem :
    (live : Bool) (ps : List ProviderRecord) (b : ProviderRecord)
    → AllAvailable ps
    → least live ps ≡ some b
    → IsBest live b ps
    → IsSelected live b ps
selected_lem live ps b a e best =
    let (i, at, rest) = least_first live ps b e in
    let here = at-AllAvailable ps i b a at in
    record {
      index = i;
      there = at;
      best = best-All live b ps here a best.1;
      first_one = λ j q lt there.
          let other = at-AllAvailable ps j q a there in
          ground (arith, precedes-worse live q b other here, rest j q lt there);
    }

choice-IsSelection :
    (live : Bool) (o : Option ProviderRecord) (ps : List ProviderRecord)
    → AllAvailable ps
    → o ≡ least live ps
    → IsChoice live o ps
    → IsSelection live o ps
choice-IsSelection live none ps a e c = c
choice-IsSelection live (some b) ps a e c = selected_lem live ps b a (sym e) c

-- `get_best_provider` gives none exactly when no provider is usable (available or degraded, with enough
-- qubits). Else it gives the first registered of the best usable ones: live hardware is wanted most,
-- then a remote simulator, a local one, any other kind, or with `prefer_live` off a local one, a remote
-- one, live hardware, any other kind; within one kind a degraded provider is worse than one that is
-- available. So the kind decides before the status.
pub get_best_provider-IsSelection :
    (min_qubits : ℕ) (prefer_live : Bool) (s : ProviderRegistry)
    → IsSelection prefer_live
        (get_best_provider min_qubits prefer_live s)
        (usable min_qubits s.providers)
get_best_provider-IsSelection n live s =
    let (choice, found) = get_best_provider-IsChoice n live s in
    choice-IsSelection live (get_best_provider n live s) (usable n s.providers)
      (usable-AllAvailable n s.providers) found choice
