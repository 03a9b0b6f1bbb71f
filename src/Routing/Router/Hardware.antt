-- ===== src/Routing/Router/Hardware.antt =====
-- workload_router.py: where a workload goes that needs live hardware.
use bhiv_qcg.Prelude.{
  ℕ, zero, suc, ◌≡◌, refl, ◌↔◌, inl, inr, true, Option, none, some, List, [], ◌∷◌, arith,
  Bool-cases, get_elem?, All,
}
use bhiv_qcg.Routing.Classes.{live}
use bhiv_qcg.Routing.Providers.{
  ProviderRecord, ProviderRegistry, is_live_hardware, get_best_provider, usable, precedes,
  type_priority,
}
use bhiv_qcg.Routing.Providers.Best.{IsChoice, get_best_provider-IsChoice}
use bhiv_qcg.Routing.Router.{
  WorkloadSuitability, quantum_required, WorkloadMetadata, assess_suitability,
  route_quantum_required, path_of, route_by, route,
}

live-priority : (p : ProviderRecord) → (type_priority true p ≡ 0) ↔ (is_live_hardware p ≡ true)
unfolding type_priority
live-priority p = elim (Bool-cases (is_live_hardware p)) [
  | inl a ↦ rw a ((λ e. refl), (λ e. refl))
  | inr b ↦ rw b ((λ e. ground (arith, e)), (λ e. ground (arith, e)))
]

path_of-live : (p : ProviderRecord) → (path_of p ≡ live) ↔ (is_live_hardware p ≡ true)
unfolding path_of
path_of-live p = elim (Bool-cases (is_live_hardware p)) [
  | inl a ↦ rw a ((λ e. refl), (λ e. refl))
  | inr b ↦ rw b ((λ e. ground (arith, e)), (λ e. ground (arith, e)))
]

-- A live device of the list.
abbrev pub HasLive : List ProviderRecord → Type 0
HasLive ps =
    (i : ℕ) × (p : ProviderRecord) × (get_elem? ps i ≡ some p) × (is_live_hardware p ≡ true)

precedes_live :
    (b p : ProviderRecord)
    → precedes true b p ≡ true
    → is_live_hardware p ≡ true
    → is_live_hardware b ≡ true
unfolding precedes
precedes_live b p h l =
    let zero_there = (live-priority p).1 l in (live-priority b).0 (ground (arith, h, zero_there))

best_live :
    (b p : ProviderRecord) (ps : List ProviderRecord) (i : ℕ)
    → All (λ q. precedes true b q ≡ true) ps
    → get_elem? ps i ≡ some p
    → is_live_hardware p ≡ true
    → is_live_hardware b ≡ true
best_live b p [] i all at l = absurd (ground (arith, at))
best_live b p (q ∷ ps) zero all at l = precedes_live b q all.0 (ground (arith, at, l))
best_live b p (q ∷ ps) (suc i) all at l = best_live b p ps i all.1 at l

required_live :
    (m : WorkloadMetadata) (w : WorkloadSuitability) (o : Option ProviderRecord)
    (ps : List ProviderRecord)
    → IsChoice true o ps
    → ((route_quantum_required m w o).recommended_path ≡ live) ↔ HasLive ps
unfolding route_quantum_required
required_live m w none ps e =
    rw e ((λ h. ground (arith, h)), (λ (i, p, at, l). absurd (ground (arith, at))))
required_live m w (some b) ps ((i, at), all) = (
  (λ h. (i, b, at, (path_of-live b).0 h)),
  (λ (j, p, at', l). (path_of-live b).1 (best_live b p ps j all at' l)),
)

needs_live :
    (m : WorkloadMetadata)
    → m.requires_live_hardware ≡ true
    → assess_suitability m ≡ quantum_required
unfolding assess_suitability
needs_live m h = rw h refl

-- A workload that needs live hardware is routed on the live path exactly when some usable provider is
-- live hardware.
route_live :
    (m : WorkloadMetadata) (s : ProviderRegistry)
    → m.requires_live_hardware ≡ true
    → ((route m s).recommended_path ≡ live) ↔ HasLive (usable m.problem_size s.providers)
unfolding route route_by route_quantum_required
route_live m s h =
    rw (needs_live m h, h)
      (required_live m quantum_required (get_best_provider m.problem_size true s)
        (usable m.problem_size s.providers) (get_best_provider-IsChoice m.problem_size true s).0)
