-- ===== src/Routing/Router/Decisions.antt =====
-- workload_router.py: what a decision says, over every workload and registry.
use bhiv_qcg.Prelude.{
  ◌≡◌, refl, ◌≢◌, ◌↔◌, ◌⊎◌, inl, inr, true, false, ◌||◌, Option, none, some, [], arith, ◌==◌,
  Bool-cases,
}
use bhiv_qcg.Routing.Classes.{
  ExecutionClassification, classical, quantum_local, quantum_simulated, quantum_live, ExecutionPath,
  live, local, simulated, fallback, blocked,
}
use bhiv_qcg.Routing.Providers.{
  ProviderRecord, ProviderRegistry, is_live_hardware, is_remote_simulator,
  get_execution_classification, get_best_provider, usable,
}
use bhiv_qcg.Routing.Providers.Best.{get_best_provider-IsChoice, IsChoice-none}
use bhiv_qcg.Routing.Router.{
  WorkloadSuitability, classical_preferred, quantum_preferred, hybrid_required, quantum_required,
  WorkloadMetadata, assess_suitability, route_classical, route_quantum_required,
  route_quantum_preferred, path_of, route_by, route,
}

-- The path and class of a decision fit: a live path is live hardware, a fallback or a block is classical.
abbrev pub Fits : ExecutionPath → ExecutionClassification → Type 0
Fits live c = c ≡ quantum_live
Fits simulated c = c ≡ quantum_simulated
Fits local c = (c ≡ quantum_local) ⊎ (c ≡ classical)
Fits fallback c = c ≡ classical
Fits blocked c = c ≡ classical

Fits-provider : (p : ProviderRecord) → Fits (path_of p) (get_execution_classification p)
unfolding path_of get_execution_classification
Fits-provider p = elim (Bool-cases (is_live_hardware p)) [
  | inl a ↦ rw a refl
  | inr b ↦ elim (Bool-cases (is_remote_simulator p)) [
    | inl c ↦ rw (b, c) refl
    | inr d ↦ elim (Bool-cases (p.provider_type == "LOCAL_SIMULATOR")) [
      | inl e ↦ rw (b, d, e) (inl refl)
      | inr f ↦ rw (b, d, f) (inr refl)
    ]
  ]
]

path_of-not_blocked : (p : ProviderRecord) → path_of p ≢ blocked
unfolding path_of
path_of-not_blocked p = ground arith

required-Fits :
    (m : WorkloadMetadata) (o : Option ProviderRecord) (w : WorkloadSuitability)
    → let d = route_quantum_required m w o in Fits d.recommended_path d.recommended_classification
unfolding route_quantum_required
required-Fits m none w = elim (Bool-cases m.classical_fallback_acceptable) [
  | inl a ↦ rw a refl
  | inr b ↦ rw b refl
]
required-Fits m (some p) w = Fits-provider p

preferred-Fits :
    (m : WorkloadMetadata) (o : Option ProviderRecord) (w : WorkloadSuitability)
    → let d = route_quantum_preferred m w o in Fits d.recommended_path d.recommended_classification
unfolding route_quantum_preferred
preferred-Fits m none w = refl
preferred-Fits m (some p) w = Fits-provider p

route_by-Fits :
    (m : WorkloadMetadata) (w : WorkloadSuitability) (o : Option ProviderRecord)
    → let d = route_by m w o in Fits d.recommended_path d.recommended_classification
unfolding route_by
route_by-Fits m classical_preferred o = unfold route_classical in inr refl
route_by-Fits m quantum_required o = required-Fits m o quantum_required
route_by-Fits m quantum_preferred o = preferred-Fits m o quantum_preferred
route_by-Fits m hybrid_required o = preferred-Fits m o hybrid_required

-- Every decision's path fits its class: LIVE is with QUANTUM_LIVE, SIMULATED with QUANTUM_SIMULATED,
-- LOCAL with QUANTUM_LOCAL or CLASSICAL, and a fallback or a block with CLASSICAL.
pub route-Fits :
    (m : WorkloadMetadata) (s : ProviderRegistry)
    → let d = route m s in Fits d.recommended_path d.recommended_classification
unfolding route
route-Fits m s =
    route_by-Fits m (assess_suitability m)
      (get_best_provider m.problem_size m.requires_live_hardware s)

required_blocked_iff :
    (m : WorkloadMetadata) (o : Option ProviderRecord) (w : WorkloadSuitability)
    → ((route_quantum_required m w o).recommended_path ≡ blocked)
      ↔ ((o ≡ none) × (m.classical_fallback_acceptable ≡ false))
unfolding route_quantum_required
required_blocked_iff m none w = elim (Bool-cases m.classical_fallback_acceptable) [
  | inl a ↦ rw a ((λ e. ground (arith, e)), (λ e. ground (arith, e.1)))
  | inr b ↦ rw b ((λ e. (refl, refl)), (λ e. refl))
]
required_blocked_iff m (some p) w =
    ((λ e. absurd (path_of-not_blocked p e)), (λ e. absurd (ground (arith, e.0))))

preferred_not_blocked :
    (m : WorkloadMetadata) (o : Option ProviderRecord) (w : WorkloadSuitability)
    → (route_quantum_preferred m w o).recommended_path ≢ blocked
unfolding route_quantum_preferred
preferred_not_blocked m none w e = ground (arith, e)
preferred_not_blocked m (some p) w e = path_of-not_blocked p e

route_by_blocked :
    (m : WorkloadMetadata) (w : WorkloadSuitability) (o : Option ProviderRecord)
    → ((route_by m w o).recommended_path ≡ blocked)
      ↔ ((w ≡ quantum_required) × (o ≡ none) × (m.classical_fallback_acceptable ≡ false))
unfolding route_by
route_by_blocked m classical_preferred o =
    unfold route_classical in ((λ e. ground (arith, e)), (λ e. ground (arith, e.0)))
route_by_blocked m quantum_required o =
    let both = required_blocked_iff m o quantum_required in
    ((λ e. (refl, (both.0 e).0, (both.0 e).1)), (λ e. both.1 (e.1, e.2)))
route_by_blocked m quantum_preferred o =
    ((λ e. absurd (preferred_not_blocked m o quantum_preferred e)), (λ e. ground (arith, e.0)))
route_by_blocked m hybrid_required o =
    ((λ e. absurd (preferred_not_blocked m o hybrid_required e)), (λ e. ground (arith, e.0)))

required_iff :
    (m : WorkloadMetadata)
    → (assess_suitability m ≡ quantum_required)
      ↔ (m.requires_live_hardware || m.requires_entanglement ≡ true)
unfolding assess_suitability
required_iff m = ((λ e. ground arith), (λ e. rw e refl))

-- A decision blocks exactly for a workload that needs live hardware or entanglement, when no provider is
-- usable for it and it accepts no fallback.
route_blocks :
    (m : WorkloadMetadata) (s : ProviderRegistry)
    → ((route m s).recommended_path ≡ blocked) ↔ (
        (m.requires_live_hardware || m.requires_entanglement ≡ true)
        × (usable m.problem_size s.providers ≡ [])
        × (m.classical_fallback_acceptable ≡ false))
unfolding route
route_blocks m s =
    let best = get_best_provider m.problem_size m.requires_live_hardware s in
    let blocks = route_by_blocked m (assess_suitability m) best in
    let needs = required_iff m in
    let nothing =
      IsChoice-none m.requires_live_hardware best (usable m.problem_size s.providers)
        (get_best_provider-IsChoice m.problem_size m.requires_live_hardware s).0 in
    (
      (λ e. let (w, n, f) = blocks.0 e in (needs.0 w, nothing.0 n, f)),
      (λ (l, u, f). blocks.1 (needs.1 l, nothing.1 u, f)),
    )
