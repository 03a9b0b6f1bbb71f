-- ===== src/Federation/Shared.antt =====
-- federated_registry.py: an event recorded once, and the same event recorded by a peer as well.
use bhiv_qcg.Prelude.{
  ℕ, ◌+◌, String, ◌≡◌, refl, sym, ◌∙◌, ◌≢◌, true, false, Option, none, some, List, [], ◌∷◌, ◌++◌,
  arith, eqb, eq_false, get_elem?, set, All, get_elem?-set, get_elem?-set_self,
}
use bhiv_qcg.Prelude.Hashing.{Hashing}
use bhiv_qcg.Chain.{
  digest, verify_from, IsChain, verify_from-IsChain, IsChain-of_verify_from, IsChain-append,
}
use bhiv_qcg.Federation.{
  FederationEvent, Store, AuditLog, previous_hash_of, event_hash_of, event_seed, deref_one, deref,
  genesis, stamped, record_found, record_event, verify_chain,
}

-- The reference does not stand in the list.
abbrev pub IsFresh : ℕ → List ℕ → Type 0
IsFresh r refs = All (λ q. eqb q r ≡ false) refs

deref-set :
    (store : Store) (r : ℕ) (v : FederationEvent) (refs : List ℕ)
    → IsFresh r refs
    → deref (set store r v) refs ≡ deref store refs
unfolding deref
deref-set store r v [] f = refl
deref-set store r v (q ∷ refs) f =
    rw (get_elem?-set store r q v f.0, deref-set store r v refs f.1) refl

deref_one-append :
    (o : Option FederationEvent) (xs ys : List FederationEvent)
    → deref_one o (xs ++ ys) ≡ deref_one o xs ++ ys
deref_one-append none xs ys = refl
deref_one-append (some e) xs ys = refl

deref-append :
    (store : Store) (refs : List ℕ) (r : ℕ) (e : FederationEvent)
    → get_elem? store r ≡ some e
    → deref store (refs ++ r ∷ []) ≡ deref store refs ++ e ∷ []
unfolding deref
deref-append store [] r e h = rw h refl
deref-append store (q ∷ refs) r e h =
    rw (deref-append store refs r e h)
      (deref_one-append (get_elem? store q) (deref store refs) (e ∷ []))

module _ (h : Hashing) where
  -- A last event that stores another head than the one before it is refused.
  verify_from-broken :
      (head : String) (es : List FederationEvent) (stored last : String) (e : FederationEvent)
      → IsChain h previous_hash_of event_hash_of event_seed head es stored
      → e.previous_event_hash ≢ stored
      → verify_from h previous_hash_of event_hash_of event_seed head (es ++ e ∷ []) last ≡ false
  unfolding verify_from
  verify_from-broken head [] stored last e c n =
      rw (eq_false e.previous_event_hash head (λ p. n (p ∙ c))) refl
  verify_from-broken head (x ∷ es) stored last e c n =
      rw (verify_from-broken x.event_hash es stored last e c.2 n) (ground arith)

  stamped_hash :
      (head : String) (e : FederationEvent)
      → (stamped h head e).event_hash
        ≡ digest h previous_hash_of event_hash_of event_seed head (stamped h head e)
  unfolding stamped event_seed
  stamped_hash head e = refl

  stamped_previous :
      (head : String) (e : FederationEvent) → (stamped h head e).previous_event_hash ≡ head
  unfolding stamped
  stamped_previous head e = refl

  -- The first log after the event was recorded in it, over a store in which the event is `v` by now.
  abbrev logged : AuditLog → ℕ → FederationEvent → AuditLog
  logged a r e = record {
    events = a.events ++ r ∷ [];
    head_hash = (stamped h a.head_hash e).event_hash;
    sequence = a.sequence + 1;
  }

  recorded_verifies :
      (store : Store) (a : AuditLog) (r : ℕ) (e : FederationEvent)
      → get_elem? store r ≡ some e
      → IsFresh r a.events
      → verify_chain h store a ≡ true
      → verify_chain h (set store r (stamped h a.head_hash e)) (logged a r e) ≡ true
  unfolding verify_chain
  recorded_verifies store a r e here fresh v =
      let v' = stamped h a.head_hash e in
      let chain =
        IsChain-of_verify_from h previous_hash_of event_hash_of event_seed (genesis h)
          (deref store a.events) a.head_hash v in
      rw
        (
          deref-append (set store r v') a.events r v' (get_elem?-set_self store r v' e here),
          deref-set store r v' a.events fresh,
        )
        (verify_from-IsChain h previous_hash_of event_hash_of event_seed (genesis h)
          (deref store a.events ++ v' ∷ []) v'.event_hash
          (IsChain-append h previous_hash_of event_hash_of event_seed (genesis h)
            (deref store a.events) a.head_hash v' chain (stamped_previous a.head_hash e)
            (stamped_hash a.head_hash e)))

  shared_breaks :
      (store : Store) (a : AuditLog) (head : String) (r : ℕ) (e e' : FederationEvent)
      → get_elem? store r ≡ some e'
      → IsFresh r a.events
      → IsChain h previous_hash_of event_hash_of event_seed
          (genesis h)
          (deref store a.events)
          a.head_hash
      → head ≢ a.head_hash
      → verify_chain h (set store r (stamped h head e')) (logged a r e) ≡ false
  unfolding verify_chain
  shared_breaks store a head r e e' here fresh chain differ =
      let v' = stamped h head e' in
      rw
        (
          deref-append (set store r v') a.events r v' (get_elem?-set_self store r v' e' here),
          deref-set store r v' a.events fresh,
        )
        (verify_from-broken (genesis h) (deref store a.events) a.head_hash
          (stamped h a.head_hash e).event_hash v' chain
          (λ p. differ (sym (stamped_previous head e') ∙ p)))

  -- Record an event that stands in no log yet in a log that verifies: the log still verifies. Let a peer
  -- whose log has another head record the same event: the first log does not verify any more.
  pub record_event_shared :
      (store : Store) (a b : AuditLog) (r : ℕ) (e : FederationEvent)
      → get_elem? store r ≡ some e
      → IsFresh r a.events
      → verify_chain h store a ≡ true
      → b.head_hash ≢ a.head_hash
      → let (store', a') = record_event h r store a in
        let (store'', b') = record_event h r store' b in
        (verify_chain h store' a' ≡ true) × (verify_chain h store'' a' ≡ false)
  unfolding record_event record_found
  record_event_shared store a b r e here fresh v differ =
      let v' = stamped h a.head_hash e in
      let there = get_elem?-set_self store r v' e here in
      let chain =
        IsChain-of_verify_from h previous_hash_of event_hash_of event_seed (genesis h)
          (deref store a.events) a.head_hash (unfold verify_chain in v) in
      rw (here, there)
        (
          recorded_verifies store a r e here fresh v,
          shared_breaks (set store r v') a b.head_hash r e v' there fresh
              (rw (deref-set store r v' a.events fresh) chain) differ,
        )
