-- ===== src/Chain.antt =====
-- The hash chain that platform_lifecycle_manager.py, platform_service_registry.py and
-- federated_registry.py each keep: an event stores the head before it and the digest of its own
-- fields with that head. `seed head e` is what the component hands to `json.dumps`.
use bhiv_qcg.Prelude.{
  String, ◌≡◌, refl, sym, ◌∙◌, Bool, true, false, not, List, [], ◌∷◌, ◌++◌, arith, ◌==◌, eq_iff,
  if◌then◌else◌,
}
use bhiv_qcg.Prelude.Hashing.{Hashing, Json}

module _ {E : Type 0} (h : Hashing) (previous hash : E → String) (seed : String → E → Json) where
  abbrev pub digest : String → E → String
  digest head e = h.sha256 (h.dumps (seed head e))

  -- The loop of `verify_chain` from a head on, and the last test against the stored head.
  unfoldable pub verify_from : String → List E → String → Bool
  verify_from head [] stored = head == stored
  verify_from head (e ∷ events) stored =
      let rest = verify_from (hash e) events stored in
      if not (previous e == head)
      then false
      else if not (hash e == digest head e)
      then false
      else rest

  -- What the loop checks, as a predicate.
  abbrev pub IsChain : String → List E → String → Type 0
  IsChain head [] stored = head ≡ stored
  IsChain head (e ∷ events) stored =
      (previous e ≡ head) × (hash e ≡ digest head e) × IsChain (hash e) events stored

  -- The loop accepts exactly the chains.
  pub verify_from-IsChain :
      (head : String) (events : List E) (stored : String)
      → IsChain head events stored
      → verify_from head events stored ≡ true
  unfolding verify_from
  verify_from-IsChain head [] stored c = (eq_iff head stored).1 c
  verify_from-IsChain head (e ∷ events) stored c =
      rw ((eq_iff (previous e) head).1 c.0, (eq_iff (hash e) (digest head e)).1 c.1)
        (verify_from-IsChain (hash e) events stored c.2)

  pub IsChain-of_verify_from :
      (head : String) (events : List E) (stored : String)
      → verify_from head events stored ≡ true
      → IsChain head events stored
  unfolding verify_from
  IsChain-of_verify_from head [] stored v = (eq_iff head stored).0 v
  IsChain-of_verify_from head (e ∷ events) stored v = (
    ground (arith, eq_iff (previous e) head),
    ground (arith, eq_iff (hash e) (digest head e)),
    IsChain-of_verify_from (hash e) events stored (ground arith),
  )

  -- A chain is extended by an event that stores the old head and the digest over it.
  pub IsChain-append :
      (head : String) (events : List E) (stored : String) (e : E)
      → IsChain head events stored
      → previous e ≡ stored
      → hash e ≡ digest stored e
      → IsChain head (events ++ e ∷ []) (hash e)
  IsChain-append head [] stored e c p q = (p ∙ sym c, rw c q, refl)
  IsChain-append head (x ∷ events) stored e c p q =
      (c.0, c.1, IsChain-append (hash x) events stored e c.2 p q)

  -- An accepted chain stays accepted when such an event is appended and the head moved to its hash.
  pub verify_from-append :
      (head : String) (events : List E) (stored : String) (e : E)
      → verify_from head events stored ≡ true
      → previous e ≡ stored
      → hash e ≡ digest stored e
      → verify_from head (events ++ e ∷ []) (hash e) ≡ true
  verify_from-append head events stored e v p q =
      verify_from-IsChain head (events ++ e ∷ []) (hash e)
        (IsChain-append head events stored e (IsChain-of_verify_from head events stored v) p q)
