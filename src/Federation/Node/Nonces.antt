-- ===== src/Federation/Node/Nonces.antt =====
-- federated_registry.py: the nonces that a node remembers.
use bhiv_qcg.Prelude.{
  ℕ, ◌+◌, ◌-◌, ◌≤◌, ◌<◌, String, ◌≡◌, refl, sym, ◌∙◌, ◌≢◌, inl, inr, true, false, ◌||◌, some, List,
  [], ◌∷◌, ◌++◌, arith, ◌==◌, eq_iff, eq_refl, ltb, Bool-cases, String-cases, eq_false, ltb→lt,
  length, get_elem?, length-append, mem, get_elem?-set_self,
}
use mathlib.Core.Path.{subst}
use bhiv_qcg.Prelude.Hashing.{Hashing}
use bhiv_qcg.Federation.{FederationEvent, Store, record_event, record_found, stamped}
use bhiv_qcg.Federation.Node.Frame.{process-IsFramed}
use bhiv_qcg.Federation.Node.{
  FederatedRegistryNode, Supply, record_in_log, accept, receive, receive_found, remember, evict,
  evict_first, merge_clock, discard,
}

-- No text stands twice.
abbrev pub Distinct : List String → Type 0
Distinct [] = Unit
Distinct (x ∷ xs) = (mem x xs ≡ false) × Distinct xs

-- The set and the order of insertion agree, and there are at most `cap` nonces.
pub record IsWindow (cap : ℕ) (n : FederatedRegistryNode) : Type 0 where
  pub same : n.seen_nonces ≡ n.nonce_order
  pub distinct : Distinct n.nonce_order
  pub bounded : length n.nonce_order ≤ cap

mem-snoc : (s x : String) (xs : List String) → mem s (xs ++ x ∷ []) ≡ (mem s xs || s == x)
mem-snoc s x [] = ground arith
mem-snoc s x (y ∷ xs) = ground (arith, mem-snoc s x xs)

Distinct-snoc :
    (x : String) (xs : List String) → Distinct xs → mem x xs ≡ false → Distinct (xs ++ x ∷ [])
Distinct-snoc x [] d m = (refl, tt)
Distinct-snoc x (y ∷ xs) d m = (
  rw (mem-snoc y x xs, d.0) (ground (arith, m, eq_iff x y, eq_iff y x)),
  Distinct-snoc x xs d.1 (ground (arith, m)),
)

discard_absent : (s : String) (xs : List String) → mem s xs ≡ false → discard s xs ≡ xs
unfolding discard
discard_absent s [] m = refl
discard_absent s (x ∷ xs) m =
    rw (discard_absent s xs (ground (arith, m))) (ground (arith, m, eq_iff s x, eq_iff x s))

discard_first : (s : String) (xs : List String) → mem s xs ≡ false → discard s (s ∷ xs) ≡ xs
unfolding discard
discard_first s xs m = rw (eq_refl s) (discard_absent s xs m)

-- One nonce more than the cap: the first goes.
evict_first_lem :
    (cap : ℕ) (n : FederatedRegistryNode) (order : List String)
    → n.seen_nonces ≡ order
    → Distinct order
    → length order ≡ cap + 1
    → IsWindow cap (evict_first n order)
unfolding evict_first
evict_first_lem cap n [] same distinct long = absurd (omega (arith, long))
evict_first_lem cap n (x ∷ xs) same distinct long = record {
  same = rw same (discard_first x xs distinct.0);
  distinct = distinct.1;
  bounded = omega (arith, long);
}

evict_first_keeps :
    (n : FederatedRegistryNode) (order : List String) (s : String)
    → n.seen_nonces ≡ order
    → Distinct order
    → 1 < length order
    → mem s order ≡ true
    → get_elem? order 0 ≢ some s
    → mem s (evict_first n order).seen_nonces ≡ true
unfolding evict_first
evict_first_keeps n [] s same distinct long m f = absurd (omega (arith, long))
evict_first_keeps n (x ∷ xs) s same distinct long m f =
    rw (same, discard_first x xs distinct.0)
      (elim (String-cases s x) [
        | inl e ↦ absurd (f (rw e refl))
        | inr differ ↦ ground (arith, m, eq_false s x differ)
      ])

get_elem?-snoc :
    (xs : List String) (x s : String)
    → mem s xs ≡ false
    → 0 < length xs
    → get_elem? (xs ++ x ∷ []) 0 ≢ some s
get_elem?-snoc [] x s m l e = absurd (omega (arith, l))
get_elem?-snoc (y ∷ xs) x s m l e = ground (arith, m, eq_iff s y, e)

-- A fresh nonce is remembered, within the cap.
remember_lem :
    (cap : ℕ) (nonce : String) (n : FederatedRegistryNode)
    → 0 < cap
    → IsWindow cap n
    → mem nonce n.seen_nonces ≡ false
    → IsWindow cap (remember cap nonce n) × (mem nonce (remember cap nonce n).seen_nonces ≡ true)
unfolding remember evict
remember_lem cap nonce n pos w fresh =
    let order = n.nonce_order ++ nonce ∷ [] in
    let absent = subst (λ xs. mem nonce xs ≡ false) w.same fresh in
    let grown = Distinct-snoc nonce n.nonce_order w.distinct absent in
    let long = length-append n.nonce_order (nonce ∷ []) in
    let there : mem nonce order ≡ true =
      rw (mem-snoc nonce nonce n.nonce_order) (ground (arith, eq_refl nonce)) in
    rw w.same (elim (Bool-cases (ltb cap (length order))) [
      | inr within ↦
          rw within
            (record { same = refl; distinct = grown; bounded = ground (arith, within) }, there)
      | inl over ↦
          let full = ltb→lt cap (length order) over in
          let one : length order - cap ≡ 1 = omega (arith, full, long, w.bounded) in
          let n' = record n { seen_nonces = order; nonce_order = order } in
          rw (over, one)
            (
              evict_first_lem cap n' order refl grown (omega (arith, full, long, w.bounded)),
              evict_first_keeps n' order nonce refl grown (omega (arith, full, pos)) there (
                  get_elem?-snoc n.nonce_order nonce nonce absent (omega (arith, full, long, pos))),
            )
    ])

module _ (h : Hashing) where
  -- An accepted event's nonce is remembered.
  accept_lem :
      (cap : ℕ) (e : FederationEvent) (supply : Supply) (n : FederatedRegistryNode)
      → 0 < cap
      → IsWindow cap n
      → mem e.nonce n.seen_nonces ≡ false
      → IsWindow cap (accept h cap e supply n)
        × (mem e.nonce (accept h cap e supply n).seen_nonces ≡ true)
  unfolding accept
  accept_lem cap e supply n pos w fresh =
      let m = remember cap e.nonce n in
      let (window, held) = remember_lem cap e.nonce n pos w fresh in
      let f =
        process-IsFramed h e supply
          (record m { vector_clock = merge_clock e.vector_clock m.vector_clock }) in
      (
        record {
          same = f.same_seen ∙ window.same ∙ sym f.same_order;
          distinct = rw f.same_order window.distinct;
          bounded = rw f.same_order window.bounded;
        },
        rw f.same_seen held,
      )

  record_in_log-IsWindow :
      (cap ref : ℕ) (store : Store) (n : FederatedRegistryNode)
      → IsWindow cap n
      → IsWindow cap (record_in_log h ref store n).1
  unfolding record_in_log
  record_in_log-IsWindow cap ref store n w = record {
    same = w.same;
    distinct = w.distinct;
    bounded = w.bounded;
  }

  stamped_nonce : (head : String) (e : FederationEvent) → (stamped h head e).nonce ≡ e.nonce
  unfolding stamped
  stamped_nonce head e = refl

  recorded_there :
      (ref : ℕ) (store : Store) (n : FederatedRegistryNode) (e : FederationEvent)
      → get_elem? store ref ≡ some e
      → get_elem? (record_in_log h ref store n).0 ref ≡ some (stamped h n.audit_log.head_hash e)
  unfolding record_in_log record_event record_found
  recorded_there ref store n e there =
      rw there (get_elem?-set_self store ref (stamped h n.audit_log.head_hash e) e there)

  replayed :
      (cap ref : ℕ) (supply : Supply) (store : Store) (n : FederatedRegistryNode)
      (e : FederationEvent)
      → get_elem? store ref ≡ some e
      → mem e.nonce n.seen_nonces ≡ true
      → receive_found h cap (get_elem? store ref) ref supply store n ≡ (store, n)
  unfolding receive_found
  replayed cap ref supply store n e there seen = rw (there, seen) refl

  -- Take a node whose set of nonces and list of nonces agree, without repetition and within a positive
  -- cap, as those of a new node do. After any event is received this still holds, and receiving the same
  -- event again, whatever the clocks and random sources give then, changes nothing at all.
  pub receive_once :
      (cap ref : ℕ) (supply supply' : Supply) (store : Store) (n : FederatedRegistryNode)
      (e : FederationEvent)
      → 0 < cap
      → IsWindow cap n
      → get_elem? store ref ≡ some e
      → let (store', n') = receive h cap ref supply store n in
        IsWindow cap n' × (receive h cap ref supply' store' n' ≡ (store', n'))
  unfolding receive receive_found record_in_log
  receive_once cap ref supply supply' store n e pos w there =
      elim (Bool-cases (mem e.nonce n.seen_nonces)) [
        | inl seen ↦ rw (there, seen) (w, rw (there, seen) refl)
        | inr fresh ↦
            let (window, held) = accept_lem cap e supply n pos w fresh in
            rw (there, fresh)
              (
                record_in_log-IsWindow cap ref store (accept h cap e supply n) window,
                replayed cap ref supply' _ _ _
                    (recorded_there ref store (accept h cap e supply n) e there)
                    (rw (stamped_nonce (accept h cap e supply n).audit_log.head_hash e) held),
              )
      ]
