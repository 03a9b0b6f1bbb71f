-- ===== src/Federation/Node/Clock.antt =====
-- federated_registry.py: the vector clock of a node.
use bhiv_qcg.Prelude.{
  ℕ, zero, suc, max, String, ◌≡◌, refl, ◌∙◌, inl, inr, some, List, [], ◌∷◌, ◌++◌, arith, ◌==◌,
  eq_refl, ltb, if◌then◌else◌, Bool-cases, String-cases, eq_false, length, get_elem?, mem,
}
use bhiv_qcg.Prelude.Dict.{Dict, lookup, insert, lookup-insert, HasKeys}
use bhiv_qcg.Prelude.Hashing.{Hashing}
use bhiv_qcg.Federation.{FederationEvent, Store}
use bhiv_qcg.Federation.Node.Frame.{process-IsFramed}
use bhiv_qcg.Federation.Node.{
  FederatedRegistryNode, Supply, record_in_log, accept, receive, receive_found, remember, evict,
  evict_first, merge_clock, clock_at,
}

clock_at-insert :
    (k j : String) (ts : ℕ) (d : Dict ℕ)
    → clock_at j (insert k ts d) ≡ (if k == j then ts else clock_at j d)
clock_at-insert k j ts d = rw (lookup-insert k j ts d) (ground arith)

clock_at-cons :
    (k j : String) (ts : ℕ) (d : Dict ℕ)
    → clock_at j ((k, ts) ∷ d) ≡ (if k == j then ts else clock_at j d)
unfolding lookup
clock_at-cons k j ts d = ground arith

clock_at-nil : (j : String) → clock_at j [] ≡ 0
unfolding lookup
clock_at-nil j = refl

merge_clock_at :
    (theirs clock : Dict ℕ) (j : String)
    → HasKeys theirs
    → clock_at j (merge_clock theirs clock) ≡ max (clock_at j clock) (clock_at j theirs)
unfolding merge_clock
merge_clock_at [] clock j d = rw (clock_at-nil j) (omega arith)
merge_clock_at ((k, ts) ∷ theirs) clock j d =
    merge_clock_at theirs (insert k (max (clock_at k clock) ts) clock) j d.1
    ∙ rw (clock_at-insert k j (max (clock_at k clock) ts) clock, clock_at-cons k j ts theirs)
        (elim (String-cases k j) [
          | inl same ↦ rw⁻¹ same (rw (eq_refl k, d.0) (omega arith))
          | inr differ ↦ rw (eq_false k j differ) refl
        ])

evict_first_clock :
    (n : FederatedRegistryNode) (order : List String)
    → (evict_first n order).vector_clock ≡ n.vector_clock
unfolding evict_first
evict_first_clock n [] = refl
evict_first_clock n (old ∷ order) = refl

evict_clock :
    (count : ℕ) (n : FederatedRegistryNode) → (evict count n).vector_clock ≡ n.vector_clock
unfolding evict
evict_clock zero n = refl
evict_clock (suc count) n =
    evict_clock count (evict_first n n.nonce_order) ∙ evict_first_clock n n.nonce_order

remember_clock :
    (cap : ℕ) (nonce : String) (n : FederatedRegistryNode)
    → (remember cap nonce n).vector_clock ≡ n.vector_clock
unfolding remember
remember_clock cap nonce n = elim (Bool-cases (ltb cap (length (n.seen_nonces ++ nonce ∷ [])))) [
  | inl over ↦ rw over (evict_clock _ _)
  | inr within ↦ rw within refl
]

module _ (h : Hashing) where
  -- An event whose nonce the node has not seen raises each entry of its vector clock to the larger of
  -- its own and the event's, where a missing entry counts as 0; an event that it has seen leaves the
  -- clock as it is. The clock of the event has no key twice, as a dict.
  receive_clock :
      (cap ref : ℕ) (supply : Supply) (store : Store) (n : FederatedRegistryNode)
      (e : FederationEvent) (j : String)
      → get_elem? store ref ≡ some e
      → HasKeys e.vector_clock
      → clock_at j (receive h cap ref supply store n).1.vector_clock ≡ (
          if mem e.nonce n.seen_nonces
          then clock_at j n.vector_clock
          else max (clock_at j n.vector_clock) (clock_at j e.vector_clock))
  unfolding receive receive_found record_in_log accept
  receive_clock cap ref supply store n e j there keys =
      rw there (elim (Bool-cases (mem e.nonce n.seen_nonces)) [
        | inl seen ↦ rw seen refl
        | inr fresh ↦
            rw (fresh, (process-IsFramed h e supply _).same_clock, remember_clock cap e.nonce n)
              (merge_clock_at e.vector_clock n.vector_clock j keys)
      ])
