-- ===== src/EvidenceLedger/Tamper.antt =====
-- evidence_ledger.py: what `verify_chain` detects.
use Prim.Native.String.{◌++◌ as text_append}
use text.Mathlib.TextLemmas.{append_inj}
use bhiv_qcg.Prelude.{
  String, ◌≡◌, refl, sym, ap₂, ◌∙◌, ◌⊎◌, inl, inr, true, some, List, [], ◌∷◌, map, arith,
  String-cases, length,
}
use bhiv_qcg.Merkle.Tamper.{first-IsIn}
use bhiv_qcg.Prelude.Hashing.{Hashing, Clash, widened, IsDigest, IsDocumented}
use bhiv_qcg.EvidenceLedger.{ExecutionRecord, EvidenceLedger, hash_pair, genesis, verify_chain}
use bhiv_qcg.EvidenceLedger.Verified.{IsLinked, IsLinked-of_verify_from}

-- The texts that are digested along the chain from `head`.
abbrev pub chain_texts : Hashing → String → List ExecutionRecord → List String
chain_texts h head [] = []
chain_texts h head (r ∷ rs) =
    text_append head r.execution_hash ∷ chain_texts h (hash_pair h head r.execution_hash) rs

module _ (h : Hashing) (documented : IsDocumented h) where
  hash_pair-inj :
      (a b c d : String)
      → IsDigest a
      → IsDigest c
      → hash_pair h a b ≡ hash_pair h c d
      → ((a ≡ c) × (b ≡ d)) ⊎ Clash h (text_append a b ∷ []) (text_append c d ∷ [])
  unfolding hash_pair
  hash_pair-inj a b c d da dc e = elim (String-cases (text_append a b) (text_append c d)) [
    | inl same ↦ inl (append_inj same (da ∙ sym dc))
    | inr differ ↦ inr (record {
      left = text_append a b;
      right = text_append c d;
      left_in = inl refl;
      right_in = inl refl;
      differ = differ;
      same_digest = e;
    })
  ]

  -- The execution hashes, in order.
  abbrev pub execution_hashes : List ExecutionRecord → List String
  execution_hashes rs = map (λ r. r.execution_hash) rs

  linked-inj :
      (a b : String) (rs qs : List ExecutionRecord) (xs ys : List String) (stored : String)
      → IsDigest a
      → IsDigest b
      → length rs ≡ length qs
      → IsLinked h a rs xs stored
      → IsLinked h b qs ys stored
      → ((a ≡ b) × (execution_hashes rs ≡ execution_hashes qs))
        ⊎ Clash h (chain_texts h a rs) (chain_texts h b qs)
  linked-inj a b [] [] xs ys stored da db n l m = inl (l ∙ sym m, refl)
  linked-inj a b [] (q ∷ qs) xs ys stored da db n l m = absurd (omega arith)
  linked-inj a b (r ∷ rs) [] xs ys stored da db n l m = absurd (omega arith)
  linked-inj a b (r ∷ rs) (q ∷ qs) [] ys stored da db n l m = absurd l
  linked-inj a b (r ∷ rs) (q ∷ qs) (x ∷ xs) [] stored da db n l m = absurd m
  linked-inj a b (r ∷ rs) (q ∷ qs) (x ∷ xs) (y ∷ ys) stored da db n l m =
      elim (linked-inj (hash_pair h a r.execution_hash) (hash_pair h b q.execution_hash) rs qs xs ys
        stored (unfold hash_pair in documented.digest_length _)
        (unfold hash_pair in documented.digest_length _) (omega arith) l.2 m.2) [
          | inr c ↦ inr (widened h _ _ _ _ (λ s i. inr i) (λ s i. inr i) c)
          | inl both ↦ elim (hash_pair-inj a r.execution_hash b q.execution_hash da db both.0) [
            | inl same ↦ inl (same.0, ap₂ (◌∷◌) same.1 both.1)
            | inr c ↦ inr (widened h _ _ _ _ (first-IsIn _ _) (first-IsIn _ _) c)
          ]
        ]

  -- With digests of 64 characters: two ledgers of one length with one head that both pass
  -- `verify_chain` hold the same execution hashes in the same order, or a text that is digested along
  -- the one chain has the SHA-256 digest of a different text that is digested along the other.
  pub ledger_detects :
      (l m : EvidenceLedger)
      → length l.records ≡ length m.records
      → l.current_head ≡ m.current_head
      → verify_chain h l ≡ some true
      → verify_chain h m ≡ some true
      → (execution_hashes l.records ≡ execution_hashes m.records)
        ⊎ Clash h (chain_texts h (genesis h) l.records) (chain_texts h (genesis h) m.records)
  unfolding verify_chain
  ledger_detects l m n same v w =
      elim (linked-inj (genesis h) (genesis h) l.records m.records l.evidence_hashes
        m.evidence_hashes m.current_head (documented.digest_length _) (documented.digest_length _) n
        (rw same at
          (IsLinked-of_verify_from h (genesis h) l.records l.evidence_hashes l.current_head v))
        (IsLinked-of_verify_from h (genesis h) m.records m.evidence_hashes m.current_head w)) [
          | inl both ↦ inl both.1
          | inr c ↦ inr c
        ]
