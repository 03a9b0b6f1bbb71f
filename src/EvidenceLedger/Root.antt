-- ===== src/EvidenceLedger/Root.antt =====
-- evidence_ledger.py: `get_merkle_root`, against the tree of audit_trail.py.
use bhiv_qcg.Prelude.{
  ℕ, zero, suc, ◌≤◌, String, ◌≡◌, refl, sym, List, [], ◌∷◌, arith, lt→ltb, length,
}
use bhiv_qcg.Prelude.Hashing.{Hashing}
use bhiv_qcg.Merkle.{pad, root_of, next_level, levels_from, merkle_parent, build_merkle_tree}
use bhiv_qcg.Merkle.Shape.{
  next_level-two, length-next_level, levels_from-stop, levels_from-go, root_of-go,
  build_merkle_tree-cons,
}
use bhiv_qcg.EvidenceLedger.{hash_pair, pair_up, root_from, get_merkle_root}

module _ (h : Hashing) where
  pair_up-eq : (ws : List String) → pair_up h ws ≡ next_level h (pad ws)
  unfolding pair_up hash_pair
  pair_up-eq [] = unfold pad next_level in refl
  pair_up-eq (x ∷ []) = unfold pad next_level merkle_parent in refl
  pair_up-eq (x ∷ y ∷ ws) =
      rw (next_level-two h x y ws, ← pair_up-eq ws) (unfold merkle_parent in refl)

  root_from-one : (fuel : ℕ) (x : String) → root_from h fuel (x ∷ []) ≡ x
  unfolding root_from
  root_from-one zero x = refl
  root_from-one (suc fuel) x = refl

  root_from-two :
      (fuel : ℕ) (x y : String) (ws : List String)
      → root_from h (suc fuel) (x ∷ y ∷ ws)
        ≡ root_from h fuel (merkle_parent h x y ∷ next_level h (pad ws))
  unfolding root_from
  root_from-two fuel x y ws =
      rw
        (
          pair_up-eq (x ∷ y ∷ ws),
          next_level-two h x y ws,
          lt→ltb 1 (length (x ∷ y ∷ ws)) (omega arith),
        )
        refl

  root_from-eq :
      (fuel : ℕ) (x : String) (ws : List String)
      → length ws ≤ fuel
      → root_of (levels_from h fuel (x ∷ ws)) ≡ root_from h fuel (x ∷ ws)
  root_from-eq fuel x [] n =
      rw (levels_from-stop h fuel x, root_from-one fuel x) (unfold root_of in refl)
  root_from-eq zero x (y ∷ ws) n = absurd (omega arith)
  root_from-eq (suc fuel) x (y ∷ ws) n =
      rw
        (
          levels_from-go h fuel x y ws,
          root_of-go h (pad (x ∷ y ∷ ws)),
          next_level-two h x y ws,
          root_from-two fuel x y ws,
        )
        (root_from-eq fuel (merkle_parent h x y) (next_level h (pad ws))
          (omega (arith, length-next_level h ws)))

  -- The root of a ledger that has entries is the root of the Merkle tree that the audit trail builds from
  -- the same hashes.
  pub get_merkle_root-eq-root_of :
      (x : String) (ws : List String)
      → get_merkle_root h (x ∷ ws) ≡ root_of (build_merkle_tree h (x ∷ ws))
  unfolding get_merkle_root
  get_merkle_root-eq-root_of x ws =
      rw (build_merkle_tree-cons h x ws) (sym (root_from-eq (suc (length ws)) x ws (omega arith)))
