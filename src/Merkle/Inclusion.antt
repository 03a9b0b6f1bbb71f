-- ===== src/Merkle/Inclusion.antt =====
-- A proof produced for a leaf of a built tree is accepted against the root of that tree.
use bhiv_qcg.Prelude.{
  ℕ, zero, suc, ◌+◌, ◌-◌, ◌/◌, ◌%◌, ◌≤◌, String, ◌≡◌, refl, true, false, some, List, [], ◌∷◌, arith,
  eq_iff, eq_refl, leb, length, get_elem?, lt_of_get_elem?,
}
use bhiv_qcg.Prelude.Hashing.{Hashing}
use bhiv_qcg.Merkle.{
  Side, left, right, pad, root_of, sibling, link, proof_path, merkle_proof, next_level, levels_from,
  build_merkle_tree, combine, fold_proof, verify_merkle_proof,
}
use bhiv_qcg.Merkle.Shape.{
  pad_one, pad_two, pad-pad, next_level-two, length-next_level, levels_from-stop, levels_from-go,
  levels_from-cons, root_of-go,
}

sibling-two :
    (x y : String) (ws : List String) (i : ℕ) → sibling (x ∷ y ∷ ws) (suc (suc i)) ≡ sibling ws i
unfolding sibling
sibling-two x y ws zero = refl
sibling-two x y ws (suc zero) = refl
sibling-two x y ws (suc (suc i)) =
    let parity : suc (suc (suc (suc i))) % 2 ≡ suc (suc i) % 2 = omega arith in
    let after : suc (suc (suc (suc i))) + 1 ≡ suc (suc (suc (suc i) + 1)) = omega arith in
    let before : suc (suc (suc (suc i))) - 1 ≡ suc (suc (suc (suc i) - 1)) = omega arith in
    rw (parity, after, before)

length-pad : (ws : List String) → length ws ≤ length (pad ws)
length-pad [] = omega arith
length-pad (x ∷ []) = rw pad_one (omega arith)
length-pad (x ∷ y ∷ ws) = rw pad_two (omega (arith, length-pad ws))

proof_path-step :
    (level next : List String) (rest : List (List String)) (i : ℕ)
    → proof_path (level ∷ next ∷ rest) i
      ≡ link (sibling (pad level) i) (proof_path (next ∷ rest) (i / 2))
unfolding proof_path
proof_path-step level next rest i = refl

module _ (h : Hashing) where
  -- One round: the sibling is there, and hashing with it gives the item of the next level.
  abbrev Step : List String → ℕ → String → Type 0
  Step ws i x =
      (s : String × Side) × (sibling (pad ws) i ≡ some s)
      × (get_elem? (next_level h (pad ws)) (i / 2) ≡ some (combine h x s))

  fold_proof-cons :
      (x : String) (s : String × Side) (p : List (String × Side))
      → fold_proof h x (s ∷ p) ≡ fold_proof h (combine h x s) p
  unfolding fold_proof
  fold_proof-cons x s p = refl

  Step-one : (w : String) → Step (w ∷ []) zero w
  unfolding sibling next_level combine
  Step-one w = ((w, right), rw (pad_one w) refl, rw (pad_one w) refl)

  step_lem : (ws : List String) (i : ℕ) (x : String) → get_elem? ws i ≡ some x → Step ws i x
  step_lem [] i x e = ground arith
  step_lem (w ∷ []) zero x e = let same : w ≡ x = cc in rw (← same) (Step-one w)
  step_lem (w ∷ []) (suc i) x e = ground arith
  step_lem (w ∷ v ∷ ws) zero x e = (
    (v, right),
    rw pad_two (unfold sibling in refl),
    rw next_level-two (unfold combine in ground arith),
  )
  step_lem (w ∷ v ∷ ws) (suc zero) x e = (
    (w, left),
    rw pad_two (unfold sibling in refl),
    rw next_level-two (unfold combine in ground arith),
  )
  step_lem (w ∷ v ∷ ws) (suc (suc i)) x e =
      let (s, found, up) = step_lem ws i x e in
      let half : suc (suc i) / 2 ≡ suc (i / 2) = omega arith in
      (s, rw (pad_two, sibling-two) found, rw (next_level-two, half) up)

  proof_path-go :
      (level : List String) (fuel : ℕ) (ws : List String) (i : ℕ) (s : String × Side)
      (p : List (String × Side))
      → sibling (pad level) i ≡ some s
      → proof_path (levels_from h fuel ws) (i / 2) ≡ some p
      → proof_path (level ∷ levels_from h fuel ws) i ≡ some (s ∷ p)
  proof_path-go level fuel ws i s p found up =
      let (l, r, shape) = levels_from-cons h fuel ws in
      let up' : proof_path (l ∷ r) (i / 2) ≡ some p = rw (← shape) up in
      rw shape (rw (proof_path-step, found, up'))

  -- From a level upwards: the loop of the proof finds a path, and the path hashes to the root.
  path_lem :
      (fuel : ℕ) (ws : List String) (i : ℕ) (x : String)
      → length ws ≤ fuel
      → get_elem? ws i ≡ some x
      → (p : List (String × Side)) × (proof_path (levels_from h fuel ws) i ≡ some p)
        × (fold_proof h x p ≡ root_of (levels_from h fuel ws))
  path_lem fuel [] i x n e = ground arith
  path_lem fuel (w ∷ []) zero x n e = (
    [],
    rw (levels_from-stop h fuel w) (unfold proof_path in refl),
    rw (levels_from-stop h fuel w) (unfold fold_proof root_of in ground arith),
  )
  path_lem fuel (w ∷ []) (suc i) x n e = ground arith
  path_lem zero (w ∷ v ∷ ws) i x n e = absurd (omega arith)
  path_lem (suc fuel) (w ∷ v ∷ ws) i x n e =
      let up = step_lem (w ∷ v ∷ ws) i x e in
      let higher = next_level h (pad (w ∷ v ∷ ws)) in
      let shorter : length higher ≤ fuel = omega (arith, length-next_level h (w ∷ v ∷ ws)) in
      let rest = path_lem fuel higher (i / 2) (combine h x up.0) shorter up.2 in
      (
        up.0 ∷ rest.0,
        rw levels_from-go
            (proof_path-go (pad (w ∷ v ∷ ws)) fuel higher i up.0 rest.0 (rw pad-pad up.1) rest.1),
        rw levels_from-go (rw root_of-go (rw fold_proof-cons rest.2)),
      )

  -- Every leaf of a tree built from the leaves has a proof, which the verifier accepts against the
  -- root of the tree.
  pub merkle_proof-verifies :
      (leaves : List String) (i : ℕ) (leaf : String)
      → get_elem? leaves i ≡ some leaf
      → let tree = build_merkle_tree h leaves in
        (p : List (String × Side)) × (merkle_proof tree i ≡ some p)
        × (verify_merkle_proof h leaf p (root_of tree) ≡ true)
  merkle_proof-verifies [] i leaf e = ground arith
  merkle_proof-verifies (x ∷ []) zero leaf e = (
    [],
    unfold build_merkle_tree merkle_proof levels_from proof_path in refl,
    unfold build_merkle_tree verify_merkle_proof levels_from fold_proof root_of in
        ground (arith, eq_iff leaf x),
  )
  merkle_proof-verifies (x ∷ []) (suc i) leaf e = ground arith
  merkle_proof-verifies (x ∷ y ∷ leaves) i leaf e =
      let ws = x ∷ y ∷ leaves in
      let (p, found, accepted) = path_lem (length ws) ws i leaf (omega arith) e in
      let inside : leb (length (pad ws)) i ≡ false =
        ground (arith, length-pad ws, lt_of_get_elem? ws i e) in
      (
        p,
        unfold build_merkle_tree merkle_proof in
            rw (levels_from-go, inside)
              (rw (← levels_from-go h (suc (length leaves)) x y leaves) found),
        unfold build_merkle_tree verify_merkle_proof in rw accepted (eq_refl _),
      )
