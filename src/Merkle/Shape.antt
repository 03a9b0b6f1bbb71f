-- ===== src/Merkle/Shape.antt =====
-- How the levels of a tree grow: padding and the next level, read two items at a time.
use bhiv_qcg.Prelude.{
  ℕ, zero, suc, ◌+◌, ◌/◌, ◌≡◌, refl, String, List, [], ◌∷◌, arith, inl, inr, ltb, length,
  Bool-cases,
}
use bhiv_qcg.Prelude.Hashing.{Hashing}
use bhiv_qcg.Merkle.{pad, root_of, next_level, levels_from, merkle_parent, build_merkle_tree}

-- `pad`, as a recursion that steps over two items.
pub pad_two : (x y : String) (rest : List String) → pad (x ∷ y ∷ rest) ≡ x ∷ y ∷ pad rest
unfolding pad
pad_two x y [] = refl
pad_two x y (z ∷ rest) = ground arith

-- A padded level is even, so `_merkle_proof` pads it to itself.
pub pad-pad : (ws : List String) → pad (pad ws) ≡ pad ws
pad-pad [] = unfold pad in refl
pad-pad (x ∷ []) = unfold pad in refl
pad-pad (x ∷ y ∷ ws) = rw (pad_two, pad_two, pad-pad ws)

pub pad_one : (x : String) → pad (x ∷ []) ≡ x ∷ x ∷ []
unfolding pad
pad_one x = refl

module _ (h : Hashing) where
  -- A level, its padded form and the next level.
  pub next_level-two :
      (x y : String) (rest : List String)
      → next_level h (pad (x ∷ y ∷ rest)) ≡ merkle_parent h x y ∷ next_level h (pad rest)
  unfolding next_level
  next_level-two x y rest = rw (pad_two x y rest) refl

  pub length-next_level : (ws : List String) → length (next_level h (pad ws)) ≡ (length ws + 1) / 2
  length-next_level [] = unfold pad next_level in omega arith
  length-next_level (x ∷ []) = unfold pad next_level in omega arith
  length-next_level (x ∷ y ∷ ws) = rw (next_level-two x y ws) (omega (arith, length-next_level ws))

  pub levels_from-stop : (fuel : ℕ) (x : String) → levels_from h fuel (x ∷ []) ≡ (x ∷ []) ∷ []
  unfolding levels_from
  levels_from-stop zero x = refl
  levels_from-stop (suc fuel) x = refl

  pub levels_from-go :
      (fuel : ℕ) (x y : String) (ws : List String)
      → levels_from h (suc fuel) (x ∷ y ∷ ws)
        ≡ pad (x ∷ y ∷ ws) ∷ levels_from h fuel (next_level h (pad (x ∷ y ∷ ws)))
  unfolding levels_from
  levels_from-go fuel x y ws = ground arith

  -- There is always a level.
  pub levels_from-cons :
      (fuel : ℕ) (ws : List String)
      → (l : List String) × (r : List (List String)) × (levels_from h fuel ws ≡ l ∷ r)
  unfolding levels_from
  levels_from-cons zero ws = (ws, [], refl)
  levels_from-cons (suc fuel) ws = elim (Bool-cases (ltb 1 (length ws))) [
    | inl many ↦ (pad ws, levels_from h fuel (next_level h (pad ws)), rw many)
    | inr few ↦ (ws, [], rw few)
  ]

  pub root_of-go :
      (level : List String) (fuel : ℕ) (ws : List String)
      → root_of (level ∷ levels_from h fuel ws) ≡ root_of (levels_from h fuel ws)
  unfolding root_of
  root_of-go level fuel ws = let (l, r, e) = levels_from-cons fuel ws in rw e refl

  pub build_merkle_tree-cons :
      (x : String) (ws : List String)
      → build_merkle_tree h (x ∷ ws) ≡ levels_from h (suc (length ws)) (x ∷ ws)
  unfolding build_merkle_tree
  build_merkle_tree-cons x ws = refl
