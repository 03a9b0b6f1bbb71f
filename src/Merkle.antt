-- ===== src/Merkle.antt =====
-- audit_trail.py, the Merkle helpers `_merkle_parent`, `_build_merkle_tree`, `_merkle_proof` and
-- `_verify_merkle_proof`. A tree is its list of levels, the leaves first; like the source, a level
-- below the root is stored padded to an even length.
pub mod Shape
pub mod Inclusion
pub mod Incremental
pub mod Tamper
use Prim.Native.String.{◌++◌ as text_append}
use mathlib.Core.List.{get_last?}
use bhiv_qcg.Prelude.{
  ℕ, zero, suc, ◌+◌, ◌-◌, ◌/◌, ◌%◌, String, Bool, Option, none, some, List, [], ◌∷◌, ◌++◌, ltb, leb,
  eqb, ◌==◌, if◌then◌else◌, length, get_elem?,
}
use bhiv_qcg.Prelude.Hashing.{Hashing}

-- `if len(level) % 2 == 1: level.append(level[-1])`
unfoldable pub pad : List String → List String
pad level =
    if eqb (length level % 2) 1
    then elim (get_last? level) [ none ↦ level | some x ↦ level ++ x ∷ [] ]
    else level

-- `tree[-1][0]`, and "" for the empty tree
unfoldable pub root_of : List (List String) → String
root_of [] = ""
root_of ([] ∷ []) = ""
root_of ((root ∷ _) ∷ []) = root
root_of (level ∷ next ∷ rest) = root_of (next ∷ rest)

pub data Side : Type 0 where
  left right : Side

-- The pair that one round of `_merkle_proof` appends, and `none` for an index out of range.
unfoldable pub sibling : List String → ℕ → Option (String × Side)
sibling padded idx =
    if eqb (idx % 2) 0
    then (elim (get_elem? padded (idx + 1)) [ none ↦ none | some s ↦ some (s, right) ])
    else (elim (get_elem? padded (idx - 1)) [ none ↦ none | some s ↦ some (s, left) ])

-- `proof.append`, once the index of the sibling was in range.
abbrev pub link :
    Option (String × Side) → Option (List (String × Side)) → Option (List (String × Side))
link none rest = none
link (some s) none = none
link (some s) (some p) = some (s ∷ p)

-- The loop of `_merkle_proof` over `tree[:-1]`.
unfoldable pub proof_path : List (List String) → ℕ → Option (List (String × Side))
proof_path [] idx = some []
proof_path (root ∷ []) idx = some []
proof_path (level ∷ next ∷ rest) idx =
    link (sibling (pad level) idx) (proof_path (next ∷ rest) (idx / 2))

unfoldable pub merkle_proof : List (List String) → ℕ → Option (List (String × Side))
merkle_proof [] leaf_index = some []
merkle_proof (leaves ∷ rest) leaf_index =
    if leb (length leaves) leaf_index then some [] else proof_path (leaves ∷ rest) leaf_index

module _ (h : Hashing) where
  unfoldable pub merkle_parent : String → String → String
  merkle_parent l r = h.sha256 (text_append l r)

  -- `for i in range(0, len(working), 2)`: the padded level is read two by two.
  unfoldable pub next_level : List String → List String
  next_level [] = []
  next_level (x ∷ []) = []
  next_level (x ∷ y ∷ rest) = merkle_parent x y ∷ next_level rest

  -- `while len(working) > 1`, with the rounds left; `working` is padded in place, so the padded
  -- list is the level that stays in `levels`.
  unfoldable pub levels_from : ℕ → List String → List (List String)
  levels_from zero working = working ∷ []
  levels_from (suc fuel) working =
      let padded = pad working in
      let rest = levels_from fuel (next_level padded) in
      if ltb 1 (length working) then padded ∷ rest else working ∷ []

  -- A level has fewer items than the one below it, so as many rounds as leaves are enough.
  unfoldable pub build_merkle_tree : List String → List (List String)
  build_merkle_tree [] = []
  build_merkle_tree (x ∷ leaves) = levels_from (length (x ∷ leaves)) (x ∷ leaves)

  unfoldable pub combine : String → String × Side → String
  combine current (s, right) = merkle_parent current s
  combine current (s, left) = merkle_parent s current

  unfoldable pub fold_proof : String → List (String × Side) → String
  fold_proof current [] = current
  fold_proof current (s ∷ proof) = fold_proof (combine current s) proof

  unfoldable pub verify_merkle_proof : String → List (String × Side) → String → Bool
  verify_merkle_proof leaf_hash proof expected_root = fold_proof leaf_hash proof == expected_root
