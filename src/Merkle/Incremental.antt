-- ===== src/Merkle/Incremental.antt =====
-- audit_trail.py, `MerkleAuditTrail._rebuild_tree`: the update of the tree, level by level, after an
-- append. `strip`, `update_path` and `extend_root` are its three loops.
pub mod Growth
pub mod Rebuilt
use mathlib.Core.List.{drop_last}
use bhiv_qcg.Prelude.{
  ℕ, zero, suc, ◌+◌, ◌-◌, ◌/◌, ◌%◌, String, ◌&&◌, List, [], ◌∷◌, ◌++◌, ltb, eqb, if◌then◌else◌,
  length, set,
}
use bhiv_qcg.Prelude.Hashing.{Hashing}
use bhiv_qcg.Merkle.{pad, next_level, levels_from, merkle_parent, build_merkle_tree}
use bhiv_qcg.Merkle.Shape.{
  pad_two, next_level-two, length-next_level, levels_from-stop, levels_from-go, levels_from-cons,
}

-- "Remove padding from each level to prepare for append": the loop with its `count`.
unfoldable pub strip : ℕ → List (List String) → List (List String)
strip count [] = []
strip count (level ∷ rest) =
    (if eqb (count % 2) 1 && ltb count (length level) then drop_last level else level)
    ∷ strip ((count + 1) / 2) rest

module _ (h : Hashing) where
  -- `_merkle_parent(level[-2], level[-1])`; the level is padded, and so has two items.
  unfoldable pub last_parent : List String → String
  last_parent [] = ""
  last_parent (x ∷ []) = ""
  last_parent (x ∷ y ∷ []) = merkle_parent h x y
  last_parent (x ∷ y ∷ z ∷ rest) = last_parent (y ∷ z ∷ rest)

  -- `next_level[parent_idx] = new_parent` or `next_level.append(new_parent)`
  unfoldable pub put_parent : List String → List String → List String
  put_parent level above =
      let parent_idx = length level / 2 - 1 in
      let new_parent = last_parent level in
      if ltb parent_idx (length above)
      then set above parent_idx new_parent
      else above ++ new_parent ∷ []

  -- "Update path to root": `level` is the current level, already changed by the round before.
  unfoldable pub update_path : List String → List (List String) → List (List String)
  update_path level [] = level ∷ []
  update_path level (above ∷ rest) = pad level ∷ update_path (put_parent (pad level) above) rest

  -- "Add new root levels if necessary", with the rounds left.
  unfoldable pub grow_root : ℕ → List String → List (List String)
  grow_root zero top_level = top_level ∷ []
  grow_root (suc fuel) top_level =
      let rest = grow_root fuel (last_parent (pad top_level) ∷ []) in
      if ltb 1 (length top_level) then pad top_level ∷ rest else top_level ∷ []

  unfoldable pub extend_root : List (List String) → List (List String)
  extend_root [] = []
  extend_root (top_level ∷ []) = grow_root (length top_level) top_level
  extend_root (level ∷ above ∷ rest) = level ∷ extend_root (above ∷ rest)

  unfoldable pub append_leaf : String → List (List String) → List (List String)
  append_leaf leaf_hash [] = []
  append_leaf leaf_hash (leaves ∷ rest) = extend_root (update_path (leaves ++ leaf_hash ∷ []) rest)

  -- `_rebuild_tree`, where `old_count` is the number of leaves before the append.
  unfoldable pub rebuild_tree : List (List String) → ℕ → String → List (List String)
  rebuild_tree [] old_count leaf_hash = (leaf_hash ∷ []) ∷ []
  rebuild_tree (leaves ∷ rest) old_count leaf_hash =
      append_leaf leaf_hash (strip old_count (leaves ∷ rest))
