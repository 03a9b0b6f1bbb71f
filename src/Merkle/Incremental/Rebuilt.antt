-- ===== src/Merkle/Incremental/Rebuilt.antt =====
-- audit_trail.py, `_rebuild_tree`: the tree is the one that `_build_merkle_tree` builds.
use mathlib.Core.List.{drop_last}
use bhiv_qcg.Prelude.{
  ℕ, zero, suc, ◌+◌, ◌/◌, ◌%◌, String, ◌≡◌, refl, sym, ◌&&◌, List, [], ◌∷◌, ◌++◌, arith, ltb, eqb,
  if◌then◌else◌, length,
}
use bhiv_qcg.Prelude.Hashing.{Hashing}
use bhiv_qcg.Merkle.{pad, next_level, levels_from, build_merkle_tree}
use bhiv_qcg.Merkle.Shape.{pad_two, length-next_level, levels_from-go, levels_from-cons}
use bhiv_qcg.Merkle.Incremental.{strip, append_leaf, rebuild_tree}
use bhiv_qcg.Merkle.Incremental.Growth.{Grows-append, bare_above, bare_above-many, update_lem}

-- What `strip` does to one level.
unpad : ℕ → List String → List String
unpad count level = if eqb (count % 2) 1 && ltb count (length level) then drop_last level else level

unpad-two :
    (n : ℕ) (x y : String) (level : List String)
    → unpad (suc (suc n)) (x ∷ y ∷ level) ≡ x ∷ y ∷ unpad n level
unfolding unpad
unpad-two n x y [] = ground arith
unpad-two n x y (z ∷ level) = ground arith

unpad-pad : (ls : List String) → unpad (length ls) (pad ls) ≡ ls
unpad-pad [] = unfold unpad pad in refl
unpad-pad (x ∷ []) = unfold unpad pad in refl
unpad-pad (x ∷ y ∷ ls) = rw (pad_two, unpad-two, unpad-pad ls)

unpad_self : (ls : List String) → unpad (length ls) ls ≡ ls
unfolding unpad
unpad_self ls = ground arith

strip-cons :
    (count : ℕ) (level : List String) (rest : List (List String))
    → strip count (level ∷ rest) ≡ unpad count level ∷ strip ((count + 1) / 2) rest
unfolding strip unpad
strip-cons count level rest = refl

module _ (h : Hashing) where
  -- The first loop leaves the unpadded levels.
  strip-levels_from :
      (fuel : ℕ) (ls : List String)
      → strip (length ls) (levels_from h fuel ls) ≡ ls ∷ bare_above h fuel ls
  strip-levels_from zero ls =
      unfold levels_from bare_above in rw (strip-cons, unpad_self) (unfold strip in refl)
  strip-levels_from (suc fuel) [] = unfold levels_from bare_above strip in refl
  strip-levels_from (suc fuel) (x ∷ []) = unfold levels_from bare_above strip in refl
  strip-levels_from (suc fuel) (x ∷ y ∷ ls) =
      let above = next_level h (pad (x ∷ y ∷ ls)) in
      let ih = strip-levels_from fuel above in
      let count : (length (x ∷ y ∷ ls) + 1) / 2 ≡ length above =
        sym (length-next_level h (x ∷ y ∷ ls)) in
      rw (levels_from-go h fuel x y ls, strip-cons, unpad-pad, count, ih, bare_above-many)

  rebuild_tree-step :
      (fuel n : ℕ) (ws : List String) (leaf : String)
      → rebuild_tree h (levels_from h fuel ws) n leaf
        ≡ append_leaf h leaf (strip n (levels_from h fuel ws))
  rebuild_tree-step fuel n ws leaf =
      let (l, r, shape) = levels_from-cons h fuel ws in rw shape (unfold rebuild_tree in refl)

  -- Appending a leaf to the tree of `leaves` by `_rebuild_tree` gives the tree that
  -- `_build_merkle_tree` builds from the leaves and the new one: the same levels, padding included.
  pub rebuild_tree-eq-build_merkle_tree :
      (leaves : List String) (leaf : String)
      → rebuild_tree h (build_merkle_tree h leaves) (length leaves) leaf
        ≡ build_merkle_tree h (leaves ++ leaf ∷ [])
  rebuild_tree-eq-build_merkle_tree [] leaf =
      unfold build_merkle_tree rebuild_tree levels_from in refl
  rebuild_tree-eq-build_merkle_tree (x ∷ leaves) leaf =
      let ls = x ∷ leaves in
      unfold build_merkle_tree in
      rw (rebuild_tree-step, strip-levels_from)
        (unfold append_leaf in
          update_lem h (length ls) (length (ls ++ leaf ∷ [])) ls (ls ++ leaf ∷ [])
            (Grows-append ls leaf) (omega arith) (omega arith) (omega arith))
