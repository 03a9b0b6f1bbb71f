-- ===== src/Examples/Merkle.antt =====
-- Three leaves: an odd level, padded.
use bhiv_qcg.Prelude.{String, ◌≡◌, refl, ◌⊎◌, true, some, List, [], ◌∷◌}
use bhiv_qcg.Prelude.Hashing.{Clash}
use bhiv_qcg.Merkle.{
  Side, pad, root_of, merkle_proof, build_merkle_tree, verify_merkle_proof, levels_from, next_level,
  merkle_parent,
}
use bhiv_qcg.Merkle.Inclusion.{merkle_proof-verifies}
use bhiv_qcg.Merkle.Incremental.{rebuild_tree}
use bhiv_qcg.Merkle.Incremental.Rebuilt.{rebuild_tree-eq-build_merkle_tree}
use bhiv_qcg.Merkle.Tamper.{tree_texts, root_of-inj}
use bhiv_qcg.Examples.Toy.{plain, sized, sized-IsDocumented}

abbrev leaves : List String
leaves = "a" ∷ "b" ∷ "c" ∷ []

three_leaves :
    build_merkle_tree (plain "k") leaves
    ≡ ("a" ∷ "b" ∷ "c" ∷ "c" ∷ []) ∷ ("#ab" ∷ "#cc" ∷ []) ∷ ("##ab#cc" ∷ []) ∷ []
unfolding build_merkle_tree levels_from pad next_level merkle_parent
three_leaves = refl

merkle_proof-verifies_example :
    let tree = build_merkle_tree (plain "k") leaves in
    (p : List (String × Side)) × (merkle_proof tree 2 ≡ some p)
    × (verify_merkle_proof (plain "k") "c" p (root_of tree) ≡ true)
merkle_proof-verifies_example = merkle_proof-verifies (plain "k") leaves 2 "c" refl

rebuild_tree-eq-build_merkle_tree_example :
    rebuild_tree (plain "k") (build_merkle_tree (plain "k") leaves) 3 "d"
    ≡ build_merkle_tree (plain "k") ("a" ∷ "b" ∷ "c" ∷ "d" ∷ [])
rebuild_tree-eq-build_merkle_tree_example = rebuild_tree-eq-build_merkle_tree (plain "k") leaves "d"

abbrev digest : String
digest = "fedcba9876543210fedcba9876543210fedcba9876543210fedcba9876543210"

abbrev other : String
other = "00dcba9876543210fedcba9876543210fedcba9876543210fedcba9876543210"

-- Under the constant digest two different lists have one root, and the clash is found.
root_of-inj_example :
    ◌≡◌ {A = List String} (digest ∷ digest ∷ []) (other ∷ digest ∷ [])
    ⊎ Clash sized (tree_texts sized (digest ∷ digest ∷ [])) (tree_texts sized (other ∷ digest ∷ []))
unfolding build_merkle_tree levels_from pad next_level merkle_parent root_of
root_of-inj_example =
    root_of-inj sized sized-IsDocumented (digest ∷ digest ∷ []) (other ∷ digest ∷ []) refl
      (refl, (refl, tt)) (refl, (refl, tt)) refl
