-- ===== src/Merkle/Tamper.antt =====
-- Two lists of leaves of one length with one root are equal, or two of the texts that are digested when
-- their trees are built clash.
use Prim.Native.String.{◌++◌ as text_append}
use text.Mathlib.TextLemmas.{append_inj}
use bhiv_qcg.Prelude.{
  ℕ, zero, suc, ◌≤◌, String, ◌≡◌, refl, sym, ap₂, ◌∙◌, ◌⊎◌, inl, inr, List, [], ◌∷◌, ◌++◌, map,
  arith, String-cases, length, All,
}
use bhiv_qcg.Prelude.Hashing.{
  Hashing, IsIn, IsIn-left, IsIn-right, Clash, widened, IsDigest, IsDocumented,
}
use bhiv_qcg.Merkle.{pad, root_of, next_level, levels_from, merkle_parent, build_merkle_tree}
use bhiv_qcg.Merkle.Shape.{
  next_level-two, length-next_level, levels_from-stop, levels_from-go, root_of-go,
  build_merkle_tree-cons,
}

abbrev pub AllDigests : List String → Type 0
AllDigests ls = All IsDigest ls

-- The texts whose digests are the level above: each pair, and an odd last item with itself.
abbrev pub pair_texts : List String → List String
pair_texts [] = []
pair_texts (x ∷ []) = text_append x x ∷ []
pair_texts (x ∷ y ∷ ls) = text_append x y ∷ pair_texts ls

-- All texts that are digested on the way from a level to the root.
unfoldable pub digested : Hashing → ℕ → List String → List String
digested h zero ls = []
digested h (suc fuel) [] = []
digested h (suc fuel) (x ∷ []) = []
digested h (suc fuel) (x ∷ y ∷ ls) =
    pair_texts (x ∷ y ∷ ls) ++ digested h fuel (next_level h (pad (x ∷ y ∷ ls)))

pub next_level-pair_texts :
    (h : Hashing) (ls : List String) → next_level h (pad ls) ≡ map (λ s. h.sha256 s) (pair_texts ls)
next_level-pair_texts h [] = unfold pad next_level in refl
next_level-pair_texts h (x ∷ []) = unfold pad next_level merkle_parent in refl
next_level-pair_texts h (x ∷ y ∷ ls) =
    next_level-two h x y ls ∙ ap₂ (◌∷◌) (unfold merkle_parent in refl) (next_level-pair_texts h ls)

-- All texts that are digested when the tree of the leaves is built.
abbrev pub tree_texts : Hashing → List String → List String
tree_texts h ls = digested h (length ls) ls

pub first-IsIn : (x : String) (xs : List String) (s : String) → IsIn s (x ∷ []) → IsIn s (x ∷ xs)
first-IsIn x xs s (inl same) = inl same
first-IsIn x xs s (inr none_left) = absurd none_left

module _ (h : Hashing) (documented : IsDocumented h) where
  next_level-AllDigests : (ls : List String) → AllDigests ls → AllDigests (next_level h (pad ls))
  next_level-AllDigests [] d = unfold pad next_level in tt
  next_level-AllDigests (x ∷ []) d =
      unfold pad next_level merkle_parent in (documented.digest_length _, tt)
  next_level-AllDigests (x ∷ y ∷ ls) d =
      rw next_level-two
        (unfold merkle_parent in documented.digest_length _, next_level-AllDigests ls d.1.1)

  -- One parent has one pair of children, or the digest collides.
  merkle_parent-inj :
      (a b c d : String)
      → IsDigest a
      → IsDigest c
      → merkle_parent h a b ≡ merkle_parent h c d
      → ((a ≡ c) × (b ≡ d)) ⊎ Clash h (text_append a b ∷ []) (text_append c d ∷ [])
  unfolding merkle_parent
  merkle_parent-inj a b c d da dc e = elim (String-cases (text_append a b) (text_append c d)) [
    | inl same ↦ inl (append_inj same (da ∙ sym dc))
    | inr differ ↦ inr (record {
      left = text_append a b;
      right = text_append c d;
      left_in = inl refl;
      right_in = inl refl;
      differ = differ;
      same_digest = e;
    })
  ]

  next_level-inj :
      (ls ms : List String)
      → length ls ≡ length ms
      → AllDigests ls
      → AllDigests ms
      → next_level h (pad ls) ≡ next_level h (pad ms)
      → (ls ≡ ms) ⊎ Clash h (pair_texts ls) (pair_texts ms)
  next_level-inj [] [] n dl dm e = inl refl
  next_level-inj [] (m ∷ ms) n dl dm e = absurd (omega arith)
  next_level-inj (x ∷ ls) [] n dl dm e = absurd (omega arith)
  next_level-inj (x ∷ []) (m ∷ []) n dl dm e =
      elim (merkle_parent-inj x x m m dl.0 dm.0 (unfold next_level pad in cc e)) [
        | inl both ↦ inl (cc both.0)
        | inr c ↦ inr c
      ]
  next_level-inj (x ∷ []) (m ∷ k ∷ ms) n dl dm e = absurd (omega arith)
  next_level-inj (x ∷ y ∷ ls) (m ∷ []) n dl dm e = absurd (omega arith)
  next_level-inj (x ∷ y ∷ ls) (m ∷ k ∷ ms) n dl dm e =
      let parents : merkle_parent h x y ∷ next_level h (pad ls)
          ≡ merkle_parent h m k ∷ next_level h (pad ms) =
        sym (next_level-two h x y ls) ∙ e ∙ next_level-two h m k ms in
      let rest = next_level-inj ls ms (omega arith) dl.1.1 dm.1.1 (cc parents) in
      elim (merkle_parent-inj x y m k dl.0 dm.0 (cc parents)) [
        | inl both ↦ elim rest [
          | inl tail ↦ inl (cc (both.0, both.1, tail))
          | inr c ↦ inr (widened h _ _ _ _ (λ s i. inr i) (λ s i. inr i) c)
        ]
        | inr c ↦ inr (widened h _ _ _ _ (first-IsIn _ _) (first-IsIn _ _) c)
      ]

  root_of-one : (x : String) → root_of ((x ∷ []) ∷ []) ≡ x
  unfolding root_of
  root_of-one x = refl

  root-inj :
      (fuel : ℕ) (ls ms : List String)
      → length ls ≡ length ms
      → length ls ≤ fuel
      → AllDigests ls
      → AllDigests ms
      → root_of (levels_from h fuel ls) ≡ root_of (levels_from h fuel ms)
      → (ls ≡ ms) ⊎ Clash h (digested h fuel ls) (digested h fuel ms)
  unfolding digested
  root-inj fuel [] [] n b dl dm e = inl refl
  root-inj fuel [] (m ∷ ms) n b dl dm e = absurd (omega arith)
  root-inj fuel (x ∷ ls) [] n b dl dm e = absurd (omega arith)
  root-inj fuel (x ∷ []) (m ∷ []) n b dl dm e =
      let heads : x ≡ m =
        rw (levels_from-stop h fuel x, levels_from-stop h fuel m, root_of-one x, root_of-one m) at
          e in
      inl (cc heads)
  root-inj fuel (x ∷ []) (m ∷ k ∷ ms) n b dl dm e = absurd (omega arith)
  root-inj fuel (x ∷ y ∷ ls) (m ∷ []) n b dl dm e = absurd (omega arith)
  root-inj zero (x ∷ y ∷ ls) (m ∷ k ∷ ms) n b dl dm e = absurd (omega arith)
  root-inj (suc fuel) (x ∷ y ∷ ls) (m ∷ k ∷ ms) n b dl dm e =
      let left_above = next_level h (pad (x ∷ y ∷ ls)) in
      let right_above = next_level h (pad (m ∷ k ∷ ms)) in
      let same_length : length left_above ≡ length right_above =
        omega (arith, length-next_level h (x ∷ y ∷ ls), length-next_level h (m ∷ k ∷ ms)) in
      let roots : root_of (levels_from h fuel left_above)
          ≡ root_of (levels_from h fuel right_above) =
        rw
          (
            levels_from-go h fuel x y ls,
            levels_from-go h fuel m k ms,
            root_of-go h (pad (x ∷ y ∷ ls)),
            root_of-go h (pad (m ∷ k ∷ ms)),
          )
          at e in
      elim (root-inj fuel left_above right_above same_length
        (omega (arith, length-next_level h (x ∷ y ∷ ls))) (next_level-AllDigests (x ∷ y ∷ ls) dl)
        (next_level-AllDigests (m ∷ k ∷ ms) dm) roots) [
          | inr c ↦ inr (
              widened h _ _ _ _ (λ s i. IsIn-right s (pair_texts (x ∷ y ∷ ls)) _ i)
                (λ s i. IsIn-right s (pair_texts (m ∷ k ∷ ms)) _ i) c)
          | inl above ↦ elim (next_level-inj (x ∷ y ∷ ls) (m ∷ k ∷ ms) n dl dm above) [
            | inl same ↦ inl same
            | inr c ↦ inr (
                widened h _ _ _ _ (λ s i. IsIn-left s (pair_texts (x ∷ y ∷ ls)) _ i)
                  (λ s i. IsIn-left s (pair_texts (m ∷ k ∷ ms)) _ i) c)
          ]
        ]

  -- Tamper evidence, for digests of 64 characters: two lists of digests of one length whose trees
  -- have one root are the same list, or a text that is digested in building the one tree and a different
  -- text that is digested in building the other have one SHA-256 digest.
  pub root_of-inj :
      (ls ms : List String)
      → length ls ≡ length ms
      → AllDigests ls
      → AllDigests ms
      → root_of (build_merkle_tree h ls) ≡ root_of (build_merkle_tree h ms)
      → (ls ≡ ms) ⊎ Clash h (tree_texts h ls) (tree_texts h ms)
  root_of-inj [] [] n dl dm e = inl refl
  root_of-inj [] (m ∷ ms) n dl dm e = absurd (omega arith)
  root_of-inj (x ∷ ls) [] n dl dm e = absurd (omega arith)
  root_of-inj (x ∷ ls) (m ∷ ms) n dl dm e =
      let sizes : length ls ≡ length ms = omega arith in
      rw (← sizes) (
        root-inj (length (x ∷ ls)) (x ∷ ls) (m ∷ ms) n (omega arith) dl dm
          (rw (build_merkle_tree-cons h x ls, build_merkle_tree-cons h m ms, ← sizes) at e))
