-- ===== src/Merkle/Incremental/Growth.antt =====
-- audit_trail.py, `_rebuild_tree`: its second and third loop, on a level that grew by one leaf.
use bhiv_qcg.Prelude.{
  ℕ, zero, suc, ◌-◌, ◌/◌, ◌≤◌, ◌<◌, String, ◌≡◌, refl, ap, inl, inr, List, [], ◌∷◌, ◌++◌, arith,
  ltb, if◌then◌else◌, Bool-cases, lt→ltb, length,
}
use bhiv_qcg.Prelude.Hashing.{Hashing}
use bhiv_qcg.Merkle.{pad, next_level, levels_from, merkle_parent}
use bhiv_qcg.Merkle.Shape.{
  pad_two, next_level-two, length-next_level, levels_from-stop, levels_from-go,
}
use bhiv_qcg.Merkle.Incremental.{last_parent, put_parent, update_path, grow_root, extend_root}

-- The second list is the first with one more item, or with another last item.
pub data Grows : List String → List String → Type 0 where
  fresh : (x : String) → Grows [] (x ∷ [])
  changed : (a b : String) → Grows (a ∷ []) (b ∷ [])
  keep : (a : String) {ls ms : List String} → Grows ls ms → Grows (a ∷ ls) (a ∷ ms)

pub Grows-append : (ls : List String) (x : String) → Grows ls (ls ++ x ∷ [])
Grows-append [] x = fresh x
Grows-append (a ∷ ls) x = keep a (Grows-append ls x)

Grows-pos : {ls ms : List String} → Grows ls ms → 0 < length ms
Grows-pos (fresh x) = omega arith
Grows-pos (changed a b) = omega arith
Grows-pos (keep a g) = omega arith

pub Grows-length : {ls ms : List String} → Grows ls ms → length ls ≤ length ms
Grows-length (fresh x) = omega arith
Grows-length (changed a b) = omega arith
Grows-length (keep a g) = omega (arith, Grows-length g)

module _ (h : Hashing) where
  -- The parents of a level that grows grow.
  Grows-next_level :
      {ls ms : List String} → Grows ls ms → Grows (next_level h (pad ls)) (next_level h (pad ms))
  Grows-next_level (fresh x) = unfold next_level pad in fresh (merkle_parent h x x)
  Grows-next_level (changed a b) =
      unfold next_level pad in changed (merkle_parent h a a) (merkle_parent h b b)
  Grows-next_level (keep a (fresh x)) =
      unfold next_level pad in changed (merkle_parent h a a) (merkle_parent h a x)
  Grows-next_level (keep a (changed b c)) =
      unfold next_level pad in changed (merkle_parent h a b) (merkle_parent h a c)
  Grows-next_level (keep a (keep b g)) =
      rw (next_level-two, next_level-two) (keep (merkle_parent h a b) (Grows-next_level g))

  last_parent-two :
      (x y z : String) (w : List String)
      → last_parent h (x ∷ y ∷ pad (z ∷ w)) ≡ last_parent h (pad (z ∷ w))
  last_parent-two x y z [] = unfold pad last_parent in refl
  last_parent-two x y z (v ∷ w) = rw pad_two (unfold last_parent in refl)

  length-pad_two : (z : String) (w : List String) → 2 ≤ length (pad (z ∷ w))
  length-pad_two z [] = unfold pad in omega arith
  length-pad_two z (v ∷ w) = rw pad_two (omega arith)

  put_parent-two :
      (x y z p : String) (w above : List String)
      → put_parent h (x ∷ y ∷ pad (z ∷ w)) (p ∷ above) ≡ p ∷ put_parent h (pad (z ∷ w)) above
  unfolding put_parent
  put_parent-two x y z p w above =
      let level = pad (z ∷ w) in
      let idx : suc (suc (length level)) / 2 - 1 ≡ suc (length level / 2 - 1) =
        omega (arith, length-pad_two z w) in
      rw (idx, last_parent-two x y z w)
        (elim (Bool-cases (ltb (length level / 2 - 1) (length above))) [
          | inl old ↦ ground arith
          | inr new ↦ ground arith
        ])

  -- One round of the update writes the new parent where the batch builder has it.
  put_parent-eq :
      (ls ms : List String)
      → Grows ls ms
      → put_parent h (pad ms) (next_level h (pad ls)) ≡ next_level h (pad ms)
  put_parent-eq _ _ (fresh x) = unfold put_parent pad next_level last_parent in refl
  put_parent-eq _ _ (changed a b) = unfold put_parent pad next_level last_parent in refl
  put_parent-eq _ _ (keep a (fresh x)) = unfold put_parent pad next_level last_parent in refl
  put_parent-eq _ _ (keep a (changed b c)) = unfold put_parent pad next_level last_parent in refl
  put_parent-eq (_ ∷ _ ∷ ls) (_ ∷ _ ∷ []) (keep a (keep b g)) = absurd (omega (arith, Grows-pos g))
  put_parent-eq (_ ∷ _ ∷ ls) (_ ∷ _ ∷ z ∷ w) (keep a (keep b g)) =
      rw (pad_two a b (z ∷ w), next_level-two h a b ls, put_parent-two, put_parent-eq ls (z ∷ w) g)
        (unfold next_level in refl)

  levels_from-many :
      (fuel : ℕ) (ws : List String)
      → 1 < length ws
      → levels_from h (suc fuel) ws ≡ pad ws ∷ levels_from h fuel (next_level h (pad ws))
  unfolding levels_from
  levels_from-many fuel ws many = rw (lt→ltb _ _ many) refl

  -- The levels above `ls` with their padding removed, which the second loop walks over.
  unfoldable pub bare_above : ℕ → List String → List (List String)
  bare_above zero ls = []
  bare_above (suc fuel) ls =
      let above = next_level h (pad ls) in
      let rest = bare_above fuel above in if ltb 1 (length ls) then above ∷ rest else []

  pub bare_above-one : (fuel : ℕ) (a : String) → bare_above fuel (a ∷ []) ≡ []
  unfolding bare_above
  bare_above-one zero a = refl
  bare_above-one (suc fuel) a = refl

  pub bare_above-many :
      (fuel : ℕ) (x y : String) (ls : List String)
      → bare_above (suc fuel) (x ∷ y ∷ ls)
        ≡ next_level h (pad (x ∷ y ∷ ls)) ∷ bare_above fuel (next_level h (pad (x ∷ y ∷ ls)))
  unfolding bare_above
  bare_above-many fuel x y ls = ground arith

  update_path-cons :
      (level above : List String) (rest : List (List String))
      → update_path h level (above ∷ rest)
        ≡ pad level ∷ update_path h (put_parent h (pad level) above) rest
  unfolding update_path
  update_path-cons level above rest = refl

  extend_root-cons :
      (level above : List String) (rest : List (List String))
      → extend_root h (level ∷ update_path h above rest)
        ≡ level ∷ extend_root h (update_path h above rest)
  unfolding update_path extend_root
  extend_root-cons level above [] = refl
  extend_root-cons level above (l ∷ rest) = refl

  update_one :
      (fuel : ℕ) (a : String) (ms : List String)
      → Grows (a ∷ []) ms
      → length ms ≤ fuel
      → extend_root h (ms ∷ []) ≡ levels_from h fuel ms
  update_one fuel a _ (changed _ b) n =
      rw (levels_from-stop h fuel b) (unfold extend_root grow_root in refl)
  update_one zero a _ (keep _ (fresh x)) n = absurd (omega arith)
  update_one (suc fuel) a _ (keep _ (fresh x)) n = rw (levels_from-go h fuel a x []) (
      unfold extend_root grow_root pad next_level last_parent in
      rw (levels_from-stop h fuel (merkle_parent h a x)))

  -- The second and the third loop turn the levels above `ls` into those of the list that it grew to.
  pub update_lem :
      (old new : ℕ) (ls ms : List String)
      → Grows ls ms
      → 0 < length ls
      → length ls ≤ old
      → length ms ≤ new
      → extend_root h (update_path h ms (bare_above old ls)) ≡ levels_from h new ms
  update_lem old new [] ms g p n m = absurd (omega arith)
  update_lem old new (a ∷ []) ms g p n m =
      rw bare_above-one (unfold update_path in update_one new a ms g m)
  update_lem zero new (a ∷ b ∷ ls) ms g p n m = absurd (omega arith)
  update_lem old zero (a ∷ b ∷ ls) ms g p n m = absurd (omega (arith, Grows-length g))
  update_lem (suc old) (suc new) (a ∷ b ∷ ls) ms g p n m =
      let above = next_level h (pad (a ∷ b ∷ ls)) in
      let many : 1 < length ms = omega (arith, Grows-length g) in
      let ih =
        update_lem old new above (next_level h (pad ms)) (Grows-next_level g)
          (omega (arith, length-next_level h (a ∷ b ∷ ls)))
          (omega (arith, length-next_level h (a ∷ b ∷ ls)))
          (omega (arith, length-next_level h ms)) in
      rw
        (
          levels_from-many new ms many,
          bare_above-many,
          update_path-cons,
          put_parent-eq (a ∷ b ∷ ls) ms g,
          extend_root-cons,
        )
        (ap (λ (t : List (List String)). pad ms ∷ t) ih)
