-- ===== src/Federation/Conflict/Order.antt =====
-- `ConflictResolver` as an order: a record with the higher version, at equal versions with the earlier
-- time stamp, at equal stamps with the lower hash is preferred, and what wins a series of conflicts is
-- preferred over all of them.
use bhiv_qcg.Prelude.{
  ℕ, ◌≡◌, refl, ◌∙◌, ◌↔◌, ◌⊎◌, inl, inr, Bool, false, List, [], ◌∷◌, arith, ltb, if◌then◌else◌,
  Bool-cases, All,
}
use bhiv_qcg.Prelude.Hashing.{Hashing}
use bhiv_qcg.Prelude.Order.{
  ℤ, IsOrder, ltb-IsOrder, ltb_ℤ, ltb_ℤ-IsOrder, lex, lex-IsOrder, codes, pair_lt, pair-IsOrder,
  flip, flip-IsOrder, unbeaten,
}
use bhiv_qcg.Services.{PlatformServiceRecord}
use bhiv_qcg.Federation.Conflict.{parse_version, by_hash, by_timestamp, resolve}

-- What the resolution reads of a record: version, time stamp, hash.
abbrev pub Rank : Type 0
Rank = List ℤ × (List ℕ × List ℕ)

-- The first wins against the second.
abbrev pub preferred : Rank → Rank → Bool
preferred = pair_lt (flip (lex ltb_ℤ)) (pair_lt (lex ltb) (lex ltb))

preferred-IsOrder : IsOrder preferred
preferred-IsOrder =
    pair-IsOrder (flip-IsOrder (lex-IsOrder ltb_ℤ-IsOrder))
      (pair-IsOrder (lex-IsOrder ltb-IsOrder) (lex-IsOrder ltb-IsOrder))

-- `a` stands in the list.
abbrev pub Stands : PlatformServiceRecord → List PlatformServiceRecord → Type 0
Stands a [] = ⊥
Stands a (x ∷ xs) = (a ≡ x) ⊎ Stands a xs

module _ (h : Hashing) where
  abbrev pub rank : PlatformServiceRecord → Rank
  rank r = (
    parse_version r.version,
    (codes r.registration_timestamp, codes (h.sha256 r.platform_service_id)),
  )

  resolve_lem :
      (local remote : PlatformServiceRecord)
      → resolve h local remote ≡ (if preferred (rank remote) (rank local) then remote else local)
  unfolding resolve by_timestamp by_hash
  resolve_lem local remote = ground arith

  -- Of two records, `resolve` chooses the same one whichever of the two is the local one, unless
  -- nothing that it reads tells them apart.
  pub resolve_commutes :
      (a b : PlatformServiceRecord) → (resolve h a b ≡ resolve h b a) ⊎ (rank a ≡ rank b)
  resolve_commutes a b = elim (Bool-cases (preferred (rank b) (rank a))) [
    | inl more ↦
        inl (rw (resolve_lem a b, resolve_lem b a, more, preferred-IsOrder.asym _ _ more) refl)
    | inr other ↦ elim (Bool-cases (preferred (rank a) (rank b))) [
      | inl less ↦ inl (rw (resolve_lem a b, resolve_lem b a, other, less) refl)
      | inr same ↦ inr (preferred-IsOrder.connected _ _ same other)
    ]
  ]

  -- The record that is left after conflicts with the records of a list, one after the other.
  abbrev pub resolve_all :
      PlatformServiceRecord → List PlatformServiceRecord → PlatformServiceRecord
  resolve_all r [] = r
  resolve_all r (x ∷ xs) = resolve_all (resolve h r x) xs

  -- Nothing in the list is preferred to `r`.
  abbrev IsBest : PlatformServiceRecord → List PlatformServiceRecord → Type 0
  IsBest r xs = All (λ x. preferred (rank x) (rank r) ≡ false) xs

  irreflexive : (a : Rank) → preferred a a ≡ false
  irreflexive a = elim (Bool-cases (preferred a a)) [
    | inl less ↦ preferred-IsOrder.asym a a less
    | inr same ↦ same
  ]

  resolve-IsBest : (a b : PlatformServiceRecord) → IsBest (resolve h a b) (a ∷ b ∷ [])
  resolve-IsBest a b = elim (Bool-cases (preferred (rank b) (rank a))) [
    | inl more ↦
        rw (resolve_lem a b, more) (preferred-IsOrder.asym _ _ more, (irreflexive (rank b), tt))
    | inr other ↦ rw (resolve_lem a b, other) (irreflexive (rank a), (other, tt))
  ]

  pub resolve-Stands : (a b : PlatformServiceRecord) → Stands (resolve h a b) (a ∷ b ∷ [])
  resolve-Stands a b = elim (Bool-cases (preferred (rank b) (rank a))) [
    | inl more ↦ rw (resolve_lem a b, more) (inr (inl refl))
    | inr other ↦ rw (resolve_lem a b, other) (inl refl)
  ]

  resolve_all-Stands :
      (r : PlatformServiceRecord) (xs : List PlatformServiceRecord)
      → Stands (resolve_all r xs) (r ∷ xs)
  resolve_all-Stands r [] = inl refl
  resolve_all-Stands r (x ∷ xs) = elim (resolve_all-Stands (resolve h r x) xs) [
    | inr later ↦ inr (inr later)
    | inl first ↦ elim (resolve-Stands r x) [
      | inl old ↦ inl (first ∙ old)
      | inr new ↦ inr (inl (first ∙ elim new [ inl e ↦ e | inr none_left ↦ absurd none_left ]))
    ]
  ]

  resolve_all-IsBest :
      (r : PlatformServiceRecord) (xs : List PlatformServiceRecord)
      → IsBest (resolve_all r xs) (r ∷ xs)
  resolve_all-IsBest r [] = (irreflexive (rank r), tt)
  resolve_all-IsBest r (x ∷ xs) =
      let w = resolve h r x in
      let best = rank (resolve_all w xs) in
      let step = resolve-IsBest r x in
      let rest = resolve_all-IsBest w xs in
      (
        unbeaten preferred-IsOrder (rank r) (rank w) best step.0 rest.0,
        (unbeaten preferred-IsOrder (rank x) (rank w) best step.1.0 rest.0, rest.1),
      )

  IsBest-at :
      (r a : PlatformServiceRecord) (xs : List PlatformServiceRecord)
      → IsBest r xs
      → Stands a xs
      → preferred (rank a) (rank r) ≡ false
  IsBest-at r a [] b s = absurd s
  IsBest-at r a (x ∷ xs) b (inl e) = rw e b.0
  IsBest-at r a (x ∷ xs) b (inr s) = IsBest-at r a xs b.1 s

  -- Resolve conflicts among the same records, met in any two orders and with any record first. If no two
  -- of the records tie in version, time stamp and hash, the same one is left.
  pub resolve_converges :
      (r s : PlatformServiceRecord) (xs ys : List PlatformServiceRecord)
      → ((a : PlatformServiceRecord) → Stands a (r ∷ xs) ↔ Stands a (s ∷ ys))
      → ((a b : PlatformServiceRecord)
          → Stands a (r ∷ xs)
          → Stands b (r ∷ xs)
          → rank a ≡ rank b
          → a ≡ b)
      → resolve_all r xs ≡ resolve_all s ys
  resolve_converges r s xs ys same distinct =
      let a = resolve_all r xs in
      let b = resolve_all s ys in
      let a_here = resolve_all-Stands r xs in
      let b_here = (same b).1 (resolve_all-Stands s ys) in
      distinct a b a_here b_here (
        preferred-IsOrder.connected (rank a) (rank b)
          (IsBest-at b a (s ∷ ys) (resolve_all-IsBest s ys) ((same a).0 a_here))
          (IsBest-at a b (r ∷ xs) (resolve_all-IsBest r xs) b_here))
