-- ===== src/Prelude/Order.antt =====
-- Strict orders as Boolean tests: numbers, integers, and the order of tuples, lists and texts that
-- Python's `<` decides.
use Prim.Native.Nat.{ℕ}
use Prim.Native.String.{String}
use Prim.Native.Char.{code}
use mathlib.Core.Path.{◌≡◌, refl, ap₂, ◌∙◌}
use mathlib.Core.Logic.{◌⊎◌, inl, inr}
use mathlib.Core.Bool.{Bool, true, false}
use mathlib.Core.List.{List, [], ◌∷◌}
use native.Mathlib.Omega.{arith}
use text.Mathlib.TextEquality.{codes_equal}
use text.Mathlib.TextPositions.{compare_self}
use package.bhiv_qcg.Prelude.Tests.{ltb, Bool-cases, if◌then◌else◌}

pub record IsOrder {ℓ} {A : Type ℓ} (lt : A → A → Bool) : Type ℓ where
  pub asym : (a b : A) → lt a b ≡ true → lt b a ≡ false
  pub trans : (a b c : A) → lt a b ≡ true → lt b c ≡ true → lt a c ≡ true
  pub connected : (a b : A) → lt a b ≡ false → lt b a ≡ false → a ≡ b

module _ {ℓ} {A : Type ℓ} {lt : A → A → Bool} (o : IsOrder lt) where
  -- The complement of a strict order is transitive too.
  pub unbeaten : (a b c : A) → lt a b ≡ false → lt b c ≡ false → lt a c ≡ false
  unbeaten a b c h k = elim (Bool-cases (lt a c)) [
    | inr less ↦ less
    | inl more ↦ elim (Bool-cases (lt c b)) [
      | inl cb ↦ absurd (ground (arith, h, o.trans a c b more cb))
      | inr bc ↦ rw⁻¹ (o.connected b c k bc) h
    ]
  ]

pub ltb-IsOrder : IsOrder ltb
ltb-IsOrder = record {
  asym = λ a b h. ground arith;
  trans = λ a b c h k. ground arith;
  connected = λ a b h k. ground arith;
}

-- Python's integers. The second is -(n + 1).
pub data ℤ : Type 0 where
  pos : ℕ → ℤ
  negsuc : ℕ → ℤ

abbrev pub ltb_ℤ : ℤ → ℤ → Bool
ltb_ℤ (pos m) (pos n) = ltb m n
ltb_ℤ (pos m) (negsuc n) = false
ltb_ℤ (negsuc m) (pos n) = true
ltb_ℤ (negsuc m) (negsuc n) = ltb n m

ltb_ℤ-asym : (a b : ℤ) → ltb_ℤ a b ≡ true → ltb_ℤ b a ≡ false
ltb_ℤ-asym (pos m) (pos n) h = ground arith
ltb_ℤ-asym (pos m) (negsuc n) h = ground arith
ltb_ℤ-asym (negsuc m) (pos n) h = refl
ltb_ℤ-asym (negsuc m) (negsuc n) h = ground arith

ltb_ℤ-trans : (a b c : ℤ) → ltb_ℤ a b ≡ true → ltb_ℤ b c ≡ true → ltb_ℤ a c ≡ true
ltb_ℤ-trans (pos l) (pos m) (pos n) h k = ground arith
ltb_ℤ-trans (pos l) (pos m) (negsuc n) h k = ground arith
ltb_ℤ-trans (pos l) (negsuc m) c h k = ground arith
ltb_ℤ-trans (negsuc l) (pos m) (pos n) h k = refl
ltb_ℤ-trans (negsuc l) (pos m) (negsuc n) h k = ground arith
ltb_ℤ-trans (negsuc l) (negsuc m) (pos n) h k = refl
ltb_ℤ-trans (negsuc l) (negsuc m) (negsuc n) h k = ground arith

ltb_ℤ-connected : (a b : ℤ) → ltb_ℤ a b ≡ false → ltb_ℤ b a ≡ false → a ≡ b
ltb_ℤ-connected (pos m) (pos n) h k = ground arith
ltb_ℤ-connected (pos m) (negsuc n) h k = ground arith
ltb_ℤ-connected (negsuc m) (pos n) h k = ground arith
ltb_ℤ-connected (negsuc m) (negsuc n) h k = ground arith

pub ltb_ℤ-IsOrder : IsOrder ltb_ℤ
ltb_ℤ-IsOrder = record { asym = ltb_ℤ-asym; trans = ltb_ℤ-trans; connected = ltb_ℤ-connected }

module _ {ℓ} {A : Type ℓ} (lt : A → A → Bool) where
  -- Item by item; a proper beginning is smaller.
  unfoldable pub lex : List A → List A → Bool
  lex [] [] = false
  lex [] (y ∷ ys) = true
  lex (x ∷ xs) [] = false
  lex (x ∷ xs) (y ∷ ys) =
      let rest = lex xs ys in if lt x y then true else if lt y x then false else rest

module _ {ℓ} {A : Type ℓ} {lt : A → A → Bool} (o : IsOrder lt) where
  lex-asym : (xs ys : List A) → lex lt xs ys ≡ true → lex lt ys xs ≡ false
  unfolding lex
  lex-asym [] [] h = refl
  lex-asym [] (y ∷ ys) h = refl
  lex-asym (x ∷ xs) [] h = ground arith
  lex-asym (x ∷ xs) (y ∷ ys) h = ground (arith, o.asym x y, o.asym y x, lex-asym xs ys)

  lex-connected : (xs ys : List A) → lex lt xs ys ≡ false → lex lt ys xs ≡ false → xs ≡ ys
  unfolding lex
  lex-connected [] [] h k = refl
  lex-connected [] (y ∷ ys) h k = ground arith
  lex-connected (x ∷ xs) [] h k = ground arith
  lex-connected (x ∷ xs) (y ∷ ys) h k =
      ap₂ (λ a rest. a ∷ rest) (o.connected x y (ground arith) (ground arith))
        (lex-connected xs ys (ground arith) (ground arith))

  lex_split :
      (x y : A) (xs ys : List A)
      → lex lt (x ∷ xs) (y ∷ ys) ≡ true
      → (lt x y ≡ true) ⊎ ((x ≡ y) × (lex lt xs ys ≡ true))
  unfolding lex
  lex_split x y xs ys h = elim (Bool-cases (lt x y)) [
    | inl less ↦ inl less
    | inr same ↦ inr (
      o.connected x y same (elim (Bool-cases (lt y x)) [
        | inl more ↦ ground (arith, h, same, more)
        | inr other ↦ other
      ]),
      ground (arith, h, same),
    )
  ]

  lex_first : (x y : A) (xs ys : List A) → lt x y ≡ true → lex lt (x ∷ xs) (y ∷ ys) ≡ true
  unfolding lex
  lex_first x y xs ys h = rw h refl

  lex_rest :
      (x y : A) (xs ys : List A) → x ≡ y → lex lt xs ys ≡ true → lex lt (x ∷ xs) (y ∷ ys) ≡ true
  unfolding lex
  lex_rest x y xs ys e h =
      rw e (elim (Bool-cases (lt y y)) [ inl less ↦ rw less refl | inr same ↦ rw same h ])

  lex_trans : (xs ys zs : List A) → lex lt xs ys ≡ true → lex lt ys zs ≡ true → lex lt xs zs ≡ true
  unfolding lex
  lex_trans [] [] zs h k = k
  lex_trans [] (y ∷ ys) [] h k = k
  lex_trans [] (y ∷ ys) (z ∷ zs) h k = refl
  lex_trans (x ∷ xs) [] zs h k = ground arith
  lex_trans (x ∷ xs) (y ∷ ys) [] h k = ground arith
  lex_trans (x ∷ xs) (y ∷ ys) (z ∷ zs) h k = elim (lex_split x y xs ys h) [
    | inl xy ↦ elim (lex_split y z ys zs k) [
      | inl yz ↦ lex_first x z xs zs (o.trans x y z xy yz)
      | inr yz ↦ lex_first x z xs zs (rw⁻¹ yz.0 xy)
    ]
    | inr xy ↦ elim (lex_split y z ys zs k) [
      | inl yz ↦ lex_first x z xs zs (rw xy.0 yz)
      | inr yz ↦ lex_rest x z xs zs (xy.0 ∙ yz.0) (lex_trans xs ys zs xy.1 yz.1)
    ]
  ]

  pub lex-IsOrder : IsOrder (lex lt)
  lex-IsOrder = record { asym = lex-asym; trans = lex_trans; connected = lex-connected }

-- By the first key, and at equal first keys by the second.
abbrev pub pair_lt {ℓ κ} :
    {A : Type ℓ} {B : Type κ} → (A → A → Bool) → (B → B → Bool) → A × B → A × B → Bool
pair_lt lt lt' (a, b) (a', b') = if lt a a' then true else if lt a' a then false else lt' b b'

abbrev pub flip {ℓ} : {A : Type ℓ} → (A → A → Bool) → A → A → Bool
flip lt a b = lt b a

module _ {ℓ κ} {A : Type ℓ} {B : Type κ} {lt : A → A → Bool} {lt' : B → B → Bool} (o : IsOrder lt)
    (o' : IsOrder lt') where
  pair_split :
      (a a' : A) (b b' : B)
      → pair_lt lt lt' (a, b) (a', b') ≡ true
      → (lt a a' ≡ true) ⊎ ((a ≡ a') × (lt' b b' ≡ true))
  pair_split a a' b b' h = elim (Bool-cases (lt a a')) [
    | inl less ↦ inl less
    | inr same ↦ inr (
      o.connected a a' same (elim (Bool-cases (lt a' a)) [
        | inl more ↦ ground (arith, h, same, more)
        | inr other ↦ other
      ]),
      ground (arith, h, same),
    )
  ]

  pair_first : (a a' : A) (b b' : B) → lt a a' ≡ true → pair_lt lt lt' (a, b) (a', b') ≡ true
  pair_first a a' b b' h = rw h refl

  pair_second :
      (a a' : A) (b b' : B) → a ≡ a' → lt' b b' ≡ true → pair_lt lt lt' (a, b) (a', b') ≡ true
  pair_second a a' b b' e h =
      rw e (elim (Bool-cases (lt a' a')) [ inl less ↦ rw less refl | inr same ↦ rw same h ])

  pair_trans :
      (p q r : A × B)
      → pair_lt lt lt' p q ≡ true
      → pair_lt lt lt' q r ≡ true
      → pair_lt lt lt' p r ≡ true
  pair_trans (a, x) (b, y) (c, z) h k = elim (pair_split a b x y h) [
    | inl ab ↦ elim (pair_split b c y z k) [
      | inl bc ↦ pair_first a c x z (o.trans a b c ab bc)
      | inr bc ↦ pair_first a c x z (rw⁻¹ bc.0 ab)
    ]
    | inr ab ↦ elim (pair_split b c y z k) [
      | inl bc ↦ pair_first a c x z (rw ab.0 bc)
      | inr bc ↦ pair_second a c x z (ab.0 ∙ bc.0) (o'.trans x y z ab.1 bc.1)
    ]
  ]

  pair-asym : (p q : A × B) → pair_lt lt lt' p q ≡ true → pair_lt lt lt' q p ≡ false
  pair-asym (a, x) (b, y) h = ground (arith, h, o.asym a b, o.asym b a, o'.asym x y)

  pair-connected : (p q : A × B) → pair_lt lt lt' p q ≡ false → pair_lt lt lt' q p ≡ false → p ≡ q
  pair-connected (a, x) (b, y) h k =
      ap₂ (λ s t. (s, t)) (o.connected a b (ground arith) (ground arith))
        (o'.connected x y (ground arith) (ground arith))

  pub pair-IsOrder : IsOrder (pair_lt lt lt')
  pair-IsOrder = record { asym = pair-asym; trans = pair_trans; connected = pair-connected }

pub flip-IsOrder {ℓ} : {A : Type ℓ} {lt : A → A → Bool} → IsOrder lt → IsOrder (flip lt)
flip-IsOrder o = record {
  asym = λ a b h. o.asym b a h;
  trans = λ a b c h k. o.trans c b a k h;
  connected = λ a b h k. o.connected a b k h;
}

-- The code points of a text
abbrev pub codes : String → List ℕ
codes String.[] = []
codes (String.◌∷◌ c s) = code c ∷ codes s

-- `s < t` on texts
abbrev pub text_ltb : String → String → Bool
text_ltb s t = lex ltb (codes s) (codes t)

cons-inj : (m n : ℕ) (ms ns : List ℕ) → m ∷ ms ≡ n ∷ ns → (m ≡ n) × (ms ≡ ns)
cons-inj m n ms ns e = (cc, cc)

pub codes-inj : (s t : String) → codes s ≡ codes t → s ≡ t
codes-inj String.[] String.[] e = refl
codes-inj String.[] (String.◌∷◌ d t) e = cc
codes-inj (String.◌∷◌ c s) String.[] e = cc
codes-inj (String.◌∷◌ c s) (String.◌∷◌ d t) e =
    let parts = cons-inj (code c) (code d) (codes s) (codes t) e in
    ap₂ (λ a u. String.◌∷◌ a u) (codes_equal c d (rw parts.0 (compare_self (code d))))
      (codes-inj s t parts.1)
