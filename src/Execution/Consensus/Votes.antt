-- ===== src/Execution/Consensus/Votes.antt =====
-- consensus_simulation.py: the votes for a hash, their count in `hash_counts`, and the majority.
use mathlib.Core.Option.{some-injective}
use native.Mathlib.Nat.{mul-le-mul_right}
use bhiv_qcg.Prelude.{
  ℕ, ◌+◌, ◌*◌, ◌≤◌, ◌<◌, String, ◌≡◌, refl, ◌≢◌, inl, inr, Bool, false, Option, none, some, [], ◌∷◌,
  arith, ◌==◌, eq_refl, ltb, if◌then◌else◌, Bool-cases, Option-cases, String-cases, eq_false,
  ltb→lt, length,
}
use bhiv_qcg.Prelude.Dict.{Dict, lookup, lookup-insert, HasKeys, insert-HasKeys}
use bhiv_qcg.Execution.Consensus.{NodeAttestation, vote, or_zero, count_vote, hash_counts, majority}

-- The attestation votes for `f`.
abbrev pub is_for : String → Option String → Bool
is_for f none = false
is_for f (some g) = g == f

-- How many attestations vote for `f`.
abbrev pub votes : String → Dict NodeAttestation → ℕ
votes f [] = 0
votes f ((nid, a) ∷ rest) = (if is_for f (vote a) then 1 else 0) + votes f rest

count_vote_at :
    (f : String) (o : Option String) (counts : Dict ℕ)
    → or_zero (lookup f (count_vote o counts))
      ≡ or_zero (lookup f counts) + (if is_for f o then 1 else 0)
count_vote_at f none counts = omega arith
count_vote_at f (some g) counts = elim (String-cases g f) [
  | inl same ↦
      rw (lookup-insert g f (or_zero (lookup g counts) + 1) counts) (rw same (rw (eq_refl f) refl))
  | inr differ ↦
      rw (lookup-insert g f (or_zero (lookup g counts) + 1) counts)
        (rw (eq_false g f differ) (omega arith))
]

count_vote-HasKeys :
    (o : Option String) (counts : Dict ℕ) → HasKeys counts → HasKeys (count_vote o counts)
count_vote-HasKeys none counts w = w
count_vote-HasKeys (some g) counts w = insert-HasKeys g _ counts w

hash_counts_at :
    (f : String) (d : Dict NodeAttestation) (counts : Dict ℕ)
    → or_zero (lookup f (hash_counts d counts)) ≡ or_zero (lookup f counts) + votes f d
unfolding hash_counts
hash_counts_at f [] counts = omega arith
hash_counts_at f ((nid, a) ∷ d) counts =
    omega (arith, hash_counts_at f d (count_vote (vote a) counts), count_vote_at f (vote a) counts)

pub hash_counts-HasKeys :
    (d : Dict NodeAttestation) (counts : Dict ℕ) → HasKeys counts → HasKeys (hash_counts d counts)
unfolding hash_counts
hash_counts-HasKeys [] counts w = w
hash_counts-HasKeys ((nid, a) ∷ d) counts w =
    hash_counts-HasKeys d (count_vote (vote a) counts) (count_vote-HasKeys (vote a) counts w)

majority_step :
    (f g : String) (n m : ℕ) (rest : Dict ℕ)
    → majority (f, n) ((g, m) ∷ rest)
      ≡ (if ltb n m then majority (g, m) rest else majority (f, n) rest)
unfolding majority
majority_step f g n m rest = refl

-- The majority is at least the first and every other entry, and is one of them.
majority_first : (f : String) (n : ℕ) (rest : Dict ℕ) → n ≤ (majority (f, n) rest).1
majority_first f n [] = unfold majority in omega arith
majority_first f n ((g, m) ∷ rest) =
    let other = majority_first g m rest in
    let same = majority_first f n rest in
    rw (majority_step f g n m rest) (elim (Bool-cases (ltb n m)) [
      | inl less ↦ rw less (omega (arith, other, ltb→lt n m less))
      | inr more ↦ rw more same
    ])

majority_rest :
    (f k : String) (n c : ℕ) (rest : Dict ℕ) → lookup k rest ≡ some c → c ≤ (majority (f, n) rest).1
majority_rest f k n c [] e = absurd (unfold lookup in ground (arith, e))
majority_rest f k n c ((g, m) ∷ rest) e =
    let e' : (if g == k then some m else lookup k rest) ≡ some c = unfold lookup in e in
    rw (majority_step f g n m rest) (elim (Bool-cases (ltb n m)) [
      | inl less ↦ rw less (elim (Bool-cases (g == k)) [
        | inl here ↦ omega (arith, majority_first g m rest, some-injective m c (rw here at e'))
        | inr later ↦ majority_rest g k m c rest (rw later at e')
      ])
      | inr more ↦ rw more (elim (Bool-cases (g == k)) [
        | inl here ↦
            let bound : m ≤ n = ground (arith, more) in
            omega (arith, bound, majority_first f n rest, some-injective m c (rw here at e'))
        | inr later ↦ majority_rest f k n c rest (rw later at e')
      ])
    ])

lookup_later :
    (g k : String) (m c : ℕ) (rest : Dict ℕ)
    → lookup g rest ≡ none
    → lookup k rest ≡ some c
    → lookup k ((g, m) ∷ rest) ≡ some c
unfolding lookup
lookup_later g k m c rest missing e = elim (String-cases g k) [
  | inl same ↦ absurd (ground (arith, e, rw same at missing))
  | inr differ ↦ rw (eq_false g k differ) e
]

lookup_first : (g : String) (m : ℕ) (rest : Dict ℕ) → lookup g ((g, m) ∷ rest) ≡ some m
unfolding lookup
lookup_first g m rest = rw (eq_refl g) refl

lookup_behind :
    (f g : String) (m : ℕ) (rest : Dict ℕ) → lookup f ((g, m) ∷ rest) ≡ none → lookup f rest ≡ none
unfolding lookup
lookup_behind f g m rest e = ground (arith, e)

lookup_skip :
    (f g k : String) (n m c : ℕ) (rest : Dict ℕ)
    → lookup g rest ≡ none
    → lookup k ((f, n) ∷ rest) ≡ some c
    → lookup k ((f, n) ∷ (g, m) ∷ rest) ≡ some c
unfolding lookup
lookup_skip f g k n m c rest w e = elim (Bool-cases (f == k)) [
  | inl same ↦ rw same (rw same at e)
  | inr differ ↦ rw differ (lookup_later g k m c rest w (rw differ at e))
]

pub majority_in :
    (f : String) (n : ℕ) (rest : Dict ℕ)
    → HasKeys ((f, n) ∷ rest)
    → let best = majority (f, n) rest in lookup best.0 ((f, n) ∷ rest) ≡ some best.1
majority_in f n [] w = unfold majority in lookup_first f n []
majority_in f n ((g, m) ∷ rest) w = rw (majority_step f g n m rest) (elim (Bool-cases (ltb n m)) [
  | inl less ↦ rw less (lookup_later f _ n _ ((g, m) ∷ rest) w.0 (majority_in g m rest w.1))
  | inr more ↦ rw more (
      lookup_skip f g _ n m _ rest w.1.0
        (majority_in f n rest (lookup_behind f g m rest w.0, w.1.1)))
])

-- No attestation votes for two hashes.
votes_apart : (f g : String) (d : Dict NodeAttestation) → f ≢ g → votes f d + votes g d ≤ length d
votes_apart f g [] n = omega arith
votes_apart f g ((nid, a) ∷ d) n =
    let rest = votes_apart f g d n in
    elim (Option-cases (vote a)) [
      | inl blank ↦ rw blank (omega (arith, rest))
      | inr (k, cast) ↦ rw cast (elim (String-cases k f) [
        | inl is_f ↦ rw (is_f, eq_refl f, eq_false f g n) (omega (arith, rest))
        | inr not_f ↦ rw (eq_false k f not_f) (elim (Bool-cases (k == g)) [
          | inl is_g ↦ rw is_g (omega (arith, rest))
          | inr not_g ↦ rw not_g (omega (arith, rest))
        ])
      ])
    ]

module _ (threshold total : ℕ) where
  -- What a quorum of the voters is: some of them, and enough.
  abbrev pub IsQuorum : String → Dict NodeAttestation → Type 0
  IsQuorum f voters = (0 < votes f voters) × (threshold * total ≤ 100 * votes f voters)

  pub two_quorums :
      (f g : String) (voters : Dict NodeAttestation)
      → 50 < threshold
      → length voters ≤ total
      → IsQuorum f voters
      → IsQuorum g voters
      → f ≡ g
  two_quorums f g voters half few qf qg = elim (String-cases f g) [
    | inl same ↦ same
    | inr differ ↦ absurd (
        let apart = votes_apart f g voters differ in
        let more : 51 * total ≤ threshold * total = mul-le-mul_right total half in
        omega (arith, apart, more, few, qf.0, qf.1, qg.1))
  ]

  pub pos_of_quorum : (n : ℕ) → 50 < threshold → 0 < total → threshold * total ≤ 100 * n → 0 < n
  pos_of_quorum n half pos q =
      let more : 51 * total ≤ threshold * total = mul-le-mul_right total half in
      omega (arith, more, pos, q)

pub counted_at :
    (f : String) (voters : Dict NodeAttestation) (counts : Dict ℕ)
    → hash_counts voters [] ≡ counts
    → or_zero (lookup f counts) ≡ votes f voters
counted_at f voters counts e = rw⁻¹ e (unfold lookup in omega (arith, hash_counts_at f voters []))

pub some_counted : (o : Option ℕ) → 0 < or_zero o → o ≡ some (or_zero o)
some_counted none p = absurd (omega (arith, p))
some_counted (some n) p = refl

pub voters_there :
    (voters : Dict NodeAttestation) (x : String × ℕ) (rest : Dict ℕ)
    → hash_counts voters [] ≡ x ∷ rest
    → 0 < length voters
unfolding hash_counts
voters_there [] x rest e = cc
voters_there (v ∷ voters) x rest e = omega arith

pub majority_all :
    (f k : String) (n c : ℕ) (rest : Dict ℕ)
    → lookup k ((f, n) ∷ rest) ≡ some c
    → c ≤ (majority (f, n) rest).1
unfolding lookup
majority_all f k n c rest e = elim (Bool-cases (f == k)) [
  | inl here ↦ rw⁻¹ (some-injective n c (rw here at e)) (majority_first f n rest)
  | inr later ↦ majority_rest f k n c rest (rw later at e)
]
