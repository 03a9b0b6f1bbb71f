-- ===== src/Prelude/Decimal.antt =====
-- `str(n)` of a natural number.
use Prim.Native.Nat.{ℕ, zero, suc, ◌+◌, ◌/◌, ◌%◌}
use Prim.Native.String.{String, ◌++◌ as text_append}
use mathlib.Core.Option.{none, some}
use mathlib.Core.List.{[], ◌∷◌}
use package.bhiv_qcg.Prelude.Tests.{ltb, if◌then◌else◌}
use package.bhiv_qcg.Prelude.Lists.{get_elem?}

abbrev pub digit : ℕ → String
digit n =
    elim (get_elem? {A = String} ("0" ∷ "1" ∷ "2" ∷ "3" ∷ "4" ∷ "5" ∷ "6" ∷ "7" ∷ "8" ∷ "9" ∷ [])
      n) [ none ↦ "" | some d ↦ d ]

unfoldable pub decimal_from : ℕ → ℕ → String
decimal_from zero n = ""
decimal_from (suc fuel) n =
    let rest = decimal_from fuel (n / 10) in
    if ltb n 10 then digit n else text_append rest (digit (n % 10))

unfoldable pub decimal : ℕ → String
decimal n = decimal_from (n + 1) n
