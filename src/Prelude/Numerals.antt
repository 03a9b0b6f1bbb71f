-- ===== src/Prelude/Numerals.antt =====
-- `int(text)`, `text.strip()` and `text.split(".")`, on code points. Digits are
-- those of ASCII: other digits of Unicode, which Python reads too, make no number here.
use Prim.Native.Nat.{ℕ, zero, suc, ◌+◌, ◌-◌, ◌*◌}
use Prim.Native.String.{String}
use mathlib.Core.Bool.{Bool, true, false, ◌&&◌, ◌||◌}
use mathlib.Core.Option.{Option, none, some}
use mathlib.Core.List.{List, [], ◌∷◌}
use package.bhiv_qcg.Prelude.Tests.{leb, eqb, if◌then◌else◌}
use package.bhiv_qcg.Prelude.Order.{ℤ, pos, negsuc, codes}

-- `str.isspace` of one character
abbrev pub is_space : ℕ → Bool
is_space c =
    ((leb 9 c && leb c 13) || (leb 28 c && leb c 32) || eqb c 133 || eqb c 160)
    || (eqb c 5760 || (leb 8192 c && leb c 8202) || eqb c 8232 || eqb c 8233)
    || (eqb c 8239 || eqb c 8287 || eqb c 12288)

abbrev pub is_digit : ℕ → Bool
is_digit c = leb 48 c && leb c 57

abbrev strip_left : List ℕ → List ℕ
strip_left [] = []
strip_left (c ∷ s) = let rest = strip_left s in if is_space c then rest else c ∷ s

abbrev keep : ℕ → List ℕ → List ℕ
keep c [] = if is_space c then [] else c ∷ []
keep c (d ∷ s) = c ∷ d ∷ s

abbrev strip_right : List ℕ → List ℕ
strip_right [] = []
strip_right (c ∷ s) = keep c (strip_right s)

-- `strip()`
abbrev pub strip : List ℕ → List ℕ
strip s = strip_right (strip_left s)

abbrev put_first : ℕ → List (List ℕ) → List (List ℕ)
put_first c [] = (c ∷ []) ∷ []
put_first c (part ∷ parts) = (c ∷ part) ∷ parts

-- `split(".")`
abbrev pub split_dots : List ℕ → List (List ℕ)
split_dots [] = [] ∷ []
split_dots (c ∷ s) = let rest = split_dots s in if eqb c 46 then [] ∷ rest else put_first c rest

-- The digits after `acc`; `last` says that a digit has just been read. One underscore may stand
-- between two digits.
abbrev digits_from : ℕ → Bool → List ℕ → Option ℕ
digits_from acc last [] = if last then some acc else none
digits_from acc last (c ∷ s) =
    let read = digits_from (acc * 10 + (c - 48)) true s in
    let skipped = digits_from acc false s in
    if is_digit c then read else if eqb c 95 && last then skipped else none

abbrev negative : Option ℕ → Option ℤ
negative none = none
negative (some zero) = some (pos 0)
negative (some (suc n)) = some (negsuc n)

abbrev positive : Option ℕ → Option ℤ
positive none = none
positive (some n) = some (pos n)

abbrev signed : List ℕ → Option ℤ
signed [] = none
signed (c ∷ s) =
    if eqb c 45
    then negative (digits_from 0 false s)
    else if eqb c 43
    then positive (digits_from 0 false s)
    else positive (digits_from 0 false (c ∷ s))

-- `int(part)`: `none` where it raises ValueError
abbrev pub int_of : List ℕ → Option ℤ
int_of s = signed (strip s)

abbrev cons_both : Option ℤ → Option (List ℤ) → Option (List ℤ)
cons_both none rest = none
cons_both (some n) none = none
cons_both (some n) (some ns) = some (n ∷ ns)

-- `tuple(int(p) for p in parts)`
abbrev pub ints_of : List (List ℕ) → Option (List ℤ)
ints_of [] = some []
ints_of (part ∷ parts) = cons_both (int_of part) (ints_of parts)

abbrev pub dotted : String → Option (List ℤ)
dotted text = ints_of (split_dots (strip (codes text)))
