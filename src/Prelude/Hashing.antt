-- ===== src/Prelude/Hashing.antt =====
-- `hashlib.sha256(_).hexdigest()` and `json.dumps(_, sort_keys=True)`, which the program takes from
-- the standard library: a pair of functions that the modules below are given as a parameter.
use Prim.Native.Nat.{ℕ}
use Prim.Native.String.{String, count}
use mathlib.Core.Path.{◌≡◌}
use mathlib.Core.Bool.{Bool}
use mathlib.Core.List.{List, [], ◌∷◌, ◌++◌}
use mathlib.Core.Option.{Option, none, some}
use text.Mathlib.Text.{◌==◌}
use package.bhiv_qcg.Prelude.Tests.{if◌then◌else◌}
use mathlib.Core.Logic.{◌≢◌, ◌⊎◌, inl, inr}

-- The values that the program hands to `json.dumps`.
mutual
  pub data Json : Type 0 where
    str : String → Json
    num : ℕ → Json
    -- a float, by its digits
    real : String → Json
    object : Fields → Json
    null : Json
    flag : Bool → Json
    array : Items → Json

  pub data Items : Type 0 where
    nil : Items
    item : Json → Items → Items

  pub data Fields : Type 0 where
    end : Fields
    field : String → Json → Fields → Fields

-- `json.loads(_)[key]`, for a text value at the top level of an object.
abbrev pub field_of : String → Fields → Option String
field_of key end = none
field_of key (field k (str s) rest) = if k == key then some s else field_of key rest
field_of key (field k _ rest) = field_of key rest

abbrev pub get_field : String → Json → Option String
get_field key (object fields) = field_of key fields
get_field key _ = none

-- A list of texts, and a dict of texts.
abbrev pub texts_from : List String → Items
texts_from [] = nil
texts_from (s ∷ rest) = item (str s) (texts_from rest)

abbrev pub texts : List String → Json
texts xs = array (texts_from xs)

abbrev pub fields_from {ℓ} : {V : Type ℓ} → (V → Json) → List (String × V) → Fields
fields_from to_json [] = end
fields_from to_json ((k, v) ∷ rest) = field k (to_json v) (fields_from to_json rest)

pub record Hashing : Type 0 where
  pub sha256 : String → String
  pub dumps : Json → String

-- The text stands in the list.
abbrev pub IsIn : String → List String → Type 0
IsIn s [] = ⊥
IsIn s (x ∷ xs) = (s ≡ x) ⊎ IsIn s xs

pub IsIn-left : (s : String) (xs ys : List String) → IsIn s xs → IsIn s (xs ++ ys)
IsIn-left s [] ys i = absurd i
IsIn-left s (x ∷ xs) ys (inl same) = inl same
IsIn-left s (x ∷ xs) ys (inr later) = inr (IsIn-left s xs ys later)

pub IsIn-right : (s : String) (xs ys : List String) → IsIn s ys → IsIn s (xs ++ ys)
IsIn-right s [] ys i = i
IsIn-right s (x ∷ xs) ys i = inr (IsIn-right s xs ys i)

-- A text of one list and a different text of the other with the same digest.
pub record Clash (h : Hashing) (xs ys : List String) : Type 0 where
  pub left : String
  pub right : String
  pub left_in : IsIn left xs
  pub right_in : IsIn right ys
  pub differ : left ≢ right
  pub same_digest : h.sha256 left ≡ h.sha256 right

-- Longer lists keep a clash.
pub widened :
    (h : Hashing) (xs ys us vs : List String)
    → ((s : String) → IsIn s xs → IsIn s us)
    → ((s : String) → IsIn s ys → IsIn s vs)
    → Clash h xs ys
    → Clash h us vs
widened h xs ys us vs f g c = record {
  left = c.left;
  right = c.right;
  left_in = f c.left c.left_in;
  right_in = g c.right c.right_in;
  differ = c.differ;
  same_digest = c.same_digest;
}

-- `json.dumps` loses no value: of this, the module uses that the text determines one field.
abbrev pub KeepsField : Hashing → String → Type 0
KeepsField h key = (a b : Json) → h.dumps a ≡ h.dumps b → get_field key a ≡ get_field key b

-- A hex digest has 64 characters.
abbrev pub IsDigest : String → Type 0
IsDigest s = count s ≡ 64

-- What the documentation of `hashlib` says of `sha256(_).hexdigest()`.
pub record IsDocumented (h : Hashing) : Type 0 where
  pub digest_length : (s : String) → IsDigest (h.sha256 s)
