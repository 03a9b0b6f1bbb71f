-- ===== src/Examples/Toy.antt =====
-- Concrete stand-ins for SHA-256 and `json.dumps`, with which the model runs in tests.
use Prim.Native.String.{◌++◌ as text_append}
use bhiv_qcg.Prelude.{String, ◌≡◌, refl, Option, none, some}
use bhiv_qcg.Prelude.Hashing.{Hashing, get_field, IsDocumented, KeepsField}

abbrev or_empty : Option String → String
or_empty none = ""
or_empty (some s) = s

-- Texts are their own digests, and an object is written as the text under one key.
abbrev pub plain : String → Hashing
plain key = record { sha256 = λ s. text_append "#" s; dumps = λ j. or_empty (get_field key j) }

-- Digests of the documented length.
abbrev pub sized : Hashing
sized = record {
  sha256 = λ s. "0123456789abcdef0123456789abcdef0123456789abcdef0123456789abcdef";
  dumps = λ j. "";
}

pub sized-IsDocumented : IsDocumented sized
sized-IsDocumented = record { digest_length = λ s. refl }

-- Writes the text under the key, and marks its absence.
abbrev mark : Option String → String
mark none = ""
mark (some s) = String.◌∷◌ "s" s

abbrev pub keeping : String → Hashing
keeping key = record { sha256 = λ s. text_append "#" s; dumps = λ j. mark (get_field key j) }

mark-inj : (a b : Option String) → mark a ≡ mark b → a ≡ b
mark-inj none none e = refl
mark-inj none (some t) e = cc
mark-inj (some s) none e = cc
mark-inj (some s) (some t) e = cc

pub keeping-KeepsField : (key : String) → KeepsField (keeping key) key
keeping-KeepsField key a b e = mark-inj (get_field key a) (get_field key b) e
