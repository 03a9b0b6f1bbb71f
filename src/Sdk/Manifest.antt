-- ===== src/Sdk/Manifest.antt =====
-- platform_capability_sdk.py: `validate_manifest`, of which `invoke_capability` uses only whether it
-- raises: it ignores the verdict, and no handler stands around the call.
pub mod Read
use bhiv_qcg.Prelude.{
  ℕ, String, Bool, true, false, not, ◌&&◌, ◌||◌, Option, none, some, List, [], ◌∷◌, ◌==◌, eqb,
  if◌then◌else◌,
}
use text.Mathlib.Text.{find?}
use bhiv_qcg.Prelude.Hashing.{
  Json, str, num, real, object, null, flag, array, Items, nil, item, Fields, end, field,
}

-- An attempt to ask the network returns a parsed response or raises.
pub data Attempt : Type 0 where
  response : Json → Attempt
  raised : String → Attempt

-- `bool(value)` of a parsed value
abbrev pub is_truthy : Json → Bool
is_truthy null = false
is_truthy (flag b) = b
is_truthy (str s) = not (s == "")
is_truthy (num n) = not (eqb n 0)
is_truthy (real digits) = not (digits == "0.0" || digits == "-0.0")
is_truthy (object end) = false
is_truthy (object (field k v rest)) = true
is_truthy (array nil) = false
is_truthy (array (item v rest)) = true

abbrev is_found : Option ℕ → Bool
is_found none = false
is_found (some i) = true

abbrev has_key : String → Fields → Bool
has_key key end = false
has_key key (field k v rest) = key == k || has_key key rest

abbrev is_text : String → Json → Bool
is_text text (str s) = text == s
is_text text _ = false

abbrev has_item : String → Items → Bool
has_item text nil = false
has_item text (item v rest) = is_text text v || has_item text rest

-- `text in value`, and none where that raises
unfoldable pub has_text : String → Json → Option Bool
has_text text (str s) = some (is_found (find? s text))
has_text text (object fields) = some (has_key text fields)
has_text text (array items) = some (has_item text items)
has_text text _ = none

-- `fields.get(key, default)`
unfoldable pub get_or : String → Fields → Json → Json
get_or key end default = default
get_or key (field k v rest) default = if key == k then v else get_or key rest default

-- The loop over the discovery nodes. A response that is no container raises in the test for "error",
-- is caught, and stays the last one.
unfoldable pub fetch_metadata : List Attempt → Json → Json
fetch_metadata [] last = last
fetch_metadata (raised e ∷ rest) last = fetch_metadata rest last
fetch_metadata (response r ∷ rest) last = elim (has_text "error" r) [
  | none ↦ fetch_metadata rest r
  | some bad ↦ elim bad [ true ↦ fetch_metadata rest r | false ↦ r ]
]

-- `req_field not in op`, for one operation
abbrev pub operation_raises : Json → Bool
operation_raises (str s) = false
operation_raises (object fields) = false
operation_raises (array items) = false
operation_raises _ = true

abbrev pub any_raises : Items → Bool
any_raises nil = false
any_raises (item v rest) = operation_raises v || any_raises rest

-- The loop over `enumerate(operations)`
unfoldable pub operations_raise : Json → Bool
operations_raise (array items) = any_raises items
operations_raise (str s) = false
operations_raise (object fields) = false
operations_raise _ = true

-- From the manifest that was found: only a dict has `get`.
unfoldable pub manifest_raises : Json → Bool
manifest_raises (object fields) =
    is_truthy (object fields) && operations_raise (get_or "supported_operations" fields (array nil))
manifest_raises v = is_truthy v

-- From the metadata that the loop leaves
abbrev pub metadata_raises : Json → Bool
metadata_raises (object fields) =
    is_truthy (object fields)
    && not (has_key "error" fields)
    && manifest_raises (get_or "manifest" fields null)
metadata_raises (str s) = not (s == "") && not (is_found (find? s "error"))
metadata_raises (array items) = is_truthy (array items) && not (has_item "error" items)
metadata_raises v = is_truthy v

-- Whether `validate_manifest` raises, from what the discovery nodes answer
unfoldable pub validate_manifest_raises : List Attempt → Bool
validate_manifest_raises answers = metadata_raises (fetch_metadata answers null)
