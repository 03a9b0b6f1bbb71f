-- ===== src/Sdk/Manifest/Read.antt =====
-- platform_capability_sdk.py: the metadata that `validate_manifest` reads to its end.
use bhiv_qcg.Prelude.{
  String, ◌≡◌, refl, ap, ◌≢◌, ◌↔◌, ◌⊎◌, inl, inr, Bool, true, false, Option, none, some, List,
  arith, Bool-cases,
}
use bhiv_qcg.Prelude.Hashing.{
  Json, str, num, real, object, null, flag, array, Items, nil, item, Fields, end,
}
use bhiv_qcg.Sdk.Manifest.{
  Attempt, is_truthy, has_text, get_or, fetch_metadata, operation_raises, any_raises,
  operations_raise, manifest_raises, metadata_raises, validate_manifest_raises,
}

-- The value can be asked whether it contains a text.
abbrev pub IsContainer : Json → Type 0
IsContainer v = (text : String) → has_text text v ≢ none

abbrev pub AreContainers : Items → Type 0
AreContainers nil = Unit
AreContainers (item v rest) = IsContainer v × AreContainers rest

-- Operations that can be gone through: a list of containers, or a text or dict, of which each
-- character or key is a text.
abbrev pub IsOperations : Json → Type 0
IsOperations v =
    ((s : String) × (v ≡ str s))
    ⊎ ((fields : Fields) × (v ≡ object fields))
    ⊎ ((items : Items) × (v ≡ array items) × AreContainers items)

-- No manifest, or a dict whose operations can be gone through.
abbrev pub IsManifest : Json → Type 0
IsManifest v =
    (is_truthy v ≡ false)
    ⊎ ((fields : Fields) × (v ≡ object fields)
        × IsOperations (get_or "supported_operations" fields (array nil)))

-- No metadata, an error, or a dict with such a manifest.
abbrev pub IsReadable : Json → Type 0
IsReadable v =
    (is_truthy v ≡ false)
    ⊎ (has_text "error" v ≡ some true)
    ⊎ ((fields : Fields) × (v ≡ object fields) × IsManifest (get_or "manifest" fields null))

abbrev items_of : Json → Items
items_of (array items) = items
items_of _ = nil

abbrev fields_of : Json → Fields
fields_of (object fields) = fields
fields_of _ = end

operation_raises-iff-IsContainer : (v : Json) → operation_raises v ≡ false ↔ IsContainer v
unfolding has_text
operation_raises-iff-IsContainer (str s) = ((λ e t h. ground (arith, h)), (λ c. refl))
operation_raises-iff-IsContainer (object fields) = ((λ e t h. ground (arith, h)), (λ c. refl))
operation_raises-iff-IsContainer (array items) = ((λ e t h. ground (arith, h)), (λ c. refl))
operation_raises-iff-IsContainer null =
    ((λ e. absurd (ground (arith, e))), (λ c. absurd (c "" refl)))
operation_raises-iff-IsContainer (num n) =
    ((λ e. absurd (ground (arith, e))), (λ c. absurd (c "" refl)))
operation_raises-iff-IsContainer (real n) =
    ((λ e. absurd (ground (arith, e))), (λ c. absurd (c "" refl)))
operation_raises-iff-IsContainer (flag n) =
    ((λ e. absurd (ground (arith, e))), (λ c. absurd (c "" refl)))

any_raises-iff-AreContainers : (items : Items) → any_raises items ≡ false ↔ AreContainers items
any_raises-iff-AreContainers nil = ((λ e. tt), (λ c. refl))
any_raises-iff-AreContainers (item v rest) = (
  (λ e. (
    (operation_raises-iff-IsContainer v).0 (ground (arith, e)),
    (any_raises-iff-AreContainers rest).0 (ground (arith, e)),
  )),
  (λ c.
      rw ((operation_raises-iff-IsContainer v).1 c.0) ((any_raises-iff-AreContainers rest).1 c.1)),
)

operations_raise-iff-IsOperations : (v : Json) → operations_raise v ≡ false ↔ IsOperations v
unfolding operations_raise
operations_raise-iff-IsOperations (str s) = ((λ e. inl (s, refl)), (λ c. refl))
operations_raise-iff-IsOperations (object fields) = ((λ e. inr (inl (fields, refl))), (λ c. refl))
operations_raise-iff-IsOperations (array items) = (
  (λ e. inr (inr (items, refl, (any_raises-iff-AreContainers items).0 e))),
  (λ c. elim c [
    | inl (s, at) ↦ absurd (ground (arith, at))
    | inr (inl (fields, at)) ↦ absurd (ground (arith, at))
    | inr (inr (others, at, all)) ↦ (any_raises-iff-AreContainers items).1 (rw (ap items_of at) all)
  ]),
)
operations_raise-iff-IsOperations null =
    ((λ e. absurd (ground (arith, e))), (λ c. ground (arith, c)))
operations_raise-iff-IsOperations (num n) =
    ((λ e. absurd (ground (arith, e))), (λ c. ground (arith, c)))
operations_raise-iff-IsOperations (real n) =
    ((λ e. absurd (ground (arith, e))), (λ c. ground (arith, c)))
operations_raise-iff-IsOperations (flag n) =
    ((λ e. absurd (ground (arith, e))), (λ c. ground (arith, c)))

-- Only a dict can be cut open.
scalar_iff :
    (P : Fields → Type 0) (v : Json)
    → ((fields : Fields) → v ≢ object fields)
    → is_truthy v ≡ false
      ↔ (is_truthy v ≡ false) ⊎ ((fields : Fields) × (v ≡ object fields) × P fields)
scalar_iff P v none_such =
    (inl, (λ c. elim c [ inl e ↦ e | inr (fields, at, rest) ↦ absurd (none_such fields at) ]))

abbrev eq_some_true : Option Bool → Bool
eq_some_true none = false
eq_some_true (some b) = b

abbrev is_bad : Json → Bool
is_bad v = eq_some_true (has_text "error" v)

manifest_raises-iff-IsManifest : (v : Json) → manifest_raises v ≡ false ↔ IsManifest v
unfolding manifest_raises
manifest_raises-iff-IsManifest (object fields) = (
  (λ e. elim (Bool-cases (is_truthy (object fields))) [
    | inr falsy ↦ inl falsy
    | inl truthy ↦ inr (fields, refl, (operations_raise-iff-IsOperations _).0 (rw truthy at e))
  ]),
  (λ c. elim c [
    | inl falsy ↦ rw falsy refl
    | inr (others, at, good) ↦
        let fine =
          (operations_raise-iff-IsOperations (get_or "supported_operations" fields (array nil))).1
            (rw (ap fields_of at) good) in
        ground (arith, fine)
  ]),
)
manifest_raises-iff-IsManifest (str s) = scalar_iff _ (str s) (λ f e. ground (arith, e))
manifest_raises-iff-IsManifest (array s) = scalar_iff _ (array s) (λ f e. ground (arith, e))
manifest_raises-iff-IsManifest null = scalar_iff _ null (λ f e. ground (arith, e))
manifest_raises-iff-IsManifest (num s) = scalar_iff _ (num s) (λ f e. ground (arith, e))
manifest_raises-iff-IsManifest (real s) = scalar_iff _ (real s) (λ f e. ground (arith, e))
manifest_raises-iff-IsManifest (flag s) = scalar_iff _ (flag s) (λ f e. ground (arith, e))

-- A value that is no dict is read if it is empty or has an error.
plain_iff :
    (P : Fields → Type 0) (v : Json) (r : Bool)
    → ((fields : Fields) → v ≢ object fields)
    → r ≡ false ↔ (is_truthy v ≡ false) ⊎ (has_text "error" v ≡ some true)
    → r ≡ false
      ↔ (is_truthy v ≡ false)
        ⊎ (has_text "error" v ≡ some true)
        ⊎ ((fields : Fields) × (v ≡ object fields) × P fields)
plain_iff P v r none_such h = (
  (λ e. elim (h.0 e) [ inl falsy ↦ inl falsy | inr bad ↦ inr (inl bad) ]),
  (λ c. elim c [
    | inl falsy ↦ h.1 (inl falsy)
    | inr (inl bad) ↦ h.1 (inr bad)
    | inr (inr (fields, at, rest)) ↦ absurd (none_such fields at)
  ]),
)

metadata_raises-iff-IsReadable : (v : Json) → metadata_raises v ≡ false ↔ IsReadable v
unfolding has_text
metadata_raises-iff-IsReadable (object fields) = (
  (λ e. elim (Bool-cases (is_truthy (object fields))) [
    | inr falsy ↦ inl falsy
    | inl truthy ↦ elim (Bool-cases (is_bad (object fields))) [
      | inl bad ↦ inr (inl (ap some bad))
      | inr good ↦
          inr (inr (fields, refl, (manifest_raises-iff-IsManifest _).0 (rw (truthy, good) at e)))
    ]
  ]),
  (λ c. elim c [
    | inl falsy ↦ rw falsy refl
    | inr (inl bad) ↦ ground (arith, bad)
    | inr (inr (others, at, good)) ↦
        let fine =
          (manifest_raises-iff-IsManifest (get_or "manifest" fields null)).1
            (rw (ap fields_of at) good) in
        ground (arith, fine)
  ]),
)
metadata_raises-iff-IsReadable (str s) =
    plain_iff _ (str s) _ (λ f e. ground (arith, e)) (ground (arith))
metadata_raises-iff-IsReadable (array s) =
    plain_iff _ (array s) _ (λ f e. ground (arith, e)) (ground (arith))
metadata_raises-iff-IsReadable null = plain_iff _ null _ (λ f e. ground (arith, e)) (ground (arith))
metadata_raises-iff-IsReadable (num s) =
    plain_iff _ (num s) _ (λ f e. ground (arith, e)) (ground (arith))
metadata_raises-iff-IsReadable (real s) =
    plain_iff _ (real s) _ (λ f e. ground (arith, e)) (ground (arith))
metadata_raises-iff-IsReadable (flag s) =
    plain_iff _ (flag s) _ (λ f e. ground (arith, e)) (ground (arith))

-- `validate_manifest` returns exactly when the metadata that the discovery nodes leave can be read.
pub validate_manifest_raises-iff-IsReadable :
    (answers : List Attempt)
    → validate_manifest_raises answers ≡ false ↔ IsReadable (fetch_metadata answers null)
unfolding validate_manifest_raises
validate_manifest_raises-iff-IsReadable answers =
    metadata_raises-iff-IsReadable (fetch_metadata answers null)
