-- ===== src/Services/Negotiation/Laws.antt =====
-- What a `VersionNegotiator` answers of versions that were registered.
use bhiv_qcg.Prelude.{
  String, ◌≡◌, refl, ◌↔◌, ◌⊎◌, inl, inr, true, ◌||◌, Option, some, List, [], ◌∷◌, ◌++◌, arith,
  String-cases, eq_false, mem,
}
use bhiv_qcg.Prelude.Dict.{lookup-insert, lookup-insert_self}
use bhiv_qcg.Services.Negotiation.{
  VersionNegotiator, register_compatibility, or_empty, negotiate, negotiate_found,
  negotiated_version,
}

mem-append : (k : String) (xs ys : List String) → mem k (xs ++ ys) ≡ (mem k xs || mem k ys)
mem-append k [] ys = refl
mem-append k (x ∷ xs) ys = ground (arith, mem-append k xs ys)

granted :
    (c d u : List String) (requested : String)
    → (negotiated_version requested (negotiate_found (some c) d u requested) ≡ some requested)
      ↔ (mem requested (c ++ d) ≡ true)
unfolding negotiated_version negotiate_found
granted c d u requested = rw (mem-append requested c d) (ground arith)

-- After the versions of a service are registered, a version requested of it is negotiated exactly when
-- it stands among the compatible or the deprecated ones, whatever was registered before and whatever
-- the unsupported ones are; and a service `k` is answered as before unless it is that one.
negotiate_registered :
    (sid requested k : String) (c : List String) (d u : Option (List String))
    (n : VersionNegotiator)
    → let n' = register_compatibility sid c d u n in
      ((negotiated_version requested (negotiate sid requested n') ≡ some requested)
        ↔ (mem requested (c ++ or_empty d) ≡ true))
      × ((sid ≡ k) ⊎ (negotiate k requested n' ≡ negotiate k requested n))
unfolding negotiate register_compatibility
negotiate_registered sid requested k c d u n = (
  rw
      (
        lookup-insert_self sid c n.compatible_versions,
        lookup-insert_self sid (or_empty d) n.deprecated_versions,
        lookup-insert_self sid (or_empty u) n.unsupported_versions,
      )
      (granted c (or_empty d) (or_empty u) requested),
  elim (String-cases sid k) [
    | inl same ↦ inl same
    | inr other ↦ inr (
        rw
          (
            lookup-insert sid k c n.compatible_versions,
            lookup-insert sid k (or_empty d) n.deprecated_versions,
            lookup-insert sid k (or_empty u) n.unsupported_versions,
            eq_false sid k other,
          )
          refl)
  ],
)
