-- ===== src/Services/Negotiation.antt =====
-- platform_service_registry.py: `VersionNegotiator`. An answer is its case, with what the program
-- formats into its message; the time stamp of an answer is left out.
pub mod Laws
use bhiv_qcg.Prelude.{String, Option, none, some, List, [], ◌∷◌, if◌then◌else◌, mem}
use bhiv_qcg.Prelude.Dict.{Dict, lookup, contains, insert}

pub record VersionNegotiator : Type 0 where
  pub compatible_versions : Dict (List String)
  pub deprecated_versions : Dict (List String)
  pub unsupported_versions : Dict (List String)

abbrev pub new_negotiator : VersionNegotiator
new_negotiator = record {
  compatible_versions = [];
  deprecated_versions = [];
  unsupported_versions = [];
}

-- `deprecated or []`
abbrev pub or_empty : Option (List String) → List String
or_empty none = []
or_empty (some versions) = versions

-- `register_compatibility`
unfoldable pub register_compatibility :
    String
    → List String
    → Option (List String)
    → Option (List String)
    → VersionNegotiator
    → VersionNegotiator
register_compatibility service_id compatible deprecated unsupported n = record {
  compatible_versions = insert service_id compatible n.compatible_versions;
  deprecated_versions = insert service_id (or_empty deprecated) n.deprecated_versions;
  unsupported_versions = insert service_id (or_empty unsupported) n.unsupported_versions;
}

-- What `negotiate` answers of a requested version: for a DEPRECATED version, the version that its
-- message names and the suggested ones.
pub data Answer : Type 0 where
  unknown_service : Answer
  compatible : Answer
  deprecated : String → List String → Answer
  unsupported : List String → Answer
  not_recognised : List String → Answer

-- The text under "status"
unfoldable pub answer_status : Answer → String
answer_status unknown_service = "UNKNOWN_SERVICE"
answer_status compatible = "COMPATIBLE"
answer_status (deprecated latest suggested) = "DEPRECATED"
answer_status (unsupported suggested) = "UNSUPPORTED"
answer_status (not_recognised suggested) = "UNSUPPORTED"

-- The value under "negotiated_version", for a request of `requested`; `none` is both None and no key.
unfoldable pub negotiated_version : String → Answer → Option String
negotiated_version requested compatible = some requested
negotiated_version requested (deprecated latest suggested) = some requested
negotiated_version requested _ = none

-- `compatible[-1] if compatible else requested_version`
unfoldable pub last_or : String → List String → String
last_or default [] = default
last_or default (v ∷ versions) = last_or v versions

unfoldable pub negotiate_found : Option (List String) → List String → List String → String → Answer
negotiate_found none deprecated_list unsupported_list requested = unknown_service
negotiate_found (some compatible_list) deprecated_list unsupported_list requested =
    if mem requested compatible_list
    then compatible
    else if mem requested deprecated_list
    then deprecated (last_or requested compatible_list) compatible_list
    else if mem requested unsupported_list
    then unsupported compatible_list
    else not_recognised compatible_list

-- `negotiate`
unfoldable pub negotiate : String → String → VersionNegotiator → Answer
negotiate service_id requested n =
    negotiate_found (lookup service_id n.compatible_versions)
      (or_empty (lookup service_id n.deprecated_versions))
      (or_empty (lookup service_id n.unsupported_versions)) requested

pub record VersionInfo : Type 0 where
  pub compatible_list : List String
  pub deprecated_list : List String
  pub unsupported_list : List String

-- `get_version_info`
unfoldable pub get_version_info : String → VersionNegotiator → VersionInfo
get_version_info service_id n = record {
  compatible_list = or_empty (lookup service_id n.compatible_versions);
  deprecated_list = or_empty (lookup service_id n.deprecated_versions);
  unsupported_list = or_empty (lookup service_id n.unsupported_versions);
}
