-- ===== src/Federation/Conflict.antt =====
-- federated_registry.py: `ConflictResolver`.
pub mod Order
use bhiv_qcg.Prelude.{String, Option, none, some, List, [], ◌∷◌, if◌then◌else◌}
use bhiv_qcg.Prelude.Hashing.{Hashing}
use bhiv_qcg.Prelude.Order.{ℤ, pos, ltb_ℤ, lex, text_ltb}
use bhiv_qcg.Prelude.Numerals.{dotted}
use bhiv_qcg.Services.{PlatformServiceRecord}

abbrev pub or_zeros : Option (List ℤ) → List ℤ
or_zeros none = pos 0 ∷ pos 0 ∷ pos 0 ∷ []
or_zeros (some version) = version

-- `_parse_version`
unfoldable pub parse_version : String → List ℤ
parse_version v = or_zeros (dotted v)

module _ (h : Hashing) where
  -- The last test: the lower hash of the ids
  unfoldable pub by_hash : PlatformServiceRecord → PlatformServiceRecord → PlatformServiceRecord
  by_hash local remote =
      if text_ltb (h.sha256 remote.platform_service_id) (h.sha256 local.platform_service_id)
      then remote
      else local

  -- The tests on the time stamps, then that on the hashes
  unfoldable pub by_timestamp :
      PlatformServiceRecord → PlatformServiceRecord → PlatformServiceRecord
  by_timestamp local remote =
      if text_ltb remote.registration_timestamp local.registration_timestamp
      then remote
      else if text_ltb local.registration_timestamp remote.registration_timestamp
      then local
      else by_hash local remote

  -- `resolve`
  unfoldable pub resolve : PlatformServiceRecord → PlatformServiceRecord → PlatformServiceRecord
  resolve local remote =
      let local_ver = parse_version local.version in
      let remote_ver = parse_version remote.version in
      if lex ltb_ℤ local_ver remote_ver
      then remote
      else if lex ltb_ℤ remote_ver local_ver
      then local
      else by_timestamp local remote
