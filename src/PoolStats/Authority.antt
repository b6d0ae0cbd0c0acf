-- ===== src/PoolStats/Authority.antt =====
-- `HrmPoolStatsRequest` and `CurrentHrmNamedService` of hrm.rs: what the caller selected, and what
-- the authority broker vouches for.
use Prim.Native.Nat.{bit_and}
use hns_dane_browser_extensi.Prelude.{
  ℕ, Bool, ◌&&◌, ◌||◌, not, List, replicate, ltb, leb, ◌==◌, bytes_eq,
}
use hns_dane_browser_extensi.Prelude.Result.{Result, ok, reject, ◌>>◌}
use hns_dane_browser_extensi.PoolStats.Error.{
  HrmPoolStatsError, invalid_expected_name, invalid_expected_route, invalid_current_authority,
  experimental_profile_id, read_stats_capability, min_endpoint_lifetime_limit,
  max_endpoint_lifetime_limit,
}
use hns_dane_browser_extensi.PoolStats.Literals.{service_name}
use hns_dane_browser_extensi.PoolStats.Label.{is_canonical_hns_label}
use hns_dane_browser_extensi.PoolStats.Cbor.{named_service_resource_id}
use hns_dane_browser_extensi.PoolStats.Crypto.{Crypto, valid_key}

pub record HrmPoolStatsRequest : Type 0 where
  pub expected_name : List ℕ
  pub expected_name_hash : List ℕ
  pub expected_network_magic : ℕ
  pub expected_route_id : List ℕ
  pub trusted_now : ℕ

pub record CurrentHrmNamedService : Type 0 where
  pub network_magic : ℕ
  pub name_hash : List ℕ
  pub service : List ℕ
  pub application_profile_id : ℕ
  pub hrm_sequence : ℕ
  pub hrm_envelope_hash : List ℕ
  pub authority_revision : ℕ
  pub operation_lease_generation : ℕ
  pub trusted_operation_time : ℕ
  pub service_resource_id : List ℕ
  pub service_delegation_id : List ℕ
  pub service_generation : ℕ
  pub service_controller_key : List ℕ
  pub resource_not_before : ℕ
  pub resource_expires_at : ℕ
  pub delegation_not_before : ℕ
  pub delegation_expires_at : ℕ
  pub max_endpoint_lifetime : ℕ
  pub allowed_endpoint_capabilities : ℕ
  pub endpoint_constraints_hash : List ℕ

-- `[0; 32]`
abbrev pub zero_hash : List ℕ
zero_hash = replicate 32 0

-- The disjunction that `CurrentHrmNamedService::validate` refuses, in two halves: the intervals ...
unfoldable pub interval_invalid : CurrentHrmNamedService → Bool
interval_invalid a =
    leb a.resource_expires_at a.resource_not_before
    || ltb a.delegation_not_before a.resource_not_before
    || ltb a.resource_expires_at a.delegation_expires_at
    || leb a.delegation_expires_at a.delegation_not_before
    || ltb a.trusted_operation_time a.resource_not_before
    || leb a.resource_expires_at a.trusted_operation_time
    || ltb a.trusted_operation_time a.delegation_not_before
    || leb a.delegation_expires_at a.trusted_operation_time
    || not (
        leb min_endpoint_lifetime_limit a.max_endpoint_lifetime
        && leb a.max_endpoint_lifetime max_endpoint_lifetime_limit)
    || bit_and a.allowed_endpoint_capabilities read_stats_capability == 0

module _ (c : Crypto) where
  -- `HrmPoolStatsRequest::new`
  unfoldable pub new_request :
      List ℕ → ℕ → List ℕ → ℕ → Result HrmPoolStatsError HrmPoolStatsRequest
  new_request name magic route now = do
    reject (not (is_canonical_hns_label name)) invalid_expected_name
    reject (bytes_eq route zero_hash) invalid_expected_route
    ok (record {
      expected_name = name;
      expected_name_hash = c.sha3_256_digest name;
      expected_network_magic = magic;
      expected_route_id = route;
      trusted_now = now;
    })

  -- ... and the identity.
  unfoldable pub identity_invalid : CurrentHrmNamedService → Bool
  identity_invalid a =
      not (bytes_eq a.service service_name)
      || not (a.application_profile_id == experimental_profile_id)
      || a.authority_revision == 0
      || a.operation_lease_generation == 0
      || not (
          bytes_eq a.service_resource_id (
            named_service_resource_id c a.network_magic a.name_hash a.service
              a.application_profile_id))
      || a.service_generation == 0

  unfoldable pub validate : CurrentHrmNamedService → Result HrmPoolStatsError (Unit {0})
  validate a = do
    reject (identity_invalid a || interval_invalid a) invalid_current_authority
    reject (not (valid_key c a.service_controller_key)) invalid_current_authority

unfoldable pub matches_request : CurrentHrmNamedService → HrmPoolStatsRequest → Bool
matches_request a r =
    a.network_magic == r.expected_network_magic
    && bytes_eq a.name_hash r.expected_name_hash
    && a.trusted_operation_time == r.trusted_now
