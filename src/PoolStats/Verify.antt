-- ===== src/PoolStats/Verify.antt =====
-- `EndpointDelegation::verify` and `PoolStatsSnapshot::verify` of hrm.rs.
use hns_dane_browser_extensi.Prelude.{ℕ, Bool, ◌||◌, not, List, [], ◌∷◌, leb, ltb, ◌==◌, bytes_eq}
use hns_dane_browser_extensi.Prelude.Result.{Result, reject, ◌>>=◌, ◌>>◌}
use hns_dane_browser_extensi.PoolStats.Error.{
  HrmPoolStatsError, invalid_endpoint, endpoint_cryptography, invalid_snapshot,
  snapshot_cryptography,
}
use hns_dane_browser_extensi.PoolStats.Literals.{
  endpoint_signature_domain, snapshot_signature_domain,
}
use hns_dane_browser_extensi.PoolStats.Crypto.{
  Crypto, blake2b_256, verify_with, parse_low_s_signature,
}
use hns_dane_browser_extensi.PoolStats.Authority.{HrmPoolStatsRequest, CurrentHrmNamedService}
use hns_dane_browser_extensi.PoolStats.Endpoint.{EndpointDelegation, endpoint_context_differs}
use hns_dane_browser_extensi.PoolStats.Snapshot.{PoolStatsSnapshot}

-- The disjunction that `PoolStatsSnapshot::verify` refuses.
unfoldable pub snapshot_context_differs :
    PoolStatsSnapshot
    → CurrentHrmNamedService
    → HrmPoolStatsRequest
    → EndpointDelegation
    → List ℕ
    → Bool
snapshot_context_differs s a r e id =
    not (s.network_magic == a.network_magic)
    || not (s.application_profile_id == a.application_profile_id)
    || not (bytes_eq s.service_resource_id a.service_resource_id)
    || not (bytes_eq s.service_delegation_id a.service_delegation_id)
    || not (s.service_generation == a.service_generation)
    || not (bytes_eq s.endpoint_delegation_id id)
    || not (s.endpoint_sequence == e.endpoint_sequence)
    || not (bytes_eq s.route_id r.expected_route_id)
    || ltb s.generated_at e.issued_at
    || ltb e.expires_at s.expires_at
    || ltb r.trusted_now s.generated_at
    || leb s.expires_at r.trusted_now

module _ (c : Crypto) where
  unfoldable pub verify_endpoint :
      EndpointDelegation → CurrentHrmNamedService → ℕ → Result HrmPoolStatsError (Unit {0})
  verify_endpoint e a now = do
    reject (endpoint_context_differs e a now)
        (invalid_endpoint "endpoint authority context mismatch")
    signature ← parse_low_s_signature c e.signature endpoint_cryptography
    hash ← blake2b_256 c endpoint_signature_domain (e.unsigned ∷ [])
    verify_with c a.service_controller_key hash signature endpoint_cryptography

  unfoldable pub verify_snapshot :
      PoolStatsSnapshot
      → CurrentHrmNamedService
      → HrmPoolStatsRequest
      → EndpointDelegation
      → List ℕ
      → Result HrmPoolStatsError (Unit {0})
  verify_snapshot s a r e id = do
    reject (snapshot_context_differs s a r e id)
        (invalid_snapshot "snapshot authority or route context mismatch")
    signature ← parse_low_s_signature c s.signature snapshot_cryptography
    hash ← blake2b_256 c snapshot_signature_domain (s.unsigned ∷ [])
    verify_with c e.endpoint_key hash signature snapshot_cryptography
