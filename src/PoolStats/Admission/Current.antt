-- ===== src/PoolStats/Admission/Current.antt =====
-- A snapshot that has just been released passes `reconfirm_current`.
use hns_dane_browser_extensi.Prelude.{
  ℕ, ◌<◌, ◌≡◌, Bool, true, false, ◌||◌, List, bytes_eq→eq, bytes_eq_refl, eq→bytes_eq, arith,
}
use hns_dane_browser_extensi.Prelude.Result
use hns_dane_browser_extensi.Prelude.Result.{Result, ok, err}
use hns_dane_browser_extensi.PoolStats.Crypto.{Crypto}
use hns_dane_browser_extensi.PoolStats.Authority.{
  HrmPoolStatsRequest, CurrentHrmNamedService, validate, matches_request, interval_invalid,
}
use hns_dane_browser_extensi.PoolStats.Document.{Formats}
use hns_dane_browser_extensi.PoolStats.Endpoint.{EndpointDelegation, endpoint_id}
use hns_dane_browser_extensi.PoolStats.Snapshot.{PoolStatsSnapshot}
use hns_dane_browser_extensi.PoolStats.Verify.{snapshot_context_differs}
use hns_dane_browser_extensi.PoolStats.State.{HrmPoolStatsState, matches_current}
use hns_dane_browser_extensi.PoolStats.State.Bound.{IsBound-matches_current}
use hns_dane_browser_extensi.PoolStats.Admission.{
  VerifiedHrmPoolStatsSnapshot, minimize, admission_differs, reconfirm_current, verify_document,
}
use hns_dane_browser_extensi.PoolStats.Admission.Steps.{
  verify_document-Admitted, verify_snapshot-context,
}

-- The facts that the disjunction of `PoolStatsSnapshot::verify` leaves for a released snapshot.
record Fits (s : PoolStatsSnapshot) (a : CurrentHrmNamedService) (r : HrmPoolStatsRequest)
    : Type 0 where
  network_eq : s.network_magic ≡ a.network_magic
  resource_eq : s.service_resource_id ≡ a.service_resource_id
  delegation_eq : s.service_delegation_id ≡ a.service_delegation_id
  generation_eq : s.service_generation ≡ a.service_generation
  route_eq : s.route_id ≡ r.expected_route_id
  not_expired : r.trusted_now < s.expires_at

context-Fits :
    (s : PoolStatsSnapshot) (a : CurrentHrmNamedService) (r : HrmPoolStatsRequest)
    (e : EndpointDelegation) (id : List ℕ)
    → snapshot_context_differs s a r e id ≡ false
    → Fits s a r
unfolding snapshot_context_differs
context-Fits s a r e id h = ground (
  arith,
  bytes_eq→eq s.service_resource_id a.service_resource_id,
  bytes_eq→eq s.service_delegation_id a.service_delegation_id,
  bytes_eq→eq s.route_id r.expected_route_id,
)

record Lasts (a : CurrentHrmNamedService) : Type 0 where
  resource : a.trusted_operation_time < a.resource_expires_at
  delegation : a.trusted_operation_time < a.delegation_expires_at

interval-Lasts : (a : CurrentHrmNamedService) → interval_invalid a ≡ false → Lasts a
unfolding interval_invalid
interval-Lasts a h = ground arith

or_right : (p q : Bool) → (p || q) ≡ false → q ≡ false
or_right true q h = cc
or_right false q h = h

-- The request names the authority: its network, and its trusted time.
record Named (a : CurrentHrmNamedService) (r : HrmPoolStatsRequest) : Type 0 where
  network_eq : a.network_magic ≡ r.expected_network_magic
  time_eq : a.trusted_operation_time ≡ r.trusted_now

matched-Named :
    (a : CurrentHrmNamedService) (r : HrmPoolStatsRequest) → matches_request a r ≡ true → Named a r
unfolding matches_request
matched-Named a r h = ground arith

module _ (c : Crypto) where
  validate-Lasts : (a : CurrentHrmNamedService) → validate c a ≡ ok tt → Lasts a
  unfolding validate
  validate-Lasts a h =
      let first = Result.>>=-eq-ok _ _ h in
      interval-Lasts a (or_right _ _ (Result.reject-eq-ok _ _ first.1))

  minimize-current :
      (s : PoolStatsSnapshot) (a : CurrentHrmNamedService) (r : HrmPoolStatsRequest)
      (t : HrmPoolStatsState) (id : List ℕ) (q : ℕ)
      → Fits s a r
      → Lasts a
      → Named a r
      → matches_request a r ≡ true
      → matches_current a r t ≡ true
      → admission_differs c (minimize s a r id q t.generation) a r t ≡ false
  unfolding admission_differs minimize
  minimize-current s a r t id q fits lasts named matched current = ground (
    arith,
    matched,
    current,
    fits.network_eq,
    fits.resource_eq,
    fits.delegation_eq,
    fits.generation_eq,
    fits.route_eq,
    fits.not_expired,
    lasts.resource,
    lasts.delegation,
    named.network_eq,
    named.time_eq,
    bytes_eq_refl r.expected_name,
    eq→bytes_eq s.route_id r.expected_route_id,
    eq→bytes_eq s.service_resource_id a.service_resource_id,
    eq→bytes_eq s.service_delegation_id a.service_delegation_id,
  )

  -- A snapshot that `verify_document` releases is current: under the same authority and request, and
  -- the state that verification left, `reconfirm_current` accepts it.
  pub reconfirm_after_admission :
      (f : Formats) (a : CurrentHrmNamedService) (r : HrmPoolStatsRequest) (bytes : List ℕ)
      (s : HrmPoolStatsState) (v : VerifiedHrmPoolStatsSnapshot) (t : HrmPoolStatsState)
      → verify_document c f a r bytes s ≡ (ok v, t)
      → reconfirm_current c v a r t ≡ ok tt
  unfolding reconfirm_current
  reconfirm_after_admission f a r bytes s v t h =
      let w = verify_document-Admitted c f a r bytes s v t h in
      let fits =
        context-Fits w.snapshot a r _ _
          (verify_snapshot-context c w.snapshot a r _ _ w.snapshot_verified) in
      let same =
        minimize-current w.snapshot a r t (endpoint_id c w.delegation)
          w.delegation.endpoint_sequence fits (validate-Lasts a w.authority_valid)
          (matched-Named a r w.request_matched) w.request_matched
          (IsBound-matches_current a r t w.state_bound) in
      ground (arith, w.authority_valid, w.result_eq, same)
