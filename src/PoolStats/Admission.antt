-- ===== src/PoolStats/Admission.antt =====
-- Admission of a document: `verify_document`, `verify_hrm_and_commit`,
-- `verify_engine_current_hrm_and_commit` and `reconfirm_current` of hrm.rs.
pub mod Keeps
pub mod Steps
pub mod Current
use hns_dane_browser_extensi.Prelude.{
  ℕ, Bool, true, false, ◌||◌, not, Option, none, some, List, [], ◌∷◌, min, leb, ◌==◌, bytes_eq,
  if◌then◌else◌,
}
use hns_dane_browser_extensi.Prelude.Result.{Result, ok, err}
use hns_dane_browser_extensi.Prelude.Exec.{Exec, pure, lift, gets, reject, ◌>>=◌, ◌>>◌}
use hns_dane_browser_extensi.PoolStats.Error.{
  HrmPoolStatsError, authority_context_mismatch, historical_admission, invalid_current_authority,
  max_endpoint_bytes, max_snapshot_bytes,
}
use hns_dane_browser_extensi.PoolStats.Literals.{snapshot_state_domain}
use hns_dane_browser_extensi.PoolStats.Crypto.{Crypto, blake2b_256}
use hns_dane_browser_extensi.PoolStats.Authority.{
  HrmPoolStatsRequest, CurrentHrmNamedService, validate, matches_request,
}
use hns_dane_browser_extensi.PoolStats.Document.{Formats, decode_document, decode_lower_hex}
use hns_dane_browser_extensi.PoolStats.Endpoint.{EndpointDelegation, decode_endpoint, endpoint_id}
use hns_dane_browser_extensi.PoolStats.Snapshot.{
  VerifiedFoundBlock, PublicMode, PoolStatsSnapshot, decode_snapshot,
}
use hns_dane_browser_extensi.PoolStats.Verify.{verify_endpoint, verify_snapshot}
use hns_dane_browser_extensi.PoolStats.State.{
  HrmPoolStatsState, Update, require_active, matches_current,
}
use hns_dane_browser_extensi.PoolStats.State.Observe.{observe_authority}
use hns_dane_browser_extensi.PoolStats.State.Advance.{advance_endpoint, advance_snapshot}
use hns_dane_browser_extensi.PoolStats.Codec.{encode}

pub record VerifiedHrmPoolStatsSnapshot : Type 0 where
  pub hns_name : List ℕ
  pub network_magic : ℕ
  pub route_id : List ℕ
  pub service_resource_id : List ℕ
  pub service_delegation_id : List ℕ
  pub service_generation : ℕ
  pub endpoint_delegation_id : List ℕ
  pub endpoint_sequence : ℕ
  pub authority_revision : ℕ
  pub operation_lease_generation : ℕ
  pub admission_generation : ℕ
  pub verified_at : ℕ
  pub valid_until : ℕ
  pub operator_id : List ℕ
  pub sequence : ℕ
  pub generated_at : ℕ
  pub snapshot_expires_at : ℕ
  pub tip_height : ℕ
  pub tip_hash : List ℕ
  pub connected_miners : ℕ
  pub connected_mesh_peers : ℕ
  pub accepted_shares : ℕ
  pub rejected_shares : ℕ
  pub pending_captures : ℕ
  pub last_found_block : Option VerifiedFoundBlock
  pub mode : PublicMode
  pub production_eligible : Bool

unfoldable pub minimize :
    PoolStatsSnapshot
    → CurrentHrmNamedService
    → HrmPoolStatsRequest
    → List ℕ
    → ℕ
    → ℕ
    → VerifiedHrmPoolStatsSnapshot
minimize s a r delegation sequence_of_endpoint generation_of_state = record {
  hns_name = r.expected_name;
  network_magic = s.network_magic;
  route_id = s.route_id;
  service_resource_id = s.service_resource_id;
  service_delegation_id = s.service_delegation_id;
  service_generation = s.service_generation;
  endpoint_delegation_id = delegation;
  endpoint_sequence = sequence_of_endpoint;
  authority_revision = a.authority_revision;
  operation_lease_generation = a.operation_lease_generation;
  admission_generation = generation_of_state;
  verified_at = r.trusted_now;
  valid_until = min (min s.expires_at a.resource_expires_at) a.delegation_expires_at;
  operator_id = s.operator_id;
  sequence = s.sequence;
  generated_at = s.generated_at;
  snapshot_expires_at = s.expires_at;
  tip_height = s.tip_height;
  tip_hash = s.tip_hash;
  connected_miners = s.connected_miners;
  connected_mesh_peers = s.connected_mesh_peers;
  accepted_shares = s.accepted_shares;
  rejected_shares = s.rejected_shares;
  pending_captures = s.pending_captures;
  last_found_block = s.last_found_block;
  mode = s.mode;
  production_eligible = s.production_eligible;
}

module _ (c : Crypto) where
  -- The disjunction that `reconfirm_current` refuses.
  unfoldable pub admission_differs :
      VerifiedHrmPoolStatsSnapshot
      → CurrentHrmNamedService
      → HrmPoolStatsRequest
      → HrmPoolStatsState
      → Bool
  admission_differs v a r s =
      not (matches_request a r)
      || not (bytes_eq v.hns_name r.expected_name)
      || not (v.network_magic == r.expected_network_magic)
      || not (bytes_eq v.route_id r.expected_route_id)
      || not (bytes_eq v.service_resource_id a.service_resource_id)
      || not (bytes_eq v.service_delegation_id a.service_delegation_id)
      || not (v.service_generation == a.service_generation)
      || not (v.authority_revision == a.authority_revision)
      || not (v.operation_lease_generation == a.operation_lease_generation)
      || not (v.admission_generation == s.generation)
      || not (v.verified_at == r.trusted_now)
      || leb v.valid_until r.trusted_now
      || not (matches_current a r s)

  unfoldable pub reconfirm_current :
      VerifiedHrmPoolStatsSnapshot
      → CurrentHrmNamedService
      → HrmPoolStatsRequest
      → HrmPoolStatsState
      → Result HrmPoolStatsError (Unit {0})
  reconfirm_current v a r s = elim (validate c a) [
    | err e ↦ err e
    | ok valid ↦ if admission_differs v a r s then err historical_admission else ok tt
  ]

  module _ (f : Formats) where
    -- The body of `verify_document` behind the endpoint's history.
    unfoldable pub admit_snapshot :
        CurrentHrmNamedService
        → HrmPoolStatsRequest
        → EndpointDelegation
        → List ℕ
        → Update VerifiedHrmPoolStatsSnapshot
    admit_snapshot a r e bytes = do
      s ← lift (decode_snapshot c bytes)
      verified ← lift (verify_snapshot c s a r e (endpoint_id c e))
      snapshot_digest ← lift (blake2b_256 c snapshot_state_domain (bytes ∷ []))
      advance_snapshot s.operator_id s.sequence snapshot_digest
      generation ← gets (λ t. t.generation)
      pure (minimize s a r (endpoint_id c e) e.endpoint_sequence generation)

    -- ... and behind the authority's observation.
    unfoldable pub admit_document :
        CurrentHrmNamedService → HrmPoolStatsRequest → List ℕ → Update VerifiedHrmPoolStatsSnapshot
    admit_document a r bytes = do
      document ← lift (decode_document f bytes)
      endpoint_bytes ← lift (
          decode_lower_hex f document.endpoint_delegation max_endpoint_bytes
            "invalid endpoint delegation")
      snapshot_bytes ←
          lift (decode_lower_hex f document.snapshot max_snapshot_bytes "invalid signed snapshot")
      e ← lift (decode_endpoint c endpoint_bytes)
      verified ← lift (verify_endpoint c e a r.trusted_now)
      advance_endpoint e.endpoint_key e.endpoint_sequence (endpoint_id c e)
      admit_snapshot a r e snapshot_bytes

    unfoldable pub verify_document :
        CurrentHrmNamedService → HrmPoolStatsRequest → List ℕ → Update VerifiedHrmPoolStatsSnapshot
    verify_document a r bytes = do
      valid ← lift (validate c a)
      reject (not (matches_request a r)) authority_context_mismatch
      observe_authority a r
      require_active
      admit_document a r bytes
