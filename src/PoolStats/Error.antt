-- ===== src/PoolStats/Error.antt =====
-- `HrmPoolStatsError` and the constants at the head of hrm.rs and lib.rs.
use Prim.Native.String.{String}
use hns_dane_browser_extensi.Prelude.{ℕ, ◌*◌}

pub data HrmPoolStatsError : Type 0 where
  invalid_expected_name : HrmPoolStatsError
  invalid_expected_route : HrmPoolStatsError
  invalid_current_authority : HrmPoolStatsError
  authority_context_mismatch : HrmPoolStatsError
  authority_not_current : HrmPoolStatsError
  authority_rollback : HrmPoolStatsError
  conflicting_authority : HrmPoolStatsError
  invalid_document : String → HrmPoolStatsError
  invalid_endpoint : String → HrmPoolStatsError
  endpoint_cryptography : HrmPoolStatsError
  invalid_snapshot : String → HrmPoolStatsError
  snapshot_cryptography : HrmPoolStatsError
  state_scope_mismatch : HrmPoolStatsError
  trusted_clock_rollback : HrmPoolStatsError
  sequence_rollback : HrmPoolStatsError
  conflicting_sequence : HrmPoolStatsError
  state_conflicted : HrmPoolStatsError
  state_exhausted : HrmPoolStatsError
  state_generation_exhausted : HrmPoolStatsError
  invalid_state : HrmPoolStatsError
  historical_admission : HrmPoolStatsError

abbrev pub endpoint_version : ℕ
endpoint_version = 1

abbrev pub snapshot_version : ℕ
snapshot_version = 2

abbrev pub state_version : ℕ
state_version = 2

abbrev pub max_signature_bytes : ℕ
max_signature_bytes = 80

abbrev pub max_endpoint_bytes : ℕ
max_endpoint_bytes = 320

abbrev pub max_snapshot_bytes : ℕ
max_snapshot_bytes = 640

abbrev pub max_document_bytes : ℕ
max_document_bytes = 16 * 1024

abbrev pub max_endpoint_histories : ℕ
max_endpoint_histories = 16

abbrev pub max_operator_histories : ℕ
max_operator_histories = 128

abbrev pub max_state_bytes : ℕ
max_state_bytes = 24000

abbrev pub min_endpoint_lifetime_limit : ℕ
min_endpoint_lifetime_limit = 300

abbrev pub max_endpoint_lifetime_limit : ℕ
max_endpoint_lifetime_limit = 604800

abbrev pub max_snapshot_lifetime_seconds : ℕ
max_snapshot_lifetime_seconds = 120

abbrev pub state_checksum_bytes : ℕ
state_checksum_bytes = 32

abbrev pub experimental_profile_id : ℕ
experimental_profile_id = 0xff00

abbrev pub read_stats_capability : ℕ
read_stats_capability = 1
