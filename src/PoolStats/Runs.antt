-- ===== src/PoolStats/Runs.antt =====
-- Runs of the verifier on the test data, and what its theorems say of them.
use hns_dane_browser_extensi.Prelude.Lists.{bytes_eq, bytes_lt}
use hns_dane_browser_extensi.Prelude.{
  ℕ, ◌≡◌, refl, ◌≢◌, ◌⊎◌, true, List, [], ◌++◌, replicate, arith,
}
use hns_dane_browser_extensi.Prelude.Result.{ok, err}
use hns_dane_browser_extensi.Prelude.Exec.{pure, raise, lift, gets, modify, reject, ◌>>=◌}
use hns_dane_browser_extensi.PoolStats.Bytes.{to_le_bytes, from_le_bytes, to_be_bytes}
use hns_dane_browser_extensi.PoolStats.Crypto.{
  blake2b_256, sha256, valid_key, parse_low_s_signature, verify_with,
}
use hns_dane_browser_extensi.PoolStats.Label.{is_canonical_hns_label}
use hns_dane_browser_extensi.PoolStats.Cbor.{
  encode_cbor_unsigned, encode_cbor_length, encode_cbor_bytes, encode_cbor_text, service_identifier,
  named_service_resource_id,
}
use hns_dane_browser_extensi.PoolStats.Authority.{
  interval_invalid, identity_invalid, validate, matches_request,
}
use hns_dane_browser_extensi.PoolStats.History.{strictly_sorted_by, binary_search_by_key}
use hns_dane_browser_extensi.PoolStats.Reader.{
  read_bytes, read_array, read_u8, read_u16, read_u32, read_u64, finish,
}
use hns_dane_browser_extensi.PoolStats.Document.{decode_document, decode_lower_hex}
use hns_dane_browser_extensi.PoolStats.Endpoint.{
  read_endpoint, decode_endpoint, endpoint_id, endpoint_context_differs,
}
use hns_dane_browser_extensi.PoolStats.Snapshot.{
  read_mode, found_block_by_tag, read_found_block, production_by_flag, read_production_flag,
  snapshot_fields_invalid, read_snapshot, decode_snapshot,
}
use hns_dane_browser_extensi.PoolStats.Verify.{
  snapshot_context_differs, verify_endpoint, verify_snapshot,
}
use hns_dane_browser_extensi.PoolStats.State.{
  new_state, bump_generation, require_active, valid_shape,
}
use hns_dane_browser_extensi.PoolStats.State.Observe.{
  observe_first, scope_differs, advance_time, authority_moved_back, observation_differs,
  lineage_conflicts, conflict_when, check_equal_revision, authority_advances, adopt_authority,
  observe_rest, observe_next, observe_authority,
}
use hns_dane_browser_extensi.PoolStats.State.Advance.{
  equivocation_when, exhausted_when, write_when, replace_steps, insert_steps, write_endpoint,
  advance_endpoint, write_operator, advance_snapshot,
}
use hns_dane_browser_extensi.PoolStats.Literals.{state_checksum_domain}
use hns_dane_browser_extensi.PoolStats.Admission.{
  minimize, admit_snapshot, admit_document, verify_document, reconfirm_current,
}
use hns_dane_browser_extensi.PoolStats.Admission.Current.{reconfirm_after_admission}
use hns_dane_browser_extensi.PoolStats.Admission.Keeps.{verify_document-Follows}
use hns_dane_browser_extensi.PoolStats.Commit.{Outcome, persistence, verify_hrm_and_commit}
use hns_dane_browser_extensi.PoolStats.Commit.Release.{
  Committed, release_is_Committed, mutations_are_kept, refused_commit_keeps_state,
}
use hns_dane_browser_extensi.PoolStats.Engine.{
  current_hrm_named_service, verify_engine_current_hrm_and_commit,
}
use hns_dane_browser_extensi.PoolStats.Engine.Lease.{HeldThroughout, release_holds_lease}
use hns_dane_browser_extensi.PoolStats.Codec.{
  endpoint_bytes, operator_bytes, payload, seal, encode, decode,
}
use hns_dane_browser_extensi.PoolStats.Codec.RoundTrip.{IsTyped, decode-encode, encode-decode}
use hns_dane_browser_extensi.PoolStats.State.Keeps.{Follows}
use hns_dane_browser_extensi.PoolStats.State.Bound.{IsBound, observe_authority-IsBound}
use hns_dane_browser_extensi.PoolStats.State.Replacement.Endpoints
use hns_dane_browser_extensi.PoolStats.State.Replacement.Endpoints.{advance_endpoint-Judged}
use hns_dane_browser_extensi.PoolStats.State.Replacement.Operators
use hns_dane_browser_extensi.PoolStats.State.Replacement.Operators.{advance_snapshot-Judged}
use hns_dane_browser_extensi.PoolStats.Sample.{
  toy_crypto, toy_blake2b, toy_digest, toy_formats, toy_authority, toy_request, toy_json,
  toy_commit, failing_commit, toy_guard, toy_released, toy_after,
}

toy_admitted :
    verify_document toy_crypto toy_formats toy_authority toy_request toy_json new_state
    ≡ (ok toy_released, toy_after)
unfolding bytes_eq bytes_lt pure raise lift gets modify reject ◌>>=◌ to_le_bytes from_le_bytes
    to_be_bytes blake2b_256 sha256 valid_key parse_low_s_signature verify_with
    is_canonical_hns_label encode_cbor_unsigned encode_cbor_length encode_cbor_bytes
    encode_cbor_text service_identifier named_service_resource_id interval_invalid identity_invalid
    validate matches_request strictly_sorted_by binary_search_by_key read_bytes read_array read_u8
    read_u16 read_u32 read_u64 finish decode_document decode_lower_hex read_endpoint decode_endpoint
    endpoint_id endpoint_context_differs read_mode found_block_by_tag read_found_block
    production_by_flag read_production_flag snapshot_fields_invalid read_snapshot decode_snapshot
    snapshot_context_differs verify_endpoint verify_snapshot bump_generation require_active
    valid_shape observe_first scope_differs advance_time authority_moved_back observation_differs
    lineage_conflicts conflict_when check_equal_revision authority_advances adopt_authority
    observe_rest observe_next observe_authority equivocation_when exhausted_when write_when
    replace_steps insert_steps write_endpoint advance_endpoint write_operator advance_snapshot
    minimize admit_snapshot admit_document verify_document
toy_admitted = refl

reconfirm_after_admission_example :
    reconfirm_current toy_crypto toy_released toy_authority toy_request toy_after ≡ ok tt
reconfirm_after_admission_example =
    reconfirm_after_admission toy_crypto toy_formats toy_authority toy_request toy_json new_state
      toy_released toy_after toy_admitted

verify_document-Follows_example :
    Follows toy_after
      (verify_document toy_crypto toy_formats toy_authority toy_request toy_json toy_after).1
verify_document-Follows_example =
    verify_document-Follows toy_crypto toy_formats toy_authority toy_request toy_json toy_after

observed : observe_authority toy_authority toy_request toy_after ≡ (ok tt, toy_after)
unfolding bytes_eq bytes_lt pure raise lift gets modify reject ◌>>=◌ to_le_bytes from_le_bytes
    to_be_bytes blake2b_256 sha256 valid_key parse_low_s_signature verify_with
    is_canonical_hns_label encode_cbor_unsigned encode_cbor_length encode_cbor_bytes
    encode_cbor_text service_identifier named_service_resource_id interval_invalid identity_invalid
    validate matches_request strictly_sorted_by binary_search_by_key read_bytes read_array read_u8
    read_u16 read_u32 read_u64 finish decode_document decode_lower_hex read_endpoint decode_endpoint
    endpoint_id endpoint_context_differs read_mode found_block_by_tag read_found_block
    production_by_flag read_production_flag snapshot_fields_invalid read_snapshot decode_snapshot
    snapshot_context_differs verify_endpoint verify_snapshot bump_generation require_active
    valid_shape observe_first scope_differs advance_time authority_moved_back observation_differs
    lineage_conflicts conflict_when check_equal_revision authority_advances adopt_authority
    observe_rest observe_next observe_authority equivocation_when exhausted_when write_when
    replace_steps insert_steps write_endpoint advance_endpoint write_operator advance_snapshot
    minimize admit_snapshot admit_document verify_document
observed = refl

observe_authority-IsBound_example : IsBound toy_authority toy_request toy_after
observe_authority-IsBound_example =
    observe_authority-IsBound toy_authority toy_request toy_after toy_after observed refl

advance_endpoint-Judged_example :
    Endpoints.Judged
      (record { endpoint_key = replicate 33 3; sequence = 2; delegation_id = replicate 32 1 })
      toy_after
      (advance_endpoint (replicate 33 3) 2 (replicate 32 1) toy_after)
advance_endpoint-Judged_example =
    advance_endpoint-Judged (replicate 33 3) 2 (replicate 32 1) toy_after
      (unfold strictly_sorted_by in refl)

advance_snapshot-Judged_example :
    Operators.Judged
      (record { operator_id = replicate 32 6; sequence = 1; digest = replicate 32 1 })
      toy_after
      (advance_snapshot (replicate 32 6) 1 (replicate 32 1) toy_after)
advance_snapshot-Judged_example =
    advance_snapshot-Judged (replicate 32 6) 1 (replicate 32 1) toy_after
      (unfold strictly_sorted_by in refl)

abbrev toy_encoded : List ℕ
toy_encoded = payload toy_after ++ toy_digest (state_checksum_domain ++ payload toy_after)

toy_after_encoded : encode toy_crypto toy_after ≡ ok toy_encoded
unfolding bytes_eq bytes_lt pure raise lift gets modify reject ◌>>=◌ to_le_bytes from_le_bytes
    to_be_bytes blake2b_256 sha256 valid_key parse_low_s_signature verify_with
    is_canonical_hns_label encode_cbor_unsigned encode_cbor_length encode_cbor_bytes
    encode_cbor_text service_identifier named_service_resource_id interval_invalid identity_invalid
    validate matches_request strictly_sorted_by binary_search_by_key read_bytes read_array read_u8
    read_u16 read_u32 read_u64 finish decode_document decode_lower_hex read_endpoint decode_endpoint
    endpoint_id endpoint_context_differs read_mode found_block_by_tag read_found_block
    production_by_flag read_production_flag snapshot_fields_invalid read_snapshot decode_snapshot
    snapshot_context_differs verify_endpoint verify_snapshot bump_generation require_active
    valid_shape observe_first scope_differs advance_time authority_moved_back observation_differs
    lineage_conflicts conflict_when check_equal_revision authority_advances adopt_authority
    observe_rest observe_next observe_authority equivocation_when exhausted_when write_when
    replace_steps insert_steps write_endpoint advance_endpoint write_operator advance_snapshot
    endpoint_bytes operator_bytes payload seal encode
toy_after_encoded = refl

toy_after-IsTyped : IsTyped toy_after
toy_after-IsTyped = ground arith

decode-encode_example : decode toy_crypto toy_encoded ≡ ok toy_after
decode-encode_example =
    decode-encode toy_crypto toy_blake2b toy_after toy_encoded toy_after-IsTyped toy_after_encoded

abbrev toy_outcome : Outcome (List ℕ) ℕ
toy_outcome =
    verify_hrm_and_commit toy_crypto toy_formats toy_authority toy_request toy_json toy_commit
      new_state []

toy_committed : toy_outcome.result ≡ ok toy_released
unfolding bytes_eq bytes_lt pure raise lift gets modify reject ◌>>=◌ to_le_bytes from_le_bytes
    to_be_bytes blake2b_256 sha256 valid_key parse_low_s_signature verify_with
    is_canonical_hns_label encode_cbor_unsigned encode_cbor_length encode_cbor_bytes
    encode_cbor_text service_identifier named_service_resource_id interval_invalid identity_invalid
    validate matches_request strictly_sorted_by binary_search_by_key read_bytes read_array read_u8
    read_u16 read_u32 read_u64 finish decode_document decode_lower_hex read_endpoint decode_endpoint
    endpoint_id endpoint_context_differs read_mode found_block_by_tag read_found_block
    production_by_flag read_production_flag snapshot_fields_invalid read_snapshot decode_snapshot
    snapshot_context_differs verify_endpoint verify_snapshot bump_generation require_active
    valid_shape observe_first scope_differs advance_time authority_moved_back observation_differs
    lineage_conflicts conflict_when check_equal_revision authority_advances adopt_authority
    observe_rest observe_next observe_authority equivocation_when exhausted_when write_when
    replace_steps insert_steps write_endpoint advance_endpoint write_operator advance_snapshot
    minimize admit_snapshot admit_document verify_document endpoint_bytes operator_bytes payload
    seal encode verify_hrm_and_commit
toy_committed = refl

toy_candidate_encoded :
    encode toy_crypto
      (verify_document toy_crypto toy_formats toy_authority toy_request toy_json new_state).1
    ≡ ok toy_encoded
toy_candidate_encoded = rw toy_admitted toy_after_encoded

toy_not_refused : (x : ℕ) → toy_outcome.result ≢ err (persistence x)
toy_not_refused x h = cc (toy_committed, h)

release_is_Committed_example :
    (verify_document toy_crypto toy_formats toy_authority toy_request toy_json new_state
      ≡ (ok toy_released, toy_outcome.state))
    × (((toy_outcome.state ≡ new_state) × (toy_outcome.world ≡ []))
        ⊎ Committed toy_crypto toy_formats toy_authority toy_request toy_json toy_commit new_state
            [] toy_outcome.world)
release_is_Committed_example =
    release_is_Committed toy_crypto toy_formats toy_authority toy_request toy_json toy_commit
      new_state [] toy_released toy_committed

mutations_are_kept_example :
    (toy_outcome.state
      ≡ (verify_document toy_crypto toy_formats toy_authority toy_request toy_json new_state).1)
    × (((verify_document toy_crypto toy_formats toy_authority toy_request toy_json new_state).1
          ≡ new_state)
        ⊎ Committed toy_crypto toy_formats toy_authority toy_request toy_json toy_commit new_state
            [] toy_outcome.world)
mutations_are_kept_example =
    mutations_are_kept toy_crypto toy_formats toy_authority toy_request toy_json toy_commit
      new_state [] toy_encoded toy_candidate_encoded toy_not_refused

abbrev toy_refused : Outcome (List ℕ) ℕ
toy_refused =
    verify_hrm_and_commit toy_crypto toy_formats toy_authority toy_request toy_json failing_commit
      new_state []

toy_refused_run : toy_refused.result ≡ err (persistence 3)
unfolding bytes_eq bytes_lt pure raise lift gets modify reject ◌>>=◌ to_le_bytes from_le_bytes
    to_be_bytes blake2b_256 sha256 valid_key parse_low_s_signature verify_with
    is_canonical_hns_label encode_cbor_unsigned encode_cbor_length encode_cbor_bytes
    encode_cbor_text service_identifier named_service_resource_id interval_invalid identity_invalid
    validate matches_request strictly_sorted_by binary_search_by_key read_bytes read_array read_u8
    read_u16 read_u32 read_u64 finish decode_document decode_lower_hex read_endpoint decode_endpoint
    endpoint_id endpoint_context_differs read_mode found_block_by_tag read_found_block
    production_by_flag read_production_flag snapshot_fields_invalid read_snapshot decode_snapshot
    snapshot_context_differs verify_endpoint verify_snapshot bump_generation require_active
    valid_shape observe_first scope_differs advance_time authority_moved_back observation_differs
    lineage_conflicts conflict_when check_equal_revision authority_advances adopt_authority
    observe_rest observe_next observe_authority equivocation_when exhausted_when write_when
    replace_steps insert_steps write_endpoint advance_endpoint write_operator advance_snapshot
    minimize admit_snapshot admit_document verify_document endpoint_bytes operator_bytes payload
    seal encode verify_hrm_and_commit
toy_refused_run = refl

refused_commit_keeps_state_example : toy_refused.state ≡ new_state
refused_commit_keeps_state_example =
    refused_commit_keeps_state toy_crypto toy_formats toy_authority toy_request toy_json
      failing_commit new_state [] 3 toy_refused_run

abbrev toy_lease_outcome : Outcome (List ℕ) ℕ
toy_lease_outcome =
    verify_engine_current_hrm_and_commit toy_crypto toy_formats toy_guard toy_request toy_json
      toy_commit new_state []

toy_lease_run : toy_lease_outcome.result ≡ ok toy_released
unfolding bytes_eq bytes_lt pure raise lift gets modify reject ◌>>=◌ to_le_bytes from_le_bytes
    to_be_bytes blake2b_256 sha256 valid_key parse_low_s_signature verify_with
    is_canonical_hns_label encode_cbor_unsigned encode_cbor_length encode_cbor_bytes
    encode_cbor_text service_identifier named_service_resource_id interval_invalid identity_invalid
    validate matches_request strictly_sorted_by binary_search_by_key read_bytes read_array read_u8
    read_u16 read_u32 read_u64 finish decode_document decode_lower_hex read_endpoint decode_endpoint
    endpoint_id endpoint_context_differs read_mode found_block_by_tag read_found_block
    production_by_flag read_production_flag snapshot_fields_invalid read_snapshot decode_snapshot
    snapshot_context_differs verify_endpoint verify_snapshot bump_generation require_active
    valid_shape observe_first scope_differs advance_time authority_moved_back observation_differs
    lineage_conflicts conflict_when check_equal_revision authority_advances adopt_authority
    observe_rest observe_next observe_authority equivocation_when exhausted_when write_when
    replace_steps insert_steps write_endpoint advance_endpoint write_operator advance_snapshot
    minimize admit_snapshot admit_document verify_document endpoint_bytes operator_bytes payload
    seal encode verify_hrm_and_commit current_hrm_named_service verify_engine_current_hrm_and_commit
toy_lease_run = refl

release_holds_lease_example :
    HeldThroughout toy_crypto toy_formats toy_guard toy_request toy_json toy_commit new_state []
      toy_released toy_lease_outcome.state
release_holds_lease_example =
    release_holds_lease toy_crypto toy_formats toy_guard toy_request toy_json toy_commit new_state
      [] toy_released toy_lease_run

encode-decode_example :
    (encode toy_crypto toy_after ≡ ok toy_encoded) × (valid_shape toy_crypto toy_after ≡ true)
encode-decode_example =
    encode-decode toy_crypto toy_encoded toy_after (
      decode-encode toy_crypto toy_blake2b toy_after toy_encoded toy_after-IsTyped
        toy_after_encoded)
