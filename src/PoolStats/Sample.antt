-- ===== src/PoolStats/Sample.antt =====
-- Test data: cryptography and formats that stand in for the external crates, an authority, a request
-- and a document that they admit, a store and a guard.
use hns_dane_browser_extensi.Prelude.{
  ℕ, ◌+◌, ◌-◌, ◌*◌, ◌/◌, ◌%◌, refl, true, Option, some, List, [], ◌∷◌, ◌++◌, concat, length,
  replicate, leb, bytes_eq, if◌then◌else◌,
}
use hns_dane_browser_extensi.Prelude.Result.{ok, err}
use hns_dane_browser_extensi.PoolStats.Error.{
  endpoint_version, snapshot_version, experimental_profile_id, read_stats_capability,
}
use hns_dane_browser_extensi.PoolStats.Literals.{service_name, document_schema, ascii}
use hns_dane_browser_extensi.PoolStats.Crypto.{Crypto, IsBlake2b}
use hns_dane_browser_extensi.PoolStats.Authority.{HrmPoolStatsRequest, CurrentHrmNamedService}
use hns_dane_browser_extensi.PoolStats.Document.{PoolStatsDocument, Formats}
use hns_dane_browser_extensi.PoolStats.Snapshot.{mining}
use hns_dane_browser_extensi.PoolStats.State.{HrmPoolStatsState, active}
use hns_dane_browser_extensi.PoolStats.Admission.{VerifiedHrmPoolStatsSnapshot}
use hns_dane_browser_extensi.PoolStats.Commit.{Commit}
use hns_dane_browser_extensi.PoolStats.Engine.{ActiveService, EngineGuard}

-- A digest of 32 bytes that tells the length of the message.
abbrev pub toy_digest : List ℕ → List ℕ
toy_digest m = length m % 256 ∷ replicate 31 7

abbrev toy_size_digest : ℕ → List ℕ → Option (List ℕ)
toy_size_digest size m = some (toy_digest m)

abbrev pub toy_crypto : Crypto
toy_crypto = record {
  sha256_digest = toy_digest;
  sha3_256_digest = toy_digest;
  blake2b_var = toy_size_digest;
  VerifyingKey = Unit {0};
  from_sec1_bytes = λ key. some tt;
  Signature = List ℕ;
  from_der = λ der. some der;
  to_der = λ signature. signature;
  normalize_s = λ signature. signature;
  signature_eq = bytes_eq;
  verify_prehash = λ key hash signature. true;
}

pub toy_blake2b : IsBlake2b toy_crypto
toy_blake2b = record { digest = toy_digest; digest_eq = λ m. refl; length-digest = λ m. refl }

abbrev nibble : ℕ → ℕ
nibble b = if leb b'a' b then b - 87 else b - 48

abbrev hex_pairs : List ℕ → List ℕ
hex_pairs [] = []
hex_pairs (b ∷ []) = []
hex_pairs (high ∷ low ∷ rest) = (nibble high * 16 + nibble low) ∷ hex_pairs rest

abbrev digit : ℕ → ℕ
digit n = if leb 10 n then 87 + n else 48 + n

abbrev hex_of : List ℕ → List ℕ
hex_of [] = []
hex_of (b ∷ rest) = digit (b / 16) ∷ digit (b % 16) ∷ hex_of rest

abbrev same : ℕ → List ℕ
same b = replicate 32 b

-- `n` below 256 as a number of `size` bytes.
abbrev number : ℕ → ℕ → List ℕ
number size n = n ∷ replicate (size - 1) 0

abbrev pub toy_request : HrmPoolStatsRequest
toy_request = record {
  expected_name = ascii "pool";
  expected_name_hash = same 1;
  expected_network_magic = 5;
  expected_route_id = same 4;
  trusted_now = 6;
}

abbrev pub toy_authority : CurrentHrmNamedService
toy_authority = record {
  network_magic = 5;
  name_hash = same 1;
  service = service_name;
  application_profile_id = experimental_profile_id;
  hrm_sequence = 1;
  hrm_envelope_hash = same 2;
  authority_revision = 1;
  operation_lease_generation = 1;
  trusted_operation_time = 6;
  service_resource_id = 82 ∷ replicate 31 7;
  service_delegation_id = same 3;
  service_generation = 1;
  service_controller_key = replicate 33 2;
  resource_not_before = 1;
  resource_expires_at = 90;
  delegation_not_before = 1;
  delegation_expires_at = 80;
  max_endpoint_lifetime = 86_400;
  allowed_endpoint_capabilities = read_stats_capability;
  endpoint_constraints_hash = same 5;
}

abbrev toy_profile : List ℕ
toy_profile = experimental_profile_id % 256 ∷ experimental_profile_id / 256 ∷ []

abbrev toy_endpoint_key : List ℕ
toy_endpoint_key = replicate 33 3

abbrev toy_endpoint : List ℕ
toy_endpoint = concat (
    (endpoint_version ∷ [])
    ∷ number 4 5
    ∷ toy_authority.service_resource_id
    ∷ same 3
    ∷ number 8 1
    ∷ toy_endpoint_key
    ∷ number 8 1
    ∷ number 8 2
    ∷ number 8 70
    ∷ number 4 read_stats_capability
    ∷ same 5
    ∷ (1 ∷ 9 ∷ [])
    ∷ [])

-- A snapshot that reports a number of miners.
abbrev toy_snapshot : ℕ → List ℕ
toy_snapshot miners = concat (
    (snapshot_version ∷ [])
    ∷ number 4 5
    ∷ toy_profile
    ∷ toy_authority.service_resource_id
    ∷ same 3
    ∷ number 8 1
    ∷ toy_digest (ascii "HNS-HRM-HNSA-ENDPOINT-DELEGATION-ID-V1" ++ 0 ∷ toy_endpoint)
    ∷ number 8 1
    ∷ same 4
    ∷ number 8 1
    ∷ number 8 3
    ∷ number 8 60
    ∷ same 6
    ∷ number 4 20
    ∷ same 8
    ∷ number 4 miners
    ∷ number 4 2
    ∷ number 8 30
    ∷ number 8 1
    ∷ number 4 0
    ∷ (1 ∷ number 4 19)
    ∷ same 9
    ∷ (1 ∷ 1 ∷ [])
    ∷ (1 ∷ 9 ∷ [])
    ∷ [])

abbrev toy_document : PoolStatsDocument
toy_document = record {
  schema = document_schema;
  service = service_name;
  application_profile_id = experimental_profile_id;
  endpoint_delegation = hex_of toy_endpoint;
  snapshot = hex_of (toy_snapshot 11);
}

-- Every text of JSON is read as the document above.
abbrev pub toy_formats : Formats
toy_formats = record {
  document_from_json = λ bytes. some toy_document;
  hex_decode = λ text. some (hex_pairs text);
}

abbrev pub toy_json : List ℕ
toy_json = ascii "{}"

-- A store that keeps the last state written, and one that refuses.
abbrev pub toy_commit : Commit (List ℕ) ℕ
toy_commit generation encoded w = (ok tt, encoded)

abbrev pub failing_commit : Commit (List ℕ) ℕ
failing_commit generation encoded w = (err 3, w)

abbrev toy_service : ActiveService
toy_service = record {
  network_magic = 5;
  name_hash = same 1;
  service_name = service_name;
  application_profile_id = experimental_profile_id;
  hrm_sequence = 1;
  hrm_envelope_hash = same 2;
  resource_id = toy_authority.service_resource_id;
  delegation_id = same 3;
  service_generation = 1;
  service_controller_key = replicate 33 2;
  resource_not_before = 1;
  resource_expires_at = 90;
  delegation_not_before = 1;
  delegation_expires_at = 80;
  max_endpoint_lifetime = 86_400;
  allowed_endpoint_capabilities = read_stats_capability;
  endpoint_constraints_hash = same 5;
}

abbrev pub toy_guard : EngineGuard (List ℕ)
toy_guard = record {
  ensure_lease_held = λ w. (some tt, w);
  active = some toy_service;
  authority_revision = 1;
  fencing_token = 1;
  trusted_time_high_water = 6;
}

-- What the document releases, and the state that it leaves.
abbrev pub toy_released : VerifiedHrmPoolStatsSnapshot
toy_released = record {
  hns_name = ascii "pool";
  network_magic = 5;
  route_id = same 4;
  service_resource_id = toy_authority.service_resource_id;
  service_delegation_id = same 3;
  service_generation = 1;
  endpoint_delegation_id = 211 ∷ replicate 31 7;
  endpoint_sequence = 1;
  authority_revision = 1;
  operation_lease_generation = 1;
  admission_generation = 3;
  verified_at = 6;
  valid_until = 60;
  operator_id = same 6;
  sequence = 1;
  generated_at = 3;
  snapshot_expires_at = 60;
  tip_height = 20;
  tip_hash = same 8;
  connected_miners = 11;
  connected_mesh_peers = 2;
  accepted_shares = 30;
  rejected_shares = 1;
  pending_captures = 0;
  last_found_block = some (record { height = 19; hash = same 9 });
  mode = mining;
  production_eligible = true;
}

abbrev pub toy_after : HrmPoolStatsState
toy_after = record {
  generation = 3;
  trusted_time_high_water = 6;
  status = active;
  network_magic = 5;
  name_hash = same 1;
  authority_revision = 1;
  hrm_sequence = 1;
  hrm_envelope_hash = same 2;
  service_resource_id = toy_authority.service_resource_id;
  service_delegation_id = same 3;
  service_generation = 1;
  endpoints =
      record { endpoint_key = toy_endpoint_key; sequence = 1; delegation_id = 211 ∷ replicate 31 7 }
      ∷ [];
  operators =
      record {
        operator_id = same 6;
        sequence = 1;
        digest = toy_digest (ascii "HNS-HRM-MESHMINE-SNAPSHOT-STATE-V1" ++ 0 ∷ toy_snapshot 11);
      }
      ∷ [];
}
