-- ===== src/PoolStats/Endpoint.antt =====
-- `EndpointDelegation` of hrm.rs: the service controller's delegation to an endpoint key.
use Prim.Native.Nat.{bit_and}
use hns_dane_browser_extensi.Prelude.{
  ℕ, ◌-◌, Bool, ◌&&◌, ◌||◌, not, List, length, take, leb, ltb, ◌==◌, bytes_eq, if◌then◌else◌,
}
use hns_dane_browser_extensi.Prelude.Result.{Result, err}
use hns_dane_browser_extensi.Prelude.Exec.{pure, lift, gets, reject, ◌>>=◌, ◌>>◌}
use hns_dane_browser_extensi.PoolStats.Error.{
  HrmPoolStatsError, invalid_endpoint, endpoint_cryptography, endpoint_version, max_endpoint_bytes,
  max_signature_bytes, read_stats_capability,
}
use hns_dane_browser_extensi.PoolStats.Literals.{endpoint_id_domain}
use hns_dane_browser_extensi.PoolStats.Crypto.{Crypto, sha256, valid_key, parse_low_s_signature}
use hns_dane_browser_extensi.PoolStats.Reader.{
  Read, ReaderKind, open_reader, read_bytes, read_array, read_u8, read_u32, read_u64, finish,
}
use hns_dane_browser_extensi.PoolStats.Authority.{CurrentHrmNamedService}

pub record EndpointDelegation : Type 0 where
  pub network_magic : ℕ
  pub service_resource_id : List ℕ
  pub service_delegation_id : List ℕ
  pub service_generation : ℕ
  pub endpoint_key : List ℕ
  pub endpoint_sequence : ℕ
  pub issued_at : ℕ
  pub expires_at : ℕ
  pub capabilities : ℕ
  pub constraints_hash : List ℕ
  pub unsigned : List ℕ
  pub signature : List ℕ
  pub encoded : List ℕ

-- `!(1..=MAX_SIGNATURE_BYTES).contains(&length)`
abbrev pub signature_length_invalid : ℕ → Bool
signature_length_invalid n = not (leb 1 n && leb n max_signature_bytes)

module _ (c : Crypto) where
  -- `decode` after the size test.
  unfoldable pub read_endpoint : List ℕ → Read EndpointDelegation
  read_endpoint bytes = do
    version ← read_u8
    reject (not (version == endpoint_version)) (invalid_endpoint "unsupported version")
    network_magic ← read_u32
    service_resource_id ← read_array 32
    service_delegation_id ← read_array 32
    service_generation ← read_u64
    endpoint_key ← read_array 33
    endpoint_sequence ← read_u64
    issued_at ← read_u64
    expires_at ← read_u64
    capabilities ← read_u32
    constraints_hash ← read_array 32
    offset ← gets (λ r. r.offset)
    signature_length ← read_u8
    reject (signature_length_invalid signature_length) (invalid_endpoint "invalid signature length")
    signature ← read_bytes signature_length
    finish
    reject (service_generation == 0 || endpoint_sequence == 0 || leb expires_at issued_at)
        (invalid_endpoint "invalid bounded fields")
    reject (not (valid_key c endpoint_key)) (invalid_endpoint "invalid endpoint key")
    parsed ← lift (parse_low_s_signature c signature endpoint_cryptography)
    pure (record {
      network_magic = network_magic;
      service_resource_id = service_resource_id;
      service_delegation_id = service_delegation_id;
      service_generation = service_generation;
      endpoint_key = endpoint_key;
      endpoint_sequence = endpoint_sequence;
      issued_at = issued_at;
      expires_at = expires_at;
      capabilities = capabilities;
      constraints_hash = constraints_hash;
      unsigned = take offset bytes;
      signature = signature;
      encoded = bytes;
    })

  unfoldable pub decode_endpoint : List ℕ → Result HrmPoolStatsError EndpointDelegation
  decode_endpoint bytes =
      if length bytes == 0 || ltb max_endpoint_bytes (length bytes)
      then err (invalid_endpoint "invalid object size")
      else (read_endpoint bytes (open_reader ReaderKind.endpoint bytes)).0

  unfoldable pub endpoint_id : EndpointDelegation → List ℕ
  endpoint_id e = sha256 c endpoint_id_domain e.encoded

-- The disjunction that `verify` refuses.
unfoldable pub endpoint_context_differs : EndpointDelegation → CurrentHrmNamedService → ℕ → Bool
endpoint_context_differs e a now =
    not (e.network_magic == a.network_magic)
    || not (bytes_eq e.service_resource_id a.service_resource_id)
    || not (bytes_eq e.service_delegation_id a.service_delegation_id)
    || not (e.service_generation == a.service_generation)
    || ltb e.issued_at a.resource_not_before
    || ltb e.issued_at a.delegation_not_before
    || ltb a.resource_expires_at e.expires_at
    || ltb a.delegation_expires_at e.expires_at
    || ltb a.max_endpoint_lifetime (e.expires_at - e.issued_at)
    || ltb now e.issued_at
    || leb e.expires_at now
    || not (e.capabilities == read_stats_capability)
    || not (bit_and e.capabilities (0xffff_ffff - a.allowed_endpoint_capabilities) == 0)
    || not (bytes_eq e.constraints_hash a.endpoint_constraints_hash)
