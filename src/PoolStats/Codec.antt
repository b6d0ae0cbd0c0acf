-- ===== src/PoolStats/Codec.antt =====
-- `HrmPoolStatsState::encode` and `decode`: the checksummed record in platform storage.
pub mod RoundTrip
use hns_dane_browser_extensi.Prelude.{
  ℕ, zero, suc, ◌+◌, ◌-◌, Bool, ◌||◌, not, List, [], ◌∷◌, ◌++◌, concat, length, take, drop, leb,
  ltb, ◌==◌, bytes_eq, if◌then◌else◌,
}
use hns_dane_browser_extensi.Prelude.Result.{Result, ok, err}
use hns_dane_browser_extensi.Prelude.Exec.{Exec, pure, raise, lift, reject, ◌>>=◌, ◌>>◌}
use hns_dane_browser_extensi.PoolStats.Error.{
  HrmPoolStatsError, invalid_state, state_version, state_checksum_bytes, max_state_bytes,
  max_endpoint_histories, max_operator_histories,
}
use hns_dane_browser_extensi.PoolStats.Literals.{state_magic, state_checksum_domain}
use hns_dane_browser_extensi.PoolStats.Bytes.{to_le_bytes}
use hns_dane_browser_extensi.PoolStats.Crypto.{Crypto, blake2b_256, valid_key}
use hns_dane_browser_extensi.PoolStats.Reader.{
  Read, ReaderKind, open_reader, read_array, read_u8, read_u32, read_u64, finish,
}
use hns_dane_browser_extensi.PoolStats.State.{
  StateStatus, active, conflicted, exhausted, EndpointState, OperatorState, HrmPoolStatsState,
  valid_shape,
}

-- `self.status as u8`
abbrev pub status_byte : StateStatus → ℕ
status_byte active = 1
status_byte conflicted = 2
status_byte exhausted = 3

unfoldable pub read_status : ℕ → Read StateStatus
read_status byte =
    if byte == 1
    then pure active
    else if byte == 2
    then pure conflicted
    else if byte == 3
    then pure exhausted
    else raise invalid_state

unfoldable pub endpoint_bytes : List EndpointState → List ℕ
endpoint_bytes [] = []
endpoint_bytes (e ∷ es) =
    e.endpoint_key ++ (to_le_bytes 8 e.sequence ++ (e.delegation_id ++ endpoint_bytes es))

unfoldable pub operator_bytes : List OperatorState → List ℕ
operator_bytes [] = []
operator_bytes (o ∷ os) =
    o.operator_id ++ (to_le_bytes 8 o.sequence ++ (o.digest ++ operator_bytes os))

-- What `encode` has written before the checksum; a count above 255 has already been refused.
unfoldable pub payload : HrmPoolStatsState → List ℕ
payload s = concat (
    state_magic
    ∷ (state_version ∷ [])
    ∷ to_le_bytes 8 s.generation
    ∷ to_le_bytes 8 s.trusted_time_high_water
    ∷ (status_byte s.status ∷ [])
    ∷ to_le_bytes 4 s.network_magic
    ∷ s.name_hash
    ∷ to_le_bytes 8 s.authority_revision
    ∷ to_le_bytes 8 s.hrm_sequence
    ∷ s.hrm_envelope_hash
    ∷ s.service_resource_id
    ∷ s.service_delegation_id
    ∷ to_le_bytes 8 s.service_generation
    ∷ (length s.endpoints ∷ [])
    ∷ endpoint_bytes s.endpoints
    ∷ (length s.operators ∷ [])
    ∷ operator_bytes s.operators
    ∷ [])

unfoldable pub read_operators : ℕ → Read (List OperatorState)
read_operators zero = pure []
read_operators (suc n) = do
  operator ← read_array 32
  seq ← read_u64
  snapshot_digest ← read_array 32
  rest ← read_operators n
  pure (record { operator_id = operator; sequence = seq; digest = snapshot_digest } ∷ rest)

-- `state.encode()?.as_slice() != input`
abbrev pub match_encoding :
    List ℕ
    → HrmPoolStatsState
    → Result HrmPoolStatsError (List ℕ)
    → Result HrmPoolStatsError HrmPoolStatsState
match_encoding input s (ok again) = if bytes_eq again input then ok s else err invalid_state
match_encoding input s (err e) = err e

module _ (c : Crypto) where
  unfoldable pub seal : List ℕ → Result HrmPoolStatsError (List ℕ)
  seal output = elim (blake2b_256 c state_checksum_domain (output ∷ [])) [
    | ok checksum ↦ ok (output ++ checksum)
    | err e ↦ err e
  ]

  unfoldable pub encode : HrmPoolStatsState → Result HrmPoolStatsError (List ℕ)
  encode s =
      if not (valid_shape c s)
      then err invalid_state
      else if ltb 255 (length s.endpoints) || ltb 255 (length s.operators)
      then err invalid_state
      else if ltb max_state_bytes (length (payload s) + state_checksum_bytes)
      then err invalid_state
      else seal (payload s)

  unfoldable pub read_endpoints : ℕ → Read (List EndpointState)
  read_endpoints zero = pure []
  read_endpoints (suc n) = do
    key ← read_array 33
    seq ← read_u64
    delegation ← read_array 32
    reject (not (valid_key c key)) invalid_state
    rest ← read_endpoints n
    pure (record { endpoint_key = key; sequence = seq; delegation_id = delegation } ∷ rest)

  -- `decode` between the checksum and the final comparison.
  unfoldable pub read_state : Read HrmPoolStatsState
  read_state = do
    magic ← read_array 4
    reject (not (bytes_eq magic state_magic)) invalid_state
    version ← read_u8
    reject (not (version == state_version)) invalid_state
    generation ← read_u64
    trusted_time_high_water ← read_u64
    status_tag ← read_u8
    status ← read_status status_tag
    network_magic ← read_u32
    name_hash ← read_array 32
    authority_revision ← read_u64
    hrm_sequence ← read_u64
    hrm_envelope_hash ← read_array 32
    service_resource_id ← read_array 32
    service_delegation_id ← read_array 32
    service_generation ← read_u64
    endpoint_count ← read_u8
    reject (ltb max_endpoint_histories endpoint_count) invalid_state
    endpoints ← read_endpoints endpoint_count
    operator_count ← read_u8
    reject (ltb max_operator_histories operator_count) invalid_state
    operators ← read_operators operator_count
    finish
    pure (record {
      generation = generation;
      trusted_time_high_water = trusted_time_high_water;
      status = status;
      network_magic = network_magic;
      name_hash = name_hash;
      authority_revision = authority_revision;
      hrm_sequence = hrm_sequence;
      hrm_envelope_hash = hrm_envelope_hash;
      service_resource_id = service_resource_id;
      service_delegation_id = service_delegation_id;
      service_generation = service_generation;
      endpoints = endpoints;
      operators = operators;
    })

  -- `!state.valid_shape() || state.encode()? != input`
  unfoldable pub confirm_canonical :
      List ℕ → HrmPoolStatsState → Result HrmPoolStatsError HrmPoolStatsState
  confirm_canonical input s =
      if not (valid_shape c s) then err invalid_state else match_encoding input s (encode s)

  unfoldable pub read_confirmed :
      List ℕ
      → Result HrmPoolStatsError HrmPoolStatsState
      → Result HrmPoolStatsError HrmPoolStatsState
  read_confirmed input (ok s) = confirm_canonical input s
  read_confirmed input (err e) = err e

  -- `blake2b_256(payload)? != checksum`, then the fields.
  unfoldable pub decode_checked :
      List ℕ
      → List ℕ
      → List ℕ
      → Result HrmPoolStatsError (List ℕ)
      → Result HrmPoolStatsError HrmPoolStatsState
  unfolding read_confirmed
  decode_checked input body checksum (err e) = err e
  decode_checked input body checksum (ok computed) =
      if not (bytes_eq computed checksum)
      then err invalid_state
      else read_confirmed input (read_state (open_reader ReaderKind.state body)).0

  unfoldable pub decode : List ℕ → Result HrmPoolStatsError HrmPoolStatsState
  decode input =
      if leb (length input) state_checksum_bytes || ltb max_state_bytes (length input)
      then err invalid_state
      else let payload_length = length input - state_checksum_bytes in
        let body = take payload_length input in
        decode_checked input body (drop payload_length input)
          (blake2b_256 c state_checksum_domain (body ∷ []))
