-- ===== src/PoolStats/Snapshot.antt =====
-- `PublicMode`, `VerifiedFoundBlock` and `PoolStatsSnapshot` of hrm.rs: the endpoint-signed record.
use hns_dane_browser_extensi.Prelude.{
  ℕ, ◌-◌, Bool, true, false, ◌||◌, not, Option, none, some, List, length, take, leb, ltb, ◌==◌,
  bytes_eq, if◌then◌else◌,
}
use hns_dane_browser_extensi.Prelude.Result.{Result, err}
use hns_dane_browser_extensi.Prelude.Exec.{pure, raise, lift, gets, reject, ◌>>=◌, ◌>>◌}
use hns_dane_browser_extensi.PoolStats.Error.{
  HrmPoolStatsError, invalid_snapshot, snapshot_cryptography, snapshot_version, max_snapshot_bytes,
  max_snapshot_lifetime_seconds, experimental_profile_id,
}
use hns_dane_browser_extensi.PoolStats.Crypto.{Crypto, parse_low_s_signature}
use hns_dane_browser_extensi.PoolStats.Reader.{
  Read, ReaderKind, open_reader, read_bytes, read_array, read_u8, read_u16, read_u32, read_u64,
  finish,
}
use hns_dane_browser_extensi.PoolStats.Endpoint.{signature_length_invalid}
use hns_dane_browser_extensi.PoolStats.Authority.{zero_hash}

pub data PublicMode : Type 0 where
  bootstrapping mining degraded fallback draining stopped : PublicMode

-- `PublicMode::try_from`
unfoldable pub read_mode : ℕ → Read PublicMode
read_mode value =
    if value == 0
    then pure bootstrapping
    else if value == 1
    then pure mining
    else if value == 2
    then pure degraded
    else if value == 3
    then pure fallback
    else if value == 4
    then pure draining
    else if value == 5
    then pure stopped
    else raise (invalid_snapshot "unknown operator mode")

pub record VerifiedFoundBlock : Type 0 where
  pub height : ℕ
  pub hash : List ℕ

unfoldable pub found_block_by_tag : ℕ → Read (Option VerifiedFoundBlock)
found_block_by_tag tag =
    if tag == 0
    then pure none
    else if tag == 1
    then (do h ← read_u32; d ← read_array 32; pure (some (record { height = h; hash = d })))
    else raise (invalid_snapshot "invalid block option")

unfoldable pub read_found_block : Read (Option VerifiedFoundBlock)
unfolding found_block_by_tag
read_found_block = do tag ← read_u8; found_block_by_tag tag

unfoldable pub production_by_flag : ℕ → Read Bool
production_by_flag flag =
    if flag == 0
    then pure false
    else if flag == 1
    then pure true
    else raise (invalid_snapshot "invalid production flag")

unfoldable pub read_production_flag : Read Bool
unfolding production_by_flag
read_production_flag = do flag ← read_u8; production_by_flag flag

pub record PoolStatsSnapshot : Type 0 where
  pub network_magic : ℕ
  pub application_profile_id : ℕ
  pub service_resource_id : List ℕ
  pub service_delegation_id : List ℕ
  pub service_generation : ℕ
  pub endpoint_delegation_id : List ℕ
  pub endpoint_sequence : ℕ
  pub route_id : List ℕ
  pub sequence : ℕ
  pub generated_at : ℕ
  pub expires_at : ℕ
  pub operator_id : List ℕ
  pub tip_height : ℕ
  pub tip_hash : List ℕ
  pub connected_miners : ℕ
  pub connected_mesh_peers : ℕ
  pub accepted_shares : ℕ
  pub rejected_shares : ℕ
  pub pending_captures : ℕ
  pub last_found_block : Option VerifiedFoundBlock
  pub mode : PublicMode
  pub production_eligible : Bool
  pub unsigned : List ℕ
  pub signature : List ℕ

-- `last_found_block.is_some_and(|block| block.height > tip_height)`
abbrev pub block_above_tip : Option VerifiedFoundBlock → ℕ → Bool
block_above_tip none tip = false
block_above_tip (some block) tip = ltb tip block.height

-- The disjunction that `decode` refuses at its end.
unfoldable pub snapshot_fields_invalid : PoolStatsSnapshot → Bool
snapshot_fields_invalid s =
    not (s.application_profile_id == experimental_profile_id)
    || s.service_generation == 0
    || s.endpoint_sequence == 0
    || bytes_eq s.route_id zero_hash
    || s.sequence == 0
    || bytes_eq s.operator_id zero_hash
    || leb s.expires_at s.generated_at
    || ltb max_snapshot_lifetime_seconds (s.expires_at - s.generated_at)
    || block_above_tip s.last_found_block s.tip_height

module _ (c : Crypto) where
  -- `decode` after the size test.
  unfoldable pub read_snapshot : List ℕ → Read PoolStatsSnapshot
  read_snapshot bytes = do
    version ← read_u8
    reject (not (version == snapshot_version)) (invalid_snapshot "unsupported version")
    network_magic ← read_u32
    application_profile_id ← read_u16
    service_resource_id ← read_array 32
    service_delegation_id ← read_array 32
    service_generation ← read_u64
    endpoint_delegation_id ← read_array 32
    endpoint_sequence ← read_u64
    route_id ← read_array 32
    sequence ← read_u64
    generated_at ← read_u64
    expires_at ← read_u64
    operator_id ← read_array 32
    tip_height ← read_u32
    tip_hash ← read_array 32
    connected_miners ← read_u32
    connected_mesh_peers ← read_u32
    accepted_shares ← read_u64
    rejected_shares ← read_u64
    pending_captures ← read_u32
    last_found_block ← read_found_block
    mode_byte ← read_u8
    mode ← read_mode mode_byte
    production_eligible ← read_production_flag
    offset ← gets (λ r. r.offset)
    signature_length ← read_u8
    reject (signature_length_invalid signature_length) (invalid_snapshot "invalid signature length")
    signature ← read_bytes signature_length
    finish
    let s : PoolStatsSnapshot = record {
      network_magic = network_magic;
      application_profile_id = application_profile_id;
      service_resource_id = service_resource_id;
      service_delegation_id = service_delegation_id;
      service_generation = service_generation;
      endpoint_delegation_id = endpoint_delegation_id;
      endpoint_sequence = endpoint_sequence;
      route_id = route_id;
      sequence = sequence;
      generated_at = generated_at;
      expires_at = expires_at;
      operator_id = operator_id;
      tip_height = tip_height;
      tip_hash = tip_hash;
      connected_miners = connected_miners;
      connected_mesh_peers = connected_mesh_peers;
      accepted_shares = accepted_shares;
      rejected_shares = rejected_shares;
      pending_captures = pending_captures;
      last_found_block = last_found_block;
      mode = mode;
      production_eligible = production_eligible;
      unsigned = take offset bytes;
      signature = signature;
    }
    reject (snapshot_fields_invalid s) (invalid_snapshot "invalid bounded fields")
    parsed ← lift (parse_low_s_signature c signature snapshot_cryptography)
    pure s

  unfoldable pub decode_snapshot : List ℕ → Result HrmPoolStatsError PoolStatsSnapshot
  decode_snapshot bytes =
      if length bytes == 0 || ltb max_snapshot_bytes (length bytes)
      then err (invalid_snapshot "invalid object size")
      else (read_snapshot bytes (open_reader ReaderKind.snapshot bytes)).0
