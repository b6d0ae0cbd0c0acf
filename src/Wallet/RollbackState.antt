-- ===== src/Wallet/RollbackState.antt =====
-- `WalletAntiRollbackState` of wallet_abi.rs: its validity, its JSON and its checksum.
pub mod Valid
use hns_dane_browser_extensi.Prelude.{
  ℕ, ◌*◌, Bool, true, false, ◌&&◌, Option, none, some, List, [], ◌∷◌, ◌++◌, length, all, leb, ◌==◌,
  bytes_eq, bytes_lt,
}
use hns_dane_browser_extensi.PoolStats.Literals.{ascii}
use hns_dane_browser_extensi.Wallet.Text.{
  valid_token, is_lower_hex, positive_safe_integer, lower_hex,
}
use hns_dane_browser_extensi.Wallet.Jcs.{
  Value, number, string, array, object, Values, nil, cons, Fields, end, field, Strings,
  jcs_value_bytes, remove_field,
}
use hns_dane_browser_extensi.Wallet.Manifest.{WalletArtifactManifest, is_none_or}

pub record WalletAntiRollbackEntry : Type 0 where
  pub release_line : List ℕ
  pub highest_sequence : ℕ
  pub release_id : List ℕ
  pub signer_key_id : List ℕ
  pub manifest_sha256 : List ℕ
  pub artifact_sha256 : List ℕ

pub record WalletAntiRollbackState : Type 0 where
  pub state_schema_version : ℕ
  pub entries : List WalletAntiRollbackEntry
  pub checksum_sha256 : List ℕ

abbrev pub line_of : WalletAntiRollbackEntry → List ℕ
line_of e = e.release_line

-- `==`, as derived
unfoldable pub entry_eq : WalletAntiRollbackEntry → WalletAntiRollbackEntry → Bool
entry_eq a b =
    bytes_eq a.release_line b.release_line
    && a.highest_sequence == b.highest_sequence
    && bytes_eq a.release_id b.release_id
    && bytes_eq a.signer_key_id b.signer_key_id
    && bytes_eq a.manifest_sha256 b.manifest_sha256
    && bytes_eq a.artifact_sha256 b.artifact_sha256

abbrev pub wallet_anti_rollback_state_schema_version : ℕ
wallet_anti_rollback_state_schema_version = 1

abbrev pub max_anti_rollback_release_lines : ℕ
max_anti_rollback_release_lines = 16

abbrev pub max_anti_rollback_state_bytes : ℕ
max_anti_rollback_state_bytes = 64 * 1024

abbrev pub valid_entry : WalletAntiRollbackEntry → Bool
valid_entry e =
    valid_token e.release_line 128
    && positive_safe_integer e.highest_sequence
    && valid_token e.release_id 128
    && valid_token e.signer_key_id 128
    && is_lower_hex e.manifest_sha256 64
    && is_lower_hex e.artifact_sha256 64

-- The closure of `all`, with `prior_line` handed on.
unfoldable pub valid_entries : Option (List ℕ) → List WalletAntiRollbackEntry → Bool
valid_entries prior [] = true
valid_entries prior (e ∷ es) =
    is_none_or prior (λ line. bytes_lt line e.release_line)
    && valid_entry e
    && valid_entries (some e.release_line) es

unfoldable pub valid_anti_rollback_state : WalletAntiRollbackState → Bool
valid_anti_rollback_state s =
    s.state_schema_version == wallet_anti_rollback_state_schema_version
    && leb (length s.entries) max_anti_rollback_release_lines
    && is_lower_hex s.checksum_sha256 64
    && valid_entries none s.entries

-- What `derive(Serialize)` gives with `rename_all = "camelCase"`.
abbrev entry_value : WalletAntiRollbackEntry → Value
entry_value e = object (
    field (ascii "releaseLine") (string e.release_line) (
      field (ascii "highestSequence") (number (some e.highest_sequence)) (
        field (ascii "releaseId") (string e.release_id) (
          field (ascii "signerKeyId") (string e.signer_key_id) (
            field (ascii "manifestSha256") (string e.manifest_sha256)
              (field (ascii "artifactSha256") (string e.artifact_sha256) end))))))

abbrev entry_values : List WalletAntiRollbackEntry → Values
entry_values [] = nil
entry_values (e ∷ es) = cons (entry_value e) (entry_values es)

unfoldable pub state_fields : WalletAntiRollbackState → Fields
state_fields s = field (ascii "stateSchemaVersion") (number (some s.state_schema_version)) (
    field (ascii "entries") (array (entry_values s.entries))
      (field (ascii "checksumSha256") (string s.checksum_sha256) end))

-- What the crates serde_json, sha2 and base64 do.
pub record Encodings : Type 0 where
  pub strings : Strings
  -- `serde_json::from_slice`, into structs that deny unknown fields
  pub state_from_slice : List ℕ → Option WalletAntiRollbackState
  pub manifest_from_slice : List ℕ → Option WalletArtifactManifest
  pub sha256_digest : List ℕ → List ℕ
  pub decode_base64url : List ℕ → Option (List ℕ)

abbrev pub anti_rollback_checksum_context : List ℕ
anti_rollback_checksum_context = ascii "hns-dane-browser-wallet-anti-rollback-state-v1" ++ 0 ∷ []

module _ (c : Encodings) where
  -- `jcs_bytes(state)`
  unfoldable pub state_bytes : WalletAntiRollbackState → Option (List ℕ)
  state_bytes s = jcs_value_bytes c.strings (object (state_fields s))

  abbrev payload_bytes : Option Fields → Option (List ℕ)
  payload_bytes none = none
  payload_bytes (some fields) = jcs_value_bytes c.strings (object fields)

  abbrev hashed : Option (List ℕ) → Option (List ℕ)
  hashed none = none
  hashed (some payload) =
      some (lower_hex (c.sha256_digest (anti_rollback_checksum_context ++ payload)))

  unfoldable pub anti_rollback_checksum : WalletAntiRollbackState → Option (List ℕ)
  anti_rollback_checksum s =
      hashed (payload_bytes (remove_field (ascii "checksumSha256") (state_fields s)))
