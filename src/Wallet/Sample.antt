-- ===== src/Wallet/Sample.antt =====
-- Test data: a directory of files, encodings that stand in for the external crates, a manifest, and
-- a wallet service that answers.
use hns_dane_browser_extensi.Prelude.{
  ℕ, true, false, Option, none, some, List, [], ◌∷◌, ◌++◌, length, replicate, bytes_eq,
  if◌then◌else◌,
}
use hns_dane_browser_extensi.PoolStats.Literals.{ascii}
use hns_dane_browser_extensi.Wallet.Text.{lower_hex}
use hns_dane_browser_extensi.Wallet.Jcs.{Strings, object, jcs_value_bytes}
use hns_dane_browser_extensi.Wallet.Manifest.{WalletArtifactManifest}
use hns_dane_browser_extensi.Wallet.Metadata.{Metadata}
use hns_dane_browser_extensi.Wallet.RollbackState.{
  WalletAntiRollbackEntry, WalletAntiRollbackState, Encodings, state_fields,
}
use hns_dane_browser_extensi.Wallet.AntiRollback.{Files, StateFile, opened}

abbrev pub toy_metadata : ℕ → Metadata
toy_metadata size = record {
  is_file = true;
  is_dir = false;
  dev = 1;
  ino = 2;
  uid = 1_000;
  gid = 1_000;
  mode = 0o400;
  nlink = 1;
  len = size;
  mtime = 5;
  mtime_nsec = 6;
  ctime = 7;
  ctime_nsec = 8;
}

-- Two names in a directory: the state file and the temporary one.
pub record Disk : Type 0 where
  pub name : List ℕ
  pub temporary : List ℕ
  pub stored : StateFile

abbrev pub toy_files : Files Disk
toy_files = record {
  effective_uid = 1_000;
  process_id = 7;
  open_lock = λ w. (some (toy_metadata 0), w);
  lock_exclusive = λ w. (true, w);
  reopen_lock = λ w. (some (toy_metadata 0), w);
  state_file = λ w. w.stored;
  fill_nonce = λ w. (some (1 ∷ 2 ∷ []), w);
  create_exclusive = λ name w. (true, record w { name = name; temporary = [] });
  write_all = λ bytes w. (true, record w { temporary = w.temporary ++ bytes });
  sync_all = λ w. (true, w);
  set_read_only = λ w. (true, w);
  metadata = λ w. (some (toy_metadata (length w.temporary)), w);
  rename = λ name w. (
    true,
    record w {
      stored =
          opened (toy_metadata (length w.temporary)) w.temporary
            (toy_metadata (length w.temporary));
    },
  );
  unlink = λ name w. (true, w);
  sync_directory = λ w. (true, w);
}

abbrev toy_strings : Strings
toy_strings = record { write_string = λ text. some text; encode_utf16 = λ text. text }

abbrev pub toy_checksum : List ℕ
toy_checksum = lower_hex (replicate 32 7)

abbrev toy_entry : ℕ → ℕ → WalletAntiRollbackEntry
toy_entry sequence letter = record {
  release_line = ascii "stable";
  highest_sequence = sequence;
  release_id = ascii "r";
  signer_key_id = ascii "k";
  manifest_sha256 = replicate 64 letter;
  artifact_sha256 = replicate 64 b'c';
}

abbrev toy_state : WalletAntiRollbackEntry → List ℕ → WalletAntiRollbackState
toy_state entry checksum = record {
  state_schema_version = 1;
  entries = entry ∷ [];
  checksum_sha256 = checksum;
}

abbrev pub old_entry : WalletAntiRollbackEntry
old_entry = toy_entry 1 b'a'

abbrev pub new_entry : WalletAntiRollbackEntry
new_entry = toy_entry 2 b'b'

abbrev pub old_state : WalletAntiRollbackState
old_state = toy_state old_entry toy_checksum

abbrev pub later_state : WalletAntiRollbackState
later_state = toy_state new_entry toy_checksum

abbrev or_empty : Option (List ℕ) → List ℕ
or_empty none = []
or_empty (some bytes) = bytes

abbrev pub bytes_of : WalletAntiRollbackState → List ℕ
bytes_of s = or_empty (jcs_value_bytes toy_strings (object (state_fields s)))

-- Encodings that read back the two states.
abbrev pub toy_encodings : Encodings
toy_encodings = record {
  strings = toy_strings;
  state_from_slice = λ bytes.
      if bytes_eq bytes (bytes_of old_state)
      then some old_state
      else if bytes_eq bytes (bytes_of later_state)
      then some later_state
      else none;
  manifest_from_slice = λ bytes. none;
  sha256_digest = λ message. replicate 32 7;
  decode_base64url = λ text. none;
}

abbrev pub old_disk : Disk
old_disk = record {
  name = [];
  temporary = [];
  stored =
      opened (toy_metadata (length (bytes_of old_state))) (bytes_of old_state)
        (toy_metadata (length (bytes_of old_state)));
}

-- The release of the line "stable" that comes after the stored one.
abbrev pub toy_manifest : WalletArtifactManifest
toy_manifest = record {
  manifest_schema_version = 2;
  target = record {
    artifact_kind = ascii "walletService";
    target_triple = ascii "x86_64-unknown-linux-gnu";
    executable_format = ascii "elf";
    wallet_abi_version = 2;
    service_protocol_version = 2;
    provider_schema_version = 1;
    approval_schema_version = 3;
    maximum_frame_bytes = 1_048_576;
    capabilities = [];
  };
  source = record {
    repository = [];
    commit_id = [];
    tree_id = [];
    source_archive_sha256 = [];
    dirty = false;
  };
  release = record {
    release_id = ascii "r";
    version = ascii "1.0.0";
    artifact = ascii "service";
    artifact_sha256 = replicate 64 b'c';
    artifact_size_bytes = 1;
    published_at_unix_ms = 1;
  };
  anti_rollback = record {
    release_line = ascii "stable";
    sequence = 2;
    previous_manifest_sha256 = some (replicate 64 b'a');
    not_before_unix_ms = 1;
    expires_at_unix_ms = none;
  };
  signature = record {
    algorithm = ascii "ed25519";
    key_id = ascii "k";
    payload_canonicalization = ascii "JCS-RFC8785";
    signed_payload_sha256 = [];
    value = [];
  };
}

abbrev pub new_digest : List ℕ
new_digest = replicate 64 b'b'

abbrev pub new_disk : Disk
new_disk = record {
  name = ascii ".admission-state-7-0102.tmp";
  temporary = bytes_of later_state;
  stored =
      opened (toy_metadata (length (bytes_of later_state))) (bytes_of later_state)
        (toy_metadata (length (bytes_of later_state)));
}
