-- ===== src/Wallet/AntiRollback.antt =====
-- The durable high-water mark of wallet releases: `commit_anti_rollback` of wallet_abi.rs and what
-- it calls.
pub mod Judge
pub mod Stored
pub mod FileSystem
pub mod HighWater
pub mod Highest
use hns_dane_browser_extensi.Prelude.{
  ℕ, Bool, true, false, ◌&&◌, ◌||◌, not, Option, none, some, List, [], ◌∷◌, ◌++◌, length, set, leb,
  ltb, ◌==◌, bytes_eq, if◌then◌else◌,
}
use hns_dane_browser_extensi.Prelude.Result.{Result, ok, err}
use hns_dane_browser_extensi.Prelude.Exec.{Exec, pure, raise, lift, gets, reject, ◌>>=◌, ◌>>◌}
use hns_dane_browser_extensi.PoolStats.Literals.{ascii}
use hns_dane_browser_extensi.PoolStats.History.{
  Search, found, absent, insert_at, binary_search_by_key,
}
use hns_dane_browser_extensi.Wallet.Text.{lower_hex}
use hns_dane_browser_extensi.Wallet.Jcs.{to_decimal}
use hns_dane_browser_extensi.Wallet.Rejection.{WalletArtifactRejection, anti_rollback}
use hns_dane_browser_extensi.Wallet.Manifest.{WalletArtifactManifest}
use hns_dane_browser_extensi.Wallet.Metadata.{
  Metadata, lacks, private_regular_file, private_immutable_regular_file, same_open_file,
}
use hns_dane_browser_extensi.Wallet.RollbackState.{
  WalletAntiRollbackEntry, WalletAntiRollbackState, Encodings, line_of, entry_eq,
  valid_anti_rollback_state, state_bytes, anti_rollback_checksum, max_anti_rollback_state_bytes,
  max_anti_rollback_release_lines, wallet_anti_rollback_state_schema_version,
}

-- What opening the state file, its two looks at the metadata and its read give. The read asks for
-- one byte more than the limit.
pub data StateFile : Type 0 where
  not_found : StateFile
  unreadable : StateFile
  opened : Metadata → List ℕ → Metadata → StateFile

abbrev pub wallet_anti_rollback_state : List ℕ
wallet_anti_rollback_state = ascii "wallet-abi-v2-admission-state.json"

-- The calls of the system on the data directory, by the names in it that they are given. `true` is success.
pub record Files (W : Type 0) : Type 0 where
  pub effective_uid : ℕ
  pub process_id : ℕ
  -- `open_lock_file_at_nofollow` with `metadata`, `flock` until it is not interrupted, and
  -- `open_file_at_nofollow` with `metadata` of the lock file
  pub open_lock : W → Option Metadata × W
  pub lock_exclusive : W → Bool × W
  pub reopen_lock : W → Option Metadata × W
  pub state_file : W → StateFile
  pub fill_nonce : W → Option (List ℕ) × W
  -- the temporary file: `create_file_at_exclusive`, `write_all`, `sync_all`,
  -- `set_permissions(0o400)`, `metadata`, `rename_at` onto the state file, `unlink_at`
  pub create_exclusive : List ℕ → W → Bool × W
  pub write_all : List ℕ → W → Bool × W
  pub sync_all : W → Bool × W
  pub set_read_only : W → Bool × W
  pub metadata : W → Option Metadata × W
  pub rename : List ℕ → W → Bool × W
  pub unlink : List ℕ → W → Bool × W
  pub sync_directory : W → Bool × W

abbrev pub result_of : {A : Type 0} → Option A → Result WalletArtifactRejection A
result_of none = err anti_rollback
result_of (some a) = ok a

abbrev pub success : Bool → Result WalletArtifactRejection (Unit {0})
success true = ok tt
success false = err anti_rollback

-- A call whose error is mapped to `WalletArtifactRejection::AntiRollback`.
module _ {W : Type 0} where
  unfoldable pub perform : (W → Bool × W) → Exec W WalletArtifactRejection (Unit {0})
  perform call w = let (done, w') = call w in (success done, w')

  unfoldable pub obtain : {A : Type 0} → (W → Option A × W) → Exec W WalletArtifactRejection A
  obtain call w = let (answer, w') = call w in (result_of answer, w')

-- The entry for a manifest.
abbrev pub entry_of : WalletArtifactManifest → List ℕ → WalletAntiRollbackEntry
entry_of m digest = record {
  release_line = m.anti_rollback.release_line;
  highest_sequence = m.anti_rollback.sequence;
  release_id = m.release.release_id;
  signer_key_id = m.signature.key_id;
  manifest_sha256 = digest;
  artifact_sha256 = m.release.artifact_sha256;
}

abbrev pub state_or_new : Option WalletAntiRollbackState → WalletAntiRollbackState
state_or_new (some s) = s
state_or_new none = record {
  state_schema_version = wallet_anti_rollback_state_schema_version;
  entries = [];
  checksum_sha256 = [];
}

abbrev pub names_digest : Option (List ℕ) → List ℕ → Bool
names_digest none digest = false
names_digest (some previous) digest = bytes_eq previous digest

abbrev pub is_some : {A : Type 0} → Option A → Bool
is_some none = false
is_some (some a) = true

-- The match on the search: the entries to write, or none where the entry is there already.
unfoldable pub judge_entry :
    WalletAntiRollbackEntry
    → Option (List ℕ)
    → Bool
    → List WalletAntiRollbackEntry
    → Search WalletAntiRollbackEntry
    → Result WalletArtifactRejection (Option (List WalletAntiRollbackEntry))
judge_entry current previous_digest trusted_genesis entries (found index previous) =
    if ltb current.highest_sequence previous.highest_sequence
    then err anti_rollback
    else if current.highest_sequence == previous.highest_sequence
    then (if not (entry_eq current previous) then err anti_rollback else ok none)
    else if not (names_digest previous_digest previous.manifest_sha256)
    then err anti_rollback
    else ok (some (set entries index current))
judge_entry current previous_digest trusted_genesis entries (absent index) =
    if not trusted_genesis || is_some previous_digest
    then err anti_rollback
    else ok (some (insert_at entries index current))

module _ {W : Type 0} (c : Encodings) (files : Files W) where
  -- The tests on the lock file, before and after it is locked.
  abbrev lock_unsafe : Metadata → Bool
  lock_unsafe m =
      not (private_regular_file files.effective_uid m) || not (m.len == 0) || not (lacks m 0o077)

  unfoldable pub acquire_anti_rollback_lock : Exec W WalletArtifactRejection (Unit {0})
  acquire_anti_rollback_lock = do
    m ← obtain files.open_lock
    reject (lock_unsafe m) anti_rollback
    perform files.lock_exclusive
    current ← obtain files.reopen_lock
    reject (not (same_open_file m current) || lock_unsafe current) anti_rollback

  -- `read_bounded` fails on no bytes and on too many.
  abbrev state_file_unsafe : Metadata → List ℕ → Metadata → Bool
  state_file_unsafe m bytes final =
      not (private_immutable_regular_file files.effective_uid m)
      || m.len == 0
      || ltb max_anti_rollback_state_bytes m.len
      || length bytes == 0
      || ltb max_anti_rollback_state_bytes (length bytes)
      || not (length bytes == m.len)
      || not (same_open_file m final)

  abbrev pub is_bytes : Option (List ℕ) → List ℕ → Bool
  is_bytes none bytes = false
  is_bytes (some own) bytes = bytes_eq own bytes

  -- The test on a state that was parsed: canonical, valid and of the checksum it carries.
  unfoldable pub state_confirmed : List ℕ → WalletAntiRollbackState → Bool
  state_confirmed bytes s =
      is_bytes (state_bytes c s) bytes
      && valid_anti_rollback_state s
      && is_bytes (anti_rollback_checksum c s) s.checksum_sha256

  abbrev pub confirmed_state :
      List ℕ
      → Option WalletAntiRollbackState
      → Result WalletArtifactRejection (Option WalletAntiRollbackState)
  confirmed_state bytes none = err anti_rollback
  confirmed_state bytes (some s) =
      if state_confirmed bytes s then ok (some s) else err anti_rollback

  unfoldable pub parse_state_file :
      StateFile → Result WalletArtifactRejection (Option WalletAntiRollbackState)
  parse_state_file not_found = ok none
  parse_state_file unreadable = err anti_rollback
  parse_state_file (opened m bytes final) =
      if state_file_unsafe m bytes final
      then err anti_rollback
      else confirmed_state bytes (c.state_from_slice bytes)

  unfoldable pub read_anti_rollback_state_locked :
      Exec W WalletArtifactRejection (Option WalletAntiRollbackState)
  read_anti_rollback_state_locked w = (parse_state_file (files.state_file w), w)

  abbrev holds_entry :
      WalletAntiRollbackEntry
      → Search WalletAntiRollbackEntry
      → Result WalletArtifactRejection (Unit {0})
  holds_entry expected (absent index) = err anti_rollback
  holds_entry expected (found index entry) =
      if entry_eq entry expected then ok tt else err anti_rollback

  abbrev require_in :
      WalletAntiRollbackEntry
      → Option WalletAntiRollbackState
      → Result WalletArtifactRejection (Unit {0})
  require_in expected none = err anti_rollback
  require_in expected (some s) =
      holds_entry expected (binary_search_by_key line_of expected.release_line s.entries)

  unfoldable pub require_anti_rollback_entry_locked :
      WalletAntiRollbackEntry → Exec W WalletArtifactRejection (Unit {0})
  require_anti_rollback_entry_locked expected = do
    stored ← read_anti_rollback_state_locked
    lift (require_in expected stored)

  abbrev pub temporary_name : List ℕ → List ℕ
  temporary_name nonce =
      ascii ".admission-state-"
      ++ (to_decimal files.process_id ++ (ascii "-" ++ (lower_hex nonce ++ ascii ".tmp")))

  -- The closure of `write_anti_rollback_state_locked`.
  unfoldable pub write_temporary : List ℕ → List ℕ → Exec W WalletArtifactRejection (Unit {0})
  write_temporary name bytes = do
    perform (files.write_all bytes)
    perform files.sync_all
    perform files.set_read_only
    m ← obtain files.metadata
    reject
        (not (private_immutable_regular_file files.effective_uid m) || not (m.len == length bytes))
        anti_rollback
    perform files.sync_all
    perform (files.rename name)
    perform files.sync_directory

  -- `if write_result.is_err() { let _ = unlink_at(...); return Err(...) }`
  abbrev unlink_on_error :
      List ℕ
      → Result WalletArtifactRejection (Unit {0}) × W
      → Result WalletArtifactRejection (Unit {0}) × W
  unlink_on_error name (ok done, w) = (ok tt, w)
  unlink_on_error name (err e, w) = (err anti_rollback, (files.unlink name w).1)

  unfoldable pub replace_state_file : List ℕ → List ℕ → Exec W WalletArtifactRejection (Unit {0})
  replace_state_file name bytes w = unlink_on_error name (write_temporary name bytes w)

  unfoldable pub write_anti_rollback_state_locked :
      WalletAntiRollbackState → Exec W WalletArtifactRejection (Unit {0})
  write_anti_rollback_state_locked s = do
    bytes ← lift (result_of (state_bytes c s))
    reject (length bytes == 0 || ltb max_anti_rollback_state_bytes (length bytes)) anti_rollback
    nonce ← obtain files.fill_nonce
    perform (files.create_exclusive (temporary_name nonce))
    replace_state_file (temporary_name nonce) bytes

  -- `commit_anti_rollback` behind the match, on the entries to write.
  unfoldable pub store_entries :
      WalletAntiRollbackState
      → WalletAntiRollbackEntry
      → List WalletAntiRollbackEntry
      → Exec W WalletArtifactRejection WalletAntiRollbackEntry
  store_entries s current entries = do
    reject (ltb max_anti_rollback_release_lines (length entries)) anti_rollback
    checksum ← lift (result_of (anti_rollback_checksum c (record s { entries = entries })))
    write_anti_rollback_state_locked (record s { entries = entries; checksum_sha256 = checksum })
    require_anti_rollback_entry_locked current
    pure current

  abbrev pub store_if_new :
      WalletAntiRollbackState
      → WalletAntiRollbackEntry
      → Option (List WalletAntiRollbackEntry)
      → Exec W WalletArtifactRejection WalletAntiRollbackEntry
  store_if_new s current none = pure current
  store_if_new s current (some entries) = store_entries s current entries

  -- ... and behind the read of the state.
  unfoldable pub commit_over :
      WalletArtifactManifest
      → WalletAntiRollbackEntry
      → Bool
      → WalletAntiRollbackState
      → Exec W WalletArtifactRejection WalletAntiRollbackEntry
  commit_over m current trusted_genesis s = do
    verdict ← lift (
        judge_entry current m.anti_rollback.previous_manifest_sha256 trusted_genesis s.entries
          (binary_search_by_key line_of current.release_line s.entries))
    store_if_new s current verdict

  unfoldable pub commit_anti_rollback :
      WalletArtifactManifest
      → List ℕ
      → Bool
      → Exec W WalletArtifactRejection WalletAntiRollbackEntry
  commit_anti_rollback m digest trusted_genesis = do
    acquire_anti_rollback_lock
    stored ← read_anti_rollback_state_locked
    commit_over m (entry_of m digest) trusted_genesis (state_or_new stored)
