-- ===== src/Wallet/Runs.antt =====
-- Runs of the wallet interface on test data, and what its theorems say of them.
use hns_dane_browser_extensi.Prelude.{
  ◌≡◌, ◌↔◌, refl, sym, ap, subst, ◌∙◌, true, false, none, some, [], ◌∷◌, replicate, all,
}
use hns_dane_browser_extensi.Prelude.Lists.{bytes_eq, bytes_lt}
use hns_dane_browser_extensi.Prelude.Result.{ok}
use hns_dane_browser_extensi.Prelude.Exec.{pure, lift, reject, ◌>>=◌}
use hns_dane_browser_extensi.Wallet.Sample
use hns_dane_browser_extensi.Wallet.RollbackState.{
  state_bytes, state_fields, anti_rollback_checksum, line_of, valid_entry, valid_entries,
  valid_anti_rollback_state, entry_eq,
}
use hns_dane_browser_extensi.PoolStats.History.{binary_search_by_key, strictly_sorted_by}
use hns_dane_browser_extensi.PoolStats.History.Sorted.{upsert}
use hns_dane_browser_extensi.Wallet.AntiRollback.Judge.{Judged, judge_entry-Judged}
use hns_dane_browser_extensi.Wallet.AntiRollback.Highest.{
  IsReadBack, IsRaised, commit_anti_rollback-IsRaised,
}
use hns_dane_browser_extensi.Wallet.RollbackState.Valid.{valid_entries_iff}
use hns_dane_browser_extensi.Wallet.Text.{
  valid_token, positive_safe_integer, is_lower_hex, lower_hex,
}
use hns_dane_browser_extensi.Wallet.Jcs.{
  jcs_value_bytes, write_jcs_value, sort_members, insert_member, to_decimal,
}
use hns_dane_browser_extensi.Wallet.Metadata.{
  same_open_file, private_regular_file, private_immutable_regular_file,
}
use hns_dane_browser_extensi.Wallet.AntiRollback.{
  parse_state_file, state_confirmed, commit_anti_rollback, judge_entry, acquire_anti_rollback_lock,
  read_anti_rollback_state_locked, commit_over, store_entries, write_anti_rollback_state_locked,
  replace_state_file, write_temporary, require_anti_rollback_entry_locked, perform, obtain,
  entry_of,
}
use hns_dane_browser_extensi.Wallet.AntiRollback.Stored.{IsStored, commit_anti_rollback-IsStored}
use hns_dane_browser_extensi.Wallet.AntiRollback.FileSystem.{IsFileSystem}

old_disk-parses :
    parse_state_file Sample.toy_encodings Sample.toy_files Sample.old_disk.stored
    ≡ ok (some Sample.old_state)
unfolding parse_state_file state_confirmed jcs_value_bytes write_jcs_value sort_members
    insert_member to_decimal state_bytes state_fields anti_rollback_checksum
    valid_anti_rollback_state valid_entries valid_token positive_safe_integer is_lower_hex lower_hex
    bytes_eq bytes_lt same_open_file private_immutable_regular_file private_regular_file
old_disk-parses = refl

toy_commit :
    commit_anti_rollback Sample.toy_encodings Sample.toy_files Sample.toy_manifest Sample.new_digest
      false Sample.old_disk
    ≡ (ok Sample.new_entry, Sample.new_disk)
unfolding commit_anti_rollback acquire_anti_rollback_lock read_anti_rollback_state_locked
    commit_over judge_entry store_entries write_anti_rollback_state_locked replace_state_file
    write_temporary require_anti_rollback_entry_locked perform obtain entry_eq binary_search_by_key
    parse_state_file state_confirmed jcs_value_bytes write_jcs_value sort_members insert_member
    to_decimal state_bytes state_fields anti_rollback_checksum valid_anti_rollback_state
    valid_entries valid_token positive_safe_integer is_lower_hex lower_hex bytes_eq bytes_lt
    same_open_file private_immutable_regular_file private_regular_file pure lift reject ◌>>=◌
toy_commit = refl

commit_anti_rollback-IsStored_example :
    (Sample.new_entry ≡ entry_of Sample.toy_manifest Sample.new_digest)
    × IsStored Sample.toy_encodings Sample.toy_files Sample.new_disk.stored
        (entry_of Sample.toy_manifest Sample.new_digest)
commit_anti_rollback-IsStored_example =
    commit_anti_rollback-IsStored Sample.toy_encodings Sample.toy_files Sample.toy_manifest
      Sample.new_digest false Sample.old_disk Sample.new_disk Sample.new_entry toy_commit

toy_files-IsFileSystem : IsFileSystem Sample.toy_files
toy_files-IsFileSystem = record {
  open_file = λ w. (w.name, w.temporary);
  open_lock_keeps = λ w. refl;
  lock_keeps = λ w. refl;
  reopen_keeps = λ w. refl;
  nonce_keeps = λ w. refl;
  create_keeps = λ n w h. refl;
  create_opens = λ n w h. refl;
  write_keeps = λ b w h. refl;
  write_appends = λ b w h. refl;
  sync_keeps = λ w. refl;
  sync_open = λ w. refl;
  chmod_keeps = λ w h. refl;
  chmod_open = λ w. refl;
  metadata_keeps = λ w. refl;
  metadata_open = λ w. refl;
  rename_replaces = λ n w h k. (_, _, refl);
  rename_fails = λ n w h. cc;
  unlink_keeps = λ n w h. refl;
  sync_directory_keeps = λ w. refl;
}

some-eq : {A : Type 0} (a b : A) → some a ≡ some b → a ≡ b
some-eq a b h = cc

toy_checksum-computes :
    anti_rollback_checksum Sample.toy_encodings
      (record Sample.old_state { entries = Sample.new_entry ∷ [] })
    ≡ some Sample.toy_checksum
unfolding jcs_value_bytes write_jcs_value sort_members insert_member to_decimal state_fields
    anti_rollback_checksum lower_hex bytes_eq bytes_lt
toy_checksum-computes = refl

later_state-bytes :
    state_bytes Sample.toy_encodings Sample.later_state ≡ some (Sample.bytes_of Sample.later_state)
unfolding jcs_value_bytes write_jcs_value sort_members insert_member to_decimal state_bytes
    state_fields bytes_lt lower_hex
later_state-bytes = refl

later_state-read :
    Sample.toy_encodings.state_from_slice (Sample.bytes_of Sample.later_state)
    ≡ some Sample.later_state
unfolding jcs_value_bytes write_jcs_value sort_members insert_member to_decimal state_fields
    bytes_lt bytes_eq lower_hex
later_state-read = refl

toy_encodings-IsReadBack :
    IsReadBack Sample.toy_encodings (record Sample.old_state { entries = Sample.new_entry ∷ [] })
toy_encodings-IsReadBack checksum bytes e f =
    let c = some-eq Sample.toy_checksum checksum (sym toy_checksum-computes ∙ e) in
    let d = some-eq (Sample.bytes_of Sample.later_state) bytes (
      sym later_state-bytes
      ∙ (ap
            (λ x.
              state_bytes Sample.toy_encodings (record Sample.later_state { checksum_sha256 = x }))
            c
          ∙ f)) in
    ap Sample.toy_encodings.state_from_slice (sym d)
    ∙ (later_state-read ∙ ap (λ x. some (record Sample.later_state { checksum_sha256 = x })) c)

toy_upsert :
    upsert line_of (entry_of Sample.toy_manifest Sample.new_digest) (Sample.old_entry ∷ [])
    ≡ Sample.new_entry ∷ []
unfolding binary_search_by_key bytes_lt bytes_eq
toy_upsert = refl

new_disk-parses :
    parse_state_file Sample.toy_encodings Sample.toy_files Sample.new_disk.stored
    ≡ ok (some Sample.later_state)
unfolding parse_state_file state_confirmed jcs_value_bytes write_jcs_value sort_members
    insert_member to_decimal state_bytes state_fields anti_rollback_checksum
    valid_anti_rollback_state valid_entries valid_token positive_safe_integer is_lower_hex lower_hex
    bytes_eq bytes_lt same_open_file private_immutable_regular_file private_regular_file
new_disk-parses = refl

commit_anti_rollback-IsRaised_example : IsRaised (some Sample.old_state) (some Sample.later_state)
commit_anti_rollback-IsRaised_example =
    commit_anti_rollback-IsRaised Sample.toy_encodings Sample.toy_files toy_files-IsFileSystem
      Sample.toy_manifest Sample.new_digest false Sample.old_disk (some Sample.old_state)
      (some Sample.later_state)
      (subst (λ es. IsReadBack Sample.toy_encodings (record Sample.old_state { entries = es }))
        (sym toy_upsert) toy_encodings-IsReadBack)
      old_disk-parses
      (ap (λ p. parse_state_file Sample.toy_encodings Sample.toy_files p.1.stored) toy_commit
        ∙ new_disk-parses)

old_entries-sorted : strictly_sorted_by line_of (Sample.old_entry ∷ []) ≡ true
unfolding strictly_sorted_by
old_entries-sorted = refl

judge_entry-Judged_example :
    Judged Sample.new_entry (some (replicate 64 b'a')) false (Sample.old_entry ∷ []) (
      judge_entry Sample.new_entry
        (some (replicate 64 b'a'))
        false
        (Sample.old_entry ∷ [])
        (binary_search_by_key line_of Sample.new_entry.release_line (Sample.old_entry ∷ [])))
judge_entry-Judged_example =
    judge_entry-Judged Sample.new_entry (some (replicate 64 b'a')) false (Sample.old_entry ∷ [])
      old_entries-sorted

valid_entries_iff_example : (valid_entries none (Sample.old_entry ∷ []) ≡ true) ↔ (
    (strictly_sorted_by line_of (Sample.old_entry ∷ []) ≡ true)
    × (all valid_entry (Sample.old_entry ∷ []) ≡ true))
valid_entries_iff_example = valid_entries_iff (Sample.old_entry ∷ [])
