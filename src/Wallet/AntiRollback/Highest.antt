-- ===== src/Wallet/AntiRollback/Highest.antt =====
-- The sequence of a release line never falls.
use hns_dane_browser_extensi.Prelude.{
  ℕ, ◌≡◌, ◌≤◌, ap, sym, ◌∙◌, inl, inr, Bool, Bool-cases, Option, some, List, arith,
}
use hns_dane_browser_extensi.Prelude.Result.{Result, ok}
use hns_dane_browser_extensi.PoolStats.History.Latest.{latest}
use hns_dane_browser_extensi.PoolStats.History.Sorted.{upsert}
use hns_dane_browser_extensi.Wallet.Rejection.{WalletArtifactRejection}
use hns_dane_browser_extensi.Wallet.Metadata.{Metadata}
use hns_dane_browser_extensi.Wallet.Manifest.{WalletArtifactManifest}
use hns_dane_browser_extensi.Wallet.RollbackState.{
  WalletAntiRollbackEntry, WalletAntiRollbackState, Encodings, line_of, state_bytes,
  anti_rollback_checksum,
}
use hns_dane_browser_extensi.Wallet.AntiRollback.{
  Files, opened, entry_of, state_or_new, parse_state_file, state_file_unsafe, confirmed_state,
  state_confirmed, commit_anti_rollback,
}
use hns_dane_browser_extensi.Wallet.AntiRollback.Judge.{Grounds-highest}
use hns_dane_browser_extensi.Wallet.AntiRollback.FileSystem.{IsFileSystem}
use hns_dane_browser_extensi.Wallet.AntiRollback.HighWater.{
  as_before, replaced, next_state, commit_anti_rollback-Leaves,
}

-- A state with its checksum set, once written, reads back as itself: what serde_json documents for a
-- derived pair.
abbrev pub IsReadBack : Encodings → WalletAntiRollbackState → Type 0
IsReadBack c s =
    (checksum bytes : List ℕ)
    → anti_rollback_checksum c s ≡ some checksum
    → state_bytes c (record s { checksum_sha256 = checksum }) ≡ some bytes
    → c.state_from_slice bytes ≡ some (record s { checksum_sha256 = checksum })

-- Every line of the first state has an entry in the second, of no smaller sequence.
abbrev pub IsRaised : Option WalletAntiRollbackState → Option WalletAntiRollbackState → Type 0
IsRaised old new =
    (line : List ℕ) (p : WalletAntiRollbackEntry)
    → latest line_of line (state_or_new old).entries ≡ some p
    → (q : WalletAntiRollbackEntry) × (latest line_of line (state_or_new new).entries ≡ some q)
      × (p.highest_sequence ≤ q.highest_sequence)

module _ {W : Type 0} (c : Encodings) (files : Files W) where
  ok_eq :
      (r : Result WalletArtifactRejection (Option WalletAntiRollbackState))
      (a b : Option WalletAntiRollbackState)
      → r ≡ ok a
      → r ≡ ok b
      → a ≡ b
  ok_eq r a b h k = cc

  confirmed_state-eq :
      (bytes : List ℕ) (s : WalletAntiRollbackState) (o : Option WalletAntiRollbackState)
      → confirmed_state c files bytes (some s) ≡ ok o
      → some s ≡ o
  confirmed_state-eq bytes s o h = elim (Bool-cases (state_confirmed c files bytes s)) [
    | inl t ↦ ok_eq (confirmed_state c files bytes (some s)) (some s) o (rw t) h
    | inr f ↦ cc
  ]

  parse_state_file-opened :
      (m final : Metadata) (bytes : List ℕ) (s : WalletAntiRollbackState)
      (o : Option WalletAntiRollbackState)
      → c.state_from_slice bytes ≡ some s
      → parse_state_file c files (opened m bytes final) ≡ ok o
      → some s ≡ o
  unfolding parse_state_file
  parse_state_file-opened m final bytes s o e h =
      elim (Bool-cases (state_file_unsafe c files m bytes final)) [
        | inl u ↦ cc
        | inr u ↦
            let k : confirmed_state c files bytes (c.state_from_slice bytes) ≡ ok o = rw u at h in
            confirmed_state-eq bytes s o (ap (confirmed_state c files bytes) (sym e) ∙ k)
      ]

  module _ (fs : IsFileSystem files) where
    -- Where the state file reads as a state before a commit and as a state after it, whatever the
    -- commit returned and wherever it stopped, no release line is lost and none has a smaller
    -- sequence. It relies on the laws of the file system, and on the state that would
    -- be written reading back as itself.
    pub commit_anti_rollback-IsRaised :
        (m : WalletArtifactManifest) (digest : List ℕ) (genesis : Bool) (w : W)
        (old new : Option WalletAntiRollbackState)
        → IsReadBack c (record (state_or_new old) {
          entries = upsert line_of (entry_of m digest) (state_or_new old).entries;
        })
        → parse_state_file c files (files.state_file w) ≡ ok old
        → parse_state_file c files
            (files.state_file (commit_anti_rollback c files m digest genesis w).1)
          ≡ ok new
        → IsRaised old new
    commit_anti_rollback-IsRaised m digest genesis w old new back h k line p l =
        elim (commit_anti_rollback-Leaves c files fs m digest genesis old w h) [
          | as_before s ↦
              let e : old ≡ new = ok_eq _ old new h (ap (parse_state_file c files) (sym s) ∙ k) in
              (p, ap (λ o. latest line_of line (state_or_new o).entries) (sym e) ∙ l, omega arith)
          | replaced checksum x g (bytes, b, moved) ↦
              let (a, f, r) = moved in
              let s =
                next_state c files fs old (entry_of m digest)
                  m.anti_rollback.previous_manifest_sha256 genesis (files.state_file w) checksum in
              let e : some s ≡ new =
                parse_state_file-opened a f bytes s new (back checksum bytes x b)
                  (ap (parse_state_file c files) (sym r) ∙ k) in
              let (q, i, le) =
                Grounds-highest (entry_of m digest) m.anti_rollback.previous_manifest_sha256 genesis
                  (state_or_new old).entries g line p l in
              (q, ap (λ o. latest line_of line (state_or_new o).entries) (sym e) ∙ i, le)
        ]
