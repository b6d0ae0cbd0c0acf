-- ===== src/Wallet/AntiRollback/HighWater.antt =====
-- What a commit leaves in the state file, however it ends.
use hns_dane_browser_extensi.Prelude.{
  ℕ, ◌≡◌, refl, ap, ◌∙◌, inl, inr, Bool, true, false, Option, none, some, List,
}
use hns_dane_browser_extensi.Prelude.Result.{Result, ok, err}
use hns_dane_browser_extensi.Prelude.Exec.{pure, lift, reject, ◌>>=◌}
use hns_dane_browser_extensi.Prelude.Exec.Triple.{
  After, Triple, bind-Triple, lift-Triple, reject-Triple, After-weaken,
}
use hns_dane_browser_extensi.PoolStats.History.Sorted.{upsert}
use hns_dane_browser_extensi.Wallet.Rejection.{WalletArtifactRejection, anti_rollback}
use hns_dane_browser_extensi.Wallet.Manifest.{WalletArtifactManifest}
use hns_dane_browser_extensi.Wallet.RollbackState.{
  WalletAntiRollbackEntry, WalletAntiRollbackState, Encodings, line_of, anti_rollback_checksum,
}
use hns_dane_browser_extensi.Wallet.RollbackState.Valid.{valid_entries-IsSorted}
use hns_dane_browser_extensi.Wallet.AntiRollback.{
  Files, StateFile, entry_of, state_or_new, parse_state_file, read_anti_rollback_state_locked,
  require_anti_rollback_entry_locked, write_anti_rollback_state_locked, store_entries, store_if_new,
  commit_over, commit_anti_rollback, acquire_anti_rollback_lock,
}
use hns_dane_browser_extensi.Wallet.AntiRollback.Judge.{
  Grounds, Judged, refused, kept, written, judge_entry-Judged,
}
use hns_dane_browser_extensi.Wallet.AntiRollback.FileSystem.{
  IsFileSystem, Same, Done, Written, SameOrWritten, write_state-Triple, result_of-ok,
  perform-Triple, obtain-Triple,
}
use hns_dane_browser_extensi.Wallet.AntiRollback.Stored.{parse_state_file-IsOrdered}

module _ {W : Type 0} (c : Encodings) (files : Files W) (fs : IsFileSystem files) where
  acquire-Triple :
      (before : StateFile)
      → Triple
          (Same c files fs before)
          (acquire_anti_rollback_lock c files)
          (λ _. Same c files fs before)
          (Same c files fs before)
  unfolding acquire_anti_rollback_lock reject
  acquire-Triple before =
      let S = Same c files fs before in
      bind-Triple S S (λ _. S) (λ _. S) _ _
        (obtain-Triple S S S files.open_lock (λ w p. fs.open_lock_keeps w ∙ p)
          (λ w p. fs.open_lock_keeps w ∙ p))
        (λ m.
          reject-Triple (λ _. S) _ anti_rollback _ (λ w p. p)
            (λ _.
              bind-Triple S S (λ _. S) (λ _. S) _ _
                (perform-Triple S S S files.lock_exclusive (λ w p e. fs.lock_keeps w ∙ p)
                  (λ w p e. fs.lock_keeps w ∙ p))
                (λ _.
                  bind-Triple S S (λ _. S) (λ _. S) _ _
                    (obtain-Triple S S S files.reopen_lock (λ w p. fs.reopen_keeps w ∙ p)
                      (λ w p. fs.reopen_keeps w ∙ p))
                    (λ n. only_reject S _))))
    where
      only_reject : (S : W → Type 0) (bad : Bool) → Triple S (reject bad anti_rollback) (λ _. S) S
      only_reject S true w p = p
      only_reject S false w p = p

  -- A run that does not change the state of the system.
  keeps-After :
      {A : Type 0} (Q : W → Type 0) (r : Result WalletArtifactRejection A) (w : W)
      → Q w
      → After (λ _. Q) Q r w
  keeps-After Q (ok a) w q = q
  keeps-After Q (err e) w q = q

  require-Triple :
      (Q : W → Type 0) (e : WalletAntiRollbackEntry)
      → Triple Q (require_anti_rollback_entry_locked c files e) (λ _. Q) Q
  unfolding require_anti_rollback_entry_locked read_anti_rollback_state_locked lift
  require-Triple Q e =
      bind-Triple Q Q (λ _. Q) (λ _. Q) _ _ (λ w q. keeps-After Q _ w q)
        (λ o w q. keeps-After Q _ w q)

  module _ (o : Option WalletAntiRollbackState) (current : WalletAntiRollbackEntry)
      (digest : Option (List ℕ)) (genesis : Bool) (before : StateFile) where
    -- The state that a commit writes, before and after its checksum is set.
    abbrev pub next_entries : WalletAntiRollbackState
    next_entries = record (state_or_new o) {
      entries = upsert line_of current (state_or_new o).entries;
    }

    abbrev pub next_state : List ℕ → WalletAntiRollbackState
    next_state checksum = record (state_or_new o) {
      entries = upsert line_of current (state_or_new o).entries;
      checksum_sha256 = checksum;
    }

    -- The state file is as before, or there were grounds to write and it holds the next state.
    pub data Leaves (w : W) : Type 0 where
      as_before : Same c files fs before w → Leaves w
      replaced :
          (checksum : List ℕ)
          → anti_rollback_checksum c next_entries ≡ some checksum
          → Grounds current digest genesis (state_or_new o).entries
          → Written c files fs before (next_state checksum) w
          → Leaves w

    abbrev Same_ : W → Type 0
    Same_ = Same c files fs before

    write_next-Triple :
        (checksum : List ℕ)
        → anti_rollback_checksum c next_entries ≡ some checksum
        → Grounds current digest genesis (state_or_new o).entries
        → Triple Same_
            (write_anti_rollback_state_locked c files (next_state checksum))
            (λ _. Leaves)
            Leaves
    write_next-Triple checksum x g w p =
        After-weaken (Done c files fs before (Written c files fs before (next_state checksum)))
          (λ _. Leaves) (SameOrWritten c files fs before (next_state checksum)) Leaves
          (λ _ s h. replaced checksum x g h) (λ s h. leaves_of s h) _ _
          (write_state-Triple c files fs before (next_state checksum) w p)
      where
        leaves_of : (s : W) → SameOrWritten c files fs before (next_state checksum) s → Leaves s
        leaves_of s (inl h) = as_before h
        leaves_of s (inr h) = replaced checksum x g h

    store_entries-Triple :
        Grounds current digest genesis (state_or_new o).entries
        → Triple Same_
            (store_entries c files
              (state_or_new o)
              current
              (upsert line_of current (state_or_new o).entries))
            (λ _. Leaves)
            Leaves
    unfolding store_entries pure
    store_entries-Triple g =
        reject-Triple (λ _. Leaves) _ anti_rollback _ (λ w p. as_before p)
          (λ _.
            lift-Triple (λ _. Leaves) _ _ (λ w p. as_before p)
              (λ checksum e.
                bind-Triple Leaves Same_ (λ _. Leaves) (λ _. Leaves) _ _
                  (write_next-Triple checksum (result_of-ok _ checksum e) g)
                  (λ _.
                    bind-Triple Leaves Leaves (λ _. Leaves) (λ _. Leaves) _ _
                      (require-Triple Leaves current) (λ _ w l. l))))

    store_if_new-Triple :
        (verdict : Result WalletArtifactRejection (Option (List WalletAntiRollbackEntry)))
        (next : Option (List WalletAntiRollbackEntry))
        → Judged current digest genesis (state_or_new o).entries verdict
        → verdict ≡ ok next
        → Triple Same_ (store_if_new c files (state_or_new o) current next) (λ _. Leaves) Leaves
    unfolding pure
    store_if_new-Triple verdict none j e w p = as_before p
    store_if_new-Triple verdict (some es) (refused x r) e w p = cc
    store_if_new-Triple verdict (some es) (kept l r) e w p = cc
    store_if_new-Triple verdict (some es) (written g r) e w p =
        let q : upsert line_of current (state_or_new o).entries ≡ es = entries_eq verdict _ _ r e in
        rw (← q) (store_entries-Triple g w p)
      where
        entries_eq :
            (v : Result WalletArtifactRejection (Option (List WalletAntiRollbackEntry)))
            (a b : List WalletAntiRollbackEntry)
            → v ≡ ok (some a)
            → v ≡ ok (some b)
            → a ≡ b
        entries_eq v a b h k = cc

  module _ (m : WalletArtifactManifest) (sha256 : List ℕ) (genesis : Bool)
      (stored : Option WalletAntiRollbackState) (w : W)
      (reads : parse_state_file c files (files.state_file w) ≡ ok stored) where
    abbrev Leaves_ : W → Type 0
    Leaves_ =
        Leaves stored (entry_of m sha256) m.anti_rollback.previous_manifest_sha256 genesis
          (files.state_file w)

    commit_over-Triple :
        Triple
          (Same c files fs (files.state_file w))
          (commit_over c files m (entry_of m sha256) genesis (state_or_new stored))
          (λ _. Leaves_)
          Leaves_
    unfolding commit_over
    commit_over-Triple =
        lift-Triple (λ _. Leaves_) _ _ (λ w p. as_before p)
          (λ next e.
            store_if_new-Triple stored (entry_of m sha256) m.anti_rollback.previous_manifest_sha256
              genesis (files.state_file w) _ next
              (judge_entry-Judged (entry_of m sha256) m.anti_rollback.previous_manifest_sha256
                genesis (state_or_new stored).entries
                (valid_entries-IsSorted none (state_or_new stored).entries
                  (parse_state_file-IsOrdered c files (files.state_file w) stored reads)))
              e)

    read_back :
        (v : W)
        → Same c files fs (files.state_file w) v
        → let r =
            (read_anti_rollback_state_locked c files >>= λ o.
            commit_over c files m (entry_of m sha256) genesis (state_or_new o))
              v in
          After (λ _. Leaves_) Leaves_ r.0 r.1
    unfolding ◌>>=◌ read_anti_rollback_state_locked
    read_back v p =
        let e : parse_state_file c files (files.state_file v) ≡ ok stored =
          ap (parse_state_file c files) p ∙ reads in
        rw e (commit_over-Triple v p)

    -- What a commit leaves, whatever it returns.
    pub commit_anti_rollback-Leaves : Leaves_ (commit_anti_rollback c files m sha256 genesis w).1
    unfolding commit_anti_rollback
    commit_anti_rollback-Leaves =
        let S = Same c files fs (files.state_file w) in
        keeps _ _ (
          bind-Triple Leaves_ S (λ _. S) (λ _. Leaves_) _ _
            (λ v p.
              After-weaken (λ _. S) (λ _. S) S Leaves_ (λ _ s h. h) (λ s h. as_before h) _ _
                (acquire-Triple (files.state_file w) v p))
            (λ _ v p. read_back v p) w refl)
      where
        keeps :
            (r : Result WalletArtifactRejection WalletAntiRollbackEntry) (v : W)
            → After (λ _. Leaves_) Leaves_ r v
            → Leaves_ v
        keeps (ok e) v h = h
        keeps (err e) v h = h
