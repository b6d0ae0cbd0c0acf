-- ===== src/Wallet/AntiRollback/Stored.antt =====
-- What a state that was read, and a commit that succeeded, say of the state file.
use hns_dane_browser_extensi.Prelude.{
  ℕ, ◌≡◌, refl, ap, sym, ◌∙◌, inl, inr, Bool, true, Bool-cases, Option, none, some, List,
  bytes_eq→eq, arith,
}
use hns_dane_browser_extensi.Prelude.Result.{Result, ok}
use hns_dane_browser_extensi.Prelude.Exec.{
  lifted, ran, lift-bind_ok, reject-bind_ok, bind-Ran, pure, lift,
}
use hns_dane_browser_extensi.PoolStats.History.{found}
use hns_dane_browser_extensi.PoolStats.History.Latest.{latest, present, missing, looked}
use hns_dane_browser_extensi.Wallet.Rejection.{WalletArtifactRejection, anti_rollback}
use hns_dane_browser_extensi.Wallet.Manifest.{WalletArtifactManifest}
use hns_dane_browser_extensi.Wallet.Metadata.{Metadata}
use hns_dane_browser_extensi.Wallet.RollbackState.{
  WalletAntiRollbackEntry, WalletAntiRollbackState, Encodings, line_of, entry_eq, state_bytes,
  valid_anti_rollback_state, valid_entries, anti_rollback_checksum,
}
use hns_dane_browser_extensi.Wallet.RollbackState.Valid.{valid_entries-IsSorted}
use hns_dane_browser_extensi.Wallet.AntiRollback.{
  Files, StateFile, opened, not_found, unreadable, entry_of, state_or_new, parse_state_file,
  state_confirmed, is_bytes, confirmed_state, state_file_unsafe, read_anti_rollback_state_locked,
  require_anti_rollback_entry_locked, require_in, holds_entry, store_entries, store_if_new,
  commit_over, commit_anti_rollback,
}
use hns_dane_browser_extensi.Wallet.AntiRollback.Judge.{
  entry_eq_sound, judge_entry-Judged, Judged, refused, kept, written,
}

-- A state that may be committed over: one with valid entries.
abbrev pub IsOrdered : Option WalletAntiRollbackState → Type 0
IsOrdered o = valid_entries none (state_or_new o).entries ≡ true

pub valid_state-entries :
    (s : WalletAntiRollbackState)
    → valid_anti_rollback_state s ≡ true
    → valid_entries none s.entries ≡ true
unfolding valid_anti_rollback_state
valid_state-entries s h = ground arith

module _ {W : Type 0} (c : Encodings) (files : Files W) where
  -- The bytes that a state was parsed from are its own, it is valid, and so is its checksum.
  pub data Confirmed (f : StateFile) (s : WalletAntiRollbackState) : Type 0 where
    confirmed :
        (m : Metadata) (bytes : List ℕ) (final : Metadata)
        → f ≡ opened m bytes final
        → c.state_from_slice bytes ≡ some s
        → state_bytes c s ≡ some bytes
        → valid_anti_rollback_state s ≡ true
        → anti_rollback_checksum c s ≡ some s.checksum_sha256
        → Confirmed f s

  is_bytes-true : (o : Option (List ℕ)) (b : List ℕ) → is_bytes c files o b ≡ true → o ≡ some b
  is_bytes-true none b h = cc
  is_bytes-true (some a) b h = ap some (bytes_eq→eq a b h)

  state_confirmed-Confirmed :
      (m : Metadata) (bytes : List ℕ) (final : Metadata) (t : WalletAntiRollbackState)
      → c.state_from_slice bytes ≡ some t
      → state_confirmed c files bytes t ≡ true
      → Confirmed (opened m bytes final) t
  unfolding state_confirmed
  state_confirmed-Confirmed m bytes final t e h =
      confirmed m bytes final refl e (is_bytes-true _ bytes (ground arith)) (ground arith)
        (is_bytes-true _ t.checksum_sha256 (ground arith))

  ok_some-eq :
      {A : Type 0} (r : Result WalletArtifactRejection (Option A)) (a b : A)
      → r ≡ ok (some a)
      → r ≡ ok (some b)
      → a ≡ b
  ok_some-eq r a b h k = cc

  confirmed_state-Confirmed :
      (m : Metadata) (bytes : List ℕ) (final : Metadata) (o : Option WalletAntiRollbackState)
      (s : WalletAntiRollbackState)
      → c.state_from_slice bytes ≡ o
      → confirmed_state c files bytes o ≡ ok (some s)
      → Confirmed (opened m bytes final) s
  confirmed_state-Confirmed m bytes final none s e h = cc
  confirmed_state-Confirmed m bytes final (some t) s e h =
      elim (Bool-cases (state_confirmed c files bytes t)) [
        | inr n ↦ cc
        | inl y ↦
            let q : t ≡ s = ok_some-eq (confirmed_state c files bytes (some t)) t s (rw y) h in
            rw (← q) (state_confirmed-Confirmed m bytes final t e y)
      ]

  pub parse_state_file-Confirmed :
      (f : StateFile) (s : WalletAntiRollbackState)
      → parse_state_file c files f ≡ ok (some s)
      → Confirmed f s
  unfolding parse_state_file
  parse_state_file-Confirmed not_found s h = cc
  parse_state_file-Confirmed unreadable s h = cc
  parse_state_file-Confirmed (opened m bytes final) s h =
      elim (Bool-cases (state_file_unsafe c files m bytes final)) [
        | inl u ↦ cc
        | inr u ↦ confirmed_state-Confirmed m bytes final _ s refl (rw u at h)
      ]

  pub parse_state_file-IsOrdered :
      (f : StateFile) (o : Option WalletAntiRollbackState)
      → parse_state_file c files f ≡ ok o
      → IsOrdered o
  parse_state_file-IsOrdered f none h = unfold valid_entries in refl
  parse_state_file-IsOrdered f (some s) h = elim (parse_state_file-Confirmed f s h) [
    | confirmed m bytes final e p b v k ↦ valid_state-entries s v
  ]

  -- The entry that `require_anti_rollback_entry_locked` looks for is the one of its line.
  abbrev pub IsStored : StateFile → WalletAntiRollbackEntry → Type 0
  IsStored f e =
      (s : WalletAntiRollbackState) × (parse_state_file c files f ≡ ok (some s))
      × (latest line_of e.release_line s.entries ≡ some e)

  holds_entry-found :
      (e p : WalletAntiRollbackEntry) (i : ℕ) → holds_entry c files e (found i p) ≡ ok tt → p ≡ e
  holds_entry-found e p i h = elim (Bool-cases (entry_eq p e)) [
    | inl q ↦ entry_eq_sound p e q
    | inr q ↦ cc
  ]

  require_in-latest :
      (e : WalletAntiRollbackEntry) (s : WalletAntiRollbackState)
      → valid_entries none s.entries ≡ true
      → require_in c files e (some s) ≡ ok tt
      → latest line_of e.release_line s.entries ≡ some e
  require_in-latest e s v h =
      elim (looked line_of e.release_line s.entries (valid_entries-IsSorted none s.entries v)) [
        | present i p b g l k ↦ l ∙ ap some (holds_entry-found e p i (rw b at h))
        | missing i b l ↦ cc
      ]

  require_in-IsStored :
      (e : WalletAntiRollbackEntry) (f : StateFile) (o : Option WalletAntiRollbackState)
      → parse_state_file c files f ≡ ok o
      → require_in c files e o ≡ ok tt
      → IsStored f e
  require_in-IsStored e f none p h = cc
  require_in-IsStored e f (some s) p h =
      (s, p, require_in-latest e s (parse_state_file-IsOrdered f (some s) p) h)

  require-IsStored :
      (e : WalletAntiRollbackEntry) (w : W) {w' : W}
      → require_anti_rollback_entry_locked c files e w ≡ (ok tt, w')
      → IsStored (files.state_file w') e
  unfolding require_anti_rollback_entry_locked read_anti_rollback_state_locked lift
  require-IsStored e w {w'} h =
      elim (bind-Ran (read_anti_rollback_state_locked c files) (λ o. lift (require_in c files e o))
        w h) [
          | ran o u r k ↦
              let world : w ≡ w' = ap (λ p. p.1) r ∙ ap (λ p. p.1) k in
              rw (← world)
                (require_in-IsStored e (files.state_file w) o (ap (λ p. p.0) r) (ap (λ p. p.0) k))
        ]

  ok_eq :
      (a b : WalletAntiRollbackEntry) (r : Result WalletArtifactRejection WalletAntiRollbackEntry)
      → r ≡ ok a
      → r ≡ ok b
      → b ≡ a
  ok_eq a b r h k = cc

  store_entries-IsStored :
      (s : WalletAntiRollbackState) (current : WalletAntiRollbackEntry)
      (entries : List WalletAntiRollbackEntry) (w : W) {e : WalletAntiRollbackEntry} {w' : W}
      → store_entries c files s current entries w ≡ (ok e, w')
      → (e ≡ current) × IsStored (files.state_file w') current
  unfolding store_entries pure
  store_entries-IsStored s current entries w {e} {w'} h =
      let a = reject-bind_ok _ anti_rollback _ w h in
      elim (lift-bind_ok _ _ w a.1) [
        | lifted checksum k b ↦ elim (bind-Ran _ _ w b) [
          | ran d u r k ↦ elim (bind-Ran _ _ u k) [
            | ran d v q l ↦ (
              ok_eq current e _ refl (ap (λ p. p.0) l),
              rw (← ap (λ p. p.1) l) (require-IsStored current u q),
            )
          ]
        ]
      ]

  store_if_new-IsStored :
      (o : Option WalletAntiRollbackState) (current : WalletAntiRollbackEntry)
      (digest : Option (List ℕ)) (genesis : Bool)
      (verdict : Result WalletArtifactRejection (Option (List WalletAntiRollbackEntry)))
      (next : Option (List WalletAntiRollbackEntry)) (w : W) {e : WalletAntiRollbackEntry} {w' : W}
      → parse_state_file c files (files.state_file w) ≡ ok o
      → Judged current digest genesis (state_or_new o).entries verdict
      → verdict ≡ ok next
      → store_if_new c files (state_or_new o) current next w ≡ (ok e, w')
      → (e ≡ current) × IsStored (files.state_file w') current
  unfolding pure
  store_if_new-IsStored o current digest genesis verdict next w p (refused x r) n h = cc
  store_if_new-IsStored o current digest genesis verdict none w p (written g r) n h = cc
  store_if_new-IsStored o current digest genesis verdict none w {e} {w'} p (kept l r) n h =
      (ok_eq current e _ refl (ap (λ q. q.0) h), rw (← ap (λ q. q.1) h) (held o p l))
    where
      held :
          (o : Option WalletAntiRollbackState)
          → parse_state_file c files (files.state_file w) ≡ ok o
          → latest line_of current.release_line (state_or_new o).entries ≡ some current
          → IsStored (files.state_file w) current
      held none p l = unfold latest in cc
      held (some s) p l = (s, p, l)
  store_if_new-IsStored o current digest genesis verdict (some es) w p j n h =
      store_entries-IsStored (state_or_new o) current es w h

  commit_over-IsStored :
      (m : WalletArtifactManifest) (digest : List ℕ) (genesis : Bool)
      (o : Option WalletAntiRollbackState) (w : W) {e : WalletAntiRollbackEntry} {w' : W}
      → parse_state_file c files (files.state_file w) ≡ ok o
      → commit_over c files m (entry_of m digest) genesis (state_or_new o) w ≡ (ok e, w')
      → (e ≡ entry_of m digest) × IsStored (files.state_file w') (entry_of m digest)
  unfolding commit_over
  commit_over-IsStored m digest genesis o w p h = elim (lift-bind_ok _ _ w h) [
    | lifted next v k ↦
        store_if_new-IsStored o (entry_of m digest) m.anti_rollback.previous_manifest_sha256 genesis
          _ next w p
          (judge_entry-Judged (entry_of m digest) m.anti_rollback.previous_manifest_sha256 genesis
            (state_or_new o).entries
            (valid_entries-IsSorted none (state_or_new o).entries
              (parse_state_file-IsOrdered (files.state_file w) o p)))
          v k
  ]

  -- A commit that succeeds returns the entry of the manifest it was called for, and the state file
  -- that it leaves reads as a valid state whose entry for the release line is that entry. No
  -- assumption is made on what the calls of the system do.
  pub commit_anti_rollback-IsStored :
      (m : WalletArtifactManifest) (digest : List ℕ) (genesis : Bool) (w w' : W)
      (e : WalletAntiRollbackEntry)
      → commit_anti_rollback c files m digest genesis w ≡ (ok e, w')
      → (e ≡ entry_of m digest) × IsStored (files.state_file w') (entry_of m digest)
  unfolding commit_anti_rollback read_anti_rollback_state_locked
  commit_anti_rollback-IsStored m digest genesis w w' e h = elim (bind-Ran _ _ w h) [
    | ran d u a k ↦ elim (bind-Ran _ _ u k) [
      | ran o v r l ↦
          commit_over-IsStored m digest genesis o v
            (ap (λ f. parse_state_file c files (files.state_file f)) (sym (ap (λ q. q.1) r))
              ∙ ap (λ q. q.0) r)
            l
    ]
  ]
