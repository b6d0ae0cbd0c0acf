-- ===== src/Wallet/AntiRollback/Judge.antt =====
-- What `commit_anti_rollback` decides on the entries it read, in terms of the entry that they hold
-- for the release line.
use hns_dane_browser_extensi.Prelude.{
  ℕ, ◌≢◌, ◌⊎◌, eq→bytes_eq, bytes_eq_refl, subst, ◌≡◌, ◌<◌, ◌≤◌, refl, ap, sym, ◌∙◌, inl, inr, Bool,
  true, false, Bool-cases, Option, none, some, List, ltb, ◌==◌, bytes_eq, bytes_eq→eq, arith,
}
use hns_dane_browser_extensi.Prelude.Result.{Result, ok, err}
use hns_dane_browser_extensi.PoolStats.History.{
  found, absent, strictly_sorted_by, binary_search_by_key,
}
use hns_dane_browser_extensi.PoolStats.History.Sorted.{place, upsert}
use hns_dane_browser_extensi.PoolStats.History.Latest.{
  latest, latest-upsert, present, missing, looked,
}
use hns_dane_browser_extensi.Wallet.Rejection.{WalletArtifactRejection, anti_rollback}
use hns_dane_browser_extensi.Wallet.RollbackState.{WalletAntiRollbackEntry, line_of, entry_eq}
use hns_dane_browser_extensi.Wallet.AntiRollback.{judge_entry, names_digest, is_some}

-- Derived equality is equality.
pub entry_eq_sound : (a b : WalletAntiRollbackEntry) → entry_eq a b ≡ true → a ≡ b
unfolding entry_eq
entry_eq_sound a b h =
    let l = bytes_eq→eq a.release_line b.release_line (ground arith) in
    let n : a.highest_sequence ≡ b.highest_sequence = ground arith in
    let r = bytes_eq→eq a.release_id b.release_id (ground arith) in
    let k = bytes_eq→eq a.signer_key_id b.signer_key_id (ground arith) in
    let m = bytes_eq→eq a.manifest_sha256 b.manifest_sha256 (ground arith) in
    let s = bytes_eq→eq a.artifact_sha256 b.artifact_sha256 (ground arith) in
    λ i. record {
      release_line = l i;
      highest_sequence = n i;
      release_id = r i;
      signer_key_id = k i;
      manifest_sha256 = m i;
      artifact_sha256 = s i;
    }

entry_eq_refl : (a : WalletAntiRollbackEntry) → entry_eq a a ≡ true
unfolding entry_eq
entry_eq_refl a = ground (
  arith,
  bytes_eq_refl a.release_line,
  bytes_eq_refl a.release_id,
  bytes_eq_refl a.signer_key_id,
  bytes_eq_refl a.manifest_sha256,
  bytes_eq_refl a.artifact_sha256,
)

eq→entry_eq : (a b : WalletAntiRollbackEntry) → a ≡ b → entry_eq a b ≡ true
eq→entry_eq a b e = subst (λ x. entry_eq a x ≡ true) e (entry_eq_refl a)

some-eq : {A : Type 0} (a b : A) → some a ≡ some b → a ≡ b
some-eq a b h = cc

module _ (current : WalletAntiRollbackEntry) (digest : Option (List ℕ)) (genesis : Bool)
    (entries : List WalletAntiRollbackEntry) where
  -- Why entries may be written: the line rises above the entry whose manifest the new one names, or
  -- it is founded by a trusted genesis that names none.
  pub data Grounds : Type 0 where
    raised :
        (p : WalletAntiRollbackEntry)
        → latest line_of current.release_line entries ≡ some p
        → p.highest_sequence < current.highest_sequence
        → digest ≡ some p.manifest_sha256
        → Grounds
    founded :
        latest line_of current.release_line entries ≡ none
        → genesis ≡ true
        → digest ≡ none
        → Grounds

  -- Why a commit is refused: the sequence is below the stored one, or is the stored one with
  -- anything else different; it is above, without the digest of the stored manifest; or nothing is
  -- stored for the line and it is not a trusted genesis, or one that names a predecessor.
  pub data Refusal : Type 0 where
    lowered :
        (p : WalletAntiRollbackEntry)
        → latest line_of current.release_line entries ≡ some p
        → current.highest_sequence < p.highest_sequence
        → Refusal
    replaced :
        (p : WalletAntiRollbackEntry)
        → latest line_of current.release_line entries ≡ some p
        → current.highest_sequence ≡ p.highest_sequence
        → current ≢ p
        → Refusal
    unlinked :
        (p : WalletAntiRollbackEntry)
        → latest line_of current.release_line entries ≡ some p
        → p.highest_sequence < current.highest_sequence
        → digest ≢ some p.manifest_sha256
        → Refusal
    untrusted :
        latest line_of current.release_line entries ≡ none
        → (genesis ≡ false) ⊎ (digest ≢ none)
        → Refusal

  pub data Judged (verdict : Result WalletArtifactRejection (Option (List WalletAntiRollbackEntry)))
      : Type 0 where
    refused : Refusal → verdict ≡ err anti_rollback → Judged verdict
    kept :
        latest line_of current.release_line entries ≡ some current
        → verdict ≡ ok none
        → Judged verdict
    written : Grounds → verdict ≡ ok (some (upsert line_of current entries)) → Judged verdict

  names_digest-true : (o : Option (List ℕ)) (d : List ℕ) → names_digest o d ≡ true → o ≡ some d
  names_digest-true none d h = cc
  names_digest-true (some o) d h = ap some (bytes_eq→eq o d h)

  names_digest-false : (o : Option (List ℕ)) (d : List ℕ) → names_digest o d ≡ false → o ≢ some d
  names_digest-false none d h = λ e. cc
  names_digest-false (some o) d h = λ e. cc (eq→bytes_eq o d (some-eq o d e))

  is_some-true : {A : Type 0} (o : Option A) → is_some o ≡ true → o ≢ none
  is_some-true none h = cc
  is_some-true (some a) h = λ e. cc

  is_some-false : {A : Type 0} (o : Option A) → is_some o ≡ false → o ≡ none
  is_some-false none h = refl
  is_some-false (some a) h = cc

  judge_found :
      (i : ℕ) (p : WalletAntiRollbackEntry)
      → latest line_of current.release_line entries ≡ some p
      → place line_of current (found i p) entries ≡ upsert line_of current entries
      → Judged (judge_entry current digest genesis entries (found i p))
  unfolding judge_entry
  judge_found i p l u = elim (Bool-cases (ltb current.highest_sequence p.highest_sequence)) [
    | inl b ↦ refused (lowered p l (ground arith)) (rw b)
    | inr b ↦ elim (Bool-cases (current.highest_sequence == p.highest_sequence)) [
      | inl e ↦ elim (Bool-cases (entry_eq current p)) [
        | inl q ↦ kept (l ∙ ap some (sym (entry_eq_sound current p q))) (rw (b, e, q))
        | inr q ↦
            refused (replaced p l (ground arith) (λ x. cc (eq→entry_eq current p x))) (rw (b, e, q))
      ]
      | inr e ↦ elim (Bool-cases (names_digest digest p.manifest_sha256)) [
        | inl n ↦
            written (raised p l (ground arith) (names_digest-true digest p.manifest_sha256 n))
              (rw (b, e, n) (ap (λ es. ok (some es)) u))
        | inr n ↦
            refused (unlinked p l (ground arith) (names_digest-false digest p.manifest_sha256 n))
              (rw (b, e, n))
      ]
    ]
  ]

  judge_absent :
      (i : ℕ)
      → latest line_of current.release_line entries ≡ none
      → place line_of current (absent i) entries ≡ upsert line_of current entries
      → Judged (judge_entry current digest genesis entries (absent i))
  unfolding judge_entry
  judge_absent i l u = elim (Bool-cases genesis) [
    | inr g ↦ refused (untrusted l (inl g)) (rw g)
    | inl g ↦ elim (Bool-cases (is_some digest)) [
      | inl s ↦ refused (untrusted l (inr (is_some-true digest s))) (rw (g, s))
      | inr s ↦
          written (founded l g (is_some-false digest s)) (rw (g, s) (ap (λ es. ok (some es)) u))
    ]
  ]

  -- On entries sorted by their line a commit is refused, needs no write, or writes. It is refused
  -- only where the stored sequence of the line is larger, or equal with anything else different, or
  -- smaller without the digest of its manifest being named, or where nothing is stored and this is
  -- not a trusted genesis without a predecessor. It needs no write only where it repeats the stored
  -- entry. It writes only where the sequence rises and names the stored digest, or a trusted genesis
  -- founds the line, and then the old entries with the entry of this line set.
  pub judge_entry-Judged :
      strictly_sorted_by line_of entries ≡ true
      → Judged (
          judge_entry current digest genesis entries
            (binary_search_by_key line_of current.release_line entries))
  judge_entry-Judged h = elim (looked line_of current.release_line entries h) [
    | present i p s g l e ↦
        rw s (judge_found i p l (ap (λ q. place line_of current q entries) (sym s)))
    | missing i s l ↦ rw s (judge_absent i l (ap (λ q. place line_of current q entries) (sym s)))
  ]

  -- No line of the written entries is below what it was.
  pub Grounds-highest :
      Grounds
      → (k : List ℕ) (p : WalletAntiRollbackEntry) → latest line_of k entries ≡ some p
      → (q : WalletAntiRollbackEntry) × (latest line_of k (upsert line_of current entries) ≡ some q)
        × (p.highest_sequence ≤ q.highest_sequence)
  Grounds-highest g k p h = elim (Bool-cases (bytes_eq current.release_line k)) [
    | inr n ↦ (p, latest-upsert line_of k current entries ∙ rw n h, ground arith)
    | inl e ↦ (
      current,
      latest-upsert line_of k current entries ∙ rw e,
      rises g (bytes_eq→eq current.release_line k e),
    )
  ]
    where
      rises : Grounds → current.release_line ≡ k → p.highest_sequence ≤ current.highest_sequence
      rises (raised o l lt d) e =
          let q : p.highest_sequence ≡ o.highest_sequence =
            ap (λ x. x.highest_sequence)
              (some-eq p o (sym h ∙ (ap (λ y. latest line_of y entries) (sym e) ∙ l))) in
          omega arith
      rises (founded l t d) e = cc (sym h ∙ (ap (λ y. latest line_of y entries) (sym e) ∙ l))
