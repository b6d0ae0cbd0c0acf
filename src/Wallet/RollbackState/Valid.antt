-- ===== src/Wallet/RollbackState/Valid.antt =====
-- A valid state is one of valid entries in the strict order of their lines.
use hns_dane_browser_extensi.Prelude.{
  ℕ, ◌≡◌, ◌↔◌, refl, true, Option, none, some, List, [], ◌∷◌, all, bytes_lt, arith,
}
use hns_dane_browser_extensi.PoolStats.History.{strictly_sorted_by}
use hns_dane_browser_extensi.Wallet.Manifest.{is_none_or}
use hns_dane_browser_extensi.Wallet.RollbackState.{
  WalletAntiRollbackEntry, line_of, valid_entry, valid_entries,
}

sorted_cons :
    (x : WalletAntiRollbackEntry) (xs : List WalletAntiRollbackEntry)
    → valid_entries (some x.release_line) xs ≡ true
    → strictly_sorted_by line_of xs ≡ true
    → strictly_sorted_by line_of (x ∷ xs) ≡ true
unfolding valid_entries strictly_sorted_by
sorted_cons x [] h k = refl
sorted_cons x (y ∷ ys) h k = ground arith

pub valid_entries-IsSorted :
    (prior : Option (List ℕ)) (es : List WalletAntiRollbackEntry)
    → valid_entries prior es ≡ true
    → strictly_sorted_by line_of es ≡ true
unfolding valid_entries
valid_entries-IsSorted prior [] h = unfold strictly_sorted_by in refl
valid_entries-IsSorted prior (e ∷ es) h =
    let t : valid_entries (some e.release_line) es ≡ true = ground arith in
    sorted_cons e es t (valid_entries-IsSorted (some e.release_line) es t)

pub valid_entries-all :
    (prior : Option (List ℕ)) (es : List WalletAntiRollbackEntry)
    → valid_entries prior es ≡ true
    → all valid_entry es ≡ true
unfolding valid_entries
valid_entries-all prior [] h = refl
valid_entries-all prior (e ∷ es) h =
    let t : valid_entries (some e.release_line) es ≡ true = ground arith in
    let v : valid_entry e ≡ true = ground arith in
    rw v (valid_entries-all (some e.release_line) es t)

valid_entries_from :
    (prior : Option (List ℕ)) (e : WalletAntiRollbackEntry) (es : List WalletAntiRollbackEntry)
    → is_none_or prior (λ line. bytes_lt line e.release_line) ≡ true
    → strictly_sorted_by line_of (e ∷ es) ≡ true
    → all valid_entry (e ∷ es) ≡ true
    → valid_entries prior (e ∷ es) ≡ true
unfolding valid_entries strictly_sorted_by
valid_entries_from prior e [] b s v = let w : valid_entry e ≡ true = ground arith in rw (b, w)
valid_entries_from prior e (x ∷ xs) b s v =
    let w : valid_entry e ≡ true = ground arith in
    let k : all valid_entry (x ∷ xs) ≡ true = ground arith in
    let lt : bytes_lt e.release_line x.release_line ≡ true = ground arith in
    let t : strictly_sorted_by line_of (x ∷ xs) ≡ true = ground arith in
    rw (b, w) (valid_entries_from (some e.release_line) x xs lt t k)

valid_entries_of :
    (es : List WalletAntiRollbackEntry)
    → strictly_sorted_by line_of es ≡ true
    → all valid_entry es ≡ true
    → valid_entries none es ≡ true
valid_entries_of [] s v = unfold valid_entries in refl
valid_entries_of (e ∷ es) s v = valid_entries_from none e es refl s v

-- The entries of a state pass exactly where their lines are strictly ascending and each entry alone
-- is valid.
pub valid_entries_iff :
    (es : List WalletAntiRollbackEntry)
    → (valid_entries none es ≡ true)
      ↔ ((strictly_sorted_by line_of es ≡ true) × (all valid_entry es ≡ true))
valid_entries_iff es = (
  λ h. (valid_entries-IsSorted none es h, valid_entries-all none es h),
  λ h. valid_entries_of es h.0 h.1,
)
