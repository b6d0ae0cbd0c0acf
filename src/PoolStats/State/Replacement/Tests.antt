-- ===== src/PoolStats/State/Replacement/Tests.antt =====
-- The tests of the replacement rules, read as facts about sequences and identifiers.
use hns_dane_browser_extensi.Prelude.{
  ℕ, ◌≤◌, ◌≡◌, ◌≢◌, Bool, true, false, ◌&&◌, not, List, ltb, ◌==◌, bytes_eq, bytes_eq→eq,
  eq→bytes_eq, arith,
}

module _ (n m : ℕ) (d d' : List ℕ) where
  -- Another object at the same sequence.
  abbrev pub is_equivocation : Bool
  is_equivocation = n == m && not (bytes_eq d d')

  pub same_sequence : is_equivocation ≡ true → n ≡ m
  same_sequence h = ground arith

  pub other_object : is_equivocation ≡ true → d ≢ d'
  other_object h p = ground (arith, eq→bytes_eq d d' p)

  pub equal_object : m ≡ n → is_equivocation ≡ false → d' ≡ d
  equal_object q h = ground (arith, bytes_eq→eq d d')

module _ (n m : ℕ) where
  pub equal_sequence : ltb n m ≡ false → ltb m n ≡ false → m ≡ n
  equal_sequence h k = ground arith

  pub newer_le : ltb m n ≡ true → m ≤ n
  newer_le h = ground arith

  pub newer_ne : ltb m n ≡ true → m ≢ n
  newer_ne h q = ground arith
